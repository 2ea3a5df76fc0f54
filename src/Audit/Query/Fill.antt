-- ===== src/Audit/Query/Fill.antt =====
-- The arguments of a query stand in the order of its placeholders.
use Prim.Native.Char.{Char, code}
use Prim.Native.String
use text.Mathlib.TextLemmas.{nil-append, cons-append, append-nil, append_assoc}
use virtwork.Base.{
  ℕ, String, false, List, [], ◌∷◌, ◌++◌, ◌≡◌, ◌≢◌, refl, sym, ap, ◌∙◌, eqb, ◌==◌, Bool-cases, inl,
  inr, arith, if◌then◌else◌,
}
use virtwork.Base.Text.Decimal.{Without}
use virtwork.Base.Text.Split.{join, contains, contains-Without}
use virtwork.Audit.Query.{placeholders, type_condition, type_args, build_mark_deleted_query}

-- the argument for a placeholder, and those for the others
abbrev pub fill_next : Char → List String → (List String → String) → String
fill_next c [] rest = String.◌∷◌ c (rest [])
fill_next c (a ∷ args) rest = String.◌++◌ a (rest args)

-- The text with each placeholder replaced by the next argument, as the driver binds them.
unfoldable pub fill : String → List String → String
fill String.[] args = ""
fill (String.◌∷◌ c s) args =
    if eqb (code c) b'?' then fill_next c args (λ rest. fill s rest) else String.◌∷◌ c (fill s args)

fill-fixed :
    (s t : String) (args : List String)
    → Without b'?' s
    → fill (String.◌++◌ s t) args ≡ String.◌++◌ s (fill t args)
unfolding fill
fill-fixed String.[] t args h = ap (λ x. fill x args) (nil-append t) ∙ sym (nil-append _)
fill-fixed (String.◌∷◌ c s) t args (h, hs) =
    ap (λ x. fill x args) (cons-append c s t)
    ∙ (rw (eqb-other (code c) h) (ap (λ x. String.◌∷◌ c x) (fill-fixed s t args hs)))
    ∙ sym (cons-append c s _)
  where
    eqb-other : (k : ℕ) → k ≢ b'?' → eqb k b'?' ≡ false
    eqb-other k n = ground arith

fill-placeholder :
    (t a : String) (args : List String)
    → fill (String.◌++◌ "?" t) (a ∷ args) ≡ String.◌++◌ a (fill t args)
unfolding fill
fill-placeholder t a args =
    ap (λ x. fill x (a ∷ args)) (cons-append "?" "" t ∙ ap (String.◌∷◌ "?") (nil-append t))

-- the items of a list, separated by commas
fill-join :
    (items : List String) (t : String) (args : List String)
    → fill (String.◌++◌ (join "," (placeholders items)) t) (items ++ args)
      ≡ String.◌++◌ (join "," items) (fill t args)
unfolding fill join
fill-join [] t args = ap (λ x. fill x args) (nil-append t) ∙ sym (nil-append _)
fill-join (x ∷ []) t args = fill-placeholder t x args
fill-join (x ∷ y ∷ items) t args =
    ap (λ u. fill u (x ∷ y ∷ items ++ args))
      (append_assoc "?" (String.◌∷◌ "," (join "," (placeholders (y ∷ items)))) t)
    ∙ fill-placeholder (String.◌++◌ (String.◌∷◌ "," (join "," (placeholders (y ∷ items)))) t) x
        (y ∷ items ++ args)
    ∙ ap (String.◌++◌ x) (
        ap (λ u. fill u (y ∷ items ++ args)) (cons-append "," _ t)
        ∙ ap (String.◌∷◌ ",") (fill-join (y ∷ items) t args)
        ∙ sym (cons-append "," _ _))
    ∙ sym (append_assoc x _ _)

-- The statement with its values in their places: the table's rows with one of the names, the
-- namespace and one of the runs, and the type if there is one.
abbrev pub marked_statement :
    (table name_col type : String) (names : List String) (namespace : String)
    (run_ids : List String) (now : String)
    → String
marked_statement table name_col type names namespace run_ids now = String.◌++◌ "UPDATE " (
    String.◌++◌ table (
      String.◌++◌ " SET status = 'deleted', deleted_at = " (
        String.◌++◌ now (
          String.◌++◌ "\n\t\t WHERE " (
            String.◌++◌ name_col (
              String.◌++◌ " IN (" (
                String.◌++◌ (join "," names) (
                  String.◌++◌ ") AND namespace = " (
                    String.◌++◌ namespace (
                      String.◌++◌
                        "\n\t\t   AND audit_id IN (SELECT id FROM audit_log WHERE run_id IN ("
                        (String.◌++◌ (join "," run_ids) (
                          String.◌++◌ "))" (
                            if type == ""
                            then ""
                            else String.◌++◌ " AND resource_type = " type)))))))))))))

fixed :
    (s : String) (t : String) (args : List String) {u : String}
    → contains b'?' s ≡ false
    → fill t args ≡ u
    → fill (String.◌++◌ s t) args ≡ String.◌++◌ s u
fixed s t args h e = fill-fixed s t args (contains-Without b'?' s h) ∙ ap (String.◌++◌ s) e

placed :
    (a : String) (t : String) (args : List String) {u : String}
    → fill t args ≡ u
    → fill (String.◌++◌ "?" t) (a ∷ args) ≡ String.◌++◌ a u
placed a t args e = fill-placeholder t a args ∙ ap (String.◌++◌ a) e

joined :
    (items : List String) (t : String) (args : List String) {u : String}
    → fill t args ≡ u
    → fill (String.◌++◌ (join "," (placeholders items)) t) (items ++ args)
      ≡ String.◌++◌ (join "," items) u
joined items t args e = fill-join items t args ∙ ap (String.◌++◌ (join "," items)) e

fill-empty : fill "" [] ≡ ""
unfolding fill
fill-empty = refl

fill-type :
    (type : String)
    → fill (type_condition type) (type_args type)
      ≡ (if type == "" then "" else String.◌++◌ " AND resource_type = " type)
unfolding contains
fill-type type = elim (Bool-cases (type == "")) [
  | inl e ↦ rw e fill-empty
  | inr n ↦ rw n (
      fixed " AND resource_type = " "?" (type ∷ []) refl
        (placed type "" [] fill-empty ∙ append-nil type))
]

-- The arguments of the query stand in the order of its placeholders: with each placeholder replaced
-- by the next argument, as the driver binds them, the text is the update of the table's rows whose
-- name is one of the names, whose namespace is the namespace, whose execution is of one of the run
-- ids, and, unless the type is empty, whose type is the type. The names of the table and of its
-- column have no question mark.
pub build_mark_deleted_query-fill :
    (table name_col type : String) (names : List String) (namespace : String)
    (run_ids : List String) (now : String)
    → contains b'?' table ≡ false
    → contains b'?' name_col ≡ false
    → let (query, args) =
        build_mark_deleted_query table name_col type names namespace run_ids now in
      fill query args ≡ marked_statement table name_col type names namespace run_ids now
unfolding build_mark_deleted_query contains
build_mark_deleted_query-fill table name_col type names namespace run_ids now t c =
    fixed "UPDATE " _ _ refl (
      fixed table _ _ t (
        fixed " SET status = 'deleted', deleted_at = " _ _ refl (
          placed now _ _ (
            fixed "\n\t\t WHERE " _ _ refl (
              fixed name_col _ _ c (
                fixed " IN (" _ _ refl (
                  joined names _ _ (
                    fixed ") AND namespace = " _ _ refl (
                      placed namespace _ _ (
                        fixed "\n\t\t   AND audit_id IN (SELECT id FROM audit_log WHERE run_id IN ("
                          _ _ refl
                          (joined run_ids _ _ (fixed "))" _ _ refl (fill-type type)))))))))))))
