-- ===== src/Config/Params/RoundTrip.antt =====
-- Printed params are parsed again.
use Prim.Native.String
use text.Mathlib.TextLemmas.{cons-ne-nil, append-eq-nil_iff}
use virtwork.Base.Assoc.{lookup, insert, lookup-insert}
use virtwork.Base.{
  ◌&&◌, Bool-cases, inl, inr, eq_iff, String, Option, none, some, List, [], ◌∷◌, map, Result, ok,
  err, ◌==◌, ◌≡◌, ◌≢◌, refl, ap, ◌∙◌, All, ne→beq, if◌then◌else◌,
}
use virtwork.Base.Text.Decimal.{Without}
use virtwork.Base.Text.Fold.{trim_space}
use virtwork.Base.Text.Split.{cut, join, cut-append, split-join}
use virtwork.Config.Params.{
  Entry, WorkloadParams, ParamsError, parse_workload, parse_pairs, parse_params, put, existing,
}

-- `workload.key=value`
abbrev pub print : Entry → String
print (workload, key, value) =
    String.◌++◌ workload (String.◌∷◌ "." (String.◌++◌ key (String.◌∷◌ "=" value)))

-- An entry that the syntax can express: the workload is not empty and has no dot, the key is not
-- empty and has no equals sign, and the print has no comma and no white space around it.
abbrev pub IsEntry : Entry → Type 0
IsEntry (workload, key, value) =
    (workload ≢ "")
    × Without b'.' workload
    × (key ≢ "")
    × Without b'=' key
    × Without b',' (print (workload, key, value))
    × (trim_space (print (workload, key, value)) ≡ print (workload, key, value))

print-nonempty : (e : Entry) → print e ≢ ""
print-nonempty (workload, key, value) h = cons-ne-nil _ _ ((append-eq-nil_iff.0 h).1)

parse_print : (e : Entry) → IsEntry e → parse_workload (print e) (cut b'.' (print e)) ≡ ok e
parse_print (workload, key, value) (filled, no_dot, key_filled, no_equals, no_comma, trimmed) =
    rw
      (
        cut-append "." workload (String.◌++◌ key (String.◌∷◌ "=" value)) no_dot,
        ne→beq workload "" filled,
        cut-append "=" key value no_equals,
        ne→beq key "" key_filled,
      )
      refl

-- the entries, put one after the other
abbrev pub put_all : List Entry → WorkloadParams → WorkloadParams
put_all [] result = result
put_all (e ∷ entries) result = put_all entries (put e result)

parse_pairs-print :
    (entries : List Entry) (result : WorkloadParams)
    → All IsEntry entries
    → parse_pairs (map print entries) result ≡ ok (put_all entries result)
unfolding parse_pairs
parse_pairs-print [] result h = refl
parse_pairs-print (e ∷ entries) result
      ((filled, no_dot, key_filled, no_equals, no_comma, trimmed), hs) =
    rw
      (
        trimmed,
        ne→beq (print e) "" (print-nonempty e),
        parse_print e (filled, no_dot, key_filled, no_equals, no_comma, trimmed),
      )
      (parse_pairs-print entries (put e result) hs)

no_commas : (entries : List Entry) → All IsEntry entries → All (Without b',') (map print entries)
no_commas [] h = tt
no_commas (e ∷ entries) (h, hs) = (h.4, no_commas entries hs)

join-nonempty : (e : Entry) (entries : List Entry) → join "," (map print (e ∷ entries)) ≢ ""
unfolding join
join-nonempty e [] h = print-nonempty e h
join-nonempty e (e' ∷ entries) h = print-nonempty e ((append-eq-nil_iff.0 h).0)

parse_params-print :
    (entries : List Entry)
    → entries ≢ []
    → All IsEntry entries
    → trim_space (join "," (map print entries)) ≡ join "," (map print entries)
    → parse_params (join "," (map print entries)) ≡ ok (put_all entries [])
unfolding parse_params
parse_params-print [] some_entry h trimmed = absurd (some_entry refl)
parse_params-print (e ∷ entries) some_entry h trimmed =
    rw
      (
        trimmed,
        ne→beq (join "," (map print (e ∷ entries))) "" (join-nonempty e entries),
        split-join "," (map print (e ∷ entries)) (cc) (no_commas (e ∷ entries) h),
      )
      (parse_pairs-print (e ∷ entries) [] h)

-- the param `key` of a workload
abbrev pub value_of : String → String → WorkloadParams → Option String
value_of workload key result = lookup key (existing (lookup workload result))

-- the value of the last entry for a param, or `before`
abbrev pub last_value : String → String → List Entry → Option String → Option String
last_value workload key [] before = before
last_value workload key ((w, k, value) ∷ entries) before =
    last_value workload key entries (if workload == w && key == k then some value else before)

value_of-put :
    (workload key w k value : String) (result : WorkloadParams)
    → value_of workload key (put (w, k, value) result)
      ≡ (if workload == w && key == k then some value else value_of workload key result)
unfolding put
value_of-put workload key w k value result =
    rw (lookup-insert workload w (insert k value (existing (lookup w result))) result)
      (elim (Bool-cases (workload == w)) [
        | inl t ↦ rw (t, (eq_iff workload w).0 t) (lookup-insert key k value _)
        | inr f ↦ rw f refl
      ])

value_of-put_all :
    (workload key : String) (entries : List Entry) (result : WorkloadParams)
    → value_of workload key (put_all entries result)
      ≡ last_value workload key entries (value_of workload key result)
value_of-put_all workload key [] result = refl
value_of-put_all workload key ((w, k, value) ∷ entries) result =
    value_of-put_all workload key entries (put (w, k, value) result)
    ∙ ap (last_value workload key entries) (value_of-put workload key w k value result)

-- The result is no error, and each param in it has the value of the last entry for it.
abbrev pub Reads : List Entry → Result ParamsError WorkloadParams → Type 0
Reads entries (ok result) =
    (workload key : String) → value_of workload key result ≡ last_value workload key entries none
Reads entries (err e) = ⊥

-- Entries that the syntax can express, printed as `workload.key=value` and joined by commas, are
-- read back without an error: each param of each workload has the value of the last entry for it,
-- and none if there is none. There is at least one entry, the entries are as `IsEntry` says, and
-- their text has no white space around it.
pub parse_params-Reads :
    (entries : List Entry)
    → entries ≢ []
    → All IsEntry entries
    → trim_space (join "," (map print entries)) ≡ join "," (map print entries)
    → Reads entries (parse_params (join "," (map print entries)))
unfolding lookup
parse_params-Reads entries some_entry h trimmed =
    rw (parse_params-print entries some_entry h trimmed)
      (λ workload key. value_of-put_all workload key entries [])
