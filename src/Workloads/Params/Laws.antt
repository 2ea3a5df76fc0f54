-- ===== src/Workloads/Params/Laws.antt =====
-- `Validate` accepts exactly the values of the declared type.

use text.Mathlib.TextLemmas.{cons-ne-nil}
use virtwork.Base.{
  ne→beq, ℕ, suc, String, ◌≡◌, refl, sym, ap, ◌∙◌, ◌≢◌, ◌↔◌, true, Option, none, some, List, [],
  ◌∷◌, arith, eq_iff, All, All-map_of, subst,
}
use virtwork.Base.Text.Decimal.{Without}
use virtwork.Base.Text.Fold.{codes, to_lower, atoi}
use virtwork.Base.Text.Fold.Numerals.{atoi_iff}
use virtwork.Base.Text.Fold.Codes.{same_codes_sound, same_codes_complete}
use virtwork.Base.Text.Split.{
  split, contains, split-Without, split-ne-nil, join-split, split-join, contains_sound,
  contains-append,
}
use virtwork.Workloads.Params.{
  ParamType, param_string, param_int, param_bool, param_list, param_dict, ParamDef, check_elements,
  check_entries, check_value, is_some, validate,
}
use virtwork.Workloads.Params.Values.{IsElement, IsEntry, IsJoined, Accepts}

check_elements_sound :
    (key : String) (i : ℕ) (parts : List String)
    → check_elements key i parts ≡ none
    → All (λ p. p ≢ "") parts
unfolding check_elements
check_elements_sound key i [] h = tt
check_elements_sound key i (p ∷ parts) h =
    (ground (arith, eq_iff p ""), check_elements_sound key (suc i) parts (ground arith))

check_elements_complete :
    (key : String) (i : ℕ) (parts : List String)
    → All (λ p. p ≢ "") parts
    → check_elements key i parts ≡ none
unfolding check_elements
check_elements_complete key i [] h = refl
check_elements_complete key i (p ∷ parts) (h, hs) =
    ground (arith, eq_iff p "", check_elements_complete key (suc i) parts hs)

check_entries_sound :
    (key : String) (i : ℕ) (parts : List String)
    → check_entries key i parts ≡ none
    → All (λ p. contains b'=' p ≡ true) parts
unfolding check_entries
check_entries_sound key i [] h = tt
check_entries_sound key i (p ∷ parts) h =
    (ground arith, check_entries_sound key (suc i) parts (ground arith))

contains-ne-nil : (k : ℕ) (p : String) → contains k p ≡ true → p ≢ ""
unfolding contains
contains-ne-nil k String.[] h = absurd (cc)
contains-ne-nil k (String.◌∷◌ c p) h = cons-ne-nil c p

check_entries_complete :
    (key : String) (i : ℕ) (parts : List String)
    → All (λ p. contains b'=' p ≡ true) parts
    → check_entries key i parts ≡ none
unfolding check_entries
check_entries_complete key i [] h = refl
check_entries_complete key i (p ∷ parts) (h, hs) =
    ground
      (arith, ne→beq p "" (contains-ne-nil b'=' p h), check_entries_complete key (suc i) parts hs)

All-zip :
    (P Q R : String → Type 0)
    → ((p : String) → P p → Q p → R p)
    → (ps : List String) → All P ps
    → All Q ps
    → All R ps
All-zip P Q R f [] h k = tt
All-zip P Q R f (p ∷ ps) (h, hs) (k, ks) = (f p h k, All-zip P Q R f ps hs ks)

-- What holds of every part of the split value, in terms of the joined parts.
IsJoined-of_split :
    (Q R : String → Type 0) (value : String)
    → ((p : String) → Q p → Without b';' p → R p)
    → All Q (split b';' value)
    → IsJoined R value
IsJoined-of_split Q R value f h = (
  split b';' value,
  split-ne-nil b';' value,
  All-zip Q (Without b';') R f _ h (split-Without b';' value),
  sym (join-split ";" value),
)

split-of_IsJoined :
    (Q R : String → Type 0) (value : String)
    → ((p : String) → R p → Q p × Without b';' p)
    → IsJoined R value
    → All Q (split b';' value)
split-of_IsJoined Q R value f (parts, ne, h, at) =
    let same : split b';' value ≡ parts =
      ap (split b';') at ∙ split-join ";" parts ne (All-map_of parts (λ p r. (f p r).1) h) in
    subst (All Q) (sym same) (All-map_of parts (λ p r. (f p r).0) h)

some_of_is_some {ℓ} : {A : Type ℓ} (o : Option A) → is_some o ≡ true → (a : A) × (o ≡ some a)
some_of_is_some none h = absurd (cc)
some_of_is_some (some a) h = (a, refl)

check_value_iff :
    (key : String) (t : ParamType) (value : String)
    → (check_value key t value ≡ none) ↔ Accepts t value
unfolding check_value
check_value_iff key param_string value =
    (ground (arith, eq_iff value ""), ground (arith, eq_iff value ""))
check_value_iff key param_int value = (
  λ h. (atoi_iff value).0 (some_of_is_some (atoi value) (ground arith)),
  λ h. let (z, e) = (atoi_iff value).1 h in ground arith,
)
check_value_iff key param_bool value =
    let lower = to_lower value in
    (
      ground (arith, same_codes_sound lower (codes "true"), same_codes_sound lower (codes "false")),
      ground (
        arith,
        same_codes_complete lower (codes "true"),
        same_codes_complete lower (codes "false"),
      ),
    )
check_value_iff key param_list value = (
  λ h.
      IsJoined-of_split (λ p. p ≢ "") IsElement value (λ p ne w. (ne, w))
        (check_elements_sound key 0 _ h),
  λ h.
      check_elements_complete key 0 _
        (split-of_IsJoined (λ p. p ≢ "") IsElement value (λ p e. e) h),
)
check_value_iff key param_dict value = (
  λ h.
      IsJoined-of_split (λ p. contains b'=' p ≡ true) IsEntry value
        (λ p has w. (contains_sound "=" p has, w)) (check_entries_sound key 0 _ h),
  λ h. check_entries_complete key 0 _ (
      split-of_IsJoined (λ p. contains b'=' p ≡ true) IsEntry value
        (λ p ((k, v, e), w). (ap (contains b'=') e ∙ contains-append "=" k v, w)) h),
)

-- `Validate` returns no error exactly on the values that the parameter's type accepts.
pub validate_iff :
    (d : ParamDef) (value : String) → (validate d value ≡ none) ↔ Accepts d.type value
unfolding validate
validate_iff d value = check_value_iff d.key d.type value
