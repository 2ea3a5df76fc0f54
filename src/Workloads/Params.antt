-- ===== src/Workloads/Params.antt =====
-- internal/workloads/params.go: what a workload's parameter may be.
pub mod Values
pub mod Laws
use virtwork.Base.{
  ℕ, suc, String, Bool, true, false, not, ◌&&◌, ◌||◌, Option, none, some, List, [], ◌∷◌, ◌==◌,
  if◌then◌else◌,
}
use virtwork.Base.Text.Fold.{codes, to_lower, same_codes, atoi}
use virtwork.Base.Text.Split.{split, contains}

pub data ParamType : Type 0 where
  param_string param_int param_bool param_list param_dict : ParamType

pub record ParamDef : Type 0 where
  pub key : String
  pub type : ParamType
  pub default : String
  pub desc : String

abbrev pub ParamSchema : Type 0
ParamSchema = List ParamDef

-- The errors of `Validate`, with what their messages name: the key, and the value, the position or
-- the entry at fault.
pub data ParamError : Type 0 where
  param_empty : String → ParamError
  param_not_int : String → String → ParamError
  param_not_bool : String → String → ParamError
  param_empty_element : String → ℕ → ParamError
  param_no_equals : String → String → ParamError

-- the loop over the elements of a list, at position `i`
check_elements : String → ℕ → List String → Option ParamError
check_elements key i [] = none
check_elements key i (p ∷ parts) =
    if p == "" then some (param_empty_element key i) else check_elements key (suc i) parts

-- the loop over the entries of a dict
check_entries : String → ℕ → List String → Option ParamError
check_entries key i [] = none
check_entries key i (p ∷ parts) =
    if p == ""
    then some (param_empty_element key i)
    else if not (contains b'=' p)
    then some (param_no_equals key p)
    else check_entries key (suc i) parts

abbrev is_some {ℓ} : {A : Type ℓ} → Option A → Bool
is_some none = false
is_some (some a) = true

check_value : String → ParamType → String → Option ParamError
check_value key param_string value = if value == "" then some (param_empty key) else none
check_value key param_int value =
    if is_some (atoi value) then none else some (param_not_int key value)
check_value key param_bool value =
    let lower = to_lower value in
    if not (same_codes lower (codes "true")) && not (same_codes lower (codes "false"))
    then some (param_not_bool key value)
    else none
check_value key param_list value = check_elements key 0 (split b';' value)
check_value key param_dict value = check_entries key 0 (split b';' value)

-- `(*ParamDef).Validate`; `none` is the nil error
pub validate : ParamDef → String → Option ParamError
unfolding check_value check_elements check_entries
validate d value = check_value d.key d.type value

-- `ParamSchema.Find`; `none` is the nil pointer
unfoldable pub find : ParamSchema → String → Option ParamDef
find [] key = none
find (d ∷ schema) key = if d.key == key then some d else find schema key
