-- ===== src/Workloads/Params/Values.antt =====
-- The values that a parameter of each type may have, said without reference to the checks.
use Prim.Native.String
use virtwork.Base.{String, ◌≡◌, ◌≢◌, ◌⊎◌, List, [], All}
use virtwork.Base.Text.Decimal.{Without}
use virtwork.Base.Text.Fold.{codes, to_lower}
use virtwork.Base.Text.Fold.Numerals.{IsInteger}
use virtwork.Base.Text.Split.{join}
use virtwork.Workloads.Params.{
  ParamType, param_string, param_int, param_bool, param_list, param_dict,
}

-- an element of a list: some text without the separator
abbrev pub IsElement : String → Type 0
IsElement p = (p ≢ "") × Without b';' p

-- an entry of a dict: `key=value` without the separator; the key may be empty
abbrev pub IsEntry : String → Type 0
IsEntry p =
    ((key : String) × (value : String) × (p ≡ String.◌++◌ key (String.◌∷◌ "=" value)))
    × Without b';' p

-- The value is one or more texts that satisfy `P`, joined by ";".
abbrev pub IsJoined : (String → Type 0) → String → Type 0
IsJoined P value = (parts : List String) × (parts ≢ []) × All P parts × (value ≡ join ";" parts)

abbrev pub Accepts : ParamType → String → Type 0
Accepts param_string value = value ≢ ""
Accepts param_int value = IsInteger value
Accepts param_bool value = (to_lower value ≡ codes "true") ⊎ (to_lower value ≡ codes "false")
Accepts param_list value = IsJoined IsElement value
Accepts param_dict value = IsJoined IsEntry value
