-- ===== src/Config/Params.antt =====
-- `ParseParams` of internal/config/config.go
pub mod RoundTrip
use virtwork.Base.{String, Option, none, some, List, [], ◌∷◌, Result, ok, err, ◌==◌, if◌then◌else◌}
use virtwork.Base.Assoc.{Assoc, lookup, insert}
use virtwork.Base.Text.Fold.{trim_space}
use virtwork.Base.Text.Split.{split, cut}

-- the errors, with the pair that they name
pub data ParamsError : Type 0 where
  missing_workload empty_workload missing_equals empty_key : String → ParamsError

-- a workload, a key and a value
abbrev pub Entry : Type 0
Entry = String × String × String

abbrev pub WorkloadParams : Type 0
WorkloadParams = Assoc (Assoc String)

-- `strings.Cut(rest, "=")` and its checks
abbrev pub parse_key : String → String → Option (String × String) → Result ParamsError Entry
parse_key pair workload none = err (missing_equals pair)
parse_key pair workload (some (key, value)) =
    if key == "" then err (empty_key pair) else ok (workload, key, value)

-- `strings.Cut(pair, ".")` and its checks
abbrev pub parse_workload : String → Option (String × String) → Result ParamsError Entry
parse_workload pair none = err (missing_workload pair)
parse_workload pair (some (workload, rest)) =
    if workload == "" then err (empty_workload pair) else parse_key pair workload (cut b'=' rest)

abbrev pub existing : Option (Assoc String) → Assoc String
existing none = []
existing (some params) = params

-- `result[workload][key] = value`
unfoldable pub put : Entry → WorkloadParams → WorkloadParams
put (workload, key, value) result =
    insert workload (insert key value (existing (lookup workload result))) result

-- the rest of the loop after a pair
abbrev pub after_pair :
    Result ParamsError Entry
    → (WorkloadParams → Result ParamsError WorkloadParams)
    → WorkloadParams
    → Result ParamsError WorkloadParams
after_pair (err e) rest result = err e
after_pair (ok entry) rest result = rest (put entry result)

unfoldable pub parse_pairs : List String → WorkloadParams → Result ParamsError WorkloadParams
parse_pairs [] result = ok result
parse_pairs (p ∷ pairs) result =
    let pair = trim_space p in
    let rest = λ (r : WorkloadParams). parse_pairs pairs r in
    if pair == "" then rest result else after_pair (parse_workload pair (cut b'.' pair)) rest result

unfoldable pub parse_params : String → Result ParamsError WorkloadParams
parse_params raw =
    let text = trim_space raw in if text == "" then ok [] else parse_pairs (split b',' text) []
