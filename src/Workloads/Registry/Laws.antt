-- ===== src/Workloads/Registry/Laws.antt =====
-- The params that `Registry.ValidateParams` accepts.
use virtwork.Base.{String, Option, none, some, [], ◌∷◌, ◌≡◌, ◌↔◌, refl, subst, sym, All}
use virtwork.Base.Assoc.{Assoc, lookup}
use virtwork.Workloads.Params.{ParamSchema, ParamDef, ParamError, find, validate}
use virtwork.Workloads.Params.Values.{Accepts}
use virtwork.Workloads.Params.Laws.{validate_iff}
use virtwork.Workloads.Registry.{
  Registry, RegistryEntry, RegistryError, check_param, check_params, validate_params, check_found,
  check_entry, first_error, invalid,
}

-- The param is declared, and its value is of the type that the first declaration of its key has.
abbrev pub IsParam : ParamSchema → String → String → Type 0
IsParam schema key val = (d : ParamDef) × (find schema key ≡ some d) × Accepts d.type val

abbrev pub AreParams : Registry → String → Assoc String → Type 0
AreParams r workload params =
    (entry : RegistryEntry) × (lookup workload r ≡ some entry)
    × All (λ (p : String × String). IsParam entry.param_schema (p.0) (p.1)) params

first_error_iff :
    (a b : Option RegistryError) → (first_error a b ≡ none) ↔ ((a ≡ none) × (b ≡ none))
first_error_iff none b = ((λ h. (refl, h)), (λ h. h.1))
first_error_iff (some e) b = ((λ h. absurd (cc)), (λ h. absurd (cc)))

invalid_iff :
    (key workload : String) (o : Option ParamError) → (invalid key workload o ≡ none) ↔ (o ≡ none)
invalid_iff key workload none = ((λ h. refl), (λ h. refl))
invalid_iff key workload (some e) = ((λ h. absurd (cc)), (λ h. absurd (cc)))

some-injective : {A : Type 0} (a b : A) → ◌≡◌ {A = Option A} (some a) (some b) → a ≡ b
some-injective a b e = cc

check_found_iff :
    (schema : ParamSchema) (workload key val : String) (o : Option ParamDef)
    → (check_found schema workload key val o ≡ none)
      ↔ ((d : ParamDef) × (o ≡ some d) × Accepts d.type val)
check_found_iff schema workload key val none = ((λ h. absurd (cc)), (λ (d, e, a). absurd (cc)))
check_found_iff schema workload key val (some d) =
    let outer = invalid_iff key workload (validate d val) in
    let inner = validate_iff d val in
    (
      (λ h. (d, refl, inner.0 (outer.0 h))),
      (λ (d', e, a).
          outer.1 (
            inner.1
              (subst (λ (x : ParamDef). Accepts x.type val) (sym (some-injective d d' e)) a))),
    )

check_params_iff :
    (schema : ParamSchema) (workload : String) (params : Assoc String)
    → (check_params schema workload params ≡ none)
      ↔ All (λ (p : String × String). IsParam schema (p.0) (p.1)) params
unfolding check_params check_param
check_params_iff schema workload [] = ((λ h. tt), (λ h. refl))
check_params_iff schema workload ((key, val) ∷ params) =
    let both =
      first_error_iff (check_param schema workload key val) (check_params schema workload params) in
    let here = check_found_iff schema workload key val (find schema key) in
    let rest = check_params_iff schema workload params in
    ((λ h. let (a, b) = both.0 h in (here.0 a, rest.0 b)), (λ (a, b). both.1 (here.1 a, rest.1 b)))

check_entry_iff :
    (workload : String) (params : Assoc String) (o : Option RegistryEntry)
    → (check_entry workload params o ≡ none) ↔ (
        (entry : RegistryEntry) × (o ≡ some entry)
        × All (λ (p : String × String). IsParam entry.param_schema (p.0) (p.1)) params)
check_entry_iff workload params none = ((λ h. absurd (cc)), (λ (d, e, a). absurd (cc)))
check_entry_iff workload params (some entry) =
    let inner = check_params_iff entry.param_schema workload params in
    (
      (λ h. (entry, refl, inner.0 h)),
      (λ (entry', e, a). inner.1 (
          subst
            (λ (x : RegistryEntry).
              All (λ (p : String × String). IsParam x.param_schema (p.0) (p.1)) params)
            (sym (some-injective entry entry' e)) a)),
    )

-- `Registry.ValidateParams` returns no error exactly where the workload is registered, its schema
-- declares each of the keys, and each value is of the type that the key is declared with.
pub validate_params_iff :
    (r : Registry) (workload : String) (params : Assoc String)
    → (validate_params r workload params ≡ none) ↔ AreParams r workload params
unfolding validate_params
validate_params_iff r workload params = check_entry_iff workload params (lookup workload r)
