-- ===== src/Orchestrator/Names.antt =====
-- The names of the VMs of a workload are distinct, and as many as the workload asks for.
use Prim.Native.String
use Prim.Native.Char.{Char}
use text.Mathlib.TextLemmas.{nil-append, cons-append, append_cancel_left}
use virtwork.Base.{
  ℕ, zero, suc, ◌+◌, ◌≤◌, String, Option, none, some, List, [], ◌∷◌, ◌++◌, map, then_ok-OnOk,
  then_ok-each, OnOk, OnOk-map, ◌≡◌, refl, sym, ap, ◌∙◌, subst, In, Distinct, Distinct-append,
  In-append_cases, length, length-append, length-map, arith, inl, inr,
}
use mathlib.Core.Path.{ap₂}
use virtwork.Base.Int.{rounds}
use virtwork.Base.Text.Decimal.{itoa, itoa-injective, itoa-Without}
use virtwork.Base.Text.Last.{last_cut}
use virtwork.Config.{Config}
use virtwork.Workloads.Contract.{Workload, MultiVm, RoleSpec}
use virtwork.Orchestrator.{VmPlan}
use virtwork.Orchestrator.Plan.{
  VmSource, app_name, plan_vm, plan_range, plan_single, plan_role, plan_roles, plan_kind,
  plan_workload, single_source, role_source,
}
use virtwork.Orchestrator.PlanVms.{plan_names}

-- the name of the VM with number `i` under a base
abbrev numbered : String → ℕ → String
numbered base i = String.◌++◌ base (String.◌++◌ "-" (itoa i))

abbrev dash_char : Char
dash_char = "-"

dash : (s : String) → String.◌++◌ "-" s ≡ String.◌∷◌ dash_char s
dash s = cons-append dash_char "" s ∙ ap (String.◌∷◌ dash_char) (nil-append s)

numbered-injective : (a b : String) (i j : ℕ) → numbered a i ≡ numbered b j → (a ≡ b) × (i ≡ j)
numbered-injective a b i j e =
    let (s, t) =
      last_cut dash_char a b (itoa i) (itoa j)
        (sym (ap (String.◌++◌ a) (dash (itoa i))) ∙ e ∙ ap (String.◌++◌ b) (dash (itoa j)))
        (itoa-Without i 45 (omega arith)) (itoa-Without j 45 (omega arith)) in
    (s, itoa-injective i j t)

-- the names of the rounds that are left, from number `i` on
abbrev range_names : String → (left i : ℕ) → List String
range_names base zero i = []
range_names base (suc left) i = numbered base i ∷ range_names base left (suc i)

length-range : (base : String) (left i : ℕ) → length (range_names base left i) ≡ left
length-range base zero i = refl
length-range base (suc left) i = ap suc (length-range base left (suc i))

In-range :
    (base x : String) (left i : ℕ)
    → In x (range_names base left i)
    → (j : ℕ) × (i ≤ j) × (x ≡ numbered base j)
In-range base x zero i h = absurd h
In-range base x (suc left) i (inl e) = (i, omega arith, e)
In-range base x (suc left) i (inr h) =
    let (j, l, e) = In-range base x left (suc i) h in (j, omega arith, e)

range-Distinct : (base : String) (left i : ℕ) → Distinct (range_names base left i)
range-Distinct base zero i = tt
range-Distinct base (suc left) i = (
  (λ h.
      let (j, l, e) = In-range base _ left (suc i) h in
      let same = (numbered-injective base base i j e).1 in absurd (omega arith)),
  range-Distinct base left (suc i),
)

-- the names of a workload's VMs
abbrev role_base : String → String → String
role_base name role = String.◌++◌ (app_name name) (String.◌++◌ "-" role)

abbrev roles_names : String → List RoleSpec → List String
roles_names name [] = []
roles_names name (rs ∷ roles) =
    range_names (role_base name rs.role) (rounds rs.role_vm_count) 0 ++ roles_names name roles

abbrev kind_names : String → Workload → Option MultiVm → List String
kind_names name w none = range_names (app_name name) (rounds w.workload_vm_count) 0
kind_names name w (some m) = roles_names name m.role_distribution

-- the number of the VMs that a workload asks for
abbrev pub sum_of_roles : List RoleSpec → ℕ
sum_of_roles [] = 0
sum_of_roles (rs ∷ roles) = rounds rs.role_vm_count + sum_of_roles roles

abbrev pub asked_vms : Workload → Option MultiVm → ℕ
asked_vms w none = rounds w.workload_vm_count
asked_vms w (some m) = sum_of_roles m.role_distribution

abbrev pub role_names : List RoleSpec → List String
role_names roles = map (λ (rs : RoleSpec). rs.role) roles

-- no role stands twice
abbrev pub HasRoles : Option MultiVm → Type 0
HasRoles none = Unit
HasRoles (some m) = Distinct (role_names m.role_distribution)

roles-length :
    (name : String) (roles : List RoleSpec) → length (roles_names name roles) ≡ sum_of_roles roles
roles-length name [] = refl
roles-length name (rs ∷ roles) =
    length-append (range_names (role_base name rs.role) (rounds rs.role_vm_count) 0)
      (roles_names name roles)
    ∙ ap₂ (λ a b. a + b) (length-range (role_base name rs.role) (rounds rs.role_vm_count) 0)
        (roles-length name roles)

In-roles :
    (name x : String) (roles : List RoleSpec)
    → In x (roles_names name roles)
    → (role : String) × (j : ℕ) × In role (role_names roles)
      × (x ≡ numbered (role_base name role) j)
In-roles name x [] h = absurd h
In-roles name x (rs ∷ roles) h =
    elim (In-append_cases x (range_names (role_base name rs.role) (rounds rs.role_vm_count) 0)
      (roles_names name roles) h) [
        | inl i ↦
            let (j, l, e) = In-range (role_base name rs.role) x (rounds rs.role_vm_count) 0 i in
            (rs.role, j, inl refl, e)
        | inr i ↦ let (role, j, r, e) = In-roles name x roles i in (role, j, inr r, e)
      ]

role_base-injective : (name r s : String) → role_base name r ≡ role_base name s → r ≡ s
role_base-injective name r s e =
    append_cancel_left "-" r s (append_cancel_left (app_name name) _ _ e)

roles-Distinct :
    (name : String) (roles : List RoleSpec)
    → Distinct (role_names roles)
    → Distinct (roles_names name roles)
roles-Distinct name [] d = tt
roles-Distinct name (rs ∷ roles) (fresh, d) =
    Distinct-append _ _ (range-Distinct (role_base name rs.role) (rounds rs.role_vm_count) 0)
      (roles-Distinct name roles d)
      (λ x l r.
        let (i, z, e) = In-range (role_base name rs.role) x (rounds rs.role_vm_count) 0 l in
        let (role, j, h, f) = In-roles name x roles r in
        let same =
          role_base-injective name rs.role role (numbered-injective _ _ i j (sym e ∙ f)).0 in
        fresh (subst (λ s. In s (role_names roles)) (sym same) h))

module _ (cfg : Config) (run_id name : String) (w : Workload) where
  plan_vm-name :
      (s : VmSource) → OnOk (λ (p : VmPlan). p.vm_name ≡ s.source_vm_name) (plan_vm cfg name w s)
  unfolding plan_vm
  plan_vm-name s = then_ok-each (λ (p : VmPlan). p.vm_name ≡ s.source_vm_name) _ _ (λ dvts. refl)

  plan_range-names :
      (source : ℕ → VmSource) (base : String)
      → ((i : ℕ) → (source i).source_vm_name ≡ numbered base i)
      → (left i : ℕ)
      → OnOk
          (λ (plans : List VmPlan). plan_names plans ≡ range_names base left i)
          (plan_range cfg name w source left i)
  unfolding plan_range
  plan_range-names source base same zero i = refl
  plan_range-names source base same (suc left) i =
      then_ok-OnOk (λ (p : VmPlan). p.vm_name ≡ (source i).source_vm_name) _ _ _
        (plan_vm-name (source i))
        (λ p e.
          then_ok-OnOk (λ (plans : List VmPlan). plan_names plans ≡ range_names base left (suc i)) _
            _ _ (plan_range-names source base same left (suc i))
            (λ rest h. ap₂ (λ n l. n ∷ l) (e ∙ same i) h))

  plan_names-append : (xs ys : List VmPlan) → plan_names (xs ++ ys) ≡ plan_names xs ++ plan_names ys
  plan_names-append [] ys = refl
  plan_names-append (x ∷ xs) ys = ap (λ l. x.vm_name ∷ l) (plan_names-append xs ys)

  plan_role-names :
      (m : MultiVm) (rs : RoleSpec)
      → OnOk
          (λ (plans : List VmPlan).
            plan_names plans ≡ range_names (role_base name rs.role) (rounds rs.role_vm_count) 0)
          (plan_role cfg run_id name w m rs)
  unfolding plan_role
  plan_role-names m rs = then_ok-each _ _ _ (λ userdata.
      plan_range-names (role_source cfg run_id name w rs.role userdata) (role_base name rs.role)
        (λ i. refl) (rounds rs.role_vm_count) 0)

  plan_roles-names :
      (m : MultiVm) (roles : List RoleSpec)
      → OnOk
          (λ (plans : List VmPlan). plan_names plans ≡ roles_names name roles)
          (plan_roles cfg run_id name w m roles)
  unfolding plan_roles
  plan_roles-names m [] = refl
  plan_roles-names m (rs ∷ roles) = then_ok-OnOk _ _ _ _ (plan_role-names m rs) (λ plans e.
      then_ok-OnOk _ _ _ _ (plan_roles-names m roles)
        (λ rest h. plan_names-append plans rest ∙ ap₂ (λ a b. a ++ b) e h))

  plan_kind-names :
      (o : Option MultiVm)
      → OnOk
          (λ (plans : List VmPlan). plan_names plans ≡ kind_names name w o)
          (plan_kind cfg run_id name w o)
  unfolding plan_kind plan_single
  plan_kind-names none = then_ok-each _ _ _ (λ userdata.
      plan_range-names (single_source cfg run_id name w userdata) (app_name name) (λ i. refl)
        (rounds w.workload_vm_count) 0)
  plan_kind-names (some m) = plan_roles-names m m.role_distribution

  kind-Distinct :
      (o : Option MultiVm)
      → HasRoles o
      → Distinct (kind_names name w o) × (length (kind_names name w o) ≡ asked_vms w o)
  kind-Distinct none h = (
    range-Distinct (app_name name) (rounds w.workload_vm_count) 0,
    length-range (app_name name) (rounds w.workload_vm_count) 0,
  )
  kind-Distinct (some m) h =
      (roles-Distinct name m.role_distribution h, roles-length name m.role_distribution)

  named :
      (plans : List VmPlan)
      → plan_names plans ≡ kind_names name w w.multi
      → HasRoles w.multi
      → Distinct (plan_names plans) × (length plans ≡ asked_vms w w.multi)
  named plans e h =
      let (d, l) = kind-Distinct w.multi h in
      (
        subst Distinct (sym e) d,
        sym (length-map (λ (p : VmPlan). p.vm_name) plans) ∙ ap length e ∙ l,
      )

  -- If the planning of a workload succeeds and none of its roles stands twice: no two of its VMs have
  -- the same name, and there are as many as the workload asks for, over all its roles.
  pub plan_workload-names :
      HasRoles w.multi
      → OnOk
          (λ (plans : List VmPlan).
            Distinct (plan_names plans) × (length plans ≡ asked_vms w w.multi))
          (plan_workload cfg run_id name w)
  unfolding plan_workload
  plan_workload-names h =
      OnOk-map (plan_kind cfg run_id name w w.multi) (plan_kind-names w.multi)
        (λ plans e. named plans e h)
