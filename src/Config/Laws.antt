-- ===== src/Config/Laws.antt =====
-- The configurations that `Config.Validate` accepts.
use virtwork.Base.{
  ℕ, ◌≤◌, String, Bool, true, false, none, ◌≡◌, ◌≢◌, ◌↔◌, refl, arith, eq_iff, Bool-cases, inl, inr,
}
use virtwork.Base.Int.{ℤ, pos, negsuc, below}
use virtwork.Base.Text.Fold.{trim_space}
use virtwork.Config.{Config, validate_config}

-- at least one
abbrev pub IsPositive : ℤ → Type 0
IsPositive z = (n : ℕ) × (z ≡ pos n) × (1 ≤ n)

pos-injective : (m n : ℕ) → pos m ≡ pos n → m ≡ n
pos-injective m n e = cc

below_one_iff : (z : ℤ) → (below z 1 ≡ false) ↔ IsPositive z
below_one_iff (pos n) =
    ((λ h. (n, refl, ground arith)), (λ (m, e, l). let same = pos-injective n m e in ground arith))
below_one_iff (negsuc n) = ((λ h. absurd (cc)), (λ (m, e, l). absurd (cc)))

-- A namespace with more than white space, at least one core, a memory and a disk size that are
-- quantities, and at least one second to wait where the run waits for readiness.
abbrev pub IsConfig : (String → Bool) → Config → Type 0
IsConfig is_quantity c =
    (trim_space c.namespace ≢ "")
    × IsPositive c.cpu_cores
    × (is_quantity c.memory ≡ true)
    × (is_quantity c.data_disk_size ≡ true)
    × (c.wait_for_ready ≡ true → IsPositive c.ready_timeout_seconds)

-- `Config.Validate` returns no error exactly on these configurations: the namespace is more than white
-- space, there is at least one core, memory and disk size parse as quantities, and the timeout is at
-- least one second if the run waits for readiness.
pub validate_config_iff :
    (is_quantity : String → Bool) (c : Config)
    → (validate_config is_quantity c ≡ none) ↔ IsConfig is_quantity c
unfolding validate_config
validate_config_iff is_quantity c =
    let cores = below_one_iff c.cpu_cores in
    let timeout = below_one_iff c.ready_timeout_seconds in
    (
      (λ h. (
        ground (arith, eq_iff (trim_space c.namespace) ""),
        cores.0 (ground arith),
        ground arith,
        ground arith,
        (λ w. timeout.0 (ground arith)),
      )),
      (λ (n, k, m, d, t).
          let enough = cores.1 k in
          elim (Bool-cases c.wait_for_ready) [
            | inl w ↦
                let long = timeout.1 (t w) in ground (arith, eq_iff (trim_space c.namespace) "")
            | inr w ↦ ground (arith, eq_iff (trim_space c.namespace) "")
          ]),
    )
