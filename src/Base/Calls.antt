-- ===== src/Base/Calls.antt =====
-- A call that returns a value or an error: Go's `(A, error)` where the value is read only when the
-- error is nil. An index out of range, which panics in Go, is `none`.
use mathlib.Core.Bool.{Bool, true, false}
use virtwork.Base.Tests.{if◌then◌else◌}
use mathlib.Core.Option.{Option, none, some}

pub data Result {ℓ κ} (E : Type κ) (A : Type ℓ) : Type (ℓ ⊔ κ) where
  ok : A → Result E A
  err : E → Result E A

-- The chain of calls that stops at the first error.
unfoldable pub then_ok {ℓ κ μ} :
    {E : Type κ} {A : Type ℓ} {B : Type μ} → Result E A → (A → Result E B) → Result E B
then_ok (ok a) f = f a
then_ok (err e) f = err e

-- `fmt.Errorf("…: %w", err)`: the error is wrapped, the value is kept.
abbrev pub wrap {ℓ κ μ} : {E : Type κ} {F : Type μ} {A : Type ℓ} → (E → F) → Result E A → Result F A
wrap f (ok a) = ok a
wrap f (err e) = err (f e)

-- `P` holds of the value, where there is one.
abbrev pub OnOk {ℓ κ μ} : {E : Type κ} {A : Type ℓ} → (A → Type μ) → Result E A → Type μ
OnOk P (ok a) = P a
OnOk P (err e) = Unit

module _ {ℓ κ λ₁ μ ν} {E : Type κ} {A : Type ℓ} {B : Type λ₁} where
  -- What holds of the value of the first call gives what holds after the second.
  pub then_ok-OnOk :
      (P : A → Type μ) (Q : B → Type ν) (r : Result E A) (f : A → Result E B)
      → OnOk P r
      → ((a : A) → P a → OnOk Q (f a))
      → OnOk Q (then_ok r f)
  unfolding then_ok
  then_ok-OnOk P Q (ok a) f p h = h a p
  then_ok-OnOk P Q (err e) f p h = tt

module _ {ℓ κ μ ν} {E : Type κ} {A : Type ℓ} {P : A → Type μ} {Q : A → Type ν} where
  pub OnOk-map : (r : Result E A) → OnOk P r → ((a : A) → P a → Q a) → OnOk Q r
  OnOk-map (ok a) p h = h a p
  OnOk-map (err e) p h = tt

module _ {ℓ κ λ₁ ν} {E : Type κ} {A : Type ℓ} {B : Type λ₁} where
  pub then_ok-each :
      (Q : B → Type ν) (r : Result E A) (f : A → Result E B)
      → ((a : A) → OnOk Q (f a))
      → OnOk Q (then_ok r f)
  unfolding then_ok
  then_ok-each Q (ok a) f h = h a
  then_ok-each Q (err e) f h = tt

-- The chain of reads that may be out of range.
infixl 5 ◌>>=◌
abbrev pub ◌>>=◌ {ℓ κ} : {A : Type ℓ} {B : Type κ} → Option A → (A → Option B) → Option B
none >>= f = none
some a >>= f = f a

module _ {ℓ κ μ} {E : Type κ} {A : Type ℓ} (P : A → Type μ) where
  pub OnOk-if : (b : Bool) (r s : Result E A) → OnOk P r → OnOk P s → OnOk P (if b then r else s)
  OnOk-if true r s h k = h
  OnOk-if false r s h k = k
