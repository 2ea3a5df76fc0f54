-- ===== src/Base/Text/Decimal.antt =====
-- `fmt.Sprintf("%d", n)` for a number that is not negative.
use Prim.Native.Nat.{ℕ, zero, suc, ◌+◌, ◌-◌, ◌*◌, ◌/◌, ◌%◌, ◌<◌}
use Prim.Native.Char.{Char, code}
use Prim.Native.String.{String}
use mathlib.Core.Path.{◌≡◌, refl, sym, ap, ◌∙◌}
use mathlib.Core.Logic.{◌≢◌, inl, inr}
use native.Mathlib.Omega.{arith}
use virtwork.Base.Tests.{ltb, if◌then◌else◌, Bool-cases}

digit : ℕ → Char
digit zero = "0"
digit (suc zero) = "1"
digit (suc (suc zero)) = "2"
digit (suc (suc (suc zero))) = "3"
digit (suc (suc (suc (suc zero)))) = "4"
digit (suc (suc (suc (suc (suc zero))))) = "5"
digit (suc (suc (suc (suc (suc (suc zero)))))) = "6"
digit (suc (suc (suc (suc (suc (suc (suc zero))))))) = "7"
digit (suc (suc (suc (suc (suc (suc (suc (suc zero)))))))) = "8"
digit _ = "9"

-- The digits of `n` in front of `out`, the last one first.
digits : ℕ → ℕ → String → String
digits zero n out = out
digits (suc fuel) n out =
    let more = digits fuel (n / 10) (String.◌∷◌ (digit (n % 10)) out) in
    if ltb n 10 then String.◌∷◌ (digit n) out else more

unfoldable pub itoa : ℕ → String
unfolding digits digit
itoa n = digits (suc n) n ""

itoa_42 : itoa 42 ≡ "42"
unfolding itoa
itoa_42 = refl

code-digit : (d : ℕ) → d < 10 → code (digit d) ≡ 48 + d
unfolding digit
code-digit zero h = refl
code-digit (suc zero) h = refl
code-digit (suc (suc zero)) h = refl
code-digit (suc (suc (suc zero))) h = refl
code-digit (suc (suc (suc (suc zero)))) h = refl
code-digit (suc (suc (suc (suc (suc zero))))) h = refl
code-digit (suc (suc (suc (suc (suc (suc zero)))))) h = refl
code-digit (suc (suc (suc (suc (suc (suc (suc zero))))))) h = refl
code-digit (suc (suc (suc (suc (suc (suc (suc (suc zero)))))))) h = refl
code-digit (suc (suc (suc (suc (suc (suc (suc (suc (suc zero))))))))) h = refl
code-digit (suc (suc (suc (suc (suc (suc (suc (suc (suc (suc d)))))))))) h = absurd (omega arith)

-- The number that digits spell behind `acc`.
unfoldable pub value : ℕ → String → ℕ
value acc String.[] = acc
value acc (String.◌∷◌ c s) = value (acc * 10 + (code c - 48)) s

value-digits : (fuel n : ℕ) (out : String) → n < fuel → value 0 (digits fuel n out) ≡ value n out
unfolding digits value
value-digits zero n out h = absurd (omega arith)
value-digits (suc fuel) n out h = elim (Bool-cases (ltb n 10)) [
  | inl small ↦ rw small (ap (λ m. value m out) (ground (arith, code-digit n)))
  | inr large ↦ rw large (
      value-digits fuel (n / 10) (String.◌∷◌ (digit (n % 10)) out) (ground arith)
      ∙ ap (λ m. value m out) (ground (arith, code-digit (n % 10))))
]

value-itoa : (n : ℕ) → value 0 (itoa n) ≡ n
unfolding itoa value
value-itoa n = value-digits (suc n) n "" (omega arith)

-- Two numbers with one print are equal.
pub itoa-injective : (m n : ℕ) → itoa m ≡ itoa n → m ≡ n
itoa-injective m n e = sym (value-itoa m) ∙ ap (value 0) e ∙ value-itoa n

-- Every character of the text is another than the one with code `k`.
abbrev pub Without : ℕ → String → Type 0
Without k String.[] = Unit
Without k (String.◌∷◌ c s) = (code c ≢ k) × Without k s

digits-Without :
    (fuel n k : ℕ) (out : String) → k < 48 → Without k out → Without k (digits fuel n out)
unfolding digits
digits-Without zero n k out small h = h
digits-Without (suc fuel) n k out small h = elim (Bool-cases (ltb n 10)) [
  | inl last ↦ rw last (ground (arith, code-digit n), h)
  | inr large ↦ rw large (
      digits-Without fuel (n / 10) k (String.◌∷◌ (digit (n % 10)) out) small
        (ground (arith, code-digit (n % 10)), h))
]

-- A number's print holds no character below the digits, such as a dash or a dot.
pub itoa-Without : (n k : ℕ) → k < 48 → Without k (itoa n)
unfolding itoa
itoa-Without n k small = digits-Without (suc n) n k "" small tt
