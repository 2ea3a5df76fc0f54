-- ===== src/Base/Text/Fold/Numerals.antt =====
-- Which texts `strconv.Atoi` reads.
use Prim.Native.Nat.{ℕ, suc, ◌+◌, ◌-◌, ◌*◌, ◌^◌, ◌≤◌}
use Prim.Native.Char.{code}
use Prim.Native.String.{String}
use mathlib.Core.Path.{◌≡◌, refl, ap, ◌∙◌}
use mathlib.Core.Logic.{◌≢◌, ◌⊎◌, ◌↔◌, inl, inr}
use mathlib.Core.Option.{some}
use native.Mathlib.Decide.{ℕ_discrete}
use native.Mathlib.Omega.{arith}
use text.Mathlib.TextEquality.{Char-path}
use text.Mathlib.TextLemmas.{cons-ne-nil}
use virtwork.Base.Tests.{Option-cases}
use virtwork.Base.Int.{ℤ, pos, negsuc}
use virtwork.Base.Text.Decimal.{value}
use virtwork.Base.Text.Fold.{read_digits, magnitude, positive, negative, atoi}

-- Every character of the text is a digit.
abbrev pub AreDigits : String → Type 0
AreDigits String.[] = Unit
AreDigits (String.◌∷◌ c s) = ((b'0' ≤ code c) × (code c ≤ b'9')) × AreDigits s

-- One or more digits that spell at most `limit`.
abbrev pub IsNumeral : ℕ → String → Type 0
IsNumeral limit s = (s ≢ "") × AreDigits s × (value 0 s ≤ limit)

-- An optional sign and a numeral, in the range of a 64-bit integer.
abbrev pub IsInteger : String → Type 0
IsInteger s =
    IsNumeral (2 ^ 63 - 1) s
    ⊎ ((t : String) × (s ≡ String.◌∷◌ "+" t) × IsNumeral (2 ^ 63 - 1) t)
    ⊎ ((t : String) × (s ≡ String.◌∷◌ "-" t) × IsNumeral (2 ^ 63) t)

read_digits_sound :
    (s : String) (acc n : ℕ) → read_digits acc s ≡ some n → AreDigits s × (n ≡ value acc s)
unfolding read_digits value
read_digits_sound String.[] acc n e = ground arith
read_digits_sound (String.◌∷◌ c s) acc n e =
    ground (arith, read_digits_sound s (acc * 10 + (code c - b'0')) n)

read_digits_complete : (s : String) (acc : ℕ) → AreDigits s → read_digits acc s ≡ some (value acc s)
unfolding read_digits value
read_digits_complete String.[] acc h = refl
read_digits_complete (String.◌∷◌ c s) acc (h, hs) =
    ground (arith, read_digits_complete s (acc * 10 + (code c - b'0')) hs)

abbrev Reads : String → ℕ → Type 0
Reads s n = (s ≢ "") × AreDigits s × (n ≡ value 0 s)

magnitude_sound : (s : String) (n : ℕ) → magnitude s ≡ some n → Reads s n
unfolding magnitude
magnitude_sound String.[] n e = cc
magnitude_sound (String.◌∷◌ c s) n e =
    let (all_digits, at) = read_digits_sound (String.◌∷◌ c s) 0 n e in
    (cons-ne-nil c s, all_digits, at)

magnitude_complete : (s : String) → s ≢ "" → AreDigits s → magnitude s ≡ some (value 0 s)
unfolding magnitude
magnitude_complete String.[] ne h = absurd (ne refl)
magnitude_complete (String.◌∷◌ c s) ne h = read_digits_complete (String.◌∷◌ c s) 0 h

positive_sound : (s : String) (z : ℤ) → positive (magnitude s) ≡ some z → IsNumeral (2 ^ 63 - 1) s
positive_sound s z e = elim (Option-cases (magnitude s)) [
  | inl missing ↦ absurd (ground arith)
  | inr (n, read) ↦
      let (ne, all_digits, at) = magnitude_sound s n read in (ne, all_digits, ground arith)
]

negative_sound : (s : String) (z : ℤ) → negative (magnitude s) ≡ some z → IsNumeral (2 ^ 63) s
negative_sound s z e = elim (Option-cases (magnitude s)) [
  | inl missing ↦ absurd (ground arith)
  | inr (n, read) ↦
      let (ne, all_digits, at) = magnitude_sound s n read in (ne, all_digits, ground arith)
]

positive_complete :
    (s : String) → IsNumeral (2 ^ 63 - 1) s → positive (magnitude s) ≡ some (pos (value 0 s))
positive_complete s (ne, all_digits, small) = rw (magnitude_complete s ne all_digits) (ground arith)

negative_complete :
    (s : String) → IsNumeral (2 ^ 63) s → (z : ℤ) × (negative (magnitude s) ≡ some z)
negative_complete s (ne, all_digits, small) =
    rw (magnitude_complete s ne all_digits) (go (value 0 s) small)
  where
    go : (n : ℕ) → n ≤ 2 ^ 63 → (z : ℤ) × (negative (some n) ≡ some z)
    go ℕ.zero h = (pos 0, refl)
    go (suc n) h = (negsuc n, ground arith)

-- `Atoi` succeeds exactly on a decimal integer with an optional sign that fits in 64 bits.
pub atoi_iff : (s : String) → ((z : ℤ) × (atoi s ≡ some z)) ↔ IsInteger s
unfolding atoi
atoi_iff s = (sound s, complete s)
  where
    sound : (t : String) → (z : ℤ) × (atoi t ≡ some z) → IsInteger t
    sound String.[] (z, e) = absurd (cc)
    sound (String.◌∷◌ c t) (z, e) = elim (ℕ_discrete (code c) b'-') [
      | yes minus ↦ inr (
          inr (
            t,
            ap (λ d. String.◌∷◌ d t) (Char-path c "-" minus),
            negative_sound t z (ground arith),
          ))
      | no other ↦ elim (ℕ_discrete (code c) b'+') [
        | yes plus ↦ inr (
            inl (
              t,
              ap (λ d. String.◌∷◌ d t) (Char-path c "+" plus),
              positive_sound t z (ground arith),
            ))
        | no plain ↦ inl (positive_sound (String.◌∷◌ c t) z (ground arith))
      ]
    ]

    complete : (t : String) → IsInteger t → (z : ℤ) × (atoi t ≡ some z)
    complete String.[] (inl h) = absurd (h.0 refl)
    complete (String.◌∷◌ c t) (inl h) =
        (pos (value 0 (String.◌∷◌ c t)), ground (arith, positive_complete (String.◌∷◌ c t) h))
    complete s' (inr (inl (t, at, h))) = (pos (value 0 t), ap atoi at ∙ positive_complete t h)
    complete s' (inr (inr (t, at, h))) = let (z, e) = negative_complete t h in (z, ap atoi at ∙ e)
