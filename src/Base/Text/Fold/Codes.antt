-- ===== src/Base/Text/Fold/Codes.antt =====
-- The comparison of texts by their code points.
use Prim.Native.Nat.{ℕ}
use mathlib.Core.Path.{◌≡◌, refl, subst}
use mathlib.Core.Bool.{true}
use mathlib.Core.List.{List, [], ◌∷◌}
use native.Mathlib.Omega.{arith}
use virtwork.Base.Text.Fold.{same_codes}

pub same_codes_sound : (a b : List ℕ) → same_codes a b ≡ true → a ≡ b
unfolding same_codes
same_codes_sound [] [] h = refl
same_codes_sound (x ∷ a) (y ∷ b) h = ground (arith, same_codes_sound a b)
same_codes_sound [] (y ∷ b) h = absurd (cc)
same_codes_sound (x ∷ a) [] h = absurd (cc)

same_codes_refl : (a : List ℕ) → same_codes a a ≡ true
unfolding same_codes
same_codes_refl [] = refl
same_codes_refl (x ∷ a) = ground (arith, same_codes_refl a)

pub same_codes_complete : (a b : List ℕ) → a ≡ b → same_codes a b ≡ true
same_codes_complete a b e = subst (λ c. same_codes a c ≡ true) e (same_codes_refl a)
