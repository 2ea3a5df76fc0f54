-- ===== src/Base/Text/Last.antt =====
-- A text is determined by its parts around the last dash.
use Prim.Native.Char.{Char, code}
use Prim.Native.String
use Prim.Native.String.{String}
use mathlib.Core.Path.{◌≡◌, refl, sym, ap₂, ◌∙◌, subst}
use text.Mathlib.TextLemmas.{nil-append, cons-append, head-eq_of_cons-eq, tail-eq_of_cons-eq}
use virtwork.Base.Text.Decimal.{Without}

Without-around :
    (c : Char) (u y x : String) → x ≡ String.◌++◌ u (String.◌∷◌ c y) → ¬ Without (code c) x
Without-around c String.[] y x e h = (subst (Without (code c)) (e ∙ nil-append _) h).0 refl
Without-around c (String.◌∷◌ d u) y x e h =
    Without-around c u y _ refl (subst (Without (code c)) (e ∙ cons-append d u _) h).1

pub last_cut :
    (c : Char) (u v x y : String)
    → String.◌++◌ u (String.◌∷◌ c x) ≡ String.◌++◌ v (String.◌∷◌ c y)
    → Without (code c) x
    → Without (code c) y
    → (u ≡ v) × (x ≡ y)
last_cut c String.[] String.[] x y e hx hy =
    (refl, tail-eq_of_cons-eq (sym (nil-append _) ∙ e ∙ nil-append _))
last_cut c String.[] (String.◌∷◌ d v) x y e hx hy =
    absurd
      (Without-around c v y x (tail-eq_of_cons-eq (sym (nil-append _) ∙ e ∙ cons-append d v _)) hx)
last_cut c (String.◌∷◌ d u) String.[] x y e hx hy = absurd (
    Without-around c u x y (tail-eq_of_cons-eq (sym (nil-append _) ∙ sym e ∙ cons-append d u _)) hy)
last_cut c (String.◌∷◌ d u) (String.◌∷◌ b v) x y e hx hy =
    let e' = sym (cons-append d u _) ∙ e ∙ cons-append b v _ in
    let (s, t) = last_cut c u v x y (tail-eq_of_cons-eq e') hx hy in
    (ap₂ (λ h r. String.◌∷◌ h r) (head-eq_of_cons-eq e') s, t)
