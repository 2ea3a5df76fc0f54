-- ===== src/Base/Text/Split.antt =====
-- `strings.Split`, `Contains`, `Cut` and `Join` of Go's library, for a separator of one character.
use Prim.Native.Nat.{ℕ}
use Prim.Native.Char.{Char, code}
use Prim.Native.String
use Prim.Native.String.{String}
use mathlib.Core.Path.{◌≡◌, refl, sym, ap, ap₂, ◌∙◌, subst}
use mathlib.Core.Logic.{◌≢◌}
use mathlib.Core.Bool.{Bool, true, false, ◌||◌}
use mathlib.Core.Option.{Option, none, some, some-injective}
use mathlib.Core.List.{List, [], ◌∷◌}
use native.Mathlib.Decide.{ℕ_discrete}
use native.Mathlib.Omega.{arith}
use text.Mathlib.TextEquality.{Char-path}
use text.Mathlib.TextLemmas.{nil-append, cons-append}
use virtwork.Base.Tests.{eqb, if◌then◌else◌}
use virtwork.Base.Lists.{All}
use virtwork.Base.Text.Decimal.{Without}

-- puts a character in front of the first part
abbrev extend : Char → List String → List String
extend c [] = String.◌∷◌ c "" ∷ []
extend c (p ∷ ps) = String.◌∷◌ c p ∷ ps

-- `strings.Split(s, sep)`: the parts between the separators, one more than there are separators
unfoldable pub split : ℕ → String → List String
split sep String.[] = "" ∷ []
split sep (String.◌∷◌ c s) = if eqb (code c) sep then "" ∷ split sep s else extend c (split sep s)

-- `strings.Contains(s, sep)`
unfoldable pub contains : ℕ → String → Bool
contains sep String.[] = false
contains sep (String.◌∷◌ c s) = eqb (code c) sep || contains sep s

abbrev found_after : Char → Option (String × String) → Option (String × String)
found_after c none = none
found_after c (some (before, after)) = some (String.◌∷◌ c before, after)

-- `strings.Cut(s, sep)`; `none` where the separator does not occur
unfoldable pub cut : ℕ → String → Option (String × String)
cut sep String.[] = none
cut sep (String.◌∷◌ c s) = if eqb (code c) sep then some ("", s) else found_after c (cut sep s)

-- `strings.Join(parts, sep)`
unfoldable pub join : Char → List String → String
join sep [] = ""
join sep (p ∷ []) = p
join sep (p ∷ q ∷ ps) = String.◌++◌ p (String.◌∷◌ sep (join sep (q ∷ ps)))

split_sep :
    (sep : ℕ) (c : Char) (s : String) → code c ≡ sep → split sep (String.◌∷◌ c s) ≡ "" ∷ split sep s
unfolding split
split_sep sep c s h = ground arith

split_other :
    (sep : ℕ) (c : Char) (s : String)
    → code c ≢ sep
    → split sep (String.◌∷◌ c s) ≡ extend c (split sep s)
unfolding split
split_other sep c s h = ground arith

extend-Without :
    (sep : ℕ) (c : Char) (ps : List String)
    → code c ≢ sep
    → All (Without sep) ps
    → All (Without sep) (extend c ps)
extend-Without sep c [] h hs = ((h, tt), tt)
extend-Without sep c (p ∷ ps) h (hp, hs) = ((h, hp), hs)

-- No part of a split text holds the separator.
pub split-Without : (sep : ℕ) (s : String) → All (Without sep) (split sep s)
unfolding split
split-Without sep String.[] = (tt, tt)
split-Without sep (String.◌∷◌ c s) = elim (ℕ_discrete (code c) sep) [
  | yes at ↦ rw (split_sep sep c s at) (tt, split-Without sep s)
  | no other ↦
      rw (split_other sep c s other)
        (extend-Without sep c (split sep s) other (split-Without sep s))
]

extend-ne-nil : (c : Char) (ps : List String) → extend c ps ≢ []
extend-ne-nil c [] = cc
extend-ne-nil c (p ∷ ps) = cc

-- A split text has at least one part.
pub split-ne-nil : (sep : ℕ) (s : String) → split sep s ≢ []
unfolding split
split-ne-nil sep String.[] = cc
split-ne-nil sep (String.◌∷◌ c s) = elim (ℕ_discrete (code c) sep) [
  | yes at ↦ rw (split_sep sep c s at) (cc)
  | no other ↦ rw (split_other sep c s other) (extend-ne-nil c (split sep s))
]

join-cons_nil :
    (sep : Char) (ps : List String) → ps ≢ [] → join sep ("" ∷ ps) ≡ String.◌∷◌ sep (join sep ps)
unfolding join
join-cons_nil sep [] ne = absurd (ne refl)
join-cons_nil sep (p ∷ ps) ne = nil-append _

join-extend :
    (sep c : Char) (ps : List String)
    → ps ≢ []
    → join sep (extend c ps) ≡ String.◌∷◌ c (join sep ps)
unfolding join
join-extend sep c [] ne = absurd (ne refl)
join-extend sep c (p ∷ []) ne = refl
join-extend sep c (p ∷ q ∷ ps) ne = cons-append c p _

-- The parts, joined again, are the text.
pub join-split : (sep : Char) (s : String) → join sep (split (code sep) s) ≡ s
unfolding split join
join-split sep String.[] = refl
join-split sep (String.◌∷◌ c s) = elim (ℕ_discrete (code c) (code sep)) [
  | yes at ↦
      ap (join sep) (split_sep (code sep) c s at)
      ∙ join-cons_nil sep _ (split-ne-nil (code sep) s)
      ∙ ap₂ String.◌∷◌ (Char-path sep c (sym at)) (join-split sep s)
  | no other ↦
      ap (join sep) (split_other (code sep) c s other)
      ∙ join-extend sep c _ (split-ne-nil (code sep) s)
      ∙ ap (String.◌∷◌ c) (join-split sep s)
]

split-Without' : (sep : ℕ) (p : String) → Without sep p → split sep p ≡ p ∷ []
unfolding split
split-Without' sep String.[] h = refl
split-Without' sep (String.◌∷◌ c p) (h, hs) =
    split_other sep c p h ∙ ap (extend c) (split-Without' sep p hs)

split-append :
    (sep : Char) (p s : String)
    → Without (code sep) p
    → split (code sep) (String.◌++◌ p (String.◌∷◌ sep s)) ≡ p ∷ split (code sep) s
unfolding split
split-append sep String.[] s h =
    ap (split (code sep)) (nil-append _) ∙ split_sep (code sep) sep s refl
split-append sep (String.◌∷◌ c p) s (h, hs) =
    ap (split (code sep)) (cons-append c p _)
    ∙ split_other (code sep) c _ h
    ∙ ap (extend c) (split-append sep p s hs)

-- Parts without the separator come back from the joined text.
pub split-join :
    (sep : Char) (ps : List String)
    → ps ≢ []
    → All (Without (code sep)) ps
    → split (code sep) (join sep ps) ≡ ps
unfolding join
split-join sep [] ne h = absurd (ne refl)
split-join sep (p ∷ []) ne (h, hs) = split-Without' (code sep) p h
split-join sep (p ∷ q ∷ ps) ne (h, hs) =
    split-append sep p _ h ∙ ap (◌∷◌ p) (split-join sep (q ∷ ps) (cc) hs)

cut_other :
    (sep : ℕ) (c : Char) (s : String)
    → code c ≢ sep
    → cut sep (String.◌∷◌ c s) ≡ found_after c (cut sep s)
unfolding cut
cut_other sep c s h = ground arith

cut_sep : (sep : ℕ) (c : Char) (s : String) → code c ≡ sep → cut sep (String.◌∷◌ c s) ≡ some ("", s)
unfolding cut
cut_sep sep c s h = ground arith

-- The text is its two sides around the separator, which the first side does not hold.
abbrev pub IsCut : Char → String → String → String → Type 0
IsCut sep s before after =
    (s ≡ String.◌++◌ before (String.◌∷◌ sep after)) × Without (code sep) before

found_after-IsCut :
    (sep c : Char) (s before after : String) (o : Option (String × String))
    → code c ≢ code sep
    → found_after c o ≡ some (before, after)
    → ((b a : String) → o ≡ some (b, a) → IsCut sep s b a)
    → IsCut sep (String.◌∷◌ c s) before after
found_after-IsCut sep c s before after none h e ih = cc
found_after-IsCut sep c s before after (some (b, a)) h e ih =
    let pair = some-injective _ _ e in
    let (whole, clear) = ih b a refl in
    subst (λ (p : String × String). IsCut sep (String.◌∷◌ c s) (p.0) (p.1)) pair
      (ap (String.◌∷◌ c) whole ∙ sym (cons-append c b _), (h, clear))

pub cut_sound :
    (sep : Char) (s before after : String)
    → cut (code sep) s ≡ some (before, after)
    → IsCut sep s before after
unfolding cut
cut_sound sep String.[] before after e = cc
cut_sound sep (String.◌∷◌ c s) before after e = elim (ℕ_discrete (code c) (code sep)) [
  | yes at ↦
      let pair = some-injective _ _ (sym (cut_sep (code sep) c s at) ∙ e) in
      subst (λ (p : String × String). IsCut sep (String.◌∷◌ c s) (p.0) (p.1)) pair
        (ap (λ d. String.◌∷◌ d s) (Char-path c sep at) ∙ sym (nil-append _), tt)
  | no other ↦
      found_after-IsCut sep c s before after (cut (code sep) s) other
        (sym (cut_other (code sep) c s other) ∙ e) (cut_sound sep s)
]

pub cut-append :
    (sep : Char) (before after : String)
    → Without (code sep) before
    → cut (code sep) (String.◌++◌ before (String.◌∷◌ sep after)) ≡ some (before, after)
unfolding cut
cut-append sep String.[] after h =
    ap (cut (code sep)) (nil-append _) ∙ cut_sep (code sep) sep after refl
cut-append sep (String.◌∷◌ c before) after (h, hs) =
    ap (cut (code sep)) (cons-append c before _)
    ∙ cut_other (code sep) c _ h
    ∙ ap (found_after c) (cut-append sep before after hs)

-- A text holds the separator exactly if it can be written around it.
pub contains_sound :
    (sep : Char) (s : String)
    → contains (code sep) s ≡ true
    → (before : String) × (after : String) × (s ≡ String.◌++◌ before (String.◌∷◌ sep after))
unfolding contains
contains_sound sep String.[] h = absurd (cc)
contains_sound sep (String.◌∷◌ c s) h = elim (ℕ_discrete (code c) (code sep)) [
  | yes at ↦ ("", s, ap (λ d. String.◌∷◌ d s) (Char-path c sep at) ∙ sym (nil-append _))
  | no other ↦
      let (before, after, e) = contains_sound sep s (ground arith) in
      (String.◌∷◌ c before, after, ap (String.◌∷◌ c) e ∙ sym (cons-append c before _))
]

pub contains-append :
    (sep : Char) (before after : String)
    → contains (code sep) (String.◌++◌ before (String.◌∷◌ sep after)) ≡ true
unfolding contains
contains-append sep String.[] after = ap (contains (code sep)) (nil-append _) ∙ ground arith
contains-append sep (String.◌∷◌ c before) after =
    ap (contains (code sep)) (cons-append c before _)
    ∙ ground (arith, contains-append sep before after)

-- A text that does not hold the separator is without it.
pub contains-Without : (sep : ℕ) (s : String) → contains sep s ≡ false → Without sep s
unfolding contains
contains-Without sep String.[] h = tt
contains-Without sep (String.◌∷◌ c s) h = (ground arith, contains-Without sep s (ground arith))
