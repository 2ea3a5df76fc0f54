-- ===== src/Goroutines/Together.antt =====
-- What goroutines bring about together, whatever their order, by what each does alone.
use virtwork.Base.{Option, none, some, List, [], ◌∷◌, refl, map, All, In, inl, inr, subst, sym}
use virtwork.Goroutines.{
  Task, finished, call, Step, here, there, Runs, start, move, meanwhile, IsResult, Waits, waits,
}

-- `P a` is what the goroutine for `a` is to bring about, and `F a` what its errors say.
module _ {A W E : Type 0} (P : A → W → Type 0) (F : A → E → Type 0) where
  -- nothing that was brought about is undone
  abbrev pub Keeps : W → W → Type 0
  Keeps w v = (a : A) → P a w → P a v

  -- no call of the goroutine undoes anything
  abbrev pub IsPolite : Task W E → Type 0
  IsPolite (finished r) = Unit
  IsPolite (call act next) = (w : W) → Keeps w (act w) × IsPolite (next w)

  abbrev pub Returned : A → Option E → W → Type 0
  Returned a none w = P a w
  Returned a (some e) w = F a e

  -- From `w` on, whatever the others do, the goroutine returns as `Returned` says.
  abbrev pub Attains : A → Task W E → W → Type 0
  Attains a (finished r) w = Returned a r w
  Attains a (call act next) w = (v : W) → Keeps w v → Attains a (next v) (act v)

  Returned-Keeps : (a : A) (r : Option E) (w v : W) → Keeps w v → Returned a r w → Returned a r v
  Returned-Keeps a none w v k h = k a h
  Returned-Keeps a (some e) w v k h = h

  Attains-Keeps : (a : A) (t : Task W E) (w v : W) → Keeps w v → Attains a t w → Attains a t v
  Attains-Keeps a (finished r) w v k h = Returned-Keeps a r w v k h
  Attains-Keeps a (call act next) w v k h = λ u k'. h u (λ b p. k' b (k b p))

  -- each goroutine of the list, beside its item
  abbrev pub Each : List A → List (Task W E) → W → Type 0
  Each [] [] w = Unit
  Each [] (t ∷ ts) w = ⊥
  Each (a ∷ items) [] w = ⊥
  Each (a ∷ items) (t ∷ ts) w = Attains a t w × IsPolite t × Each items ts w

  Each-Keeps :
      (items : List A) (ts : List (Task W E)) (w v : W)
      → Keeps w v
      → Each items ts w
      → Each items ts v
  Each-Keeps [] [] w v k h = tt
  Each-Keeps [] (t ∷ ts) w v k h = h
  Each-Keeps (a ∷ items) [] w v k h = h
  Each-Keeps (a ∷ items) (t ∷ ts) w v k (h, p, hs) =
      (Attains-Keeps a t w v k h, p, Each-Keeps items ts w v k hs)

  Step-Each :
      (items : List A) {ts : List (Task W E)} {w : W} {us : List (Task W E)} {v : W}
      → Step ts w us v
      → Each items ts w
      → Keeps w v × Each items us v
  Step-Each [] here h = absurd h
  Step-Each [] (there s) h = absurd h
  Step-Each (a ∷ items) {ts = []} s h = elim s [ ]
  Step-Each (a ∷ items) {ts = call act next ∷ ts} {w = w} here (h, p, hs) =
      let (k, p') = p w in (k, (h w (λ b q. q), p', Each-Keeps items ts w (act w) k hs))
  Step-Each (a ∷ items) {ts = t ∷ ts} {w = w} {v = v} (there s) (h, p, hs) =
      let (k, hs') = Step-Each items s hs in (k, (Attains-Keeps a t w v k h, p, hs'))

  pub Runs-Each :
      (outside : W → W → Type 0) (items : List A) {ts : List (Task W E)} {w : W}
      {us : List (Task W E)} {v : W}
      → ((w v : W) → outside w v → Keeps w v)
      → Runs outside ts w us v
      → Each items ts w
      → Each items us v
  Runs-Each outside items o start h = h
  Runs-Each outside items o (move r s) h =
      let (k, hs) = Step-Each items s (Runs-Each outside items o r h) in hs
  Runs-Each outside items o (meanwhile {us = us} {v = v} {u = u} r s) h =
      Each-Keeps items us v u (o v u s) (Runs-Each outside items o r h)

  -- What the result of the group says: nil, and everything was brought about; or an error, which is
  -- one of those that the goroutine of some item may return.
  abbrev pub Brought : List A → Option E → W → Type 0
  Brought items none w = All (λ a. P a w) items
  Brought items (some e) w = (a : A) × In a items × F a e

  pub Each-Brought :
      (items : List A) (rs : List (Option E)) (r : Option E) (w : W)
      → Each items (map finished rs) w
      → IsResult rs r
      → Brought items r w
  Each-Brought [] [] none w h g = tt
  Each-Brought [] [] (some e) w h g = absurd g
  Each-Brought [] (r ∷ rs) o w h g = absurd h
  Each-Brought (a ∷ items) [] o w h g = absurd h
  Each-Brought (a ∷ items) (r ∷ rs) none w (h, p, hs) (g, gs) =
      (subst (λ o. Returned a o w) g h, Each-Brought items rs none w hs gs)
  Each-Brought (a ∷ items) (r ∷ rs) (some e) w (h, p, hs) (inl g) =
      (a, inl refl, subst (λ o. Returned a o w) (sym g) h)
  Each-Brought (a ∷ items) (r ∷ rs) (some e) w (h, p, hs) (inr g) =
      let (b, i, f) = Each-Brought items rs (some e) w hs g in (b, inr i, f)

  pub Waits-Brought :
      (outside : W → W → Type 0) (items : List A) {ts : List (Task W E)} {w v : W} {r : Option E}
      → ((w v : W) → outside w v → Keeps w v)
      → Each items ts w
      → Waits outside ts w r v
      → Brought items r v
  Waits-Brought outside items {v = v} {r = r} o h (waits rs runs g) =
      Each-Brought items rs r v (Runs-Each outside items o runs h) g
