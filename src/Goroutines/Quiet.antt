-- ===== src/Goroutines/Quiet.antt =====
-- What no call of a group of goroutines undoes holds when they have run.
use virtwork.Base.{List, [], ◌∷◌, All, map}
use virtwork.Goroutines.{Task, finished, call, Step, here, there, Runs, start, move, meanwhile}

module _ {W E : Type 0} (P : W → Type 0) where
  -- no call of the goroutine undoes `P`
  abbrev pub IsQuiet : Task W E → Type 0
  IsQuiet (finished r) = Unit
  IsQuiet (call act next) = (w : W) → (P w → P (act w)) × IsQuiet (next w)

  Step-IsQuiet :
      {ts : List (Task W E)} {w : W} {us : List (Task W E)} {v : W}
      → Step ts w us v
      → All IsQuiet ts
      → (P w → P v) × All IsQuiet us
  Step-IsQuiet {ts = []} s h = elim s [ ]
  Step-IsQuiet {ts = call act next ∷ ts} {w = w} here (q, qs) = let (k, n) = q w in (k, (n, qs))
  Step-IsQuiet {ts = t ∷ ts} (there s) (q, qs) = let (k, n) = Step-IsQuiet s qs in (k, (q, n))

  Runs-Quiet :
      (outside : W → W → Type 0) {ts : List (Task W E)} {w : W} {us : List (Task W E)} {v : W}
      → ((w v : W) → outside w v → P w → P v)
      → Runs outside ts w us v
      → All IsQuiet ts
      → (P w → P v) × All IsQuiet us
  Runs-Quiet outside o start h = ((λ p. p), h)
  Runs-Quiet outside o (move r s) h =
      let (k, q) = Runs-Quiet outside o r h in let (l, p) = Step-IsQuiet s q in ((λ x. l (k x)), p)
  Runs-Quiet outside o (meanwhile {v = v} {u = u} r s) h =
      let (k, q) = Runs-Quiet outside o r h in ((λ x. o v u s (k x)), q)

  pub Runs-keeps :
      (outside : W → W → Type 0) {ts : List (Task W E)} {w : W} {us : List (Task W E)} {v : W}
      → ((w v : W) → outside w v → P w → P v)
      → Runs outside ts w us v
      → All IsQuiet ts
      → P w
      → P v
  Runs-keeps outside o r h = let (k, q) = Runs-Quiet outside o r h in k

  pub All-IsQuiet :
      {A : Type 0} (f : A → Task W E) (items : List A)
      → ((a : A) → IsQuiet (f a))
      → All IsQuiet (map f items)
  All-IsQuiet f [] h = tt
  All-IsQuiet f (a ∷ items) h = (h a, All-IsQuiet f items h)
