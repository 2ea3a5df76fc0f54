-- ===== src/Goroutines/Finish.antt =====
-- Goroutines can always run to their end.
use virtwork.Base.{Option, List, [], ◌∷◌, map}
use virtwork.Goroutines.{Task, finished, call, here, there, Runs, start, move, meanwhile}

module _ {W E : Type 0} (outside : W → W → Type 0) where
  pub Runs-trans :
      {ts : List (Task W E)} {w : W} {us : List (Task W E)} {v : W} {vs : List (Task W E)} {u : W}
      → Runs outside ts w us v
      → Runs outside us v vs u
      → Runs outside ts w vs u
  Runs-trans r start = r
  Runs-trans r (move q s) = move (Runs-trans r q) s
  Runs-trans r (meanwhile q o) = meanwhile (Runs-trans r q) o

  Runs-cons :
      (t : Task W E) {ts : List (Task W E)} {w : W} {us : List (Task W E)} {v : W}
      → Runs outside ts w us v
      → Runs outside (t ∷ ts) w (t ∷ us) v
  Runs-cons t start = start
  Runs-cons t (move r s) = move (Runs-cons t r) (there s)
  Runs-cons t (meanwhile r o) = meanwhile (Runs-cons t r) o

  -- one goroutine runs to its end
  Runs-head :
      (t : Task W E) (ts : List (Task W E)) (w : W)
      → (r : Option E) × (v : W) × Runs outside (t ∷ ts) w (finished r ∷ ts) v
  Runs-head (finished r) ts w = (r, w, start)
  Runs-head (call act next) ts w =
      let (r, v, runs) = Runs-head (next w) ts (act w) in (r, v, Runs-trans (move start here) runs)

  pub Runs-finish :
      (ts : List (Task W E)) (w : W)
      → (rs : List (Option E)) × (v : W) × Runs outside ts w (map finished rs) v
  Runs-finish [] w = ([], w, start)
  Runs-finish (t ∷ ts) w =
      let (r, v, first) = Runs-head t ts w in
      let (rs, u, others) = Runs-finish ts v in
      (r ∷ rs, u, Runs-trans first (Runs-cons (finished r) others))
