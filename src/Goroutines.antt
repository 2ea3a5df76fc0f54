-- ===== src/Goroutines.antt =====
-- The goroutines of Go, and a group of them as golang.org/x/sync/errgroup runs it for
-- internal/orchestrator/orchestrator.go.
pub mod Together
pub mod Finish
pub mod Quiet
use virtwork.Base.{Option, none, some, List, [], ◌∷◌, ◌≡◌, map, All, In}

-- A goroutine, over a world that all share: it has returned, or it makes a call, which is one step,
-- and goes on by the world in which the call was made.
pub data Task (W E : Type 0) : Type 0 where
  finished : Option E → Task W E
  call : (act : W → W) (next : W → Task W E) → Task W E

-- a call with a result
abbrev pub perform : {W E R : Type 0} → (W → R × W) → (R → Task W E) → Task W E
perform f next = call (λ w. (f w).1) (λ w. next (f w).0)

-- One goroutine makes a step.
pub data Step {W E : Type 0} : List (Task W E) → W → List (Task W E) → W → Type 0 where
  here :
      {act : W → W} {next : W → Task W E} {ts : List (Task W E)} {w : W}
      → Step (call act next ∷ ts) w (next w ∷ ts) (act w)
  there :
      {t : Task W E} {ts us : List (Task W E)} {w v : W}
      → Step ts w us v
      → Step (t ∷ ts) w (t ∷ us) v

-- The goroutines run in any order. In between, what is outside of them changes the world: the
-- group cancels its context, time passes, the cluster's controllers act.
pub data Runs {W E : Type 0} (outside : W → W → Type 0) (ts : List (Task W E)) (w : W)
    : List (Task W E) → W → Type 0 where
  start : Runs outside ts w ts w
  move :
      {us vs : List (Task W E)} {v u : W}
      → Runs outside ts w us v
      → Step us v vs u
      → Runs outside ts w vs u
  meanwhile :
      {us : List (Task W E)} {v u : W}
      → Runs outside ts w us v
      → outside v u
      → Runs outside ts w us u

-- What `Wait` returns: nil if no goroutine returned an error, or the error of one of them.
abbrev pub IsResult : {E : Type 0} → List (Option E) → Option E → Type 0
IsResult rs none = All (λ r. r ≡ none) rs
IsResult rs (some e) = In (some e) rs

-- `Wait` returns `r` in the world `v`, after all goroutines have returned.
pub data Waits {W E : Type 0} (outside : W → W → Type 0) (ts : List (Task W E)) (w : W)
    (r : Option E) (v : W) : Type 0 where
  waits :
      (rs : List (Option E))
      → Runs outside ts w (map finished rs) v
      → IsResult rs r
      → Waits outside ts w r v
