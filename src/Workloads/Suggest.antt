-- ===== src/Workloads/Suggest.antt =====
-- `closestMatch` of internal/workloads/registry.go: the "did you mean?" suggestion.
pub mod Laws
use virtwork.Base.{
  ℕ, ◌+◌, ◌/◌, String, List, [], ◌∷◌, Option, some, ◌>>=◌, ltb, if◌then◌else◌, length,
}
use virtwork.Base.Text.Bytes.{bytes}
use virtwork.Workloads.Distance.{levenshtein}

-- the loop over the candidates, with `best` and `bestDist`
pub closest_from : String → String → ℕ → List String → Option String
closest_from input best best_dist [] = some best
closest_from input best best_dist (c ∷ candidates) = do
  d ← levenshtein (bytes input) (bytes c)
  let closer = ltb d best_dist
  closest_from input (if closer then c else best) (if closer then d else best_dist) candidates

unfoldable pub closest_match : String → List String → Option String
unfolding closest_from
closest_match input candidates = closest_from input "" (length (bytes input) / 2 + 1) candidates
