-- ===== src/Workloads/Distance/Laws.antt =====
-- What `levenshtein` returns.
use mathlib.Core.List.{reverse, reverse-reverse}
use virtwork.Base.{ℕ, ◌≤◌, ◌≡◌, List, [], ◌∷◌, some, arith, ap, sym}
use virtwork.Workloads.Distance.{levenshtein}
use virtwork.Workloads.Distance.Edits.{Edit, lev, lev_least, lev_reached, Edit-reverse}
use virtwork.Workloads.Distance.Rows.{rows-eq-lev, length-reverse, lev-nil_right}

pub levenshtein-eq-lev : (a b : List ℕ) → levenshtein a b ≡ some (lev (reverse a) (reverse b))
unfolding levenshtein lev
levenshtein-eq-lev [] b = ap some (sym (length-reverse b))
levenshtein-eq-lev (x ∷ a) [] = ground (arith, lev-nil_right (x ∷ a))
levenshtein-eq-lev (x ∷ a) (y ∷ b) = ground (arith, rows-eq-lev (x ∷ a) (y ∷ b))

-- An edit script between the texts read from their ends is one between the texts.
Edit-unreverse : (a b : List ℕ) {k : ℕ} → Edit (reverse a) (reverse b) k → Edit a b k
Edit-unreverse a b e = rw (reverse-reverse, reverse-reverse) at (Edit-reverse e)

-- `levenshtein` stays within its arrays and returns the least number of single-byte removals,
-- insertions and replacements that turn one text into the other.
pub levenshtein_least :
    (a b : List ℕ)
    → (d : ℕ) × (levenshtein a b ≡ some d) × Edit a b d × ((k : ℕ) → Edit a b k → d ≤ k)
levenshtein_least a b = (
  lev (reverse a) (reverse b),
  levenshtein-eq-lev a b,
  Edit-unreverse a b (lev_reached (reverse a) (reverse b)),
  λ k e. lev_least (Edit-reverse e),
)
