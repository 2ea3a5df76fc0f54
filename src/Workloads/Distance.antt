-- ===== src/Workloads/Distance.antt =====
-- `levenshtein` of internal/workloads/registry.go: the edit distance of two texts, byte by byte,
-- with two rows of its table. An index out of range panics in Go and is `none` here.
mod Rows
pub mod Edits
pub mod Laws
use virtwork.Base.{
  ℕ, zero, suc, ◌+◌, ◌-◌, min, List, [], ◌∷◌, Option, none, some, ◌>>=◌, eqb, if◌then◌else◌, length,
  get_elem?, replicate,
}

-- `arr[i] = v`
pub set_elem? : List ℕ → ℕ → ℕ → Option (List ℕ)
set_elem? [] i v = none
set_elem? (x ∷ xs) zero v = some (v ∷ xs)
set_elem? (x ∷ xs) (suc i) v = do rest ← set_elem? xs i v; some (x ∷ rest)

-- `cost`, which is 0 where the two bytes agree
abbrev pub cost : ℕ → ℕ → ℕ
cost x y = if eqb x y then 0 else 1

module _ (a b : List ℕ) where
  -- the body of the loop over `j`, in row `i`
  pub cell : (i : ℕ) (prev : List ℕ) (j : ℕ) (curr : List ℕ) → Option (List ℕ)
  cell i prev j curr = do
    x ← get_elem? a (i - 1)
    y ← get_elem? b (j - 1)
    left ← get_elem? curr (j - 1)
    up ← get_elem? prev j
    diagonal ← get_elem? prev (j - 1)
    set_elem? curr j (min (left + 1) (min (up + 1) (diagonal + cost x y)))

  -- the loop over `j`, with the number of rounds that are left
  pub columns : (i : ℕ) (prev : List ℕ) (left j : ℕ) (curr : List ℕ) → Option (List ℕ)
  columns i prev zero j curr = some curr
  columns i prev (suc left) j curr = cell i prev j curr >>= columns i prev left (suc j)

  -- the loop over `i`; the two rows change places after each round
  pub rows : (left i : ℕ) (prev curr : List ℕ) → Option ℕ
  rows zero i prev curr = get_elem? prev (length b)
  rows (suc left) i prev curr = do
    started ← set_elem? curr 0 i
    filled ← columns i prev (length b) 1 started
    rows left (suc i) filled prev

-- `for j := range prev { prev[j] = j }`
pub count_up : ℕ → ℕ → List ℕ
count_up zero j = []
count_up (suc n) j = j ∷ count_up n (suc j)

pub levenshtein : List ℕ → List ℕ → Option ℕ
levenshtein a b =
    if eqb (length a) 0
    then some (length b)
    else if eqb (length b) 0
    then some (length a)
    else rows a b (length a) 1 (count_up (length b + 1) 0) (replicate (length b + 1) 0)
