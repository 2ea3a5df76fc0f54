-- ===== src/Workloads/Distance/Rows.antt =====
-- The two rows of `levenshtein` hold the distances between prefixes, each read from its end.
use mathlib.Core.List.{reverse, reverse_aux}
use native.Mathlib.Decide.{dec_lt}
use native.Mathlib.Numerals.{sub-one}
use virtwork.Base.{
  ℕ, zero, suc, ◌+◌, ◌≤◌, ◌<◌, min, ◌≡◌, refl, sym, ap, ◌∙◌, subst, List, [], ◌∷◌, some, arith,
  length, get_elem?, replicate, length-replicate,
}
use virtwork.Workloads.Distance.{set_elem?, cost, cell, columns, rows, count_up}
use virtwork.Workloads.Distance.Edits.{lev}

-- the row after `arr[i] = v`
written : List ℕ → ℕ → ℕ → List ℕ
written [] i v = []
written (x ∷ xs) zero v = v ∷ xs
written (x ∷ xs) (suc i) v = x ∷ written xs i v

set_elem?_of_lt : (xs : List ℕ) (i v : ℕ) → i < length xs → set_elem? xs i v ≡ some (written xs i v)
unfolding set_elem? written
set_elem?_of_lt [] i v h = absurd (omega arith)
set_elem?_of_lt (x ∷ xs) zero v h = refl
set_elem?_of_lt (x ∷ xs) (suc i) v h = rw (set_elem?_of_lt xs i v (omega arith))

length-written : (xs : List ℕ) (i v : ℕ) → length (written xs i v) ≡ length xs
unfolding written
length-written [] i v = refl
length-written (x ∷ xs) zero v = refl
length-written (x ∷ xs) (suc i) v = ap suc (length-written xs i v)

get_elem?-written_self :
    (xs : List ℕ) (i v : ℕ) → i < length xs → get_elem? (written xs i v) i ≡ some v
unfolding written
get_elem?-written_self [] i v h = absurd (omega arith)
get_elem?-written_self (x ∷ xs) zero v h = refl
get_elem?-written_self (x ∷ xs) (suc i) v h = get_elem?-written_self xs i v (omega arith)

get_elem?-written_below :
    (xs : List ℕ) (i j v : ℕ) → j < i → get_elem? (written xs i v) j ≡ get_elem? xs j
unfolding written
get_elem?-written_below [] i j v h = refl
get_elem?-written_below (x ∷ xs) zero j v h = absurd (omega arith)
get_elem?-written_below (x ∷ xs) (suc i) zero v h = refl
get_elem?-written_below (x ∷ xs) (suc i) (suc j) v h =
    get_elem?-written_below xs i j v (omega arith)

-- the first `i` bytes in front of `acc`, the last of them first
pub prefix : ℕ → List ℕ → List ℕ → List ℕ
prefix zero a acc = acc
prefix (suc i) [] acc = acc
prefix (suc i) (x ∷ a) acc = prefix i a (x ∷ acc)

prefix-suc :
    (i : ℕ) (a acc : List ℕ) (x : ℕ)
    → get_elem? a i ≡ some x
    → prefix (suc i) a acc ≡ x ∷ prefix i a acc
unfolding prefix
prefix-suc i [] acc x h = cc
prefix-suc zero (z ∷ a) acc x h = ground arith
prefix-suc (suc i) (z ∷ a) acc x h = prefix-suc i a (z ∷ acc) x h

pub prefix_all : (a acc : List ℕ) → prefix (length a) a acc ≡ reverse_aux a acc
unfolding prefix
prefix_all [] acc = refl
prefix_all (x ∷ a) acc = prefix_all a (x ∷ acc)

get_elem?_of_lt {ℓ} :
    {A : Type ℓ} (xs : List A) (i : ℕ) → i < length xs → (x : A) × (get_elem? xs i ≡ some x)
get_elem?_of_lt [] i h = absurd (omega arith)
get_elem?_of_lt (x ∷ xs) zero h = (x, refl)
get_elem?_of_lt (x ∷ xs) (suc i) h = get_elem?_of_lt xs i (omega arith)

length-prefix : (i : ℕ) (a acc : List ℕ) → i ≤ length a → length (prefix i a acc) ≡ i + length acc
unfolding prefix
length-prefix zero a acc h = omega arith
length-prefix (suc i) [] acc h = absurd (omega arith)
length-prefix (suc i) (x ∷ a) acc h = omega (arith, length-prefix i a (x ∷ acc) (omega arith))

lev-nil : (a : List ℕ) → lev a [] ≡ length a
unfolding lev
lev-nil [] = refl
lev-nil (x ∷ a) = refl

module _ (a b : List ℕ) where
  -- the distance between the first `i` bytes of `a` and the first `j` of `b`
  abbrev dist : ℕ → ℕ → ℕ
  dist i j = lev (prefix i a []) (prefix j b [])

  -- The row has a cell for each prefix of `b`; those below `upto` hold the distances of row `i`.
  record IsRow (i upto : ℕ) (row : List ℕ) : Type 0 where
    width : length row ≡ length b + 1
    cells : (j : ℕ) → j < upto → get_elem? row j ≡ some (dist i j)

  dist-zero : (i : ℕ) → i ≤ length a → dist i 0 ≡ i
  unfolding prefix
  dist-zero i h = lev-nil (prefix i a []) ∙ length-prefix i a [] h ∙ omega arith

  dist-suc :
      (i j x y : ℕ)
      → get_elem? a i ≡ some x
      → get_elem? b j ≡ some y
      → dist (suc i) (suc j)
        ≡ min (dist (suc i) j + 1) (min (dist i (suc j) + 1) (dist i j + cost x y))
  unfolding lev
  dist-suc i j x y hx hy = rw (prefix-suc i a [] x hx, prefix-suc j b [] y hy) refl

  set_elem?-IsRow :
      (i j : ℕ) (row : List ℕ)
      → IsRow i j row
      → j < length b + 1
      → (out : List ℕ) × (set_elem? row j (dist i j) ≡ some out) × IsRow i (suc j) out
  set_elem?-IsRow i j row r h = (
    written row j (dist i j),
    set_elem?_of_lt row j (dist i j) (omega (arith, r.width)),
    record {
      width = length-written row j (dist i j) ∙ r.width;
      cells = λ k p. elim (dec_lt k j) [
        | yes below ↦ get_elem?-written_below row j k (dist i j) below ∙ r.cells k below
        | no other ↦
            let at : j ≡ k = omega arith in
            subst (λ n. get_elem? (written row j (dist i j)) n ≡ some (dist i n)) at
              (get_elem?-written_self row j (dist i j) (omega (arith, r.width)))
      ];
    },
  )

  cell-eq :
      (i j : ℕ) (prev curr : List ℕ)
      → i < length a
      → j < length b
      → IsRow i (length b + 1) prev
      → IsRow (suc i) (suc j) curr
      → cell a b (suc i) prev (suc j) curr ≡ set_elem? curr (suc j) (dist (suc i) (suc j))
  unfolding cell
  cell-eq i j prev curr hi hj p c =
      let (x, hx) = get_elem?_of_lt a i hi in
      let (y, hy) = get_elem?_of_lt b j hj in
      simp (
        sub-one,
        hx,
        hy,
        c.cells j (omega arith),
        p.cells (suc j) (omega arith),
        p.cells j (omega arith),
        dist-suc i j x y hx hy,
      )

  columns-IsRow :
      (i left j : ℕ) (prev curr : List ℕ)
      → i < length a
      → j + left ≡ length b
      → IsRow i (length b + 1) prev
      → IsRow (suc i) (suc j) curr
      → (out : List ℕ) × (columns a b (suc i) prev left (suc j) curr ≡ some out)
        × IsRow (suc i) (length b + 1) out
  unfolding columns
  columns-IsRow i zero j prev curr hi e p c =
      (curr, refl, subst (λ n. IsRow (suc i) n curr) (omega arith) c)
  columns-IsRow i (suc left) j prev curr hi e p c =
      let (next, stored, r) = set_elem?-IsRow (suc i) (suc j) curr c (omega arith) in
      let (out, run, q) = columns-IsRow i left (suc j) prev next hi (omega arith) p r in
      (out, rw (cell-eq i j prev curr hi (omega arith) p c, stored) run, q)

  rows-eq :
      (left i : ℕ) (prev curr : List ℕ)
      → i + left ≡ length a
      → IsRow i (length b + 1) prev
      → length curr ≡ length b + 1
      → rows a b left (suc i) prev curr ≡ some (dist (length a) (length b))
  unfolding rows
  rows-eq zero i prev curr e p w =
      p.cells (length b) (omega arith) ∙ ap (λ n. some (dist n (length b))) (omega arith)
  rows-eq (suc left) i prev curr e p w =
      let empty : IsRow (suc i) 0 curr = record {
        width = w;
        cells = λ j h. absurd (omega arith);
      } in
      let (started, stored, r) = set_elem?-IsRow (suc i) 0 curr empty (omega arith) in
      let (filled, run, q) =
        columns-IsRow i (length b) 0 prev started (omega arith) (omega arith) p r in
      let first = dist-zero (suc i) (omega arith) in
      rw (rw first at stored, run) (rows-eq left (suc i) filled prev (omega arith) q p.width)

count_up-length : (n j : ℕ) → length (count_up n j) ≡ n
unfolding count_up
count_up-length zero j = refl
count_up-length (suc n) j = ap suc (count_up-length n (suc j))

get_elem?-count_up : (n j k : ℕ) → k < n → get_elem? (count_up n j) k ≡ some (j + k)
unfolding count_up
get_elem?-count_up zero j k h = absurd (omega arith)
get_elem?-count_up (suc n) j zero h = ap some (omega arith)
get_elem?-count_up (suc n) j (suc k) h =
    get_elem?-count_up n (suc j) k (omega arith) ∙ ap some (omega arith)

-- Row 0 of the table, `prev[j] = j`.
first-IsRow : (a b : List ℕ) → IsRow a b 0 (length b + 1) (count_up (length b + 1) 0)
unfolding prefix lev
first-IsRow a b = record {
  width = count_up-length (length b + 1) 0;
  cells = λ j h.
      get_elem?-count_up (length b + 1) 0 j h
      ∙ ap some (omega (arith, length-prefix j b [] (omega arith)));
}

-- The loops end in the distance of the two texts, read from their ends.
pub rows-eq-lev :
    (a b : List ℕ)
    → rows a b (length a) 1 (count_up (length b + 1) 0) (replicate (length b + 1) 0)
      ≡ some (lev (reverse a) (reverse b))
rows-eq-lev a b =
    rows-eq a b (length a) 0 _ _ (omega arith) (first-IsRow a b) (length-replicate _ 0)
    ∙ ap some (rw (prefix_all a [], prefix_all b []))

pub length-reverse : (a : List ℕ) → length (reverse a) ≡ length a
length-reverse a =
    ap length (sym (prefix_all a [])) ∙ length-prefix (length a) a [] (omega arith) ∙ omega arith

-- An empty text is as far from another one as that is long.
pub lev-nil_right : (a : List ℕ) → lev (reverse a) [] ≡ length a
lev-nil_right a = lev-nil (reverse a) ∙ length-reverse a
