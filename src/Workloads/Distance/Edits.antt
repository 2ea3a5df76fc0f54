-- ===== src/Workloads/Distance/Edits.antt =====
-- The specification of the edit distance: the least number of single-byte edits.
use mathlib.Core.List.{reverse, reverse-cons, append-nil}
use native.Mathlib.Decide.{dec_le}
use virtwork.Base.{
  ℕ, suc, ◌+◌, ◌≤◌, min, ◌≡◌, List, [], ◌∷◌, ◌++◌, arith, length, inl, inr, Bool-cases, eqb, subst,
}
use virtwork.Workloads.Distance.{cost}

-- `Edit a b k`: `k` removals, insertions and replacements of single bytes turn `a` into `b`.
pub data Edit : List ℕ → List ℕ → ℕ → Type 0 where
  done : Edit [] [] 0
  keep : {a b : List ℕ} {k : ℕ} (x : ℕ) → Edit a b k → Edit (x ∷ a) (x ∷ b) k
  replace : {a b : List ℕ} {k : ℕ} (x y : ℕ) → Edit a b k → Edit (x ∷ a) (y ∷ b) (suc k)
  remove : {a b : List ℕ} {k : ℕ} (x : ℕ) → Edit a b k → Edit (x ∷ a) b (suc k)
  insert : {a b : List ℕ} {k : ℕ} (y : ℕ) → Edit a b k → Edit a (y ∷ b) (suc k)

-- the distance by recursion on both texts
unfoldable pub lev : List ℕ → List ℕ → ℕ
lev [] b = length b
lev (x ∷ a) [] = suc (length a)
lev (x ∷ a) (y ∷ b) = min (lev (x ∷ a) b + 1) (min (lev a (y ∷ b) + 1) (lev a b + cost x y))

lev-cons_left : (x : ℕ) (a b : List ℕ) → lev (x ∷ a) b ≤ suc (lev a b)
unfolding lev
lev-cons_left x [] [] = omega arith
lev-cons_left x (z ∷ a) [] = omega arith
lev-cons_left x a (y ∷ b) = omega arith

lev-cons_right : (y : ℕ) (a b : List ℕ) → lev a (y ∷ b) ≤ suc (lev a b)
unfolding lev
lev-cons_right y [] b = omega arith
lev-cons_right y (x ∷ a) b = omega arith

-- No edit script is shorter than `lev`.
pub lev_least : {a b : List ℕ} {k : ℕ} → Edit a b k → lev a b ≤ k
unfolding lev
lev_least done = omega arith
lev_least (keep x e) = ground (arith, lev_least e)
lev_least (replace x y e) = ground (arith, lev_least e)
lev_least (remove {a} {b} x e) = omega (arith, lev_least e, lev-cons_left x a b)
lev_least (insert {a} {b} y e) = omega (arith, lev_least e, lev-cons_right y a b)

insert_all : (b : List ℕ) → Edit [] b (length b)
insert_all [] = done
insert_all (y ∷ b) = insert y (insert_all b)

remove_all : (a : List ℕ) → Edit a [] (length a)
remove_all [] = done
remove_all (x ∷ a) = remove x (remove_all a)

-- An edit script of one byte against another, which costs nothing where they agree.
match_bytes : (x y : ℕ) {a b : List ℕ} {k : ℕ} → Edit a b k → Edit (x ∷ a) (y ∷ b) (k + cost x y)
match_bytes x y {a} {b} {k} e = elim (Bool-cases (eqb x y)) [
  | inl same ↦
      let at : y ≡ x = ground arith in
      let count : k ≡ k + cost x y = ground arith in
      subst (λ z. Edit (x ∷ a) (z ∷ b) (k + cost x y)) (ground arith)
        (subst (Edit (x ∷ a) (x ∷ b)) count (keep x e))
  | inr other ↦
      let count : suc k ≡ k + cost x y = ground arith in
      subst (Edit (x ∷ a) (y ∷ b)) count (replace x y e)
]

recount : {a b : List ℕ} {m n : ℕ} → m ≡ n → Edit a b m → Edit a b n
recount {a} {b} e = subst (Edit a b) e

-- Of two numbers of edits that can be reached the smaller one can.
Edit-min : {a b : List ℕ} (m n : ℕ) → Edit a b m → Edit a b n → Edit a b (min m n)
Edit-min m n e f = elim (dec_le m n) [
  | yes h ↦ recount (omega arith) e
  | no h ↦ recount (omega arith) f
]

-- Some edit script has length `lev`.
pub lev_reached : (a b : List ℕ) → Edit a b (lev a b)
unfolding lev
lev_reached [] b = insert_all b
lev_reached (x ∷ a) [] = remove_all (x ∷ a)
lev_reached (x ∷ a) (y ∷ b) =
    Edit-min _ _ (recount (omega arith) (insert y (lev_reached (x ∷ a) b))) (
      Edit-min _ _ (recount (omega arith) (remove x (lev_reached a (y ∷ b))))
        (match_bytes x y (lev_reached a b)))

Edit-append :
    {a b c d : List ℕ} {k m : ℕ} → Edit a b k → Edit c d m → Edit (a ++ c) (b ++ d) (m + k)
Edit-append done f = recount (omega arith) f
Edit-append (keep x e) f = keep x (Edit-append e f)
Edit-append (replace x y e) f = recount (omega arith) (replace x y (Edit-append e f))
Edit-append (remove x e) f = recount (omega arith) (remove x (Edit-append e f))
Edit-append (insert y e) f = recount (omega arith) (insert y (Edit-append e f))

-- Read from the other end, an edit script has the same length.
pub Edit-reverse : {a b : List ℕ} {k : ℕ} → Edit a b k → Edit (reverse a) (reverse b) k
Edit-reverse done = done
Edit-reverse (keep {a} {b} x e) =
    rw (reverse-cons x a, reverse-cons x b)
      (recount (omega arith) (Edit-append (Edit-reverse e) (keep x done)))
Edit-reverse (replace {a} {b} x y e) =
    rw (reverse-cons x a, reverse-cons y b)
      (recount (omega arith) (Edit-append (Edit-reverse e) (replace x y done)))
Edit-reverse (remove {a} {b} {k} x e) = rw (reverse-cons x a) (
    subst (λ z. Edit (reverse a ++ x ∷ []) z (suc k)) (append-nil (reverse b))
      (recount (omega arith) (Edit-append (Edit-reverse e) (remove x done))))
Edit-reverse (insert {a} {b} {k} y e) = rw (reverse-cons y b) (
    subst (λ z. Edit z (reverse b ++ y ∷ []) (suc k)) (append-nil (reverse a))
      (recount (omega arith) (Edit-append (Edit-reverse e) (insert y done))))
