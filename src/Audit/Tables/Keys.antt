-- ===== src/Audit/Tables/Keys.antt =====
-- The ids of a table, and what an insertion and an update by the new id do to the rows.
use virtwork.Base.{ℕ, suc, ◌≤◌, List, [], ◌∷◌, map, ◌≡◌, refl, All, arith, eqb, true, false}
use virtwork.Audit.Tables.{Table, insert_row, update_rows, update_id}

All-le_suc : (n : ℕ) (js : List ℕ) → All (λ id. id ≤ n) js → All (λ id. id ≤ suc n) js
All-le_suc n [] h = tt
All-le_suc n (j ∷ js) (h, hs) = (omega arith, All-le_suc n js hs)

module _ {R : Type 0} where
  abbrev pub ids : List (ℕ × R) → List ℕ
  ids rows = map (λ (r : ℕ × R). r.0) rows

  -- no id is above the last one that was given out
  abbrev pub IsNumbered : Table R → Type 0
  IsNumbered t = All (λ id. id ≤ t.last_id) (ids t.rows)

  update_rows-below :
      (n : ℕ) (f : R → R) (rows : List (ℕ × R))
      → All (λ id. id ≤ n) (ids rows)
      → update_rows (λ j row. eqb j (suc n)) f rows ≡ rows
  unfolding update_rows
  update_rows-below n f [] h = refl
  update_rows-below n f ((j, row) ∷ rows) (h, hs) =
      let other : eqb j (suc n) ≡ false = ground arith in
      rw (other, update_rows-below n f rows hs) refl

  -- an update by the new id changes the new row only
  pub update_id-insert_row :
      (row : R) (f : R → R) (t : Table R)
      → IsNumbered t
      → update_id (suc t.last_id) f (insert_row row t) ≡ insert_row (f row) t
  unfolding insert_row update_rows
  update_id-insert_row row f t h =
      let same : eqb (suc t.last_id) (suc t.last_id) ≡ true = ground arith in
      rw (same, update_rows-below t.last_id f t.rows h) refl

  pub insert_row-IsNumbered : (row : R) (t : Table R) → IsNumbered t → IsNumbered (insert_row row t)
  unfolding insert_row
  insert_row-IsNumbered row t below = (omega arith, All-le_suc t.last_id (ids t.rows) below)
