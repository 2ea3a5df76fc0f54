-- ===== src/Audit/Sqlite/Marked.antt =====
-- The rows that an update marks, and what the conditions of the deletions by name mean.
use virtwork.Base.{
  ℕ, String, Bool, true, false, List, [], ◌∷◌, ◌≡◌, refl, sym, ap, In, Bool-cases, inl, inr, ◌==◌,
  ◌&&◌, eqb, eq_iff, arith,
}
use virtwork.Audit.Tables.{AuditRow, update_rows}
use virtwork.Audit.Statements.{is_in, is_run_of}

-- The rows stay in place with their ids: those that are wanted are marked, the others are as before.
abbrev pub Marked : {R : Type 0} → (R → Type 0) → (R → R) → List (ℕ × R) → List (ℕ × R) → Type 0
Marked Wanted mark [] [] = Unit
Marked Wanted mark [] (s ∷ ss) = ⊥
Marked Wanted mark (r ∷ rs) [] = ⊥
Marked Wanted mark ((i, r) ∷ rs) ((j, s) ∷ ss) =
    (j ≡ i) × (Wanted r → s ≡ mark r) × ((¬ Wanted r) → s ≡ r) × Marked Wanted mark rs ss

-- the execution with this id has one of the run ids
abbrev pub IsOfRun : List (ℕ × AuditRow) → List String → ℕ → Type 0
IsOfRun audits run_ids id = (row : AuditRow) × In (id, row) audits × In row.run_id run_ids

pub is_in-In : (s : String) (ts : List String) → is_in s ts ≡ true → In s ts
unfolding is_in
is_in-In s [] h = absurd (cc)
is_in-In s (t ∷ ts) h = elim (Bool-cases (s == t)) [
  | inl e ↦ inl ((eq_iff s t).0 e)
  | inr n ↦ inr (is_in-In s ts (ground arith))
]

pub In-is_in : (s : String) (ts : List String) → In s ts → is_in s ts ≡ true
unfolding is_in
In-is_in s [] i = absurd i
In-is_in s (t ∷ ts) (inl e) = rw ((eq_iff s t).1 e) refl
In-is_in s (t ∷ ts) (inr i) = let h = In-is_in s ts i in ground arith

pub and_both : (a b : Bool) → (a && b) ≡ true → (a ≡ true) × (b ≡ true)
and_both true b h = (refl, h)
and_both false b h = absurd (cc)

pub is_run_of-IsOfRun :
    (run_ids : List String) (id : ℕ) (audits : List (ℕ × AuditRow))
    → is_run_of run_ids id audits ≡ true
    → IsOfRun audits run_ids id
unfolding is_run_of
is_run_of-IsOfRun run_ids id [] h = absurd (cc)
is_run_of-IsOfRun run_ids id ((j, row) ∷ audits) h =
    elim (Bool-cases (eqb j id && is_in row.run_id run_ids)) [
      | inl t ↦
          let (same, listed) = and_both (eqb j id) (is_in row.run_id run_ids) t in
          let e : id ≡ j = ground arith in
          (row, inl (ap (λ k. (k, row)) e), is_in-In row.run_id run_ids listed)
      | inr f ↦
          let (other, i, listed) = is_run_of-IsOfRun run_ids id audits (ground arith) in
          (other, inr i, listed)
    ]

pub IsOfRun-is_run_of :
    (run_ids : List String) (id : ℕ) (audits : List (ℕ × AuditRow))
    → IsOfRun audits run_ids id
    → is_run_of run_ids id audits ≡ true
unfolding is_run_of
IsOfRun-is_run_of run_ids id [] (row, i, listed) = absurd i
IsOfRun-is_run_of run_ids id ((j, r) ∷ audits) (row, inl e, listed) =
    let same : j ≡ id = ap (λ (p : ℕ × AuditRow). p.0) (sym e) in
    let row_same : r ≡ row = ap (λ (p : ℕ × AuditRow). p.1) (sym e) in
    rw (row_same, In-is_in row.run_id run_ids listed) (ground arith)
IsOfRun-is_run_of run_ids id ((j, r) ∷ audits) (row, inr i, listed) =
    let h = IsOfRun-is_run_of run_ids id audits (row, i, listed) in ground arith

module _ {R : Type 0} (Wanted : R → Type 0) (mark : R → R) where
  pub update_rows-Marked :
      (test : ℕ → R → Bool) (rows : List (ℕ × R))
      → ((id : ℕ) (row : R) → test id row ≡ true → Wanted row)
      → ((id : ℕ) (row : R) → Wanted row → test id row ≡ true)
      → Marked Wanted mark rows (update_rows test mark rows)
  unfolding update_rows
  update_rows-Marked test [] sound complete = tt
  update_rows-Marked test ((id, row) ∷ rows) sound complete = (
    refl,
    (λ wanted. rw (complete id row wanted) refl),
    (λ unwanted. elim (Bool-cases (test id row)) [
      | inl t ↦ absurd (unwanted (sound id row t))
      | inr f ↦ rw f refl
    ]),
    update_rows-Marked test rows sound complete,
  )

  -- where no row is wanted, nothing changes
  pub Marked-none :
      (rows : List (ℕ × R)) → ((row : R) → ¬ Wanted row) → Marked Wanted mark rows rows
  Marked-none [] h = tt
  Marked-none ((id, row) ∷ rows) h =
      (refl, (λ wanted. absurd (h row wanted)), (λ unwanted. refl), Marked-none rows h)
