-- ===== src/Audit/Migrate/Once.antt =====
-- Each migration is carried out once.
use virtwork.Base.{
  ℕ, zero, suc, ◌≤◌, String, Option, none, some, List, [], ◌∷◌, length, Result, ok, err, ◌≡◌, refl,
  sym, ap, ◌∙◌, subst, arith,
}
use virtwork.Audit.Migrate.{
  Schema, Connection, MigrateError, create_versions, count_versions, insert_zero, first_version,
  set_version, drop, attempt, migrate_next, migrate_from, after_version, after_count, migrate_db,
}

-- What a call does: it is carried out whole, or changes nothing.
abbrev pub Does :
    {T W : Type 0} → (W → Schema T) → (Schema T → Schema T) → W → Option String × W → Type 0
Does state f w (none, v) = state v ≡ f (state w)
Does state f w (some e, v) = state v ≡ state w

abbrev pub Reads :
    {T W : Type 0} → (W → Schema T) → (Schema T → Option ℕ) → W → Result String ℕ × W → Type 0
Reads state q w (ok n, v) = (q (state w) ≡ some n) × (state v ≡ state w)
Reads state q w (err e, v) = state v ≡ state w

-- What SQLite documents: a statement and the commit of a transaction are atomic, a query and an open
-- transaction change nothing.
pub record IsDurable {T W : Type 0} (conn : Connection T W) : Type 0 where
  pub executed : (f : Schema T → Schema T) (w : W) → Does conn.state f w (conn.exec f w)
  pub queried : (q : Schema T → Option ℕ) (w : W) → Reads conn.state q w (conn.query q w)
  pub begun : (w : W) → Does conn.state (λ db. db) w (conn.begin w)
  pub pending : (w : W) → Does conn.state (λ db. db) w (conn.tx_exec w)
  pub committed : (f : Schema T → Schema T) (w : W) → Does conn.state f w (conn.commit f w)

-- the first `n` of the migrations, one after the other
unfoldable pub apply_first : {T : Type 0} → ℕ → List (T → T) → T → T
apply_first zero ms t = t
apply_first (suc n) [] t = t
apply_first (suc n) (m ∷ ms) t = apply_first n ms (m t)

drop-suc :
    {T : Type 0} (n : ℕ) (xs : List (T → T)) (m : T → T) (ms : List (T → T)) (t : T)
    → drop n xs ≡ m ∷ ms
    → (drop (suc n) xs ≡ ms) × (apply_first (suc n) xs t ≡ m (apply_first n xs t))
unfolding drop apply_first
drop-suc zero [] m ms t e = absurd (cc)
drop-suc zero (x ∷ xs) m ms t e = (cc, cc)
drop-suc (suc n) [] m ms t e = absurd (cc)
drop-suc (suc n) (x ∷ xs) m ms t e = drop-suc n xs m ms (x t) e

drop-nil : {T : Type 0} (n : ℕ) (xs : List (T → T)) → drop n xs ≡ [] → length xs ≤ n
unfolding drop
drop-nil zero [] e = omega arith
drop-nil zero (x ∷ xs) e = absurd (cc)
drop-nil (suc n) [] e = omega arith
drop-nil (suc n) (x ∷ xs) e = let h = drop-nil n xs e in omega arith

module _ {T W : Type 0} (conn : Connection T W) (migrations : List (T → T)) (t : T)
    (durable : IsDurable conn) where
  -- The version is the number of the migrations that the tables have gone through.
  abbrev pub IsAt : ℕ → Schema T → Type 0
  IsAt n db = (db.versions ≡ some (n ∷ [])) × (db.tables ≡ apply_first n migrations t)

  -- So it is, or there is no version yet and the tables have gone through none.
  abbrev pub Fits : Option (List ℕ) → T → Type 0
  Fits none tables = tables ≡ t
  Fits (some []) tables = tables ≡ t
  Fits (some (n ∷ [])) tables = tables ≡ apply_first n migrations t
  Fits (some (n ∷ m ∷ vs)) tables = ⊥

  abbrev pub IsConsistent : Schema T → Type 0
  IsConsistent db = Fits db.versions db.tables

  -- What the result says: nil, and no migration is left; or an error. The tables fit the version.
  abbrev pub MigrateMeans : Option MigrateError × W → Type 0
  MigrateMeans (none, w) = (n : ℕ) × (length migrations ≤ n) × IsAt n (conn.state w)
  MigrateMeans (some e, w) = IsConsistent (conn.state w)

  attempt-MigrateMeans :
      (f : Schema T → Schema T) (failure : String → MigrateError) (w : W) (r : Option String × W)
      (rest : W → Option MigrateError × W)
      → Does conn.state f w r
      → IsConsistent (conn.state w)
      → ((v : W) → conn.state v ≡ f (conn.state w) → MigrateMeans (rest v))
      → MigrateMeans (attempt conn migrations failure r rest)
  unfolding attempt
  attempt-MigrateMeans f failure w (some e, v) rest d c h = subst IsConsistent (sym d) c
  attempt-MigrateMeans f failure w (none, v) rest d c h = h v d

  IsAt-IsConsistent : (n : ℕ) (db : Schema T) → IsAt n db → IsConsistent db
  IsAt-IsConsistent n db (e, a) = subst (λ vs. Fits vs db.tables) (sym e) a

  -- a migration and its version
  abbrev step : ℕ → (T → T) → Schema T → Schema T
  step i m db = record { versions = set_version (suc i) db.versions; tables = m db.tables }

  migrate_next-MigrateMeans :
      (i : ℕ) (m : T → T) (rest : W → Option MigrateError × W) (w : W)
      → IsConsistent (conn.state w)
      → ((v : W)
          → conn.state v ≡ record {
            versions = set_version (suc i) (conn.state w).versions;
            tables = m (conn.state w).tables;
          }
          → MigrateMeans (rest v))
      → MigrateMeans (migrate_next conn migrations i m rest w)
  unfolding migrate_next
  migrate_next-MigrateMeans i m rest w c h =
      attempt-MigrateMeans (λ db. db) _ w _ _ (durable.begun w) c
        (λ w1 e1.
          attempt-MigrateMeans (λ db. db) _ w1 _ _ (durable.pending w1)
            (subst IsConsistent (sym e1) c)
            (λ w2 e2.
              attempt-MigrateMeans (λ db. db) _ w2 _ _ (durable.pending w2)
                (subst IsConsistent (sym (e2 ∙ e1)) c)
                (λ w3 e3.
                  attempt-MigrateMeans (step i m) _ w3 _ rest (durable.committed (step i m) w3)
                    (subst IsConsistent (sym (e3 ∙ e2 ∙ e1)) c)
                    (λ w4 e4. h w4 (e4 ∙ ap (step i m) (e3 ∙ e2 ∙ e1))))))

  migrate_from-MigrateMeans :
      (ms : List (T → T)) (i : ℕ) (w : W)
      → IsAt i (conn.state w)
      → drop i migrations ≡ ms
      → MigrateMeans (migrate_from conn migrations ms i w)
  unfolding migrate_from
  migrate_from-MigrateMeans [] i w a e = (i, drop-nil i migrations e, a)
  migrate_from-MigrateMeans (m ∷ ms) i w a e =
      let (d, next) = drop-suc i migrations m ms t e in
      migrate_next-MigrateMeans i m _ w (IsAt-IsConsistent i (conn.state w) a) (λ v s.
        migrate_from-MigrateMeans ms (suc i) v
          (
            ap (λ (db : Schema T). db.versions) s ∙ ap (set_version (suc i)) a.0,
            ap (λ (db : Schema T). db.tables) s ∙ ap m a.1 ∙ sym next,
          )
          d)

  after_version-MigrateMeans :
      (n : ℕ) (tables : T) (r : Result String ℕ × W) (w : W)
      → conn.state w ≡ record { versions = some (n ∷ []); tables = tables }
      → tables ≡ apply_first n migrations t
      → Reads conn.state first_version w r
      → MigrateMeans (after_version conn migrations r)
  unfolding after_version
  after_version-MigrateMeans n tables (err e, v) w s a q = subst IsConsistent (sym (q ∙ s)) a
  after_version-MigrateMeans n tables (ok k, v) w s a (q, u) =
      let same : ◌≡◌ {A = Option ℕ} (some n) (some k) =
        subst (λ db. first_version db ≡ some k) s q in
      let e : n ≡ k = cc in
      migrate_from-MigrateMeans (drop k migrations) k v
        (subst (λ j. IsAt j (conn.state v)) e
          (
            ap (λ (db : Schema T). db.versions) (u ∙ s),
            ap (λ (db : Schema T). db.tables) (u ∙ s) ∙ a,
          ))
        refl

  after_count-MigrateMeans :
      (vs : List ℕ) (tables : T) (r : Result String ℕ × W) (w : W)
      → conn.state w ≡ record { versions = some vs; tables = tables }
      → Fits (some vs) tables
      → Reads conn.state count_versions w r
      → MigrateMeans (after_count conn migrations r)
  unfolding after_count apply_first
  after_count-MigrateMeans vs tables (err e, v) w s a q = subst IsConsistent (sym (q ∙ s)) a
  after_count-MigrateMeans [] tables (ok zero, v) w s a (q, u) =
      attempt-MigrateMeans insert_zero _ v _ _ (durable.executed insert_zero v)
        (subst IsConsistent (sym (u ∙ s)) a)
        (λ v' e.
          after_version-MigrateMeans 0 tables _ v' (e ∙ ap insert_zero (u ∙ s)) a
            (durable.queried first_version v'))
  after_count-MigrateMeans [] tables (ok (suc n), v) w s a (q, u) =
      let same : ◌≡◌ {A = Option ℕ} (some 0) (some (suc n)) =
        subst (λ db. count_versions db ≡ some (suc n)) s q in
      absurd (cc)
  after_count-MigrateMeans (k ∷ []) tables (ok zero, v) w s a (q, u) =
      let same : ◌≡◌ {A = Option ℕ} (some 1) (some 0) =
        subst (λ db. count_versions db ≡ some 0) s q in
      absurd (cc)
  after_count-MigrateMeans (k ∷ []) tables (ok (suc n), v) w s a (q, u) =
      after_version-MigrateMeans k tables _ v (u ∙ s) a (durable.queried first_version v)
  after_count-MigrateMeans (k ∷ j ∷ vs) tables (ok n, v) w s a q = absurd a

  created-MigrateMeans :
      (o : Option (List ℕ)) (tables : T) (w : W)
      → conn.state w ≡ record { versions = o; tables = tables }
      → Fits o tables
      → MigrateMeans (migrate_db conn migrations w)
  unfolding migrate_db
  created-MigrateMeans none tables w s a =
      attempt-MigrateMeans create_versions _ w _ _ (durable.executed create_versions w)
        (subst IsConsistent (sym s) a)
        (λ v e.
          after_count-MigrateMeans [] tables _ v (e ∙ ap create_versions s) a
            (durable.queried count_versions v))
  created-MigrateMeans (some vs) tables w s a =
      attempt-MigrateMeans create_versions _ w _ _ (durable.executed create_versions w)
        (subst IsConsistent (sym s) a)
        (λ v e.
          after_count-MigrateMeans vs tables _ v (e ∙ ap create_versions s) a
            (durable.queried count_versions v))

  -- Where the database fits its version, it does so after migrateDB, whatever it returns: so a
  -- migration that an earlier call has carried out is not carried out again, and one that has failed is
  -- not skipped. When it returns nil, there is one version, and no migration is left.
  pub migrate_db-MigrateMeans :
      (w : W) → IsConsistent (conn.state w) → MigrateMeans (migrate_db conn migrations w)
  migrate_db-MigrateMeans w c =
      created-MigrateMeans (conn.state w).versions (conn.state w).tables w refl c
