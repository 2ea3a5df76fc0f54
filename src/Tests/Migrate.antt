-- ===== src/Tests/Migrate.antt =====
-- The migrations of the audit database (internal/audit/migrate.go).
use virtwork.Base.{
  ℕ, zero, suc, String, Option, none, some, List, [], ◌∷◌, Result, ok, err, ◌≡◌, refl,
}
use virtwork.Audit.Migrate.{
  Schema, Connection, migrate_db, after_count, after_version, migrate_from, migrate_next, attempt,
  drop,
}
use virtwork.Audit.Migrate.Once.{IsDurable, Does, Reads, MigrateMeans, migrate_db-MigrateMeans}

-- a database that is lost after some calls
abbrev Link : Type 0
Link = ℕ × Schema (List String)

abbrev lose : (Schema (List String) → Schema (List String)) → Link → Option String × Link
lose f (zero, db) = (some "lost", (zero, db))
lose f (suc n, db) = (none, (n, f db))

abbrev lose_read : (Schema (List String) → Option ℕ) → Link → Result String ℕ × Link
lose_read q (zero, db) = (err "lost", (zero, db))
lose_read q (suc n, db) = elim (q db) [ none ↦ (err "no rows", (n, db)) | some v ↦ (ok v, (n, db)) ]

abbrev connection : Connection (List String) Link
connection = record {
  state = λ w. w.1;
  exec = lose;
  query = lose_read;
  begin = lose (λ db. db);
  tx_exec = lose (λ db. db);
  commit = lose;
}

lose-Does :
    (f : Schema (List String) → Schema (List String)) (w : Link) → Does (λ x. x.1) f w (lose f w)
lose-Does f (zero, db) = refl
lose-Does f (suc n, db) = refl

lose_read-Reads :
    (q : Schema (List String) → Option ℕ) (w : Link) → Reads (λ x. x.1) q w (lose_read q w)
lose_read-Reads q (zero, db) = refl
lose_read-Reads q (suc n, db) = go (q db) refl
  where
    go :
        (o : Option ℕ)
        → q db ≡ o
        → Reads
            (λ x. x.1)
            q
            (suc n, db)
            (elim o as (λ x. Result String ℕ × Link) [
              | none ↦ (err "no rows", (n, db))
              | some v ↦ (ok v, (n, db))
            ])
    go none e = refl
    go (some v) e = (e, refl)

connection-IsDurable : IsDurable connection
connection-IsDurable = record {
  executed = lose-Does;
  queried = lose_read-Reads;
  begun = lose-Does (λ db. db);
  pending = lose-Does (λ db. db);
  committed = lose-Does;
}

abbrev two_migrations : List (List String → List String)
two_migrations = (λ t. "audit_log" ∷ t) ∷ (λ t. "events" ∷ t) ∷ []

-- the first migration is committed, and the connection is lost in the second
abbrev new_file : Link
new_file = (9, record { versions = none; tables = [] })

migrate_db-MigrateMeans_example :
    MigrateMeans connection two_migrations [] connection-IsDurable
      (migrate_db connection two_migrations new_file)
migrate_db-MigrateMeans_example =
    migrate_db-MigrateMeans connection two_migrations [] connection-IsDurable new_file refl

lost_run :
    (migrate_db connection two_migrations new_file).1.1
    ≡ record { versions = some (1 ∷ []); tables = "audit_log" ∷ [] }
unfolding migrate_db after_count after_version migrate_from migrate_next attempt drop
lost_run = refl
