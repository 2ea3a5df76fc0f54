-- ===== src/Audit/Migrate.antt =====
-- internal/audit/migrate.go: the migrations of the audit database.
pub mod Once
use virtwork.Base.{
  ℕ, zero, suc, String, Option, none, some, List, [], ◌∷◌, map, length, Result, ok, err,
}

-- The database, as far as the migrations see it: the rows of schema_version, none where there is no
-- such table, and the other tables.
pub record Schema (T : Type 0) : Type 0 where
  pub versions : Option (List ℕ)
  pub tables : T

-- What `database/sql` gives access to. A call may fail for any reason. What a transaction executes
-- becomes the database's state by its commit.
pub record Connection (T W : Type 0) : Type 0 where
  pub state : W → Schema T
  pub exec : (Schema T → Schema T) → W → Option String × W
  pub query : (Schema T → Option ℕ) → W → Result String ℕ × W
  pub begin : W → Option String × W
  pub tx_exec : W → Option String × W
  pub commit : (Schema T → Schema T) → W → Option String × W

-- the errors, with the number of the migration
pub data MigrateError : Type 0 where
  creating_table reading_count initializing reading_version : String → MigrateError
  beginning failed updating committing : ℕ → String → MigrateError

-- CREATE TABLE IF NOT EXISTS schema_version
abbrev pub create_versions : {T : Type 0} → Schema T → Schema T
create_versions db = record db { versions = some (rows db.versions) }
  where
    rows : Option (List ℕ) → List ℕ
    rows none = []
    rows (some vs) = vs

-- SELECT COUNT(*) FROM schema_version
abbrev pub count_versions : {T : Type 0} → Schema T → Option ℕ
count_versions db = count db.versions
  where
    count : Option (List ℕ) → Option ℕ
    count none = none
    count (some vs) = some (length vs)

-- INSERT INTO schema_version (version) VALUES (0)
abbrev pub insert_zero : {T : Type 0} → Schema T → Schema T
insert_zero db = record db { versions = add db.versions }
  where
    add : Option (List ℕ) → Option (List ℕ)
    add none = none
    add (some vs) = some (0 ∷ vs)

-- SELECT version FROM schema_version, of which the first row is read
abbrev pub first_version : {T : Type 0} → Schema T → Option ℕ
first_version db = first db.versions
  where
    first : Option (List ℕ) → Option ℕ
    first (some (v ∷ vs)) = some v
    first _ = none

-- UPDATE schema_version SET version = ?
abbrev pub set_version : ℕ → Option (List ℕ) → Option (List ℕ)
set_version n none = none
set_version n (some vs) = some (map (λ v. n) vs)

-- `migrations[i:]`
unfoldable pub drop {ℓ} : {A : Type ℓ} → ℕ → List A → List A
drop zero xs = xs
drop (suc n) [] = []
drop (suc n) (x ∷ xs) = drop n xs

-- A migration is what its statements do to the tables.
module _ {T W : Type 0} (conn : Connection T W) (migrations : List (T → T)) where
  -- an error ends the function
  unfoldable pub attempt :
      (String → MigrateError)
      → Option String × W
      → (W → Option MigrateError × W)
      → Option MigrateError × W
  attempt failure (some e, w) rest = (some (failure e), w)
  attempt failure (none, w) rest = rest w

  -- a round of the loop, for the migration `i`
  unfoldable pub migrate_next :
      ℕ → (T → T) → (W → Option MigrateError × W) → W → Option MigrateError × W
  migrate_next i m rest w = attempt (beginning (suc i)) (conn.begin w) (λ w1.
      attempt (failed (suc i)) (conn.tx_exec w1) (λ w2.
        attempt (updating (suc i)) (conn.tx_exec w2) (λ w3.
          attempt (committing (suc i))
            (conn.commit
              (λ db. record { versions = set_version (suc i) db.versions; tables = m db.tables })
              w3)
            rest)))

  -- the loop, with the migrations from `i` on
  unfoldable pub migrate_from : List (T → T) → ℕ → W → Option MigrateError × W
  migrate_from [] i w = (none, w)
  migrate_from (m ∷ ms) i w = migrate_next i m (λ w'. migrate_from ms (suc i) w') w

  -- what follows on the version that was read
  unfoldable pub after_version : Result String ℕ × W → Option MigrateError × W
  after_version (err e, w) = (some (reading_version e), w)
  after_version (ok current, w) = migrate_from (drop current migrations) current w

  -- what follows on the count of the versions
  unfoldable pub after_count : Result String ℕ × W → Option MigrateError × W
  after_count (err e, w) = (some (reading_count e), w)
  after_count (ok zero, w) =
      attempt initializing (conn.exec insert_zero w)
        (λ w'. after_version (conn.query first_version w'))
  after_count (ok (suc n), w) = after_version (conn.query first_version w)

  unfoldable pub migrate_db : W → Option MigrateError × W
  migrate_db w =
      attempt creating_table (conn.exec create_versions w)
        (λ w'. after_count (conn.query count_versions w'))
