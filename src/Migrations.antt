-- ===== src/Migrations.antt =====
-- src/Database/DBMigrate.cpp, src/Database/Migration.hpp. The driver of the database is a parameter.
pub mod Laws
pub mod Runs
pub mod Steps
pub mod Passes
pub mod Cases
pub mod Ends
use cppapiframework.Common.{
  ℕ, ◌==◌, ◌||◌, Bool, true, false, not, Option, none, some, if◌then◌else◌, List, [], ◌∷◌, ◌++◌,
  Bytes, text,
}
use cppapiframework.Common.Outcome.{Outcome, ok, thrown}
use cppapiframework.Sql.{with_quotes, build_generic_insert_query}

-- The calls of MySQL's driver, on a server and a connection whose state is `D`. The row of the
-- count is `none` when the result set is empty.
pub record Connection (D : Type 0) : Type 0 where
  pub create_statement : D → Bool
  pub execute : Bytes → D → Outcome (Unit {0}) × D
  pub commit : D → Outcome (Unit {0}) × D
  pub count_migration : Bytes → D → Outcome (Option ℕ) × D
  pub escape_string : Bytes → Bytes

-- Which of a migration's pointers are set.
pub record Temporaries : Type 0 where
  pub db_connection : Bool
  pub query_build_buffer : Bool
  pub statement : Bool

abbrev no_temporaries : Temporaries
no_temporaries = record { db_connection = false; query_build_buffer = false; statement = false }

-- The lines that run prints.
pub data Line : Type 0 where
  migrating migrated : Bytes → Line
  migration_failed : Bytes → Bytes → Line

pub record World (D : Type 0) : Type 0 where
  pub db : D
  pub temporaries : Temporaries
  pub lines : List Line

abbrev pub Step : Type 0 → Type 0
Step D = World D → Outcome (Unit {0}) × World D

-- What comes after a step does not run if the step throws.
abbrev pub after :
    {D : Type 0} → Step D → Outcome (Unit {0}) × World D → Outcome (Unit {0}) × World D
after g (ok a, w) = g w
after g (thrown e, w) = (thrown e, w)

infixr 5 ◌>>◌
abbrev pub ◌>>◌ : {D : Type 0} → Step D → Step D → Step D
◌>>◌ f g w = after g (f w)

unfoldable pub build_insert_migration_query : (Bytes → Bytes) → Bytes → Bytes
unfolding build_generic_insert_query with_quotes
build_insert_migration_query escape migration =
    build_generic_insert_query (text "migrations")
      ((text "migration", with_quotes escape migration) ∷ (text "batch", text "1") ∷ [])
    ++ text ";"

abbrev pub on_db : {D : Type 0} → (D → Outcome (Unit {0}) × D) → Step D
on_db f w = ((f w.db).0, record w { db = (f w.db).1 })

-- setConnection, setQueryBuildBuffer and setMigrationName
abbrev pub set_temporaries : {D : Type 0} → Step D
set_temporaries w = (
  ok tt,
  record w {
    temporaries = record { db_connection = true; query_build_buffer = true; statement = false };
  },
)

abbrev pub reset_tmp : {D : Type 0} → Step D
reset_tmp w = (ok tt, record w { temporaries = no_temporaries })

abbrev pub is_counted : Option ℕ → Bool
is_counted none = false
is_counted (some n) = not (n == 0)

unfoldable pub print : {D : Type 0} → Line → World D → World D
print l w = record w { lines = w.lines ++ l ∷ [] }

-- What follows the migration in the try block, and the handler.
unfoldable pub report :
    {D : Type 0} → Bytes → Outcome (Unit {0}) × World D → Outcome (Unit {0}) × World D
unfolding print
report name (ok a, w) = (ok tt, print (migrated name) w)
report name (thrown e, w) =
    (thrown e, record (print (migration_failed name e) w) { temporaries = no_temporaries })

-- The test of is_migrated in front of the rest of the loop's body.
abbrev pub unless_migrated : {D : Type 0} → Outcome (Option ℕ) → Step D → Step D
unless_migrated (thrown e) f w = (thrown e, w)
unless_migrated (ok row) f w = if is_counted row then (ok tt, w) else f w

module _ {D : Type 0} (conn : Connection D) where
  unfoldable pub begin : Step D
  begin w =
      if not w.temporaries.db_connection
      then (thrown (text "No connection"), w)
      else if not w.temporaries.query_build_buffer
      then (thrown (text "No query buffer"), w)
      else if not (conn.create_statement w.db)
      then (thrown (text "No statement"), w)
      else on_db (conn.execute (text "BEGIN;"))
          (record w { temporaries = record w.temporaries { statement = true } })

  unfoldable pub commit : Step D
  commit w =
      if not w.temporaries.statement || not w.temporaries.db_connection
      then (thrown (text "No connection or statement"), w)
      else (on_db (conn.execute (text "COMMIT;")) >> on_db conn.commit) w

  -- `migrate_fn` is the virtual function migrate of the migration.
  unfoldable pub migrate : (D → Outcome (Unit {0}) × D) → Bytes → Step D
  unfolding begin commit build_insert_migration_query
  migrate migrate_fn name =
      set_temporaries
      >> begin
      >> on_db migrate_fn
      >> on_db (conn.execute (build_insert_migration_query conn.escape_string name))
      >> commit
      >> reset_tmp

  -- The try block of run.
  unfoldable pub migrate_or_report : (D → Outcome (Unit {0}) × D) → Bytes → Step D
  unfolding migrate print report
  migrate_or_report migrate_fn name w =
      report name (migrate migrate_fn name (print (migrating name) w))

  -- The list is the map's entries in the order of the keys.
  unfoldable pub run : List (Bytes × (D → Outcome (Unit {0}) × D)) → Step D
  unfolding migrate_or_report
  run [] w = (ok tt, w)
  run ((name, migrate_fn) ∷ rest) w =
      let r = conn.count_migration name w.db in
      (unless_migrated r.0 (migrate_or_report migrate_fn name) >> run rest) (record w { db = r.1 })
