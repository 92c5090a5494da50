-- ===== src/Tests/Tables.antt =====
-- src/Database/DBMigrate.cpp on a server that keeps the queries it has executed.
use cppapiframework.Common.{
  ◌≡◌, refl, Bool, true, false, some, if◌then◌else◌, List, [], ◌∷◌, Bytes, text, str_eq,
}
use cppapiframework.Common.Outcome.{Outcome, ok}
use cppapiframework.Sql.{with_quotes, separated, build_generic_insert_query}
use cppapiframework.Migrations.{
  Connection, World, migrating, migrated, build_insert_migration_query, begin, commit, migrate,
  print, report, migrate_or_report, run,
}

abbrev as_is : Bytes → Bytes
as_is s = s

abbrev Queries : Type 0
Queries = List Bytes

has : Bytes → Queries → Bool
has q [] = false
has q (x ∷ d) = if str_eq x q then true else has q d

abbrev in_table : Queries → Bytes → Bool
in_table d n = has (build_insert_migration_query as_is n) d

abbrev server : Connection Queries
server = record {
  create_statement = λ d. true;
  execute = λ q d. (ok tt, q ∷ d);
  commit = λ d. (ok tt, d);
  count_migration = λ n d. (ok (some (if in_table d n then 1 else 0)), d);
  escape_string = as_is;
}

abbrev create : Queries → Outcome (Unit {0}) × Queries
create d = (ok tt, text "CREATE TABLE t" ∷ d)

abbrev two : List (Bytes × (Queries → Outcome (Unit {0}) × Queries))
two = (text "a", create) ∷ (text "b", create) ∷ []

abbrev at_first : World Queries
at_first = record {
  db = build_insert_migration_query as_is (text "a") ∷ [];
  temporaries = record { db_connection = false; query_build_buffer = false; statement = false };
  lines = [];
}

test_run : (run server two at_first).1.lines ≡ migrating (text "b") ∷ migrated (text "b") ∷ []
unfolding run migrate_or_report report print migrate begin commit has str_eq
    build_insert_migration_query build_generic_insert_query separated with_quotes
test_run = refl
