-- ===== src/Migrations/Ends.antt =====
-- How a run of the migrations ends.
use cppapiframework.Common.{◌≡◌, ◌⊎◌, Bool, none, some, List, [], ◌∷◌, ◌++◌, Bytes}
use cppapiframework.Common.Outcome.{Outcome, ok, thrown}
use cppapiframework.Migrations.{Connection, migrating, migration_failed, World}
use cppapiframework.Migrations.Laws.{Entries, pending, AllRecorded, both_lines}
use cppapiframework.Migrations.Passes.{Passes, Stops}

module _ {D : Type 0} (conn : Connection D) (recorded : D → Bytes → Bool) where
  abbrev Result : Type 0
  Result = Outcome (Unit {0}) × World D

  -- Every pending migration was made, in the order of the list, and all are recorded.
  abbrev pub Finished : Entries conn recorded → World D → Result → Type 0
  Finished l w r =
      (r.0 ≡ ok tt)
      × (r.1.lines ≡ w.lines ++ both_lines conn recorded (pending conn recorded w.db l))
      × AllRecorded conn recorded r.1.db l
      × Passes conn recorded l (pending conn recorded w.db l) w.db r.1.db

  -- The first pending migrations were made; the next one failed, or the table could not be read.
  abbrev pub Stopped : Entries conn recorded → World D → Result → Type 0
  Stopped l w r =
      (made : List Bytes) × (later : List Bytes) × (e : Bytes) × (r.0 ≡ thrown e)
      × (pending conn recorded w.db l ≡ made ++ later)
      × (((r.1.lines ≡ w.lines ++ both_lines conn recorded made)
            × Stops conn recorded l made none w.db r.1.db e)
          ⊎ ((n : Bytes) × (rest : List Bytes) × (later ≡ n ∷ rest)
              × (r.1.lines
                  ≡ w.lines
                    ++ (both_lines conn recorded made ++ migrating n ∷ migration_failed n e ∷ []))
              × Stops conn recorded l made (some n) w.db r.1.db e))

  abbrev Ends : Entries conn recorded → World D → Result → Type 0
  Ends l w r = Finished l w r ⊎ Stopped l w r
