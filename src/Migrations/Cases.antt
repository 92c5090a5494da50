-- ===== src/Migrations/Cases.antt =====
-- run at its first migration, case by case.
use cppapiframework.Common.{ℕ, ◌≡◌, refl, ap, Bool, true, false, Option, ◌∷◌, Bytes}
use cppapiframework.Common.Outcome.{Outcome, ok, thrown}
use cppapiframework.Migrations.{Connection, World, Step, after, is_counted, migrate_or_report, run}
use cppapiframework.Migrations.Laws.{Query, Entries, pending}

module _ {D : Type 0} (conn : Connection D) (recorded : D → Bytes → Bool) where
  abbrev Result : Type 0
  Result = Outcome (Unit {0}) × World D

  pub after-ok : (g : Step D) (r : Result) → r.0 ≡ ok tt → after g r ≡ g r.1
  after-ok g (ok a, w) e = refl
  after-ok g (thrown t, w) e = cc

  pub after-thrown :
      (g : Step D) (r : Result) (t : Bytes) → r.0 ≡ thrown t → after g r ≡ (thrown t, r.1)
  after-thrown g (ok a, w) t e = cc
  after-thrown g (thrown u, w) t e = ap (λ x. (x, w)) e

  pub run-thrown :
      (n : Bytes) (f : Query conn recorded) (l : Entries conn recorded) (w : World D) (t : Bytes)
      → (conn.count_migration n w.db).0 ≡ thrown t
      → run conn ((n, f) ∷ l) w ≡ (thrown t, record w { db = (conn.count_migration n w.db).1 })
  unfolding run
  run-thrown n f l w t e = rw e refl

  pub run_skips :
      (n : Bytes) (f : Query conn recorded) (l : Entries conn recorded) (w : World D)
      (row : Option ℕ)
      → (conn.count_migration n w.db).0 ≡ ok row
      → is_counted row ≡ true
      → run conn ((n, f) ∷ l) w ≡ run conn l (record w { db = (conn.count_migration n w.db).1 })
  unfolding run
  run_skips n f l w row e h = rw (e, h) refl

  pub run_migrates :
      (n : Bytes) (f : Query conn recorded) (l : Entries conn recorded) (w : World D)
      (row : Option ℕ)
      → (conn.count_migration n w.db).0 ≡ ok row
      → is_counted row ≡ false
      → run conn ((n, f) ∷ l) w
        ≡ after
            (run conn l)
            (migrate_or_report conn f n (record w { db = (conn.count_migration n w.db).1 }))
  unfolding run
  run_migrates n f l w row e h = rw (e, h) refl

  pub pending-recorded :
      (n : Bytes) (f : Query conn recorded) (l : Entries conn recorded) (d : D)
      → recorded d n ≡ true
      → pending conn recorded d ((n, f) ∷ l) ≡ pending conn recorded d l
  unfolding pending
  pending-recorded n f l d e = rw e refl

  pub pending_new :
      (n : Bytes) (f : Query conn recorded) (l : Entries conn recorded) (d : D)
      → recorded d n ≡ false
      → pending conn recorded d ((n, f) ∷ l) ≡ n ∷ pending conn recorded d l
  unfolding pending
  pending_new n f l d e = rw e refl
