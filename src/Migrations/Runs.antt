-- ===== src/Migrations/Runs.antt =====
-- A whole run: what is migrated, in which order, and where it stops.
use mathlib.Core.List.{append_assoc}
use cppapiframework.Common.{
  ℕ, ◌≡◌, refl, ap, ◌∙◌, ◌⊎◌, inl, inr, Bool, true, false, Option, [], ◌∷◌, ◌++◌, Bytes, str_eq,
  str_eq_iff, Bool-cases, arith,
}
use cppapiframework.Common.Outcome.{Outcome, ok, thrown}
use cppapiframework.Migrations.{
  Connection, migrating, migrated, migration_failed, World, Step, migrate, report, unless_migrated,
  is_counted, print, migrate_or_report, run,
}
use cppapiframework.Migrations.Laws.{
  Query, Keeps, IsTable, Entries, AllKeep, Differs, pending, KeepsName, >>-KeepsName, migrate_lines,
  migrate-KeepsName, migrate-Records,
}

module _ {D : Type 0} (conn : Connection D) (recorded : D → Bytes → Bool) where
  -- How one migration ends.
  abbrev pub Reported : Bytes → World D → Outcome (Unit {0}) × World D → Type 0
  Reported n w r =
      ((r.0 ≡ ok tt)
        × (r.1.lines ≡ w.lines ++ migrating n ∷ migrated n ∷ [])
        × (recorded r.1.db n ≡ true))
      ⊎ ((e : Bytes) × (r.0 ≡ thrown e)
          × (r.1.lines ≡ w.lines ++ migrating n ∷ migration_failed n e ∷ []))

  report_keeps :
      (n m : Bytes) (r : Outcome (Unit {0}) × World D)
      → recorded (report n r).1.db m ≡ recorded r.1.db m
  unfolding report print
  report_keeps n m (ok a, w) = refl
  report_keeps n m (thrown e, w) = refl

  report-Reported :
      (n : Bytes) (w : World D) (r : Outcome (Unit {0}) × World D)
      → r.1.lines ≡ w.lines ++ migrating n ∷ []
      → ((a : Unit {0}) → r.0 ≡ ok a → recorded r.1.db n ≡ true)
      → Reported n w (report n r)
  unfolding report print
  report-Reported n w (ok a, v) e h =
      inl (
        refl,
        ap (λ x. x ++ migrated n ∷ []) e ∙ append_assoc w.lines (migrating n ∷ []) _,
        h a refl,
      )
  report-Reported n w (thrown t, v) e h = inr (
    t,
    refl,
    ap (λ x. x ++ migration_failed n t ∷ []) e ∙ append_assoc w.lines (migrating n ∷ []) _,
  )

  pub flip : (a b : Bytes) → str_eq a b ≡ false → str_eq b a ≡ false
  flip a b e = ground (arith, str_eq_iff a b, str_eq_iff b a)

  abbrev pub Same : D → D → Bytes → Type 0
  Same d d' m = recorded d' m ≡ recorded d m

  pub pending-Same :
      (n : Bytes) (d d' : D) (l : Entries conn recorded)
      → ((m : Bytes) → str_eq n m ≡ false → Same d d' m)
      → Differs conn recorded n l
      → pending conn recorded d' l ≡ pending conn recorded d l
  unfolding pending
  pending-Same n d d' [] h k = refl
  pending-Same n d d' ((m, f) ∷ l) h (k, ks) = rw (h m k, pending-Same n d d' l h ks) refl

  pub pending_unchanged :
      (d d' : D) (l : Entries conn recorded)
      → ((m : Bytes) → Same d d' m)
      → pending conn recorded d' l ≡ pending conn recorded d l
  unfolding pending
  pending_unchanged d d' [] h = refl
  pending_unchanged d d' ((m, f) ∷ l) h = rw (h m, pending_unchanged d d' l h) refl

  module _ (table : IsTable conn recorded) where
    pub migrate_or_report-KeepsName :
        (f : Query conn recorded) (n m : Bytes)
        → Keeps conn recorded f
        → str_eq n m ≡ false
        → KeepsName conn recorded m (migrate_or_report conn f n)
    unfolding migrate_or_report print
    migrate_or_report-KeepsName f n m k d w =
        report_keeps n m (migrate conn f n (print (migrating n) w))
        ∙ migrate-KeepsName conn recorded table f n m k d (print (migrating n) w)

    pub migrate_or_report-Reported :
        (f : Query conn recorded) (n : Bytes) (w : World D)
        → Reported n w (migrate_or_report conn f n w)
    unfolding migrate_or_report print
    migrate_or_report-Reported f n w =
        let w1 = print (migrating n) w in
        report-Reported n w (migrate conn f n w1) (migrate_lines conn recorded f n w1)
          (migrate-Records conn recorded table f n w1)

    unless-KeepsName :
        (m : Bytes) (o : Outcome (Option ℕ)) (f : Step D)
        → KeepsName conn recorded m f
        → KeepsName conn recorded m (unless_migrated o f)
    unless-KeepsName m (thrown e) f h w = refl
    unless-KeepsName m (ok row) f h w = elim (Bool-cases (is_counted row)) [
      | inl e ↦ rw e refl
      | inr e ↦ rw e (h w)
    ]

    pub run-KeepsName :
        (m : Bytes) (l : Entries conn recorded)
        → AllKeep conn recorded l
        → Differs conn recorded m l
        → KeepsName conn recorded m (run conn l)
    unfolding run
    run-KeepsName m [] a d w = refl
    run-KeepsName m ((n, f) ∷ l) (k, ks) (d, ds) w =
        >>-KeepsName conn recorded m
          (unless_migrated (conn.count_migration n w.db).0 (migrate_or_report conn f n))
          (run conn l)
          (unless-KeepsName m (conn.count_migration n w.db).0 (migrate_or_report conn f n)
            (migrate_or_report-KeepsName f n m k (flip m n d)))
          (run-KeepsName m l ks ds) (record w { db = (conn.count_migration n w.db).1 })
        ∙ table.count_keeps n m w.db
