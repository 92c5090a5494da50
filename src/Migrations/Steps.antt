-- ===== src/Migrations/Steps.antt =====
-- What a run does on the server, query by query.
use cppapiframework.Common.{
  ◌≡◌, refl, subst, ◌⊎◌, inl, inr, Bool, true, false, List, [], ◌∷◌, Bytes, text, Bool-cases,
}
use cppapiframework.Common.Outcome.{Outcome, ok, thrown, thrown-injective}
use cppapiframework.Migrations.{
  Connection, Line, Temporaries, migrating, World, ◌>>◌, after, Step, build_insert_migration_query,
  on_db, reset_tmp, begin, commit, migrate, report, print, migrate_or_report,
}
use cppapiframework.Migrations.Laws.{Query}

module _ {D : Type 0} (conn : Connection D) (recorded : D → Bytes → Bool) where
  -- The calls succeed one after the other, and lead from the first state to the second.
  abbrev pub AllDone : List (Query conn recorded) → D → D → Type 0
  AllDone [] d d' = d' ≡ d
  AllDone (f ∷ fs) d d' = ((f d).0 ≡ ok tt) × AllDone fs (f d).1 d'

  -- One of the calls throws, and those before it succeed.
  abbrev pub OneThrows : List (Query conn recorded) → D → D → Bytes → Type 0
  OneThrows [] d d' t = ⊥
  OneThrows (f ∷ fs) d d' t =
      (((f d).0 ≡ thrown t) × (d' ≡ (f d).1)) ⊎ (((f d).0 ≡ ok tt) × OneThrows fs (f d).1 d' t)

  -- A migration is made in a transaction, with its entry in the table of the migrations.
  abbrev pub calls : Query conn recorded → Bytes → List (Query conn recorded)
  calls f n =
      conn.execute (text "BEGIN;")
      ∷ (f
          ∷ (conn.execute (build_insert_migration_query conn.escape_string n)
              ∷ (conn.execute (text "COMMIT;") ∷ (conn.commit ∷ []))))

  abbrev pub Made : Query conn recorded → Bytes → D → D → Type 0
  Made f n d d' = (conn.create_statement d ≡ true) × AllDone (calls f n) d d'

  abbrev pub Fails : Query conn recorded → Bytes → D → D → Bytes → Type 0
  Fails f n d d' t =
      ((conn.create_statement d ≡ false) × (t ≡ text "No statement") × (d' ≡ d))
      ⊎ ((conn.create_statement d ≡ true) × OneThrows (calls f n) d d' t)

  -- What an outcome says of calls that were made one after the other.
  abbrev Ran : List (Query conn recorded) → D → Outcome (Unit {0}) × World D → Type 0
  Ran fs d (ok a, w) = AllDone fs d w.db
  Ran fs d (thrown t, w) = OneThrows fs d w.db t

  ok-Ran :
      (f : Query conn recorded) (fs : List (Query conn recorded)) (d : D)
      (r : Outcome (Unit {0}) × World D)
      → (f d).0 ≡ ok tt
      → Ran fs (f d).1 r
      → Ran (f ∷ fs) d r
  ok-Ran f fs d (ok a, w) e h = (e, h)
  ok-Ran f fs d (thrown t, w) e h = inr (e, h)

  after-Ran :
      (f : Query conn recorded) (fs : List (Query conn recorded)) (g : Step D) (d : D)
      (o : Outcome (Unit {0})) (w : World D)
      → (f d).0 ≡ o
      → w.db ≡ (f d).1
      → Ran fs (f d).1 (g w)
      → Ran (f ∷ fs) d (after g (o, w))
  after-Ran f fs g d (ok a) w e p h = ok-Ran f fs d (g w) e h
  after-Ran f fs g d (thrown t) w e p h = inl (e, p)

  on_db-Ran :
      (f : Query conn recorded) (fs : List (Query conn recorded)) (g : Step D) (w : World D)
      → Ran fs (f w.db).1 (g (record w { db = (f w.db).1 }))
      → Ran (f ∷ fs) w.db (after g (on_db f w))
  on_db-Ran f fs g w h = after-Ran f fs g w.db (f w.db).0 (record w { db = (f w.db).1 }) refl refl h

  last-Ran :
      (f : Query conn recorded) (d : D) (o : Outcome (Unit {0})) (w : World D)
      → (f d).0 ≡ o
      → w.db ≡ (f d).1
      → Ran (f ∷ []) d (o, w)
  last-Ran f d (ok a) w e p = (e, p)
  last-Ran f d (thrown t) w e p = inl (e, p)

  reset-Ran :
      (fs : List (Query conn recorded)) (d : D) (r : Outcome (Unit {0}) × World D)
      → Ran fs d r
      → Ran fs d (after reset_tmp r)
  reset-Ran fs d (ok a, w) h = h
  reset-Ran fs d (thrown t, w) h = h

  abbrev all_set : Temporaries
  all_set = record { db_connection = true; query_build_buffer = true; statement = true }

  ending-Ran :
      (d : D) (printed : List Line)
      → Ran
          (conn.execute (text "COMMIT;") ∷ (conn.commit ∷ []))
          d
          ((commit conn >> reset_tmp) (record { db = d; temporaries = all_set; lines = printed }))
  unfolding commit
  ending-Ran d printed =
      let w : World D = record { db = d; temporaries = all_set; lines = printed } in
      reset-Ran (conn.execute (text "COMMIT;") ∷ (conn.commit ∷ [])) d (commit conn w) (
        on_db-Ran (conn.execute (text "COMMIT;")) (conn.commit ∷ []) (on_db conn.commit) w
          (last-Ran conn.commit _ (conn.commit (conn.execute (text "COMMIT;") d).1).0 _ refl refl))

  -- What the outcome of a migration says of its calls.
  abbrev pub Follows : Query conn recorded → Bytes → D → Outcome (Unit {0}) × World D → Type 0
  Follows f n d (ok a, w) = Made f n d w.db
  Follows f n d (thrown t, w) = Fails f n d w.db t

  Ran-Follows :
      (f : Query conn recorded) (n : Bytes) (d : D) (r : Outcome (Unit {0}) × World D)
      → conn.create_statement d ≡ true
      → Ran (calls f n) d r
      → Follows f n d r
  Ran-Follows f n d (ok a, w) e h = (e, h)
  Ran-Follows f n d (thrown t, w) e h = inr (e, h)

  migrate-Follows :
      (f : Query conn recorded) (n : Bytes) (w : World D) → Follows f n w.db (migrate conn f n w)
  unfolding migrate begin
  migrate-Follows f n w =
      let insert : Query conn recorded =
        conn.execute (build_insert_migration_query conn.escape_string n) in
      let ending : Step D = commit conn >> reset_tmp in
      let ends : List (Query conn recorded) = conn.execute (text "COMMIT;") ∷ (conn.commit ∷ []) in
      elim (Bool-cases (conn.create_statement w.db)) [
        | inr e ↦ rw e (inl (e, refl, refl))
        | inl e ↦ rw e (
            Ran-Follows f n w.db _ e (
              on_db-Ran (conn.execute (text "BEGIN;")) (f ∷ (insert ∷ ends))
                (on_db f >> (on_db insert >> ending)) (record w { temporaries = all_set })
                (on_db-Ran f (insert ∷ ends) (on_db insert >> ending) _
                  (on_db-Ran insert ends ending _ (ending-Ran _ w.lines)))))
      ]

  report-Follows :
      (f : Query conn recorded) (n : Bytes) (d : D) (r : Outcome (Unit {0}) × World D)
      → Follows f n d r
      → Follows f n d (report n r)
  unfolding report print
  report-Follows f n d (ok a, w) h = h
  report-Follows f n d (thrown t, w) h = h

  pub migrate_or_report-Follows :
      (f : Query conn recorded) (n : Bytes) (w : World D)
      → Follows f n w.db (migrate_or_report conn f n w)
  unfolding migrate_or_report print
  migrate_or_report-Follows f n w =
      report-Follows f n w.db (migrate conn f n (print (migrating n) w))
        (migrate-Follows f n (print (migrating n) w))

  -- With the outcome known.
  pub Made-Follows :
      (f : Query conn recorded) (n : Bytes) (d : D) (r : Outcome (Unit {0}) × World D)
      → Follows f n d r
      → r.0 ≡ ok tt
      → Made f n d r.1.db
  Made-Follows f n d (ok a, w) h e = h
  Made-Follows f n d (thrown t, w) h e = cc

  pub Fails-Follows :
      (f : Query conn recorded) (n : Bytes) (d : D) (r : Outcome (Unit {0}) × World D) (t : Bytes)
      → Follows f n d r
      → r.0 ≡ thrown t
      → Fails f n d r.1.db t
  Fails-Follows f n d (ok a, w) t h e = cc
  Fails-Follows f n d (thrown u, w) t h e =
      subst (Fails f n d w.db) (thrown-injective {A = Unit {0}} u t e) h
