-- ===== src/Migrations/Laws.antt =====
-- What a run does to the table of the migrations, and in which order.
use cppapiframework.Common.{
  ℕ, ◌≡◌, refl, ◌∙◌, inl, inr, Bool, true, false, not, ◌||◌, if◌then◌else◌, Option, List, [], ◌∷◌,
  Bytes, text, str_eq, Bool-cases, arith,
}
use cppapiframework.Common.Outcome.{Outcome, ok, thrown}
use cppapiframework.Migrations.{
  Connection, Line, migrating, migrated, World, Step, ◌>>◌, after, build_insert_migration_query,
  on_db, set_temporaries, reset_tmp, begin, commit, migrate, is_counted,
}

module _ {D : Type 0} (conn : Connection D) (recorded : D → Bytes → Bool) where
  abbrev pub Query : Type 0
  Query = D → Outcome (Unit {0}) × D

  abbrev pub Keeps : Query → Type 0
  Keeps f = (d : D) (n : Bytes) → recorded (f d).1 n ≡ recorded d n

  -- The table of the migrations is what the program takes it for: the count of a name says whether
  -- the name is there, the insertion of a name that succeeds adds it and no other, one that fails
  -- adds nothing but perhaps the name, and no other query of the program changes the table.
  pub record IsTable : Type 0 where
    pub count_lem :
        (n : Bytes) (d : D) (row : Option ℕ)
        → (conn.count_migration n d).0 ≡ ok row
        → is_counted row ≡ recorded d n
    pub count_keeps : (n m : Bytes) (d : D) → recorded (conn.count_migration n d).1 m ≡ recorded d m
    pub begin_keeps : Keeps (conn.execute (text "BEGIN;"))
    pub commit_text_keeps : Keeps (conn.execute (text "COMMIT;"))
    pub commit_keeps : Keeps conn.commit
    pub insert_lem :
        (n : Bytes) (d : D) (a : Unit {0})
        → (conn.execute (build_insert_migration_query conn.escape_string n) d).0 ≡ ok a
        → recorded (conn.execute (build_insert_migration_query conn.escape_string n) d).1 n ≡ true
    pub insert_keeps :
        (n m : Bytes) (d : D)
        → str_eq n m ≡ false
        → recorded (conn.execute (build_insert_migration_query conn.escape_string n) d).1 m
          ≡ recorded d m

  abbrev pub Entries : Type 0
  Entries = List (Bytes × (D → Outcome (Unit {0}) × D))

  abbrev pub AllKeep : Entries → Type 0
  AllKeep [] = Unit
  AllKeep ((n, f) ∷ l) = Keeps f × AllKeep l

  -- The name is none of those in the list.
  abbrev pub Differs : Bytes → Entries → Type 0
  Differs m [] = Unit
  Differs m ((n, f) ∷ l) = (str_eq m n ≡ false) × Differs m l

  abbrev pub Distinct : Entries → Type 0
  Distinct [] = Unit
  Distinct ((n, f) ∷ l) = Differs n l × Distinct l

  -- The names that are not recorded yet.
  unfoldable pub pending : D → Entries → List Bytes
  pending d [] = []
  pending d ((n, f) ∷ l) = if recorded d n then pending d l else n ∷ pending d l

  abbrev pub AllRecorded : D → Entries → Type 0
  AllRecorded d [] = Unit
  AllRecorded d ((n, f) ∷ l) = (recorded d n ≡ true) × AllRecorded d l

  abbrev pub both_lines : List Bytes → List Line
  both_lines [] = []
  both_lines (n ∷ l) = migrating n ∷ (migrated n ∷ both_lines l)

  -- The step leaves something of the world as it is.
  abbrev pub KeepsView : {A : Type 0} → (World D → A) → Step D → Type 0
  KeepsView v f = (w : World D) → v (f w).1 ≡ v w

  abbrev pub KeepsName : Bytes → Step D → Type 0
  KeepsName m = KeepsView (λ w. recorded w.db m)

  after-KeepsView :
      {A : Type 0} (v : World D → A) (g : Step D) (r : Outcome (Unit {0}) × World D)
      → KeepsView v g
      → v (after g r).1 ≡ v r.1
  after-KeepsView v g (ok a, w) q = q w
  after-KeepsView v g (thrown e, w) q = refl

  >>-KeepsView :
      {A : Type 0} (v : World D → A) (f g : Step D)
      → KeepsView v f
      → KeepsView v g
      → KeepsView v (f >> g)
  >>-KeepsView v f g p q w = after-KeepsView v g (f w) q ∙ p w

  pub >>-KeepsName :
      (m : Bytes) (f g : Step D) → KeepsName m f → KeepsName m g → KeepsName m (f >> g)
  >>-KeepsName m = >>-KeepsView (λ w. recorded w.db m)

  -- Where the step returns, the name is recorded.
  abbrev pub Records : Bytes → Step D → Type 0
  Records n f = (w : World D) (a : Unit {0}) → (f w).0 ≡ ok a → recorded (f w).1.db n ≡ true

  after-Records :
      (n : Bytes) (g : Step D) (r : Outcome (Unit {0}) × World D) (a : Unit {0})
      → Records n g
      → (after g r).0 ≡ ok a
      → recorded (after g r).1.db n ≡ true
  after-Records n g (ok b, w) a q e = q w a e
  after-Records n g (thrown t, w) a q e = cc

  >>-Records : (n : Bytes) (f g : Step D) → Records n g → Records n (f >> g)
  >>-Records n f g q w a e = after-Records n g (f w) a q e

  kept-Records :
      (n : Bytes) (g : Step D) (r : Outcome (Unit {0}) × World D) (a : Unit {0})
      → ((b : Unit {0}) → r.0 ≡ ok b → recorded r.1.db n ≡ true)
      → KeepsName n g
      → (after g r).0 ≡ ok a
      → recorded (after g r).1.db n ≡ true
  kept-Records n g (ok b, w) a p q e = q w ∙ p b refl
  kept-Records n g (thrown t, w) a p q e = cc

  begin_lines : KeepsView (λ w. w.lines) (begin conn)
  unfolding begin
  begin_lines w = ground arith

  commit_lines : KeepsView (λ w. w.lines) (commit conn)
  unfolding commit
  commit_lines w =
      elim (Bool-cases (not w.temporaries.statement || not w.temporaries.db_connection)) [
        | inl e ↦ rw e refl
        | inr e ↦ rw e (
            >>-KeepsView (λ w. w.lines) (on_db (conn.execute (text "COMMIT;"))) (on_db conn.commit)
              (λ x. refl) (λ x. refl) w)
      ]

  pub migrate_lines : (f : Query) (n : Bytes) → KeepsView (λ w. w.lines) (migrate conn f n)
  unfolding migrate
  migrate_lines f n =
      let v = λ (w : World D). w.lines in
      let insert : Step D =
        on_db (conn.execute (build_insert_migration_query conn.escape_string n)) in
      let ending : Step D = commit conn >> reset_tmp in
      >>-KeepsView v set_temporaries (begin conn >> (on_db f >> (insert >> ending))) (λ w. refl)
        (>>-KeepsView v (begin conn) (on_db f >> (insert >> ending)) begin_lines (
          >>-KeepsView v (on_db f) (insert >> ending) (λ w. refl)
            (>>-KeepsView v insert ending (λ w. refl)
              (>>-KeepsView v (commit conn) reset_tmp commit_lines (λ w. refl)))))

  module _ (table : IsTable) where
    begin-KeepsName : (m : Bytes) → KeepsName m (begin conn)
    unfolding begin
    begin-KeepsName m w = ground (arith, table.begin_keeps w.db m)

    commit-KeepsName : (m : Bytes) → KeepsName m (commit conn)
    unfolding commit
    commit-KeepsName m w =
        elim (Bool-cases (not w.temporaries.statement || not w.temporaries.db_connection)) [
          | inl e ↦ rw e refl
          | inr e ↦ rw e (
              >>-KeepsName m (on_db (conn.execute (text "COMMIT;"))) (on_db conn.commit)
                (λ x. table.commit_text_keeps x.db m) (λ x. table.commit_keeps x.db m) w)
        ]

    insert : Bytes → Step D
    insert n = on_db (conn.execute (build_insert_migration_query conn.escape_string n))

    end-KeepsName : (m : Bytes) → KeepsName m (commit conn >> reset_tmp)
    end-KeepsName m = >>-KeepsName m (commit conn) reset_tmp (commit-KeepsName m) (λ w. refl)

    pub migrate-KeepsName :
        (f : Query) (n m : Bytes) → Keeps f → str_eq n m ≡ false → KeepsName m (migrate conn f n)
    unfolding migrate insert
    migrate-KeepsName f n m k d =
        >>-KeepsName m set_temporaries
          (begin conn >> (on_db f >> (insert n >> (commit conn >> reset_tmp)))) (λ w. refl)
          (>>-KeepsName m (begin conn) (on_db f >> (insert n >> (commit conn >> reset_tmp)))
            (begin-KeepsName m)
            (>>-KeepsName m (on_db f) (insert n >> (commit conn >> reset_tmp)) (λ w. k w.db m)
              (>>-KeepsName m (insert n) (commit conn >> reset_tmp)
                (λ w. table.insert_keeps n m w.db d) (end-KeepsName m))))

    pub migrate-Records : (f : Query) (n : Bytes) → Records n (migrate conn f n)
    unfolding migrate insert
    migrate-Records f n =
        >>-Records n set_temporaries
          (begin conn >> (on_db f >> (insert n >> (commit conn >> reset_tmp))))
          (>>-Records n (begin conn) (on_db f >> (insert n >> (commit conn >> reset_tmp))) (
            >>-Records n (on_db f) (insert n >> (commit conn >> reset_tmp)) (λ w a e.
              kept-Records n (commit conn >> reset_tmp) (insert n w) a
                (λ b q. table.insert_lem n w.db b q) (end-KeepsName n) e)))
