-- ===== src/Migrations/Passes.antt =====
-- What a run does on the server, migration by migration.
use cppapiframework.Common.{
  ℕ, ◌≡◌, ◌⊎◌, Bool, true, false, Option, none, some, List, [], ◌∷◌, ◌++◌, Bytes,
}
use cppapiframework.Common.Outcome.{ok, thrown}
use cppapiframework.Migrations.{Connection}
use cppapiframework.Migrations.Laws.{Query, Entries}
use cppapiframework.Migrations.Steps.{Made, Fails}

module _ {D : Type 0} (conn : Connection D) (recorded : D → Bytes → Bool) where
  abbrev counted_state : Bytes → D → D
  counted_state n d = (conn.count_migration n d).1

  abbrev Counted : Bytes → D → Type 0
  Counted n d = (row : Option ℕ) × ((conn.count_migration n d).0 ≡ ok row)

  -- One migration is passed: it is recorded and left alone, or it is not and is made.
  abbrev pub Passed : Bytes → Query conn recorded → List Bytes → D → D → Type 0
  Passed n f first d e =
      Counted n d
      × (((first ≡ []) × (recorded d n ≡ true) × (e ≡ counted_state n d))
          ⊎ ((first ≡ n ∷ [])
              × (recorded d n ≡ false)
              × Made conn recorded f n (counted_state n d) e))

  -- All are passed, and these are made.
  abbrev pub Passes : Entries conn recorded → List Bytes → D → D → Type 0
  Passes [] made d d' = (made ≡ []) × (d' ≡ d)
  Passes ((n, f) ∷ l) made d d' =
      (first : List Bytes) × (rest : List Bytes) × (e : D) × (made ≡ first ++ rest)
      × Passed n f first d e
      × Passes l rest e d'

  -- Some are passed, and these are made; then the table cannot be read, or the migration that is
  -- begun fails.
  abbrev pub Stops : Entries conn recorded → List Bytes → Option Bytes → D → D → Bytes → Type 0
  Stops [] made begun d d' t = ⊥
  Stops ((n, f) ∷ l) made begun d d' t =
      ((made ≡ [])
        × (begun ≡ none)
        × ((conn.count_migration n d).0 ≡ thrown t)
        × (d' ≡ counted_state n d))
      ⊎ (((made ≡ [])
            × (begun ≡ some n)
            × Counted n d
            × (recorded d n ≡ false)
            × Fails conn recorded f n (counted_state n d) d' t)
          ⊎ ((first : List Bytes) × (rest : List Bytes) × (e : D) × (made ≡ first ++ rest)
              × Passed n f first d e
              × Stops l rest begun e d' t))
