-- ===== src/Jobs/Worker/Results/Again.antt =====
-- A job that is queued again: what queue_again does on a lawful service.
use mathlib.Core.List.{Perm}
use mathlib.Core.List.Perm
use cppapiframework.Common.{
  ◌≡◌, ap, ◌∙◌, subst, ◌⊎◌, inl, inr, true, ◌&&◌, not, none, some, List, [], ◌∷◌, ◌++◌, arith,
  if◌then◌else◌, Bytes, text, str_eq, Bool-cases,
}
use cppapiframework.Common.Dict.{Dict, lookup, insert_all}
use cppapiframework.Common.Int.{ℤ, pos, is_zero, ◌+ℤ◌, InInt64, to_int64, to_int64-InInt64}
use cppapiframework.Common.Decimal.{stoll}
use cppapiframework.Queues.{GenericQueue, View, IsLawful, seconds, to_seconds}
use cppapiframework.Jobs.Flow.{World, done, call, call-done}
use cppapiframework.Jobs.Metrics.{Event, retried}
use cppapiframework.Jobs.Worker.{QueueWorker}
use cppapiframework.Jobs.Worker.Results.{
  retry_after, queue_again, reports, class_name, uuid_of, tries_of, after_seconds,
}

-- The delay that the data under the job's name hold.
abbrev pub kept_delay : Dict Bytes → ℤ
kept_delay d = elim (lookup (text "retryAfter") d) [
  | none ↦ pos 0
  | some v ↦ elim (stoll v) [ none ↦ pos 0 | some n ↦ n ]
]

module _ (q : GenericQueue) (v : View q) (laws : IsLawful q v) (w : QueueWorker) (now : ℤ)
    (queue jobname : Bytes) (datamap : Dict Bytes) (world : World q.State) where
  abbrev again_events : ℤ → List Event
  again_events after =
      if reports q w now queue jobname datamap
      then world.events
        ++ retried queue (class_name q w now queue jobname datamap) (uuid_of jobname)
            (tries_of datamap) after
          ∷ []
      else world.events

  abbrev stored : q.State
  stored = (q.set_persistent_data jobname datamap world.store).1

  abbrev again_store : ℤ → q.State
  again_store after =
      if is_zero after
      then (q.push queue jobname stored).1
      else (q.push_to_later queue jobname (after_seconds now after) stored).1

  set_done :
      call (q.set_persistent_data jobname datamap) world ≡ done tt (record world { store = stored })
  set_done = call-done _ world tt (laws.set_ok jobname datamap world.store)

  push_done :
      (x : World q.State)
      → call (q.push queue jobname) x
        ≡ done tt (record x { store = (q.push queue jobname x.store).1 })
  push_done x = call-done _ x tt (laws.push_ok queue jobname x.store)

  later_done :
      (t : ℤ) (x : World q.State)
      → call (q.push_to_later queue jobname t) x
        ≡ done tt (record x { store = (q.push_to_later queue jobname t x.store).1 })
  later_done t x = call-done _ x tt (laws.push_to_later_ok queue jobname t x.store)

  queue_again-done :
      (after : ℤ)
      → queue_again q w now queue jobname datamap after world
        ≡ done tt (record { store = again_store after; events = again_events after })
  unfolding queue_again
  queue_again-done after = ground (
    arith,
    set_done,
    push_done (record { store = stored; events = again_events after }),
    later_done (after_seconds now after) (record { store = stored; events = again_events after }),
  )

  -- The job is queued again: at the end of its queue, or set aside if its data hold a delay; its
  -- data are merged into what is kept under its name, and no other queue and no other name is
  -- touched.
  pub record QueuedAgain (after : World q.State) : Type 0 where
    pub pending_again :
        (n : Bytes)
        → v.pending after.store n ≡ (
            if is_zero (kept_delay (v.persisted world.store jobname)) && str_eq queue n
            then v.pending world.store n ++ jobname ∷ []
            else v.pending world.store n)
    pub later_again :
        (n : Bytes)
        → Perm (v.later after.store n) (
            if not (is_zero (kept_delay (v.persisted world.store jobname))) && str_eq queue n
            then (
              jobname,
              to_seconds (now +ℤ seconds (kept_delay (v.persisted world.store jobname))),
            )
              ∷ v.later world.store n
            else v.later world.store n)
    pub persisted_again :
        (n : Bytes)
        → v.persisted after.store n ≡ (
            if str_eq jobname n
            then insert_all datamap (v.persisted world.store n)
            else v.persisted world.store n)

  retry_after-kept_delay :
      retry_after q w now queue jobname datamap world ≡ kept_delay (v.persisted world.store jobname)
  unfolding retry_after lookup
  retry_after-kept_delay = ground (arith, laws.get_field jobname (text "retryAfter") world.store)

  again_pending :
      (after : ℤ) (n : Bytes)
      → v.pending (again_store after) n ≡ (
          if is_zero after && str_eq queue n
          then v.pending world.store n ++ jobname ∷ []
          else v.pending world.store n)
  again_pending after n = elim (Bool-cases (is_zero after)) [
    | inl z ↦
        rw (
          z,
          laws.pending-push queue jobname stored n,
          laws.pending-set jobname datamap world.store,
        )
    | inr z ↦ rw (
      z,
      laws.pending-push_to_later queue jobname (after_seconds now after) stored,
      laws.pending-set jobname datamap world.store,
    )
  ]

  again_later :
      (after : ℤ) (n : Bytes)
      → Perm (v.later (again_store after) n) (
          if not (is_zero after) && str_eq queue n
          then (jobname, to_seconds (after_seconds now after)) ∷ v.later world.store n
          else v.later world.store n)
  again_later after n = elim (Bool-cases (is_zero after)) [
    | inl z ↦
        rw (z, laws.later-push queue jobname stored, laws.later-set jobname datamap world.store)
          (Perm.refl _)
    | inr z ↦
        rw (z, ← laws.later-set jobname datamap world.store)
          (laws.later-push_to_later queue jobname (after_seconds now after) stored n)
  ]

  again_persisted :
      (after : ℤ) (n : Bytes)
      → v.persisted (again_store after) n ≡ (
          if str_eq jobname n
          then insert_all datamap (v.persisted world.store n)
          else v.persisted world.store n)
  again_persisted after n = elim (Bool-cases (is_zero after)) [
    | inl z ↦
        rw (z, laws.persisted-push queue jobname stored)
          (laws.persisted-set jobname datamap world.store n)
    | inr z ↦
        rw (z, laws.persisted-push_to_later queue jobname (after_seconds now after) stored)
          (laws.persisted-set jobname datamap world.store n)
  ]

  -- The time at which the job is due can be computed in int64_t, if there is a delay.
  abbrev Fits : ℤ → Type 0
  Fits after = (is_zero after ≡ true) ⊎ (InInt64 (seconds after) × InInt64 (now +ℤ seconds after))

  abbrev pub TimeFits : Type 0
  TimeFits = Fits (kept_delay (v.persisted world.store jobname))

  after_seconds-Fits :
      (after : ℤ)
      → InInt64 (seconds after)
      → InInt64 (now +ℤ seconds after)
      → after_seconds now after ≡ now +ℤ seconds after
  unfolding after_seconds
  after_seconds-Fits after h k =
      ap (λ z. to_int64 (now +ℤ z)) (to_int64-InInt64 (seconds after) h)
      ∙ to_int64-InInt64 (now +ℤ seconds after) k

  again_due :
      (after : ℤ) (n : Bytes)
      → Fits after
      → Perm (v.later (again_store after) n) (
          if not (is_zero after) && str_eq queue n
          then (jobname, to_seconds (now +ℤ seconds after)) ∷ v.later world.store n
          else v.later world.store n)
  again_due after n (inl z) = rw z (rw z at (again_later after n))
  again_due after n (inr (h, k)) =
      subst
        (λ t. Perm (v.later (again_store after) n) (
          if not (is_zero after) && str_eq queue n
          then (jobname, to_seconds t) ∷ v.later world.store n
          else v.later world.store n))
        (after_seconds-Fits after h k) (again_later after n)

  pub queue_again-QueuedAgain :
      TimeFits
      → (after : World q.State) × (queue_again q w now queue jobname datamap
            (retry_after q w now queue jobname datamap world)
            world
          ≡ done tt after)
        × QueuedAgain after
  queue_again-QueuedAgain fits = rw retry_after-kept_delay (
    record { store = again_store delay; events = again_events delay },
    queue_again-done delay,
    record {
      pending_again = again_pending delay;
      later_again = λ n. again_due delay n fits;
      persisted_again = again_persisted delay;
    },
  )
    where
      delay : ℤ
      delay = kept_delay (v.persisted world.store jobname)
