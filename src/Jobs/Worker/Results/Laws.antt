-- ===== src/Jobs/Worker/Results/Laws.antt =====
-- What becomes of a job behind its run, on a lawful service, for each status.
use cppapiframework.Common.{
  ◌≡◌, inl, inr, Bool, false, List, [], ◌∷◌, ◌++◌, arith, if◌then◌else◌, Bytes, str_eq, Bool-cases,
}
use cppapiframework.Common.Dict.{Dict, insert_all}
use cppapiframework.Common.Int.{ℤ}
use cppapiframework.Queues.{GenericQueue, View, IsLawful}
use cppapiframework.Jobs.Handler.{JobStatus, noerror, errorremove, errorretry, errexcept}
use cppapiframework.Jobs.Flow.{World, done, call, call-done}
use cppapiframework.Jobs.Metrics.{Event, removed}
use cppapiframework.Jobs.Worker.{QueueWorker}
use cppapiframework.Jobs.Worker.Results.{
  process_job_result, keep_log, reports, class_name, uuid_of, tries_of,
}
use cppapiframework.Jobs.Worker.Results.Again.{QueuedAgain, TimeFits, queue_again-QueuedAgain}

module _ (q : GenericQueue) (v : View q) (laws : IsLawful q v) (w : QueueWorker) (now : ℤ)
    (queue jobname : Bytes) (datamap : Dict Bytes) (world : World q.State) where
  abbrev stored : q.State
  stored = (q.set_persistent_data jobname datamap world.store).1

  set_done :
      call (q.set_persistent_data jobname datamap) world ≡ done tt (record world { store = stored })
  set_done = call-done _ world tt (laws.set_ok jobname datamap world.store)

  -- The job is not queued again: its data are dropped, or merged into what is kept, and nothing
  -- else is touched.
  pub record Settled (dropped : Bool) (after : World q.State) : Type 0 where
    pub pending_same : (n : Bytes) → v.pending after.store n ≡ v.pending world.store n
    pub later_same : (n : Bytes) → v.later after.store n ≡ v.later world.store n
    pub persisted_settled :
        (n : Bytes)
        → v.persisted after.store n ≡ (
            if str_eq jobname n
            then (if dropped then [] else insert_all datamap (v.persisted world.store n))
            else v.persisted world.store n)

  abbrev expired : q.State
  expired = (q.expire jobname w.job_log_expire_seconds stored).1

  keep_log-done :
      keep_log q w now queue jobname datamap world ≡ done tt (record world { store = expired })
  unfolding keep_log
  keep_log-done = ground (
    arith,
    set_done,
    call-done (q.expire jobname w.job_log_expire_seconds) (record world { store = stored }) _
        (laws.expire_ok jobname w.job_log_expire_seconds stored).1,
  )

  keep_log-Settled :
      (events : List Event) → Settled false (record { store = expired; events = events })
  keep_log-Settled events = record {
    pending_same = λ n. rw (
      laws.pending-expire jobname w.job_log_expire_seconds stored,
      laws.pending-set jobname datamap world.store,
    );
    later_same = λ n. rw (
      laws.later-expire jobname w.job_log_expire_seconds stored,
      laws.later-set jobname datamap world.store,
    );
    persisted_settled = λ n.
        rw (laws.persisted-expire jobname w.job_log_expire_seconds stored)
          (laws.persisted-set jobname datamap world.store n);
  }

  process_noerror :
      (after : World q.State) × (process_job_result q w now queue jobname datamap noerror world
        ≡ done tt after)
      × Settled w.clean_successful_jobs_logs after
  unfolding process_job_result
  process_noerror = elim (Bool-cases w.clean_successful_jobs_logs) [
    | inl c ↦ simp c (
      record world { store = (q.del_persistent_data jobname world.store).1 },
      call-done _ world tt (laws.del_ok jobname world.store),
      record {
        pending_same = λ n. rw (laws.pending-del jobname world.store);
        later_same = λ n. rw (laws.later-del jobname world.store);
        persisted_settled = λ n. laws.persisted-del jobname world.store n;
      },
    )
    | inr c ↦
        simp c (record world { store = expired }, keep_log-done, keep_log-Settled world.events)
  ]

  abbrev removed_events : List Event
  removed_events =
      if reports q w now queue jobname datamap
      then world.events
        ++ removed queue (class_name q w now queue jobname datamap) (uuid_of jobname) errorremove
            (tries_of datamap)
          ∷ []
      else world.events

  process_errorremove :
      (after : World q.State) × (process_job_result q w now queue jobname datamap errorremove world
        ≡ done tt after)
      × Settled false after
  unfolding process_job_result
  process_errorremove = (
    record { store = expired; events = removed_events },
    ground (arith, keep_log-done),
    keep_log-Settled removed_events,
  )

  -- What a status means for the job: queued again exactly on a retry or an exception, dropped or
  -- kept aside otherwise.
  abbrev pub Processed : JobStatus → World q.State → Type 0
  Processed noerror = Settled w.clean_successful_jobs_logs
  Processed errorremove = Settled false
  Processed errorretry = QueuedAgain q v laws w now queue jobname datamap world
  Processed errexcept = QueuedAgain q v laws w now queue jobname datamap world

  -- Where the status queues the job again: its delay, in nanoseconds and added to the time that it
  -- is, does not leave the range of int64_t.
  abbrev pub AgainFits : JobStatus → Type 0
  AgainFits noerror = Unit
  AgainFits errorremove = Unit
  AgainFits errorretry = TimeFits q v laws w now queue jobname datamap world
  AgainFits errexcept = TimeFits q v laws w now queue jobname datamap world

  -- On a lawful service process_job_result ends, for every status, and has done to the queues and
  -- to the kept data what the status means. If the status queues the job again after a delay, the
  -- delay as nanoseconds and the time at which the job is due must be in the range of int64_t.
  pub process_job_result-Processed :
      (result : JobStatus)
      → AgainFits result
      → (after : World q.State) × (process_job_result q w now queue jobname datamap result world
          ≡ done tt after)
        × Processed result after
  unfolding process_job_result
  process_job_result-Processed noerror fits = process_noerror
  process_job_result-Processed errorremove fits = process_errorremove
  process_job_result-Processed errorretry fits =
      queue_again-QueuedAgain q v laws w now queue jobname datamap world fits
  process_job_result-Processed errexcept fits =
      queue_again-QueuedAgain q v laws w now queue jobname datamap world fits
