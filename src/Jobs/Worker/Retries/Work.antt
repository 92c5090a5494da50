-- ===== src/Jobs/Worker/Retries/Work.antt =====
-- What `work` answers for a job that fails in every run.
use cppapiframework.Common.{
  ℕ, ◌+◌, ◌%◌, ◌^◌, ◌<◌, ◌≡◌, refl, ap, ◌∙◌, Bool, true, false, if◌then◌else◌, Bytes, text, str_eq,
  arith, ◌++◌,
}
use cppapiframework.Common.Dict.{Dict, erase, insert_all}
use cppapiframework.Common.Decimal.{stoull-to_string}
use cppapiframework.Common.Outcome.{ok}
use cppapiframework.Json.{object, Members, get, set_member, Poco}
use cppapiframework.Queues.{GenericQueue}
use cppapiframework.Jobs.Handler.{
  JobStatus, errorretry, errorremove, errexcept, HandleRun, JobClass, JobsHandler, Instance,
  get_object, instance_from_payload, handle, save_job_log,
}
use cppapiframework.Jobs.Metrics.{Event, started, completed}
use cppapiframework.Jobs.Flow.{World, done}
use cppapiframework.Jobs.Worker.{
  QueueWorker, Surroundings, process_retry_condition, run_or_wait, finish_run, handle_job_run,
  fork_process, child,
}
use cppapiframework.Jobs.Worker.Payload.{index, set_counters}
use cppapiframework.Jobs.Worker.Work.{
  refresh, final_status, after_run, work_instance, with_instance, with_counters, with_payload,
  with_class, work, note, reports,
}
use cppapiframework.Jobs.Worker.Retries.Data.{retried_data, retried-Kept}
use cppapiframework.Jobs.Worker.Retries.{
  Kept, IsPayload, with_tries, AlwaysFails, may_retry, find_member-set_member,
}

get_object-set_data :
    (o ms : Members) → get_object (text "data") (set_member (text "data") (object o) ms) ≡ ok o
unfolding get_object get str_eq
get_object-set_data o ms =
    ground (arith, find_member-set_member (text "data") (text "data") (object o) ms)

module _ (poco : Poco) (h : JobsHandler) (c : JobClass) (dataobj : Members) (payload : Bytes) where
  module _ (x : IsPayload poco h c dataobj payload) (f : AlwaysFails c dataobj) (t m : ℕ)
      (small : t < 2 ^ 64) (small_max : m < 2 ^ 64) where
    abbrev json' : Members
    json' = set_member (text "data") (object (with_tries t m dataobj)) x.json

    set_counters-Kept :
        (d : Dict Bytes) → Kept payload t m d → set_counters x.json d ≡ (ok json', d)
    unfolding set_counters
    set_counters-Kept d k = ground (arith, stoull-to_string t small, stoull-to_string m small_max)

    get_data' : get_object (text "data") json' ≡ ok (with_tries t m dataobj)
    get_data' = get_object-set_data (with_tries t m dataobj) x.json

    get_other : (k : Bytes) → str_eq (text "data") k ≡ false → get k json' ≡ get k x.json
    unfolding get
    get_other k e =
        ground
          (arith, find_member-set_member (text "data") k (object (with_tries t m dataobj)) x.json)

    abbrev instance' : Instance
    instance' = record { cls = c; job = f.job_of t m }

    instance-Kept : instance_from_payload poco h json' ≡ ok instance'
    unfolding instance_from_payload
    instance-Kept = ground (
      arith,
      get_other (text "className") (unfold str_eq in refl),
      get_data',
      f.reads t m small small_max,
    )

    abbrev counted : Instance
    counted = record instance' { job = record (f.job_of t m) { tries = t + 1 } }

    abbrev run_of : (Bytes → Bytes) → HandleRun
    run_of report = record (c.handle counted.job) {
      err = (c.handle counted.job).err ++ report (f.throws counted.job).0;
    }

    handle-fails : (report : Bytes → Bytes) → handle report counted ≡ (errexcept, run_of report)
    unfolding handle
    handle-fails report = ground (arith, (f.throws counted.job).1)

module _ (q : GenericQueue) (w : QueueWorker) (env : Surroundings) (queue jobname payload : Bytes)
    (c : JobClass) (dataobj : Members) (x : IsPayload env.poco w.jobhandler c dataobj payload)
    (f : AlwaysFails c dataobj) (t m : ℕ) (small : t + 1 < 2 ^ 64) (small_max : m < 2 ^ 64)
    (no_fork : w.fork_to_handle ≡ false) where
  abbrev payload_json : Members
  payload_json = json' env.poco w.jobhandler c dataobj payload x f t m (omega arith) small_max

  abbrev made : Instance
  made = instance' env.poco w.jobhandler c dataobj payload x f t m (omega arith) small_max

  abbrev tried : Instance
  tried = counted env.poco w.jobhandler c dataobj payload x f t m (omega arith) small_max

  abbrev failed_run : HandleRun
  failed_run =
      run_of env.poco w.jobhandler c dataobj payload x f t m (omega arith) small_max env.report

  abbrev logged : Dict Bytes → Dict Bytes
  logged d = save_job_log failed_run.out failed_run.err (erase (text "retryAfter") d)

  counted_tries : (made.job.tries + 1) % 2 ^ 64 ≡ t + 1
  counted_tries = omega (arith, f.tries_read t m)

  run-fails :
      (jobdata : Dict Bytes)
      → run_or_wait env tried jobdata child ≡ (errexcept, failed_run, jobdata)
  unfolding run_or_wait
  run-fails jobdata =
      rw
        (handle-fails env.poco w.jobhandler c dataobj payload x f t m (omega arith) small_max
          env.report)
        refl

  finish_run-fails :
      (d : Dict Bytes) (world : World q.State)
      → finish_run q w env jobname (errexcept, failed_run, d) world
        ≡ done (errexcept, failed_run.job, logged d) world
  unfolding finish_run fork_process
  finish_run-fails d world = ground (arith, f.no_retry_after tried.job (f.no_delay_read t m))

  handle_job_run-fails :
      (d : Dict Bytes) (world : World q.State)
      → handle_job_run q w env made payload_json d jobname world
        ≡ done (errexcept, failed_run.job, logged d) world
  unfolding handle_job_run fork_process
  handle_job_run-fails d world = ground (
    arith,
    counted_tries,
    get_other env.poco w.jobhandler c dataobj payload x f t m (omega arith) small_max (text "uuid")
        (unfold str_eq in refl),
    x.identified,
    run-fails d,
    finish_run-fails d world,
  )

  abbrev pub status : JobStatus
  status = if may_retry (t + 1) m then errorretry else errorremove

  abbrev pub left_data : Dict Bytes → Dict Bytes
  left_data d = refresh status failed_run.job (logged (erase (text "payload") d))

  final_status-fails : final_status errexcept failed_run.job ≡ status
  unfolding process_retry_condition
  final_status-fails =
      ground (arith, f.tries_same tried.job, f.maxtries_same tried.job, f.maxtries_read t m)

  note-store :
      (b : Bool) (e : Event) (world : World q.State) → (note q b e world).store ≡ world.store
  note-store true e world = refl
  note-store false e world = refl

  abbrev begun : Bytes → World q.State → World q.State
  begun cls world = note q (reports q w cls) (started queue cls x.uuid made.job.tries) world

  abbrev ended : Bytes → World q.State → World q.State
  ended cls world =
      note q (reports q w cls) (completed queue cls x.uuid status failed_run.job.tries)
        (begun cls world)

  work_instance-fails :
      (cls : Bytes) (d : Dict Bytes) (world : World q.State)
      → work_instance q w env queue jobname cls x.uuid payload_json made d world
        ≡ done (status, refresh status failed_run.job (logged d)) (ended cls world)
  unfolding work_instance after_run
  work_instance-fails cls d world =
      rw (handle_job_run-fails d (begun cls world), final_status-fails) refl

  index-Kept : (d : Dict Bytes) → Kept payload t m d → index (text "payload") d ≡ (payload, d)
  index-Kept d k = ground (arith, k.payload_kept)

  pub work-fails :
      (d : Dict Bytes) (world : World q.State)
      → Kept payload t m d
      → (after : World q.State) × (work q w env queue jobname d world
          ≡ done (status, left_data d) after)
        × (after.store ≡ world.store)
  unfolding work with_class with_payload with_counters with_instance
  work-fails d world k = (
    ended k.class_kept.0 world,
    rw
        (
          k.class_kept.1,
          index-Kept d k,
          x.parsed,
          set_counters-Kept env.poco w.jobhandler c dataobj payload x f t m (omega arith) small_max
              d k,
          instance-Kept env.poco w.jobhandler c dataobj payload x f t m (omega arith) small_max,
        )
        (work_instance-fails k.class_kept.0 (erase (text "payload") d) world),
    note-store _ _ _ ∙ note-store _ _ _,
  )

  refreshed :
      may_retry (t + 1) m ≡ true
      → (d : Dict Bytes) → left_data d ≡ retried_data failed_run.out failed_run.err (t + 1) m d
  refreshed more d = rw more (
      unfold save_job_log in
      ground (arith, f.tries_same tried.job, f.maxtries_same tried.job, f.maxtries_read t m))

  -- With a further try allowed, the job is to be tried again, its data hold one try more, and the
  -- service is as it was.
  pub work-again :
      may_retry (t + 1) m ≡ true
      → (d : Dict Bytes) (world : World q.State) → Kept payload t m d
      → (after : World q.State) × (d' : Dict Bytes) × (work q w env queue jobname d world
          ≡ done (errorretry, d') after)
        × (after.store ≡ world.store)
        × Kept payload (t + 1) m (insert_all d' d)
  work-again more d world k =
      let h = work-fails d world k in
      let again : status ≡ errorretry = rw more refl in
      (
        h.0,
        left_data d,
        h.1 ∙ ap (λ r. done (r, left_data d) h.0) again,
        h.2,
        rw (refreshed more d) (retried-Kept failed_run.out failed_run.err (t + 1) m d payload t k),
      )

  -- With none allowed, it is to be removed.
  pub work-gives_up :
      may_retry (t + 1) m ≡ false
      → (d : Dict Bytes) (world : World q.State) → Kept payload t m d
      → (after : World q.State) × (d' : Dict Bytes) × (work q w env queue jobname d world
          ≡ done (errorremove, d') after)
        × (after.store ≡ world.store)
  work-gives_up no_more d world k =
      let h = work-fails d world k in
      let over : status ≡ errorremove = rw no_more refl in
      (h.0, left_data d, h.1 ∙ ap (λ r. done (r, left_data d) h.0) over, h.2)
