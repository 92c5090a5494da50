-- ===== src/Jobs/Worker/Work/Laws.antt =====
-- The status and the data that `work` ends with.
use cppapiframework.Common.{◌≢◌, Option, none, some, arith, Bytes}
use cppapiframework.Common.Dict.{Dict}
use cppapiframework.Common.Outcome.{Outcome, ok, thrown}
use cppapiframework.Json.{Members}
use cppapiframework.Queues.{GenericQueue}
use cppapiframework.Jobs.Job.{QueueableJob}
use cppapiframework.Jobs.Handler.{JobStatus, errexcept, HandleRun, Instance}
use cppapiframework.Jobs.Flow.{World, Flow, done, raised, exited}
use cppapiframework.Jobs.Worker.{
  QueueWorker, Surroundings, process_retry_condition, handle_job_run, finish_run,
}
use cppapiframework.Jobs.Worker.Work.{
  final_status, after_run, work_instance, with_instance, with_counters, with_payload, with_class,
  work,
}

final_status-ne-errexcept : (r : JobStatus) (job : QueueableJob) → final_status r job ≢ errexcept
unfolding process_retry_condition
final_status-ne-errexcept r job = ground arith

-- The statuses that a piece of code may end with.
abbrev pub Ends : {S : Type 0} → Flow S (JobStatus × Dict Bytes) → Type 0
Ends (done (r, d) after) = r ≢ errexcept
Ends (raised e after) = ⊥
Ends (exited r after) = Unit {0}

abbrev Quiet : {S A : Type 0} → Flow S A → Type 0
Quiet (raised e after) = ⊥
Quiet _ = Unit {0}

module _ (q : GenericQueue) (w : QueueWorker) (env : Surroundings) (queue jobname : Bytes) where
  finish_run-Quiet :
      (r : JobStatus × HandleRun × Dict Bytes) (world : World q.State)
      → Quiet (finish_run q w env jobname r world)
  unfolding finish_run
  finish_run-Quiet (result, r, d) world = ground arith

  handle_job_run-Quiet :
      (i : Instance) (json : Members) (datamap : Dict Bytes) (world : World q.State)
      → Quiet (handle_job_run q w env i json datamap jobname world)
  unfolding handle_job_run
  handle_job_run-Quiet i json datamap world = ground arith

  after_run-Ends :
      (cls uuid : Bytes) (f : Flow q.State (JobStatus × QueueableJob × Dict Bytes))
      → Quiet f
      → Ends (after_run q w queue cls uuid f)
  unfolding after_run
  after_run-Ends cls uuid (done (result, job, d) world) h = final_status-ne-errexcept result job
  after_run-Ends cls uuid (raised e world) h = h
  after_run-Ends cls uuid (exited r world) h = tt

  work_instance-Ends :
      (cls uuid : Bytes) (json : Members) (i : Instance) (datamap : Dict Bytes)
      (world : World q.State)
      → Ends (work_instance q w env queue jobname cls uuid json i datamap world)
  unfolding work_instance
  work_instance-Ends cls uuid json i datamap world =
      after_run-Ends cls uuid _ (handle_job_run-Quiet i json datamap _)

  with_instance-Ends :
      (cls uuid : Bytes) (json : Members) (i : Outcome Instance) (d : Dict Bytes)
      (world : World q.State)
      → Ends (with_instance q w env queue jobname cls uuid json i d world)
  unfolding with_instance
  with_instance-Ends cls uuid json (thrown e) d world = λ h. cc
  with_instance-Ends cls uuid json (ok i) d world = work_instance-Ends cls uuid json i _ world

  with_counters-Ends :
      (cls uuid : Bytes) (c : Outcome Members × Dict Bytes) (world : World q.State)
      → Ends (with_counters q w env queue jobname cls uuid c world)
  unfolding with_counters
  with_counters-Ends cls uuid (thrown e, d) world = λ h. cc
  with_counters-Ends cls uuid (ok json, d) world = with_instance-Ends cls uuid json _ d world

  with_payload-Ends :
      (cls : Bytes) (p : Outcome (Members × Bytes)) (d : Dict Bytes) (world : World q.State)
      → Ends (with_payload q w env queue jobname cls p d world)
  unfolding with_payload
  with_payload-Ends cls (thrown e) d world = λ h. cc
  with_payload-Ends cls (ok (json, uuid)) d world = with_counters-Ends cls uuid _ world

  with_class-Ends :
      (c : Option Bytes) (p : Bytes × Dict Bytes) (world : World q.State)
      → Ends (with_class q w env queue jobname c p world)
  unfolding with_class
  with_class-Ends none (payload, d) world = λ h. cc
  with_class-Ends (some cls) (payload, d) world = with_payload-Ends cls _ d world

  -- Whatever the job's data are, `work` does not throw, and never answers errexcept: an exception
  -- of the job has become a retry or a removal.
  pub work-Ends :
      (datamap : Dict Bytes) (world : World q.State)
      → Ends (work q w env queue jobname datamap world)
  unfolding work
  work-Ends datamap world = with_class-Ends _ _ world
