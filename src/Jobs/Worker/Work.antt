-- ===== src/Jobs/Worker/Work.antt =====
-- src/jobhandler/QueueWorker.cpp: `work`, from the job's data to its status.
pub mod Laws
use cppapiframework.Common.{
  ℕ, Bool, true, false, ◌&&◌, not, Option, none, some, List, [], ◌∷◌, ◌++◌, if◌then◌else◌, Bytes,
  text, is_empty,
}
use cppapiframework.Common.Dict.{Dict, lookup, insert, erase}
use cppapiframework.Common.Decimal.{to_string}
use cppapiframework.Common.Outcome.{Outcome, ok, thrown}
use cppapiframework.Json.{Members}
use cppapiframework.Queues.{GenericQueue}
use cppapiframework.Jobs.Job.{QueueableJob}
use cppapiframework.Jobs.Handler.{
  JobStatus, noerror, errorremove, errorretry, Instance, instance_from_payload,
}
use cppapiframework.Jobs.Metrics.{Event, started, completed}
use cppapiframework.Jobs.Flow.{World, Flow, done, raised, exited, M, pure, ◌>>=◌, ◌>>◌, notify}
use cppapiframework.Jobs.Worker.{
  QueueWorker, Surroundings, process_retry_condition, handle_job_run, is_noerror, when,
}
use cppapiframework.Jobs.Worker.Payload.{index, parse_payload, set_counters}

-- "Refresh the payload": the counters that a retry keeps.
abbrev pub refresh : JobStatus → QueueableJob → Dict Bytes → Dict Bytes
refresh errorretry job datamap =
    insert (text "maxtries") (to_string job.maxtries)
      (insert (text "tries") (to_string job.tries) datamap)
refresh _ job datamap = datamap

-- The status behind the run.
abbrev pub final_status : JobStatus → QueueableJob → JobStatus
final_status result job = if is_noerror result then result else process_retry_condition job

module _ (q : GenericQueue) where
  -- A callback of the metrics, if there is one to call.
  abbrev pub note : Bool → Event → World q.State → World q.State
  note reports e world = if reports then record world { events = world.events ++ e ∷ [] } else world

  abbrev pub reports : QueueWorker → Bytes → Bool
  reports w cls = w.has_metrics && not (is_empty cls)

  -- `work` behind handle_job_run.
  unfoldable pub after_run :
      QueueWorker
      → Bytes
      → Bytes
      → Bytes
      → Flow q.State (JobStatus × QueueableJob × Dict Bytes)
      → Flow q.State (JobStatus × Dict Bytes)
  after_run w queue cls uuid (done (result, job, datamap) world) =
      done (final_status result job, refresh (final_status result job) job datamap)
        (note (reports w cls) (completed queue cls uuid (final_status result job) job.tries) world)
  after_run w queue cls uuid (raised e world) = raised e world
  after_run w queue cls uuid (exited r world) = exited r world

  -- `work` from the start callback on.
  unfoldable pub work_instance :
      QueueWorker
      → Surroundings
      → Bytes
      → Bytes
      → Bytes
      → Bytes
      → Members
      → Instance
      → Dict Bytes
      → M q.State (JobStatus × Dict Bytes)
  unfolding after_run
  work_instance w env queue jobname cls uuid json i datamap world = after_run w queue cls uuid (
      handle_job_run q w env i json datamap jobname
        (note (reports w cls) (started queue cls uuid i.job.tries) world))

  -- A job that cannot be made is tried again, with its tries as they are.
  unfoldable pub with_instance :
      QueueWorker
      → Surroundings
      → Bytes
      → Bytes
      → Bytes
      → Bytes
      → Members
      → Outcome Instance
      → Dict Bytes
      → M q.State (JobStatus × Dict Bytes)
  with_instance w env queue jobname cls uuid json (thrown e) d = pure (errorretry, d)
  with_instance w env queue jobname cls uuid json (ok i) d =
      work_instance w env queue jobname cls uuid json i (erase (text "payload") d)

  unfoldable pub with_counters :
      QueueWorker
      → Surroundings
      → Bytes
      → Bytes
      → Bytes
      → Bytes
      → Outcome Members × Dict Bytes
      → M q.State (JobStatus × Dict Bytes)
  with_counters w env queue jobname cls uuid (thrown e, d) = pure (errorremove, d)
  with_counters w env queue jobname cls uuid (ok json, d) =
      with_instance w env queue jobname cls uuid json
        (instance_from_payload env.poco w.jobhandler json) d

  unfoldable pub with_payload :
      QueueWorker
      → Surroundings
      → Bytes
      → Bytes
      → Bytes
      → Outcome (Members × Bytes)
      → Dict Bytes
      → M q.State (JobStatus × Dict Bytes)
  with_payload w env queue jobname cls (thrown e) d = pure (errorremove, d)
  with_payload w env queue jobname cls (ok (json, uuid)) d =
      with_counters w env queue jobname cls uuid (set_counters json d)

  unfoldable pub with_class :
      QueueWorker
      → Surroundings
      → Bytes
      → Bytes
      → Option Bytes
      → Bytes × Dict Bytes
      → M q.State (JobStatus × Dict Bytes)
  with_class w env queue jobname none (payload, d) = pure (errorremove, d)
  with_class w env queue jobname (some cls) (payload, d) =
      with_payload w env queue jobname cls (parse_payload env.poco payload) d

  unfoldable pub work :
      QueueWorker → Surroundings → Bytes → Bytes → Dict Bytes → M q.State (JobStatus × Dict Bytes)
  work w env queue jobname datamap =
      with_class w env queue jobname (lookup (text "className") datamap)
        (index (text "payload") datamap)
