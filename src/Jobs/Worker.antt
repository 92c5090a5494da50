-- ===== src/Jobs/Worker.antt =====
-- src/jobhandler/QueueWorker.hpp, src/jobhandler/QueueWorker.cpp: one run of a job.
pub mod Payload
pub mod Work
pub mod Results
pub mod Loop
pub mod Retries
use cppapiframework.Common.{
  ℕ, zero, suc, ◌+◌, ◌%◌, ◌^◌, Bool, true, false, ◌&&◌, not, Option, none, some, List, [], ◌∷◌,
  ◌++◌, ltb, ◌==◌, if◌then◌else◌, Bytes, text, is_empty,
}
use cppapiframework.Common.Dict.{Dict, lookup, insert, erase}
use cppapiframework.Common.Int.{ℤ, pos, ltb_ℤ}
use cppapiframework.Common.Decimal.{to_string, to_string_ℤ, stoull}
use cppapiframework.Common.Outcome.{Outcome, ok, thrown, or_throw}
use cppapiframework.Common.Outcome
use cppapiframework.Json.{Var, number, object, Members, get, has, set_member, Poco}
use cppapiframework.Queues.{GenericQueue}
use cppapiframework.Jobs.Job.{QueueableJob}
use cppapiframework.Jobs.Handler.{
  JobStatus, noerror, errorremove, errorretry, errexcept, HandleRun, JobClass, Instance,
  JobsHandler, get_object, instance_from_payload, handle, save_job_log,
}
use cppapiframework.Jobs.Metrics.{Event, started, completed}
use cppapiframework.Jobs.Flow.{
  World, Flow, done, raised, exited, M, pure, ◌>>=◌, ◌>>◌, call_caught, notify,
}

-- How fork() and wait() end: no process, the child's side, or the parent's side, with whether the
-- child ended by itself with status 0 and with what it left in the two log files.
pub data Fork : Type 0 where
  fork_failed child : Fork
  parent : Bool → Bytes → Bytes → Fork

pub record QueueWorker : Type 0 where
  pub jobhandler : JobsHandler
  pub has_metrics : Bool
  pub queue_timeout : ℤ
  pub job_log_expire_seconds : ℤ
  pub fork_to_handle : Bool
  pub clean_successful_jobs_logs : Bool

-- The defaults of the members; no metrics callback is set.
pub new_worker : JobsHandler → QueueWorker
new_worker h = record {
  jobhandler = h;
  has_metrics = false;
  queue_timeout = pos 1;
  job_log_expire_seconds = pos 3600;
  fork_to_handle = false;
  clean_successful_jobs_logs = true;
}

-- What the surroundings give to one run: the functions of Poco, the outcome of fork() and wait(),
-- the time, and the text of the line about an exception.
pub record Surroundings : Type 0 where
  pub poco : Poco
  pub fork : Fork
  pub now : ℤ
  pub report : Bytes → Bytes

unfoldable pub process_retry_condition : QueueableJob → JobStatus
process_retry_condition job =
    if job.maxtries == 0
    then errorretry
    else if ltb job.tries job.maxtries
    then errorretry
    else errorremove

-- pid 0 is `child`.
unfoldable pub fork_process : QueueWorker → Surroundings → Fork
fork_process w env = if w.fork_to_handle then env.fork else child

abbrev last_exception : Bytes → Dict Bytes → Dict Bytes
last_exception e = insert (text "LastException") e

-- The first `try` of handle_job_run: the status, the run with its logs, and the job's data.
unfoldable pub run_or_wait :
    Surroundings → Instance → Dict Bytes → Fork → JobStatus × HandleRun × Dict Bytes
unfolding process_retry_condition
run_or_wait env i datamap fork_failed = (
  errexcept,
  record { outcome = ok tt; job = i.job; out = []; err = [] },
  last_exception (text "Fork failed") datamap,
)
run_or_wait env i datamap child = let (result, r) = handle env.report i in (result, r, datamap)
run_or_wait env i datamap (parent clean out err) = (
  if clean then noerror else process_retry_condition i.job,
  record { outcome = ok tt; job = i.job; out = out; err = err },
  datamap,
)

abbrev pub is_noerror : JobStatus → Bool
is_noerror noerror = true
is_noerror _ = false

abbrev is_child : Fork → Bool
is_child child = true
is_child _ = false

abbrev when : {S : Type 0} → Bool → M S (Unit {0}) → M S (Unit {0})
when b m = if b then m else pure tt

module _ (q : GenericQueue) where
  -- The second half of handle_job_run, behind the run.
  unfoldable pub finish_run :
      QueueWorker
      → Surroundings
      → Bytes
      → JobStatus × HandleRun × Dict Bytes
      → M q.State (JobStatus × QueueableJob × Dict Bytes)
  unfolding fork_process
  finish_run w env jobname (result, r, datamap) = do
    when (not (is_noerror result) && ltb_ℤ (pos 0) r.job.retry_after) (
        call_caught
          (q.set_persistent_data jobname ((text "retryAfter", to_string_ℤ r.job.retry_after) ∷ [])))
    (if w.fork_to_handle && is_child (fork_process w env)
        then exited result
        else pure (result, r.job, save_job_log r.out r.err (erase (text "retryAfter") datamap)))

  -- A payload with no uuid throws behind the increment of the tries; the answer is then the one
  -- that the `catch` of `work` gives.
  unfoldable pub handle_job_run :
      QueueWorker
      → Surroundings
      → Instance
      → Members
      → Dict Bytes
      → Bytes
      → M q.State (JobStatus × QueueableJob × Dict Bytes)
  unfolding fork_process run_or_wait finish_run
  handle_job_run w env i json datamap jobname =
      let counted = record (i.job) { tries = (i.job.tries + 1) % 2 ^ 64 } in
      let j = record i { job = counted } in
      elim (env.poco.to_text (get (text "uuid") json)) [
        | thrown e ↦ pure (errexcept, counted, datamap)
        | ok uuid ↦ finish_run w env jobname (run_or_wait env j datamap (fork_process w env))
      ]
