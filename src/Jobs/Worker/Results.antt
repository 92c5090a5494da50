-- ===== src/Jobs/Worker/Results.antt =====
-- src/jobhandler/QueueWorker.hpp: process_job_result, which drops, keeps or queues the job again.
pub mod Again
pub mod Laws
use cppapiframework.Common.{
  ℕ, ◌+◌, Bool, true, false, ◌&&◌, not, Option, none, some, List, [], ◌∷◌, if◌then◌else◌, Bytes,
  text, is_empty, starts_with, drop,
}
use cppapiframework.Common.Dict.{Dict, lookup}
use cppapiframework.Common.Int.{ℤ, pos, is_zero, ◌+ℤ◌, to_int64}
use cppapiframework.Common.Decimal.{stoull, stoll}
use cppapiframework.Common.Outcome.{Outcome, ok, thrown}
use cppapiframework.Queues.{GenericQueue, seconds}
use cppapiframework.Jobs.Handler.{JobStatus, noerror, errorremove, errorretry, errexcept}
use cppapiframework.Jobs.Metrics.{retried, removed}
use cppapiframework.Jobs.Flow.{
  World, Flow, done, raised, exited, M, pure, ◌>>=◌, ◌>>◌, notify, call, call_caught,
}
use cppapiframework.Jobs.Worker.{QueueWorker, when}

abbrev job_prefix : Bytes
job_prefix = text "job_instance:"

-- The uuid behind "job_instance:".
pub uuid_of : Bytes → Bytes
uuid_of jobname = if starts_with jobname job_prefix then drop 13 jobname else []

abbrev or_zero : Option ℕ → ℕ
or_zero none = 0
or_zero (some n) = n

-- The tries in the job's data, 0 if they are missing or no number.
pub tries_of : Dict Bytes → ℕ
tries_of datamap = elim (lookup (text "tries") datamap) [ none ↦ 0 | some v ↦ or_zero (stoull v) ]

abbrev or_default : Option Bytes → Bytes
or_default none = []
or_default (some v) = v

-- The delay that the service keeps for the job, 0 if there is none, if it is no number, or if the
-- service throws.
retry_after_of : Outcome (Option Bytes) → ℤ
retry_after_of (ok (some v)) = elim (stoll v) [ none ↦ pos 0 | some n ↦ n ]
retry_after_of _ = pos 0

-- A time_point and std::chrono::seconds: the conversion and the sum are in int64_t.
unfoldable pub after_seconds : ℤ → ℤ → ℤ
unfolding to_int64
after_seconds time n = to_int64 (time +ℤ to_int64 (seconds n))

module _ (q : GenericQueue) (w : QueueWorker) (now : ℤ) (queue jobname : Bytes)
    (datamap : Dict Bytes) where
  abbrev class_name : Bytes
  class_name = or_default (lookup (text "className") datamap)

  abbrev reports : Bool
  reports = w.has_metrics && not (is_empty class_name)

  unfoldable pub retry_after : World q.State → ℤ
  unfolding retry_after_of
  retry_after world =
      retry_after_of (q.get_persistent_data_field jobname (text "retryAfter") world.store)

  -- setPersistentData and expire, whose result is dropped
  keep_log : M q.State (Unit {0})
  keep_log = do
    call (q.set_persistent_data jobname datamap)
    _ ← call (q.expire jobname w.job_log_expire_seconds)
    pure tt

  unfoldable pub queue_again : ℤ → M q.State (Unit {0})
  unfolding uuid_of tries_of after_seconds
  queue_again after = do
    call (q.set_persistent_data jobname datamap)
    when reports (notify (retried queue class_name (uuid_of jobname) (tries_of datamap) after))
    (if is_zero after
        then call (q.push queue jobname)
        else call (q.push_to_later queue jobname (after_seconds now after)))

  unfoldable pub process_job_result : JobStatus → M q.State (Unit {0})
  unfolding keep_log queue_again retry_after uuid_of tries_of
  process_job_result noerror =
      if w.clean_successful_jobs_logs then call (q.del_persistent_data jobname) else keep_log
  process_job_result errorremove = do
    keep_log
    when reports
        (notify (removed queue class_name (uuid_of jobname) errorremove (tries_of datamap)))
  process_job_result errorretry = λ world. queue_again (retry_after world) world
  process_job_result errexcept = λ world. queue_again (retry_after world) world
