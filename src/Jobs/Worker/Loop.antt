-- ===== src/Jobs/Worker/Loop.antt =====
-- src/jobhandler/QueueWorker.hpp, src/jobhandler/QueueWorker.cpp: a job's way into the queue, and
-- the worker's way through it.
use cppapiframework.Common.{
  ℕ, ◌+◌, Bool, true, false, Option, none, some, List, [], ◌∷◌, ◌++◌, if◌then◌else◌, Bytes, text,
  is_empty,
}
use cppapiframework.Common.Dict.{Dict, lookup, insert}
use cppapiframework.Common.Int.{ℤ, is_zero}
use cppapiframework.Common.Decimal.{to_string, to_string_ℤ}
use cppapiframework.Common.Outcome.{or_throw}
use cppapiframework.Json.{string, Members, set_member}
use cppapiframework.Queues.{GenericQueue}
use cppapiframework.Jobs.Handler.{Instance, create_jobpayload}
use cppapiframework.Jobs.Metrics.{queued}
use cppapiframework.Jobs.Flow.{M, pure, ◌>>=◌, ◌>>◌, notify, call, query}
use cppapiframework.Jobs.Worker.{QueueWorker, Surroundings, when}
use cppapiframework.Jobs.Worker.Work.{work}
use cppapiframework.Jobs.Worker.Results.{process_job_result}

abbrev or_empty_text : Option Bytes → Bytes
or_empty_text none = []
or_empty_text (some v) = v

abbrev pub is_epoch : ℤ → Bool
is_epoch = is_zero

module _ (q : GenericQueue) (w : QueueWorker) where
  -- The entry that `push` keeps for a job. `to_json` is PocoJsonStringify::JsonToString.
  unfoldable pub job_entry : (Members → Bytes) → ℤ → Bytes → Bytes → Instance → Dict Bytes
  job_entry to_json now type_name uuid i =
      (text "tries", text "0")
      ∷ (text "maxtries", to_string i.job.maxtries)
      ∷ (
        text "payload",
        to_json (set_member (text "uuid") (string uuid) (create_jobpayload type_name i)),
      )
      ∷ (text "created_at_unixt", to_string_ℤ now)
      ∷ (text "className", i.cls.get_name)
      ∷ []

  -- The uuid is the generator's; `now` is time(nullptr).
  unfoldable pub push :
      (Members → Bytes) → ℤ → Bytes → Bytes → Bytes → Instance → ℤ → M q.State Bytes
  unfolding job_entry
  push to_json now type_name uuid queue i scheduled_at =
      let persistentkey = text "job_instance:" ++ uuid in
      do
        call (q.set_persistent_data persistentkey (job_entry to_json now type_name uuid i))
        (if is_epoch scheduled_at
            then call (q.push queue persistentkey)
            else call (q.push_to_later queue persistentkey scheduled_at))
        when w.has_metrics (notify (queued queue i.cls.get_name uuid))
        pure uuid

  unfoldable pub pop : Bytes → ℤ → M q.State Bytes
  pop queue timeout = do payload ← call (q.pop queue timeout); pure (or_empty_text payload)

  unfoldable pub do_one_job : Surroundings → Bytes → Bytes → M q.State Bool
  do_one_job env queue jobname = if is_empty jobname then pure false else (do
    jobdata ← query (q.get_persistent_data jobname)
    (workresult, jobdata') ← work q w env queue jobname jobdata
    process_job_result q w env.now queue jobname jobdata' workresult
    pure true)

  unfoldable pub do_one : Surroundings → Bytes → M q.State Bool
  unfolding pop do_one_job
  do_one env queue = do
    jobpayload ← pop queue w.queue_timeout
    (if is_empty jobpayload then pure false else do_one_job env queue jobpayload)

  -- `loop`, with the surroundings of each round for which `running` holds.
  unfoldable pub loop : List Surroundings → Bytes → M q.State (Unit {0})
  loop [] queue = pure tt
  loop (env ∷ rounds) queue = do _ ← do_one env queue; loop rounds queue

  -- ++result[className]
  abbrev count_one : Bytes → Dict ℕ → Dict ℕ
  count_one name result = elim (lookup name result) [
    | none ↦ insert name 1 result
    | some n ↦ insert name (n + 1) result
  ]

  unfoldable pub count_types : List Bytes → Dict ℕ → M q.State (Dict ℕ)
  count_types [] result = pure result
  count_types (jobname ∷ jobs) result = do
    jobdata ← query (q.get_persistent_data jobname)
    name ← query (λ s. or_throw (text "out_of_range") (lookup (text "className") jobdata))
    count_types jobs (count_one name result)

  unfoldable pub get_number_of_pendent_job_types : Bytes → M q.State (Dict ℕ)
  unfolding count_types
  get_number_of_pendent_job_types queue = do
    jobs ← query (q.get_full_queue queue)
    count_types jobs []
