-- ===== src/Jobs/Worker/Retries.antt =====
-- src/jobhandler/QueueWorker.cpp: a job that fails in every run, from one round to the next.
pub mod Data
pub mod Work
pub mod Rounds
use cppapiframework.Common.{
  ℕ, ◌+◌, ◌^◌, ◌<◌, ◌≡◌, refl, Bool, none, some, if◌then◌else◌, Bytes, text, str_eq, str_eq_iff,
  arith, ltb, ◌==◌, ◌||◌, Option,
}
use cppapiframework.Common.Dict.{Dict, lookup}
use cppapiframework.Common.Int.{pos}
use cppapiframework.Common.Decimal.{to_string}
use cppapiframework.Common.Outcome.{ok, thrown}
use cppapiframework.Json.{
  Var, number, Members, no_members, member, find_member, get, set_member, Poco,
}
use cppapiframework.Jobs.Job.{QueueableJob}
use cppapiframework.Jobs.Handler.{JobClass, JobsHandler, get_object, instance_job_fn}
use cppapiframework.Jobs.Worker.Payload.{parse_payload}

-- The data that are kept for a job after `t` of its `m` tries.
pub record Kept (payload : Bytes) (t m : ℕ) (d : Dict Bytes) : Type 0 where
  pub tries : lookup (text "tries") d ≡ some (to_string t)
  pub maxtries : lookup (text "maxtries") d ≡ some (to_string m)
  pub payload_kept : lookup (text "payload") d ≡ some payload
  pub class_kept : (cls : Bytes) × (lookup (text "className") d ≡ some cls)
  pub no_delay : lookup (text "retryAfter") d ≡ none

-- The payload is an object with a uuid, data and the name of a registered class.
pub record IsPayload (poco : Poco) (h : JobsHandler) (c : JobClass) (dataobj : Members)
    (payload : Bytes) : Type 0 where
  pub json : Members
  pub uuid : Bytes
  pub name : Bytes
  pub parsed : parse_payload poco payload ≡ ok (json, uuid)
  pub identified : poco.to_text (get (text "uuid") json) ≡ ok uuid
  pub has_data : get_object (text "data") json ≡ ok dataobj
  pub named : poco.to_text (get (text "className") json) ≡ ok name
  pub registered : instance_job_fn name h ≡ ok c

abbrev pub with_tries : ℕ → ℕ → Members → Members
with_tries t m dataobj =
    set_member (text "maxtries") (number (pos m))
      (set_member (text "tries") (number (pos t)) dataobj)

-- A class whose jobs take over the counters, have no delay, and throw in every run, which changes
-- no counter and asks for no delay.
pub record AlwaysFails (c : JobClass) (dataobj : Members) : Type 0 where
  pub job_of : ℕ → ℕ → QueueableJob
  pub reads :
      (t m : ℕ)
      → t < 2 ^ 64
      → m < 2 ^ 64
      → c.from_json (with_tries t m dataobj) c.make ≡ ok (job_of t m)
  pub tries_read : (t m : ℕ) → (job_of t m).tries ≡ t
  pub maxtries_read : (t m : ℕ) → (job_of t m).maxtries ≡ m
  pub throws : (j : QueueableJob) → (e : Bytes) × ((c.handle j).outcome ≡ thrown e)
  pub tries_same : (j : QueueableJob) → (c.handle j).job.tries ≡ j.tries
  pub maxtries_same : (j : QueueableJob) → (c.handle j).job.maxtries ≡ j.maxtries
  pub no_delay_read : (t m : ℕ) → (job_of t m).retry_after ≡ pos 0
  pub no_retry_after :
      (j : QueueableJob) → j.retry_after ≡ pos 0 → (c.handle j).job.retry_after ≡ pos 0

-- A further try is allowed.
abbrev pub may_retry : ℕ → ℕ → Bool
may_retry t m = m == 0 || ltb t m

pub find_member-set_member :
    (k j : Bytes) (v : Var) (ms : Members)
    → find_member j (set_member k v ms) ≡ (if str_eq k j then some v else find_member j ms)
unfolding find_member set_member
find_member-set_member k j v no_members = refl
find_member-set_member k j v (member i w ms) =
    ground (arith, str_eq_iff k j, str_eq_iff i k, str_eq_iff i j, find_member-set_member k j v ms)
