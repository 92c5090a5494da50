-- ===== src/Jobs/Job.antt =====
-- src/jobhandler/QueueableJob.hpp, src/jobhandler/QueueableJob.cpp: the base class of the jobs.
pub mod RoundTrip
use cppapiframework.Common.{ℕ, Bool, true, false, ◌++◌, if◌then◌else◌, Bytes, text}
use cppapiframework.Common.Int.{ℤ, pos}
use cppapiframework.Common.Outcome.{Outcome, ok, ◌>>=◌}
use cppapiframework.Json.{Var, number, Members, no_members, get, has, set_member, Poco}

-- The members of the base class; `fields` are those of the derived class, as JSON.
pub record QueueableJob : Type 0 where
  pub tries : ℕ
  pub maxtries : ℕ
  pub retry_after : ℤ
  pub failed : Bool
  pub fields : Members

-- The default member initializers.
pub new_job : QueueableJob
new_job = record {
  tries = 0;
  maxtries = 3;
  retry_after = pos 0;
  failed = false;
  fields = no_members;
}

-- The framework's version, a setting of the build, joined to the name of the type.
pub concat_job_system_version : Bytes → Bytes → Bytes
concat_job_system_version version str = str ++ version

pub set_max_tries : ℕ → QueueableJob → QueueableJob
set_max_tries n job = record job { maxtries = n }

pub set_retry_after : ℤ → QueueableJob → QueueableJob
set_retry_after seconds job = record job { retry_after = seconds }

pub dump_json : QueueableJob → Members
dump_json job = set_member (text "retryAfter") (number job.retry_after) (
    set_member (text "maxtries") (number (pos job.maxtries))
      (set_member (text "tries") (number (pos job.tries)) no_members))

-- One `if (json->has(key)) field = json->getValue<T>(key);`
abbrev read_if_present : {A : Type 0} → (Var → Outcome A) → Bytes → Members → A → Outcome A
read_if_present convert key json old = if has key json then convert (get key json) else ok old

unfoldable pub from_json : Poco → Members → QueueableJob → Outcome QueueableJob
from_json poco json job = do
  tries ← read_if_present poco.to_u64 (text "tries") json job.tries
  maxtries ← read_if_present poco.to_u64 (text "maxtries") json job.maxtries
  retry_after ← read_if_present poco.to_i64 (text "retryAfter") json job.retry_after
  ok (record job { tries = tries; maxtries = maxtries; retry_after = retry_after })
