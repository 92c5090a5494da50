-- ===== src/Tests/Worker.antt =====
-- src/jobhandler on one job, over the queues in memory.
use cppapiframework.Common.{
  ℕ, ◌+◌, ◌^◌, ◌<◌, ◌≡◌, refl, inr, true, false, [], ◌∷◌, arith, Bytes, text, str_eq, ltb,
  replicate, if◌then◌else◌,
}
use cppapiframework.Common.Dict.{Dict, lookup}
use cppapiframework.Common.Int.{ℤ, pos, negsuc, ◌+ℤ◌}
use cppapiframework.Common.Decimal.{to_string, stoll}
use cppapiframework.Common.Outcome.{Outcome, ok, thrown}
use cppapiframework.Json.{
  Var, number, string, object, Members, no_members, member, Poco, Converts, find_member, get, has,
  set_member,
}
use cppapiframework.Queues.StdQueue.{StdQueue}
use cppapiframework.Queues.StdQueue.Laws.{std_queue, std_view, std_queue-IsLawful}
use cppapiframework.Jobs.Job.{QueueableJob, dump_json, from_json}
use cppapiframework.Jobs.Job.RoundTrip.{from_json-dump_json}
use cppapiframework.Jobs.Handler.{errorretry, JobClass, get_object, instance_job_fn}
use cppapiframework.Jobs.Flow.{World, done}
use cppapiframework.Jobs.Worker.{QueueWorker, Surroundings, child}
use cppapiframework.Jobs.Worker.Payload.{parse_payload}
use cppapiframework.Jobs.Worker.Loop.{loop}
use cppapiframework.Jobs.Worker.Retries.{IsPayload, AlwaysFails, with_tries}
use cppapiframework.Jobs.Worker.Retries.Rounds.{Waiting, loop-Waiting}
use cppapiframework.Jobs.Worker.Work.{work}
use cppapiframework.Jobs.Worker.Work.Laws.{Ends, work-Ends}
use cppapiframework.Jobs.Worker.Results.{process_job_result}
use cppapiframework.Jobs.Worker.Results.Laws.{Processed, AgainFits, process_job_result-Processed}

abbrev as_text : Var → Outcome Bytes
as_text (string s) = ok s
as_text _ = thrown (text "Bad cast")

abbrev as_u64 : Var → Outcome ℕ
as_u64 (number (pos n)) = ok n
as_u64 _ = thrown (text "Out of range")

abbrev as_i64 : Var → Outcome ℤ
as_i64 (number z) = ok z
as_i64 _ = thrown (text "Out of range")

-- The payload of the one job.
abbrev payload : Members
payload = member (text "uuid") (string (text "u1")) (
    member (text "className") (string (text "mail"))
      (member (text "data") (object no_members) no_members))

abbrev poco : Poco
poco = record {
  parse = λ s. ok (object payload);
  to_text = as_text;
  to_u64 = as_u64;
  to_i64 = as_i64;
}

poco-Converts : Converts poco
poco-Converts = record {
  to_text-string = λ s. refl;
  to_u64-number = λ n h. refl;
  to_i64-number = λ z h k. refl;
}

abbrev job : QueueableJob
job = record {
  tries = 2;
  maxtries = 5;
  retry_after = negsuc 0;
  failed = false;
  fields = no_members;
}

abbrev old_job : QueueableJob
old_job = record {
  tries = 0;
  maxtries = 3;
  retry_after = pos 0;
  failed = false;
  fields = no_members;
}

-- A job that always throws.
abbrev mail : JobClass
mail = record {
  get_name = text "mail";
  make = old_job;
  from_json = λ ms j. from_json poco ms j;
  dump_fields = λ j ms. ms;
  handle = λ j. record { outcome = thrown (text "no server"); job = j; out = []; err = [] };
}

abbrev worker : QueueWorker
worker = record {
  jobhandler = record { joblist = (text "mail", mail) ∷ [] };
  has_metrics = true;
  queue_timeout = pos 1;
  job_log_expire_seconds = pos 3600;
  fork_to_handle = false;
  clean_successful_jobs_logs = true;
}

abbrev surroundings : Surroundings
surroundings = record { poco = poco; fork = child; now = pos 100; report = λ e. e }

abbrev key : Bytes
key = text "job_instance:u1"

abbrev entries : Dict Bytes
entries =
    (text "tries", text "0")
    ∷ (text "maxtries", text "3")
    ∷ (text "payload", text "{}")
    ∷ (text "className", text "mail")
    ∷ []

abbrev store : StdQueue
store = record {
  queue_map = (text "q", []) ∷ [];
  later_queue_map = [];
  persistentdata = (key, entries) ∷ [];
}

abbrev world : World StdQueue
world = record { store = store; events = [] }

-- A job that asks for a minute's delay.
abbrev delayed_world : World StdQueue
delayed_world = record world {
  store = record store { persistentdata = (key, (text "retryAfter", text "60") ∷ entries) ∷ [] };
}

delayed-Fits :
    AgainFits std_queue std_view std_queue-IsLawful worker
      (pos 100)
      (text "q")
      key
      entries
      delayed_world
      errorretry
unfolding lookup str_eq stoll ◌+ℤ◌
delayed-Fits = inr (omega arith, omega arith)

process_job_result-Processed_example :
    (after : World StdQueue) × (process_job_result std_queue worker
        (pos 100)
        (text "q")
        key
        entries
        errorretry
        delayed_world
      ≡ done tt after)
    × Processed std_queue std_view std_queue-IsLawful worker
        (pos 100)
        (text "q")
        key
        entries
        delayed_world
        errorretry
        after
process_job_result-Processed_example =
    process_job_result-Processed std_queue std_view std_queue-IsLawful worker (pos 100) (text "q")
      key entries delayed_world errorretry delayed-Fits

work-Ends_example : Ends (work std_queue worker surroundings (text "q") key entries world)
work-Ends_example = work-Ends std_queue worker surroundings (text "q") key entries world

from_json-dump_json_example :
    from_json poco (dump_json job) old_job
    ≡ ok (record old_job { tries = 2; maxtries = 5; retry_after = negsuc 0 })
from_json-dump_json_example =
    from_json-dump_json poco job old_job poco-Converts (omega arith) (omega arith) (omega arith)
      (omega arith)

-- The job is in its queue, with no try gone of three.
abbrev waiting : World StdQueue
waiting = record world { store = record store { queue_map = (text "q", key ∷ []) ∷ [] } }

mail-IsPayload : IsPayload poco worker.jobhandler mail no_members (text "{}")
unfolding parse_payload get_object instance_job_fn lookup has get find_member str_eq
mail-IsPayload = record {
  json = payload;
  uuid = text "u1";
  name = text "mail";
  parsed = refl;
  identified = refl;
  has_data = refl;
  named = refl;
  registered = refl;
}

abbrev mail_job : ℕ → ℕ → QueueableJob
mail_job t m = record old_job { tries = t; maxtries = m }

mail-reads :
    (t m : ℕ)
    → t < 2 ^ 64
    → m < 2 ^ 64
    → from_json poco (with_tries t m no_members) old_job ≡ ok (mail_job t m)
unfolding from_json has get set_member find_member str_eq
mail-reads t m h h' = refl

mail-AlwaysFails : AlwaysFails mail no_members
mail-AlwaysFails = record {
  job_of = mail_job;
  reads = mail-reads;
  tries_read = λ t m. refl;
  maxtries_read = λ t m. refl;
  throws = λ j. (text "no server", refl);
  tries_same = λ j. refl;
  maxtries_same = λ j. refl;
  no_delay_read = λ t m. refl;
  no_retry_after = λ j h. h;
}

waiting-Waiting : Waiting std_queue std_view (text "q") key (text "{}") 3 0 [] waiting
unfolding lookup str_eq to_string
waiting-Waiting = record {
  in_queue = refl;
  data_kept = record {
    tries = refl;
    maxtries = refl;
    payload_kept = refl;
    class_kept = (text "mail", refl);
    no_delay = refl;
  };
}

loop-Waiting_example :
    (final : World StdQueue) × (loop std_queue worker (replicate 3 surroundings) (text "q") waiting
      ≡ done tt final)
    × (std_view.pending final.store (text "q") ≡ (if ltb (0 + 3) 3 then key ∷ [] else []))
loop-Waiting_example =
    loop-Waiting std_queue std_view std_queue-IsLawful worker surroundings (text "q") key
      (text "{}") mail no_members mail-IsPayload mail-AlwaysFails 3 (omega arith) refl refl 3 0
      waiting (omega arith) (omega arith) waiting-Waiting
