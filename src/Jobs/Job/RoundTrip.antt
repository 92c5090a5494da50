-- ===== src/Jobs/Job/RoundTrip.antt =====
-- What a job dumps, a job reads back.
use cppapiframework.Common.{◌^◌, ◌≤◌, ◌<◌, ◌≡◌, str_eq}
use cppapiframework.Common.Int.{pos_part, neg_part}
use cppapiframework.Common.Outcome.{ok}
use cppapiframework.Json.{get, has, set_member, find_member, Poco, Converts}
use cppapiframework.Jobs.Job.{QueueableJob, dump_json, from_json}

-- The counters and the delay survive the trip through JSON, whatever the object that reads them
-- held before; the rest of that object is kept.
pub from_json-dump_json :
    (poco : Poco) (job old : QueueableJob)
    → Converts poco
    → job.tries < 2 ^ 64
    → job.maxtries < 2 ^ 64
    → pos_part job.retry_after < 2 ^ 63
    → neg_part job.retry_after ≤ 2 ^ 63
    → from_json poco (dump_json job) old
      ≡ ok
          (record old { tries = job.tries; maxtries = job.maxtries; retry_after = job.retry_after })
unfolding from_json dump_json has get set_member find_member str_eq
from_json-dump_json poco job old c ht hm hp hn = rw (
  c.to_u64-number job.tries ht,
  c.to_u64-number job.maxtries hm,
  c.to_i64-number job.retry_after hp hn,
)
