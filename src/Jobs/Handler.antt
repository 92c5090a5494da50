-- ===== src/Jobs/Handler.antt =====
-- src/jobhandler/JobsHandler.hpp, src/jobhandler/JobsHandler.cpp: the registered classes of jobs,
-- their instances, and one run of a job with its logs.
use cppapiframework.Common.{
  Bool, true, false, none, some, [], ◌∷◌, ◌++◌, ◌==◌, if◌then◌else◌, Bytes, text,
}
use cppapiframework.Common.Dict.{Dict, lookup, insert}
use cppapiframework.Common.Outcome.{Outcome, ok, thrown, or_throw, ◌>>=◌}
use cppapiframework.Json.{string, object, Members, no_members, get, set_member, Poco}
use cppapiframework.Jobs.Job.{QueueableJob, dump_json}

pub data JobStatus : Type 0 where
  noerror errorremove errorretry errexcept : JobStatus

-- What a call of `handle` of a job does: its exception if it throws one, the job after it, and
-- what it wrote to the two streams.
pub record HandleRun : Type 0 where
  pub outcome : Outcome (Unit {0})
  pub job : QueueableJob
  pub out : Bytes
  pub err : Bytes

-- A class derived from QueueableJob, by its virtual functions.
pub record JobClass : Type 0 where
  pub get_name : Bytes
  pub make : QueueableJob
  pub from_json : Members → QueueableJob → Outcome QueueableJob
  pub dump_fields : QueueableJob → Members → Members
  pub handle : QueueableJob → HandleRun

-- A shared_ptr to a job: its class and its members.
pub record Instance : Type 0 where
  pub cls : JobClass
  pub job : QueueableJob

pub record JobsHandler : Type 0 where
  pub joblist : Dict JobClass

pub is_job_registered_name : Bytes → JobsHandler → Bool
is_job_registered_name jobname h = elim (lookup jobname h.joblist) [ none ↦ false | some c ↦ true ]

pub register_job_handler : Bytes → JobClass → JobsHandler → Outcome JobsHandler
register_job_handler jobname c h = elim (lookup jobname h.joblist) [
  | some _ ↦ thrown (text "Job já cadastrado na lista: " ++ jobname)
  | none ↦ ok (record { joblist = insert jobname c h.joblist })
]

unfoldable pub instance_job_fn : Bytes → JobsHandler → Outcome JobClass
instance_job_fn jobname h = or_throw (text "out_of_range") (lookup jobname h.joblist)

-- getObject: a member that is no object is a null pointer, whose use throws.
unfoldable pub get_object : Bytes → Members → Outcome Members
get_object key json = elim (get key json) [ object ms ↦ ok ms | _ ↦ thrown (text "Null pointer") ]

unfoldable pub instance_from_payload : Poco → JobsHandler → Members → Outcome Instance
instance_from_payload poco h payload = do
  name ← poco.to_text (get (text "className") payload)
  c ← instance_job_fn name h
  ms ← get_object (text "data") payload
  job ← c.from_json ms c.make
  ok (record { cls = c; job = job })

pub create_jobpayload : Bytes → Instance → Members
create_jobpayload type_name i =
    set_member (text "data") (object (i.cls.dump_fields i.job (dump_json i.job)))
      (set_member (text "className") (string type_name) no_members)

-- `report` is the line that the handler writes to the redirected std::cerr about an exception.
unfoldable pub handle : (Bytes → Bytes) → Instance → JobStatus × HandleRun
handle report i =
    let r = i.cls.handle i.job in
    elim r.outcome [
      | ok _ ↦ (noerror, r)
      | thrown e ↦ (errexcept, record r { err = r.err ++ report e })
    ]

-- putLogInDataMap: the lines of the log, each with its end of line; `line` holds whether a line
-- has begun.
log_lines : Bool → Bytes → Bytes
log_lines line [] = if line then b'\n' ∷ [] else []
log_lines line (c ∷ s) = c ∷ log_lines (if c == b'\n' then false else true) s

unfoldable pub put_log_in_data_map : Bytes → Bytes → Dict Bytes → Dict Bytes
unfolding log_lines
put_log_in_data_map joblog key datamap = insert key (log_lines false joblog) datamap

unfoldable pub save_job_log : Bytes → Bytes → Dict Bytes → Dict Bytes
save_job_log out err datamap =
    put_log_in_data_map out (text "JobStdout") (put_log_in_data_map err (text "JobStderr") datamap)
