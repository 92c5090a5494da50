-- ===== src/Jobs/Worker/Payload.antt =====
-- src/jobhandler/QueueWorker.cpp: what `work` reads from the job's data before it runs the job.
use cppapiframework.Common.{none, some, [], if◌then◌else◌, Bytes, text}
use cppapiframework.Common.Dict.{Dict, lookup, insert}
use cppapiframework.Common.Int.{pos}
use cppapiframework.Common.Decimal.{stoull}
use cppapiframework.Common.Outcome.{Outcome, ok, thrown, ◌>>=◌}
use cppapiframework.Json.{Var, number, object, Members, get, has, set_member, Poco}
use cppapiframework.Jobs.Handler.{get_object}

-- datamap[key]: an empty value is put in for a missing key.
abbrev pub index : Bytes → Dict Bytes → Bytes × Dict Bytes
index key datamap = elim (lookup key datamap) [
  | some v ↦ (v, datamap)
  | none ↦ ([], insert key [] datamap)
]

as_object : Var → Outcome Members
as_object (object ms) = ok ms
as_object _ = thrown (text "Bad cast")

-- The payload's object and its uuid, empty if it has none.
unfoldable pub parse_payload : Poco → Bytes → Outcome (Members × Bytes)
unfolding as_object
parse_payload poco payload = do
  v ← poco.parse payload
  json ← as_object v
  uuid ← (if has (text "uuid") json then poco.to_text (get (text "uuid") json) else ok [])
  ok (json, uuid)

-- One `dataobj->set(key, std::stoull(datamap[key]))`, with the data that the index leaves behind
-- whether the conversion throws or not.
abbrev set_counter : Bytes → Members → Dict Bytes → Outcome Members × Dict Bytes
set_counter key dataobj datamap =
    let (v, datamap') = index key datamap in
    elim (stoull v) [
      | none ↦ (thrown (text "stoull"), datamap')
      | some n ↦ (ok (set_member key (number (pos n)) dataobj), datamap')
    ]

-- The counters of the data go into the payload's "data".
unfoldable pub set_counters : Members → Dict Bytes → Outcome Members × Dict Bytes
set_counters json datamap = elim (get_object (text "data") json) [
  | thrown e ↦ (thrown e, datamap)
  | ok dataobj ↦
      let (tried, d) = set_counter (text "tries") dataobj datamap in
      elim tried [
        | thrown e ↦ (thrown e, d)
        | ok o ↦
            let (allowed, d') = set_counter (text "maxtries") o d in
            elim allowed [
              | thrown e ↦ (thrown e, d')
              | ok o' ↦ (ok (set_member (text "data") (object o') json), d')
            ]
      ]
]
