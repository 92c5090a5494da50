-- ===== src/Lib.antt =====
-- Verification library of the C++ API framework: models of its job system, borrow pool, web socket
-- frames, text helpers, input validators, struct parser, JSON text, SQL queries, migrations,
-- controllers and circular buffer, and what is proved of them.
--
-- Parts, and the files that model them (paths from the repository's root):
--   Common, and below it: Boolean tests, native lists, text as bytes, dictionaries, signed
--     integers, decimal numbers, and outcomes (a value or an exception).
--   BorrowPool: src/utils/BorrowPool.hpp. BorrowPool.antt has the calls one after the other
--     (getValidPos, disownBorrowed, the handles, borrow), BorrowPool/Threads.antt the same calls
--     split at their atomic operations, with a schedule as a list of threads.
--   Queues: src/queues/GenericQueue.hpp as a record of operations with its laws, and
--     src/queues/StdQueue.hpp and .cpp, which fill them. Times are nanoseconds.
--   Json: the values of Poco::JSON; Poco's parser and conversions are a parameter.
--     Json/Stringify.antt is src/utils/PocoJsonStringify.hpp; below it are a reader of JSON text
--     that is independent of the code, and the proofs that it reads what is written.
--   Jobs: src/jobhandler. Job.antt is QueueableJob, Handler.antt JobsHandler, Metrics.antt the
--     callbacks as events, Worker.antt and the files below it QueueWorker: handle_job_run, work,
--     process_job_result, push, do_one and loop. The worker runs over any queue service; a piece
--     of its code ends with a value, by an exception, or by the exit of the forked process.
--     Worker/Retries.antt and the files below it follow a job that always fails through the rounds.
--   WebSocket: src/WebSocket/WebSocketHandler.hpp and .cpp. Frame.antt is receiveData with one
--     turn of its loop as `turn`; Frame/Input.antt is onInput, with onMessage set.
--   Text: explode, split, join and url_decode of src/utils/Strutils.hpp, and in Format.antt
--     multiRegister of src/utils/StrFormat.hpp.
--   Validation: Rules.antt is src/utils/InputValidators.hpp and .cpp, Input.antt
--     src/utils/ControllerInputValidator.hpp with ObjectValidator.
--   StructParser: src/JSON. Target.antt has the types and the objects in memory, with pointers as
--     positions; Filler.antt the fillers, Machine.antt the class StructParser as a function on
--     events, Sorting.antt the sort of the field list. Document.antt says which events describe
--     an object, and Types.antt when an object has a type.
--   Sql: the quoting of values and the insert queries of src/Database/CSql.hpp; Literals.antt has
--     a reader of quoted values that is independent of the code.
--   Migrations: src/Database/DBMigrate.cpp and Migration.hpp with the queries of Sql, over the
--     driver's calls on a server whose state is a parameter. Steps.antt says which calls make a
--     migration, and Passes.antt which calls make a run.
--   Circle: src/utils/CircleMTIO.hpp, one call after the other.
--   WebInterface: src/WebInterface/CController.cpp and .hpp with src/utils/Validator.hpp: a step
--     changes the response writer and ends with a value or an exception. Address.antt is the
--     address of a peer, Hash.antt the hash of an object, Input.antt input_json; Routes.antt is
--     httpwrappers.hpp.
--   Tests: runs at concrete inputs.
--
-- Bounds and fuel: size_t counters wrap at 2 ^ 64 where the code increments or decrements them.
-- The time at which a job is tried again is computed in int64_t, with the two's complement value
-- where C++ leaves an overflow undefined; what is proved of that time asks for no overflow.
-- `use_byte` takes at most four turns for a byte, and `explode_loop` one turn for each byte of the
-- text; the theorems about them show that this is enough. `input_loop` and `loop` take the number
-- of turns, or the rounds, that are looked at.
--
-- Parameters: Poco's parser and conversions, fork and wait, the time, the uuid generator, the
-- virtual functions of a class of jobs, the pattern of the e-mail rule, the callbacks of rules, the
-- conversions of Poco's held values and the names of types, the database driver, the digests, and
-- what Pistache says of a request. A response writer takes every response that it is given.
--
-- Not modelled: the Redis queue, whose behaviour is in Lua scripts, sockets and the HTTP
-- server, the sending of files, the database's connections, logging and configuration.
pub mod Common
pub mod BorrowPool
pub mod Queues
pub mod Json
pub mod Jobs
pub mod WebSocket
pub mod StructParser
pub mod Circle
pub mod WebInterface
pub mod Sql
pub mod Migrations
pub mod Text
pub mod Validation
pub mod Tests
