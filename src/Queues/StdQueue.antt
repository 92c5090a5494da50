-- ===== src/Queues/StdQueue.antt =====
-- src/queues/StdQueue.hpp, src/queues/StdQueue.cpp: the queues in memory.
pub mod Laws
use cppapiframework.Common.{
  ℕ, zero, suc, ◌≡◌, Bool, true, false, Option, none, some, List, [], ◌∷◌, ◌++◌, if◌then◌else◌,
  Bytes, text, length,
}
use cppapiframework.Common.Dict.{Dict, lookup, insert, erase, insert_all}
use cppapiframework.Common.Int.{ℤ, pos, ltb_ℤ}
use cppapiframework.Common.Outcome.{Outcome, ok, thrown, or_throw, ◌>>=◌}

pub record ScheduledStdQueueData : Type 0 where
  pub content : Bytes
  pub due : ℤ

-- A std::priority_queue: its items in the order in which they leave it, by `operator<`, the
-- greatest first.
abbrev pub Heap : Type 0
Heap = List ScheduledStdQueueData

pub insert_heap : ScheduledStdQueueData → Heap → Heap
insert_heap x [] = x ∷ []
insert_heap x (y ∷ ys) = if ltb_ℤ y.due x.due then x ∷ y ∷ ys else y ∷ insert_heap x ys

pub record StdQueue : Type 0 where
  pub queue_map : Dict (List Bytes)
  pub later_queue_map : Dict Heap
  pub persistentdata : Dict (Dict Bytes)

abbrev pub or_empty {ℓ} : {A : Type ℓ} → Option (List A) → List A
or_empty none = []
or_empty (some xs) = xs

abbrev out_of_range : Bytes
out_of_range = text "out_of_range"

pub push : Bytes → Bytes → StdQueue → Outcome (Unit {0}) × StdQueue
push queue content q = (
  ok tt,
  record q {
    queue_map = insert queue (or_empty (lookup queue q.queue_map) ++ content ∷ []) q.queue_map;
  },
)

-- `due` in seconds
pub push_to_later : Bytes → Bytes → ℤ → StdQueue → Outcome (Unit {0}) × StdQueue
unfolding insert_heap
push_to_later queue content due q = (
  ok tt,
  record q {
    later_queue_map =
        insert queue
          (insert_heap (record { content = content; due = due })
            (or_empty (lookup queue q.later_queue_map)))
          q.later_queue_map;
  },
)

pub get_full_queue : Bytes → StdQueue → Outcome (List Bytes)
get_full_queue queue q = or_throw out_of_range (lookup queue q.queue_map)

-- The queue is made if it is not there.
pop_from : Bytes → StdQueue → List Bytes → Outcome (Option Bytes) × StdQueue
pop_from queue q [] = (ok none, record q { queue_map = insert queue [] q.queue_map })
pop_from queue q (front ∷ rest) =
    (ok (some front), record q { queue_map = insert queue rest q.queue_map })

pub pop : Bytes → ℤ → StdQueue → Outcome (Option Bytes) × StdQueue
unfolding pop_from
pop queue timeout q = pop_from queue q (or_empty (lookup queue q.queue_map))

pub get_name : StdQueue → Bytes
get_name q = text "in_memory"

pub get_num_queues : StdQueue → ℕ
get_num_queues q = length q.queue_map

pub get_queue_size : Bytes → StdQueue → Outcome ℕ
get_queue_size queue q = do xs ← or_throw out_of_range (lookup queue q.queue_map); ok (length xs)

pub get_later_queue_size : Bytes → StdQueue → Outcome ℕ
get_later_queue_size queue q = do
  xs ← or_throw out_of_range (lookup queue q.later_queue_map)
  ok (length xs)

-- top() of an empty heap is undefined; no operation leaves one behind.
top : Heap → Outcome ScheduledStdQueueData
top [] = thrown (text "undefined")
top (x ∷ xs) = ok x

pub get_later_queue_top : Bytes → StdQueue → Outcome ScheduledStdQueueData
unfolding top
get_later_queue_top queue q = do xs ← or_throw out_of_range (lookup queue q.later_queue_map); top xs

pub get_persistent_data : Bytes → StdQueue → Outcome (Dict Bytes)
get_persistent_data name q = or_throw out_of_range (lookup name q.persistentdata)

pub get_persistent_data_field : Bytes → Bytes → StdQueue → Outcome (Option Bytes)
get_persistent_data_field name field q = do
  val ← or_throw out_of_range (lookup name q.persistentdata)
  ok (lookup field val)

pub set_persistent_data : Bytes → Dict Bytes → StdQueue → Outcome (Unit {0}) × StdQueue
set_persistent_data name entries q = (
  ok tt,
  record q {
    persistentdata =
        insert name (insert_all entries (or_empty (lookup name q.persistentdata))) q.persistentdata;
  },
)

pub del_persistent_data : Bytes → StdQueue → Outcome (Unit {0}) × StdQueue
del_persistent_data name q = (ok tt, record q { persistentdata = erase name q.persistentdata })

pub is_connected : StdQueue → Bool
is_connected q = true

-- The base class's expire and ttl, which StdQueue inherits.
pub expire : Bytes → ℤ → StdQueue → Outcome Bool × StdQueue
expire name seconds q = (ok false, q)

pub ttl : Bytes → StdQueue → Outcome ℤ
ttl name q = ok (pos 0)
