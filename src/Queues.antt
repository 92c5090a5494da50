-- ===== src/Queues.antt =====
-- src/queues/GenericQueue.hpp: the interface of a queue service, with the laws that the worker
-- relies on. Times are nanoseconds since the epoch.
pub mod StdQueue
use mathlib.Core.List.{Perm}
use cppapiframework.Common.{
  ℕ, zero, suc, some, ◌+◌, ◌*◌, ◌/◌, ◌^◌, ◌≡◌, ◌⊎◌, Bool, Option, List, [], ◌∷◌, ◌++◌,
  if◌then◌else◌, Bytes, str_eq, is_empty, false,
}
use cppapiframework.Common.Dict.{Dict, lookup, insert_all}
use cppapiframework.Common.Int.{ℤ, pos, negsuc}
use cppapiframework.Common.Outcome.{Outcome, ok, thrown}

abbrev pub second : ℕ
second = 10 ^ 9

abbrev neg : ℕ → ℤ
neg zero = pos 0
neg (suc n) = negsuc n

-- duration_cast<seconds>, which rounds towards zero
abbrev pub to_seconds : ℤ → ℤ
to_seconds (pos n) = pos (n / second)
to_seconds (negsuc n) = neg (suc n / second)

-- std::chrono::seconds(n), as nanoseconds
abbrev pub seconds : ℤ → ℤ
seconds (pos n) = pos (n * second)
seconds (negsuc n) = neg (suc n * second)

-- The virtual functions. An operation returns its outcome and the service's next state.
pub record GenericQueue : Type 1 where
  pub State : Type 0
  pub push : Bytes → Bytes → State → Outcome (Unit {0}) × State
  pub push_to_later : Bytes → Bytes → ℤ → State → Outcome (Unit {0}) × State
  pub get_full_queue : Bytes → State → Outcome (List Bytes)
  pub pop : Bytes → ℤ → State → Outcome (Option Bytes) × State
  pub get_persistent_data : Bytes → State → Outcome (Dict Bytes)
  pub get_persistent_data_field : Bytes → Bytes → State → Outcome (Option Bytes)
  pub set_persistent_data : Bytes → Dict Bytes → State → Outcome (Unit {0}) × State
  pub del_persistent_data : Bytes → State → Outcome (Unit {0}) × State
  pub expire : Bytes → ℤ → State → Outcome Bool × State
  pub ttl : Bytes → State → Outcome ℤ

-- What a client sees of a service: the jobs that wait in a queue, those set aside for later with
-- their times, and the data kept under a name.
pub record View (q : GenericQueue) : Type 1 where
  pub pending : q.State → Bytes → List Bytes
  pub later : q.State → Bytes → List (Bytes × ℤ)
  pub persisted : q.State → Bytes → Dict Bytes

-- The laws of a service whose calls do not fail.
pub record IsLawful (q : GenericQueue) (v : View q) : Type 1 where
  pub push_ok : (n d : Bytes) (s : q.State) → (q.push n d s).0 ≡ ok tt
  pub pending-push :
      (n d : Bytes) (s : q.State) (m : Bytes)
      → v.pending (q.push n d s).1 m
        ≡ (if str_eq n m then v.pending s m ++ d ∷ [] else v.pending s m)
  pub later-push : (n d : Bytes) (s : q.State) → v.later (q.push n d s).1 ≡ v.later s
  pub persisted-push : (n d : Bytes) (s : q.State) → v.persisted (q.push n d s).1 ≡ v.persisted s
  pub push_to_later_ok : (n d : Bytes) (t : ℤ) (s : q.State) → (q.push_to_later n d t s).0 ≡ ok tt
  pub pending-push_to_later :
      (n d : Bytes) (t : ℤ) (s : q.State) → v.pending (q.push_to_later n d t s).1 ≡ v.pending s
  pub later-push_to_later :
      (n d : Bytes) (t : ℤ) (s : q.State) (m : Bytes)
      → Perm
          (v.later (q.push_to_later n d t s).1 m)
          (if str_eq n m then (d, to_seconds t) ∷ v.later s m else v.later s m)
  pub persisted-push_to_later :
      (n d : Bytes) (t : ℤ) (s : q.State) → v.persisted (q.push_to_later n d t s).1 ≡ v.persisted s
  pub pop_ok :
      (n : Bytes) (t : ℤ) (s : q.State) (d : Bytes) (rest : List Bytes)
      → v.pending s n ≡ d ∷ rest
      → (q.pop n t s).0 ≡ ok (some d)
  pub pending-pop :
      (n : Bytes) (t : ℤ) (s : q.State) (d : Bytes) (rest : List Bytes) (m : Bytes)
      → v.pending s n ≡ d ∷ rest
      → v.pending (q.pop n t s).1 m ≡ (if str_eq n m then rest else v.pending s m)
  pub persisted-pop :
      (n : Bytes) (t : ℤ) (s : q.State) → v.persisted (q.pop n t s).1 ≡ v.persisted s
  pub set_ok : (n : Bytes) (d : Dict Bytes) (s : q.State) → (q.set_persistent_data n d s).0 ≡ ok tt
  pub pending-set :
      (n : Bytes) (d : Dict Bytes) (s : q.State)
      → v.pending (q.set_persistent_data n d s).1 ≡ v.pending s
  pub later-set :
      (n : Bytes) (d : Dict Bytes) (s : q.State)
      → v.later (q.set_persistent_data n d s).1 ≡ v.later s
  pub persisted-set :
      (n : Bytes) (d : Dict Bytes) (s : q.State) (m : Bytes)
      → v.persisted (q.set_persistent_data n d s).1 m
        ≡ (if str_eq n m then insert_all d (v.persisted s m) else v.persisted s m)
  pub del_ok : (n : Bytes) (s : q.State) → (q.del_persistent_data n s).0 ≡ ok tt
  pub pending-del :
      (n : Bytes) (s : q.State) → v.pending (q.del_persistent_data n s).1 ≡ v.pending s
  pub later-del : (n : Bytes) (s : q.State) → v.later (q.del_persistent_data n s).1 ≡ v.later s
  pub persisted-del :
      (n : Bytes) (s : q.State) (m : Bytes)
      → v.persisted (q.del_persistent_data n s).1 m ≡ (if str_eq n m then [] else v.persisted s m)
  pub expire_ok : (n : Bytes) (t : ℤ) (s : q.State) → (b : Bool) × ((q.expire n t s).0 ≡ ok b)
  pub persisted-expire :
      (n : Bytes) (t : ℤ) (s : q.State) → v.persisted (q.expire n t s).1 ≡ v.persisted s
  pub pending-expire :
      (n : Bytes) (t : ℤ) (s : q.State) → v.pending (q.expire n t s).1 ≡ v.pending s
  pub later-expire : (n : Bytes) (t : ℤ) (s : q.State) → v.later (q.expire n t s).1 ≡ v.later s
  pub get_data :
      (n : Bytes) (s : q.State)
      → is_empty (v.persisted s n) ≡ false
      → q.get_persistent_data n s ≡ ok (v.persisted s n)
  pub get_field :
      (n k : Bytes) (s : q.State)
      → (q.get_persistent_data_field n k s ≡ ok (lookup k (v.persisted s n)))
        ⊎ (((e : Bytes) × (q.get_persistent_data_field n k s ≡ thrown e)) × (v.persisted s n ≡ []))
