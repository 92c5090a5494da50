-- ===== src/Queues/StdQueue/Laws.antt =====
-- The queues in memory meet the laws of the interface.
use mathlib.Core.List.{Perm}
use mathlib.Core.List.Perm
use cppapiframework.Common.{
  ◌≡◌, refl, ap, text, ◌⊎◌, inl, inr, false, Option, none, some, List, [], ◌∷◌, ◌++◌, map, arith,
  if◌then◌else◌, Bytes, str_eq, str_eq_iff, is_empty, Bool-cases,
}
use cppapiframework.Common.Dict.{
  Dict, lookup, insert, erase, insert_all, lookup-insert, lookup-erase,
}
use cppapiframework.Common.Int.{ℤ, ltb_ℤ}
use cppapiframework.Common.Outcome.{ok, thrown}
use cppapiframework.Queues.{GenericQueue, View, IsLawful, to_seconds}
use cppapiframework.Queues.StdQueue.{
  StdQueue, ScheduledStdQueueData, Heap, insert_heap, or_empty, push, push_to_later, get_full_queue,
  pop, get_persistent_data, get_persistent_data_field, set_persistent_data, del_persistent_data,
  expire, ttl,
}

abbrev pub std_queue : GenericQueue
std_queue = record {
  State = StdQueue;
  push = push;
  push_to_later = λ n d t. push_to_later n d (to_seconds t);
  get_full_queue = get_full_queue;
  pop = pop;
  get_persistent_data = get_persistent_data;
  get_persistent_data_field = get_persistent_data_field;
  set_persistent_data = set_persistent_data;
  del_persistent_data = del_persistent_data;
  expire = expire;
  ttl = ttl;
}

abbrev entry : ScheduledStdQueueData → Bytes × ℤ
entry x = (x.content, x.due)

abbrev pub std_view : View std_queue
std_view = record {
  pending = λ s n. or_empty (lookup n s.queue_map);
  later = λ s n. map entry (or_empty (lookup n s.later_queue_map));
  persisted = λ s n. or_empty (lookup n s.persistentdata);
}

insert_heap-perm : (x : ScheduledStdQueueData) (h : Heap) → Perm (insert_heap x h) (x ∷ h)
unfolding insert_heap
insert_heap-perm x [] = Perm.refl (x ∷ [])
insert_heap-perm x (y ∷ ys) = elim (Bool-cases (ltb_ℤ y.due x.due)) [
  | inl e ↦ rw e (Perm.refl _)
  | inr e ↦ rw e (Perm.trans (Perm.cons y (insert_heap-perm x ys)) (Perm.swap x y ys))
]

or_empty-insert :
    {A : Type 0} (n m : Bytes) (v : List A) (d : Dict (List A))
    → or_empty (lookup m (insert n v d)) ≡ (if str_eq n m then v else or_empty (lookup m d))
or_empty-insert n m v d = ground (arith, lookup-insert n m v d)

or_empty-erase :
    {A : Type 0} (n m : Bytes) (d : Dict (List A))
    → or_empty (lookup m (erase n d)) ≡ (if str_eq n m then [] else or_empty (lookup m d))
or_empty-erase n m d = ground (arith, lookup-erase n m d)

later-perm :
    (n m content : Bytes) (due : ℤ) (q : StdQueue)
    → Perm
        (std_view.later (push_to_later n content due q).1 m)
        (if str_eq n m then (content, due) ∷ std_view.later q m else std_view.later q m)
unfolding push_to_later
later-perm n m content due q = elim (Bool-cases (str_eq n m)) [
  | inl e ↦
      rw (or_empty-insert n m _ q.later_queue_map, e, ← (str_eq_iff n m).0 e)
        (Perm.map entry (insert_heap-perm _ (or_empty (lookup n q.later_queue_map))))
  | inr e ↦ rw (or_empty-insert n m _ q.later_queue_map, e) (Perm.refl _)
]

pop_head :
    (n : Bytes) (t : ℤ) (q : StdQueue) (d : Bytes) (rest : List Bytes)
    → std_view.pending q n ≡ d ∷ rest
    → pop n t q ≡ (ok (some d), record q { queue_map = insert n rest q.queue_map })
unfolding pop
pop_head n t q d rest e = ground arith

pop_keeps : (n : Bytes) (t : ℤ) (q : StdQueue) → (pop n t q).1.persistentdata ≡ q.persistentdata
unfolding pop
pop_keeps n t q = ground arith

field_of :
    (n k : Bytes) (o : Option (Dict Bytes)) (q : StdQueue)
    → lookup n q.persistentdata ≡ o
    → (get_persistent_data_field n k q ≡ ok (lookup k (std_view.persisted q n)))
      ⊎ (((e : Bytes) × (get_persistent_data_field n k q ≡ thrown e))
          × (std_view.persisted q n ≡ []))
unfolding get_persistent_data_field
field_of n k none q e = inr ((text "out_of_range", rw e), rw e)
field_of n k (some d) q e = inl (rw e)

data_of :
    (n : Bytes) (o : Option (Dict Bytes)) (q : StdQueue)
    → lookup n q.persistentdata ≡ o
    → is_empty (std_view.persisted q n) ≡ false
    → get_persistent_data n q ≡ ok (std_view.persisted q n)
unfolding get_persistent_data
data_of n none q e h = ground arith
data_of n (some d) q e h = rw e

pub std_queue-IsLawful : IsLawful std_queue std_view
unfolding push push_to_later get_persistent_data_field set_persistent_data del_persistent_data
    expire
std_queue-IsLawful = record {
  push_ok = λ n d s. refl;
  pending-push = λ n d s m. ground (
    arith,
    or_empty-insert n m (or_empty (lookup n s.queue_map) ++ d ∷ []) s.queue_map,
    str_eq_iff n m,
  );
  later-push = λ n d s. refl;
  persisted-push = λ n d s. refl;
  push_to_later_ok = λ n d t s. refl;
  pending-push_to_later = λ n d t s. refl;
  later-push_to_later = λ n d t s m. later-perm n m d (to_seconds t) s;
  persisted-push_to_later = λ n d t s. refl;
  pop_ok = λ n t s d rest e. ap (λ r. r.0) (pop_head n t s d rest e);
  pending-pop =
      λ n t s d rest m e. rw (pop_head n t s d rest e) (or_empty-insert n m rest s.queue_map);
  persisted-pop =
      λ n t s. ap {B = Bytes → Dict Bytes} (λ p k. or_empty (lookup k p)) (pop_keeps n t s);
  set_ok = λ n d s. refl;
  pending-set = λ n d s. refl;
  later-set = λ n d s. refl;
  persisted-set = λ n d s m. ground (
    arith,
    or_empty-insert n m (insert_all d (or_empty (lookup n s.persistentdata))) s.persistentdata,
    str_eq_iff n m,
  );
  del_ok = λ n s. refl;
  pending-del = λ n s. refl;
  later-del = λ n s. refl;
  persisted-del = λ n s m. or_empty-erase n m s.persistentdata;
  expire_ok = λ n t s. (false, refl);
  persisted-expire = λ n t s. refl;
  pending-expire = λ n t s. refl;
  later-expire = λ n t s. refl;
  get_data = λ n s h. data_of n (lookup n s.persistentdata) s refl h;
  get_field = λ n k s. field_of n k (lookup n s.persistentdata) s refl;
}

-- `pop` neither reads nor changes the jobs that are set aside for later: whatever they are, and
-- whether their time has come or not, it returns the same and leaves them where they are.
pub pop_ignores_later :
    (n : Bytes) (t : ℤ) (q : StdQueue) (l : Dict Heap)
    → ((pop n t (record q { later_queue_map = l })).0 ≡ (pop n t q).0)
      × ((pop n t (record q { later_queue_map = l })).1.later_queue_map ≡ l)
unfolding pop
pop_ignores_later n t q l = ground arith
