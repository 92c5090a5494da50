-- ===== src/BorrowPool.antt =====
-- src/utils/BorrowPool.hpp: the pool, its handles, and `borrow` with its waits. Here each call runs
-- alone; `Threads` splits the calls into their atomic operations.
pub mod Slots
pub mod Laws
pub mod Handles
pub mod Threads
use cppapiframework.Common.{
  ℕ, zero, suc, ◌+◌, ◌-◌, ◌^◌, ◌%◌, Bool, true, false, not, ◌&&◌, Option, none, some, List, [], ◌∷◌,
  ltb, ◌==◌, if◌then◌else◌, length, get_elem?, set, replicate,
}

-- ~size_t(0)
abbrev pub invalid_pos : ℕ
invalid_pos = 2 ^ 64 - 1

-- `bits[i]` holds that slot i is lent; the slots' objects are `tmp[i]`, named by their index.
pub record Pool : Type 0 where
  pub first_free : ℕ
  pub borrowed : ℕ
  pub bits : List Bool

-- BorrowPool(ELEMENTS)
unfoldable pub init : ℕ → Pool
init n = record { first_free = 0; borrowed = 0; bits = replicate n false }

-- bits[i].compare_exchange_strong(false, true): the new bits where it succeeds. An index out of
-- range, undefined in the source, counts as a failure.
unfoldable pub compare_exchange : List Bool → ℕ → Option (List Bool)
compare_exchange bits i = elim (get_elem? bits i) [ some false ↦ some (set bits i true) | _ ↦ none ]

-- The loop of getValidPos, from index i for the rounds that are left.
pub scan : ℕ → ℕ → List Bool → Option (ℕ × List Bool)
scan zero i bits = none
scan (suc rounds) i bits = elim (compare_exchange bits i) [
  | some bits' ↦ some (i, bits')
  | none ↦ scan rounds (suc i) bits
]

-- ++borrowedElements, on a slot that was just marked.
abbrev take_slot : Pool → ℕ × List Bool → Pool × ℕ
take_slot p (i, bits) = (record p { bits = bits; borrowed = (p.borrowed + 1) % 2 ^ 64 }, i)

-- getValidPos behind its fast path.
pub search_slot : Pool → Pool × ℕ
search_slot p =
    if p.borrowed == length p.bits then (p, invalid_pos) else elim (scan (length p.bits) 0 p.bits) [
      | none ↦ (p, invalid_pos)
      | some found ↦ take_slot p found
    ]

pub get_valid_pos : Pool → Pool × ℕ
unfolding search_slot
get_valid_pos p =
    let q = record p { first_free = invalid_pos } in
    if p.first_free == invalid_pos
    then search_slot q
    else elim (compare_exchange p.bits p.first_free) [
      | some bits ↦ take_slot q (p.first_free, bits)
      | none ↦ search_slot q
    ]

-- disownBorrowed, on the position of the handle
pub disown_borrowed : Pool → ℕ → Pool
disown_borrowed p pos = record {
  first_free = pos;
  borrowed = (p.borrowed + (2 ^ 64 - 1)) % 2 ^ 64;
  bits = set p.bits pos false;
}

-- findFreeElement, from index i
find_free_from : ℕ → List Bool → ℕ
find_free_from i [] = invalid_pos
find_free_from i (b ∷ bits) = if b then find_free_from (suc i) bits else i

pub find_free_element : Pool → ℕ
unfolding find_free_from
find_free_element p = find_free_from 0 p.bits

-- BorrowedObject: a null pointer is `false` or `none`, and `bobject` the index of its slot.
pub record Handle : Type 0 where
  pub originpool : Bool
  pub bobject : Option ℕ
  pub pos : ℕ

abbrev is_some {ℓ} : {A : Type ℓ} → Option A → Bool
is_some none = false
is_some (some a) = true

-- explicit operator bool
abbrev pub is_valid : Handle → Bool
is_valid h = is_some h.bobject

-- the destructor
pub destroy : Pool → Handle → Pool
destroy p h = if h.originpool && is_some h.bobject then disown_borrowed p h.pos else p

-- operator=(BorrowedObject &&) on two objects: the new target, then the new source. What the
-- target held before is overwritten.
pub move_assign : Handle → Handle → Handle × Handle
move_assign target n = (
  record { originpool = n.originpool; bobject = n.bobject; pos = n.pos },
  record n { originpool = false; bobject = none },
)

-- What a call of wait_for came back with: a timeout, or a wake-up at which the others have left
-- the pool as given.
pub data Wait : Type 0 where
  timeout : Wait
  no_timeout : Pool → Wait

abbrev lent : Pool → ℕ → Pool × Handle
lent p pos = (p, record { originpool = true; bobject = some pos; pos = pos })

abbrev pub empty_handle : Handle
empty_handle = record { originpool = false; bobject = none; pos = invalid_pos }

-- The loop of `borrow`, after getValidPos; `none` means that the thread still waits.
await : List Wait → Pool × ℕ → Option (Pool × Handle)
await [] (p, pos) = if pos == invalid_pos then none else some (lent p pos)
await (timeout ∷ ws) (p, pos) =
    if pos == invalid_pos then some (p, empty_handle) else some (lent p pos)
await (no_timeout q ∷ ws) (p, pos) =
    let again = await ws (get_valid_pos q) in
    if pos == invalid_pos then again else some (lent p pos)

pub borrow : Pool → List Wait → Option (Pool × Handle)
unfolding await
borrow p ws = await ws (get_valid_pos p)
