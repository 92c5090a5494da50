-- ===== src/BorrowPool/Laws.antt =====
-- What getValidPos and disownBorrowed do to a well-formed pool, call by call.
use cppapiframework.Common.{
  ℕ, ◌+◌, ◌-◌, ◌%◌, ◌^◌, ◌≤◌, ◌<◌, ◌≡◌, ◌≢◌, refl, sym, ◌⊎◌, inl, inr, true, false, some, arith,
  length, get_elem?, set, length-set, length-replicate, get_elem?-set_self, get_elem?-set_ne,
}
use cppapiframework.BorrowPool.{
  Pool, invalid_pos, init, search_slot, get_valid_pos, disown_borrowed,
}
use cppapiframework.BorrowPool.Slots.{
  count_true, count_true-le, count_true-set, count_true-replicate, get_elem?-lt, set_back,
  compare_exchange-Exchanges, scan-Finds,
}

-- The counter counts the lent slots, the hint is a slot or invalid, and no slot is the invalid one.
pub record IsValid (p : Pool) : Type 0 where
  pub counted : p.borrowed ≡ count_true p.bits
  pub hint : (p.first_free ≡ invalid_pos) ⊎ (p.first_free < length p.bits)
  pub small : length p.bits < invalid_pos

pub init-IsValid : (n : ℕ) → 0 < n → n < invalid_pos → IsValid (init n)
unfolding init
init-IsValid n h l = record {
  counted = sym (count_true-replicate n);
  hint = inr (rw (length-replicate n false) h);
  small = rw (length-replicate n false) l;
}

abbrev pub Grants : Pool → Pool × ℕ → Type 0
Grants p (q, pos) =
    ((pos ≡ invalid_pos)
      × (count_true p.bits ≡ length p.bits)
      × (q.bits ≡ p.bits)
      × (q.borrowed ≡ p.borrowed))
    ⊎ ((get_elem? p.bits pos ≡ some false)
        × (pos < length p.bits)
        × (q.bits ≡ set p.bits pos true)
        × (q.borrowed ≡ p.borrowed + 1))

search_slot-Grants : (p : Pool) → IsValid p → Grants p (search_slot p)
unfolding search_slot
search_slot-Grants p v = ground (arith, scan-Finds p.bits, count_true-le p.bits)

-- On a well-formed pool a position is granted exactly when some slot is free: it was free, it is
-- marked, and it is counted. Otherwise only the hint may change.
pub get_valid_pos-Grants : (p : Pool) → IsValid p → Grants p (get_valid_pos p)
unfolding get_valid_pos
get_valid_pos-Grants p v = ground (
  arith,
  compare_exchange-Exchanges p.bits p.first_free,
  get_elem?-lt p.bits p.first_free false,
  count_true-le p.bits,
  scan-Finds p.bits,
)

get_valid_pos_hint : (p : Pool) → (get_valid_pos p).0.first_free ≡ invalid_pos
unfolding get_valid_pos
get_valid_pos_hint p = ground arith

Grants-IsValid :
    (p q : Pool) (pos : ℕ) → IsValid p → q.first_free ≡ invalid_pos → Grants p (q, pos) → IsValid q
Grants-IsValid p q pos v f (inl g) = ground arith
Grants-IsValid p q pos v f (inr g) =
    ground (arith, count_true-set p.bits pos false true, length-set p.bits pos true)

pub get_valid_pos-IsValid : (p : Pool) → IsValid p → IsValid (get_valid_pos p).0
get_valid_pos-IsValid p v =
    Grants-IsValid p (get_valid_pos p).0 (get_valid_pos p).1 v (get_valid_pos_hint p)
      (get_valid_pos-Grants p v)

-- The slot was taken back into the pool: it is free, it is the hint, one less is counted, and the
-- other slots are as they were.
pub record TakenBack (p : Pool) (pos : ℕ) (q : Pool) : Type 0 where
  pub valid : IsValid q
  pub freed : get_elem? q.bits pos ≡ some false
  pub hinted : q.first_free ≡ pos
  pub uncounted : q.borrowed + 1 ≡ p.borrowed
  pub others_same : (i : ℕ) → pos ≢ i → get_elem? q.bits i ≡ get_elem? p.bits i

-- On a well-formed pool a lent slot that comes back is free and is the hint, the counter is one
-- less, every other slot is as it was, and the pool is well-formed again.
pub disown_borrowed-TakenBack :
    (p : Pool) (pos : ℕ)
    → IsValid p
    → get_elem? p.bits pos ≡ some true
    → TakenBack p pos (disown_borrowed p pos)
unfolding disown_borrowed
disown_borrowed-TakenBack p pos v e = record {
  valid = record { counted = counts; hint = inr (rw sizes lent); small = rw sizes v.small };
  freed = get_elem?-set_self p.bits pos false lent;
  hinted = refl;
  uncounted = omega (arith, v.counted, back, bound);
  others_same = λ i ne. get_elem?-set_ne p.bits pos i false ne;
}
  where
    lent : pos < length p.bits
    lent = get_elem?-lt p.bits pos true e

    sizes : length (set p.bits pos false) ≡ length p.bits
    sizes = length-set p.bits pos false

    back : count_true (set p.bits pos false) + 1 ≡ count_true p.bits
    back = omega (arith, count_true-set p.bits pos true false e)

    bound : count_true p.bits ≤ length p.bits
    bound = count_true-le p.bits

    counts : (p.borrowed + (2 ^ 64 - 1)) % 2 ^ 64 ≡ count_true (set p.bits pos false)
    counts = omega (arith, v.counted, back, bound, v.small)

-- The slot given back last is lent next, without a search, and the pool is then as it was but for
-- the hint.
pub get_valid_pos-disown_borrowed :
    (p : Pool) (pos : ℕ)
    → IsValid p
    → get_elem? p.bits pos ≡ some true
    → get_valid_pos (disown_borrowed p pos) ≡ (record p { first_free = invalid_pos }, pos)
unfolding disown_borrowed get_valid_pos
get_valid_pos-disown_borrowed p pos v e = ground (
  arith,
  get_elem?-lt p.bits pos true e,
  get_elem?-set_self p.bits pos false,
  compare_exchange-Exchanges (set p.bits pos false) pos,
  set_back p.bits pos e,
  count_true-set p.bits pos true false e,
  count_true-le p.bits,
)
