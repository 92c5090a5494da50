-- ===== src/BorrowPool/Threads.antt =====
-- src/utils/BorrowPool.hpp under threads: getValidPos and disownBorrowed split at their atomic
-- operations. A schedule names, operation by operation, the thread that runs next; a thread that
-- holds a slot gives it back when it is named, and one that got none tries again.
pub mod Exclusion
use cppapiframework.Common.{
  ℕ, suc, ◌+◌, ◌-◌, ◌%◌, ◌^◌, true, false, Option, none, some, List, [], ◌∷◌, ltb, ◌==◌,
  if◌then◌else◌, length, get_elem?, set, replicate,
}
use cppapiframework.BorrowPool.{Pool, invalid_pos, init, compare_exchange}

-- Where a thread stands: `tried r` behind the exchange of the hint, `testing` before the test of
-- the counter, `scanning i` in the loop, `won i` before the increment, `holding i` behind `borrow`,
-- `cleared i` and `stored i` in disownBorrowed before the hint and before the decrement.
pub data Pc : Type 0 where
  idle testing : Pc
  tried scanning won holding cleared stored : ℕ → Pc

-- One atomic operation.
unfoldable pub act : Pool → Pc → Pool × Pc
act p idle = (
  record p { first_free = invalid_pos },
  if p.first_free == invalid_pos then testing else tried p.first_free,
)
act p (tried r) = elim (compare_exchange p.bits r) [
  | some bits ↦ (record p { bits = bits }, won r)
  | none ↦ (p, testing)
]
act p testing = (p, if p.borrowed == length p.bits then idle else scanning 0)
act p (scanning i) =
    if ltb i (length p.bits)
    then elim (compare_exchange p.bits i) [
      | some bits ↦ (record p { bits = bits }, won i)
      | none ↦ (p, scanning (suc i))
    ]
    else (p, idle)
act p (won i) = (record p { borrowed = (p.borrowed + 1) % 2 ^ 64 }, holding i)
act p (holding i) = (record p { bits = set p.bits i false }, cleared i)
act p (cleared i) = (record p { first_free = i }, stored i)
act p (stored i) = (record p { borrowed = (p.borrowed + (2 ^ 64 - 1)) % 2 ^ 64 }, idle)

pub record State : Type 0 where
  pub pool : Pool
  pub threads : List Pc

-- `k` threads outside the pool of `n` slots
unfoldable pub start : ℕ → ℕ → State
start n k = record { pool = init n; threads = replicate k idle }

-- Thread t runs one operation.
unfoldable pub step : State → ℕ → State
step s t = elim (get_elem? s.threads t) [
  | none ↦ s
  | some pc ↦ record { pool = (act s.pool pc).0; threads = set s.threads t (act s.pool pc).1 }
]

unfoldable pub run : State → List ℕ → State
run s [] = s
run s (t ∷ ts) = run (step s t) ts
