-- ===== src/BorrowPool/Threads/Exclusion.antt =====
-- No schedule lends a slot twice, and the counter is exact between operations.
use cppapiframework.Common.{
  ℕ, zero, suc, ◌+◌, ◌^◌, ◌≤◌, ◌<◌, ◌≡◌, ◌≢◌, refl, sym, ap, ◌∙◌, inl, inr, Bool, true, false, some,
  List, [], ◌∷◌, arith, ◌==◌, if◌then◌else◌, length, get_elem?, set, replicate, length-set,
  Option-cases, dec_eq, get_elem?-set_self, get_elem?-set_ne, length-replicate,
}
use cppapiframework.BorrowPool.{Pool, init}
use cppapiframework.BorrowPool.Slots.{get_elem?-lt, compare_exchange-Exchanges}
use cppapiframework.BorrowPool.Threads.{
  Pc, idle, testing, tried, scanning, won, holding, cleared, stored, act, State, start, step, run,
}

-- 1 if the slot is marked
abbrev pub marked : ℕ → List Bool → ℕ
marked i bits = elim (get_elem? bits i) [ some true ↦ 1 | _ ↦ 0 ]

-- 1 if the thread owns slot i: it has marked it, and has not cleared the mark.
abbrev pub owns : ℕ → Pc → ℕ
owns i (won j) = if j == i then 1 else 0
owns i (holding j) = if j == i then 1 else 0
owns i _ = 0

-- 1 if the thread stands between its increment and its decrement
abbrev pub counts : Pc → ℕ
counts (holding j) = 1
counts (cleared j) = 1
counts (stored j) = 1
counts _ = 0

module _ (f : Pc → ℕ) where
  abbrev pub tally : List Pc → ℕ
  tally [] = 0
  tally (x ∷ xs) = f x + tally xs

  tally-set :
      (xs : List Pc) (t : ℕ) (a b : Pc)
      → get_elem? xs t ≡ some a
      → tally (set xs t b) + f a ≡ tally xs + f b
  tally-set [] t a b h = ground arith
  tally-set (x ∷ xs) zero a b h = ground arith
  tally-set (x ∷ xs) (suc t) a b h = omega (arith, tally-set xs t a b h)

  tally_one : (xs : List Pc) (t : ℕ) (a : Pc) → get_elem? xs t ≡ some a → f a ≤ tally xs
  tally_one [] t a h = ground arith
  tally_one (x ∷ xs) zero a h = ground arith
  tally_one (x ∷ xs) (suc t) a h = omega (arith, tally_one xs t a h)

  tally_two :
      (xs : List Pc) (t u : ℕ) (a b : Pc)
      → t ≢ u
      → get_elem? xs t ≡ some a
      → get_elem? xs u ≡ some b
      → f a + f b ≤ tally xs
  tally_two [] t u a b ne h k = ground arith
  tally_two (x ∷ xs) zero zero a b ne h k = absurd (ne refl)
  tally_two (x ∷ xs) zero (suc u) a b ne h k = ground (arith, tally_one xs u b k)
  tally_two (x ∷ xs) (suc t) zero a b ne h k = ground (arith, tally_one xs t a h)
  tally_two (x ∷ xs) (suc t) (suc u) a b ne h k =
      omega (arith, tally_two xs t u a b (λ e. ne (ap suc e)) h k)

  tally-replicate : f idle ≡ 0 → (k : ℕ) → tally (replicate k idle) ≡ 0
  tally-replicate e zero = refl
  tally-replicate e (suc k) = omega (arith, e, tally-replicate e k)

tally-counts-le : (xs : List Pc) → tally counts xs ≤ length xs
tally-counts-le [] = omega arith
tally-counts-le (x ∷ xs) = ground (arith, tally-counts-le xs)

marked-set-true :
    (i j : ℕ) (bits : List Bool)
    → get_elem? bits j ≡ some false
    → marked i (set bits j true) ≡ marked i bits + (if j == i then 1 else 0)
marked-set-true i j bits e = elim (dec_eq j i) [
  | inl p ↦ ground (arith, get_elem?-set_self bits j true (get_elem?-lt bits j false e))
  | inr p ↦ ground (arith, get_elem?-set_ne bits j i true p)
]

marked-set-false :
    (i j : ℕ) (bits : List Bool)
    → get_elem? bits j ≡ some true
    → marked i (set bits j false) + (if j == i then 1 else 0) ≡ marked i bits
marked-set-false i j bits e = elim (dec_eq j i) [
  | inl p ↦ ground (arith, get_elem?-set_self bits j false (get_elem?-lt bits j true e))
  | inr p ↦ ground (arith, get_elem?-set_ne bits j i false p)
]

-- A thread that clears a mark finds it set.
abbrev Cautious : List Bool → Pc → Type 0
Cautious bits (holding j) = get_elem? bits j ≡ some true
Cautious bits _ = Unit {0}

-- One operation moves the marks of a slot and its owners together.
act_balance :
    (i : ℕ) (p : Pool) (pc : Pc)
    → Cautious p.bits pc
    → owns i (act p pc).1 + marked i p.bits ≡ owns i pc + marked i (act p pc).0.bits
unfolding act
act_balance i p (tried r) c =
    ground (arith, compare_exchange-Exchanges p.bits r, marked-set-true i r p.bits)
act_balance i p (scanning r) c =
    ground (arith, compare_exchange-Exchanges p.bits r, marked-set-true i r p.bits)
act_balance i p (holding j) c = ground (arith, marked-set-false i j p.bits c)
act_balance i p _ c = ground arith

-- and the counter with the threads that it counts.
act-counts :
    (p : Pool) (pc : Pc)
    → counts pc ≤ p.borrowed
    → p.borrowed + 1 < 2 ^ 64
    → (act p pc).0.borrowed + counts pc ≡ p.borrowed + counts (act p pc).1
unfolding act
act-counts p idle h l = ground arith
act-counts p _ h l = ground arith

-- Every mark has exactly one owner, every owner a mark, and the counter is exact.
pub record Inv (s : State) : Type 0 where
  pub exclusive : (i : ℕ) → tally (owns i) s.threads ≡ marked i s.pool.bits
  pub counted : s.pool.borrowed ≡ tally counts s.threads
  pub few : length s.threads + 1 < 2 ^ 64

marked-true : (i : ℕ) (bits : List Bool) → 0 < marked i bits → get_elem? bits i ≡ some true
marked-true i bits h = ground arith

Inv-Cautious :
    (s : State) (t : ℕ) (pc : Pc)
    → Inv s
    → get_elem? s.threads t ≡ some pc
    → Cautious s.pool.bits pc
Inv-Cautious s t (holding j) v e =
    marked-true j s.pool.bits
      (ground (arith, v.exclusive j, tally_one (owns j) s.threads t (holding j) e))
Inv-Cautious s t idle v e = tt
Inv-Cautious s t testing v e = tt
Inv-Cautious s t (tried r) v e = tt
Inv-Cautious s t (scanning r) v e = tt
Inv-Cautious s t (won r) v e = tt
Inv-Cautious s t (cleared r) v e = tt
Inv-Cautious s t (stored r) v e = tt

step-Inv : (s : State) (t : ℕ) → Inv s → Inv (step s t)
unfolding step
step-Inv s t v = elim (Option-cases (get_elem? s.threads t)) [
  | inl e ↦ rw (e, step) v
  | inr (pc, e) ↦
      rw (e, step)
        (record {
          exclusive = λ i. omega (
            arith,
            v.exclusive i,
            tally-set (owns i) s.threads t pc (act s.pool pc).1 e,
            act_balance i s.pool pc (Inv-Cautious s t pc v e),
          );
          counted = omega (
            arith,
            v.counted,
            tally-counts-le s.threads,
            tally_one counts s.threads t pc e,
            tally-set counts s.threads t pc (act s.pool pc).1 e,
            act-counts s.pool pc,
            v.few,
          );
          few = rw (length-set s.threads t (act s.pool pc).1) v.few;
        })
]

marked-replicate : (i n : ℕ) → marked i (replicate n false) ≡ 0
marked-replicate i zero = refl
marked-replicate zero (suc n) = refl
marked-replicate (suc i) (suc n) = marked-replicate i n

start-Inv : (n k : ℕ) → k + 1 < 2 ^ 64 → Inv (start n k)
unfolding start init
start-Inv n k h = record {
  exclusive = λ i. tally-replicate (owns i) refl k ∙ sym (marked-replicate i n);
  counted = sym (tally-replicate counts refl k);
  few = rw (length-replicate k idle) h;
}

run-Inv : (s : State) (ts : List ℕ) → Inv s → Inv (run s ts)
unfolding run
run-Inv s [] v = v
run-Inv s (t ∷ ts) v = run-Inv (step s t) ts (step-Inv s t v)

-- After any schedule of any number of threads over a fresh pool, two different threads never hold
-- the same slot.
pub run_exclusive :
    (n k : ℕ) (ts : List ℕ) (t u i j : ℕ)
    → k + 1 < 2 ^ 64
    → t ≢ u
    → get_elem? (run (start n k) ts).threads t ≡ some (holding i)
    → get_elem? (run (start n k) ts).threads u ≡ some (holding j)
    → i ≢ j
run_exclusive n k ts t u i j h ne et eu e = ground (
  arith,
  (run-Inv (start n k) ts (start-Inv n k h)).exclusive i,
  tally_two (owns i) (run (start n k) ts).threads t u (holding i) (holding j) ne et eu,
)

-- After any schedule the counter is the number of threads that stand between their increment and
-- their decrement.
pub run_counted :
    (n k : ℕ) (ts : List ℕ)
    → k + 1 < 2 ^ 64
    → (run (start n k) ts).pool.borrowed ≡ tally counts (run (start n k) ts).threads
run_counted n k ts h = (run-Inv (start n k) ts (start-Inv n k h)).counted

-- A thread that is about to decrement the counter finds it above zero, whatever the schedule.
pub run_no_underflow :
    (n k : ℕ) (ts : List ℕ) (t i : ℕ)
    → k + 1 < 2 ^ 64
    → get_elem? (run (start n k) ts).threads t ≡ some (stored i)
    → 0 < (run (start n k) ts).pool.borrowed
run_no_underflow n k ts t i h e =
    omega
      (arith, run_counted n k ts h, tally_one counts (run (start n k) ts).threads t (stored i) e)
