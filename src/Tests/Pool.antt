-- ===== src/Tests/Pool.antt =====
-- src/utils/BorrowPool.hpp on a pool of two slots.
use cppapiframework.Common.{ℕ, ◌<◌, ◌≡◌, ◌≢◌, refl, inr, true, false, some, List, [], ◌∷◌, arith}
use cppapiframework.BorrowPool.{
  Pool, Handle, timeout, no_timeout, invalid_pos, init, compare_exchange, get_valid_pos,
  disown_borrowed, destroy, move_assign, borrow,
}
use cppapiframework.BorrowPool.Laws.{
  IsValid, Grants, get_valid_pos-Grants, TakenBack, disown_borrowed-TakenBack,
  get_valid_pos-disown_borrowed,
}
use cppapiframework.BorrowPool.Handles.{Lends, Lent, move_assign-destroy, borrow-Lent}
use cppapiframework.BorrowPool.Threads.{act, start, step, run}
use cppapiframework.BorrowPool.Threads.Exclusion.{
  tally, counts, run_exclusive, run_counted, run_no_underflow,
}

-- Slot 0 is lent.
abbrev half : Pool
half = record { first_free = 1; borrowed = 1; bits = true ∷ false ∷ [] }

half-IsValid : IsValid half
half-IsValid = record { counted = refl; hint = inr (omega arith); small = omega arith }

abbrev zeroth : Handle
zeroth = record { originpool = true; bobject = some 0; pos = 0 }

abbrev first : Handle
first = record { originpool = true; bobject = some 1; pos = 1 }

-- Two threads take a slot each, then the first one gives its slot back up to the decrement.
abbrev both : List ℕ
both = 0 ∷ 0 ∷ 0 ∷ 1 ∷ 1 ∷ 1 ∷ 1 ∷ 1 ∷ []

abbrev returning : List ℕ
returning = 0 ∷ 0 ∷ 0 ∷ 0 ∷ 0 ∷ []

get_valid_pos-Grants_example : Grants half (get_valid_pos half)
get_valid_pos-Grants_example = get_valid_pos-Grants half half-IsValid

disown_borrowed-TakenBack_example : TakenBack half 0 (disown_borrowed half 0)
disown_borrowed-TakenBack_example = disown_borrowed-TakenBack half 0 half-IsValid refl

get_valid_pos-disown_borrowed_example :
    get_valid_pos (disown_borrowed half 0) ≡ (record half { first_free = invalid_pos }, 0)
get_valid_pos-disown_borrowed_example = get_valid_pos-disown_borrowed half 0 half-IsValid refl

move_assign-destroy_example :
    let (target, source) = move_assign first zeroth in
    Lends target 0
    × (destroy half source ≡ half)
    × (destroy (destroy half source) target ≡ disown_borrowed half 0)
move_assign-destroy_example = move_assign-destroy half first zeroth 0 (refl, refl, refl)

borrow-Lent_example : Lent (borrow half (no_timeout half ∷ timeout ∷ []))
borrow-Lent_example =
    borrow-Lent half (no_timeout half ∷ timeout ∷ []) half-IsValid (half-IsValid, tt)

run_exclusive_example : ◌≢◌ {A = ℕ} 0 1
unfolding start run step act init compare_exchange
run_exclusive_example = run_exclusive 2 2 both 0 1 0 1 (omega arith) (omega arith) refl refl

run_counted_example :
    (run (start 2 2) both).pool.borrowed ≡ tally counts (run (start 2 2) both).threads
run_counted_example = run_counted 2 2 both (omega arith)

run_no_underflow_example : 0 < (run (start 1 1) returning).pool.borrowed
unfolding start run step act init compare_exchange
run_no_underflow_example = run_no_underflow 1 1 returning 0 0 (omega arith) refl
