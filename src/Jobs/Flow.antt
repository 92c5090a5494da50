-- ===== src/Jobs/Flow.antt =====
-- The worker's code as functions on its world: the queue service and the metrics received so far.
-- A piece of code ends with a value, by an exception, or by the exit of the forked process.
use cppapiframework.Common.{◌≡◌, arith, List, [], ◌∷◌, ◌++◌, Bytes}
use cppapiframework.Common.Outcome.{Outcome, ok, thrown}
use cppapiframework.Jobs.Handler.{JobStatus}
use cppapiframework.Jobs.Metrics.{Event}

pub record World (S : Type 0) : Type 0 where
  pub store : S
  pub events : List Event

pub data Flow (S A : Type 0) : Type 0 where
  done : A → World S → Flow S A
  raised : Bytes → World S → Flow S A
  exited : JobStatus → World S → Flow S A

abbrev pub M : Type 0 → Type 0 → Type 0
M S A = World S → Flow S A

abbrev pub pure : {S A : Type 0} → A → M S A
pure a w = done a w

infixl 5 ◌>>=◌ ◌>>◌
abbrev pub ◌>>=◌ : {S A B : Type 0} → M S A → (A → M S B) → M S B
◌>>=◌ m f w = elim (m w) [
  | done a w' ↦ f a w'
  | raised e w' ↦ raised e w'
  | exited r w' ↦ exited r w'
]

abbrev pub ◌>>◌ : {S B : Type 0} → M S (Unit {0}) → M S B → M S B
m >> k = m >>= λ _. k

-- A call of the queue service; what it throws goes on.
unfoldable pub of_outcome : {S A : Type 0} → World S → Outcome A × S → Flow S A
of_outcome w (ok a, s) = done a (record w { store = s })
of_outcome w (thrown e, s) = raised e (record w { store = s })

unfoldable pub call : {S A : Type 0} → (S → Outcome A × S) → M S A
unfolding of_outcome
call f w = of_outcome w (f w.store)

unfoldable pub query : {S A : Type 0} → (S → Outcome A) → M S A
unfolding of_outcome
query f w = of_outcome w (f w.store, w.store)

-- A call whose exceptions are caught and dropped.
abbrev pub call_caught : {S A : Type 0} → (S → Outcome A × S) → M S (Unit {0})
call_caught f w = done tt (record w { store = (f w.store).1 })

abbrev pub notify : {S : Type 0} → Event → M S (Unit {0})
notify e w = done tt (record w { events = w.events ++ e ∷ [] })

of_outcome-done :
    {S A : Type 0} (w : World S) (r : Outcome A × S) (a : A)
    → r.0 ≡ ok a
    → of_outcome w r ≡ done a (record w { store = r.1 })
unfolding of_outcome
of_outcome-done w (ok b, s) a e = ground arith
of_outcome-done w (thrown t, s) a e = ground arith

-- A call that does not throw.
pub call-done :
    {S A : Type 0} (f : S → Outcome A × S) (w : World S) (a : A)
    → (f w.store).0 ≡ ok a
    → call f w ≡ done a (record w { store = (f w.store).1 })
unfolding call
call-done f w a e = of_outcome-done w (f w.store) a e

pub query-done :
    {S A : Type 0} (f : S → Outcome A) (w : World S) (a : A)
    → f w.store ≡ ok a
    → query f w ≡ done a w
unfolding query
query-done f w a e = of_outcome-done w (f w.store, w.store) a e
