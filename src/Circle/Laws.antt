-- ===== src/Circle/Laws.antt =====
-- The buffer stays in its bounds, whatever is called.
use cppapiframework.Common.{
  ℕ, ◌+◌, ◌%◌, ◌^◌, ◌≤◌, ◌<◌, ◌≡◌, refl, ◌∙◌, inl, inr, true, false, Option, none, some, List, [],
  ◌∷◌, ◌==◌, leb, get_or, length, length-set, length-replicate, arith, Bool-cases,
}
use cppapiframework.Circle.{
  Circle, init, take_element, advanced, start_over, new_write, next, set_free, set_ready, Call,
  write, read, free, ready, call, run,
}

pub record IsValid (num : ℕ) (c : Circle) : Type 0 where
  pub states : length c.elements_state ≡ num
  pub reading : c.reading_point < num
  pub writing : c.writing_point ≤ num

-- The places that calls give lie in the array.
abbrev pub InBounds : ℕ → List (Option ℕ) → Type 0
InBounds num [] = Unit {0}
InBounds num (none ∷ l) = InBounds num l
InBounds num (some a ∷ l) = (a < num) × InBounds num l

pub init-IsValid : (num : ℕ) → 0 < num → IsValid num (init num)
unfolding init
init-IsValid num h = record { states = length-replicate num 0; reading = h; writing = omega arith }

-- What a call gives lies in the array.
abbrev pub FitsIn : ℕ → Option ℕ → Type 0
FitsIn num none = Unit {0}
FitsIn num (some a) = a < num

take_element-IsValid :
    (num a : ℕ) (c : Circle)
    → a < num
    → IsValid num c
    → IsValid num (take_element a c).1 × FitsIn num (take_element a c).0
unfolding take_element
take_element-IsValid num a c h v = elim (Bool-cases (get_or c.elements_state a 1 == 0)) [
  | inl e ↦ rw e (
    record {
      states = length-set c.elements_state a 1 ∙ v.states;
      reading = v.reading;
      writing = v.writing;
    },
    h,
  )
  | inr e ↦ rw e (v, tt)
]

pub new_write-below :
    (num : ℕ) (c : Circle)
    → leb num c.writing_point ≡ false
    → new_write num c ≡ take_element c.writing_point (advanced c)
unfolding new_write
new_write-below num c h = rw h refl

pub new_write-end :
    (num : ℕ) (c : Circle)
    → num < 2 ^ 63
    → c.writing_point ≤ num
    → leb num c.writing_point ≡ true
    → new_write num c ≡ take_element 0 (record (advanced c) { writing_point = 1 })
unfolding new_write start_over
new_write-end num c small w h =
    let later : leb num ((c.writing_point + 1) % 2 ^ 64) ≡ true = ground arith in rw (h, later) refl

pub new_write-IsValid :
    (num : ℕ) (c : Circle)
    → 0 < num
    → num < 2 ^ 63
    → IsValid num c
    → IsValid num (new_write num c).1 × FitsIn num (new_write num c).0
new_write-IsValid num c pos small v = elim (Bool-cases (leb num c.writing_point)) [
  | inl e ↦ rw (new_write-end num c small v.writing e) (
      take_element-IsValid num 0 (record (advanced c) { writing_point = 1 }) pos
        (record { states = v.states; reading = v.reading; writing = omega arith }))
  | inr e ↦
      let below : c.writing_point < num = ground arith in
      rw (new_write-below num c e) (
        take_element-IsValid num c.writing_point (advanced c) below
          (record { states = v.states; reading = v.reading; writing = omega arith }))
]

next-IsValid :
    (num : ℕ) (c : Circle) → IsValid num c → IsValid num (next num c).1 × FitsIn num (next num c).0
unfolding next
next-IsValid num c v = ground arith

pub call-IsValid :
    (num : ℕ) (k : Call) (c : Circle)
    → 0 < num
    → num < 2 ^ 63
    → IsValid num c
    → IsValid num (call num k c).1 × FitsIn num (call num k c).0
unfolding call set_free set_ready
call-IsValid num write c pos small v = new_write-IsValid num c pos small v
call-IsValid num read c pos small v = next-IsValid num c v
call-IsValid num (free a) c pos small v = (
  record {
    states = length-set c.elements_state a 0 ∙ v.states;
    reading = v.reading;
    writing = v.writing;
  },
  tt,
)
call-IsValid num (ready a) c pos small v = (
  record {
    states = length-set c.elements_state a 2 ∙ v.states;
    reading = v.reading;
    writing = v.writing;
  },
  tt,
)

InBounds-cons :
    (num : ℕ) (o : Option ℕ) (l : List (Option ℕ))
    → FitsIn num o
    → InBounds num l
    → InBounds num (o ∷ l)
InBounds-cons num none l h all = all
InBounds-cons num (some a) l h all = (h, all)

-- The array's bounds are kept by any calls.
pub run-InBounds :
    (num : ℕ) (calls : List Call) (c : Circle)
    → 0 < num
    → num < 2 ^ 63
    → IsValid num c
    → IsValid num (run num calls c).1 × InBounds num (run num calls c).0
unfolding run
run-InBounds num [] c pos small v = (v, tt)
run-InBounds num (k ∷ calls) c pos small v =
    let h = call-IsValid num k c pos small v in
    let rest = run-InBounds num calls (call num k c).1 pos small h.0 in
    (rest.0, InBounds-cons num (call num k c).0 (run num calls (call num k c).1).0 h.1 rest.1)
