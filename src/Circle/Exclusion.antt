-- ===== src/Circle/Exclusion.antt =====
-- An element that is being written is nobody else's.
use cppapiframework.Common.{
  ℕ, zero, suc, ◌^◌, ◌<◌, ◌≡◌, ◌≢◌, refl, sym, ap, subst, ◌∙◌, inl, inr, Option, none, some, List,
  [], ◌∷◌, ◌==◌, leb, get_or, set, length, arith, Bool-cases,
}
use cppapiframework.Circle.{
  Circle, init, take_element, advanced, new_write, next, set_free, set_ready, Call, write, read,
  free, ready, call, run,
}
use cppapiframework.Circle.Laws.{
  IsValid, FitsIn, init-IsValid, call-IsValid, new_write-below, new_write-end, new_write-IsValid,
  run-InBounds,
}

abbrev pub Avoids : ℕ → List (Option ℕ) → Type 0
Avoids a [] = Unit {0}
Avoids a (none ∷ l) = Avoids a l
Avoids a (some b ∷ l) = (b ≢ a) × Avoids a l

-- Nobody says that the element at `a` is ready or free.
abbrev pub LeavesAlone : ℕ → List Call → Type 0
LeavesAlone a [] = Unit {0}
LeavesAlone a (write ∷ calls) = LeavesAlone a calls
LeavesAlone a (read ∷ calls) = LeavesAlone a calls
LeavesAlone a (free b ∷ calls) = (b ≢ a) × LeavesAlone a calls
LeavesAlone a (ready b ∷ calls) = (b ≢ a) × LeavesAlone a calls

get_or-set_ne : (xs : List ℕ) (i j v d : ℕ) → i ≢ j → get_or (set xs i v) j d ≡ get_or xs j d
get_or-set_ne [] i j v d h = refl
get_or-set_ne (x ∷ xs) zero zero v d h = absurd (h refl)
get_or-set_ne (x ∷ xs) zero (suc j) v d h = refl
get_or-set_ne (x ∷ xs) (suc i) zero v d h = refl
get_or-set_ne (x ∷ xs) (suc i) (suc j) v d h = get_or-set_ne xs i j v d (λ e. h (ap suc e))

get_or-set_self : (xs : List ℕ) (i v d : ℕ) → i < length xs → get_or (set xs i v) i d ≡ v
get_or-set_self [] i v d h = elim h [ ]
get_or-set_self (x ∷ xs) zero v d h = refl
get_or-set_self (x ∷ xs) (suc i) v d h = get_or-set_self xs i v d (omega arith)

abbrev Holds : ℕ → Circle → Type 0
Holds a c = get_or c.elements_state a 1 ≡ 1

abbrev Differs : ℕ → Option ℕ → Type 0
Differs a none = Unit {0}
Differs a (some b) = b ≢ a

Avoids-cons :
    (a : ℕ) (o : Option ℕ) (l : List (Option ℕ)) → Differs a o → Avoids a l → Avoids a (o ∷ l)
Avoids-cons a none l h all = all
Avoids-cons a (some b) l h all = (h, all)

-- An element in another state is another element.
state_differs : (xs : List ℕ) (a b s : ℕ) → get_or xs a 1 ≡ 1 → get_or xs b 1 ≡ s → 1 ≢ s → b ≢ a
state_differs xs a b s h e n same = n (sym h ∙ ap (λ i. get_or xs i 1) (sym same) ∙ e)

take_element-Holds :
    (a b : ℕ) (c : Circle)
    → Holds a c
    → Holds a (take_element b c).1 × Differs a (take_element b c).0
unfolding take_element
take_element-Holds a b c h = elim (Bool-cases (get_or c.elements_state b 1 == 0)) [
  | inl e ↦
      let other : b ≢ a = state_differs c.elements_state a b 0 h (ground arith) (omega arith) in
      rw e (get_or-set_ne c.elements_state b a 1 1 other ∙ h, other)
  | inr e ↦ rw e (h, tt)
]

new_write-Holds :
    (num a : ℕ) (c : Circle)
    → num < 2 ^ 63
    → IsValid num c
    → Holds a c
    → Holds a (new_write num c).1 × Differs a (new_write num c).0
new_write-Holds num a c small v h = elim (Bool-cases (leb num c.writing_point)) [
  | inl e ↦
      rw (new_write-end num c small v.writing e)
        (take_element-Holds a 0 (record (advanced c) { writing_point = 1 }) h)
  | inr e ↦ rw (new_write-below num c e) (take_element-Holds a c.writing_point (advanced c) h)
]

next-Holds :
    (num a : ℕ) (c : Circle) → Holds a c → Holds a (next num c).1 × Differs a (next num c).0
unfolding next
next-Holds num a c h = elim (Bool-cases (get_or c.elements_state c.reading_point 1 == 2)) [
  | inr e ↦ rw e (h, tt)
  | inl e ↦ elim (Bool-cases (c.reading_point == c.writing_point)) [
    | inl same ↦ rw (e, same) (h, tt)
    | inr other ↦
        rw (e, other)
          (h, state_differs c.elements_state a c.reading_point 2 h (ground arith) (omega arith))
  ]
]

call-Holds :
    (num a : ℕ) (k : Call) (c : Circle)
    → num < 2 ^ 63
    → IsValid num c
    → LeavesAlone a (k ∷ [])
    → Holds a c
    → Holds a (call num k c).1 × Differs a (call num k c).0
unfolding call set_free set_ready
call-Holds num a write c small v l h = new_write-Holds num a c small v h
call-Holds num a read c small v l h = next-Holds num a c h
call-Holds num a (free b) c small v l h = (get_or-set_ne c.elements_state b a 0 1 l.0 ∙ h, tt)
call-Holds num a (ready b) c small v l h = (get_or-set_ne c.elements_state b a 2 1 l.0 ∙ h, tt)

LeavesAlone-cons :
    (a : ℕ) (k : Call) (calls : List Call)
    → LeavesAlone a (k ∷ calls)
    → LeavesAlone a (k ∷ []) × LeavesAlone a calls
LeavesAlone-cons a write calls l = (tt, l)
LeavesAlone-cons a read calls l = (tt, l)
LeavesAlone-cons a (free b) calls l = ((l.0, tt), l.1)
LeavesAlone-cons a (ready b) calls l = ((l.0, tt), l.1)

run-Holds :
    (num a : ℕ) (calls : List Call) (c : Circle)
    → 0 < num
    → num < 2 ^ 63
    → IsValid num c
    → LeavesAlone a calls
    → Holds a c
    → Avoids a (run num calls c).0
unfolding run
run-Holds num a [] c pos small v l h = tt
run-Holds num a (k ∷ calls) c pos small v l h =
    let (l0, l1) = LeavesAlone-cons a k calls l in
    let step = call-Holds num a k c small v l0 h in
    let v' = (call-IsValid num k c pos small v).0 in
    Avoids-cons a (call num k c).0 (run num calls (call num k c).1).0 step.1
      (run-Holds num a calls (call num k c).1 pos small v' l1 step.0)

-- What a call that gives an element leaves of its state.
abbrev Gives : Option ℕ × Circle → Type 0
Gives (none, c) = Unit {0}
Gives (some a, c) = Holds a c

take_element-Gives : (b : ℕ) (c : Circle) → b < length c.elements_state → Gives (take_element b c)
unfolding take_element
take_element-Gives b c h = elim (Bool-cases (get_or c.elements_state b 1 == 0)) [
  | inl e ↦ rw e (get_or-set_self c.elements_state b 1 1 h)
  | inr e ↦ rw e tt
]

new_write-Gives :
    (num : ℕ) (c : Circle) → 0 < num → num < 2 ^ 63 → IsValid num c → Gives (new_write num c)
new_write-Gives num c pos small v = elim (Bool-cases (leb num c.writing_point)) [
  | inl e ↦
      rw (new_write-end num c small v.writing e)
        (take_element-Gives 0 (record (advanced c) { writing_point = 1 }) (omega (arith, v.states)))
  | inr e ↦
      rw (new_write-below num c e)
        (take_element-Gives c.writing_point (advanced c) (ground (arith, v.states)))
]

-- From a new buffer of `num` elements, after any calls: if new_write gives the element at `a`, then
-- `a` is a place of the array, and none of the calls that follow, of new_write or of next, gives
-- that element again as long as it is neither said to be ready nor to be free.
pub run-Avoids :
    (num : ℕ) (before calls : List Call) (a : ℕ) (c : Circle)
    → 0 < num
    → num < 2 ^ 63
    → new_write num (run num before (init num)).1 ≡ (some a, c)
    → LeavesAlone a calls
    → (a < num) × Avoids a (run num calls c).0
run-Avoids num before calls a c pos small e l =
    let v = (run-InBounds num before (init num) pos small (init-IsValid num pos)).0 in
    let given = new_write-IsValid num (run num before (init num)).1 pos small v in
    (
      subst (λ r. FitsIn num r.0) e given.1,
      run-Holds num a calls c pos small (subst (λ r. IsValid num r.1) e given.0) l
          (subst Gives e (new_write-Gives num (run num before (init num)).1 pos small v)),
    )
