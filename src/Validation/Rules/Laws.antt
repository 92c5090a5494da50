-- ===== src/Validation/Rules/Laws.antt =====
-- What the validators of one field accept.
use cppapiframework.Common.{
  ℕ, zero, suc, ◌+◌, ◌≤◌, ◌<◌, ◌≡◌, refl, ap, ◌∙◌, ◌⊎◌, inl, inr, true, false, Option, none, some,
  List, [], ◌∷◌, arith, ltb, leb, if◌then◌else◌, Bytes, length, Bool-cases,
}
use cppapiframework.Common.Outcome.{Outcome, ok, thrown}
use cppapiframework.Json.{Var, empty, array, Items, no_items, item, is_empty_var, Poco}
use cppapiframework.Validation.Rules.{
  Validator, check_length, string_length_validator, validate_or, or_answer, or_validator, add_item,
  validate_items, array_validator,
}

-- The answer of a validator that accepts, and of one that gives a message.
abbrev pub Accepts : Outcome Var → Type 0
Accepts (ok x) = is_empty_var x ≡ true
Accepts (thrown e) = ⊥

abbrev pub Rejects : Outcome Var → Type 0
Rejects (ok x) = is_empty_var x ≡ false
Rejects (thrown e) = ⊥

check_length-bounds :
    (min max : ℕ) (fieldname s : Bytes)
    → ((min ≤ length s) × (length s ≤ max) × Accepts (check_length min max fieldname s))
      ⊎ (((length s < min) ⊎ (max < length s)) × Rejects (check_length min max fieldname s))
unfolding check_length
check_length-bounds zero max fieldname [] = inl (omega arith, omega arith, rw (least max) refl)
  where
    least : (n : ℕ) → leb 0 n ≡ true
    least n = ground arith
check_length-bounds (suc min) max fieldname [] = inr (inl (omega arith), rw (positive min) refl)
  where
    positive : (n : ℕ) → ltb 0 (suc n) ≡ true
    positive n = ground arith
check_length-bounds min max fieldname (c ∷ s) = elim (Bool-cases (leb min (suc (length s)))) [
  | inl a ↦ elim (Bool-cases (leb (suc (length s)) max)) [
    | inl b ↦ inl (ground arith, ground arith, rw (a, b) refl)
    | inr b ↦ inr (inr (ground arith), rw (a, b) refl)
  ]
  | inr a ↦ inr (inl (ground arith), rw a refl)
]

-- A text that the Var converts to is accepted exactly if its length is between the bounds, and
-- a message is given otherwise.
pub string_length_validator-bounds :
    (poco : Poco) (min max : ℕ) (fieldname : Bytes) (v : Var) (s : Bytes)
    → is_empty_var v ≡ false
    → poco.to_text v ≡ ok s
    → ((min ≤ length s)
        × (length s ≤ max)
        × Accepts (string_length_validator poco min max fieldname v))
      ⊎ (((length s < min) ⊎ (max < length s))
          × Rejects (string_length_validator poco min max fieldname v))
unfolding string_length_validator check_length
string_length_validator-bounds poco min max fieldname v s e t =
    rw (e, t) (check_length-bounds min max fieldname s)

-- One of the rules accepts the value.
abbrev pub SomeAccepts : Bytes → Var → List Validator → Type 0
SomeAccepts fieldname v [] = ⊥
SomeAccepts fieldname v (r ∷ rules) = Accepts (r fieldname v) ⊎ SomeAccepts fieldname v rules

-- Every rule gives a message.
abbrev pub AllReject : Bytes → Var → List Validator → Type 0
AllReject fieldname v [] = Unit {0}
AllReject fieldname v (r ∷ rules) = Rejects (r fieldname v) × AllReject fieldname v rules

-- No rule throws.
abbrev pub AllAnswer : Bytes → Var → List Validator → Type 0
AllAnswer fieldname v [] = Unit {0}
AllAnswer fieldname v (r ∷ rules) =
    ((x : Var) × (r fieldname v ≡ ok x)) × AllAnswer fieldname v rules

abbrev Tried : Bytes → Var → List Validator → Outcome (Option Items) → Type 0
Tried fieldname v rules (ok none) = SomeAccepts fieldname v rules
Tried fieldname v rules (ok (some info)) = AllReject fieldname v rules
Tried fieldname v rules (thrown e) = ⊥

Tried-more :
    (fieldname : Bytes) (v : Var) (r : Validator) (rules : List Validator)
    (o : Outcome (Option Items))
    → Rejects (r fieldname v)
    → Tried fieldname v rules o
    → Tried fieldname v (r ∷ rules) o
Tried-more fieldname v r rules (ok none) h k = inr k
Tried-more fieldname v r rules (ok (some info)) h k = (h, k)
Tried-more fieldname v r rules (thrown e) h k = k

validate_or-Tried :
    (fieldname : Bytes) (v : Var) (rules : List Validator) (info : Items)
    → AllAnswer fieldname v rules
    → Tried fieldname v rules (validate_or fieldname v rules info)
unfolding validate_or
validate_or-Tried fieldname v [] info h = tt
validate_or-Tried fieldname v (r ∷ rules) info h =
    rw (h.0.1)
      (go (h.0.0) (h.0.1) (validate_or-Tried fieldname v rules (add_item info (h.0.0)) h.1))
  where
    go :
        (x : Var)
        → r fieldname v ≡ ok x
        → Tried fieldname v rules (validate_or fieldname v rules (add_item info x))
        → Tried fieldname v
            (r ∷ rules)
            (if is_empty_var x then ok none else validate_or fieldname v rules (add_item info x))
    go x e k = elim (Bool-cases (is_empty_var x)) [
      | inl b ↦ rw b (inl (rw e b))
      | inr b ↦ rw b (Tried-more fieldname v r rules _ (rw e b) k)
    ]

or_answer-Tried :
    (fieldname : Bytes) (v : Var) (rules : List Validator) (o : Outcome (Option Items))
    → Tried fieldname v rules o
    → (Accepts (or_answer o) × SomeAccepts fieldname v rules)
      ⊎ (Rejects (or_answer o) × AllReject fieldname v rules)
unfolding or_answer
or_answer-Tried fieldname v rules (ok none) h = inl (refl, h)
or_answer-Tried fieldname v rules (ok (some info)) h = inr (refl, h)
or_answer-Tried fieldname v rules (thrown e) h = absurd h

-- A value is accepted by make_orvalidator's rule if one of its rules accepts it, and gets a
-- message if each of them has one, provided that no rule throws.
pub or_validator-rules :
    (fieldname : Bytes) (v : Var) (rules : List Validator)
    → AllAnswer fieldname v rules
    → (Accepts (or_validator rules fieldname v) × SomeAccepts fieldname v rules)
      ⊎ (Rejects (or_validator rules fieldname v) × AllReject fieldname v rules)
unfolding or_validator
or_validator-rules fieldname v rules h =
    or_answer-Tried fieldname v rules _ (validate_or-Tried fieldname v rules no_items h)

-- The number of elements.
abbrev pub count : Items → ℕ
count no_items = 0
count (item x xs) = suc (count xs)

-- The callback answers for every element, the first one having this index.
abbrev pub Answers : (Bytes → ℕ → Var → Outcome Var) → Bytes → ℕ → Items → Type 0
Answers validatefn fieldname index no_items = Unit {0}
Answers validatefn fieldname index (item x xs) =
    ((r : Var) × (validatefn fieldname index x ≡ ok r))
    × Answers validatefn fieldname (index + 1) xs

validate_items-last :
    (validatefn : Bytes → ℕ → Var → Outcome Var) (fieldname : Bytes) (index : ℕ) (items : Items)
    (x last : Var)
    → Answers validatefn fieldname index items
    → validate_items validatefn fieldname index (add_item items x) last
      ≡ validatefn fieldname (index + count items) x
unfolding validate_items add_item
validate_items-last validatefn fieldname index no_items x last h =
    answer (validatefn fieldname index x) ∙ ap (λ n. validatefn fieldname n x) (omega arith)
  where
    answer :
        (o : Outcome Var) → elim o as (λ _. Outcome Var) [ thrown e ↦ thrown e | ok v ↦ ok v ] ≡ o
    answer (ok v) = refl
    answer (thrown e) = refl
validate_items-last validatefn fieldname index (item y ys) x last h = rw (h.0.1) (
    validate_items-last validatefn fieldname (index + 1) ys x (h.0.0) (h.1)
    ∙ ap (λ n. validatefn fieldname n x) (omega arith))

-- Every element but the last is only looked at: an array whose elements do not make the callback
-- throw gets the answer of its last element, whatever the answers for the others are.
pub array_validator-last :
    (validatefn : Bytes → ℕ → Var → Outcome Var) (fieldname : Bytes) (items : Items) (x : Var)
    → Answers validatefn fieldname 0 items
    → array_validator validatefn fieldname (array (add_item items x))
      ≡ validatefn fieldname (count items) x
unfolding array_validator
array_validator-last validatefn fieldname items x h =
    validate_items-last validatefn fieldname 0 items x empty h
    ∙ ap (λ n. validatefn fieldname n x) (omega arith)
