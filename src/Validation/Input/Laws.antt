-- ===== src/Validation/Input/Laws.antt =====
-- What the validator of an input reports.
use cppapiframework.Common.{
  ◌≡◌, refl, ◌⊎◌, inl, inr, Bool, true, false, ◌||◌, not, none, some, List, [], ◌∷◌, Bytes,
  Bool-cases,
}
use cppapiframework.Common.Outcome.{Outcome, ok, thrown}
use cppapiframework.Json.{Var, Items, no_items, item, Members, no_members, member, get}
use cppapiframework.Validation.Rules.{Validator}
use cppapiframework.Validation.Input.{
  InputValidator, new_validator, push_val_list, push_validation_msgs, validate_input, is_listed,
  find_values_not_in_list, validate_fields, full_validation, unknown_field, is_no_items,
}

-- The three places where a failure is noted agree.
pub record IsConsistent (v : InputValidator) : Type 0 where
  pub final_noted : (v.resultadofinal ≡ none) ⊎ (v.validation_failed ≡ true)
  pub messages_noted : (v.validation_failed ≡ true) ⊎ (v.resobj ≡ none)
  pub failure_noted : (v.validation_failed ≡ false) ⊎ ((m : Members) × (v.resobj ≡ some m))
  pub response_noted : (v.validation_failed ≡ false) ⊎ ((m : Members) × (v.resultadofinal ≡ some m))

pub new_validator-IsConsistent : (ms : Members) → IsConsistent (new_validator ms)
unfolding new_validator
new_validator-IsConsistent ms = record {
  final_noted = inl refl;
  messages_noted = inr refl;
  failure_noted = inl refl;
  response_noted = inl refl;
}

push_val_list-IsConsistent :
    (fieldname : Bytes) (arr : Items) (v : InputValidator)
    → IsConsistent v
    → IsConsistent (push_val_list fieldname arr v)
unfolding push_val_list
push_val_list-IsConsistent fieldname no_items v h = h
push_val_list-IsConsistent fieldname (item x xs) v h = record {
  final_noted = inr refl;
  messages_noted = inl refl;
  failure_noted = inr (_, refl);
  response_noted = inr (_, refl);
}

find_values-IsConsistent :
    (args : List (Bytes × List Validator)) (ms : Members) (v : InputValidator)
    → IsConsistent v
    → IsConsistent (find_values_not_in_list args ms v)
unfolding find_values_not_in_list
find_values-IsConsistent args no_members v h = h
find_values-IsConsistent args (member name x ms) v h = elim (Bool-cases (is_listed args name)) [
  | inl e ↦ rw e (find_values-IsConsistent args ms v h)
  | inr e ↦
      rw e (find_values-IsConsistent args ms _ (push_val_list-IsConsistent name unknown_field v h))
]

push_val_list-failed :
    (fieldname : Bytes) (arr : Items) (v : InputValidator)
    → v.validation_failed ≡ true
    → (push_val_list fieldname arr v).validation_failed ≡ true
unfolding push_val_list
push_val_list-failed fieldname no_items v h = h
push_val_list-failed fieldname (item x xs) v h = refl

find_values-failed :
    (args : List (Bytes × List Validator)) (ms : Members) (v : InputValidator)
    → v.validation_failed ≡ true
    → (find_values_not_in_list args ms v).validation_failed ≡ true
unfolding find_values_not_in_list
find_values-failed args no_members v h = h
find_values-failed args (member name x ms) v h = elim (Bool-cases (is_listed args name)) [
  | inl e ↦ rw (find_values_not_in_list, e) (find_values-failed args ms v h)
  | inr e ↦
      rw (find_values_not_in_list, e)
        (find_values-failed args ms _ (push_val_list-failed name unknown_field v h))
]

-- The notes are consistent, and a result of true comes with a noted failure.
abbrev pub Noted : Bool → InputValidator → Type 0
Noted b v = IsConsistent v × ((b ≡ false) ⊎ (v.validation_failed ≡ true))

-- What holds when nothing is thrown.
abbrev pub LeavesNoted : Outcome (Bool × InputValidator) → Type 0
LeavesNoted (thrown e) = Unit {0}
LeavesNoted (ok (b, v)) = Noted b v

abbrev Joined : Bool → Outcome (Bool × InputValidator) → Type 0
Joined b (thrown e) = Unit {0}
Joined b (ok (c, v)) = Noted (b || c) v

abbrev after_msgs : Bytes → InputValidator → Outcome Items → Outcome (Bool × InputValidator)
after_msgs fieldname v o = elim o [
  | thrown e ↦ thrown e
  | ok result ↦ ok (not (is_no_items result), push_val_list fieldname result v)
]

after_msgs-Joined :
    (b : Bool) (fieldname : Bytes) (v : InputValidator) (o : Outcome Items)
    → Noted b v
    → Joined b (after_msgs fieldname v o)
unfolding push_val_list
after_msgs-Joined b fieldname v (thrown e) h = tt
after_msgs-Joined true fieldname v (ok no_items) h = h
after_msgs-Joined false fieldname v (ok no_items) h = h
after_msgs-Joined b fieldname v (ok (item x xs)) h =
    (push_val_list-IsConsistent fieldname (item x xs) v h.0, inr refl)

validate_input-Joined :
    (b : Bool) (fieldname : Bytes) (rules : List Validator) (v : InputValidator)
    → Noted b v
    → Joined b (validate_input fieldname rules v)
unfolding validate_input
validate_input-Joined b fieldname rules v h =
    after_msgs-Joined b fieldname v
      (push_validation_msgs fieldname (get fieldname v.parameters) rules no_items) h

abbrev fields_after :
    List (Bytes × List Validator)
    → Bool
    → Outcome (Bool × InputValidator)
    → Outcome (Bool × InputValidator)
fields_after args b o = elim o [ thrown e ↦ thrown e | ok r ↦ validate_fields args (b || r.0) r.1 ]

fields_after-LeavesNoted :
    (args : List (Bytes × List Validator)) (b : Bool) (o : Outcome (Bool × InputValidator))
    → Joined b o
    → ((c : Bool) (v : InputValidator) → Noted c v → LeavesNoted (validate_fields args c v))
    → LeavesNoted (fields_after args b o)
fields_after-LeavesNoted args b (thrown e) h k = tt
fields_after-LeavesNoted args b (ok (c, v)) h k = k (b || c) v h

validate_fields-LeavesNoted :
    (args : List (Bytes × List Validator)) (b : Bool) (v : InputValidator)
    → Noted b v
    → LeavesNoted (validate_fields args b v)
unfolding validate_fields
validate_fields-LeavesNoted [] b v h = h
validate_fields-LeavesNoted ((name, rules) ∷ args) b v h =
    fields_after-LeavesNoted args b (validate_input name rules v)
      (validate_input-Joined b name rules v h) (validate_fields-LeavesNoted args)

abbrev full_after :
    List (Bytes × List Validator)
    → Outcome (Bool × InputValidator)
    → Outcome (Bool × InputValidator)
full_after args o = elim o [
  | thrown e ↦ thrown e
  | ok r ↦ ok (r.0, find_values_not_in_list args r.1.parameters r.1)
]

full_after-LeavesNoted :
    (args : List (Bytes × List Validator)) (o : Outcome (Bool × InputValidator))
    → LeavesNoted o
    → LeavesNoted (full_after args o)
full_after-LeavesNoted args (thrown e) h = tt
full_after-LeavesNoted args (ok (b, v)) (h, inl e) =
    (find_values-IsConsistent args v.parameters v h, inl e)
full_after-LeavesNoted args (ok (b, v)) (h, inr e) =
    (find_values-IsConsistent args v.parameters v h, inr (find_values-failed args v.parameters v e))

-- full_validation, when no rule throws, leaves the response, the messages and the failure flag in
-- agreement, and answers true only if a failure is noted.
pub full_validation-LeavesNoted :
    (args : List (Bytes × List Validator)) (ms : Members)
    → LeavesNoted (full_validation args (new_validator ms))
unfolding full_validation new_validator
full_validation-LeavesNoted args ms = full_after-LeavesNoted args _ (
    validate_fields-LeavesNoted args false (new_validator ms)
      (new_validator-IsConsistent ms, inl refl))

-- A member that no rule names is reported in the response, and yet the answer is false, whatever
-- it holds: here for an object of one member and no rules.
pub full_validation-unknown :
    (name : Bytes) (x : Var)
    → (v : InputValidator) × (full_validation [] (new_validator (member name x no_members))
        ≡ ok (false, v))
      × (v.validation_failed ≡ true)
unfolding full_validation new_validator validate_fields find_values_not_in_list push_val_list
full_validation-unknown name x = (_, refl, refl)
