-- ===== src/Validation/Input.antt =====
-- src/utils/ControllerInputValidator.hpp: the validator of an input object, and the validators of
-- src/utils/InputValidators.cpp that use it.
pub mod Laws
use cppapiframework.Common.{
  ℕ, Bool, true, false, ◌||◌, not, Option, none, some, List, [], ◌∷◌, ◌++◌, if◌then◌else◌, Bytes,
  text, str_eq,
}
use cppapiframework.Common.Outcome.{Outcome, ok, thrown}
use cppapiframework.Json.{
  Var, empty, boolean, string, array, object, Items, no_items, item, Members, no_members, member,
  is_empty_var, get, set_member,
}
use cppapiframework.Validation.Rules.{Validator, message, add_item}

-- `none` is a null pointer.
pub record InputValidator : Type 0 where
  pub parameters : Members
  pub resultadofinal : Option Members
  pub resobj : Option Members
  pub validation_failed : Bool

pub new_validator : Members → InputValidator
new_validator inputvalues = record {
  parameters = inputvalues;
  resultadofinal = none;
  resobj = none;
  validation_failed = false;
}

abbrev failure : Members
failure =
    set_member (text "mensagem") (string (text "Falha na validação de um ou mais campos"))
      (set_member (text "sucesso") (boolean false) no_members)

abbrev or_failure : Option Members → Members
or_failure none = failure
or_failure (some m) = m

abbrev or_no_members : Option Members → Members
or_no_members none = no_members
or_no_members (some m) = m

unfoldable pub push_val_list : Bytes → Items → InputValidator → InputValidator
push_val_list fieldname no_items v = v
push_val_list fieldname (item x xs) v = record {
  parameters = v.parameters;
  resultadofinal = some (or_failure v.resultadofinal);
  resobj = some (set_member fieldname (array (item x xs)) (or_no_members v.resobj));
  validation_failed = true;
}

-- The messages of the validators that have one, in their order, behind those that are there.
unfoldable pub push_validation_msgs : Bytes → Var → List Validator → Items → Outcome Items
unfolding add_item
push_validation_msgs fieldname value [] result = ok result
push_validation_msgs fieldname value (r ∷ rules) result = elim (r fieldname value) [
  | thrown e ↦ thrown e
  | ok v ↦
      push_validation_msgs fieldname value rules
        (if is_empty_var v then result else add_item result v)
]

abbrev pub is_no_items : Items → Bool
is_no_items no_items = true
is_no_items (item x xs) = false

unfoldable pub validate_input :
    Bytes → List Validator → InputValidator → Outcome (Bool × InputValidator)
unfolding push_validation_msgs push_val_list
validate_input fieldname rules v =
    elim (push_validation_msgs fieldname (get fieldname v.parameters) rules no_items) [
      | thrown e ↦ thrown e
      | ok result ↦ ok (not (is_no_items result), push_val_list fieldname result v)
    ]

abbrev pub is_listed : List (Bytes × List Validator) → Bytes → Bool
is_listed [] name = false
is_listed ((k, rules) ∷ args) name = str_eq k name || is_listed args name

abbrev pub unknown_field : Items
unknown_field = item (string (text "Não é um parâmetro reconhecido")) no_items

unfoldable pub find_values_not_in_list :
    List (Bytes × List Validator) → Members → InputValidator → InputValidator
unfolding push_val_list
find_values_not_in_list args no_members v = v
find_values_not_in_list args (member name x ms) v =
    find_values_not_in_list args ms
      (if is_listed args name then v else push_val_list name unknown_field v)

-- The fold over the fields; the results are joined by `|=`.
unfoldable pub validate_fields :
    List (Bytes × List Validator) → Bool → InputValidator → Outcome (Bool × InputValidator)
unfolding validate_input
validate_fields [] result v = ok (result, v)
validate_fields ((name, rules) ∷ args) result v = elim (validate_input name rules v) [
  | thrown e ↦ thrown e
  | ok r ↦ validate_fields args (result || r.0) r.1
]

unfoldable pub full_validation :
    List (Bytes × List Validator) → InputValidator → Outcome (Bool × InputValidator)
unfolding validate_fields find_values_not_in_list
full_validation args v = elim (validate_fields args false v) [
  | thrown e ↦ thrown e
  | ok r ↦ ok (r.0, find_values_not_in_list args r.1.parameters r.1)
]

unfoldable pub get_response : InputValidator → Option Members
get_response v = elim v.resultadofinal [
  | none ↦ none
  | some m ↦ some (set_member (text "resultado") (object (or_no_members v.resobj)) m)
]

abbrev messages_of : Outcome InputValidator → Outcome Var
messages_of (thrown e) = thrown e
messages_of (ok v) = elim v.resobj [ none ↦ ok empty | some m ↦ ok (object m) ]

-- validate of ObjectValidator; `validatefn` works on the validator of the inner object.
unfoldable pub object_validator : (Bytes → InputValidator → Outcome InputValidator) → Validator
object_validator validatefn fieldname empty = ok empty
object_validator validatefn fieldname (object ms) =
    messages_of (validatefn fieldname (new_validator ms))
object_validator validatefn fieldname _ = message (fieldname ++ text " deve ser um objeto")
