-- ===== src/Validation/Rules.antt =====
-- src/utils/InputValidators.hpp, src/utils/InputValidators.cpp: the validators of one field. A
-- validator answers the empty Var, or a message; what it throws goes on to the caller. A field's
-- name stands for the text up to its terminator.
pub mod Laws
use cppapiframework.Common.{
  ℕ, ◌+◌, Bool, true, false, ◌&&◌, Option, none, some, List, [], ◌∷◌, ◌++◌, ltb, leb, if◌then◌else◌,
  Bytes, text, is_empty, length,
}
use cppapiframework.Common.Decimal.{to_string, stoll}
use cppapiframework.Common.Outcome.{Outcome, ok, thrown}
use cppapiframework.Json.{
  Var, empty, null_object, string, array, object, Items, no_items, item, Members, no_members,
  member, is_empty_var, set_member, Poco,
}

abbrev pub Validator : Type 0
Validator = Bytes → Var → Outcome Var

-- A text as a message.
abbrev pub message : Bytes → Outcome Var
message s = ok (string s)

unfoldable pub required_validator : Validator
required_validator fieldname valchk =
    if is_empty_var valchk then message (fieldname ++ text " deve possuir um valor") else ok empty

abbrev integer_text : Bytes → Outcome Bytes → Outcome Var
integer_text fieldname (thrown e) = message (fieldname ++ text " deve ser um inteiro válido")
integer_text fieldname (ok s) = elim (stoll s) [
  | none ↦ message (fieldname ++ text " deve ser um inteiro válido")
  | some n ↦ ok empty
]

unfoldable pub integer_validator : Poco → Validator
integer_validator poco fieldname valchk =
    if is_empty_var valchk then ok empty else integer_text fieldname (poco.to_text valchk)

-- `matches` is regex_match with the validator's pattern.
unfoldable pub email_validator : Poco → (Bytes → Bool) → Validator
email_validator poco matches fieldname valchk =
    if is_empty_var valchk then ok empty else elim (poco.to_text valchk) [
      | thrown e ↦ thrown e
      | ok s ↦
          if matches s then ok empty else message (fieldname ++ text " deve ser um email válido")
    ]

abbrev pub length_message : ℕ → ℕ → Bytes → Bytes
length_message min max fieldname =
    fieldname
    ++ text " deve ter entre "
    ++ to_string min
    ++ text " e "
    ++ to_string max
    ++ text " caracteres"

abbrev pub empty_message : Bytes → Bytes
empty_message fieldname = fieldname ++ text " não pode ser vazio"

unfoldable pub check_length : ℕ → ℕ → Bytes → Bytes → Outcome Var
check_length min max fieldname str =
    if is_empty str && ltb 0 min
    then message (empty_message fieldname)
    else if leb min (length str) && leb (length str) max
    then ok empty
    else message (length_message min max fieldname)

unfoldable pub string_length_validator : Poco → ℕ → ℕ → Validator
unfolding check_length
string_length_validator poco min max fieldname valchk =
    if is_empty_var valchk
    then message (length_message min max fieldname)
    else elim (poco.to_text valchk) [
      | thrown e ↦ thrown e
      | ok str ↦ check_length min max fieldname str
    ]

-- std::find over the allowed values. `equals` compares one with a Var, and may throw.
unfoldable pub find_value : {A : Type 0} → (A → Var → Outcome Bool) → Var → List A → Outcome Bool
find_value equals valchk [] = ok false
find_value equals valchk (x ∷ xs) =
    let rest = find_value equals valchk xs in
    elim (equals x valchk) [ thrown e ↦ thrown e | ok b ↦ if b then ok true else rest ]

abbrev pub found : Outcome Bool → Bool
found (ok b) = b
found (thrown e) = false

-- `shown` is fail_message with the texts of the values.
unfoldable pub in_array_validator :
    {A : Type 0} → (A → Var → Outcome Bool) → (Bytes → Bytes) → List A → Bool → Validator
unfolding find_value
in_array_validator equals shown dataarray empty_pass fieldname valchk =
    if empty_pass && is_empty_var valchk
    then message (shown fieldname)
    else if found (find_value equals valchk dataarray)
    then ok empty
    else message (shown fieldname)

-- The array of the messages, in their order.
unfoldable pub add_item : Items → Var → Items
add_item no_items v = item v no_items
add_item (item x xs) v = item x (add_item xs v)

-- validate_or on the rules in their order; `some info` is the messages when none has passed.
unfoldable pub validate_or : Bytes → Var → List Validator → Items → Outcome (Option Items)
unfolding add_item
validate_or fieldname valchk [] info = ok (some info)
validate_or fieldname valchk (r ∷ rules) info = elim (r fieldname valchk) [
  | thrown e ↦ thrown e
  | ok v ↦
      let rest = validate_or fieldname valchk rules (add_item info v) in
      if is_empty_var v then ok none else rest
]

-- With no rule at all, `regras` is a null pointer; a validator has at least one here.
unfoldable pub or_answer : Outcome (Option Items) → Outcome Var
or_answer (thrown e) = thrown e
or_answer (ok none) = ok empty
or_answer (ok (some info)) = ok (
    object (
      set_member (text "regras") (array info) (
        set_member (text "mensagem")
          (string (text "Valor inválido, deve atender uma das regras a seguir:")) no_members)))

unfoldable pub or_validator : List Validator → Validator
unfolding validate_or or_answer
or_validator rules fieldname valchk = or_answer (validate_or fieldname valchk rules no_items)

-- The loop over an array. `last` is resultadoValidacao.
unfoldable pub validate_items :
    (Bytes → ℕ → Var → Outcome Var) → Bytes → ℕ → Items → Var → Outcome Var
validate_items validatefn fieldname index no_items last = ok last
validate_items validatefn fieldname index (item value items) last =
    elim (validatefn fieldname index value) [
      | thrown e ↦ thrown e
      | ok v ↦ validate_items validatefn fieldname (index + 1) items v
    ]

unfoldable pub array_validator : (Bytes → ℕ → Var → Outcome Var) → Validator
unfolding validate_items
array_validator validatefn fieldname empty = ok empty
array_validator validatefn fieldname (array items) =
    validate_items validatefn fieldname 0 items empty
array_validator validatefn fieldname _ = message (fieldname ++ text " deve ser um array")

unfoldable pub default_if_not_present_validate : Validator
default_if_not_present_validate fieldname valchk = ok empty

-- validate_and_modify: the object behind the call.
unfoldable pub default_if_not_present : Var → Members → Bytes → Var → Members
default_if_not_present default_value jsondata fieldname valchk =
    if is_empty_var valchk then set_member fieldname default_value jsondata else jsondata
