-- ===== src/Tests/Values.antt =====
-- src/utils/PocoJsonStringify.hpp on small values.
use cppapiframework.Common.{
  ℕ, ◌/◌, ◌%◌, ◌≤◌, ◌≡◌, refl, true, false, Option, none, some, if◌then◌else◌, [], ◌∷◌, ◌++◌, Bytes,
  text, str_eq, arith,
}
use cppapiframework.Common.Outcome.{Outcome, ok, thrown}
use cppapiframework.Json.{
  Var, empty, boolean, string, array, object, no_items, item, no_members, member, Poco,
}
use cppapiframework.Json.Stringify.{
  Options, offset_from_utf8, gather, is_continuation, escape_char, escape_loop, escape_json_utf8,
  format_chars, format_string, stringify,
}
use cppapiframework.Json.Stringify.Literal.{hex_digit, PadsHex}
use cppapiframework.Json.Stringify.Reader.{read_value}
use cppapiframework.Json.Stringify.Readings.{read_as, size, HasTexts}
use cppapiframework.Json.Stringify.RoundTrip.{read_value-stringify}
use cppapiframework.Json.Stringify.Strings.{escape_char-same_byte}

abbrev four_digits : ℕ → ℕ → Bytes
four_digits n w =
    hex_digit (n / 0x1000)
    ∷ hex_digit (n / 0x100 % 16)
    ∷ hex_digit (n / 0x10 % 16)
    ∷ hex_digit (n % 16)
    ∷ []

abbrev as_usual : Options
as_usual = record { strict_json = true; escape_all_unicode = false; append_hex = four_digits }

abbrev all_escaped : Options
all_escaped = record as_usual { escape_all_unicode = true }

four_digits-PadsHex : PadsHex as_usual
four_digits-PadsHex n h = refl

abbrev text_of : Var → Outcome Bytes
text_of (boolean b) = ok (if b then text "true" else text "false")
text_of _ = thrown (text "Bad cast")

abbrev poco : Poco
poco = record {
  parse = λ s. thrown (text "Syntax error");
  to_text = text_of;
  to_u64 = λ v. thrown (text "Bad cast");
  to_i64 = λ v. thrown (text "Bad cast");
}

abbrev truth_value : Bytes → Option Var
truth_value s =
    if str_eq s (text "true")
    then some (boolean true)
    else if str_eq s (text "false")
    then some (boolean false)
    else none

-- The escape for the letter U+0101 is the one for U+0001.
test_escape : escape_json_utf8 all_escaped (0xC4 ∷ 0x81 ∷ []) ≡ text "\\u0001"
unfolding escape_json_utf8 escape_loop escape_char gather is_continuation offset_from_utf8
test_escape = refl

escape_char-same_byte_example : escape_char all_escaped 0x101 ≡ escape_char all_escaped 0x201
escape_char-same_byte_example =
    escape_char-same_byte all_escaped 0x101 0x201 (omega arith) (omega arith) (omega arith)
      (omega arith) refl

abbrev a_value : Var
a_value = object (
    member (text "k")
      (array (item (boolean true) (item (string (text "\t")) (item empty no_items)))) no_members)

test_stringify : stringify as_usual poco a_value ≡ ok (text "{\"k\":[true,\"\\t\",null]}")
unfolding stringify format_string format_chars escape_json_utf8 escape_loop escape_char gather
    is_continuation offset_from_utf8
test_stringify = refl

a_value-HasTexts : HasTexts poco truth_value a_value
unfolding str_eq
a_value-HasTexts = (
  (
    (
      text "true",
      refl,
      (omega arith, omega arith, omega arith, (refl, (refl, (refl, (refl, tt)))), refl),
      refl,
    ),
    (tt, (tt, tt)),
  ),
  tt,
)

test_size : size a_value ≤ 20
unfolding size
test_size = omega arith

read_value-stringify_example :
    (t : Bytes) × (stringify as_usual poco a_value ≡ ok t)
    × (read_value truth_value 20 (t ++ text ",1") ≡ some (read_as poco a_value, text ",1"))
read_value-stringify_example =
    read_value-stringify as_usual poco truth_value a_value 20 (text ",1") four_digits-PadsHex refl
      refl a_value-HasTexts test_size refl
