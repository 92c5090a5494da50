-- ===== src/Tests/Fields.antt =====
-- src/utils/Strutils.hpp and the validators on small inputs.
use cppapiframework.Common.{
  ℕ, ◌≤◌, ◌<◌, ◌≡◌, refl, ◌⊎◌, Bool, starts_with, List, [], ◌∷◌, ◌++◌, arith, Bytes, text, leb,
}
use cppapiframework.Common.Int.{pos}
use cppapiframework.Common.Outcome.{Outcome, ok, thrown}
use cppapiframework.Json.{
  Var, empty, number, string, array, no_items, item, no_members, member, Poco,
}
use cppapiframework.Text.Split.{explode, explode_loop, join, find}
use cppapiframework.Text.Split.Laws.{AllClear, join-explode, explode-AllClear}
use cppapiframework.Text.Url.{arrmap, flush, decode_chr, decode_loop, url_decode}
use cppapiframework.Text.Url.RoundTrip.{percent_encode, url_decode-percent_encode}
use cppapiframework.Validation.Rules.{
  Validator, required_validator, string_length_validator, or_validator, array_validator, add_item,
  check_length,
}
use cppapiframework.Validation.Rules.Laws.{
  Accepts, Rejects, SomeAccepts, AllReject, string_length_validator-bounds, or_validator-rules,
  array_validator-last,
}
use cppapiframework.Validation.Input.{new_validator, full_validation}
use cppapiframework.Validation.Input.Laws.{LeavesNoted, full_validation-LeavesNoted}

abbrev text_of : Var → Outcome Bytes
text_of (string s) = ok s
text_of _ = thrown (text "Bad cast")

abbrev poco : Poco
poco = record {
  parse = λ s. thrown (text "Syntax error");
  to_text = text_of;
  to_u64 = λ v. thrown (text "Bad cast");
  to_i64 = λ v. thrown (text "Bad cast");
}

test_explode : explode (text "a,,b,") (text ",") ≡ text "a" ∷ [] ∷ text "b" ∷ []
unfolding explode explode_loop find starts_with
test_explode = refl

test_url_decode : url_decode (text "a%20b%2x%C3%A9") ≡ text "a b" ++ 0x20 ∷ text "é"
unfolding url_decode decode_loop decode_chr flush arrmap
test_url_decode = refl

join-explode_example :
    (join (explode (text "a,,b,") (text ",")) (text ",") ≡ text "a,,b,")
    ⊎ (join (explode (text "a,,b,") (text ",")) (text ",") ++ text "," ≡ text "a,,b,")
join-explode_example = join-explode (text "a,,b,") (text ",")

explode-AllClear_example : AllClear (text ",") (explode (text "a,,b,") (text ","))
explode-AllClear_example = explode-AllClear (text "a,,b,") (text ",") refl

-- Small letters are left as they are.
abbrev keep : ℕ → Bool
keep c = leb 97 c

url_decode-percent_encode_example : url_decode (percent_encode keep (text "a b")) ≡ text "a b"
url_decode-percent_encode_example =
    url_decode-percent_encode keep (text "a b") refl (omega arith, (omega arith, (omega arith, tt)))

string_length_validator-bounds_example :
    ((2 ≤ 3)
      × (3 ≤ 4)
      × Accepts (string_length_validator poco 2 4 (text "nome") (string (text "abc"))))
    ⊎ (((3 < 2) ⊎ (4 < 3))
        × Rejects (string_length_validator poco 2 4 (text "nome") (string (text "abc"))))
string_length_validator-bounds_example =
    string_length_validator-bounds poco 2 4 (text "nome") (string (text "abc")) (text "abc") refl
      refl

abbrev rules : List Validator
rules = string_length_validator poco 5 9 ∷ required_validator ∷ []

or_validator-rules_example :
    (Accepts (or_validator rules (text "nome") (string (text "abc")))
      × SomeAccepts (text "nome") (string (text "abc")) rules)
    ⊎ (Rejects (or_validator rules (text "nome") (string (text "abc")))
        × AllReject (text "nome") (string (text "abc")) rules)
unfolding string_length_validator required_validator check_length
or_validator-rules_example =
    or_validator-rules (text "nome") (string (text "abc")) rules ((_, refl), ((_, refl), tt))

-- The first element has a message, the last one has none.
abbrev small : Bytes → ℕ → Var → Outcome Var
small fieldname index (string s) = ok (string s)
small fieldname index _ = ok empty

array_validator-last_example :
    array_validator small
      (text "lista")
      (array (add_item (item (string (text "ruim")) no_items) (number (pos 1))))
    ≡ ok empty
array_validator-last_example =
    array_validator-last small (text "lista") (item (string (text "ruim")) no_items)
      (number (pos 1)) ((_, refl), tt)

full_validation-LeavesNoted_example : LeavesNoted (
    full_validation
      ((text "nome", rules) ∷ [])
      (new_validator (member (text "nome") (string (text "abc")) no_members)))
full_validation-LeavesNoted_example =
    full_validation-LeavesNoted ((text "nome", rules) ∷ [])
      (member (text "nome") (string (text "abc")) no_members)
