-- ===== src/Tests/Formats.antt =====
-- src/utils/StrFormat.hpp on small formats.
use cppapiframework.Common.{◌≡◌, refl, true, false, none, [], ◌∷◌, List, Bytes, text, arith}
use cppapiframework.Common.Int.{negsuc}
use cppapiframework.Common.Outcome.{ok, thrown}
use cppapiframework.Common.Decimal.{to_string, to_string_ℤ, stoull}
use cppapiframework.Json.{Poco}
use cppapiframework.Json.Stringify.{Options}
use cppapiframework.Text.Format.{
  Arg, boolean, chars, json, number, arg_to_string, strings_of, get_numeric_from_string,
  parameter_text, substitute, format_chr, format_loop, multi_register,
}
use cppapiframework.Text.Format.Pieces.{
  Piece, plain, parameter, quoted, written, filled, multi_register-written,
}

abbrev options : Options
options = record { strict_json = true; escape_all_unicode = false; append_hex = λ n w. [] }

abbrev no_poco : Poco
no_poco = record {
  parse = λ s. thrown (text "Syntax error");
  to_text = λ v. thrown (text "Bad cast");
  to_u64 = λ v. thrown (text "Bad cast");
  to_i64 = λ v. thrown (text "Bad cast");
}

abbrev args : List Arg
args = boolean true ∷ chars (text "50%") ∷ json none ∷ number (negsuc 4) ∷ []

abbrev argl : List Bytes
argl = text "true" ∷ text "50%" ∷ text "{NULL JSON}" ∷ text "-5" ∷ []

args-strings : strings_of options no_poco args ≡ ok argl
unfolding strings_of arg_to_string to_string_ℤ to_string
args-strings = refl

-- A `%` with no number vanishes, and so does a backslash before a letter.
test_format :
    multi_register options no_poco (text "%3 % \\a\\% %1 %7") args ≡ ok (text "-5  a% 50% %7")
unfolding multi_register strings_of arg_to_string to_string_ℤ to_string format_loop format_chr
    substitute get_numeric_from_string parameter_text stoull
test_format = refl

abbrev pieces : List Piece
pieces = plain (text "a\\5%") ∷ parameter 1 ∷ plain (text "0") ∷ parameter 9 ∷ []

multi_register-written_example :
    multi_register options no_poco (written pieces) args ≡ ok (filled argl pieces)
multi_register-written_example =
    multi_register-written options no_poco args argl pieces args-strings (omega arith)

test_pieces :
    (written pieces ≡ text "a\\\\\\5\\%%1\\0%9") × (filled argl pieces ≡ text "a\\5%50%0%9")
unfolding written quoted filled parameter_text to_string
test_pieces = (refl, refl)
