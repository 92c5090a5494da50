-- ===== src/Tests/Queries.antt =====
-- src/Database/CSql.hpp on small objects.
use cppapiframework.Common.{
  ◌≡◌, refl, true, false, some, none, [], ◌∷◌, ◌++◌, ◌==◌, ◌||◌, List, Bytes, text, arith,
  if◌then◌else◌, inl, inr, Bool-cases,
}
use cppapiframework.Common.Int.{pos, negsuc, pos_part}
use cppapiframework.Common.Decimal.{to_string, to_string_ℤ}
use cppapiframework.Common.Outcome.{ok, thrown}
use cppapiframework.Json.{string, number, empty, Members, no_members, member, Poco, Converts}
use cppapiframework.Sql.{
  MySqlConnection, guarded, with_quotes, esc_add_q, escape_add_qwith_unhex, firsts, seconds,
  appending, Sizes, get_insert_query_size, fields_size, append_comma_separed_fields, value_text,
  append_comma_separed_values, closing, append_insert, build_generic_insert_query_json,
  sql_date_add_now_seconds, high_precision_time_to_str,
}
use cppapiframework.Sql.Inserts.{
  field_texts, Built, insert_head, build_generic_insert_query_json-Built,
}
use cppapiframework.Sql.Literals.{quote, backslash, Escapes, read_values}
use cppapiframework.Sql.Strings.{strings_object, build_generic_insert_query_json-strings}

-- A driver that writes a backslash before quotes and backslashes.
abbrev conn : MySqlConnection
conn [] = []
conn (b ∷ s) = if b == quote || b == backslash then backslash ∷ b ∷ conn s else b ∷ conn s

conn-Escapes : Escapes conn (λ b. b)
conn-Escapes = record {
  escape-nil = refl;
  escape-cons = λ b s. elim (Bool-cases (b == quote || b == backslash)) [
    | inl e ↦ inr (b, rw e refl, refl)
    | inr e ↦ inl (rw e refl, ground arith, ground arith)
  ];
}

abbrev sizes : Sizes
sizes = record { is_numeric = λ v. elim v [ number z ↦ true | _ ↦ false ]; size = λ v. 1 }

abbrev conversions : Poco
conversions = record {
  parse = λ s. thrown (text "Syntax error");
  to_text = λ v. elim v [
    | string s ↦ ok s
    | number z ↦ ok (text "7")
    | _ ↦ thrown (text "Invalid access")
  ];
  to_u64 = λ v. elim v [ number z ↦ ok (pos_part z) | _ ↦ thrown (text "Bad cast") ];
  to_i64 = λ v. elim v [ number z ↦ ok z | _ ↦ thrown (text "Bad cast") ];
}

conversions-Converts : Converts conversions
conversions-Converts = record {
  to_text-string = λ s. refl;
  to_u64-number = λ n h. refl;
  to_i64-number = λ z h h'. refl;
}

abbrev a_row : Members
a_row =
    member (text "id") (number (pos 7)) (member (text "name") (string (text "O'Neil")) no_members)

test_query :
    build_generic_insert_query_json conversions sizes (some conn) [] (text "t") (some a_row)
    ≡ (ok tt, text "INSERT INTO t(id, name) VALUES (7, 'O\\'Neil')")
unfolding build_generic_insert_query_json get_insert_query_size fields_size appending append_insert
    append_comma_separed_fields append_comma_separed_values value_text esc_add_q guarded with_quotes
    closing
test_query = refl

test_escapes :
    (esc_add_q none (text "a") false ≡ thrown (text "Resource is null"))
    × (escape_add_qwith_unhex (some conn) [] true ≡ ok (text "NULL"))
    × (escape_add_qwith_unhex (some conn) (text "ff") true ≡ ok (text "UNHEX('ff')"))
unfolding esc_add_q escape_add_qwith_unhex guarded
test_escapes = (refl, refl, refl)

-- A member with no value stops the query in the middle.
build_generic_insert_query_json-Built_example :
    Built conversions sizes
      (some conn)
      []
      (text "t")
      (text "id" ∷ text "x" ∷ [])
      (field_texts conversions sizes
        (some conn)
        (member (text "id") (number (pos 7)) (member (text "x") empty no_members)))
      (build_generic_insert_query_json conversions sizes
        (some conn)
        []
        (text "t")
        (some (member (text "id") (number (pos 7)) (member (text "x") empty no_members))))
build_generic_insert_query_json-Built_example =
    build_generic_insert_query_json-Built conversions sizes (some conn) [] (text "t")
      (member (text "id") (number (pos 7)) (member (text "x") empty no_members))

abbrev two_strings : List (Bytes × Bytes)
two_strings = (text "a", text "x', y); --\\") ∷ (text "b", []) ∷ []

build_generic_insert_query_json-strings_example :
    (t : Bytes) × (build_generic_insert_query_json conversions sizes
        (some conn)
        []
        (text "t")
        (some (strings_object two_strings))
      ≡ (ok tt, [] ++ (insert_head (text "t") (firsts two_strings) ++ t)))
    × (read_values (λ b. b) 3 t ≡ some (seconds two_strings, []))
build_generic_insert_query_json-strings_example =
    build_generic_insert_query_json-strings conversions conversions-Converts sizes conn (λ s. refl)
      (λ b. b) conn-Escapes [] (text "t") two_strings

test_read :
    read_values (λ b. b) 3 (text "'it''s\\\\', 'b')") ≡ some (text "it's\\" ∷ text "b" ∷ [], [])
unfolding read_values
test_read = refl

test_dates :
    (sql_date_add_now_seconds (negsuc 59) ≡ text "DATE_ADD(NOW(), INTERVAL -60 SECOND)")
    × (high_precision_time_to_str (text "2021/05/16 10:00:00.") 3000042
        ≡ text "2021/05/16 10:00:00.000042")
unfolding sql_date_add_now_seconds high_precision_time_to_str to_string to_string_ℤ
test_dates = (refl, refl)
