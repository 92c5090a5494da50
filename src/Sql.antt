-- ===== src/Sql.antt =====
-- src/Database/CSql.hpp: the quoting of values and the insert queries. The escaping of a string
-- belongs to the connection, which is a parameter: `none` is a null pointer.
pub mod Inserts
pub mod Literals
pub mod Strings
use cppapiframework.Common.{
  ℕ, ◌+◌, ◌%◌, ◌^◌, ◌-◌, ltb, replicate, Bool, true, false, ◌&&◌, Option, none, some, List, [], ◌∷◌,
  ◌++◌, length, if◌then◌else◌, Bytes, text, is_empty,
}
use cppapiframework.Common.Outcome.{Outcome, ok, thrown, ◌>>=◌}
use cppapiframework.Common.Int.{ℤ}
use cppapiframework.Common.Decimal.{to_string, to_string_ℤ}
use cppapiframework.Json.{Var, string, Members, no_members, member, Poco}

-- A connection, by its escapeString.
abbrev pub MySqlConnection : Type 0
MySqlConnection = Bytes → Bytes

-- The guards that escape, esc_add_q and escape_add_qwith_unhex begin with, and what follows them.
unfoldable pub guarded :
    Option MySqlConnection → Bytes → Bool → (MySqlConnection → Bytes) → Outcome Bytes
guarded none val null_if_empty f = thrown (text "Resource is null")
guarded (some conn) val null_if_empty f =
    ok (if null_if_empty && is_empty val then text "NULL" else f conn)

unfoldable pub escape : Option MySqlConnection → Bytes → Bool → Outcome Bytes
unfolding guarded
escape conn val null_if_empty = guarded conn val null_if_empty (λ c. c val)

-- What esc_add_q builds behind its guards.
unfoldable pub with_quotes : MySqlConnection → Bytes → Bytes
with_quotes conn val = text "'" ++ (conn val ++ text "'")

unfoldable pub esc_add_q : Option MySqlConnection → Bytes → Bool → Outcome Bytes
unfolding guarded with_quotes
esc_add_q conn val null_if_empty = guarded conn val null_if_empty (λ c. with_quotes c val)

unfoldable pub escape_add_qwith_unhex : Option MySqlConnection → Bytes → Bool → Outcome Bytes
unfolding guarded
escape_add_qwith_unhex conn val null_if_empty =
    guarded conn val null_if_empty (λ c. text "UNHEX('" ++ (c val ++ text "')"))

-- The loops of build_generic_insert_query.
unfoldable pub separated : Bool → List Bytes → Bytes
separated first [] = []
separated first (s ∷ ss) = (if first then [] else text ", ") ++ (s ++ separated false ss)

abbrev pub firsts : List (Bytes × Bytes) → List Bytes
firsts [] = []
firsts ((a, b) ∷ l) = a ∷ firsts l

abbrev pub seconds : List (Bytes × Bytes) → List Bytes
seconds [] = []
seconds ((a, b) ∷ l) = b ∷ seconds l

-- The text that is appended, for the fields' names and the texts of their values.
unfoldable pub build_generic_insert_query : Bytes → List (Bytes × Bytes) → Bytes
unfolding separated
build_generic_insert_query table fields =
    text "INSERT INTO "
    ++ (table
        ++ (text "("
            ++ (separated true (firsts fields)
                ++ (text ") VALUES (" ++ (separated true (seconds fields) ++ text ")")))))

-- The sizes that the two loops in front of build_generic_insert_query's work add up.
unfoldable pub list_size : List Bytes → ℕ
list_size [] = 0
list_size (s ∷ ss) = length s + 2 + list_size ss

-- sizeof counts the literal's terminator.
unfoldable pub final_query_size : Bytes → List (Bytes × Bytes) → ℕ
unfolding list_size
final_query_size table fields =
    (length (text "INSERT INTO () VALUES ();")
      + 1
      + length table
      + list_size (firsts fields)
      + list_size (seconds fields))
    % 2 ^ 64

-- A query that is appended to, and an exception on the way.
abbrev pub Appended : Type 0
Appended = Outcome (Unit {0}) × Bytes

-- What is appended next, if it can be built.
unfoldable pub appending : Outcome Bytes → Bytes → (Bytes → Appended) → Appended
appending (thrown e) fullquery f = (thrown e, fullquery)
appending (ok s) fullquery f = f (fullquery ++ s)

-- Var::isNumeric and Var::size
pub record Sizes : Type 0 where
  pub is_numeric : Var → Bool
  pub size : Var → ℕ

abbrev is_string : Var → Bool
is_string (string s) = true
is_string _ = false

unfoldable pub fields_size : Sizes → Members → ℕ
fields_size z no_members = 0
fields_size z (member k v ms) =
    length k + 2 + (z.size v + (if is_string v then 4 else 2)) + fields_size z ms

-- A null pointer to the object throws where it is followed.
unfoldable pub get_insert_query_size : Sizes → Bytes → Option Members → Outcome ℕ
unfolding fields_size
get_insert_query_size z table none = thrown (text "Null pointer")
get_insert_query_size z table (some fielddata) = ok (
    (length (text "INSERT INTO () VALUES ();") + 1 + length table + fields_size z fielddata)
    % 2 ^ 64)

unfoldable pub append_comma_separed_fields : Bool → Bytes → Members → Bytes
append_comma_separed_fields first fullquery no_members = fullquery
append_comma_separed_fields first fullquery (member k v ms) =
    append_comma_separed_fields false (fullquery ++ ((if first then [] else text ", ") ++ k)) ms

-- What follows the values.
unfoldable pub closing : Appended → Appended
closing (thrown e, fullquery) = (thrown e, fullquery)
closing (ok a, fullquery) = (ok tt, fullquery ++ text ")")

module _ (p : Poco) (z : Sizes) (conn : Option MySqlConnection) where
  -- The text of one value.
  unfoldable pub value_text : Var → Outcome Bytes
  unfolding esc_add_q
  value_text v =
      if z.is_numeric v then p.to_text v else (p.to_text v >>= λ s. esc_add_q conn s false)

  unfoldable pub append_comma_separed_values : Bool → Bytes → Members → Appended
  unfolding value_text appending
  append_comma_separed_values first fullquery no_members = (ok tt, fullquery)
  append_comma_separed_values first fullquery (member k v ms) =
      appending (value_text v) (fullquery ++ (if first then [] else text ", "))
        λ q. append_comma_separed_values false q ms

  -- The object is there, and the room is reserved.
  unfoldable pub append_insert : Bytes → Bytes → Members → Appended
  unfolding append_comma_separed_fields append_comma_separed_values closing
  append_insert fullquery table fielddata = closing (
      append_comma_separed_values true
        (append_comma_separed_fields true
            (fullquery ++ (text "INSERT INTO " ++ (table ++ text "("))) fielddata
          ++ text ") VALUES (")
        fielddata)

  -- The reserved room changes nothing of the text.
  unfoldable pub build_generic_insert_query_json : Bytes → Bytes → Option Members → Appended
  unfolding get_insert_query_size append_insert
  build_generic_insert_query_json fullquery table none =
      appending (get_insert_query_size z table none >>= λ n. ok []) fullquery λ q. (ok tt, q)
  build_generic_insert_query_json fullquery table (some fielddata) =
      appending (get_insert_query_size z table (some fielddata) >>= λ n. ok []) fullquery
        λ q. append_insert q table fielddata

-- The row of the query for the identifier, if there is one; the driver may throw.
unfoldable pub get_last_inserted_id : Outcome (Option ℕ) → Outcome ℕ
get_last_inserted_id results = results >>= λ row. ok (elim row [ none ↦ 0 | some id ↦ id ])

unfoldable pub sql_date_add_now_seconds : ℤ → Bytes
sql_date_add_now_seconds seconds =
    text "DATE_ADD(NOW(), INTERVAL " ++ (to_string_ℤ seconds ++ text " SECOND)")

-- The local time to the second, which is the C library's, and the microseconds since the epoch.
unfoldable pub high_precision_time_to_str : Bytes → ℕ → Bytes
high_precision_time_to_str local_time mksec =
    let mksecstr = to_string (mksec % 1000000) in
    local_time
    ++ ((if ltb (length mksecstr) 6 then replicate (6 - length mksecstr) b'0' else []) ++ mksecstr)
