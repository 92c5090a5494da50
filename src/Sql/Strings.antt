-- ===== src/Sql/Strings.antt =====
-- The insert query of a JSON object of strings says what the object says.
use mathlib.Core.List.{append_assoc}
use cppapiframework.Common.{
  ℕ, suc, ◌≡◌, refl, ap, subst, ◌∙◌, true, false, some, List, [], ◌∷◌, ◌++◌, length, map, Bytes,
  text,
}
use cppapiframework.Common.Outcome.{ok}
use cppapiframework.Json.{string, Members, no_members, member, Poco, Converts}
use cppapiframework.Sql.{
  MySqlConnection, with_quotes, separated, firsts, seconds, build_generic_insert_query, Sizes,
  value_text, build_generic_insert_query_json,
}
use cppapiframework.Sql.Inserts.{
  names, insert_head, field_texts, Built, build_generic_insert_query_json-Built,
}
use cppapiframework.Sql.Literals.{Escapes, read_values, read_values-separated}

abbrev pub strings_object : List (Bytes × Bytes) → Members
strings_object [] = no_members
strings_object ((k, s) ∷ fields) = member k (string s) (strings_object fields)

abbrev quoted : MySqlConnection → List (Bytes × Bytes) → List (Bytes × Bytes)
quoted conn [] = []
quoted conn ((k, s) ∷ fields) = (k, with_quotes conn s) ∷ quoted conn fields

firsts-quoted :
    (conn : MySqlConnection) (fields : List (Bytes × Bytes))
    → firsts (quoted conn fields) ≡ firsts fields
firsts-quoted conn [] = refl
firsts-quoted conn ((k, s) ∷ fields) = ap (◌∷◌ k) (firsts-quoted conn fields)

seconds-quoted :
    (conn : MySqlConnection) (fields : List (Bytes × Bytes))
    → seconds (quoted conn fields) ≡ map (with_quotes conn) (seconds fields)
seconds-quoted conn [] = refl
seconds-quoted conn ((k, s) ∷ fields) = ap (◌∷◌ (with_quotes conn s)) (seconds-quoted conn fields)

names-strings_object :
    (fields : List (Bytes × Bytes)) → names (strings_object fields) ≡ firsts fields
names-strings_object [] = refl
names-strings_object ((k, s) ∷ fields) = ap (◌∷◌ k) (names-strings_object fields)

length-seconds : (fields : List (Bytes × Bytes)) → length (seconds fields) ≡ length fields
length-seconds [] = refl
length-seconds ((k, s) ∷ fields) = ap suc (length-seconds fields)

query_parts :
    (conn : MySqlConnection) (table : Bytes) (fields : List (Bytes × Bytes))
    → build_generic_insert_query table (quoted conn fields)
      ≡ insert_head table (firsts fields)
        ++ (separated true (map (with_quotes conn) (seconds fields)) ++ (text ")" ++ []))
unfolding build_generic_insert_query insert_head
query_parts conn table fields =
    rw (firsts-quoted conn fields, seconds-quoted conn fields) (simp append_assoc)

module _ (p : Poco) (converts : Converts p) (z : Sizes) (conn : MySqlConnection)
    (no_number : (s : Bytes) → z.is_numeric (string s) ≡ false) where
  field_texts-strings :
      (fields : List (Bytes × Bytes))
      → field_texts p z (some conn) (strings_object fields) ≡ ok (quoted conn fields)
  unfolding field_texts value_text
  field_texts-strings [] = refl
  field_texts-strings ((k, s) ∷ fields) =
      rw (no_number s, converts.to_text-string s, field_texts-strings fields) refl

  -- On a connection whose escaping can be read back, the query that is built for a JSON object of
  -- strings is its head with the object's names and a text of values, in which a reader of string
  -- literals finds exactly the strings, in their order and whatever bytes they hold, and nothing
  -- behind the closing bracket.
  pub build_generic_insert_query_json-strings :
      (un : ℕ → ℕ)
      → Escapes conn un
      → (q table : Bytes) (fields : List (Bytes × Bytes))
      → (t : Bytes) × (build_generic_insert_query_json p z
            (some conn)
            q
            table
            (some (strings_object fields))
          ≡ (ok tt, q ++ (insert_head table (firsts fields) ++ t)))
        × (read_values un (suc (length fields)) t ≡ some (seconds fields, []))
  build_generic_insert_query_json-strings un e q table fields = (
    separated true (map (with_quotes conn) (seconds fields)) ++ (text ")" ++ []),
    subst
          (λ texts. Built p z (some conn) q table (names (strings_object fields)) texts (
            build_generic_insert_query_json p z (some conn) q table (some (strings_object fields))))
          (field_texts-strings fields)
          (build_generic_insert_query_json-Built p z (some conn) q table (strings_object fields))
        ∙ ap (λ u. (ok tt, q ++ u)) (query_parts conn table fields),
    rw (← length-seconds fields) (read_values-separated conn un e (seconds fields) []),
  )
