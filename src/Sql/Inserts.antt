-- ===== src/Sql/Inserts.antt =====
-- The insert query of a JSON object, and the room that is reserved for a query.
use mathlib.Core.List.{append_assoc, append-nil}
use cppapiframework.Common.{
  ◌+◌, ◌^◌, ◌≤◌, ◌<◌, ◌≡◌, refl, sym, ap, ◌∙◌, Bool, true, false, Option, some, List, [], ◌∷◌, ◌++◌,
  length, length-append, if◌then◌else◌, Bytes, text, arith,
}
use cppapiframework.Common.Outcome.{Outcome, ok, thrown, ◌>>=◌, ok-injective, returns_both}
use cppapiframework.Json.{Members, no_members, member, Poco}
use cppapiframework.Sql.{
  MySqlConnection, separated, firsts, seconds, build_generic_insert_query, list_size,
  final_query_size, Appended, appending, Sizes, append_comma_separed_fields, value_text,
  append_comma_separed_values, closing, append_insert, get_insert_query_size,
  build_generic_insert_query_json,
}

abbrev pub names : Members → List Bytes
names no_members = []
names (member k v ms) = k ∷ names ms

length-separated : (first : Bool) (ss : List Bytes) → length (separated first ss) ≤ list_size ss
unfolding separated list_size
length-separated first [] = omega arith
length-separated true (s ∷ ss) =
    omega (arith, length-separated false ss, length-append s (separated false ss))
length-separated false (s ∷ ss) =
    omega (arith, length-separated false ss, length-append s (separated false ss))

-- The room that build_generic_insert_query reserves is enough for what it appends, where the sum of
-- the sizes fits size_t.
pub length-build_generic_insert_query :
    (table : Bytes) (fields : List (Bytes × Bytes))
    → 26 + length table + list_size (firsts fields) + list_size (seconds fields) < 2 ^ 64
    → length (build_generic_insert_query table fields) < final_query_size table fields
unfolding build_generic_insert_query final_query_size
length-build_generic_insert_query table fields h = omega (
  arith,
  length-append table (
      text "("
      ++ (separated true (firsts fields)
          ++ (text ") VALUES (" ++ (separated true (seconds fields) ++ text ")")))),
  length-append (separated true (firsts fields))
      (text ") VALUES (" ++ (separated true (seconds fields) ++ text ")")),
  length-append (separated true (seconds fields)) (text ")"),
  length-separated true (firsts fields),
  length-separated true (seconds fields),
)

append-fields :
    (first : Bool) (q : Bytes) (ms : Members)
    → append_comma_separed_fields first q ms ≡ q ++ separated first (names ms)
unfolding append_comma_separed_fields separated
append-fields first q no_members = rw (append-nil q) refl
append-fields true q (member k v ms) =
    append-fields false (q ++ k) ms ∙ append_assoc q k (separated false (names ms))
append-fields false q (member k v ms) =
    append-fields false (q ++ (text ", " ++ k)) ms
    ∙ append_assoc q (text ", " ++ k) (separated false (names ms))

-- A query up to its values.
unfoldable pub insert_head : Bytes → List Bytes → Bytes
unfolding separated
insert_head table ns =
    text "INSERT INTO " ++ (table ++ (text "(" ++ (separated true ns ++ text ") VALUES (")))

module _ (p : Poco) (z : Sizes) (conn : Option MySqlConnection) where
  -- The fields with the texts of their values, or the first exception.
  unfoldable pub field_texts : Members → Outcome (List (Bytes × Bytes))
  field_texts no_members = ok []
  field_texts (member k v ms) = do
    t ← value_text p z conn v
    fields ← field_texts ms
    ok ((k, t) ∷ fields)

  -- What has become of a query `q`, by the texts of the values.
  abbrev Listed : Bool → Bytes → Outcome (List (Bytes × Bytes)) → Appended → Type 0
  Listed first q (ok fields) r = r ≡ (ok tt, q ++ separated first (seconds fields))
  Listed first q (thrown e) r = (t : Bytes) × (r ≡ (thrown e, q ++ t))

  abbrev pub Built : Bytes → Bytes → List Bytes → Outcome (List (Bytes × Bytes)) → Appended → Type 0
  Built q table ns (ok fields) r = r ≡ (ok tt, q ++ build_generic_insert_query table fields)
  Built q table ns (thrown e) r = (t : Bytes) × (r ≡ (thrown e, q ++ (insert_head table ns ++ t)))

  Listed-next :
      (first : Bool) (q k t : Bytes) (texts : Outcome (List (Bytes × Bytes))) (r : Appended)
      → Listed false ((q ++ (if first then [] else text ", ")) ++ t) texts r
      → Listed first q (do fields ← texts; ok ((k, t) ∷ fields)) r
  unfolding separated
  Listed-next first q k t (ok fields) r e =
      e
      ∙ ap (λ u. (ok tt, u))
          (append_assoc (q ++ (if first then [] else text ", ")) t
              (separated false (seconds fields))
            ∙ append_assoc q (if first then [] else text ", ")
                (t ++ separated false (seconds fields)))
  Listed-next first q k t (thrown x) r (u, e) = (
    (if first then [] else text ", ") ++ (t ++ u),
    e
        ∙ ap (λ u'. (thrown x, u'))
            (append_assoc (q ++ (if first then [] else text ", ")) t u
              ∙ append_assoc q (if first then [] else text ", ") (t ++ u)),
  )

  append_value-Listed :
      (first : Bool) (q k : Bytes) (ms : Members) (o : Outcome Bytes) (f : Bytes → Appended)
      → ((u : Bytes) → Listed false u (field_texts ms) (f u))
      → Listed first q
          (do t ← o; fields ← field_texts ms; ok ((k, t) ∷ fields))
          (appending o (q ++ (if first then [] else text ", ")) f)
  unfolding appending
  append_value-Listed first q k ms (thrown e) f rest = (if first then [] else text ", ", refl)
  append_value-Listed first q k ms (ok t) f rest =
      Listed-next first q k t (field_texts ms) (f ((q ++ (if first then [] else text ", ")) ++ t))
        (rest ((q ++ (if first then [] else text ", ")) ++ t))

  append-Listed :
      (first : Bool) (q : Bytes) (ms : Members)
      → Listed first q (field_texts ms) (append_comma_separed_values p z conn first q ms)
  unfolding append_comma_separed_values field_texts separated
  append-Listed first q no_members = rw (append-nil q) refl
  append-Listed first q (member k v ms) =
      append_value-Listed first q k ms (value_text p z conn v)
        (λ u. append_comma_separed_values p z conn false u ms) (λ u. append-Listed false u ms)

  field_texts-names :
      (ms : Members) (fields : List (Bytes × Bytes))
      → field_texts ms ≡ ok fields
      → firsts fields ≡ names ms
  unfolding field_texts
  field_texts-names no_members fields e = ap firsts (sym (ok-injective [] fields e))
  field_texts-names (member k v ms) fields e =
      let (t, et, e1) = returns_both (value_text p z conn v) _ fields e in
      let (rest, er, e2) = returns_both (field_texts ms) _ fields e1 in
      rw (← ok-injective ((k, t) ∷ rest) fields e2) (ap (◌∷◌ k) (field_texts-names ms rest er))

  closing-Built :
      (q table : Bytes) (ns : List Bytes) (texts : Outcome (List (Bytes × Bytes))) (r : Appended)
      → ((fields : List (Bytes × Bytes)) → texts ≡ ok fields → firsts fields ≡ ns)
      → Listed true (q ++ insert_head table ns) texts r
      → Built q table ns texts (closing r)
  unfolding insert_head build_generic_insert_query closing
  closing-Built q table ns (ok fields) r named e =
      rw (e, ← named fields refl, closing) (simp append_assoc)
  closing-Built q table ns (thrown x) r named (t, e) =
      (t, rw (e, closing) (ap (λ u. (thrown x, u)) (append_assoc q (insert_head table ns) t)))

  head_text :
      (q table : Bytes) (ms : Members)
      → append_comma_separed_fields true (q ++ (text "INSERT INTO " ++ (table ++ text "("))) ms
          ++ text ") VALUES ("
        ≡ q ++ insert_head table (names ms)
  unfolding insert_head
  head_text q table ms =
      rw (append-fields true (q ++ (text "INSERT INTO " ++ (table ++ text "("))) ms)
        (simp append_assoc)

  -- For a JSON object the query that is appended is the one build_generic_insert_query builds from
  -- the members' names and the texts of their values, numbers as they are and all else quoted. If a
  -- value has no text, its exception is thrown, and the query is left with the statement begun: its
  -- head with every name, and what was written of the values.
  pub build_generic_insert_query_json-Built :
      (q table : Bytes) (ms : Members)
      → Built q table
          (names ms)
          (field_texts ms)
          (build_generic_insert_query_json p z conn q table (some ms))
  unfolding build_generic_insert_query_json get_insert_query_size appending append_insert
  build_generic_insert_query_json-Built q table ms =
      rw (append-nil q, head_text q table ms)
        (closing-Built q table (names ms) (field_texts ms)
          (append_comma_separed_values p z conn true (q ++ insert_head table (names ms)) ms)
          (field_texts-names ms) (append-Listed true (q ++ insert_head table (names ms)) ms))
