-- ===== src/Tests/Structs.antt =====
-- src/JSON/StructParser.hpp on a small struct.
use mathlib.Core.List.{Perm}
use cppapiframework.Common.{
  ℕ, ◌≡◌, refl, sym, ap, some, List, [], ◌∷◌, Bytes, text, get_elem?, str_eq,
}
use cppapiframework.Common.Decimal.{to_string_ℤ}
use cppapiframework.Common.Dict.{Dict, lookup}
use cppapiframework.Common.Int.{pos}
use cppapiframework.Common.Outcome.{Outcome, ok, thrown, ok-injective}
use cppapiframework.StructParser.Document.{HasShape, document}
use cppapiframework.StructParser.Document.RoundTrip.{run-document}
use cppapiframework.StructParser.Filler.{
  open_in_dict, open_in_struct, set_holder, Library, Filler, shown, convert_to, open_slot, store,
  fill, make_array,
}
use cppapiframework.StructParser.Machine.{
  Parser, Event, key, value, start_array, end_array, null, run, handle, start, start_in, finish,
  put_value, target_of, parser_of,
}
use cppapiframework.StructParser.Sorting.{greater, exchange, sort_from, ctexppairsort}
use cppapiframework.StructParser.Sorting.Order.{IsSorted}
use cppapiframework.StructParser.Sorting.Laws.{Distinct, ctexppairsort_lem}
use cppapiframework.StructParser.Target.{
  Elements, Kind, int, unsigned, int64, uint64, string, real, boolean, Scalar, int_value,
  text_value, kind_of, same_kind, Shape, basic, vec, dict, struct, Fields, no_fields, field, Target,
  leaf, node, nothing, element, default, default_fields, at, put, find_key, find_field,
}
use cppapiframework.StructParser.Types.{HasType}
use cppapiframework.StructParser.Types.Run.{run_keeps_types}
use cppapiframework.StructParser.Types.Steps.{ConvertsToType}

abbrev to_kind : Kind → Scalar → Outcome Scalar
to_kind string x = ok (text_value (shown x))
to_kind int x = thrown (text "Syntax error")
to_kind unsigned x = thrown (text "Syntax error")
to_kind int64 x = thrown (text "Syntax error")
to_kind uint64 x = thrown (text "Syntax error")
to_kind real x = thrown (text "Syntax error")
to_kind boolean x = thrown (text "Syntax error")

abbrev poco : Library
poco = record { convert = to_kind; type_name = λ s. text "type" }

poco-ConvertsToType : ConvertsToType poco
poco-ConvertsToType string x y e = ap kind_of (sym (ok-injective (text_value (shown x)) y e))
poco-ConvertsToType int x y e = cc
poco-ConvertsToType unsigned x y e = cc
poco-ConvertsToType int64 x y e = cc
poco-ConvertsToType uint64 x y e = cc
poco-ConvertsToType real x y e = cc
poco-ConvertsToType boolean x y e = cc

-- A name, numbers, and texts by name.
abbrev person : Shape
person = struct (
    field (text "name") (basic string) (
      field (text "ages") (vec (basic int))
        (field (text "more") (dict (vec (basic string))) no_fields)))

abbrev a_text : Bytes → Target
a_text s = leaf (text_value s)

abbrev a_person : Target
a_person = node (
    element (text "name") (a_text (text "Ana")) (
      element (text "ages")
        (node
          (element [] (leaf (int_value (pos 7))) (element [] (leaf (int_value (pos 9))) nothing)))
        (element (text "more")
          (node (element (text "x") (node (element [] (a_text (text "y")) nothing)) nothing))
          nothing)))

a_person-HasShape : HasShape person a_person
unfolding find_field find_key str_eq
a_person-HasShape = (
  refl,
  refl,
  refl,
  refl,
  (
    refl,
    refl,
    refl,
    (refl, refl, (refl, refl, tt)),
    (refl, refl, refl, (refl, refl, (refl, refl, tt), tt), tt),
  ),
)

run-document_example :
    (k : Bytes) × (run poco (document person a_person) (parser_of person)
      ≡ ok (record (parser_of person) { current_key = k; root = a_person }))
run-document_example = run-document poco person a_person tt a_person-HasShape

-- A number for the name is converted; the bracket that nothing opened changes nothing.
abbrev some_events : List Event
some_events =
    key (text "name")
    ∷ value (int_value (pos 5))
    ∷ null
    ∷ end_array
    ∷ key (text "ages")
    ∷ start_array
    ∷ value (int_value (pos 7))
    ∷ []

abbrev after_them : Parser
after_them = record {
  current_key = text "ages";
  current = record { shape = vec (basic int); place = 1 ∷ [] };
  stack = record { shape = person; place = [] } ∷ [];
  root = node (
      element (text "name") (a_text (text "5")) (
        element (text "ages") (node (element [] (leaf (int_value (pos 7))) nothing))
          (element (text "more") (node nothing) nothing)));
}

test_run : run poco some_events (parser_of person) ≡ ok after_them
unfolding run handle start start_in finish put_value target_of at put fill store set_holder
    open_slot open_in_dict open_in_struct convert_to make_array shown to_string_ℤ same_kind
    find_field str_eq default default_fields
test_run = refl

run_keeps_types_example :
    HasType person after_them.root
    × ((n : ℕ) (f : Filler)
        → get_elem? (after_them.current ∷ after_them.stack) n ≡ some f
        → (t : Target) × (at f.place after_them.root ≡ some t) × HasType f.shape t)
run_keeps_types_example =
    run_keeps_types poco person some_events after_them poco-ConvertsToType test_run

abbrev a_field : Fields
a_field = field (text "name") (basic string) no_fields

abbrev a_name : Elements
a_name = element (text "name") (a_text (text "Ana")) nothing

abbrev at_map : Parser
at_map = record {
  current_key = [];
  current = record { shape = dict (basic string); place = [] };
  stack = [];
  root = node (element (text "a") (a_text (text "first")) nothing);
}

test_at_map : at [] at_map.root ≡ some at_map.root
unfolding at
test_at_map = refl

test_key : find_key (text "a") (element (text "a") (a_text (text "first")) nothing) ≡ some 0
unfolding find_key str_eq
test_key = refl

test_convert : convert_to poco (basic string) (int_value (pos 2)) ≡ ok (a_text (text "2"))
unfolding convert_to same_kind shown to_string_ℤ
test_convert = refl

abbrev names : Dict ℕ
names = (text "val", 0) ∷ (text "userdata", 1) ∷ (text "anotherval", 2) ∷ []

test_sort :
    ctexppairsort names ≡ (text "anotherval", 2) ∷ (text "userdata", 1) ∷ (text "val", 0) ∷ []
unfolding ctexppairsort sort_from exchange greater
test_sort = refl

ctexppairsort_lem_example :
    Perm (ctexppairsort names) names
    × IsSorted (ctexppairsort names)
    × (Distinct names → (k : Bytes) → lookup k (ctexppairsort names) ≡ lookup k names)
ctexppairsort_lem_example = ctexppairsort_lem names
