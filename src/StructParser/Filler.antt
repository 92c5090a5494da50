-- ===== src/StructParser/Filler.antt =====
-- src/JSON/StructParser.hpp, src/JSON/StructParserMacros.hpp: the fillers, each of which writes into
-- one object. What is thrown leaves the object behind in a state that is not kept here.
use cppapiframework.Common.{ℕ, text, Option, none, some, List, [], ◌++◌, Bytes, if◌then◌else◌}
use cppapiframework.Common.Decimal.{to_string, to_string_ℤ}
use cppapiframework.Common.Outcome.{Outcome, ok, thrown, ◌>>=◌}
use cppapiframework.StructParser.Target.{
  Kind, int, unsigned, int64, uint64, string, real, boolean, Scalar, int_value, int64_value,
  unsigned_value, uint64_value, text_value, real_value, boolean_value, kind_of, same_kind, Shape,
  basic, vec, dict, struct, Fields, Target, Elements, leaf, node, count, set_nth, add, default,
  find_key, find_field,
}

-- Poco's conversion of a held value to another type, and the name that typeid gives a type.
pub record Library : Type 0 where
  pub convert : Kind → Scalar → Outcome Scalar
  pub type_name : Shape → Bytes

-- A filler writes into the object at `place`, which has the type `shape`.
pub record Filler : Type 0 where
  pub shape : Shape
  pub place : List ℕ

abbrev unknown : {A : Type 0} → Library → Shape → Outcome A
unknown l s = thrown (text "Unknown type " ++ l.type_name s)

-- startObjectFor
unfoldable pub make_object : Library → Shape → List ℕ → Outcome Filler
make_object l (dict s) p = ok record { shape = dict s; place = p }
make_object l (struct fs) p = ok record { shape = struct fs; place = p }
make_object l (basic k) p = unknown l (basic k)
make_object l (vec s) p = unknown l (vec s)

-- startArrayFor
unfoldable pub make_array : Library → Shape → List ℕ → Outcome Filler
make_array l (vec s) p = ok record { shape = vec s; place = p }
make_array l (dict s) p = unknown l (dict s)
make_array l (struct fs) p = unknown l (struct fs)
make_array l (basic k) p = unknown l (basic k)

-- setField, emplace_data, move_data: what a value becomes in an object of a type.
unfoldable pub convert_to : Library → Shape → Scalar → Outcome Target
convert_to l (basic k) x =
    if same_kind (kind_of x) k then ok (leaf x) else l.convert k x >>= λ y. ok (leaf y)
convert_to l (vec s) x = thrown (text "Unavailable")
convert_to l (dict s) x = thrown (text "Unavailable")
convert_to l (struct fs) x = thrown (text "Unavailable for " ++ l.type_name (struct fs))

-- The object that a '{' or a '[' starts: its type, its position in the container, and the elements
-- of the container with it.
abbrev pub Opening : Type 0
Opening = Outcome (Shape × ℕ × Elements)

abbrev pub open_in_vec : Shape → Elements → Opening
open_in_vec s es = ok (s, count es, add es [] (default s))

unfoldable pub open_in_dict : Shape → Bytes → Elements → Opening
open_in_dict s key es = elim (find_key key es) [
  | none ↦ ok (s, count es, add es key (default s))
  | some n ↦ ok (s, n, es)
]

unfoldable pub open_in_struct : Fields → Bytes → Elements → Opening
open_in_struct fs key es = elim (find_field key fs) [
  | none ↦ thrown (text "invalid key " ++ key)
  | some (n, s) ↦ ok (s, n, es)
]

unfoldable pub open_slot : Library → Shape → Bytes → Elements → Opening
unfolding open_in_dict open_in_struct
open_slot l (vec s) key es = open_in_vec s es
open_slot l (dict s) key es = open_in_dict s key es
open_slot l (struct fs) key es = open_in_struct fs key es
open_slot l (basic k) key es = unknown l (basic k)

abbrev pub emplace_data : Library → Shape → Scalar → Elements → Outcome Elements
emplace_data l s x es = convert_to l s x >>= λ t. ok (add es [] t)

-- emplace keeps what the key has already.
unfoldable pub store_in : Bytes → Elements → Option ℕ → Target → Elements
store_in key es none t = add es key t
store_in key es (some n) t = es

abbrev pub set_in_dict : Library → Shape → Bytes → Scalar → Elements → Outcome Elements
set_in_dict l s key x es = convert_to l s x >>= λ t. ok (store_in key es (find_key key es) t)

unfoldable pub set_holder : Library → Fields → Bytes → Scalar → Elements → Outcome Elements
set_holder l fs key x es = elim (find_field key fs) [
  | none ↦ thrown (text "invalid key " ++ key)
  | some (n, s) ↦ convert_to l s x >>= λ t. ok (set_nth n t es)
]

-- value, in a container.
unfoldable pub store : Library → Shape → Bytes → Scalar → Elements → Outcome Elements
unfolding set_holder
store l (vec s) key x es = emplace_data l s x es
store l (dict s) key x es = set_in_dict l s key x es
store l (struct fs) key x es = set_holder l fs key x es
store l (basic k) key x es = unknown l (basic k)

-- Filter<std::string>::value
unfoldable pub shown : Scalar → Bytes
shown (int_value z) = to_string_ℤ z
shown (int64_value z) = to_string_ℤ z
shown (unsigned_value n) = to_string n
shown (uint64_value n) = to_string n
shown (text_value s) = s
shown (real_value s) = s
shown (boolean_value b) = if b then text "1" else text "0"

-- value, on the object itself.
unfoldable pub fill : Library → Shape → Bytes → Scalar → Target → Outcome Target
unfolding shown
fill l (basic string) key x t = ok (leaf (text_value (shown x)))
fill l (basic int) key x t = unknown l (basic int)
fill l (basic unsigned) key x t = unknown l (basic unsigned)
fill l (basic int64) key x t = unknown l (basic int64)
fill l (basic uint64) key x t = unknown l (basic uint64)
fill l (basic real) key x t = unknown l (basic real)
fill l (basic boolean) key x t = unknown l (basic boolean)
fill l s key x (node es) = store l s key x es >>= λ fs. ok (node fs)
fill l s key x (leaf y) = unknown l s
