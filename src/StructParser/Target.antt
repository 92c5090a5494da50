-- ===== src/StructParser/Target.antt =====
-- src/JSON/StructParser.hpp: the types of the objects that are filled, the objects, and the
-- pointers into them, as the positions from the root on.
pub mod Laws
use cppapiframework.Common.{
  ℕ, zero, suc, ◌+◌, Bool, true, false, ◌≡◌, refl, arith, Option, none, some, List, [], ◌∷◌,
  if◌then◌else◌, Bytes, str_eq, text, ◌==◌,
}
use cppapiframework.Common.Int.{ℤ, pos}

-- The types of the overloads of `value`.
pub data Kind : Type 0 where
  int unsigned int64 uint64 string real boolean : Kind

-- A value of one of these types; a floating point number stands by
-- what std::to_string makes of it.
pub data Scalar : Type 0 where
  int_value int64_value : ℤ → Scalar
  unsigned_value uint64_value : ℕ → Scalar
  text_value real_value : Bytes → Scalar
  boolean_value : Bool → Scalar

abbrev pub kind_of : Scalar → Kind
kind_of (int_value z) = int
kind_of (int64_value z) = int64
kind_of (unsigned_value n) = unsigned
kind_of (uint64_value n) = uint64
kind_of (text_value s) = string
kind_of (real_value s) = real
kind_of (boolean_value b) = boolean

abbrev kind_number : Kind → ℕ
kind_number int = 0
kind_number unsigned = 1
kind_number int64 = 2
kind_number uint64 = 3
kind_number string = 4
kind_number real = 5
kind_number boolean = 6

-- val.type() == typeid(T)
unfoldable pub same_kind : Kind → Kind → Bool
same_kind a b = kind_number a == kind_number b

pub same_kind_refl : (k : Kind) → same_kind k k ≡ true
unfolding same_kind
same_kind_refl k = ground arith

-- A basic type, std::vector, std::unordered_map with string keys, and a struct with a field list.
mutual
  pub data Shape : Type 0 where
    basic : Kind → Shape
    vec dict : Shape → Shape
    struct : Fields → Shape

  pub data Fields : Type 0 where
    no_fields : Fields
    field : Bytes → Shape → Fields → Fields

-- An object in memory. A container has its elements in order, with their keys or field names;
-- the elements of a vector have the empty name.
mutual
  pub data Target : Type 0 where
    leaf : Scalar → Target
    node : Elements → Target

  pub data Elements : Type 0 where
    nothing : Elements
    element : Bytes → Target → Elements → Elements

abbrev pub zero_of : Kind → Scalar
zero_of int = int_value (pos 0)
zero_of unsigned = unsigned_value 0
zero_of int64 = int64_value (pos 0)
zero_of uint64 = uint64_value 0
zero_of string = text_value []
zero_of real = real_value (text "0.000000")
zero_of boolean = boolean_value false

pub kind_of-zero_of : (k : Kind) → kind_of (zero_of k) ≡ k
kind_of-zero_of int = refl
kind_of-zero_of unsigned = refl
kind_of-zero_of int64 = refl
kind_of-zero_of uint64 = refl
kind_of-zero_of string = refl
kind_of-zero_of real = refl
kind_of-zero_of boolean = refl

-- T{}
unfoldable mutual
  pub default : Shape → Target
  default (basic k) = leaf (zero_of k)
  default (vec s) = node nothing
  default (dict s) = node nothing
  default (struct fs) = node (default_fields fs)

  pub default_fields : Fields → Elements
  default_fields no_fields = nothing
  default_fields (field k s fs) = element k (default s) (default_fields fs)

abbrev pub count : Elements → ℕ
count nothing = 0
count (element k t es) = suc (count es)

abbrev pub nth : ℕ → Elements → Option Target
nth n nothing = none
nth zero (element k t es) = some t
nth (suc n) (element k t es) = nth n es

abbrev pub set_nth : ℕ → Target → Elements → Elements
set_nth n c nothing = nothing
set_nth zero c (element k t es) = element k c es
set_nth (suc n) c (element k t es) = element k t (set_nth n c es)

-- One element more at the end.
abbrev pub add : Elements → Bytes → Target → Elements
add nothing k t = element k t nothing
add (element j u es) k t = element j u (add es k t)

-- What a pointer points at, and a write through it.
unfoldable pub at : List ℕ → Target → Option Target
at [] t = some t
at (n ∷ p) (leaf s) = none
at (n ∷ p) (node es) = elim (nth n es) [ none ↦ none | some t ↦ at p t ]

unfoldable pub put : List ℕ → Target → Target → Target
put [] c t = c
put (n ∷ p) c (leaf s) = leaf s
put (n ∷ p) c (node es) = elim (nth n es) [
  | none ↦ node es
  | some t ↦ node (set_nth n (put p c t) es)
]

-- unordered_map::find, as a position
unfoldable pub find_key : Bytes → Elements → Option ℕ
find_key k nothing = none
find_key k (element j t es) =
    let rest = find_key k es in
    if str_eq j k then some 0 else elim rest [ none ↦ none | some n ↦ some (suc n) ]

-- FieldList::find: the position of a field and its type
unfoldable pub find_field : Bytes → Fields → Option (ℕ × Shape)
find_field k no_fields = none
find_field k (field j s fs) =
    let rest = find_field k fs in
    if str_eq j k then some (0, s) else elim rest [ none ↦ none | some (n, t) ↦ some (suc n, t) ]
