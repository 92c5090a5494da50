-- ===== src/Json.antt =====
-- The values of Poco::JSON and Poco::Dynamic::Var that the program handles, and the functions of
-- Poco that it calls. An object is the list of its members in the order of iteration.
pub mod Stringify
use cppapiframework.Common.{
  ℕ, ◌^◌, ◌≤◌, ◌<◌, ◌≡◌, Bool, true, false, Option, none, some, if◌then◌else◌, Bytes, str_eq,
  str_lt,
}
use cppapiframework.Common.Int.{ℤ, pos, pos_part, neg_part}
use cppapiframework.Common.Outcome.{Outcome, ok}

-- `empty` is the Var with no value, which is also the JSON null; a floating point number stands by
-- its text; `null_object` and `null_array` are null pointers to an object and to an array.
mutual
  pub data Var : Type 0 where
    empty null_object null_array : Var
    boolean : Bool → Var
    number : ℤ → Var
    floating : Bytes → Var
    character : ℕ → Var
    string : Bytes → Var
    array : Items → Var
    object : Members → Var

  pub data Items : Type 0 where
    no_items : Items
    item : Var → Items → Items

  pub data Members : Type 0 where
    no_members : Members
    member : Bytes → Var → Members → Members

-- Var::isEmpty
abbrev pub is_empty_var : Var → Bool
is_empty_var empty = true
is_empty_var _ = false

-- Object::find, the member of a name
unfoldable pub find_member : Bytes → Members → Option Var
find_member k no_members = none
find_member k (member j v ms) = if str_eq j k then some v else find_member k ms

-- Object::get: a missing member is the empty Var.
unfoldable pub get : Bytes → Members → Var
unfolding find_member
get k ms = elim (find_member k ms) [ none ↦ empty | some v ↦ v ]

-- Object::has
unfoldable pub has : Bytes → Members → Bool
unfolding find_member
has k ms = elim (find_member k ms) [ none ↦ false | some v ↦ true ]

-- Object::set. The members stand in the order of their names, which is the map's.
unfoldable pub set_member : Bytes → Var → Members → Members
unfolding str_lt
set_member k v no_members = member k v no_members
set_member k v (member j w ms) =
    if str_eq j k
    then member j v ms
    else if str_lt k j
    then member k v (member j w ms)
    else member j w (set_member k v ms)

-- Poco's own parser and conversions.
pub record Poco : Type 0 where
  pub parse : Bytes → Outcome Var
  pub to_text : Var → Outcome Bytes
  pub to_u64 : Var → Outcome ℕ
  pub to_i64 : Var → Outcome ℤ

-- What is documented of the conversions: a value of the wanted kind that fits converts to itself.
pub record Converts (p : Poco) : Type 0 where
  pub to_text-string : (s : Bytes) → p.to_text (string s) ≡ ok s
  pub to_u64-number : (n : ℕ) → n < 2 ^ 64 → p.to_u64 (number (pos n)) ≡ ok n
  pub to_i64-number :
      (z : ℤ) → pos_part z < 2 ^ 63 → neg_part z ≤ 2 ^ 63 → p.to_i64 (number z) ≡ ok z
