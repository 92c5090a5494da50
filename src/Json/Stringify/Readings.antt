-- ===== src/Json/Stringify/Readings.antt =====
-- What a value is read back as, how much fuel its reading takes, and which values can be read.
use cppapiframework.Common.{ℕ, suc, ◌+◌, ◌≤◌, ◌≡◌, Option, some, Bytes, arith}
use cppapiframework.Common.Outcome.{Outcome, ok, thrown}
use cppapiframework.Json.{
  Var, empty, null_object, null_array, boolean, number, floating, character, string, array, object,
  Items, no_items, item, Members, no_members, member, Poco,
}
use cppapiframework.Json.Stringify.{}
use cppapiframework.Json.Stringify.Reader.{IsScalarText}

abbrev pub text_read : Outcome Bytes → Var
text_read (ok t) = string t
text_read (thrown e) = empty

-- Null pointers are written as nulls, and characters as strings.
unfoldable mutual
  pub read_as : Poco → Var → Var
  read_as p null_object = empty
  read_as p null_array = empty
  read_as p empty = empty
  read_as p (boolean b) = boolean b
  read_as p (number z) = number z
  read_as p (floating t) = floating t
  read_as p (character c) = text_read (p.to_text (character c))
  read_as p (string s) = string s
  read_as p (array vs) = array (items_read_as p vs)
  read_as p (object ms) = object (members_read_as p ms)

  pub items_read_as : Poco → Items → Items
  items_read_as p no_items = no_items
  items_read_as p (item v vs) = item (read_as p v) (items_read_as p vs)

  pub members_read_as : Poco → Members → Members
  members_read_as p no_members = no_members
  members_read_as p (member k v ms) = member k (read_as p v) (members_read_as p ms)

-- The calls of the reader, one inside the other.
unfoldable mutual
  pub size : Var → ℕ
  size null_object = 1
  size null_array = 1
  size empty = 1
  size (boolean b) = 1
  size (number z) = 1
  size (floating t) = 1
  size (character c) = 1
  size (string s) = 1
  size (array vs) = suc (items_size vs)
  size (object ms) = suc (members_size ms)

  pub items_size : Items → ℕ
  items_size no_items = 1
  items_size (item v vs) = suc (size v + items_size vs)

  pub members_size : Members → ℕ
  members_size no_members = 1
  members_size (member k v ms) = suc (size v + members_size ms)

pub no_fuel : (v : Var) → size v ≤ 0 → ⊥
unfolding size
no_fuel null_object h = omega arith
no_fuel null_array h = omega arith
no_fuel empty h = omega arith
no_fuel (boolean b) h = omega arith
no_fuel (number z) h = omega arith
no_fuel (floating t) h = omega arith
no_fuel (character c) h = omega arith
no_fuel (string s) h = omega arith
no_fuel (array vs) h = omega arith
no_fuel (object ms) h = omega arith

module _ (p : Poco) (scalar : Bytes → Option Var) where
  -- Poco's text of a number or a truth value is read as that value.
  abbrev pub IsReadBack : Var → Type 0
  IsReadBack v = (t : Bytes) × (p.to_text v ≡ ok t) × IsScalarText t × (scalar t ≡ some v)

  abbrev mutual
    pub HasTexts : Var → Type 0
    HasTexts null_object = Unit
    HasTexts null_array = Unit
    HasTexts empty = Unit
    HasTexts (boolean b) = IsReadBack (boolean b)
    HasTexts (number z) = IsReadBack (number z)
    HasTexts (floating t) = IsReadBack (floating t)
    HasTexts (character c) = (t : Bytes) × (p.to_text (character c) ≡ ok t)
    HasTexts (string s) = Unit
    HasTexts (array vs) = HaveTexts vs
    HasTexts (object ms) = MembersHaveTexts ms

    pub HaveTexts : Items → Type 0
    HaveTexts no_items = Unit
    HaveTexts (item v vs) = HasTexts v × HaveTexts vs

    pub MembersHaveTexts : Members → Type 0
    MembersHaveTexts no_members = Unit
    MembersHaveTexts (member k v ms) = HasTexts v × MembersHaveTexts ms
