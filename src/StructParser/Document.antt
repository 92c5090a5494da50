-- ===== src/StructParser/Document.antt =====
-- The documents that describe an object of a type, as the events of the parser that reads them.
pub mod Slots
pub mod RoundTrip
pub mod Unknown
use cppapiframework.Common.{
  ℕ, zero, suc, ◌≡◌, false, Option, none, some, List, [], ◌∷◌, ◌++◌, Bytes, is_empty,
}
use cppapiframework.StructParser.Machine.{
  Event, start_object, end_object, start_array, end_array, key, value,
}
use cppapiframework.StructParser.Target.{
  Kind, kind_of, Shape, basic, vec, dict, struct, Fields, no_fields, field, Target, Elements, leaf,
  node, nothing, element, count, add, find_key, find_field,
}

-- The object has the type. The keys of a map are distinct and not empty, and so are the names of
-- the fields of a struct; `before` are the entries before the current one, `n` the fields before.
abbrev mutual
  pub HasShape : Shape → Target → Type 0
  HasShape (basic k) (leaf x) = kind_of x ≡ k
  HasShape (basic k) (node es) = ⊥
  HasShape (vec s) (leaf x) = ⊥
  HasShape (vec s) (node es) = AreItems s es
  HasShape (dict s) (leaf x) = ⊥
  HasShape (dict s) (node es) = AreEntries s nothing es
  HasShape (struct fs) (leaf x) = ⊥
  HasShape (struct fs) (node es) = AreFields fs 0 fs es

  pub AreItems : Shape → Elements → Type 0
  AreItems s nothing = Unit
  AreItems s (element k t es) = (k ≡ []) × HasShape s t × AreItems s es

  pub AreEntries : Shape → Elements → Elements → Type 0
  AreEntries s before nothing = Unit
  AreEntries s before (element k t es) =
      (is_empty k ≡ false)
      × (find_key k before ≡ none)
      × HasShape s t
      × AreEntries s (add before k t) es

  pub AreFields : Fields → ℕ → Fields → Elements → Type 0
  AreFields all n no_fields nothing = Unit
  AreFields all n no_fields (element k t es) = ⊥
  AreFields all n (field j s fs) nothing = ⊥
  AreFields all n (field j s fs) (element k t es) =
      (k ≡ j)
      × (is_empty k ≡ false)
      × (find_field k all ≡ some (n, s))
      × HasShape s t
      × AreFields all (suc n) fs es

unfoldable mutual
  pub document : Shape → Target → List Event
  document s (leaf x) = value x ∷ []
  document (vec s) (node es) = start_array ∷ items s es ++ end_array ∷ []
  document (dict s) (node es) = start_object ∷ entries s es ++ end_object ∷ []
  document (struct fs) (node es) = start_object ∷ fields fs es ++ end_object ∷ []
  document (basic k) (node es) = []

  pub items : Shape → Elements → List Event
  items s nothing = []
  items s (element k t es) = document s t ++ items s es

  pub entries : Shape → Elements → List Event
  entries s nothing = []
  entries s (element k t es) = key k ∷ document s t ++ entries s es

  pub fields : Fields → Elements → List Event
  fields no_fields es = []
  fields (field j s fs) nothing = []
  fields (field j s fs) (element k t es) = key k ∷ document s t ++ fields fs es
