-- ===== src/StructParser/Sorting.antt =====
-- src/JSON/StructParser.hpp, ctexppairsort, and src/JSON/StructParserMacros.hpp, FieldList: the list
-- of a struct's fields, sorted by name at compile time and searched by name.
pub mod Order
pub mod Laws
use cppapiframework.Common.{
  ℕ, zero, suc, ltb, ◌==◌, Bool, true, false, if◌then◌else◌, List, [], ◌∷◌, length, Bytes,
}
use cppapiframework.Common.Dict.{Dict}

-- string_view::compare(t) > 0
unfoldable pub greater : Bytes → Bytes → Bool
greater [] t = false
greater (a ∷ s) [] = true
greater (a ∷ s) (b ∷ t) = let rest = greater s t in if a == b then rest else ltb b a

module _ {V : Type 0} where
  -- The turns of the inner loop for one i: `x` is val[i], and the list what stands after it. The
  -- result is val[i] and what stands after it at the end.
  unfoldable pub exchange : Bytes × V → Dict V → (Bytes × V) × Dict V
  exchange x [] = (x, [])
  exchange x (y ∷ ys) =
      let swap = greater x.0 y.0 in
      let r = exchange (if swap then y else x) ys in (r.0, (if swap then x else y) ∷ r.1)

  -- The turns of the outer loop from one i on.
  unfoldable pub sort_from : ℕ → Dict V → Dict V
  sort_from zero l = l
  sort_from (suc n) [] = []
  sort_from (suc n) (x ∷ ys) = let r = exchange x ys in r.0 ∷ sort_from n r.1

  unfoldable pub ctexppairsort : Dict V → Dict V
  ctexppairsort l = sort_from (length l) l
