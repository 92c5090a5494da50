-- ===== src/Text/Split.antt =====
-- src/utils/Strutils.hpp: explode, split, join, and the plain functions beside them.
pub mod Finding
pub mod Laws
use cppapiframework.Common.{
  ℕ, zero, suc, ◌+◌, ◌-◌, Bool, true, false, ◌&&◌, not, Option, none, some, List, [], ◌∷◌, ◌++◌,
  map, ◌==◌, if◌then◌else◌, Bytes, is_empty, starts_with, length, take, drop,
}

-- std::string_view::find from the first position.
unfoldable pub find : Bytes → Bytes → Option ℕ
find [] term = if is_empty term then some 0 else none
find (c ∷ s) term =
    let rest = find s term in
    if starts_with (c ∷ s) term then some 0 else elim rest [ none ↦ none | some n ↦ some (suc n) ]

-- The loop of explode, on the text behind `current`. It turns at most once for every byte.
unfoldable pub explode_loop : ℕ → Bytes → Bytes → List Bytes
explode_loop zero strview term = []
explode_loop (suc turns) strview term = elim (find strview term) [
  | none ↦ strview ∷ []
  | some sep ↦
      let rest = drop (sep + length term) strview in
      let more = explode_loop turns rest term in
      take sep strview ∷ (if is_empty rest then [] else more)
]

-- explode, whose text split repeats
unfoldable pub explode : Bytes → Bytes → List Bytes
unfolding explode_loop
explode strview term =
    if is_empty strview
    then []
    else if is_empty term
    then strview ∷ []
    else explode_loop (length strview) strview term

unfoldable pub split : Bytes → Bytes → List Bytes
unfolding explode_loop
split strview term =
    if is_empty strview
    then []
    else if is_empty term
    then strview ∷ []
    else explode_loop (length strview) strview term

-- The loop of join.
unfoldable pub join_all : List Bytes → Bytes → Bytes
join_all [] term = []
join_all (str ∷ vec) term = str ++ term ++ join_all vec term

-- The last separator is erased.
unfoldable pub join : List Bytes → Bytes → Bytes
unfolding join_all
join vec term =
    let result = join_all vec term in
    if not (is_empty result) && not (is_empty term)
    then take (length result - length term) result
    else result

unfoldable pub multi_concat : List Bytes → Bytes
multi_concat [] = []
multi_concat (str ∷ values) = str ++ multi_concat values

unfoldable pub replace_chr : Bytes → ℕ → ℕ → Bytes
replace_chr str chin chout = map (λ ch. if ch == chin then chout else ch) str
