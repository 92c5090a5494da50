-- ===== src/StructParser/Sorting/Laws.antt =====
-- The sorted field list is searched with the same results as the list that was declared.
use mathlib.Core.List.{Perm}
use cppapiframework.Common.{
  ℕ, zero, suc, ◌≡◌, refl, sym, subst, ◌∙◌, false, none, [], ◌∷◌, length, Bytes, str_eq, str_eq_iff,
  Bool-cases, inl, inr, arith,
}
use cppapiframework.Common.Dict.{Dict, lookup}
use cppapiframework.StructParser.Sorting.{greater, exchange, sort_from, ctexppairsort}
use cppapiframework.StructParser.Sorting.Order.{
  IsSorted, exchange_swaps, exchange_goes_on, sort_from-perm, sort_from-IsSorted,
}

module _ {V : Type 0} where
  -- The names are distinct.
  abbrev pub Distinct : Dict V → Type 0
  Distinct [] = Unit
  Distinct (x ∷ l) = (lookup x.0 l ≡ none) × Distinct l

  abbrev Joined : (Bytes × V) × Dict V → Dict V
  Joined (x, l) = x ∷ l

  -- The names stay distinct, and each leads to the same value.
  abbrev SameNames : Dict V → Dict V → Type 0
  SameNames r l = Distinct r × ((k : Bytes) → lookup k r ≡ lookup k l)

  -- One more turn, which leaves `o` behind.
  turn-SameNames :
      (o m c : Bytes × V) (r l : Dict V)
      → str_eq c.0 o.0 ≡ false
      → lookup o.0 l ≡ none
      → SameNames (m ∷ r) (c ∷ l)
      → SameNames (m ∷ o ∷ r) (o ∷ c ∷ l)
  unfolding lookup
  turn-SameNames o m c r l h a ((u, v), e) = (
    (
      ground (arith, e o.0, str_eq_iff c.0 o.0, str_eq_iff m.0 o.0, str_eq_iff o.0 m.0),
      (ground (arith, e o.0, str_eq_iff c.0 o.0, str_eq_iff m.0 o.0), v),
    ),
    λ k. ground (
      arith,
      e k,
      e o.0,
      str_eq_iff c.0 o.0,
      str_eq_iff m.0 o.0,
      str_eq_iff m.0 k,
      str_eq_iff o.0 k,
      str_eq_iff c.0 k,
    ),
  )

  swapped-SameNames :
      (x y : Bytes × V) (r l : Dict V)
      → str_eq y.0 x.0 ≡ false
      → SameNames r (x ∷ y ∷ l)
      → SameNames r (y ∷ x ∷ l)
  unfolding lookup
  swapped-SameNames x y r l h (d, e) =
      (d, λ k. ground (arith, e k, str_eq_iff y.0 x.0, str_eq_iff x.0 k, str_eq_iff y.0 k))

  names_differ :
      (x y : Bytes × V) (l : Dict V)
      → lookup x.0 (y ∷ l) ≡ none
      → (str_eq y.0 x.0 ≡ false) × (str_eq x.0 y.0 ≡ false) × (lookup x.0 l ≡ none)
  unfolding lookup
  names_differ x y l h =
      (ground arith, ground (arith, str_eq_iff y.0 x.0, str_eq_iff x.0 y.0), ground arith)

  exchange-SameNames :
      (x : Bytes × V) (l : Dict V) → Distinct (x ∷ l) → SameNames (Joined (exchange x l)) (x ∷ l)
  unfolding exchange
  exchange-SameNames x [] h = (h, λ k. refl)
  exchange-SameNames x (y ∷ l) (a, (b, d)) = elim (Bool-cases (greater x.0 y.0)) [
    | inl e ↦
        let (u, v, w) = names_differ x y l a in
        subst (λ r. SameNames (Joined r) (x ∷ y ∷ l)) (sym (exchange_swaps x y l e))
          (turn-SameNames x _ y _ l u w (exchange-SameNames y l (b, d)))
    | inr e ↦
        let (u, v, w) = names_differ x y l a in
        subst (λ r. SameNames (Joined r) (x ∷ y ∷ l)) (sym (exchange_goes_on x y l e))
          (swapped-SameNames y x _ l v
            (turn-SameNames y _ x _ l v b (exchange-SameNames x l (w, d))))
  ]

  sort_from-SameNames : (n : ℕ) (l : Dict V) → Distinct l → SameNames (sort_from n l) l
  unfolding sort_from lookup
  sort_from-SameNames zero l h = (h, λ k. refl)
  sort_from-SameNames (suc n) [] h = (h, λ k. refl)
  sort_from-SameNames (suc n) (x ∷ l) h =
      let ((u, v), e) = exchange-SameNames x l h in
      let (d, f) = sort_from-SameNames n (exchange x l).1 v in
      ((f (exchange x l).0.0 ∙ u, d), λ k. ground (arith, f k, e k))

  -- The sorted field list holds the same entries, in the order of the names; and where the names
  -- are distinct, the search for any name finds in it what it finds in the list as declared.
  pub ctexppairsort_lem :
      (l : Dict V)
      → Perm (ctexppairsort l) l
        × IsSorted (ctexppairsort l)
        × (Distinct l → (k : Bytes) → lookup k (ctexppairsort l) ≡ lookup k l)
  unfolding ctexppairsort
  ctexppairsort_lem l = (
    sort_from-perm (length l) l,
    sort_from-IsSorted (length l) l (omega arith),
    λ d. (sort_from-SameNames (length l) l d).1,
  )
