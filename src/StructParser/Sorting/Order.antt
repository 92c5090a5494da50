-- ===== src/StructParser/Sorting/Order.antt =====
-- The sorted field list is in order.
use mathlib.Core.List.{Perm}
use mathlib.Core.List.Perm
use cppapiframework.Common.{
  ℕ, zero, suc, ◌≡◌, refl, sym, ap, subst, ◌≤◌, true, false, if◌then◌else◌, [], ◌∷◌, length, Bytes,
  Bool-cases, inl, inr, arith,
}
use cppapiframework.Common.Dict.{Dict}
use cppapiframework.StructParser.Sorting.{greater, exchange, sort_from}

greater_asym : (s t : Bytes) → greater s t ≡ true → greater t s ≡ false
unfolding greater
greater_asym [] t h = cc
greater_asym (a ∷ s) [] h = refl
greater_asym (a ∷ s) (b ∷ t) h = ground (arith, greater_asym s t)

greater_refl : (s : Bytes) → greater s s ≡ false
unfolding greater
greater_refl [] = refl
greater_refl (a ∷ s) = ground (arith, greater_refl s)

at_most_trans : (r s t : Bytes) → greater r s ≡ false → greater s t ≡ false → greater r t ≡ false
unfolding greater
at_most_trans [] s t h k = refl
at_most_trans (a ∷ r) [] t h k = cc
at_most_trans (a ∷ r) (b ∷ s) [] h k = cc
at_most_trans (a ∷ r) (b ∷ s) (c ∷ t) h k = ground (arith, at_most_trans r s t)

module _ {V : Type 0} where
  abbrev pub AllAbove : Bytes → Dict V → Type 0
  AllAbove k [] = Unit
  AllAbove k (x ∷ l) = (greater k x.0 ≡ false) × AllAbove k l

  abbrev pub IsSorted : Dict V → Type 0
  IsSorted [] = Unit
  IsSorted (x ∷ l) = AllAbove x.0 l × IsSorted l

  AllAbove-trans : (j k : Bytes) (l : Dict V) → greater j k ≡ false → AllAbove k l → AllAbove j l
  AllAbove-trans j k [] h a = tt
  AllAbove-trans j k (x ∷ l) h (b, a) = (at_most_trans j k x.0 h b, AllAbove-trans j k l h a)

  exchange-AllAbove :
      (k : Bytes) (x : Bytes × V) (l : Dict V)
      → greater k x.0 ≡ false
      → AllAbove k l
      → (greater k (exchange x l).0.0 ≡ false) × AllAbove k (exchange x l).1
  unfolding exchange
  exchange-AllAbove k x [] h a = (h, tt)
  exchange-AllAbove k x (y ∷ l) h (b, a) = elim (Bool-cases (greater x.0 y.0)) [
    | inl e ↦ rw e (let (u, v) = exchange-AllAbove k y l b a in (u, (h, v)))
    | inr e ↦ rw e (let (u, v) = exchange-AllAbove k x l h a in (u, (b, v)))
  ]

  pub exchange_swaps :
      (x y : Bytes × V) (l : Dict V)
      → greater x.0 y.0 ≡ true
      → exchange x (y ∷ l) ≡ ((exchange y l).0, x ∷ (exchange y l).1)
  unfolding exchange
  exchange_swaps x y l e = rw e refl

  pub exchange_goes_on :
      (x y : Bytes × V) (l : Dict V)
      → greater x.0 y.0 ≡ false
      → exchange x (y ∷ l) ≡ ((exchange x l).0, y ∷ (exchange x l).1)
  unfolding exchange
  exchange_goes_on x y l e = rw e refl

  abbrev IsLeast : Bytes × V → (Bytes × V) × Dict V → Type 0
  IsLeast x r = (greater r.0.0 x.0 ≡ false) × AllAbove r.0.0 r.1

  exchange-IsLeast : (x : Bytes × V) (l : Dict V) → IsLeast x (exchange x l)
  unfolding exchange
  exchange-IsLeast x [] = (greater_refl x.0, tt)
  exchange-IsLeast x (y ∷ l) = elim (Bool-cases (greater x.0 y.0)) [
    | inl e ↦
        let (u, v) = exchange-IsLeast y l in
        let w : greater (exchange y l).0.0 x.0 ≡ false =
          at_most_trans (exchange y l).0.0 y.0 x.0 u (greater_asym x.0 y.0 e) in
        subst (IsLeast x) (sym (exchange_swaps x y l e)) (w, (w, v))
    | inr e ↦
        let (u, v) = exchange-IsLeast x l in
        subst (IsLeast x) (sym (exchange_goes_on x y l e))
          (u, (at_most_trans (exchange x l).0.0 x.0 y.0 u e, v))
  ]

  exchange-perm : (x : Bytes × V) (l : Dict V) → Perm ((exchange x l).0 ∷ (exchange x l).1) (x ∷ l)
  unfolding exchange
  exchange-perm x [] = Perm.refl (x ∷ [])
  exchange-perm x (y ∷ l) = elim (Bool-cases (greater x.0 y.0)) [
    | inl e ↦ rw e (Perm.trans (Perm.swap x _ _) (Perm.cons x (exchange-perm y l)))
    | inr e ↦ rw e (
        Perm.trans (Perm.swap y _ _)
          (Perm.trans (Perm.cons y (exchange-perm x l)) (Perm.swap x y l)))
  ]

  exchange-length : (x : Bytes × V) (l : Dict V) → length (exchange x l).1 ≡ length l
  unfolding exchange
  exchange-length x [] = refl
  exchange-length x (y ∷ l) = ap suc (exchange-length (if greater x.0 y.0 then y else x) l)

  pub sort_from-perm : (n : ℕ) (l : Dict V) → Perm (sort_from n l) l
  unfolding sort_from
  sort_from-perm zero l = Perm.refl l
  sort_from-perm (suc n) [] = Perm.refl []
  sort_from-perm (suc n) (x ∷ l) =
      Perm.trans (Perm.cons _ (sort_from-perm n (exchange x l).1)) (exchange-perm x l)

  sort_from-AllAbove : (n : ℕ) (k : Bytes) (l : Dict V) → AllAbove k l → AllAbove k (sort_from n l)
  unfolding sort_from
  sort_from-AllAbove zero k l h = h
  sort_from-AllAbove (suc n) k [] h = tt
  sort_from-AllAbove (suc n) k (x ∷ l) (h, a) =
      let (u, v) = exchange-AllAbove k x l h a in (u, sort_from-AllAbove n k (exchange x l).1 v)

  pub sort_from-IsSorted : (n : ℕ) (l : Dict V) → length l ≤ n → IsSorted (sort_from n l)
  unfolding sort_from
  sort_from-IsSorted zero [] h = tt
  sort_from-IsSorted zero (x ∷ l) h = let z : ⊥ = omega arith in absurd z
  sort_from-IsSorted (suc n) [] h = tt
  sort_from-IsSorted (suc n) (x ∷ l) h = (
    sort_from-AllAbove n (exchange x l).0.0 (exchange x l).1 (exchange-IsLeast x l).1,
    sort_from-IsSorted n (exchange x l).1 (omega (arith, exchange-length x l)),
  )
