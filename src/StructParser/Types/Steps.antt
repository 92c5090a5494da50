-- ===== src/StructParser/Types/Steps.antt =====
-- What the fillers write keeps the types.
use cppapiframework.Common.{
  ℕ, zero, suc, ◌≡◌, refl, sym, subst, ◌∙◌, true, Option, none, some, [], Bytes, Option-cases,
  Bool-cases, inl, inr, arith, str_eq,
}
use cppapiframework.Common.Outcome.{ok, ok-injective, returns_both}
use cppapiframework.StructParser.Filler.{
  open_in_dict, open_in_struct, set_holder, Library, convert_to, open_slot, store, store_in, fill,
  shown,
}
use cppapiframework.StructParser.Target.{
  Kind, int, unsigned, int64, uint64, string, real, boolean, Scalar, text_value, kind_of, same_kind,
  Shape, basic, vec, dict, struct, Fields, no_fields, field, Target, Elements, leaf, node, nothing,
  element, count, nth, set_nth, add, default, find_key, find_field,
}
use cppapiframework.StructParser.Target.Laws.{nth-add}
use cppapiframework.StructParser.Types.{
  HasType, HaveType, HaveTypes, nth_field, nth_shape, HaveTypes-set_nth, HaveType-add,
  default-HasType,
}

-- VarHolder::convert(T &) gives a T.
abbrev pub ConvertsToType : Library → Type 0
ConvertsToType l = (k : Kind) (x y : Scalar) → l.convert k x ≡ ok y → kind_of y ≡ k

same_kind→eq : (a b : Kind) → same_kind a b ≡ true → a ≡ b
unfolding same_kind
same_kind→eq a b e = ground arith

convert_to-HasType :
    (l : Library) (s : Shape) (x : Scalar) (t : Target)
    → ConvertsToType l
    → convert_to l s x ≡ ok t
    → HasType s t
unfolding convert_to
convert_to-HasType l (basic k) x t c e = elim (Bool-cases (same_kind (kind_of x) k)) [
  | inl h ↦
      subst (HasType (basic k)) (ok-injective (leaf x) t (sym (rw (h, convert_to) refl) ∙ e))
        (same_kind→eq _ _ h)
  | inr h ↦
      let (y, a, b) =
        returns_both (l.convert k x) (λ y. ok (leaf y)) t (sym (rw (h, convert_to) refl) ∙ e) in
      subst (HasType (basic k)) (ok-injective (leaf y) t b) (c k x y a)
]
convert_to-HasType l (vec s) x t c e = cc
convert_to-HasType l (dict s) x t c e = cc
convert_to-HasType l (struct fs) x t c e = cc

find_key-nth :
    (k : Bytes) (es : Elements) (n : ℕ)
    → find_key k es ≡ some n
    → (t : Target) × (nth n es ≡ some t)
unfolding find_key
find_key-nth k nothing n e = cc
find_key-nth k (element j t es) n e = elim (Bool-cases (str_eq j k)) [
  | inl h ↦ let z : n ≡ 0 = ground arith in (t, rw z refl)
  | inr h ↦ elim (Option-cases (find_key k es)) [
    | inl a ↦ ground arith
    | inr (m, a) ↦
        let z : n ≡ suc m = ground arith in let (u, b) = find_key-nth k es m a in (u, rw z b)
  ]
]

find_field-nth_field :
    (k : Bytes) (fs : Fields) (n : ℕ) (s : Shape)
    → find_field k fs ≡ some (n, s)
    → nth_field n fs ≡ some s
unfolding find_field
find_field-nth_field k no_fields n s e = cc
find_field-nth_field k (field j r fs) n s e = elim (Bool-cases (str_eq j k)) [
  | inl h ↦ let z : n ≡ 0 = ground arith in let y : s ≡ r = ground arith in rw (z, y) refl
  | inr h ↦ elim (Option-cases (find_field k fs)) [
    | inl a ↦ ground arith
    | inr ((m, u), a) ↦
        let z : n ≡ suc m = ground arith in
        let y : u ≡ s = ground arith in rw z (find_field-nth_field k fs m s (a ∙ (rw y refl)))
  ]
]

HaveTypes-nth_exists :
    (fs : Fields) (es : Elements) (n : ℕ) (s : Shape)
    → HaveTypes fs es
    → nth_field n fs ≡ some s
    → (t : Target) × (nth n es ≡ some t)
HaveTypes-nth_exists no_fields es n s h e = cc
HaveTypes-nth_exists (field j r fs) nothing n s h e = absurd h
HaveTypes-nth_exists (field j r fs) (element k t es) zero s h e = (t, refl)
HaveTypes-nth_exists (field j r fs) (element k t es) (suc n) s h e =
    HaveTypes-nth_exists fs es n s h.2 e

abbrev Opened : Shape → Shape × ℕ × Elements → Type 0
Opened q (s, n, fs) =
    HasType q (node fs) × (nth_shape n q ≡ some s) × ((t : Target) × (nth n fs ≡ some t))

-- The element that is opened is there, with its type.
pub open_slot-HasType :
    (l : Library) (q : Shape) (key : Bytes) (es fs : Elements) (s : Shape) (n : ℕ)
    → HasType q (node es)
    → open_slot l q key es ≡ ok (s, n, fs)
    → HasType q (node fs) × (nth_shape n q ≡ some s) × ((t : Target) × (nth n fs ≡ some t))
unfolding open_slot open_in_dict open_in_struct
open_slot-HasType l (basic k) key es fs s n h e = absurd h
open_slot-HasType l (vec r) key es fs s n h e =
    subst (Opened (vec r)) (ok-injective (r, count es, add es [] (default r)) (s, n, fs) e) (
      HaveType-add r es [] (default r) h (default-HasType r),
      refl,
      (default r, nth-add es [] (default r)),
    )
open_slot-HasType l (dict r) key es fs s n h e = elim (Option-cases (find_key key es)) [
  | inl a ↦
      subst (Opened (dict r))
        (ok-injective (r, count es, add es key (default r)) (s, n, fs)
          (sym (rw (a, open_in_dict) refl) ∙ e))
        (
          HaveType-add r es key (default r) h (default-HasType r),
          refl,
          (default r, nth-add es key (default r)),
        )
  | inr (m, a) ↦
      subst (Opened (dict r))
        (ok-injective (r, m, es) (s, n, fs) (sym (rw (a, open_in_dict) refl) ∙ e))
        (h, refl, find_key-nth key es m a)
]
open_slot-HasType l (struct gs) key es fs s n h e = elim (Option-cases (find_field key gs)) [
  | inl a ↦ ground arith
  | inr ((m, r), a) ↦
      let f : nth_field m gs ≡ some r = find_field-nth_field key gs m r a in
      subst (Opened (struct gs))
        (ok-injective (r, m, es) (s, n, fs) (sym (rw (a, open_in_struct) refl) ∙ e))
        (h, f, HaveTypes-nth_exists gs es m r h f)
]

store_in-HaveType :
    (key : Bytes) (s : Shape) (es : Elements) (o : Option ℕ) (t : Target)
    → HaveType s es
    → HasType s t
    → HaveType s (store_in key es o t)
unfolding store_in
store_in-HaveType key s es none t h g = HaveType-add s es key t h g
store_in-HaveType key s es (some n) t h g = h

store-HaveTypes :
    (l : Library) (fs : Fields) (key : Bytes) (x : Scalar) (es es' : Elements)
    → ConvertsToType l
    → HaveTypes fs es
    → store l (struct fs) key x es ≡ ok es'
    → HaveTypes fs es'
unfolding store set_holder
store-HaveTypes l fs key x es es' c h e = elim (Option-cases (find_field key fs)) [
  | inl a ↦ ground arith
  | inr ((m, s), a) ↦
      let (v, d, g) =
        returns_both (convert_to l s x) (λ t. ok (set_nth m t es)) es'
          (sym (rw (a, set_holder) refl) ∙ e) in
      subst (HaveTypes fs) (ok-injective (set_nth m v es) es' g) (
        HaveTypes-set_nth m fs es s v h (find_field-nth_field key fs m s a)
          (convert_to-HasType l s x v c d))
]

pub fill-HasType :
    (l : Library) (q : Shape) (key : Bytes) (x : Scalar) (t u : Target)
    → ConvertsToType l
    → HasType q t
    → fill l q key x t ≡ ok u
    → HasType q u
unfolding fill store set_holder store_in
fill-HasType l (basic string) key x t u c h e =
    subst (HasType (basic string)) (ok-injective (leaf (text_value (shown x))) u e) refl
fill-HasType l (basic int) key x t u c h e = cc
fill-HasType l (basic unsigned) key x t u c h e = cc
fill-HasType l (basic int64) key x t u c h e = cc
fill-HasType l (basic uint64) key x t u c h e = cc
fill-HasType l (basic real) key x t u c h e = cc
fill-HasType l (basic boolean) key x t u c h e = cc
fill-HasType l (vec s) key x (leaf y) u c h e = absurd h
fill-HasType l (vec s) key x (node es) u c h e =
    let (fs, a, b) = returns_both (store l (vec s) key x es) (λ fs. ok (node fs)) u e in
    let (v, d, g) = returns_both (convert_to l s x) (λ t. ok (add es [] t)) fs a in
    subst (HasType (vec s)) (ok-injective (node fs) u b) (
      subst (HaveType s) (ok-injective (add es [] v) fs g)
        (HaveType-add s es [] v h (convert_to-HasType l s x v c d)))
fill-HasType l (dict s) key x (leaf y) u c h e = absurd h
fill-HasType l (dict s) key x (node es) u c h e =
    let (fs, a, b) = returns_both (store l (dict s) key x es) (λ fs. ok (node fs)) u e in
    let (v, d, g) =
      returns_both (convert_to l s x) (λ t. ok (store_in key es (find_key key es) t)) fs a in
    subst (HasType (dict s)) (ok-injective (node fs) u b) (
      subst (HaveType s) (ok-injective _ fs g)
        (store_in-HaveType key s es (find_key key es) v h (convert_to-HasType l s x v c d)))
fill-HasType l (struct fs) key x (leaf y) u c h e = absurd h
fill-HasType l (struct fs) key x (node es) u c h e =
    let (es', a, b) = returns_both (store l (struct fs) key x es) (λ fs. ok (node fs)) u e in
    subst (HasType (struct fs)) (ok-injective (node es') u b)
      (store-HaveTypes l fs key x es es' c h a)
