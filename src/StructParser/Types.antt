-- ===== src/StructParser/Types.antt =====
-- The types of the objects in memory, and the pointers that lead to an object of a given type.
pub mod Steps
pub mod Parsing
pub mod Run
use mathlib.Core.Option.{some-injective}
use cppapiframework.Common.{
  ℕ, zero, suc, ◌≡◌, refl, sym, ap, subst, ◌∙◌, Option, none, some, List, [], ◌∷◌, ◌++◌,
  Option-cases, inl, inr, arith,
}
use cppapiframework.StructParser.Target.{
  kind_of, kind_of-zero_of, Shape, basic, vec, dict, struct, Fields, no_fields, field, Target,
  Elements, leaf, node, nothing, element, nth, set_nth, add, default, default_fields, at, put,
}
use cppapiframework.StructParser.Target.Laws.{at-step, put-step, nth-set_nth}

abbrev mutual
  pub HasType : Shape → Target → Type 0
  HasType (basic k) (leaf x) = kind_of x ≡ k
  HasType (basic k) (node es) = ⊥
  HasType (vec s) (leaf x) = ⊥
  HasType (vec s) (node es) = HaveType s es
  HasType (dict s) (leaf x) = ⊥
  HasType (dict s) (node es) = HaveType s es
  HasType (struct fs) (leaf x) = ⊥
  HasType (struct fs) (node es) = HaveTypes fs es

  pub HaveType : Shape → Elements → Type 0
  HaveType s nothing = Unit
  HaveType s (element k t es) = HasType s t × HaveType s es

  pub HaveTypes : Fields → Elements → Type 0
  HaveTypes no_fields nothing = Unit
  HaveTypes no_fields (element k t es) = ⊥
  HaveTypes (field j s fs) nothing = ⊥
  HaveTypes (field j s fs) (element k t es) = (k ≡ j) × HasType s t × HaveTypes fs es

-- The type of the n-th element.
abbrev pub nth_field : ℕ → Fields → Option Shape
nth_field n no_fields = none
nth_field zero (field k s fs) = some s
nth_field (suc n) (field k s fs) = nth_field n fs

abbrev pub nth_shape : ℕ → Shape → Option Shape
nth_shape n (basic k) = none
nth_shape n (vec s) = some s
nth_shape n (dict s) = some s
nth_shape n (struct fs) = nth_field n fs

-- The pointer leads from an object of the type `s` to one of the type `q`.
abbrev pub Leads : List ℕ → Shape → Target → Shape → Type 0
Leads [] s t q = s ≡ q
Leads (n ∷ p) s (leaf x) q = ⊥
Leads (n ∷ p) s (node es) q =
    (s' : Shape) × (t : Target) × (nth_shape n s ≡ some s') × (nth n es ≡ some t) × Leads p s' t q

HaveType-nth :
    (n : ℕ) (s : Shape) (es : Elements) (t : Target)
    → HaveType s es
    → nth n es ≡ some t
    → HasType s t
HaveType-nth n s nothing t h e = cc
HaveType-nth zero s (element k u es) t h e = subst (HasType s) (some-injective _ _ e) h.0
HaveType-nth (suc n) s (element k u es) t h e = HaveType-nth n s es t h.1 e

HaveTypes-nth :
    (n : ℕ) (fs : Fields) (es : Elements) (s : Shape) (t : Target)
    → HaveTypes fs es
    → nth_field n fs ≡ some s
    → nth n es ≡ some t
    → HasType s t
HaveTypes-nth n no_fields es s t h f e = cc
HaveTypes-nth n (field j r fs) nothing s t h f e = absurd h
HaveTypes-nth zero (field j r fs) (element k u es) s t h f e =
    subst (λ x. HasType x t) (some-injective _ _ f) (subst (HasType r) (some-injective _ _ e) h.1)
HaveTypes-nth (suc n) (field j r fs) (element k u es) s t h f e = HaveTypes-nth n fs es s t h.2 f e

HaveType-set_nth :
    (n : ℕ) (s : Shape) (es : Elements) (c : Target)
    → HaveType s es
    → HasType s c
    → HaveType s (set_nth n c es)
HaveType-set_nth n s nothing c h g = tt
HaveType-set_nth zero s (element k u es) c h g = (g, h.1)
HaveType-set_nth (suc n) s (element k u es) c h g = (h.0, HaveType-set_nth n s es c h.1 g)

pub HaveTypes-set_nth :
    (n : ℕ) (fs : Fields) (es : Elements) (s : Shape) (c : Target)
    → HaveTypes fs es
    → nth_field n fs ≡ some s
    → HasType s c
    → HaveTypes fs (set_nth n c es)
HaveTypes-set_nth n no_fields es s c h f g = cc
HaveTypes-set_nth n (field j r fs) nothing s c h f g = absurd h
HaveTypes-set_nth zero (field j r fs) (element k u es) s c h f g =
    (h.0, subst (λ x. HasType x c) (sym (some-injective _ _ f)) g, h.2)
HaveTypes-set_nth (suc n) (field j r fs) (element k u es) s c h f g =
    (h.0, h.1, HaveTypes-set_nth n fs es s c h.2 f g)

pub HaveType-add :
    (s : Shape) (es : Elements) (k : List ℕ) (t : Target)
    → HaveType s es
    → HasType s t
    → HaveType s (add es k t)
HaveType-add s nothing k t h g = (g, tt)
HaveType-add s (element j u es) k t h g = (h.0, HaveType-add s es k t h.1 g)

HasType-nth :
    (n : ℕ) (s q : Shape) (es : Elements) (t : Target)
    → HasType s (node es)
    → nth_shape n s ≡ some q
    → nth n es ≡ some t
    → HasType q t
HasType-nth n (basic k) q es t h f e = absurd h
HasType-nth n (vec s) q es t h f e =
    subst (λ x. HasType x t) (some-injective _ _ f) (HaveType-nth n s es t h e)
HasType-nth n (dict s) q es t h f e =
    subst (λ x. HasType x t) (some-injective _ _ f) (HaveType-nth n s es t h e)
HasType-nth n (struct fs) q es t h f e = HaveTypes-nth n fs es q t h f e

HasType-set_nth :
    (n : ℕ) (s q : Shape) (es : Elements) (c : Target)
    → HasType s (node es)
    → nth_shape n s ≡ some q
    → HasType q c
    → HasType s (node (set_nth n c es))
HasType-set_nth n (basic k) q es c h f g = absurd h
HasType-set_nth n (vec s) q es c h f g =
    HaveType-set_nth n s es c h (subst (λ x. HasType x c) (sym (some-injective _ _ f)) g)
HasType-set_nth n (dict s) q es c h f g =
    HaveType-set_nth n s es c h (subst (λ x. HasType x c) (sym (some-injective _ _ f)) g)
HasType-set_nth n (struct fs) q es c h f g = HaveTypes-set_nth n fs es q c h f g

mutual
  unfolding default default_fields

  pub default-HasType : (s : Shape) → HasType s (default s)
  default-HasType (basic k) = kind_of-zero_of k
  default-HasType (vec s) = tt
  default-HasType (dict s) = tt
  default-HasType (struct fs) = default_fields-HaveTypes fs

  default_fields-HaveTypes : (fs : Fields) → HaveTypes fs (default_fields fs)
  default_fields-HaveTypes no_fields = tt
  default_fields-HaveTypes (field k s fs) = (refl, default-HasType s, default_fields-HaveTypes fs)

pub Leads-at :
    (p : List ℕ) (s q : Shape) (r : Target)
    → HasType s r
    → Leads p s r q
    → (t : Target) × (at p r ≡ some t) × HasType q t
unfolding at
Leads-at [] s q r h l = (r, refl, subst (λ x. HasType x r) l h)
Leads-at (n ∷ p) s q (leaf x) h l = absurd l
Leads-at (n ∷ p) s q (node es) h (s', t, f, e, l) =
    let (u, a, g) = Leads-at p s' q t (HasType-nth n s s' es t h f e) l in
    (u, at-step n p es t e ∙ a, g)

pub put-HasType :
    (p : List ℕ) (s q : Shape) (r c : Target)
    → HasType s r
    → Leads p s r q
    → HasType q c
    → HasType s (put p c r)
unfolding put
put-HasType [] s q r c h l g = subst (λ x. HasType x c) (sym l) g
put-HasType (n ∷ p) s q (leaf x) c h l g = absurd l
put-HasType (n ∷ p) s q (node es) c h (s', t, f, e, l) g =
    subst (HasType s) (sym (put-step n p es t c e)) (
      HasType-set_nth n s s' es (put p c t) h f
        (put-HasType p s' q t c (HasType-nth n s s' es t h f e) l g))

put-Leads_step :
    (n : ℕ) (p m : List ℕ) (s s' q : Shape) (es : Elements) (t c : Target)
    → nth_shape n s ≡ some s'
    → nth n es ≡ some t
    → Leads p s' (put m c t) q
    → Leads (n ∷ p) s (put (n ∷ m) c (node es)) q
put-Leads_step n p m s s' q es t c f e l =
    subst (λ x. Leads (n ∷ p) s x q) (sym (put-step n m es t c e))
      (s', put m c t, f, nth-set_nth n es t (put m c t) e, l)

-- A write further on leaves a pointer where it leads.
pub put-Leads :
    (p m : List ℕ) (s q a : Shape) (r c : Target)
    → Leads (p ++ m) s r a
    → Leads p s r q
    → Leads p s (put (p ++ m) c r) q
unfolding put
put-Leads [] m s q a r c k l = l
put-Leads (n ∷ p) m s q a (leaf x) c k l = absurd l
put-Leads (n ∷ p) m s q a (node es) c (s1, t1, f1, e1, k) (s', t, f, e, l) =
    let k' : Leads (p ++ m) s' t a =
      subst (λ x. Leads (p ++ m) x t a) (some-injective _ _ (sym f1 ∙ f))
        (subst (λ x. Leads (p ++ m) s1 x a) (some-injective _ _ (sym e1 ∙ e)) k) in
    put-Leads_step n p (p ++ m) s s' q es t c f e (put-Leads p m s' q a t c k' l)

-- A pointer to an element of the object that was written.
pub put-Leads_inside :
    (p : List ℕ) (n : ℕ) (s q s' : Shape) (r t : Target) (es : Elements)
    → Leads p s r q
    → nth_shape n q ≡ some s'
    → nth n es ≡ some t
    → Leads (p ++ n ∷ []) s (put p (node es) r) s'
unfolding put
put-Leads_inside [] n s q s' r t es l f e = (s', t, (rw l f), e, refl)
put-Leads_inside (m ∷ p) n s q s' (leaf x) t es l f e = absurd l
put-Leads_inside (m ∷ p) n s q s' (node fs) t es (s1, t1, g, k, l) f e =
    put-Leads_step m (p ++ n ∷ []) p s s1 s' fs t1 (node es) g k
      (put-Leads_inside p n s1 q s' t1 t es l f e)
