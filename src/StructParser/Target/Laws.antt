-- ===== src/StructParser/Target/Laws.antt =====
-- Reads and writes through pointers.
use cppapiframework.Common.{
  ℕ, zero, suc, ◌≡◌, refl, sym, ap, ◌∙◌, some, List, [], ◌∷◌, ◌++◌, arith, Option-cases, inl, inr,
}
use cppapiframework.StructParser.Target.{
  Target, Elements, leaf, node, nothing, element, count, nth, set_nth, add, at, put,
}

pub nth-set_nth :
    (n : ℕ) (es : Elements) (t c : Target) → nth n es ≡ some t → nth n (set_nth n c es) ≡ some c
nth-set_nth n nothing t c h = cc
nth-set_nth zero (element k u es) t c h = refl
nth-set_nth (suc n) (element k u es) t c h = nth-set_nth n es t c h

set_nth-set_nth :
    (n : ℕ) (es : Elements) (c d : Target) → set_nth n d (set_nth n c es) ≡ set_nth n d es
set_nth-set_nth n nothing c d = refl
set_nth-set_nth zero (element k u es) c d = refl
set_nth-set_nth (suc n) (element k u es) c d = ap (element k u) (set_nth-set_nth n es c d)

set_nth-nth : (n : ℕ) (es : Elements) (t : Target) → nth n es ≡ some t → set_nth n t es ≡ es
set_nth-nth n nothing t h = refl
set_nth-nth zero (element k u es) t h = ground arith
set_nth-nth (suc n) (element k u es) t h = ap (element k u) (set_nth-nth n es t h)

pub nth-add : (es : Elements) (k : List ℕ) (t : Target) → nth (count es) (add es k t) ≡ some t
nth-add nothing k t = refl
nth-add (element j u es) k t = nth-add es k t

pub set_nth-add :
    (es : Elements) (k : List ℕ) (t c : Target) → set_nth (count es) c (add es k t) ≡ add es k c
set_nth-add nothing k t c = refl
set_nth-add (element j u es) k t c = ap (element j u) (set_nth-add es k t c)

pub count-add : (es : Elements) (k : List ℕ) (t : Target) → count (add es k t) ≡ suc (count es)
count-add nothing k t = refl
count-add (element j u es) k t = ap suc (count-add es k t)

pub at-step :
    (n : ℕ) (p : List ℕ) (es : Elements) (t : Target)
    → nth n es ≡ some t
    → at (n ∷ p) (node es) ≡ at p t
unfolding at
at-step n p es t e = rw (e, at) refl

pub put-step :
    (n : ℕ) (p : List ℕ) (es : Elements) (t c : Target)
    → nth n es ≡ some t
    → put (n ∷ p) c (node es) ≡ node (set_nth n (put p c t) es)
unfolding put
put-step n p es t c e = rw (e, put) refl

at_inside :
    (n : ℕ) (p : List ℕ) (es : Elements) (c : Target)
    → at (n ∷ p) (node es) ≡ some c
    → (t : Target) × (nth n es ≡ some t) × (at p t ≡ some c)
unfolding at
at_inside n p es c h = elim (Option-cases (nth n es)) [
  | inl e ↦ ground arith
  | inr (t, e) ↦ (t, e, sym (at-step n p es t e) ∙ h)
]

pub at-put : (p : List ℕ) (r c d : Target) → at p r ≡ some c → at p (put p d r) ≡ some d
unfolding at put
at-put [] r c d h = refl
at-put (n ∷ p) (leaf s) c d h = cc
at-put (n ∷ p) (node es) c d h =
    let (t, e, f) = at_inside n p es c h in
    rw (put-step n p es t d e, at-step n p _ _ (nth-set_nth n es t (put p d t) e))
      (at-put p t c d f)

pub put-put : (p : List ℕ) (r a c d : Target) → at p r ≡ some a → put p d (put p c r) ≡ put p d r
unfolding at put
put-put [] r a c d h = refl
put-put (n ∷ p) (leaf s) a c d h = cc
put-put (n ∷ p) (node es) a c d h =
    let (t, e, f) = at_inside n p es a h in
    rw
      (
        put-step n p es t c e,
        put-step n p _ _ d (nth-set_nth n es t (put p c t) e),
        put-step n p es t d e,
        set_nth-set_nth n es (put p c t) (put p d (put p c t)),
        put-put p t a c d f,
      )
      refl

pub put-at : (p : List ℕ) (r c : Target) → at p r ≡ some c → put p c r ≡ r
unfolding at put
put-at [] r c h = ground arith
put-at (n ∷ p) (leaf s) c h = refl
put-at (n ∷ p) (node es) c h =
    let (t, e, f) = at_inside n p es c h in
    rw (put-step n p es t c e, put-at p t c f, set_nth-nth n es t e) refl

pub at-snoc :
    (p : List ℕ) (n : ℕ) (r t : Target) (es : Elements)
    → at p r ≡ some (node es)
    → nth n es ≡ some t
    → at (p ++ n ∷ []) r ≡ some t
unfolding at
at-snoc [] n (leaf s) t es h e = cc
at-snoc [] n (node fs) t es h e = ground arith
at-snoc (m ∷ p) n (leaf s) t es h e = cc
at-snoc (m ∷ p) n (node fs) t es h e =
    let (u, g, f) = at_inside m p fs (node es) h in
    rw (at-step m (p ++ n ∷ []) fs u g) (at-snoc p n u t es f e)

pub put-snoc :
    (p : List ℕ) (n : ℕ) (r c : Target) (es : Elements) (t : Target)
    → at p r ≡ some (node es)
    → nth n es ≡ some t
    → put (p ++ n ∷ []) c r ≡ put p (node (set_nth n c es)) r
unfolding at put
put-snoc [] n (leaf s) c es t h e = cc
put-snoc [] n (node fs) c es t h e = ground arith
put-snoc (m ∷ p) n (leaf s) c es t h e = cc
put-snoc (m ∷ p) n (node fs) c es t h e =
    let (u, g, f) = at_inside m p fs (node es) h in
    rw (put-step m (p ++ n ∷ []) fs u c g, put-step m p fs u _ g, put-snoc p n u c es t f e) refl

-- The elements of two containers, one after the other.
abbrev pub join : Elements → Elements → Elements
join nothing fs = fs
join (element k t es) fs = element k t (join es fs)

pub join_nothing : (es : Elements) → join es nothing ≡ es
join_nothing nothing = refl
join_nothing (element k t es) = ap (element k t) (join_nothing es)

pub join-add :
    (es : Elements) (k : List ℕ) (t : Target) (fs : Elements)
    → join (add es k t) fs ≡ join es (element k t fs)
join-add nothing k t fs = refl
join-add (element j u es) k t fs = ap (element j u) (join-add es k t fs)

pub nth-join :
    (es : Elements) (k : List ℕ) (t : Target) (fs : Elements)
    → nth (count es) (join es (element k t fs)) ≡ some t
nth-join nothing k t fs = refl
nth-join (element j u es) k t fs = nth-join es k t fs

pub set_nth-join :
    (es : Elements) (k : List ℕ) (t c : Target) (fs : Elements)
    → set_nth (count es) c (join es (element k t fs)) ≡ join es (element k c fs)
set_nth-join nothing k t c fs = refl
set_nth-join (element j u es) k t c fs = ap (element j u) (set_nth-join es k t c fs)
