-- ===== src/StructParser/Types/Parsing.antt =====
-- Whatever events come, the parser keeps the types of the objects, and every filler a pointer to an
-- object of the type that it fills.
use mathlib.Core.List.{append_assoc, append-nil}
use cppapiframework.Common.{
  ℕ, ◌≡◌, refl, sym, subst, ◌∙◌, List, [], ◌∷◌, ◌++◌, Bool-cases, inl, inr, Bytes, is_empty,
}
use cppapiframework.Common.Outcome.{ok, ok-injective, returns_both, ◌>>=◌}
use cppapiframework.StructParser.Filler.{Library, Filler, make_object, make_array, open_slot, fill}
use cppapiframework.StructParser.Machine.{
  Parser, Maker, start, start_in, elements_of, finish, put_value, target_of,
}
use cppapiframework.StructParser.Target.{
  Scalar, Shape, basic, vec, dict, struct, Target, Elements, leaf, node, put,
}
use cppapiframework.StructParser.Types.{
  HasType, Leads, Leads-at, put-HasType, put-Leads, put-Leads_inside,
}
use cppapiframework.StructParser.Types.Steps.{ConvertsToType, open_slot-HasType, fill-HasType}

-- Each filler on the stack points at the object that holds the one of the filler above it.
abbrev pub Chain : Shape → Target → List ℕ → List Filler → Type 0
Chain s r p [] = Unit
Chain s r p (f ∷ fs) =
    ((m : List ℕ) × (p ≡ f.place ++ m)) × Leads f.place s r f.shape × Chain s r f.place fs

-- A parser on an object of the type `s`.
pub record IsTyped (s : Shape) (st : Parser) : Type 0 where
  pub typed : HasType s st.root
  pub leads : Leads st.current.place s st.root st.current.shape
  pub chain : Chain s st.root st.current.place st.stack

Chain-put :
    (s a : Shape) (r c : Target) (p : List ℕ) (fs : List Filler) (q m : List ℕ)
    → q ≡ p ++ m
    → Leads q s r a
    → Chain s r p fs
    → Chain s (put q c r) p fs
Chain-put s a r c p [] q m e l h = tt
Chain-put s a r c p (f ∷ fs) q m e l ((m', e'), k, h) =
    let e2 : q ≡ f.place ++ (m' ++ m) = e ∙ (rw e' (append_assoc f.place m' m)) in
    (
      (m', e'),
      subst (λ x. Leads f.place s (put x c r) f.shape) (sym e2)
          (put-Leads f.place (m' ++ m) s f.shape a r c (subst (λ x. Leads x s r a) e2 l) k),
      Chain-put s a r c f.place fs q (m' ++ m) e2 l h,
    )

put-Leads_here : (p : List ℕ) (s q : Shape) (r c : Target) → Leads p s r q → Leads p s (put p c r) q
put-Leads_here p s q r c l =
    subst (λ x. Leads p s (put x c r) q) (append-nil p)
      (put-Leads p [] s q q r c (subst (λ x. Leads x s r q) (sym (append-nil p)) l) l)

-- A write by the current filler.
put-IsTyped :
    (s : Shape) (st : Parser) (c : Target)
    → IsTyped s st
    → HasType st.current.shape c
    → IsTyped s (record st { root = put st.current.place c st.root })
put-IsTyped s st c h g = record {
  typed = put-HasType st.current.place s st.current.shape st.root c h.typed h.leads g;
  leads = put-Leads_here st.current.place s st.current.shape st.root c h.leads;
  chain =
      Chain-put s st.current.shape st.root c st.current.place st.stack st.current.place []
        (sym (append-nil st.current.place)) h.leads h.chain;
}

pub put_value-IsTyped :
    (l : Library) (s : Shape) (x : Scalar) (st st' : Parser)
    → ConvertsToType l
    → IsTyped s st
    → put_value l x st ≡ ok st'
    → IsTyped s st'
unfolding put_value target_of
put_value-IsTyped l s x st st' c h e =
    let (t, a, g) = Leads-at st.current.place s st.current.shape st.root h.typed h.leads in
    let (u, b, k) =
      returns_both (fill l st.current.shape st.current_key x t)
        (λ t. ok (record st { root = put st.current.place t st.root })) st'
        (sym (rw (a, target_of) refl) ∙ e) in
    subst (IsTyped s) (ok-injective (record st { root = put st.current.place u st.root }) st' k)
      (put-IsTyped s st u h (fill-HasType l st.current.shape st.current_key x t u c g b))

-- startObjectFor and startArrayFor make a filler for the object that they are given.
abbrev pub MakesFor : Maker → Type 0
MakesFor make =
    (l : Library) (s : Shape) (p : List ℕ) (f : Filler)
    → make l s p ≡ ok f
    → f ≡ record { shape = s; place = p }

pub make_object-MakesFor : MakesFor make_object
unfolding make_object
make_object-MakesFor l (dict s) p f e = sym (ok-injective _ f e)
make_object-MakesFor l (struct fs) p f e = sym (ok-injective _ f e)
make_object-MakesFor l (basic k) p f e = cc
make_object-MakesFor l (vec s) p f e = cc

pub make_array-MakesFor : MakesFor make_array
unfolding make_array
make_array-MakesFor l (dict s) p f e = cc
make_array-MakesFor l (struct fs) p f e = cc
make_array-MakesFor l (basic k) p f e = cc
make_array-MakesFor l (vec s) p f e = sym (ok-injective _ f e)

start_in-IsTyped :
    (l : Library) (make : Maker) (s : Shape) (st st' : Parser) (es : Elements)
    → MakesFor make
    → IsTyped s st
    → HasType st.current.shape (node es)
    → start_in l make st es ≡ ok st'
    → IsTyped s st'
unfolding start_in
start_in-IsTyped l make s st st' es m h g e =
    let p : List ℕ = st.current.place in
    let (o, a, b) = returns_both (open_slot l st.current.shape st.current_key es) _ st' e in
    let (f, d, k) = returns_both (make l o.0 (p ++ o.1 ∷ [])) _ st' b in
    let (t, n, (u, v)) = open_slot-HasType l st.current.shape st.current_key es o.2 o.0 o.1 g a in
    let written : IsTyped s (record st { root = put p (node o.2) st.root }) =
      put-IsTyped s st (node o.2) h t in
    let opened : IsTyped s (record st {
      current = record { shape = o.0; place = p ++ o.1 ∷ [] };
      stack = st.current ∷ st.stack;
      root = put p (node o.2) st.root;
    }) =
      record {
        typed = written.typed;
        leads = put-Leads_inside p o.1 s st.current.shape o.0 st.root u o.2 h.leads n v;
        chain = ((o.1 ∷ [], refl), written.leads, written.chain);
      } in
    subst (IsTyped s) (ok-injective _ st' k) (
      subst
        (λ x. IsTyped s (record st {
          current = x;
          stack = st.current ∷ st.stack;
          root = put p (node o.2) st.root;
        }))
        (sym (m l o.0 (p ++ o.1 ∷ []) f d)) opened)

start_at-IsTyped :
    (l : Library) (make : Maker) (s : Shape) (st st' : Parser) (t : Target)
    → MakesFor make
    → IsTyped s st
    → HasType st.current.shape t
    → (elements_of t >>= start_in l make st) ≡ ok st'
    → IsTyped s st'
start_at-IsTyped l make s st st' (leaf x) m h g e = cc
start_at-IsTyped l make s st st' (node es) m h g e = start_in-IsTyped l make s st st' es m h g e

pub start-IsTyped :
    (l : Library) (make : Maker) (s : Shape) (st st' : Parser)
    → MakesFor make
    → IsTyped s st
    → start l make st ≡ ok st'
    → IsTyped s st'
unfolding start start_in target_of
start-IsTyped l make s st st' m h e = elim (Bool-cases (is_empty st.current_key)) [
  | inl k ↦ subst (IsTyped s) (ok-injective st st' (sym (rw (k, start) refl) ∙ e)) h
  | inr k ↦
      let (t, a, g) = Leads-at st.current.place s st.current.shape st.root h.typed h.leads in
      start_at-IsTyped l make s st st' t m h g (sym (rw (k, a, target_of) refl) ∙ e)
]

pub finish_at-IsTyped :
    (s : Shape) (k : Bytes) (c : Filler) (fs : List Filler) (r : Target)
    → IsTyped s (record { current_key = k; current = c; stack = fs; root = r })
    → IsTyped s (finish (record { current_key = k; current = c; stack = fs; root = r }))
unfolding finish
finish_at-IsTyped s k c [] r h = h
finish_at-IsTyped s k c (f ∷ fs) r h = record {
  typed = h.typed;
  leads = h.chain.1;
  chain = h.chain.2;
}
