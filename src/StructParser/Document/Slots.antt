-- ===== src/StructParser/Document/Slots.antt =====
-- The place that the next value of a document goes to, in the object of the current filler.
use cppapiframework.Common.{
  ℕ, ◌≡◌, refl, ap, false, none, some, List, [], ◌∷◌, ◌++◌, ◌∙◌, Bytes, is_empty,
}
use cppapiframework.Common.Outcome.{ok}
use cppapiframework.StructParser.Filler.{
  open_in_dict, open_in_struct, set_holder, Library, convert_to, open_slot, store, store_in, fill,
}
use cppapiframework.StructParser.Machine.{
  Parser, Event, Maker, key, value, run, handle, start, finish, put_value-ok, start-ok, run-append,
}
use cppapiframework.StructParser.Target.{
  Kind, Scalar, kind_of, same_kind_refl, Shape, basic, vec, dict, struct, Fields, Target, Elements,
  leaf, node, count, nth, set_nth, add, default, at, put, find_key, find_field,
}
use cppapiframework.StructParser.Target.Laws.{
  nth-add, set_nth-add, at-put, put-put, at-snoc, put-snoc,
}

-- A '{' or a '[' opens the n-th of the elements `fs`, of the type `s`, and a value of that type is
-- written there.
pub record Slot (l : Library) (st : Parser) (s : Shape) (n : ℕ) (fs : Elements) : Type 0 where
  pub elements : Elements
  pub keyed : is_empty st.current_key ≡ false
  pub here : at st.current.place st.root ≡ some (node elements)
  pub opens : open_slot l st.current.shape st.current_key elements ≡ ok (s, n, fs)
  pub inside : nth n fs ≡ some (default s)
  pub fills :
      (k : Kind) (x : Scalar)
      → s ≡ basic k
      → kind_of x ≡ k
      → fill l st.current.shape st.current_key x (node elements) ≡ ok (node (set_nth n (leaf x) fs))

convert_same :
    (l : Library) (s : Shape) (k : Kind) (x : Scalar)
    → s ≡ basic k
    → kind_of x ≡ k
    → convert_to l s x ≡ ok (leaf x)
unfolding convert_to
convert_same l s k x e h = rw (e, h, same_kind_refl k) refl

pub vec-Slot :
    (l : Library) (st : Parser) (s : Shape) (es : Elements)
    → st.current.shape ≡ vec s
    → is_empty st.current_key ≡ false
    → at st.current.place st.root ≡ some (node es)
    → Slot l st s (count es) (add es [] (default s))
unfolding open_slot open_in_dict open_in_struct fill store set_holder
vec-Slot l st s es e h a = record {
  elements = es;
  keyed = h;
  here = a;
  opens = rw e refl;
  inside = nth-add es [] (default s);
  fills = λ k x p q. rw (e, convert_same l s k x p q, set_nth-add es [] (default s) (leaf x)) refl;
}

pub dict-Slot :
    (l : Library) (st : Parser) (s : Shape) (es : Elements)
    → st.current.shape ≡ dict s
    → is_empty st.current_key ≡ false
    → at st.current.place st.root ≡ some (node es)
    → find_key st.current_key es ≡ none
    → Slot l st s (count es) (add es st.current_key (default s))
unfolding open_slot open_in_dict open_in_struct fill store set_holder store_in
dict-Slot l st s es e h a f = record {
  elements = es;
  keyed = h;
  here = a;
  opens = rw (e, f, open_in_dict) refl;
  inside = nth-add es st.current_key (default s);
  fills = λ k x p q.
      rw
        (
          e,
          convert_same l s k x p q,
          f,
          store_in,
          set_nth-add es st.current_key (default s) (leaf x),
        )
        refl;
}

pub struct-Slot :
    (l : Library) (st : Parser) (fs : Fields) (n : ℕ) (s : Shape) (es : Elements)
    → st.current.shape ≡ struct fs
    → is_empty st.current_key ≡ false
    → at st.current.place st.root ≡ some (node es)
    → find_field st.current_key fs ≡ some (n, s)
    → nth n es ≡ some (default s)
    → Slot l st s n es
unfolding open_slot open_in_dict open_in_struct fill store set_holder
struct-Slot l st fs n s es e h a f i = record {
  elements = es;
  keyed = h;
  here = a;
  opens = rw (e, f, open_in_struct) refl;
  inside = i;
  fills = λ k x p q. rw (e, f, set_holder, convert_same l s k x p q) refl;
}

-- The events end with the object changed to `r`, and the same fillers.
abbrev pub Feeds : Library → List Event → Parser → Target → Type 0
Feeds l es st r =
    (k : Bytes) × (is_empty k ≡ false)
    × (run l es st ≡ ok (record st { current_key = k; root = r }))

pub Feeds-append :
    (l : Library) (a b : List Event) (st : Parser) (r r' : Target)
    → Feeds l a st r
    → ((k : Bytes) → is_empty k ≡ false → Feeds l b (record st { current_key = k; root = r }) r')
    → Feeds l (a ++ b) st r'
Feeds-append l a b st r r' (k, h, e) f =
    let (k', h', e') = f k h in (k', h', run-append l a b st ∙ (rw e e'))

pub Feeds-key :
    (l : Library) (k : Bytes) (es : List Event) (st : Parser) (r : Target)
    → Feeds l es (record st { current_key = k }) r
    → Feeds l (key k ∷ es) st r
unfolding run handle
Feeds-key l k es st r f = f

pub Feeds-value :
    (l : Library) (st : Parser) (s : Shape) (n : ℕ) (fs : Elements) (k : Kind) (x : Scalar)
    → Slot l st s n fs
    → s ≡ basic k
    → kind_of x ≡ k
    → Feeds l (value x ∷ []) st (put st.current.place (node (set_nth n (leaf x) fs)) st.root)
unfolding run handle
Feeds-value l st s n fs k x c e h =
    (st.current_key, c.keyed, rw (put_value-ok l x st _ _ c.here (c.fills k x e h)) refl)

-- A '{' or '[', what is inside, and the '}' or ']'.
pub Feeds-inside :
    (l : Library) (opening closing : Event) (make : Maker) (inner : List Event) (st : Parser)
    (s : Shape) (n : ℕ) (fs es es' : Elements)
    → ((st : Parser) → handle l opening st ≡ start l make st)
    → ((st : Parser) → handle l closing st ≡ ok (finish st))
    → Slot l st s n fs
    → make l s (st.current.place ++ n ∷ [])
      ≡ ok (record { shape = s; place = st.current.place ++ n ∷ [] })
    → default s ≡ node es
    → ((st' : Parser)
        → st'.current.shape ≡ s
        → is_empty st'.current_key ≡ false
        → at st'.current.place st'.root ≡ some (node es)
        → Feeds l inner st' (put st'.current.place (node es') st'.root))
    → Feeds l
        (opening ∷ inner ++ closing ∷ [])
        st
        (put st.current.place (node (set_nth n (node es') fs)) st.root)
unfolding run finish
Feeds-inside l opening closing make inner st s n fs es es' op sh c m d f =
    let root : Target = put st.current.place (node fs) st.root in
    let place : List ℕ = st.current.place ++ n ∷ [] in
    let st1 : Parser = record st {
      current = record { shape = s; place = place };
      stack = st.current ∷ st.stack;
      root = root;
    } in
    let started : start l make st ≡ ok st1 =
      start-ok l make st c.elements fs s n _ c.keyed c.here c.opens m in
    let new_here : at st.current.place root ≡ some (node fs) =
      at-put st.current.place st.root _ (node fs) c.here in
    let inside : at place root ≡ some (node es) =
      at-snoc st.current.place n root (node es) fs new_here (c.inside ∙ ap some d) in
    let (k, h, e) = f st1 refl c.keyed inside in
    (
      k,
      h,
      rw
          (
            op st,
            started,
            run-append l inner (closing ∷ []) st1,
            e,
            sh,
            put-snoc st.current.place n root (node es') fs _ new_here c.inside,
            put-put st.current.place st.root _ (node fs) (node (set_nth n (node es') fs)) c.here,
          )
          refl,
    )
