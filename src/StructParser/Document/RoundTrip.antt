-- ===== src/StructParser/Document/RoundTrip.antt =====
-- A document about an object is read back to that object.
use cppapiframework.Common.{
  ℕ, ◌≡◌, refl, sym, ap, subst, false, some, List, [], ◌∷◌, ◌++◌, ◌∙◌, Bytes, is_empty,
}
use cppapiframework.Common.Outcome.{ok}
use cppapiframework.StructParser.Document.{
  HasShape, AreItems, AreEntries, AreFields, document, items, entries, fields,
}
use cppapiframework.StructParser.Document.Slots.{
  Slot, Feeds, vec-Slot, dict-Slot, struct-Slot, Feeds-append, Feeds-key, Feeds-value, Feeds-inside,
}
use cppapiframework.StructParser.Filler.{Library, make_object, make_array}
use cppapiframework.StructParser.Machine.{
  Parser, Event, start_object, end_object, start_array, end_array, run, run-append, handle, start,
  finish, parser_of,
}
use cppapiframework.StructParser.Target.{
  Shape, basic, vec, dict, struct, Fields, no_fields, field, Target, Elements, leaf, node, nothing,
  element, count, set_nth, add, default, default_fields, at, put,
}
use cppapiframework.StructParser.Target.Laws.{
  set_nth-add, count-add, at-put, put-put, put-at, join, join_nothing, join-add, nth-join,
  set_nth-join,
}

-- One element more, and the rest after it.
Feeds-step :
    (l : Library) (first rest : List Event) (st : Parser) (now landed next joined es : Elements)
    → at st.current.place st.root ≡ some (node now)
    → landed ≡ next
    → joined ≡ es
    → Feeds l first st (put st.current.place (node landed) st.root)
    → ((st' : Parser)
        → st'.current.shape ≡ st.current.shape
        → is_empty st'.current_key ≡ false
        → at st'.current.place st'.root ≡ some (node next)
        → Feeds l rest st' (put st'.current.place (node joined) st'.root))
    → Feeds l (first ++ rest) st (put st.current.place (node es) st.root)
Feeds-step l first rest st now landed next joined es a p q f g =
    let root : Target = put st.current.place (node next) st.root in
    let f' : Feeds l first st root =
      subst (λ x. Feeds l first st (put st.current.place (node x) st.root)) p f in
    Feeds-append l first rest st root _ f' λ k h.
      subst (Feeds l rest (record st { current_key = k; root = root }))
        (put-put st.current.place st.root _ (node next) (node joined) a
          ∙ ap (λ x. put st.current.place (node x) st.root) q)
        (g _ refl h (at-put st.current.place st.root _ (node next) a))

Feeds-nothing :
    (l : Library) (st : Parser) (es : Elements)
    → is_empty st.current_key ≡ false
    → at st.current.place st.root ≡ some (node es)
    → Feeds l [] st (put st.current.place (node (join es nothing)) st.root)
unfolding run
Feeds-nothing l st es h a =
    (st.current_key, h, rw (join_nothing es, put-at st.current.place st.root (node es) a) refl)

mutual
  unfolding document items entries fields default default_fields make_object make_array handle

  feed :
      (l : Library) (t : Target) (s : Shape) (st : Parser) (n : ℕ) (fs : Elements)
      → HasShape s t
      → Slot l st s n fs
      → Feeds l (document s t) st (put st.current.place (node (set_nth n t fs)) st.root)
  feed l (leaf x) (basic k) st n fs h c = Feeds-value l st (basic k) n fs k x c refl h
  feed l (node es) (vec s) st n fs h c =
      Feeds-inside l start_array end_array make_array (items s es) st (vec s) n fs nothing es
        (λ x. refl) (λ x. refl) c refl refl (λ st' e k a. feed_items l es s st' nothing e k a h)
  feed l (node es) (dict s) st n fs h c =
      Feeds-inside l start_object end_object make_object (entries s es) st (dict s) n fs nothing es
        (λ x. refl) (λ x. refl) c refl refl (λ st' e k a. feed_entries l es s st' nothing e k a h)
  feed l (node es) (struct gs) st n fs h c =
      Feeds-inside l start_object end_object make_object (fields gs es) st (struct gs) n fs
        (default_fields gs) es (λ x. refl) (λ x. refl) c refl refl
        (λ st' e k a. feed_fields l es gs st' gs nothing e k a h)
  feed l (node es) (basic k) st n fs h c = absurd h
  feed l (leaf x) (vec s) st n fs h c = absurd h
  feed l (leaf x) (dict s) st n fs h c = absurd h
  feed l (leaf x) (struct gs) st n fs h c = absurd h

  feed_items :
      (l : Library) (es : Elements) (s : Shape) (st : Parser) (done : Elements)
      → st.current.shape ≡ vec s
      → is_empty st.current_key ≡ false
      → at st.current.place st.root ≡ some (node done)
      → AreItems s es
      → Feeds l (items s es) st (put st.current.place (node (join done es)) st.root)
  feed_items l nothing s st done e k a h = Feeds-nothing l st done k a
  feed_items l (element j t es) s st done e k a (q, h, r) =
      Feeds-step l (document s t) (items s es) st done _ (add done [] t) _ _ a
        (set_nth-add done [] (default s) t) (join-add done [] t es ∙ (rw q refl))
        (feed l t s st _ _ h (vec-Slot l st s done e k a))
        (λ st' e' k' a'. feed_items l es s st' (add done [] t) (e' ∙ e) k' a' r)

  feed_entries :
      (l : Library) (es : Elements) (s : Shape) (st : Parser) (done : Elements)
      → st.current.shape ≡ dict s
      → is_empty st.current_key ≡ false
      → at st.current.place st.root ≡ some (node done)
      → AreEntries s done es
      → Feeds l (entries s es) st (put st.current.place (node (join done es)) st.root)
  feed_entries l nothing s st done e k a h = Feeds-nothing l st done k a
  feed_entries l (element j t es) s st done e k a (q, u, h, r) =
      let st1 : Parser = record st { current_key = j } in
      Feeds-key l j (document s t ++ entries s es) st _ (
        Feeds-step l (document s t) (entries s es) st1 done _ (add done j t) _ _ a
          (set_nth-add done j (default s) t) (join-add done j t es)
          (feed l t s st1 _ _ h (dict-Slot l st1 s done e q a u))
          (λ st' e' k' a'. feed_entries l es s st' (add done j t) (e' ∙ e) k' a' r))

  feed_fields :
      (l : Library) (es : Elements) (all : Fields) (st : Parser) (gs : Fields) (done : Elements)
      → st.current.shape ≡ struct all
      → is_empty st.current_key ≡ false
      → at st.current.place st.root ≡ some (node (join done (default_fields gs)))
      → AreFields all (count done) gs es
      → Feeds l (fields gs es) st (put st.current.place (node (join done es)) st.root)
  feed_fields l nothing all st no_fields done e k a h =
      Feeds-nothing l st done k (a ∙ ap (λ x. some (node x)) (join_nothing done))
  feed_fields l nothing all st (field i s gs) done e k a h = absurd h
  feed_fields l (element j t es) all st no_fields done e k a h = absurd h
  feed_fields l (element j t es) all st (field i s gs) done e k a (p, q, u, h, r) =
      let st1 : Parser = record st { current_key = j } in
      let later : AreFields all (count (add done i t)) gs es = rw (count-add done i t) r in
      Feeds-key l j (document s t ++ fields gs es) st _ (
        Feeds-step l (document s t) (fields gs es) st1 _ _ (join (add done i t) (default_fields gs))
          _ _ a
          (set_nth-join done i (default s) t (default_fields gs)
            ∙ sym (join-add done i t (default_fields gs)))
          (join-add done i t es ∙ (rw p refl))
          (feed l t s st1 _ _ h (
            struct-Slot l st1 all (count done) s _ e q a u
              (nth-join done i (default s) (default_fields gs))))
          (λ st' e' k' a'. feed_fields l es all st' gs (add done i t) (e' ∙ e) k' a' later))

-- A struct, or a map.
abbrev pub HasKeys : Shape → Type 0
HasKeys (basic k) = ⊥
HasKeys (vec s) = ⊥
HasKeys (dict s) = Unit
HasKeys (struct fs) = Unit

abbrev pub Fills : Library → Shape → List Event → Target → Type 0
Fills l s es t =
    (k : Bytes) × (run l es (parser_of s) ≡ ok (record (parser_of s) { current_key = k; root = t }))

Fills-entries :
    (l : Library) (s : Shape) (es : Elements)
    → AreEntries s nothing es
    → Fills l (dict s) (entries s es) (node es)
unfolding run handle entries default at put
Fills-entries l s nothing h = ([], refl)
Fills-entries l s (element j t es) h =
    let st : Parser = record (parser_of (dict s)) { current_key = j } in
    let (k, u, e) = feed_entries l (element j t es) s st nothing refl h.0 refl h in (k, e)

pub Fills-fields :
    (l : Library) (fs : Fields) (es : Elements)
    → AreFields fs 0 fs es
    → Fills l (struct fs) (fields fs es) (node es)
unfolding run handle fields default default_fields at put
Fills-fields l no_fields nothing h = ([], refl)
Fills-fields l no_fields (element j t es) h = absurd h
Fills-fields l (field i s gs) nothing h = absurd h
Fills-fields l (field i s gs) (element j t es) h =
    let fs : Fields = field i s gs in
    let st : Parser = record (parser_of (struct fs)) { current_key = j } in
    let (k, u, e) = feed_fields l (element j t es) fs st fs nothing refl h.1 refl h in (k, e)

Fills-closed :
    (l : Library) (s : Shape) (es : List Event) (t : Target)
    → Fills l s es t
    → Fills l s (start_object ∷ (es ++ end_object ∷ [])) t
unfolding run handle start finish
Fills-closed l s es t (k, e) = (k, run-append l es (end_object ∷ []) (parser_of s) ∙ (rw e refl))

-- For a struct whose fields have distinct names that are not empty, or a map whose keys are distinct
-- and not empty, the same holding of all structs and maps inside: the document of such an object,
-- given to a parser on a new object of its type, fills it with what the document describes: the
-- object is that one, no filler is left on the stack, and the parser is back at the first filler.
pub run-document :
    (l : Library) (s : Shape) (t : Target)
    → HasKeys s
    → HasShape s t
    → (k : Bytes) × (run l (document s t) (parser_of s)
        ≡ ok (record (parser_of s) { current_key = k; root = t }))
unfolding document
run-document l (dict s) (node es) c h = Fills-closed l (dict s) _ _ (Fills-entries l s es h)
run-document l (struct fs) (node es) c h = Fills-closed l (struct fs) _ _ (Fills-fields l fs es h)
run-document l (dict s) (leaf x) c h = absurd h
run-document l (struct fs) (leaf x) c h = absurd h
run-document l (basic k) t c h = absurd c
run-document l (vec s) t c h = absurd c
