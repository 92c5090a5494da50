-- ===== src/StructParser/Types/Run.antt =====
-- What the parser has after any events.
use mathlib.Core.List.{append-nil}
use mathlib.Core.Option.{some-injective}
use cppapiframework.Common.{ℕ, zero, suc, get_elem?, ◌≡◌, refl, sym, subst, some, List, [], ◌∷◌}
use cppapiframework.Common.Outcome.{ok, ok-injective, returns_both}
use cppapiframework.StructParser.Filler.{Library, Filler, make_object, make_array}
use cppapiframework.StructParser.Machine.{
  Parser, Event, key, value, start_object, end_object, start_array, end_array, null, run, handle,
  parser_of,
}
use cppapiframework.StructParser.Target.{Shape, Target, at}
use cppapiframework.StructParser.Types.{HasType, Leads, Leads-at, default-HasType}
use cppapiframework.StructParser.Types.Steps.{ConvertsToType}
use cppapiframework.StructParser.Types.Parsing.{
  Chain, IsTyped, put_value-IsTyped, make_object-MakesFor, make_array-MakesFor, start-IsTyped,
  finish_at-IsTyped,
}

handle-IsTyped :
    (l : Library) (s : Shape) (e : Event) (st st' : Parser)
    → ConvertsToType l
    → IsTyped s st
    → handle l e st ≡ ok st'
    → IsTyped s st'
unfolding handle
handle-IsTyped l s start_object st st' c h e =
    start-IsTyped l make_object s st st' make_object-MakesFor h e
handle-IsTyped l s start_array st st' c h e =
    start-IsTyped l make_array s st st' make_array-MakesFor h e
handle-IsTyped l s end_object st st' c h e =
    subst (IsTyped s) (ok-injective _ st' e)
      (finish_at-IsTyped s st.current_key st.current st.stack st.root h)
handle-IsTyped l s end_array st st' c h e =
    subst (IsTyped s) (ok-injective _ st' e)
      (finish_at-IsTyped s st.current_key st.current st.stack st.root h)
handle-IsTyped l s null st st' c h e = subst (IsTyped s) (ok-injective _ st' e) h
handle-IsTyped l s (key k) st st' c h e =
    subst (IsTyped s) (ok-injective (record st { current_key = k }) st' e)
      (record { typed = h.typed; leads = h.leads; chain = h.chain })
handle-IsTyped l s (value x) st st' c h e = put_value-IsTyped l s x st st' c h e

run-IsTyped :
    (l : Library) (s : Shape) (es : List Event) (st st' : Parser)
    → ConvertsToType l
    → IsTyped s st
    → run l es st ≡ ok st'
    → IsTyped s st'
unfolding run
run-IsTyped l s [] st st' c h e = subst (IsTyped s) (ok-injective st st' e) h
run-IsTyped l s (x ∷ es) st st' c h e =
    let (st1, a, b) = returns_both (handle l x st) (run l es) st' e in
    run-IsTyped l s es st1 st' c (handle-IsTyped l s x st st1 c h a) b

Chain-get_elem? :
    (n : ℕ) (s : Shape) (r : Target) (p : List ℕ) (fs : List Filler) (f : Filler)
    → Chain s r p fs
    → get_elem? fs n ≡ some f
    → Leads f.place s r f.shape
Chain-get_elem? n s r p [] f h e = cc
Chain-get_elem? zero s r p (g ∷ fs) f h e =
    subst (λ x. Leads x.place s r x.shape) (some-injective g f e) h.1
Chain-get_elem? (suc n) s r p (g ∷ fs) f h e = Chain-get_elem? n s r g.place fs f h.2 e

-- After any events that do not throw, whether they make a document or not, the object has the type
-- it was declared with, and the current filler and every filler on the stack points at an object
-- inside it of the type that the filler is for: if the conversions of the library give values of
-- the types they are asked for.
pub run_keeps_types :
    (l : Library) (s : Shape) (es : List Event) (st : Parser)
    → ConvertsToType l
    → run l es (parser_of s) ≡ ok st
    → HasType s st.root
      × ((n : ℕ) (f : Filler)
          → get_elem? (st.current ∷ st.stack) n ≡ some f
          → (t : Target) × (at f.place st.root ≡ some t) × HasType f.shape t)
run_keeps_types l s es st c e =
    let start : IsTyped s (parser_of s) = record {
      typed = default-HasType s;
      leads = refl;
      chain = tt;
    } in
    let h : IsTyped s st = run-IsTyped l s es (parser_of s) st c start e in
    let chain : Chain s st.root st.current.place (st.current ∷ st.stack) =
      (([], sym (append-nil st.current.place)), h.leads, h.chain) in
    (
      h.typed,
      λ n f e.
          Leads-at f.place s f.shape st.root h.typed
            (Chain-get_elem? n s st.root st.current.place (st.current ∷ st.stack) f chain e),
    )
