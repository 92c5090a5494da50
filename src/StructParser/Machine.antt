-- ===== src/StructParser/Machine.antt =====
-- src/JSON/StructParser.hpp, class StructParser: the handler of a JSON parser's events, with the
-- stack of the fillers that it comes back to.
use cppapiframework.Common.{
  ℕ, text, none, some, List, [], ◌∷◌, ◌++◌, Bytes, if◌then◌else◌, is_empty, ◌≡◌, refl, false,
}
use cppapiframework.Common.Outcome.{Outcome, ok, thrown, ◌>>=◌}
use cppapiframework.StructParser.Filler.{Library, Filler, make_object, make_array, open_slot, fill}
use cppapiframework.StructParser.Target.{
  Scalar, Shape, Target, Elements, leaf, node, default, at, put,
}

pub data Event : Type 0 where
  start_object end_object start_array end_array null : Event
  key : Bytes → Event
  value : Scalar → Event

-- `root` is the object that the first filler points at.
pub record Parser : Type 0 where
  pub current_key : Bytes
  pub current : Filler
  pub stack : List Filler
  pub root : Target

-- StructParser(filler) on an object made by T{}
abbrev pub parser_of : Shape → Parser
parser_of s = record {
  current_key = [];
  current = record { shape = s; place = [] };
  stack = [];
  root = default s;
}

-- The object a filler writes into; no filler is left with a pointer to something else.
unfoldable pub target_of : Parser → Outcome Target
target_of st = elim (at st.current.place st.root) [
  | none ↦ thrown (text "dangling")
  | some t ↦ ok t
]

abbrev pub elements_of : Target → Outcome Elements
elements_of (leaf x) = thrown (text "inconvesible")
elements_of (node es) = ok es

abbrev pub Maker : Type 0
Maker = Library → Shape → List ℕ → Outcome Filler

-- current->startObject, or current->startArray
unfoldable pub start_in : Library → Maker → Parser → Elements → Outcome Parser
start_in l make st es = open_slot l st.current.shape st.current_key es >>= λ o.
    make l o.0 (st.current.place ++ o.1 ∷ []) >>= λ f. ok (record st {
      current = f;
      stack = st.current ∷ st.stack;
      root = put st.current.place (node o.2) st.root;
    })

unfoldable pub start : Library → Maker → Parser → Outcome Parser
unfolding start_in target_of
start l make st =
    if is_empty st.current_key then ok st else target_of st >>= elements_of >>= start_in l make st

-- endObject, endArray
unfoldable pub finish : Parser → Parser
finish st = elim st.stack [ [] ↦ st | f ∷ fs ↦ record st { current = f; stack = fs } ]

unfoldable pub put_value : Library → Scalar → Parser → Outcome Parser
unfolding target_of
put_value l x st = target_of st >>= fill l st.current.shape st.current_key x >>= λ t.
    ok (record st { root = put st.current.place t st.root })

unfoldable pub handle : Library → Event → Parser → Outcome Parser
unfolding start finish put_value
handle l start_object st = start l make_object st
handle l start_array st = start l make_array st
handle l end_object st = ok (finish st)
handle l end_array st = ok (finish st)
handle l null st = ok st
handle l (key k) st = ok (record st { current_key = k })
handle l (value x) st = put_value l x st

unfoldable pub run : Library → List Event → Parser → Outcome Parser
unfolding handle
run l [] st = ok st
run l (e ∷ es) st = handle l e st >>= run l es

pub put_value-ok :
    (l : Library) (x : Scalar) (st : Parser) (t t' : Target)
    → at st.current.place st.root ≡ some t
    → fill l st.current.shape st.current_key x t ≡ ok t'
    → put_value l x st ≡ ok (record st { root = put st.current.place t' st.root })
unfolding put_value target_of
put_value-ok l x st t t' e h = rw (e, target_of, h) refl

pub start-ok :
    (l : Library) (make : Maker) (st : Parser) (es fs : Elements) (s : Shape) (n : ℕ) (f : Filler)
    → is_empty st.current_key ≡ false
    → at st.current.place st.root ≡ some (node es)
    → open_slot l st.current.shape st.current_key es ≡ ok (s, n, fs)
    → make l s (st.current.place ++ n ∷ []) ≡ ok f
    → start l make st
      ≡ ok (record st {
        current = f;
        stack = st.current ∷ st.stack;
        root = put st.current.place (node fs) st.root;
      })
unfolding start start_in target_of
start-ok l make st es fs s n f k e o m = rw (k, e, target_of, o, m) refl

bind_pointwise :
    (f g h : Parser → Outcome Parser) (o : Outcome Parser)
    → ((st : Parser) → f st ≡ (g st >>= h))
    → (o >>= f) ≡ (o >>= g >>= h)
bind_pointwise f g h (ok st) e = e st
bind_pointwise f g h (thrown t) e = refl

pub run-append :
    (l : Library) (a b : List Event) (st : Parser) → run l (a ++ b) st ≡ (run l a st >>= run l b)
unfolding run
run-append l [] b st = refl
run-append l (e ∷ a) b st = bind_pointwise _ _ (run l b) (handle l e st) (run-append l a b)
