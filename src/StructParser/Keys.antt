-- ===== src/StructParser/Keys.antt =====
-- src/JSON/StructParser.hpp: keys that a struct does not have, and keys that a map has already.
use cppapiframework.Common.{ℕ, ◌≡◌, refl, false, text, none, some, List, ◌∷◌, ◌++◌, Bytes, is_empty}
use cppapiframework.Common.Outcome.{ok, thrown}
use cppapiframework.StructParser.Filler.{
  open_in_dict, open_in_struct, set_holder, Library, convert_to, open_slot, store, store_in, fill,
  make_object, make_array,
}
use cppapiframework.StructParser.Machine.{
  Parser, Event, key, value, start_object, start_array, run, handle, start, start_in, put_value,
  put_value-ok, target_of, Maker,
}
use cppapiframework.StructParser.Target.{
  Scalar, Shape, dict, struct, Fields, Target, Elements, node, at, find_key, find_field,
}
use cppapiframework.StructParser.Target.Laws.{put-at}

start-thrown :
    (l : Library) (make : Maker) (st : Parser) (es : Elements) (why : Bytes)
    → is_empty st.current_key ≡ false
    → at st.current.place st.root ≡ some (node es)
    → open_slot l st.current.shape st.current_key es ≡ thrown why
    → start l make st ≡ thrown why
unfolding start start_in target_of
start-thrown l make st es why k e o = rw (k, e, target_of, o) refl

put_value-thrown :
    (l : Library) (x : Scalar) (st : Parser) (t : Target) (why : Bytes)
    → at st.current.place st.root ≡ some t
    → fill l st.current.shape st.current_key x t ≡ thrown why
    → put_value l x st ≡ thrown why
unfolding put_value target_of
put_value-thrown l x st t why e h = rw (e, target_of, h) refl

-- While the members of a struct are read: a value under a key that is none of its fields.
pub run_unknown_value :
    (l : Library) (st : Parser) (fs : Fields) (es : Elements) (k : Bytes) (x : Scalar)
    (rest : List Event)
    → st.current.shape ≡ struct fs
    → at st.current.place st.root ≡ some (node es)
    → find_field k fs ≡ none
    → run l (key k ∷ value x ∷ rest) st ≡ thrown (text "invalid key " ++ k)
unfolding run handle fill store set_holder
run_unknown_value l st fs es k x rest s a f =
    let why : Bytes = text "invalid key " ++ k in
    rw
      (put_value-thrown l x (record st { current_key = k }) (node es) why a
        (rw (s, f, set_holder) refl))
      refl

-- An object or an array under such a key, which is not empty.
pub run_unknown_bracket :
    (l : Library) (st : Parser) (fs : Fields) (es : Elements) (k : Bytes) (rest : List Event)
    → st.current.shape ≡ struct fs
    → at st.current.place st.root ≡ some (node es)
    → find_field k fs ≡ none
    → is_empty k ≡ false
    → (run l (key k ∷ start_object ∷ rest) st ≡ thrown (text "invalid key " ++ k))
      × (run l (key k ∷ start_array ∷ rest) st ≡ thrown (text "invalid key " ++ k))
unfolding run handle open_slot open_in_dict open_in_struct
run_unknown_bracket l st fs es k rest s a f h =
    let keyed : Parser = record st { current_key = k } in
    let why : Bytes = text "invalid key " ++ k in
    let shut : open_slot l st.current.shape k es ≡ thrown why = rw (s, f, open_in_struct) refl in
    (
      rw (start-thrown l make_object keyed es why h a shut) refl,
      rw (start-thrown l make_array keyed es why h a shut) refl,
    )

-- A value under a key that a map has already changes nothing but the key last read, where the
-- value fits the type of the map's elements: the first value of a repeated key stays.
pub run_repeated_key :
    (l : Library) (st : Parser) (s : Shape) (es : Elements) (k : Bytes) (n : ℕ) (x : Scalar)
    (t : Target) (rest : List Event)
    → st.current.shape ≡ dict s
    → at st.current.place st.root ≡ some (node es)
    → find_key k es ≡ some n
    → convert_to l s x ≡ ok t
    → run l (key k ∷ value x ∷ rest) st ≡ run l rest (record st { current_key = k })
unfolding run handle fill store set_holder store_in
run_repeated_key l st s es k n x t rest p a f c =
    let keyed : Parser = record st { current_key = k } in
    let stored : fill l st.current.shape k x (node es) ≡ ok (node es) =
      rw (p, c, f, store_in) refl in
    rw
      (
        put_value-ok l x keyed (node es) (node es) a stored,
        put-at st.current.place st.root (node es) a,
      )
      refl
