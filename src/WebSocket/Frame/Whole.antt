-- ===== src/WebSocket/Frame/Whole.antt =====
-- receiveData on the parts of a frame: the turns that leave the byte, and the payload.
pub mod Protocol
pub mod Headers
pub mod Encoded
use cppapiframework.Common.{
  ℕ, zero, suc, ◌+◌, ◌*◌, ◌/◌, ◌%◌, ◌^◌, ◌-◌, ◌<◌, ◌≤◌, ◌≡◌, ◌≢◌, refl, sym, ap, ◌∙◌, ◌⊎◌, inl, inr,
  Bool, true, false, ◌||◌, Option, none, some, List, [], ◌∷◌, ◌++◌, arith, ◌==◌, leb, ltb,
  if◌then◌else◌, length, set, get_or, take, drop, replicate, length-append, length-replicate,
  Bool-cases,
}
use cppapiframework.Common.Xor.{xor_byte}
use cppapiframework.WebSocket.Frame.{
  Frame, Turn, uses, leaves, last, fails, turn, use_byte, Received, partial, complete, failed,
  receive_data, finish, unmask, big_endian, payload_byte,
}
use cppapiframework.WebSocket.Frame.Pieces.{from_turn, receive_data-cons}

-- A frame's state behind a turn that leaves the byte.
abbrev pub third : Frame → Frame
third f = record f { reading_state = 3; buffer_pos = 0 }

abbrev pub fourth : Frame → Frame
fourth f = record f { reading_state = 4 }

abbrev fifth : Frame → Frame
fifth f = record f {
  payload = take f.size f.payload ++ replicate (f.size - length f.payload) 0;
  reading_state = 5;
  buffer_pos = 0;
}

receive_data-turn :
    (f g : Frame) (b : ℕ) (bs : List ℕ)
    → use_byte 4 f b ≡ use_byte 4 g b
    → receive_data f (b ∷ bs) ≡ receive_data g (b ∷ bs)
receive_data-turn f g b bs h =
    rw (receive_data-cons f b bs, receive_data-cons g b bs) (ap (λ t. from_turn t bs) h)

pub skip_size :
    (f : Frame) (b : ℕ) (bs : List ℕ)
    → f.reading_state ≡ 2
    → f.size < 126
    → receive_data f (b ∷ bs) ≡ receive_data (third f) (b ∷ bs)
unfolding use_byte turn
skip_size f b bs e h = receive_data-turn f (third f) b bs (ground arith)

pub skip_mask :
    (f : Frame) (b : ℕ) (bs : List ℕ)
    → f.reading_state ≡ 3
    → f.use_mask ≡ false
    → receive_data f (b ∷ bs) ≡ receive_data (fourth f) (b ∷ bs)
unfolding use_byte turn
skip_mask f b bs e h = receive_data-turn f (fourth f) b bs (ground arith)

skip_resize :
    (f : Frame) (b : ℕ) (bs : List ℕ)
    → f.reading_state ≡ 4
    → receive_data f (b ∷ bs) ≡ receive_data (fifth f) (b ∷ bs)
unfolding use_byte turn
skip_resize f b bs e = receive_data-turn f (fifth f) b bs (ground arith)

set-append : (xs ys : List ℕ) (y v : ℕ) → set (xs ++ y ∷ ys) (length xs) v ≡ xs ++ v ∷ ys
set-append [] ys y v = refl
set-append (x ∷ xs) ys y v = ap (◌∷◌ x) (set-append xs ys y v)

append-step : (xs ys : List ℕ) (y : ℕ) → xs ++ y ∷ ys ≡ (xs ++ y ∷ []) ++ ys
append-step [] ys y = refl
append-step (x ∷ xs) ys y = ap (◌∷◌ x) (append-step xs ys y)

-- A frame whose payload is being read, its first n bytes done.
abbrev in_payload : Frame → List ℕ → ℕ → Frame
in_payload f s n = record f { payload = s; reading_state = 5; buffer_pos = n }

turn_inside :
    (f : Frame) (a zs : List ℕ) (z c : ℕ)
    → f.size ≡ length (a ++ z ∷ zs)
    → length zs ≢ 0
    → turn (in_payload f (a ++ z ∷ zs) (length a)) c
      ≡ uses (in_payload f (a ++ c ∷ zs) (length a + 1))
unfolding turn
turn_inside f a zs z c e h = ground (
  arith,
  length-append a (z ∷ zs),
  ap (λ p. uses (in_payload f p (length a + 1))) (set-append a zs z c),
)

turn_end :
    (f : Frame) (a : List ℕ) (z c : ℕ)
    → f.size ≡ length (a ++ z ∷ [])
    → turn (in_payload f (a ++ z ∷ []) (length a)) c
      ≡ last (in_payload f (a ++ c ∷ []) (length a + 1))
unfolding turn
turn_end f a z c e = ground (
  arith,
  length-append a (z ∷ []),
  ap (λ p. last (in_payload f p (length a + 1))) (set-append a [] z c),
)

receive_inside :
    (f g : Frame) (b : ℕ) (bs : List ℕ)
    → turn f b ≡ uses g
    → receive_data f (b ∷ bs) ≡ receive_data g bs
unfolding use_byte from_turn
receive_inside f g b bs h = rw (receive_data-cons f b bs, use_byte, h) refl

receive_end :
    (f g : Frame) (b : ℕ) (bs : List ℕ)
    → turn f b ≡ last g
    → receive_data f (b ∷ bs) ≡ complete (finish g) bs
unfolding use_byte from_turn
receive_end f g b bs h = rw (receive_data-cons f b bs, use_byte, h) refl

receive_payload :
    (f : Frame) (a zs : List ℕ) (z c : ℕ) (cs rest : List ℕ)
    → f.size ≡ length (a ++ z ∷ zs)
    → length zs ≡ length cs
    → receive_data (in_payload f (a ++ z ∷ zs) (length a)) (c ∷ cs ++ rest)
      ≡ complete (finish (in_payload f (a ++ c ∷ cs) f.size)) rest
receive_payload f a [] z c [] rest e h =
    receive_end _ _ c rest (turn_end f a z c e)
    ∙ ap (λ n. complete (finish (in_payload f (a ++ c ∷ []) n)) rest)
        (omega (arith, length-append a (z ∷ []), e))
receive_payload f a [] z c (d ∷ cs) rest e h = absurd (omega arith)
receive_payload f a (y ∷ zs) z c [] rest e h = absurd (omega arith)
receive_payload f a (y ∷ zs) z c (d ∷ cs) rest e h =
    receive_inside _ _ c (d ∷ cs ++ rest) (turn_inside f a (y ∷ zs) z c e (omega arith))
    ∙ (rw (append-step a (y ∷ zs) c, append-step a (d ∷ cs) c, one)
        (receive_payload f (a ++ c ∷ []) zs y d cs rest
          (omega
            (arith, e, length-append a (z ∷ y ∷ zs), length-append (a ++ c ∷ []) (y ∷ zs), one))
          (omega arith)))
  where
    one : length a + 1 ≡ length (a ++ c ∷ [])
    one = omega (arith, length-append a (c ∷ []))

receive_fifth :
    (f : Frame) (s : List ℕ) (c : ℕ) (cs rest : List ℕ)
    → f.size ≡ suc (length cs)
    → length s ≡ suc (length cs)
    → receive_data (in_payload f s 0) (c ∷ cs ++ rest)
      ≡ complete (finish (in_payload f (c ∷ cs) f.size)) rest
receive_fifth f [] c cs rest e h = absurd (omega arith)
receive_fifth f (z ∷ zs) c cs rest e h =
    receive_payload f [] zs z c cs rest (omega (arith, e, h)) (omega arith)

length-take : (n : ℕ) (s : List ℕ) → length (take n s) + (n - length s) ≡ n
length-take zero s = omega arith
length-take (suc n) [] = omega arith
length-take (suc n) (x ∷ s) = omega (arith, length-take n s)

length-resize : (n : ℕ) (s : List ℕ) → length (take n s ++ replicate (n - length s) 0) ≡ n
length-resize n s = omega (
  arith,
  length-append (take n s) (replicate (n - length s) 0),
  length-replicate {A = ℕ} (n - length s) 0,
  length-take n s,
)

-- The frame with its payload complete and still masked.
abbrev pub with_payload : Frame → List ℕ → Frame
with_payload f p = in_payload f p f.size

-- A payload of the announced length is read to its end, and nothing behind it.
pub receive_fourth :
    (f : Frame) (c : ℕ) (cs rest : List ℕ)
    → f.reading_state ≡ 4
    → f.size ≡ suc (length cs)
    → receive_data f (c ∷ cs ++ rest) ≡ complete (finish (with_payload f (c ∷ cs))) rest
receive_fourth f c cs rest e h =
    skip_resize f c (cs ++ rest) e
    ∙ receive_fifth f (take f.size f.payload ++ replicate (f.size - length f.payload) 0) c cs rest h
        (length-resize f.size f.payload ∙ h)

turn-empty : (f : Frame) (b : ℕ) → f.reading_state ≡ 4 → f.size ≡ 0 → use_byte 4 f b ≡ fails
unfolding use_byte turn
turn-empty f b e h = ground (arith, length-resize f.size f.payload)

pub receive_empty :
    (f : Frame) (b : ℕ) (bs : List ℕ)
    → f.reading_state ≡ 4
    → f.size ≡ 0
    → receive_data f (b ∷ bs) ≡ failed
unfolding from_turn
receive_empty f b bs e h = rw (receive_data-cons f b bs, turn-empty f b e h) refl
