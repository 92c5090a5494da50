-- ===== src/WebSocket/Frame/Input/Frames.antt =====
-- onInput on a piece that holds one frame, and on one that holds two of the same length.
use cppapiframework.Common.{
  ℕ, zero, suc, ◌+◌, ◌-◌, ◌<◌, ◌≤◌, ◌≡◌, ◌≢◌, refl, ◌∙◌, ap, false, List, [], ◌∷◌, ◌++◌, arith, ltb,
  Option, if◌then◌else◌, length, drop, drop-append, length-append, lt→ltb,
}
use cppapiframework.WebSocket.Frame.{Frame, Received, partial, complete, failed, receive_data}
use cppapiframework.WebSocket.Frame.Whole.Protocol.{Mask, MaskIsBytes, IsBytes, IsRead, encode}
use cppapiframework.WebSocket.Frame.Whole.Encoded.{receive_data-encode}
use cppapiframework.WebSocket.Frame.Input.{
  Handler, Input, returned, running, deliver, input_loop, on_input,
}

-- The frame that a successful read gives.
read_frame :
    (flags : ℕ) (p rest : List ℕ) (r : Received)
    → IsRead flags p rest r
    → (g : Frame) × (r ≡ complete g rest)
      × (g.flags ≡ flags)
      × (g.payload ≡ p)
      × (g.reading_state ≡ 0)
      × (8 ≤ length g.buffer_tmp)
read_frame flags p rest (partial f) h = absurd h
read_frame flags p rest (complete g left) h = (g, ap (complete g) h.0, h.1, h.2, h.3, h.4)
read_frame flags p rest failed h = absurd h

-- A handler between two frames.
pub record IsReady (h : Handler) : Type 0 where
  pub between : h.frame_inst.reading_state ≡ 0
  pub room : 8 ≤ length h.frame_inst.buffer_tmp

deliver-IsReady :
    (h : Handler) (g : Frame)
    → g.reading_state ≡ 0
    → 8 ≤ length g.buffer_tmp
    → IsReady (deliver h g)
deliver-IsReady h g s t = record { between = s; room = t }

minus_zero : (n : ℕ) → n - 0 ≡ n
minus_zero n = omega arith

same : (n : ℕ) → ltb (n - 0) n ≡ false
same n = ground arith

-- A turn whose frame is complete and ends the piece.
turn_to_end :
    (turns : ℕ) (buffer : List ℕ) (offset : ℕ) (h : Handler) (g : Frame)
    → receive_data h.frame_inst (drop offset buffer) ≡ complete g []
    → input_loop (suc turns) buffer offset h ≡ (
        if ltb (length buffer - offset) (length buffer)
        then input_loop turns buffer (length buffer - offset) (deliver h g)
        else returned (deliver h g))
unfolding input_loop
turn_to_end turns buffer offset h g e = rw (input_loop, e, minus_zero (length buffer - offset)) refl

-- onInput returned, with one message more, which has these flags and this payload.
abbrev pub Delivered : Handler → ℕ → List ℕ → Input → Type 0
Delivered h flags p (returned after) =
    (f : Frame) × (after.messages ≡ h.messages ++ f ∷ [])
    × (f.flags ≡ flags)
    × (f.payload ≡ p)
    × IsReady after
Delivered h flags p _ = ⊥

-- A piece that holds exactly one frame with a payload that is not empty: onInput passes on that
-- frame, unmasked, and nothing else, returns, and is ready for the next piece.
pub on_input-encode :
    (turns : ℕ) (h : Handler) (flags : ℕ) (m : Option Mask) (p : List ℕ)
    → IsReady h
    → MaskIsBytes m
    → IsBytes p
    → p ≢ []
    → Delivered h flags p (on_input (suc turns) (encode flags m p ++ []) h)
unfolding on_input
on_input-encode turns h flags m p r mb b ne =
    let (g, e, fl, pl, st, tmp) =
      read_frame flags p [] _
        (receive_data-encode h.frame_inst flags m p [] r.between r.room mb b ne) in
    rw (turn_to_end turns (encode flags m p ++ []) 0 h g e, same (length (encode flags m p ++ [])))
      (g, refl, fl, pl, deliver-IsReady h g st tmp)

-- The loop is not over, and has passed on so many messages.
abbrev pub StillRuns : ℕ → Input → Type 0
StillRuns n (running after) = length after.messages ≡ n
StillRuns n _ = ⊥

one_more :
    (h : Handler) (g : Frame) (turns : ℕ)
    → length h.messages + suc turns ≡ length (h.messages ++ g ∷ []) + turns
one_more h g turns = omega (arith, length-append h.messages (g ∷ []))

again-StillRuns :
    (turns : ℕ) (buffer : List ℕ) (offset : ℕ) (h : Handler) (flags : ℕ) (m : Option Mask)
    (p : List ℕ)
    → drop offset buffer ≡ encode flags m p ++ []
    → length buffer ≡ offset + offset
    → offset ≢ 0
    → IsReady h
    → MaskIsBytes m
    → IsBytes p
    → p ≢ []
    → StillRuns (length h.messages + turns) (input_loop turns buffer offset h)
unfolding input_loop
again-StillRuns zero buffer offset h flags m p d l z r mb b ne = omega arith
again-StillRuns (suc turns) buffer offset h flags m p d l z r mb b ne =
    let (g, e, fl, pl, st, tmp) =
      read_frame flags p [] _
        (receive_data-encode h.frame_inst flags m p [] r.between r.room mb b ne) in
    rw
      (
        turn_to_end turns buffer offset h g (ap (receive_data h.frame_inst) d ∙ e),
        back,
        lt→ltb offset (length buffer) (omega arith),
        one_more h g turns,
      )
      (again-StillRuns turns buffer offset (deliver h g) flags m p d l z
        (deliver-IsReady h g st tmp) mb b ne)
  where
    back : length buffer - offset ≡ offset
    back = omega arith

turn_to_next :
    (turns : ℕ) (xs ys : List ℕ) (h : Handler) (g : Frame)
    → receive_data h.frame_inst (xs ++ ys) ≡ complete g ys
    → length ys ≢ 0
    → input_loop (suc turns) (xs ++ ys) 0 h ≡ input_loop turns (xs ++ ys) (length xs) (deliver h g)
unfolding input_loop
turn_to_next turns xs ys h g e n =
    rw (input_loop, e, before, lt→ltb (length xs) (length (xs ++ ys)) inside) refl
  where
    before : length (xs ++ ys) - 0 - length ys ≡ length xs
    before = omega (arith, length-append xs ys)

    inside : length xs < length (xs ++ ys)
    inside = omega (arith, length-append xs ys)

no_turns :
    (buffer : List ℕ) (h : Handler) → StillRuns (length h.messages + 0) (input_loop 0 buffer 0 h)
unfolding input_loop
no_turns buffer h = omega arith

encode-length : (flags : ℕ) (m : Option Mask) (p : List ℕ) → length (encode flags m p) ≢ 0
unfolding encode
encode-length flags m p = omega arith

loop-StillRuns :
    (turns : ℕ) (h : Handler) (flags flags' : ℕ) (m m' : Option Mask) (p p' : List ℕ)
    → length (encode flags m p) ≡ length (encode flags' m' p')
    → IsReady h
    → MaskIsBytes m
    → IsBytes p
    → p ≢ []
    → MaskIsBytes m'
    → IsBytes p'
    → p' ≢ []
    → StillRuns
        (length h.messages + turns)
        (input_loop turns (encode flags m p ++ (encode flags' m' p' ++ [])) 0 h)
loop-StillRuns zero h flags flags' m m' p p' l r mb b ne mb' b' ne' = no_turns _ h
loop-StillRuns (suc turns) h flags flags' m m' p p' l r mb b ne mb' b' ne' =
    let (g, e, fl, pl, st, tmp) =
      read_frame flags p next _
        (receive_data-encode h.frame_inst flags m p next r.between r.room mb b ne) in
    rw (turn_to_next turns (encode flags m p) next h g e next_length, one_more h g turns)
      (again-StillRuns turns (encode flags m p ++ next) (length (encode flags m p)) (deliver h g)
        flags' m' p' (drop-append (encode flags m p) next)
        (omega
          (arith, length-append (encode flags m p) next, length-append (encode flags' m' p') [], l))
        (encode-length flags m p) (deliver-IsReady h g st tmp) mb' b' ne')
  where
    next : List ℕ
    next = encode flags' m' p' ++ []

    next_length : length next ≢ 0
    next_length = omega (arith, length-append (encode flags' m' p') [], encode-length flags' m' p')

-- Two frames of the same encoded length in one piece, each with a payload that is not empty, on a
-- handler between two frames: whatever number of turns of the loop is looked at, onInput has not
-- returned, and every turn has passed one more message on.
pub on_input-StillRuns :
    (turns : ℕ) (h : Handler) (flags flags' : ℕ) (m m' : Option Mask) (p p' : List ℕ)
    → length (encode flags m p) ≡ length (encode flags' m' p')
    → IsReady h
    → MaskIsBytes m
    → IsBytes p
    → p ≢ []
    → MaskIsBytes m'
    → IsBytes p'
    → p' ≢ []
    → StillRuns
        (length h.messages + turns)
        (on_input turns (encode flags m p ++ (encode flags' m' p' ++ [])) h)
unfolding on_input
on_input-StillRuns = loop-StillRuns
