-- ===== src/WebSocket/Frame/Input.antt =====
-- src/WebSocket/WebSocketHandler.cpp: onInput, which passes the frames of a piece on.
pub mod Frames
use cppapiframework.Common.{
  ℕ, zero, suc, ◌+◌, ◌-◌, ◌≡◌, ◌≢◌, refl, ◌∙◌, ap, Bool, true, false, Option, none, some, List, [],
  ◌∷◌, ◌++◌, arith, ltb, if◌then◌else◌, length, drop, drop-append, length-append,
}
use cppapiframework.WebSocket.Frame.{Frame, Received, partial, complete, failed, receive_data}

-- The handler's frame, and the frames given to onMessage so far.
pub record Handler : Type 0 where
  pub frame_inst : Frame
  pub messages : List Frame

-- How onInput ends: it returns, an assertion fails, or it still runs when the turns of its loop
-- that are looked at are over.
pub data Input : Type 0 where
  returned stopped running : Handler → Input

-- Behind a complete frame: onMessage, then two of the frame's members are cleared.
abbrev pub deliver : Handler → Frame → Handler
deliver h f = record {
  frame_inst = record f { flags = 0; len_byte = 0 };
  messages = h.messages ++ f ∷ [];
}

-- At most `turns` turns of the loop, from an offset on. The offset behind a frame is the one that
-- receiveData counts from where the frame began.
unfoldable pub input_loop : ℕ → List ℕ → ℕ → Handler → Input
input_loop zero buffer offset h = running h
input_loop (suc turns) buffer offset h = elim (receive_data h.frame_inst (drop offset buffer)) [
  | failed ↦ stopped h
  | partial f ↦ returned (record h { frame_inst = f })
  | complete f rest ↦
      let in_buffer_offset = length buffer - offset - length rest in
      let more = input_loop turns buffer in_buffer_offset (deliver h f) in
      if ltb in_buffer_offset (length buffer) then more else returned (deliver h f)
]

unfoldable pub on_input : ℕ → List ℕ → Handler → Input
unfolding input_loop
on_input turns buffer h = input_loop turns buffer 0 h
