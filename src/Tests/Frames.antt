-- ===== src/Tests/Frames.antt =====
-- src/WebSocket/WebSocketHandler.cpp on small frames.
use cppapiframework.Common.{ℕ, ◌≡◌, ◌≢◌, refl, Option, none, some, List, [], ◌∷◌, ◌++◌, arith}
use cppapiframework.WebSocket.Frame.{Frame, new_frame, partial, failed, receive_data, use_byte}
use cppapiframework.WebSocket.Frame.Pieces.{Moves, then_piece, use_byte-Moves, receive_data-append}
use cppapiframework.WebSocket.Frame.Whole.Protocol.{Mask, IsRead, encode}
use cppapiframework.WebSocket.Frame.Whole.Encoded.{receive_data-encode, receive_data-empty}
use cppapiframework.WebSocket.Frame.Input.{Handler, on_input}
use cppapiframework.WebSocket.Frame.Input.Frames.{
  IsReady, Delivered, StillRuns, on_input-encode, on_input-StillRuns,
}

abbrev mask : Option Mask
mask = some (record { m0 = 0x37; m1 = 0xFA; m2 = 0x21; m3 = 0x3D })

-- "Hello"
abbrev hello : List ℕ
hello = 0x48 ∷ 0x65 ∷ 0x6C ∷ 0x6C ∷ 0x6F ∷ []

abbrev handler : Handler
handler = record { frame_inst = new_frame; messages = [] }

handler-IsReady : IsReady handler
handler-IsReady = record { between = refl; room = omega arith }

cons_ne : (x : ℕ) (xs : List ℕ) → x ∷ xs ≢ []
cons_ne x xs e = cc

-- The masked frame of the protocol's document.
test_encode :
    encode 0x81 mask hello
    ≡ 0x81 ∷ 0x85 ∷ 0x37 ∷ 0xFA ∷ 0x21 ∷ 0x3D ∷ 0x7F ∷ 0x9F ∷ 0x4D ∷ 0x51 ∷ 0x58 ∷ []
unfolding encode
test_encode = refl

use_byte-Moves_example : Moves (use_byte 4 new_frame 0x81)
use_byte-Moves_example = use_byte-Moves new_frame 0x81

receive_data-append_example :
    receive_data new_frame ((0x81 ∷ 0x02 ∷ []) ++ 0x48 ∷ 0x69 ∷ 0x81 ∷ [])
    ≡ then_piece (receive_data new_frame (0x81 ∷ 0x02 ∷ [])) (0x48 ∷ 0x69 ∷ 0x81 ∷ [])
receive_data-append_example =
    receive_data-append new_frame (0x81 ∷ 0x02 ∷ []) (0x48 ∷ 0x69 ∷ 0x81 ∷ [])

receive_data-encode_example :
    IsRead 0x81 hello (0x82 ∷ []) (receive_data new_frame (encode 0x81 mask hello ++ 0x82 ∷ []))
receive_data-encode_example =
    receive_data-encode new_frame 0x81 mask hello (0x82 ∷ []) refl (omega arith)
      (omega arith, (omega arith, (omega arith, (omega arith, tt))))
      (omega arith, (omega arith, (omega arith, (omega arith, (omega arith, tt)))))
      (cons_ne 0x48 (0x65 ∷ 0x6C ∷ 0x6C ∷ 0x6F ∷ []))

receive_data-empty_example :
    (receive_data new_frame (0x81 ∷ 0 ∷ 0x81 ∷ []) ≡ failed)
    × (g : Frame) × (receive_data new_frame (0x81 ∷ 0 ∷ []) ≡ partial g)
receive_data-empty_example = receive_data-empty new_frame 0x81 0x81 [] refl

on_input-encode_example :
    Delivered handler 0x81 hello (on_input 1 (encode 0x81 mask hello ++ []) handler)
on_input-encode_example =
    on_input-encode 0 handler 0x81 mask hello handler-IsReady
      (omega arith, (omega arith, (omega arith, (omega arith, tt))))
      (omega arith, (omega arith, (omega arith, (omega arith, (omega arith, tt)))))
      (cons_ne 0x48 (0x65 ∷ 0x6C ∷ 0x6C ∷ 0x6F ∷ []))

on_input-StillRuns_example :
    StillRuns 100
      (on_input 100 (encode 0x81 none (1 ∷ []) ++ (encode 0x82 none (2 ∷ []) ++ [])) handler)
unfolding encode
on_input-StillRuns_example =
    on_input-StillRuns 100 handler 0x81 0x82 none none (1 ∷ []) (2 ∷ []) refl handler-IsReady tt
      (omega arith, tt) (cons_ne 1 []) tt (omega arith, tt) (cons_ne 2 [])
