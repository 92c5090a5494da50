-- ===== src/WebSocket/Frame.antt =====
-- src/WebSocket/WebSocketHandler.hpp, src/WebSocket/WebSocketHandler.cpp: the frame that is read
-- from the pieces a connection delivers, and the handler that passes the frames on. The bytes of
-- a piece, of the mask and of the payload are numbers below 256.
pub mod Pieces
pub mod Whole
pub mod Input
use cppapiframework.Common.{
  ℕ, zero, suc, ◌+◌, ◌*◌, ◌%◌, ◌^◌, ◌-◌, Bool, true, false, ◌||◌, ◌&&◌, not, List, [], ◌∷◌, ◌++◌,
  ◌==◌, leb, ltb, if◌then◌else◌, length, set, get_or, take, drop, replicate,
}
use cppapiframework.Common.Xor.{xor_byte}

pub record Frame : Type 0 where
  pub flags : ℕ
  pub len_byte : ℕ
  pub size : ℕ
  pub mask : List ℕ
  pub reading_state : ℕ
  pub payload : List ℕ
  pub buffer_pos : ℕ
  pub buffer_tmp : List ℕ
  pub use_mask : Bool

-- The members' initializers.
abbrev pub new_frame : Frame
new_frame = record {
  flags = 0;
  len_byte = 0;
  size = 0;
  mask = replicate 4 0;
  reading_state = 0;
  payload = [];
  buffer_pos = 0;
  buffer_tmp = replicate 16 0;
  use_mask = false;
}

-- be64toh and be16toh of the first bytes of bufferTmp, on a little-endian machine.
unfoldable pub big_endian : ℕ → List ℕ → ℕ → ℕ
big_endian zero bs acc = acc
big_endian (suc n) [] acc = acc
big_endian (suc n) (b ∷ bs) acc = big_endian n bs (acc * 256 + b)

-- One turn of the loop: it uses the byte at the offset or leaves it, `last` sets `done`, and an
-- assertion that fails stops the program.
pub data Turn : Type 0 where
  uses leaves last : Frame → Turn
  fails : Turn

-- std::string::resize, which fills with zeros.
abbrev resize : ℕ → List ℕ → List ℕ
resize n s = take n s ++ replicate (n - length s) 0

abbrev store_tmp : Frame → ℕ → Frame
store_tmp f b = record f {
  buffer_tmp = set f.buffer_tmp f.buffer_pos b;
  buffer_pos = f.buffer_pos + 1;
}

-- Case 2 behind the store.
abbrev length_read : Frame → Frame
length_read f =
    if f.buffer_pos == 8 && f.size == 127
    then record f {
      size = big_endian 8 f.buffer_tmp 0;
      reading_state = f.reading_state + 1;
      buffer_pos = 0;
    }
    else if f.buffer_pos == 2 && f.size == 126
    then record f {
      size = big_endian 2 f.buffer_tmp 0;
      reading_state = f.reading_state + 1;
      buffer_pos = 0;
    }
    else f

-- Case 3 behind the store.
abbrev mask_read : Frame → Frame
mask_read f =
    if f.buffer_pos == 4
    then record f {
      mask = take 4 f.buffer_tmp;
      reading_state = f.reading_state + 1;
      buffer_pos = 0;
    }
    else f

abbrev payload_byte : Frame → ℕ → Frame
payload_byte f b = record f {
  payload = set f.payload f.buffer_pos b;
  buffer_pos = f.buffer_pos + 1;
}

-- The body of the loop, on the byte at the offset.
unfoldable pub turn : Frame → ℕ → Turn
unfolding big_endian
turn f b =
    if f.reading_state == 0
    then uses (record f { flags = b; reading_state = 1 })
    else if f.reading_state == 1
    then uses (record f {
      len_byte = b;
      use_mask = leb 128 b;
      size = b % 128;
      reading_state = 2;
      buffer_pos = 0;
    })
    else if f.reading_state == 2
    then (if f.size == 126 || f.size == 127
        then uses (length_read (store_tmp f b))
        else leaves (record f { reading_state = 3; buffer_pos = 0 }))
    else if f.reading_state == 3
    then (if f.use_mask
        then uses (mask_read (store_tmp f b))
        else leaves (record f { reading_state = 4 }))
    else if f.reading_state == 4
    then leaves (record f { payload = resize f.size f.payload; reading_state = 5; buffer_pos = 0 })
    else if f.size == length f.payload && ltb f.buffer_pos (length f.payload)
    then (if f.buffer_pos + 1 == f.size then last (payload_byte f b) else uses (payload_byte f b))
    else fails

-- payload[i] ^= mask[i % 4], from the index i on
unfoldable pub unmask : List ℕ → ℕ → List ℕ → List ℕ
unmask mask i [] = []
unmask mask i (c ∷ cs) = xor_byte c (get_or mask (i % 4) 0) ∷ unmask mask (i + 1) cs

-- Behind the loop.
unfoldable pub finish : Frame → Frame
unfolding unmask
finish f =
    let g = record f { reading_state = 0; buffer_pos = 0 } in
    if f.use_mask then record g { payload = unmask f.mask 0 f.payload } else g

-- How receiveData ends: the whole piece is used and the frame is not done; the frame is done and
-- the bytes behind it are left; or an assertion failed.
pub data Received : Type 0 where
  partial : Frame → Received
  complete : Frame → List ℕ → Received
  failed : Received

-- The turns up to the one that uses the byte. No more than three in a row leave it.
unfoldable pub use_byte : ℕ → Frame → ℕ → Turn
unfolding turn
use_byte zero f b = leaves f
use_byte (suc n) f b = elim (turn f b) [
  | uses g ↦ uses g
  | last g ↦ last g
  | fails ↦ fails
  | leaves g ↦ use_byte n g b
]

unfoldable pub receive_data : Frame → List ℕ → Received
unfolding use_byte finish
receive_data f [] = partial f
receive_data f (b ∷ bs) = elim (use_byte 4 f b) [
  | uses g ↦ receive_data g bs
  | last g ↦ complete (finish g) bs
  | fails ↦ failed
  | leaves g ↦ failed
]
