-- ===== src/WebSocket/Frame/Whole/Headers.antt =====
-- What receiveData makes of the bytes in front of a payload.
use cppapiframework.Common.{
  ℕ, ◌+◌, ◌/◌, ◌%◌, ◌<◌, ◌≡◌, refl, ap, ◌∙◌, Bool, true, false, Option, none, some, List, [], ◌∷◌,
  ◌++◌, arith, leb,
}
use cppapiframework.WebSocket.Frame.{Frame, turn, use_byte, receive_data, big_endian}
use cppapiframework.WebSocket.Frame.Whole.Protocol.{Mask, mask_bytes, top_bit, eight_bytes, masked}
use cppapiframework.WebSocket.Frame.Whole.{skip_size}

abbrev pub is_masked : Option Mask → Bool
is_masked none = false
is_masked (some m) = true

-- The frame behind the length, whose bytes stand in bufferTmp.
abbrev pub sized : Frame → ℕ → ℕ → Option Mask → ℕ → List ℕ → Frame
sized f flags lb m n t = record f {
  flags = flags;
  len_byte = lb;
  use_mask = is_masked m;
  size = n;
  reading_state = 3;
  buffer_pos = 0;
  buffer_tmp = t;
}

-- The frame before its first byte.
abbrev pub fresh : Frame → List ℕ → Frame
fresh f t = record f { reading_state = 0; buffer_tmp = t }

-- The frame behind its first two bytes.
abbrev pub second : Frame → ℕ → ℕ → Bool → ℕ → List ℕ → Frame
second f flags lb masked n t = record f {
  flags = flags;
  len_byte = lb;
  use_mask = masked;
  size = n;
  reading_state = 2;
  buffer_pos = 0;
  buffer_tmp = t;
}

pub receive_two :
    (f : Frame) (t : List ℕ) (flags lb : ℕ) (xs : List ℕ)
    → receive_data (fresh f t) (flags ∷ lb ∷ xs)
      ≡ receive_data (second f flags lb (leb 128 lb) (lb % 128) t) xs
unfolding receive_data use_byte turn
receive_two f t flags lb xs = refl

pub top_size : (m : Option Mask) (n : ℕ) → n < 128 → (top_bit m + n) % 128 ≡ n
top_size none n h = omega arith
top_size (some m) n h = omega arith

pub top_masked : (m : Option Mask) (n : ℕ) → n < 128 → leb 128 (top_bit m + n) ≡ is_masked m
top_masked none n h = ground arith
top_masked (some m) n h = ground arith

pub receive_short :
    (f : Frame) (t : List ℕ) (flags : ℕ) (m : Option Mask) (n b : ℕ) (bs : List ℕ)
    → n < 126
    → receive_data (fresh f t) (flags ∷ (top_bit m + n) ∷ b ∷ bs)
      ≡ receive_data (sized f flags (top_bit m + n) m n t) (b ∷ bs)
receive_short f t flags m n b bs h =
    receive_two f t flags (top_bit m + n) (b ∷ bs)
    ∙ ap (λ k. receive_data (second f flags (top_bit m + n) (leb 128 (top_bit m + n)) k t) (b ∷ bs))
        (top_size m n (omega arith))
    ∙ ap (λ k. receive_data (second f flags (top_bit m + n) k n t) (b ∷ bs))
        (top_masked m n (omega arith))
    ∙ skip_size (second f flags (top_bit m + n) (is_masked m) n t) b bs refl h

pub receive_medium :
    (f : Frame) (t0 t1 : ℕ) (t : List ℕ) (flags : ℕ) (m : Option Mask) (hi lo : ℕ) (bs : List ℕ)
    → receive_data (fresh f (t0 ∷ t1 ∷ t)) (flags ∷ (top_bit m + 126) ∷ hi ∷ lo ∷ bs)
      ≡ receive_data
          (sized f flags (top_bit m + 126) m (big_endian 2 (hi ∷ lo ∷ []) 0) (hi ∷ lo ∷ t))
          bs
unfolding receive_data use_byte turn big_endian
receive_medium f t0 t1 t flags none hi lo bs = refl
receive_medium f t0 t1 t flags (some m) hi lo bs = refl

pub receive_long :
    (f : Frame) (t0 t1 t2 t3 t4 t5 t6 t7 : ℕ) (t : List ℕ) (flags : ℕ) (m : Option Mask)
    (b0 b1 b2 b3 b4 b5 b6 b7 : ℕ) (bs : List ℕ)
    → receive_data
        (fresh f (t0 ∷ t1 ∷ t2 ∷ t3 ∷ t4 ∷ t5 ∷ t6 ∷ t7 ∷ t))
        (flags ∷ (top_bit m + 127) ∷ b0 ∷ b1 ∷ b2 ∷ b3 ∷ b4 ∷ b5 ∷ b6 ∷ b7 ∷ bs)
      ≡ receive_data
          (sized f flags
            (top_bit m + 127)
            m
            (big_endian 8 (b0 ∷ b1 ∷ b2 ∷ b3 ∷ b4 ∷ b5 ∷ b6 ∷ b7 ∷ t) 0)
            (b0 ∷ b1 ∷ b2 ∷ b3 ∷ b4 ∷ b5 ∷ b6 ∷ b7 ∷ t))
          bs
unfolding receive_data use_byte turn big_endian
receive_long f t0 t1 t2 t3 t4 t5 t6 t7 t flags none b0 b1 b2 b3 b4 b5 b6 b7 bs = refl
receive_long f t0 t1 t2 t3 t4 t5 t6 t7 t flags (some m) b0 b1 b2 b3 b4 b5 b6 b7 bs = refl

pub eight_bytes-value : (n : ℕ) (t : List ℕ) → big_endian 8 (eight_bytes n ++ t) 0 ≡ n
unfolding big_endian
eight_bytes-value n t = omega arith

pub two_bytes-value : (n : ℕ) → big_endian 2 (n / 256 ∷ n % 256 ∷ []) 0 ≡ n
unfolding big_endian
two_bytes-value n = omega arith

-- The frame behind the mask.
pub receive_mask :
    (f : Frame) (flags lb : ℕ) (m : Mask) (n t0 t1 t2 t3 : ℕ) (t bs : List ℕ)
    → receive_data (sized f flags lb (some m) n (t0 ∷ t1 ∷ t2 ∷ t3 ∷ t)) (mask_bytes m ++ bs)
      ≡ receive_data
          (record (sized f flags lb (some m) n (mask_bytes m ++ t)) {
            mask = mask_bytes m;
            reading_state = 4;
            buffer_pos = 0;
          })
          bs
unfolding receive_data use_byte turn
receive_mask f flags lb m n t0 t1 t2 t3 t bs = refl
