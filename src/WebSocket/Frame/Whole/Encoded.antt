-- ===== src/WebSocket/Frame/Whole/Encoded.antt =====
-- A frame written by the protocol's rules, and what receiveData makes of it.
use cppapiframework.Common.{
  ℕ, suc, ◌+◌, ◌/◌, ◌%◌, ◌<◌, ◌≤◌, ◌≡◌, ◌≢◌, refl, sym, ap, ◌∙◌, inl, inr, false, Option, none,
  some, List, [], ◌∷◌, ◌++◌, arith, ltb, length, Bool-cases,
}
use cppapiframework.WebSocket.Frame.{Frame, partial, failed, receive_data, finish, unmask}
use cppapiframework.WebSocket.Frame.Whole.Protocol.{
  Mask, mask_bytes, top_bit, eight_bytes, next_mask, masked, masked_part, encode, MaskIsBytes,
  IsBytes, IsRead, length-masked, unmask-masked,
}
use cppapiframework.WebSocket.Frame.Whole.{fourth, skip_mask, receive_fourth, receive_empty}
use cppapiframework.WebSocket.Frame.Whole.Headers.{
  sized, fresh, second, receive_two, receive_short, receive_medium, receive_long, eight_bytes-value,
  two_bytes-value, receive_mask,
}

rest-IsRead :
    (f : Frame) (flags lb : ℕ) (m : Option Mask) (t0 t1 t2 t3 : ℕ) (t : List ℕ) (c : ℕ)
    (cs rest : List ℕ)
    → MaskIsBytes m
    → IsBytes (c ∷ cs)
    → 4 ≤ length t
    → IsRead flags (c ∷ cs) rest (
        receive_data
          (sized f flags lb m (suc (length cs)) (t0 ∷ t1 ∷ t2 ∷ t3 ∷ t))
          (masked_part m (c ∷ cs) ++ rest))
unfolding finish unmask
rest-IsRead f flags lb none t0 t1 t2 t3 t c cs rest h k l =
    rw
      (skip_mask (sized f flags lb none (suc (length cs)) (t0 ∷ t1 ∷ t2 ∷ t3 ∷ t)) c (cs ++ rest)
          refl refl
        ∙ receive_fourth (fourth (sized f flags lb none (suc (length cs)) (t0 ∷ t1 ∷ t2 ∷ t3 ∷ t)))
            c cs rest refl refl)
      (refl, refl, refl, refl, omega arith)
rest-IsRead f flags lb (some m) t0 t1 t2 t3 t c cs rest h k l =
    rw
      (receive_mask f flags lb m (suc (length cs)) t0 t1 t2 t3 t (masked m (c ∷ cs) ++ rest)
        ∙ receive_fourth
            (record (sized f flags lb (some m) (suc (length cs)) (mask_bytes m ++ t)) {
              mask = mask_bytes m;
              reading_state = 4;
              buffer_pos = 0;
            })
            _ (masked (next_mask m) cs) rest refl (ap suc (sym (length-masked (next_mask m) cs))))
      (refl, refl, unmask-masked m 0 (c ∷ cs) h k, refl, omega arith)

module _ (f : Frame) (flags : ℕ) (t0 t1 t2 t3 t4 t5 t6 t7 : ℕ) (t : List ℕ) (c : ℕ)
    (cs rest : List ℕ) where
  abbrev tmp : List ℕ
  tmp = t0 ∷ t1 ∷ t2 ∷ t3 ∷ t4 ∷ t5 ∷ t6 ∷ t7 ∷ t

  abbrev size : ℕ
  size = suc (length cs)

  short-IsRead :
      (m : Option Mask)
      → MaskIsBytes m
      → IsBytes (c ∷ cs)
      → size < 126
      → IsRead flags
          (c ∷ cs)
          rest
          (receive_data (fresh f tmp) (flags ∷ (top_bit m + size) ∷ masked_part m (c ∷ cs) ++ rest))
  short-IsRead none h k l =
      rw (receive_short f tmp flags none size c (cs ++ rest) l)
        (rest-IsRead f flags _ none t0 t1 t2 t3 _ c cs rest h k (omega arith))
  short-IsRead (some m) h k l =
      rw (receive_short f tmp flags (some m) size m.m0 _ l)
        (rest-IsRead f flags _ (some m) t0 t1 t2 t3 _ c cs rest h k (omega arith))

  medium-IsRead :
      (m : Option Mask)
      → MaskIsBytes m
      → IsBytes (c ∷ cs)
      → IsRead flags (c ∷ cs) rest (
          receive_data
            (fresh f tmp)
            (flags ∷ (top_bit m + 126) ∷ size / 256 ∷ size % 256 ∷ masked_part m (c ∷ cs) ++ rest))
  medium-IsRead m h k =
      rw (receive_medium f t0 t1 _ flags m (size / 256) (size % 256) _, two_bytes-value size)
        (rest-IsRead f flags _ m _ _ t2 t3 _ c cs rest h k (omega arith))

  long-IsRead :
      (m : Option Mask)
      → MaskIsBytes m
      → IsBytes (c ∷ cs)
      → IsRead flags (c ∷ cs) rest (
          receive_data
            (fresh f tmp)
            (flags ∷ (top_bit m + 127) ∷ eight_bytes size ++ masked_part m (c ∷ cs) ++ rest))
  long-IsRead m h k =
      rw
        (receive_long f t0 t1 t2 t3 t4 t5 t6 t7 t flags m _ _ _ _ _ _ _ _ _
          ∙ ap
              (λ n.
                receive_data (sized f flags (top_bit m + 127) m n (eight_bytes size ++ t))
                  (masked_part m (c ∷ cs) ++ rest))
              (eight_bytes-value size t))
        (rest-IsRead f flags _ m _ _ _ _ _ c cs rest h k (omega arith))

  encode-IsRead :
      (m : Option Mask)
      → MaskIsBytes m
      → IsBytes (c ∷ cs)
      → IsRead flags (c ∷ cs) rest (receive_data (fresh f tmp) (encode flags m (c ∷ cs) ++ rest))
  unfolding encode
  encode-IsRead m h k = elim (Bool-cases (ltb size 126)) [
    | inl a ↦ rw a (short-IsRead m h k (ground arith))
    | inr a ↦ elim (Bool-cases (ltb size 65536)) [
      | inl b ↦ rw (a, b) (medium-IsRead m h k)
      | inr b ↦ rw (a, b) (long-IsRead m h k)
    ]
  ]

tmp-IsRead :
    (f : Frame) (flags : ℕ) (m : Option Mask) (t : List ℕ) (c : ℕ) (cs rest : List ℕ)
    → 8 ≤ length t
    → MaskIsBytes m
    → IsBytes (c ∷ cs)
    → IsRead flags (c ∷ cs) rest (receive_data (fresh f t) (encode flags m (c ∷ cs) ++ rest))
tmp-IsRead f flags m ([]) c cs rest l h k = absurd (omega arith)
tmp-IsRead f flags m (t0 ∷ []) c cs rest l h k = absurd (omega arith)
tmp-IsRead f flags m (t0 ∷ t1 ∷ []) c cs rest l h k = absurd (omega arith)
tmp-IsRead f flags m (t0 ∷ t1 ∷ t2 ∷ []) c cs rest l h k = absurd (omega arith)
tmp-IsRead f flags m (t0 ∷ t1 ∷ t2 ∷ t3 ∷ []) c cs rest l h k = absurd (omega arith)
tmp-IsRead f flags m (t0 ∷ t1 ∷ t2 ∷ t3 ∷ t4 ∷ []) c cs rest l h k = absurd (omega arith)
tmp-IsRead f flags m (t0 ∷ t1 ∷ t2 ∷ t3 ∷ t4 ∷ t5 ∷ []) c cs rest l h k = absurd (omega arith)
tmp-IsRead f flags m (t0 ∷ t1 ∷ t2 ∷ t3 ∷ t4 ∷ t5 ∷ t6 ∷ []) c cs rest l h k = absurd (omega arith)
tmp-IsRead f flags m (t0 ∷ t1 ∷ t2 ∷ t3 ∷ t4 ∷ t5 ∷ t6 ∷ t7 ∷ t) c cs rest l h k =
    encode-IsRead f flags t0 t1 t2 t3 t4 t5 t6 t7 t c cs rest m h k

-- A frame with a payload that is not empty, masked or not, with its length in one, three or nine
-- bytes, is read back: receiveData started between two frames, with room in bufferTmp, completes
-- with the frame's flags and its unmasked payload, leaves exactly the bytes behind the frame, and
-- can read the next one.
pub receive_data-encode :
    (f : Frame) (flags : ℕ) (m : Option Mask) (p rest : List ℕ)
    → f.reading_state ≡ 0
    → 8 ≤ length f.buffer_tmp
    → MaskIsBytes m
    → IsBytes p
    → p ≢ []
    → IsRead flags p rest (receive_data f (encode flags m p ++ rest))
receive_data-encode f flags m [] rest e l h k ne = absurd (ne refl)
receive_data-encode f flags m (c ∷ cs) rest e l h k ne =
    rw (ap (λ s. receive_data (record f { reading_state = s }) (encode flags m (c ∷ cs) ++ rest)) e)
      (tmp-IsRead f flags m f.buffer_tmp c cs rest l h k)

tmp_empty :
    (f : Frame) (t : List ℕ) (flags b : ℕ) (bs : List ℕ)
    → receive_data (fresh f t) (flags ∷ 0 ∷ b ∷ bs) ≡ failed
tmp_empty f t flags b bs =
    receive_short f t flags none 0 b bs (omega arith)
    ∙ skip_mask (sized f flags 0 none 0 t) b bs refl refl
    ∙ receive_empty (fourth (sized f flags 0 none 0 t)) b bs refl refl

tmp_two :
    (f : Frame) (t : List ℕ) (flags : ℕ)
    → receive_data (fresh f t) (flags ∷ 0 ∷ []) ≡ partial (second f flags 0 false 0 t)
unfolding receive_data
tmp_two f t flags = receive_two f t flags 0 []

-- A frame without a mask and without a payload is never completed: its two bytes leave it
-- unfinished, and whatever byte comes behind them, an assertion of receiveData fails.
pub receive_data-empty :
    (f : Frame) (flags b : ℕ) (bs : List ℕ)
    → f.reading_state ≡ 0
    → (receive_data f (flags ∷ 0 ∷ b ∷ bs) ≡ failed)
      × (g : Frame) × (receive_data f (flags ∷ 0 ∷ []) ≡ partial g)
receive_data-empty f flags b bs e = (
  ap (λ s. receive_data (record f { reading_state = s }) (flags ∷ 0 ∷ b ∷ bs)) e
      ∙ tmp_empty f f.buffer_tmp flags b bs,
  second f flags 0 false 0 f.buffer_tmp,
  ap (λ s. receive_data (record f { reading_state = s }) (flags ∷ 0 ∷ [])) e
      ∙ tmp_two f f.buffer_tmp flags,
)
