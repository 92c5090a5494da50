-- ===== src/WebSocket/Frame/Whole/Protocol.antt =====
-- A frame as the protocol writes it, and what it means that it is read.
use cppapiframework.Common.{
  ℕ, zero, suc, ◌+◌, ◌/◌, ◌%◌, ◌<◌, ◌≤◌, ◌≡◌, refl, sym, ap, ◌∙◌, Option, none, some, List, [], ◌∷◌,
  ◌++◌, arith, ltb, if◌then◌else◌, length, get_or,
}
use cppapiframework.Common.Xor.{xor_byte, xor_byte-twice}
use cppapiframework.WebSocket.Frame.{Received, complete, unmask}

-- The four bytes of a mask.
pub record Mask : Type 0 where
  pub m0 : ℕ
  pub m1 : ℕ
  pub m2 : ℕ
  pub m3 : ℕ

abbrev pub mask_bytes : Mask → List ℕ
mask_bytes m = m.m0 ∷ m.m1 ∷ m.m2 ∷ m.m3 ∷ []

abbrev pub top_bit : Option Mask → ℕ
top_bit none = 0
top_bit (some m) = 128

-- The length of a payload: seven bits, or 126 and two bytes, or 127 and eight bytes, the highest
-- byte first.
abbrev pub eight_bytes : ℕ → List ℕ
eight_bytes n =
    (n / 256 / 256 / 256 / 256 / 256 / 256 / 256)
    ∷ (n / 256 / 256 / 256 / 256 / 256 / 256 % 256)
    ∷ (n / 256 / 256 / 256 / 256 / 256 % 256)
    ∷ (n / 256 / 256 / 256 / 256 % 256)
    ∷ (n / 256 / 256 / 256 % 256)
    ∷ (n / 256 / 256 % 256)
    ∷ (n / 256 % 256)
    ∷ (n % 256)
    ∷ []

abbrev pub length_bytes : ℕ → ℕ → List ℕ
length_bytes top n =
    if ltb n 126
    then (top + n) ∷ []
    else if ltb n 65536
    then (top + 126) ∷ n / 256 ∷ n % 256 ∷ []
    else (top + 127) ∷ eight_bytes n

-- The mask with its first byte used.
abbrev pub next_mask : Mask → Mask
next_mask m = record { m0 = m.m1; m1 = m.m2; m2 = m.m3; m3 = m.m0 }

-- The payload with the mask's bytes set on it, one after the other and round again.
abbrev pub masked : Mask → List ℕ → List ℕ
masked m [] = []
masked m (c ∷ cs) = xor_byte c m.m0 ∷ masked (next_mask m) cs

abbrev pub masked_part : Option Mask → List ℕ → List ℕ
masked_part none p = p
masked_part (some m) p = mask_bytes m ++ masked m p

unfoldable pub encode : ℕ → Option Mask → List ℕ → List ℕ
encode flags m p = flags ∷ length_bytes (top_bit m) (length p) ++ masked_part m p

abbrev pub IsBytes : List ℕ → Type 0
IsBytes [] = Unit {0}
IsBytes (b ∷ bs) = (b < 256) × IsBytes bs

mask_byte-lt : (m : Mask) (i : ℕ) → IsBytes (mask_bytes m) → get_or (mask_bytes m) i 0 < 256
mask_byte-lt m zero h = h.0
mask_byte-lt m (suc zero) h = h.1.0
mask_byte-lt m (suc (suc zero)) h = h.1.1.0
mask_byte-lt m (suc (suc (suc zero))) h = h.1.1.1.0
mask_byte-lt m (suc (suc (suc (suc i)))) h = omega arith

pub length-masked : (m : Mask) (p : List ℕ) → length (masked m p) ≡ length p
length-masked m [] = refl
length-masked m (c ∷ cs) = ap suc (length-masked (next_mask m) cs)

abbrev turned : ℕ → Mask → Mask
turned zero m = m
turned (suc i) m = next_mask (turned i m)

mask_byte-turned : (m : Mask) (i : ℕ) → get_or (mask_bytes m) (i % 4) 0 ≡ (turned i m).m0
mask_byte-turned m zero = refl
mask_byte-turned m (suc zero) = refl
mask_byte-turned m (suc (suc zero)) = refl
mask_byte-turned m (suc (suc (suc zero))) = refl
mask_byte-turned m (suc (suc (suc (suc i)))) =
    ap (λ k. get_or (mask_bytes m) k 0) (round i) ∙ mask_byte-turned m i
  where
    round : (i : ℕ) → suc (suc (suc (suc i))) % 4 ≡ i % 4
    round i = omega arith

-- Unmasking from the index i on takes off what the mask, turned i times, has set.
pub unmask-masked :
    (m : Mask) (i : ℕ) (p : List ℕ)
    → IsBytes (mask_bytes m)
    → IsBytes p
    → unmask (mask_bytes m) i (masked (turned i m) p) ≡ p
unfolding unmask
unmask-masked m i [] h k = refl
unmask-masked m i (c ∷ cs) h k =
    rw (mask_byte-turned m i, xor_byte-twice c (turned i m).m0 k.0 (small i), after i)
      (ap (◌∷◌ c) (unmask-masked m (suc i) cs h k.1))
  where
    after : (n : ℕ) → n + 1 ≡ suc n
    after n = omega arith

    small : (n : ℕ) → (turned n m).m0 < 256
    small n = rw (sym (mask_byte-turned m n)) (mask_byte-lt m (n % 4) h)

-- The frame is complete with these flags and this payload, exactly the bytes behind it are left,
-- and the next frame can be read.
abbrev pub IsRead : ℕ → List ℕ → List ℕ → Received → Type 0
IsRead flags p rest (complete g left) =
    (left ≡ rest)
    × (g.flags ≡ flags)
    × (g.payload ≡ p)
    × (g.reading_state ≡ 0)
    × (8 ≤ length g.buffer_tmp)
IsRead flags p rest _ = ⊥

abbrev pub MaskIsBytes : Option Mask → Type 0
MaskIsBytes none = Unit {0}
MaskIsBytes (some m) = IsBytes (mask_bytes m)
