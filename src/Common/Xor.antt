-- ===== src/Common/Xor.antt =====
-- The exclusive or of two bytes.
use Prim.Native.Nat.{bit_xor}
use cppapiframework.Common.{ℕ, zero, suc, ◌<◌, ◌≡◌, refl, arith, Bool, true, ◌&&◌, ◌==◌, ==_iff}

abbrev pub xor_byte : ℕ → ℕ → ℕ
xor_byte a b = bit_xor a b

-- Over a small range, every value is checked.
all_below : ℕ → (ℕ → Bool) → Bool
all_below zero p = true
all_below (suc n) p = p n && all_below n p

all_below-lookup : (n : ℕ) (p : ℕ → Bool) (x : ℕ) → all_below n p ≡ true → x < n → p x ≡ true
unfolding all_below
all_below-lookup zero p x h lt = absurd (omega arith)
all_below-lookup (suc n) p x h lt = ground (arith, all_below-lookup n p x)

xor_table : all_below 256 (λ x. all_below 256 (λ y. bit_xor (bit_xor x y) y == x)) ≡ true
unfolding all_below
xor_table = refl

pub xor_byte-twice : (x y : ℕ) → x < 256 → y < 256 → xor_byte (xor_byte x y) y ≡ x
xor_byte-twice x y h k = (==_iff _ x).0 (
    all_below-lookup 256 (λ y. bit_xor (bit_xor x y) y == x) y
      (all_below-lookup 256 (λ x. all_below 256 (λ y. bit_xor (bit_xor x y) y == x)) x xor_table h)
      k)
