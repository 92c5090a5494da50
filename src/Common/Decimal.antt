-- ===== src/Common/Decimal.antt =====
-- std::to_string of integers, and std::stoull and std::stoll in base ten, over bytes. An exception
-- of the two parsers is `none`.
use cppapiframework.Common.Tests.{ltb, leb, ◌==◌, if◌then◌else◌, Bool-cases}
use cppapiframework.Common.Text.{Bytes}
use cppapiframework.Common.Int.{ℤ, pos, negsuc}
use Prim.Native.Nat.{ℕ, zero, suc, ◌+◌, ◌-◌, ◌*◌, ◌/◌, ◌%◌, ◌^◌, ◌≤◌, ◌<◌}
use mathlib.Core.Path.{◌≡◌, refl}
use mathlib.Core.Logic.{inl, inr}
use mathlib.Core.Bool.{Bool, true, false, ◌&&◌, ◌||◌}
use mathlib.Core.List.{[], ◌∷◌}
use mathlib.Core.Option.{Option, none, some}
use native.Mathlib.Omega.{arith}

-- The digits of `n` in front of `acc`.
put_digits : ℕ → ℕ → Bytes → Bytes
put_digits zero n acc = acc
put_digits (suc f) n acc =
    let rest = put_digits f (n / 10) ((48 + n % 10) ∷ acc) in
    if ltb n 10 then (48 + n) ∷ acc else rest

-- A number has at most as many digits as its successor has units.
unfoldable pub to_string : ℕ → Bytes
unfolding put_digits
to_string n = put_digits (suc n) n []

unfoldable pub to_string_ℤ : ℤ → Bytes
unfolding to_string
to_string_ℤ (pos n) = to_string n
to_string_ℤ (negsuc n) = b'-' ∷ to_string (suc n)

abbrev pub is_digit : ℕ → Bool
is_digit c = leb b'0' c && leb c b'9'

abbrev is_space : ℕ → Bool
is_space c = c == b' ' || leb 9 c && leb c 13

skip_spaces : Bytes → Bytes
skip_spaces [] = []
skip_spaces (c ∷ s) = if is_space c then skip_spaces s else c ∷ s

-- The value of the leading digits.
digits_value : ℕ → Bytes → ℕ
digits_value acc [] = acc
digits_value acc (c ∷ s) =
    let rest = digits_value (acc * 10 + (c - 48)) s in if is_digit c then rest else acc

-- The number that stands at the front; `none` if no digit does.
unfoldable pub number_at : Bytes → Option ℕ
unfolding digits_value
number_at [] = none
number_at (c ∷ s) = if is_digit c then some (digits_value 0 (c ∷ s)) else none

-- The sign and the number after it.
signed_at : Bytes → Option (Bool × ℕ)
unfolding number_at
signed_at [] = none
signed_at (c ∷ s) =
    if c == b'-'
    then elim (number_at s) [ none ↦ none | some n ↦ some (true, n) ]
    else if c == b'+'
    then elim (number_at s) [ none ↦ none | some n ↦ some (false, n) ]
    else elim (number_at (c ∷ s)) [ none ↦ none | some n ↦ some (false, n) ]

-- A minus sign wraps, as strtoull has it.
stoull_value : Option (Bool × ℕ) → Option ℕ
stoull_value none = none
stoull_value (some (minus, n)) =
    if ltb n (2 ^ 64) then some (if minus then (2 ^ 64 - n) % 2 ^ 64 else n) else none

unfoldable pub stoull : Bytes → Option ℕ
unfolding skip_spaces signed_at stoull_value
stoull s = stoull_value (signed_at (skip_spaces s))

stoll_value : Option (Bool × ℕ) → Option ℤ
stoll_value none = none
stoll_value (some (true, zero)) = some (pos 0)
stoll_value (some (true, suc n)) = if ltb n (2 ^ 63) then some (negsuc n) else none
stoll_value (some (false, n)) = if ltb n (2 ^ 63) then some (pos n) else none

unfoldable pub stoll : Bytes → Option ℤ
unfolding skip_spaces signed_at stoll_value
stoll s = stoll_value (signed_at (skip_spaces s))

-- A text that begins with a digit.
abbrev pub Digits : Bytes → Type 0
Digits [] = ⊥
Digits (c ∷ s) = (b'0' ≤ c) × (c ≤ b'9')

put_digits-Digits : (f n : ℕ) (acc : Bytes) → n < f → Digits (put_digits f n acc)
unfolding put_digits
put_digits-Digits zero n acc h = elim h [ ]
put_digits-Digits (suc f) n acc h = elim (Bool-cases (ltb n 10)) [
  | inl e ↦ rw e (ground arith)
  | inr e ↦ rw e (put_digits-Digits f (n / 10) _ (ground arith))
]

put_digits_value :
    (f n : ℕ) (acc : Bytes) → n < f → digits_value 0 (put_digits f n acc) ≡ digits_value n acc
unfolding put_digits digits_value
put_digits_value zero n acc h = elim h [ ]
put_digits_value (suc f) n acc h = elim (Bool-cases (ltb n 10)) [
  | inl e ↦ ground arith
  | inr e ↦ ground (arith, put_digits_value f (n / 10) ((48 + n % 10) ∷ acc))
]

pub to_string-Digits : (n : ℕ) → Digits (to_string n)
unfolding to_string
to_string-Digits n = put_digits-Digits (suc n) n [] (omega arith)

-- A text of digits only.
abbrev pub AllDigits : Bytes → Type 0
AllDigits [] = Unit {0}
AllDigits (c ∷ s) = (b'0' ≤ c) × (c ≤ b'9') × AllDigits s

put_digits-AllDigits :
    (f n : ℕ) (acc : Bytes) → n < f → AllDigits acc → AllDigits (put_digits f n acc)
unfolding put_digits
put_digits-AllDigits zero n acc h all = elim h [ ]
put_digits-AllDigits (suc f) n acc h all = elim (Bool-cases (ltb n 10)) [
  | inl e ↦ rw e (ground arith, ground arith, all)
  | inr e ↦ rw e (put_digits-AllDigits f (n / 10) _ (ground arith) (omega arith, omega arith, all))
]

pub to_string-AllDigits : (n : ℕ) → AllDigits (to_string n)
unfolding to_string
to_string-AllDigits n = put_digits-AllDigits (suc n) n [] (omega arith) tt

to_string_value : (n : ℕ) → digits_value 0 (to_string n) ≡ n
unfolding to_string digits_value
to_string_value n = put_digits_value (suc n) n [] (omega arith)

-- On a text that begins with a digit the parsers read the digits.
signed_at-Digits :
    (s : Bytes) → Digits s → signed_at (skip_spaces s) ≡ some (false, digits_value 0 s)
unfolding skip_spaces signed_at
signed_at-Digits [] d = absurd d
signed_at-Digits (c ∷ s) d = ground arith

pub stoull-to_string : (n : ℕ) → n < 2 ^ 64 → stoull (to_string n) ≡ some n
unfolding stoull
stoull-to_string n h =
    rw (signed_at-Digits (to_string n) (to_string-Digits n), to_string_value n) (ground arith)

pub stoll-to_string : (n : ℕ) → n < 2 ^ 63 → stoll (to_string n) ≡ some (pos n)
unfolding stoll
stoll-to_string n h =
    rw (signed_at-Digits (to_string n) (to_string-Digits n), to_string_value n) (ground arith)

test_numbers :
    (to_string 4096 ≡ 52 ∷ 48 ∷ 57 ∷ 54 ∷ []) × (stoull (32 ∷ 45 ∷ 49 ∷ []) ≡ some (2 ^ 64 - 1))
unfolding to_string stoull
test_numbers = (refl, refl)
