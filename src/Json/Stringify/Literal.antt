-- ===== src/Json/Stringify/Literal.antt =====
-- A reader of JSON string literals, and what it makes of the literals that are written.
use cppapiframework.Common.{
  ℕ, zero, suc, ◌+◌, ◌-◌, ◌*◌, ◌/◌, ◌%◌, ◌<◌, ◌≡◌, ltb, leb, ◌==◌, ◌&&◌, if◌then◌else◌, Option,
  none, some, [], ◌∷◌, ◌++◌, Bytes,
}
use cppapiframework.Json.Stringify.{Options, backslash}

-- After a backslash, and after its `u` the digits left and the value of those before.
pub data Reading : Type 0 where
  plain escaped : Reading
  hex : ℕ → ℕ → Reading

-- What a byte does: the literal is refused, it ends, or it goes on with the characters read.
pub data Turn : Type 0 where
  refuse close : Turn
  go : Reading → Bytes → Turn

unfoldable pub escape_of : ℕ → Option ℕ
escape_of c =
    if c == b'n'
    then some 10
    else if c == b't'
    then some 9
    else if c == b'r'
    then some 13
    else if c == b'b'
    then some 8
    else if c == b'f'
    then some 12
    else if c == b'/'
    then some b'/'
    else if c == backslash
    then some backslash
    else if c == 0x22
    then some 0x22
    else none

unfoldable pub hex_value : ℕ → Option ℕ
hex_value c =
    if leb b'0' c && leb c b'9'
    then some (c - b'0')
    else if leb b'A' c && leb c b'F'
    then some (c - 55)
    else if leb b'a' c && leb c b'f'
    then some (c - 87)
    else none

-- Code points from 128 on are not read here: what is written for them is the subject of
-- `escape_char-same_byte`.
unfoldable pub turn : Reading → ℕ → Turn
unfolding escape_of hex_value
turn plain c =
    if c == 0x22
    then close
    else if c == backslash
    then go escaped []
    else if ltb c 32
    then refuse
    else go plain (c ∷ [])
turn escaped c =
    if c == b'u'
    then go (hex 3 0) []
    else elim (escape_of c) [ none ↦ refuse | some d ↦ go plain (d ∷ []) ]
turn (hex zero v) c = elim (hex_value c) [
  | none ↦ refuse
  | some d ↦ if ltb (v * 16 + d) 128 then go plain ((v * 16 + d) ∷ []) else refuse
]
turn (hex (suc n) v) c = elim (hex_value c) [ none ↦ refuse | some d ↦ go (hex n (v * 16 + d)) [] ]

abbrev pub before : Bytes → Option (Bytes × Bytes) → Option (Bytes × Bytes)
before t none = none
before t (some (s, r)) = some (t ++ s, r)

-- The characters up to the quote that ends the literal, and what comes after it.
unfoldable pub read_chars : Reading → Bytes → Option (Bytes × Bytes)
unfolding turn
read_chars st [] = none
read_chars st (c ∷ r) = elim (turn st c) [
  | refuse ↦ none
  | close ↦ some ([], r)
  | go st' t ↦ before t (read_chars st' r)
]

-- The upper case digits that appendHex puts.
abbrev pub hex_digit : ℕ → ℕ
hex_digit d = if ltb d 10 then b'0' + d else 55 + d

-- What is documented of appendHex: the hexadecimal digits, with zeros in front up to the width.
abbrev pub PadsHex : Options → Type 0
PadsHex o =
    (n : ℕ)
    → n < 0x10000
    → o.append_hex n 4
      ≡ hex_digit (n / 0x1000)
        ∷ hex_digit (n / 0x100 % 16)
        ∷ hex_digit (n / 0x10 % 16)
        ∷ hex_digit (n % 16)
        ∷ []
