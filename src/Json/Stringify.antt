-- ===== src/Json/Stringify.antt =====
-- src/utils/PocoJsonStringify.hpp: the text of a JSON value. `str` is only ever appended to: a
-- function gives what it appends.
pub mod Literal
pub mod Escapes
pub mod Strings
pub mod Reader
pub mod Readings
pub mod RoundTrip
use cppapiframework.Common.{
  ℕ, zero, suc, ◌+◌, ◌-◌, ◌*◌, ◌/◌, ◌%◌, ◌^◌, ltb, leb, ◌==◌, Bool, true, false, ◌&&◌, ◌||◌,
  if◌then◌else◌, List, [], ◌∷◌, ◌++◌, length, Bytes, text,
}
use cppapiframework.Common.Outcome.{Outcome, ok, ◌>>=◌}
use cppapiframework.Json.{
  Var, empty, null_object, null_array, boolean, number, floating, character, string, array, object,
  Items, no_items, item, Members, no_members, member, Poco,
}

-- `append_hex` is Poco::NumberFormatter::appendHex with its width.
pub record Options : Type 0 where
  pub strict_json : Bool
  pub escape_all_unicode : Bool
  pub append_hex : ℕ → ℕ → Bytes

unfoldable pub offset_from_utf8 : ℕ → ℕ
offset_from_utf8 size =
    if size == 1
    then 0
    else if size == 2
    then 0x3080
    else if size == 3
    then 0xE2080
    else if size == 4
    then 0x3C82080
    else if size == 5
    then 0xFA082080
    else 0x82082080

-- (b & 0xC0) == 0x80
unfoldable pub is_continuation : ℕ → Bool
is_continuation b = b / 64 == 2

-- The bytes of one character, from the second on: what they add up to, how many there are, and the
-- bytes after them.
unfoldable pub gather : ℕ → ℕ → Bytes → ℕ × ℕ × Bytes
unfolding is_continuation
gather cur size [] = (cur, size, [])
gather cur size (b ∷ bs) =
    if is_continuation b && ltb size 6
    then gather ((cur * 64 + b) % 2 ^ 32) (size + 1) bs
    else (cur, size, b ∷ bs)

abbrev pub backslash : ℕ
backslash = 0x5C

-- The part of the loop's body after the decoding.
unfoldable pub escape_char : Options → ℕ → Bytes
escape_char o c =
    if c == 10
    then text "\\n"
    else if c == 9
    then text "\\t"
    else if c == 13
    then text "\\r"
    else if c == 8
    then text "\\b"
    else if c == 12
    then text "\\f"
    else if c == 11
    then if o.strict_json then text "\\u000B" else text "\\v"
    else if c == 7
    then if o.strict_json then text "\\u0007" else text "\\a"
    else if c == backslash
    then text "\\\\"
    else if c == 0x22
    then text "\\\""
    else if c == 0x2F
    then text "\\/"
    else if c == 0
    then text "\\u0000"
    else if ltb c 32 || c == 0x7F
    then text "\\u" ++ o.append_hex (c % 256) 4
    else if ltb 0xFFFF c
    then text "\\u"
      ++ (o.append_hex (((c - 0x10000) / 1024 % 1024) % 256 + 0xD800) 4
          ++ (text "\\u" ++ o.append_hex (((c - 0x10000) % 1024) % 256 + 0xDC00) 4))
    else if leb 0x80 c
    then text "\\u" ++ o.append_hex (c % 256) 4
    else c % 256 ∷ []

-- The characters, one turn of the loop for each.
unfoldable pub escape_loop : Options → ℕ → Bytes → Bytes
escape_loop o zero bs = []
escape_loop o (suc n) [] = []
escape_loop o (suc n) (b ∷ bs) =
    let r = gather b 1 bs in
    escape_char o ((r.0 + 2 ^ 32 - offset_from_utf8 r.1) % 2 ^ 32) ++ escape_loop o n r.2

unfoldable pub escape_json_utf8 : Options → Bytes → Bytes
unfolding escape_loop
escape_json_utf8 o bs = escape_loop o (length bs) bs

-- A byte from 128 on is a negative char.
unfoldable pub format_chars : Options → Bytes → Bytes
unfolding escape_json_utf8
format_chars o [] = []
format_chars o (b ∷ bs) =
    (if leb b 31 || b == 0x22 || b == backslash then escape_json_utf8 o (b ∷ []) else b ∷ [])
    ++ format_chars o bs

unfoldable pub format_string : Options → Bytes → Bytes
unfolding escape_json_utf8 format_chars
format_string o s =
    0x22 ∷ ((if o.escape_all_unicode then escape_json_utf8 o s else format_chars o s) ++ 0x22 ∷ [])

-- The comma before every element but the first.
abbrev pub comma : Bool → Bytes
comma first = if first then [] else 0x2C ∷ []

unfoldable mutual
  unfolding format_string

  pub stringify : Options → Poco → Var → Outcome Bytes
  stringify o p (object ms) = stringify_members o p true ms >>= λ t. ok (0x7B ∷ (t ++ 0x7D ∷ []))
  stringify o p (array vs) = stringify_items o p true vs >>= λ t. ok (0x5B ∷ (t ++ 0x5D ∷ []))
  stringify o p null_object = ok (text "null")
  stringify o p null_array = ok (text "null")
  stringify o p empty = ok (text "null")
  stringify o p (boolean b) = p.to_text (boolean b)
  stringify o p (number n) = p.to_text (number n)
  stringify o p (floating t) = p.to_text (floating t)
  stringify o p (character c) = p.to_text (character c) >>= λ t. ok (format_string o t)
  stringify o p (string s) = ok (format_string o s)

  pub stringify_items : Options → Poco → Bool → Items → Outcome Bytes
  stringify_items o p first no_items = ok []
  stringify_items o p first (item v vs) =
      stringify o p v >>= λ t. stringify_items o p false vs >>= λ u. ok (comma first ++ (t ++ u))

  pub stringify_members : Options → Poco → Bool → Members → Outcome Bytes
  stringify_members o p first no_members = ok []
  stringify_members o p first (member k v ms) = stringify o p v >>= λ t.
      stringify_members o p false ms >>= λ u.
      ok (comma first ++ (format_string o k ++ (0x3A ∷ (t ++ u))))
