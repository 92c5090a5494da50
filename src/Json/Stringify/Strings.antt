-- ===== src/Json/Stringify/Strings.antt =====
-- The string literals that are written, and what escapes of code points lose.
use mathlib.Core.List.{append-nil, append_assoc}
use cppapiframework.Common.{
  ℕ, ◌+◌, ◌-◌, ◌%◌, ◌^◌, ◌≤◌, ◌<◌, ◌≡◌, refl, sym, ap, ◌∙◌, leb, ◌==◌, true, false, ◌||◌, some, [],
  ◌∷◌, ◌++◌, Bytes, text, Bool-cases, inl, inr, arith,
}
use cppapiframework.Json.Stringify.{
  Options, offset_from_utf8, gather, backslash, escape_char, escape_loop, escape_json_utf8,
  format_chars, format_string,
}
use cppapiframework.Json.Stringify.Literal.{plain, turn, read_chars, PadsHex}
use cppapiframework.Json.Stringify.Escapes.{plain-ReadsAs, escape_char-ReadsAs}

escape_one : (o : Options) (b : ℕ) → b < 128 → escape_json_utf8 o (b ∷ []) ≡ escape_char o b
unfolding escape_json_utf8 escape_loop gather offset_from_utf8
escape_one o b h =
    let e : (b + 2 ^ 32 - 0) % 2 ^ 32 ≡ b = omega arith in rw e (append-nil (escape_char o b))

read_chars-format_chars :
    (o : Options) (s r : Bytes)
    → PadsHex o
    → o.strict_json ≡ true
    → read_chars plain (format_chars o s ++ 0x22 ∷ r) ≡ some (s, r)
unfolding read_chars turn format_chars
read_chars-format_chars o [] r h k = refl
read_chars-format_chars o (b ∷ s) r h k =
    elim (Bool-cases (leb b 31 || b == 0x22 || b == backslash)) [
      | inl e ↦
          let low : b < 128 = ground arith in
          rw
            (
              e,
              escape_one o b low,
              append_assoc (escape_char o b) (format_chars o s) (0x22 ∷ r),
              escape_char-ReadsAs o b h k low (format_chars o s ++ 0x22 ∷ r),
              read_chars-format_chars o s r h k,
            )
            refl
      | inr e ↦ rw e (
          plain-ReadsAs b (ground arith) (ground arith) (ground arith) _
          ∙ (rw (read_chars-format_chars o s r h k) refl))
    ]

pub format_string_bytes :
    (o : Options) (s : Bytes)
    → o.escape_all_unicode ≡ false
    → format_string o s ≡ 0x22 ∷ (format_chars o s ++ 0x22 ∷ [])
unfolding format_string
format_string_bytes o s u = simp u refl

-- With escapeAllUnicode unset and strictJSON set, what formatString writes is a JSON string literal
-- whose characters are the bytes of the string, whatever bytes they are and whatever comes after
-- the literal.
pub read_chars-format_string :
    (o : Options) (s r : Bytes)
    → PadsHex o
    → o.strict_json ≡ true
    → o.escape_all_unicode ≡ false
    → (body : Bytes) × (format_string o s ++ r ≡ 0x22 ∷ body)
      × (read_chars plain body ≡ some (s, r))
read_chars-format_string o s r h k u = (
  format_chars o s ++ 0x22 ∷ r,
  ap (λ x. x ++ r) (format_string_bytes o s u)
      ∙ ap (◌∷◌ 0x22) (append_assoc (format_chars o s) (0x22 ∷ []) r),
  read_chars-format_chars o s r h k,
)

escape_char_wide :
    (o : Options) (c : ℕ)
    → 0x80 ≤ c
    → c ≤ 0xFFFF
    → escape_char o c ≡ text "\\u" ++ o.append_hex (c % 256) 4
unfolding escape_char
escape_char_wide o c h k = ground arith

-- Two code points from U+0080 to U+FFFF with the same low byte are written the same, so that no
-- reader can tell them apart.
pub escape_char-same_byte :
    (o : Options) (c d : ℕ)
    → 0x80 ≤ c
    → c ≤ 0xFFFF
    → 0x80 ≤ d
    → d ≤ 0xFFFF
    → c % 256 ≡ d % 256
    → escape_char o c ≡ escape_char o d
escape_char-same_byte o c d h k h' k' e =
    escape_char_wide o c h k
    ∙ ap (λ x. text "\\u" ++ o.append_hex x 4) e
    ∙ sym (escape_char_wide o d h' k')
