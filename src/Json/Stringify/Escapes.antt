-- ===== src/Json/Stringify/Escapes.antt =====
-- The escapes that are written for characters are read as those characters.
use cppapiframework.Common.{
  ℕ, suc, ◌+◌, ◌-◌, ◌*◌, ◌/◌, ◌%◌, ◌<◌, ◌≡◌, ◌≢◌, ◌≤◌, refl, sym, ap, subst, dec_eq, lt→ltb, ◌∙◌,
  ltb, leb, ◌==◌, ==_false, true, false, ◌||◌, if◌then◌else◌, Option, none, some, [], ◌∷◌, ◌++◌,
  Bytes, text, Bool-cases, inl, inr, arith,
}
use cppapiframework.Json.Stringify.{Options, backslash, escape_char}
use cppapiframework.Json.Stringify.Literal.{
  Reading, plain, hex, go, escape_of, hex_value, turn, before, read_chars, hex_digit, PadsHex,
}

hex_value-hex_digit : (d : ℕ) → d < 16 → hex_value (hex_digit d) ≡ some d
unfolding hex_value
hex_value-hex_digit d h = ground arith

-- The text of a character is read as that character.
abbrev pub ReadsAs : Bytes → ℕ → Type 0
ReadsAs t c = (r : Bytes) → read_chars plain (t ++ r) ≡ before (c ∷ []) (read_chars plain r)

before_nothing : (x : Option (Bytes × Bytes)) → before [] x ≡ x
before_nothing none = refl
before_nothing (some (s, r)) = refl

turn_goes_on :
    (st st' : Reading) (c : ℕ) (t r : Bytes)
    → turn st c ≡ go st' t
    → read_chars st (c ∷ r) ≡ before t (read_chars st' r)
unfolding read_chars
turn_goes_on st st' c t r e = rw (e, read_chars) refl

hex-more :
    (n v d : ℕ) (r : Bytes)
    → d < 16
    → read_chars (hex (suc n) v) (hex_digit d ∷ r) ≡ read_chars (hex n (v * 16 + d)) r
unfolding turn
hex-more n v d r h =
    let e : turn (hex (suc n) v) (hex_digit d) ≡ go (hex n (v * 16 + d)) [] =
      rw (hex_value-hex_digit d h, turn) refl in
    turn_goes_on (hex (suc n) v) _ _ [] r e ∙ before_nothing _

hex_last :
    (v d : ℕ) (r : Bytes)
    → d < 16
    → v * 16 + d < 128
    → read_chars (hex 0 v) (hex_digit d ∷ r) ≡ before ((v * 16 + d) ∷ []) (read_chars plain r)
unfolding turn
hex_last v d r h k =
    let e : turn (hex 0 v) (hex_digit d) ≡ go plain ((v * 16 + d) ∷ []) =
      rw (hex_value-hex_digit d h, lt→ltb (v * 16 + d) 128 k, turn) refl in
    turn_goes_on (hex 0 v) _ _ _ r e

hex_four :
    (a b c d : ℕ) (r : Bytes)
    → a < 16
    → b < 16
    → c < 16
    → d < 16
    → (((0 * 16 + a) * 16 + b) * 16 + c) * 16 + d < 128
    → read_chars (hex 3 0) (hex_digit a ∷ hex_digit b ∷ hex_digit c ∷ hex_digit d ∷ r)
      ≡ before (((((0 * 16 + a) * 16 + b) * 16 + c) * 16 + d) ∷ []) (read_chars plain r)
hex_four a b c d r ha hb hc hd h =
    hex-more 2 0 a (hex_digit b ∷ hex_digit c ∷ hex_digit d ∷ r) ha
    ∙ hex-more 1 (0 * 16 + a) b (hex_digit c ∷ hex_digit d ∷ r) hb
    ∙ hex-more 0 ((0 * 16 + a) * 16 + b) c (hex_digit d ∷ r) hc
    ∙ hex_last (((0 * 16 + a) * 16 + b) * 16 + c) d r hd h

hex-ReadsAs :
    (o : Options) (c : ℕ) → PadsHex o → c < 128 → ReadsAs (text "\\u" ++ o.append_hex (c % 256) 4) c
unfolding read_chars turn
hex-ReadsAs o c h b r =
    let n : ℕ = c % 256 in
    let small : n < 256 = omega arith in
    let value : (((0 * 16 + n / 0x1000) * 16 + n / 0x100 % 16) * 16 + n / 0x10 % 16) * 16 + n % 16
        ≡ c =
      omega arith in
    before_nothing _
    ∙ before_nothing _
    ∙ rw (h n (omega arith)) (
        hex_four (n / 0x1000) (n / 0x100 % 16) (n / 0x10 % 16) (n % 16) r (omega arith)
          (omega arith) (omega arith) (omega arith) (omega arith))
    ∙ ap (λ x. before (x ∷ []) (read_chars plain r)) value

-- A text that takes the reader through an escape of four digits.
through_hex :
    (c : ℕ) (x : Option (Bytes × Bytes))
    → before [] (before [] (before [] (before [] (before [] (before (c ∷ []) x)))))
      ≡ before (c ∷ []) x
through_hex c none = refl
through_hex c (some (s, r)) = refl

named-ReadsAs :
    (o : Options) (k c : ℕ) → c ≡ k → ReadsAs (escape_char o k) k → ReadsAs (escape_char o c) c
named-ReadsAs o k c e h = subst (λ x. ReadsAs (escape_char o x) x) (sym e) h

pub plain-ReadsAs : (c : ℕ) → c ≢ 0x22 → c ≢ backslash → 32 ≤ c → ReadsAs (c ∷ []) c
unfolding turn
plain-ReadsAs c h k b r = turn_goes_on plain plain c (c ∷ []) r (ground arith)

unnamed-ReadsAs :
    (o : Options) (c : ℕ)
    → PadsHex o
    → c < 128
    → c ≢ 0x22
    → c ≢ backslash
    → ReadsAs
        (if ltb c 32 || c == 0x7F
          then text "\\u" ++ o.append_hex (c % 256) 4
          else if ltb 0xFFFF c
          then text "\\u"
            ++ (o.append_hex (((c - 0x10000) / 1024 % 1024) % 256 + 0xD800) 4
                ++ (text "\\u" ++ o.append_hex (((c - 0x10000) % 1024) % 256 + 0xDC00) 4))
          else if leb 0x80 c
          then text "\\u" ++ o.append_hex (c % 256) 4
          else c % 256 ∷ [])
        c
unnamed-ReadsAs o c h b p q r = elim (Bool-cases (ltb c 32 || c == 0x7F)) [
  | inl e ↦ rw e (hex-ReadsAs o c h b r)
  | inr e ↦
      let wide : ltb 0xFFFF c ≡ false = ground arith in
      let high : leb 0x80 c ≡ false = ground arith in
      let whole : c % 256 ≡ c = omega arith in
      let from : 32 ≤ c = ground arith in rw (e, wide, high, whole) (plain-ReadsAs c p q from r)
]

pub escape_char-ReadsAs :
    (o : Options) (c : ℕ) → PadsHex o → o.strict_json ≡ true → c < 128 → ReadsAs (escape_char o c) c
unfolding escape_char read_chars turn escape_of
escape_char-ReadsAs o c h s b = elim (dec_eq c 10) [
  | inl e ↦ named-ReadsAs o 10 c e (λ r. before_nothing _)
  | inr n10 ↦ elim (dec_eq c 9) [
    | inl e ↦ named-ReadsAs o 9 c e (λ r. before_nothing _)
    | inr n9 ↦ elim (dec_eq c 13) [
      | inl e ↦ named-ReadsAs o 13 c e (λ r. before_nothing _)
      | inr n13 ↦ elim (dec_eq c 8) [
        | inl e ↦ named-ReadsAs o 8 c e (λ r. before_nothing _)
        | inr n8 ↦ elim (dec_eq c 12) [
          | inl e ↦ named-ReadsAs o 12 c e (λ r. before_nothing _)
          | inr n12 ↦ elim (dec_eq c 11) [
            | inl e ↦ named-ReadsAs o 11 c e (λ r. rw s (through_hex _ (read_chars plain r)))
            | inr n11 ↦ elim (dec_eq c 7) [
              | inl e ↦ named-ReadsAs o 7 c e (λ r. rw s (through_hex _ (read_chars plain r)))
              | inr n7 ↦ elim (dec_eq c 92) [
                | inl e ↦ named-ReadsAs o 92 c e (λ r. before_nothing _)
                | inr n92 ↦ elim (dec_eq c 34) [
                  | inl e ↦ named-ReadsAs o 34 c e (λ r. before_nothing _)
                  | inr n34 ↦ elim (dec_eq c 47) [
                    | inl e ↦ named-ReadsAs o 47 c e (λ r. before_nothing _)
                    | inr n47 ↦ elim (dec_eq c 0) [
                      | inl e ↦ named-ReadsAs o 0 c e (λ r. through_hex 0 (read_chars plain r))
                      | inr n0 ↦ λ r.
                          rw
                            (
                              ==_false n10,
                              ==_false n9,
                              ==_false n13,
                              ==_false n8,
                              ==_false n12,
                              ==_false n11,
                              ==_false n7,
                              ==_false n92,
                              ==_false n34,
                              ==_false n47,
                              ==_false n0,
                            )
                            (unnamed-ReadsAs o c h b n34 n92 r)
                    ]
                  ]
                ]
              ]
            ]
          ]
        ]
      ]
    ]
  ]
]
