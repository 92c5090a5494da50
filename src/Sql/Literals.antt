-- ===== src/Sql/Literals.antt =====
-- The values that a query quotes are what a reader of string literals finds in it.
use mathlib.Core.List.{append_assoc}
use cppapiframework.Common.{
  ℕ, zero, suc, ◌≡◌, ◌≢◌, ◌⊎◌, refl, ap, ◌∙◌, inl, inr, true, false, Option, none, some, List, [],
  drop, starts_with, ◌∷◌, ◌++◌, ◌==◌, length, map, if◌then◌else◌, Bytes, text, arith, ==_false,
}
use cppapiframework.Sql.{MySqlConnection, with_quotes, separated}

abbrev pub quote : ℕ
quote = 0x27

abbrev pub backslash : ℕ
backslash = 0x5C

-- What is documented of escapeString: a byte is written as itself, unless it is a quote or a
-- backslash, or as a backslash and a code, which `unescape` takes back to the byte.
pub record Escapes (conn : MySqlConnection) (unescape : ℕ → ℕ) : Type 0 where
  pub escape-nil : conn [] ≡ []
  pub escape-cons :
      (b : ℕ) (s : Bytes)
      → ((conn (b ∷ s) ≡ b ∷ conn s) × (b ≢ quote) × (b ≢ backslash))
        ⊎ ((code : ℕ) × (conn (b ∷ s) ≡ backslash ∷ code ∷ conn s) × (unescape code ≡ b))

-- Where a reader of a literal stands: between characters, behind a backslash, or behind a quote,
-- which closes the literal unless another one follows.
pub data Mode : Type 0 where
  inside escaped closed : Mode

abbrev pub prefixed : {A : Type 0} → A → Option (List A × Bytes) → Option (List A × Bytes)
prefixed a none = none
prefixed a (some (l, rest)) = some (a ∷ l, rest)

-- A literal behind its first quote, and what comes after it.
unfoldable pub read_literal : (ℕ → ℕ) → Mode → Bytes → Option (Bytes × Bytes)
read_literal un closed [] = some ([], [])
read_literal un inside [] = none
read_literal un escaped [] = none
read_literal un escaped (c ∷ s) = prefixed (un c) (read_literal un inside s)
read_literal un closed (c ∷ s) =
    let more = prefixed quote (read_literal un inside s) in
    if c == quote then more else some ([], c ∷ s)
read_literal un inside (c ∷ s) =
    let end = read_literal un closed s in
    let code = read_literal un escaped s in
    let more = prefixed c (read_literal un inside s) in
    if c == quote then end else if c == backslash then code else more

abbrev pub without_comma : Bytes → Bytes
without_comma s = if starts_with s (text ", ") then drop 2 s else s

abbrev pub after_literal :
    (Bytes → Option (List Bytes × Bytes)) → Option (Bytes × Bytes) → Option (List Bytes × Bytes)
after_literal f none = none
after_literal f (some (v, s)) = prefixed v (f (without_comma s))

-- The literals up to a closing bracket, with commas between them: at most one less than `n`.
unfoldable pub read_values : (ℕ → ℕ) → ℕ → Bytes → Option (List Bytes × Bytes)
unfolding read_literal starts_with
read_values un zero s = none
read_values un (suc n) s =
    if starts_with s (text ")")
    then some ([], drop 1 s)
    else if starts_with s (text "'")
    then after_literal (read_values un n) (read_literal un inside (drop 1 s))
    else none

abbrev NoQuote : Bytes → Type 0
NoQuote [] = Unit {0}
NoQuote (c ∷ s) = c ≢ quote

module _ (conn : MySqlConnection) (un : ℕ → ℕ) (e : Escapes conn un) where
  literal-closed :
      (rest : Bytes) → NoQuote rest → read_literal un inside (text "'" ++ rest) ≡ some ([], rest)
  unfolding read_literal
  literal-closed [] h = refl
  literal-closed (c ∷ rest) h = rw (==_false h) refl

  literal-escape :
      (v rest : Bytes)
      → NoQuote rest
      → read_literal un inside (conn v ++ (text "'" ++ rest)) ≡ some (v, rest)
  unfolding read_literal
  literal-escape [] rest h = rw e.escape-nil (literal-closed rest h)
  literal-escape (b ∷ v) rest h = elim (e.escape-cons b v) [
    | inl (kept, no_quote, no_backslash) ↦
        rw (kept, ==_false no_quote, ==_false no_backslash, literal-escape v rest h) refl
    | inr (code, written, back) ↦ rw (written, literal-escape v rest h, back) refl
  ]

  -- What stands behind a value: the other values, and the bracket.
  abbrev tail : List Bytes → Bytes → Bytes
  tail vs rest = separated false (map (with_quotes conn) vs) ++ (text ")" ++ rest)

  tail-NoQuote : (vs : List Bytes) (rest : Bytes) → NoQuote (tail vs rest)
  unfolding separated
  tail-NoQuote [] rest = ground arith
  tail-NoQuote (v ∷ vs) rest = ground arith

  tail-comma :
      (vs : List Bytes) (rest : Bytes)
      → without_comma (tail vs rest)
        ≡ separated true (map (with_quotes conn) vs) ++ (text ")" ++ rest)
  unfolding separated starts_with
  tail-comma [] rest = refl
  tail-comma (v ∷ vs) rest = refl

  value_first :
      (v : Bytes) (vs : List Bytes) (rest : Bytes)
      → separated true (map (with_quotes conn) (v ∷ vs)) ++ (text ")" ++ rest)
        ≡ text "'" ++ (conn v ++ (text "'" ++ tail vs rest))
  unfolding separated with_quotes
  value_first v vs rest = simp append_assoc

  read_values-next :
      (n : ℕ) (v : Bytes) (vs : List Bytes) (rest : Bytes)
      → read_values un
          (suc n)
          (separated true (map (with_quotes conn) (v ∷ vs)) ++ (text ")" ++ rest))
        ≡ prefixed v
            (read_values un n (separated true (map (with_quotes conn) vs) ++ (text ")" ++ rest)))
  unfolding read_values
  read_values-next n v vs rest =
      ap (read_values un (suc n)) (value_first v vs rest)
      ∙ ap (after_literal (read_values un n))
          (literal-escape v (tail vs rest) (tail-NoQuote vs rest))
      ∙ ap (λ s. prefixed v (read_values un n s)) (tail-comma vs rest)

  pub read_values-separated :
      (vs : List Bytes) (rest : Bytes)
      → read_values un
          (suc (length vs))
          (separated true (map (with_quotes conn) vs) ++ (text ")" ++ rest))
        ≡ some (vs, rest)
  read_values-separated [] rest = unfold read_values separated in refl
  read_values-separated (v ∷ vs) rest =
      read_values-next (suc (length vs)) v vs rest ∙ ap (prefixed v) (read_values-separated vs rest)
