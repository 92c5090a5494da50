-- ===== src/Json/Stringify/RoundTrip.antt =====
-- What is written for a value is read back as that value.
use mathlib.Core.List.{append_assoc}
use cppapiframework.Common.{
  ℕ, zero, suc, ◌≤◌, ◌≡◌, refl, sym, ap, subst, ◌∙◌, Bool, true, false, Option, some, [], ◌∷◌, ◌++◌,
  Bytes, text, arith,
}
use cppapiframework.Common.Outcome.{Outcome, ok}
use cppapiframework.Json.{
  Var, empty, null_object, null_array, boolean, number, floating, character, string, array, object,
  Items, no_items, item, Members, no_members, member, Poco,
}
use cppapiframework.Json.Stringify.{
  Options, format_string, stringify, stringify_items, stringify_members,
}
use cppapiframework.Json.Stringify.Literal.{PadsHex}
use cppapiframework.Json.Stringify.Reader.{
  starts, read_value, read_items, read_members, Ends, read_value_scalar, read_value_null,
  starts-IsScalarText,
}
use cppapiframework.Json.Stringify.Strings.{read_chars-format_string}
use cppapiframework.Json.Stringify.Readings.{
  read_as, items_read_as, members_read_as, size, items_size, members_size, no_fuel, IsReadBack,
  HasTexts, HaveTexts, MembersHaveTexts,
}

module _ (o : Options) (p : Poco) (scalar : Bytes → Option Var) where
  -- `w` is written as a text that is read as `v`.
  abbrev pub Reads : Outcome Bytes → ℕ → Var → Bytes → Type 0
  Reads w f v rest =
      (t : Bytes) × (w ≡ ok t)
      × (starts 0x5D (t ++ rest) ≡ false)
      × (read_value scalar f (t ++ rest) ≡ some (v, rest))

  abbrev ReadsItems : Outcome Bytes → ℕ → Bool → Items → Bytes → Type 0
  ReadsItems w f first vs rest =
      (t : Bytes) × (w ≡ ok t)
      × (first ≡ false → Ends (t ++ 0x5D ∷ rest))
      × (read_items scalar f first (t ++ 0x5D ∷ rest) ≡ some (vs, rest))

  abbrev ReadsMembers : Outcome Bytes → ℕ → Bool → Members → Bytes → Type 0
  ReadsMembers w f first ms rest =
      (t : Bytes) × (w ≡ ok t)
      × (first ≡ false → Ends (t ++ 0x7D ∷ rest))
      × (read_members scalar f first (t ++ 0x7D ∷ rest) ≡ some (ms, rest))

  module _ (h : PadsHex o) (strict : o.strict_json ≡ true)
      (bytes : o.escape_all_unicode ≡ false) where
    null-Reads : (f : ℕ) (rest : Bytes) → Ends rest → Reads (ok (text "null")) (suc f) empty rest
    null-Reads f rest e = (text "null", refl, refl, read_value_null scalar f rest e)

    string-Reads : (f : ℕ) (s rest : Bytes) → Reads (ok (format_string o s)) (suc f) (string s) rest
    unfolding read_value
    string-Reads f s rest =
        let (body, e, r) = read_chars-format_string o s rest h strict bytes in
        (format_string o s, refl, rw e refl, rw (e, r) refl)

    character-Reads :
        (f c : ℕ) (rest : Bytes)
        → HasTexts p scalar (character c)
        → Reads (stringify o p (character c)) (suc f) (read_as p (character c)) rest
    unfolding stringify read_as
    character-Reads f c rest (t, w) =
        subst (λ x. Reads x (suc f) (read_as p (character c)) rest) (sym (rw w refl))
          (subst (λ x. Reads (ok (format_string o t)) (suc f) x rest) (sym (rw w refl))
            (string-Reads f t rest))

    scalar-Reads :
        (f : ℕ) (v : Var) (rest : Bytes)
        → IsReadBack p scalar v
        → Ends rest
        → Reads (p.to_text v) (suc f) v rest
    scalar-Reads f v rest (t, w, i, r) e =
        (t, w, starts-IsScalarText t rest i, read_value_scalar scalar f t rest v i e r)

    array-Reads :
        (f : ℕ) (vs ws : Items) (rest : Bytes)
        → ReadsItems (stringify_items o p true vs) f true ws rest
        → Reads (stringify o p (array vs)) (suc f) (array ws) rest
    unfolding stringify read_value
    array-Reads f vs ws rest (t, w, e, r) =
        (0x5B ∷ (t ++ 0x5D ∷ []), rw w refl, refl, rw (append_assoc t (0x5D ∷ []) rest, r) refl)

    object-Reads :
        (f : ℕ) (ms ns : Members) (rest : Bytes)
        → ReadsMembers (stringify_members o p true ms) f true ns rest
        → Reads (stringify o p (object ms)) (suc f) (object ns) rest
    unfolding stringify read_value
    object-Reads f ms ns rest (t, w, e, r) =
        (0x7B ∷ (t ++ 0x7D ∷ []), rw w refl, refl, rw (append_assoc t (0x7D ∷ []) rest, r) refl)

    item-Reads :
        (f : ℕ) (first : Bool) (v v' : Var) (vs vs' : Items) (rest : Bytes)
        → ReadsItems (stringify_items o p false vs) f false vs' rest
        → ((rest : Bytes) → Ends rest → Reads (stringify o p v) f v' rest)
        → ReadsItems (stringify_items o p first (item v vs)) (suc f) first (item v' vs') rest
    unfolding stringify stringify_items read_items
    item-Reads f true v v' vs vs' rest (u, w, e, r) g =
        let (t, w', s, r') = g (u ++ 0x5D ∷ rest) (e refl) in
        (t ++ u, (rw (w', w) refl), λ b. cc, rw (append_assoc t u (0x5D ∷ rest), s, r', r) refl)
    item-Reads f false v v' vs vs' rest (u, w, e, r) g =
        let (t, w', s, r') = g (u ++ 0x5D ∷ rest) (e refl) in
        (
          0x2C ∷ (t ++ u),
          (rw (w', w) refl),
          λ b. refl,
          rw (append_assoc t u (0x5D ∷ rest), r', r) refl,
        )

    member_text :
        (k t u rest : Bytes)
        → (format_string o k ++ (0x3A ∷ (t ++ u))) ++ (0x7D ∷ rest)
          ≡ format_string o k ++ (0x3A ∷ (t ++ (u ++ 0x7D ∷ rest)))
    member_text k t u rest =
        append_assoc (format_string o k) (0x3A ∷ (t ++ u)) (0x7D ∷ rest)
        ∙ ap (λ x. format_string o k ++ (0x3A ∷ x)) (append_assoc t u (0x7D ∷ rest))

    member-Reads :
        (f : ℕ) (first : Bool) (k : Bytes) (v v' : Var) (ms ms' : Members) (rest : Bytes)
        → ReadsMembers (stringify_members o p false ms) f false ms' rest
        → ((rest : Bytes) → Ends rest → Reads (stringify o p v) f v' rest)
        → ReadsMembers
            (stringify_members o p first (member k v ms))
            (suc f)
            first
            (member k v' ms')
            rest
    unfolding stringify stringify_members read_members
    member-Reads f true k v v' ms ms' rest (u, w, e, r) g =
        let (t, w', s, r') = g (u ++ 0x7D ∷ rest) (e refl) in
        let (body, q, c) =
          read_chars-format_string o k (0x3A ∷ (t ++ (u ++ 0x7D ∷ rest))) h strict bytes in
        (
          format_string o k ++ (0x3A ∷ (t ++ u)),
          (rw (w', w) refl),
          λ b. cc,
          subst (λ x. read_members scalar (suc f) true x ≡ some (member k v' ms', rest))
              (sym (member_text k t u rest ∙ q)) (rw (c, r', r) refl),
        )
    member-Reads f false k v v' ms ms' rest (u, w, e, r) g =
        let (t, w', s, r') = g (u ++ 0x7D ∷ rest) (e refl) in
        let (body, q, c) =
          read_chars-format_string o k (0x3A ∷ (t ++ (u ++ 0x7D ∷ rest))) h strict bytes in
        (
          0x2C ∷ (format_string o k ++ (0x3A ∷ (t ++ u))),
          (rw (w', w) refl),
          λ b. refl,
          subst (λ x. read_members scalar (suc f) false (0x2C ∷ x) ≡ some (member k v' ms', rest))
              (sym (member_text k t u rest ∙ q)) (rw (c, r', r) refl),
        )

    mutual
      unfolding stringify stringify_items stringify_members read_items read_members read_as
          items_read_as members_read_as size items_size members_size

      value-Reads :
          (v : Var) (f : ℕ) (rest : Bytes)
          → HasTexts p scalar v
          → size v ≤ f
          → Ends rest
          → Reads (stringify o p v) f (read_as p v) rest
      value-Reads null_object (suc f) rest i n e = null-Reads f rest e
      value-Reads null_array (suc f) rest i n e = null-Reads f rest e
      value-Reads empty (suc f) rest i n e = null-Reads f rest e
      value-Reads (boolean b) (suc f) rest i n e = scalar-Reads f (boolean b) rest i e
      value-Reads (number z) (suc f) rest i n e = scalar-Reads f (number z) rest i e
      value-Reads (floating t) (suc f) rest i n e = scalar-Reads f (floating t) rest i e
      value-Reads (character c) (suc f) rest i n e = character-Reads f c rest i
      value-Reads (string s) (suc f) rest i n e = string-Reads f s rest
      value-Reads (array vs) (suc f) rest i n e =
          array-Reads f vs (items_read_as p vs) rest (items-Reads vs f true rest i (omega arith))
      value-Reads (object ms) (suc f) rest i n e =
          object-Reads f ms (members_read_as p ms) rest
            (members-Reads ms f true rest i (omega arith))
      value-Reads v zero rest i n e = absurd (no_fuel v n)

      items-Reads :
          (vs : Items) (f : ℕ) (first : Bool) (rest : Bytes)
          → HaveTexts p scalar vs
          → items_size vs ≤ f
          → ReadsItems (stringify_items o p first vs) f first (items_read_as p vs) rest
      items-Reads no_items zero first rest i n = let z : ⊥ = omega arith in absurd z
      items-Reads no_items (suc f) first rest i n = ([], refl, λ b. refl, refl)
      items-Reads (item v vs) zero first rest i n = let z : ⊥ = omega arith in absurd z
      items-Reads (item v vs) (suc f) first rest (i, j) n =
          item-Reads f first v (read_as p v) vs (items_read_as p vs) rest
            (items-Reads vs f false rest j (omega arith))
            (λ r e. value-Reads v f r i (omega arith) e)

      members-Reads :
          (ms : Members) (f : ℕ) (first : Bool) (rest : Bytes)
          → MembersHaveTexts p scalar ms
          → members_size ms ≤ f
          → ReadsMembers (stringify_members o p first ms) f first (members_read_as p ms) rest
      members-Reads no_members zero first rest i n = let z : ⊥ = omega arith in absurd z
      members-Reads no_members (suc f) first rest i n = ([], refl, λ b. refl, refl)
      members-Reads (member k v ms) zero first rest i n = let z : ⊥ = omega arith in absurd z
      members-Reads (member k v ms) (suc f) first rest (i, j) n =
          member-Reads f first k v (read_as p v) ms (members_read_as p ms) rest
            (members-Reads ms f false rest j (omega arith))
            (λ r e. value-Reads v f r i (omega arith) e)

-- What stringify writes for a value, with escapeAllUnicode unset and strictJSON set, is JSON text
-- of that value: where Poco's texts of the numbers, truth values and characters in it can be read,
-- it returns, and a reader with a round of fuel for each value and each end of a list gets the
-- value back and stops where the text ends. Null pointers come back as nulls, characters as
-- strings.
pub read_value-stringify :
    (o : Options) (p : Poco) (scalar : Bytes → Option Var) (v : Var) (f : ℕ) (rest : Bytes)
    → PadsHex o
    → o.strict_json ≡ true
    → o.escape_all_unicode ≡ false
    → HasTexts p scalar v
    → size v ≤ f
    → Ends rest
    → (t : Bytes) × (stringify o p v ≡ ok t)
      × (read_value scalar f (t ++ rest) ≡ some (read_as p v, rest))
read_value-stringify o p scalar v f rest h s u i n e =
    let (t, w, _, r) = value-Reads o p scalar h s u v f rest i n e in (t, w, r)
