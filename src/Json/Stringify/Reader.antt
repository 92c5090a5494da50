-- ===== src/Json/Stringify/Reader.antt =====
-- A reader of JSON values without white space. The numbers and the truth values are read by a
-- function that is a parameter.
use cppapiframework.Common.{
  ℕ, zero, suc, ◌≡◌, ◌≢◌, refl, ◌==◌, ==_false, Bool, true, false, ◌||◌, if◌then◌else◌, Option,
  none, some, [], ◌∷◌, ◌++◌, Bytes, text, str_eq, str_eq_refl, arith,
}
use cppapiframework.Json.{
  Var, empty, string, array, object, Items, no_items, item, Members, no_members, member,
}
use cppapiframework.Json.Stringify.Literal.{plain, read_chars}

infixl 5 ◌>>=◌
abbrev pub ◌>>=◌ : {A B : Type 0} → Option A → (A → Option B) → Option B
none >>= f = none
some a >>= f = f a

-- A comma or a closing bracket.
abbrev pub ends : ℕ → Bool
ends c = c == 0x2C || c == 0x5D || c == 0x7D

unfoldable pub span : Bytes → Bytes × Bytes
span [] = ([], [])
span (c ∷ r) = let x = span r in if ends c then ([], c ∷ r) else (c ∷ x.0, x.1)

abbrev pub skip : ℕ → Bytes → Option Bytes
skip c [] = none
skip c (d ∷ r) = if d == c then some r else none

abbrev pub skip_comma : Bool → Bytes → Option Bytes
skip_comma true ts = some ts
skip_comma false ts = skip 0x2C ts

abbrev pub starts : ℕ → Bytes → Bool
starts c [] = false
starts c (d ∷ r) = d == c

abbrev pub after_first : Bytes → Bytes
after_first [] = []
after_first (c ∷ r) = r

abbrev pub NoEnd : Bytes → Type 0
NoEnd [] = Unit
NoEnd (c ∷ r) = (ends c ≡ false) × NoEnd r

abbrev pub Ends : Bytes → Type 0
Ends [] = Unit
Ends (c ∷ r) = ends c ≡ true

-- Not empty, not the start of another value, no comma or closing bracket, and not `null`.
abbrev pub IsScalarText : Bytes → Type 0
IsScalarText [] = ⊥
IsScalarText (c ∷ r) =
    (c ≢ 0x5B) × (c ≢ 0x7B) × (c ≢ 0x22) × NoEnd (c ∷ r) × (str_eq (c ∷ r) (text "null") ≡ false)

pub starts-IsScalarText : (t r : Bytes) → IsScalarText t → starts 0x5D (t ++ r) ≡ false
starts-IsScalarText [] r h = absurd h
starts-IsScalarText (c ∷ t) r (a, b, d, (n, m), u) = ground arith

pub span-append : (t r : Bytes) → NoEnd t → Ends r → span (t ++ r) ≡ (t, r)
unfolding span
span-append [] [] n e = refl
span-append [] (c ∷ r) n e = rw e refl
span-append (c ∷ t) r (n, m) e = rw (n, span-append t r m e) refl

module _ (scalar : Bytes → Option Var) where
  unfoldable pub read_token : Bytes → Option (Var × Bytes)
  unfolding span
  read_token ts =
      let x = span ts in
      if str_eq x.0 (text "null") then some (empty, x.1) else scalar x.0 >>= λ v. some (v, x.1)

  -- A call costs a unit of fuel.
  unfoldable mutual
    pub read_value : ℕ → Bytes → Option (Var × Bytes)
    read_value zero ts = none
    read_value (suc f) [] = none
    read_value (suc f) (c ∷ r) =
        let vs = read_items f true r >>= λ x. some (array x.0, x.1) in
        let ms = read_members f true r >>= λ x. some (object x.0, x.1) in
        if c == 0x5B
        then vs
        else if c == 0x7B
        then ms
        else if c == 0x22
        then (read_chars plain r >>= λ x. some (string x.0, x.1))
        else read_token (c ∷ r)

    pub read_items : ℕ → Bool → Bytes → Option (Items × Bytes)
    read_items zero first ts = none
    read_items (suc f) first ts =
        let more = skip_comma first ts >>= read_value f >>= λ x.
        read_items f false x.1 >>= λ y. some (item x.0 y.0, y.1) in
        if starts 0x5D ts then some (no_items, after_first ts) else more

    pub read_members : ℕ → Bool → Bytes → Option (Members × Bytes)
    read_members zero first ts = none
    read_members (suc f) first ts =
        let more = skip_comma first ts >>= skip 0x22 >>= read_chars plain >>= λ k.
        skip 0x3A k.1 >>= read_value f >>= λ x.
        read_members f false x.1 >>= λ y. some (member k.0 x.0 y.0, y.1) in
        if starts 0x7D ts then some (no_members, after_first ts) else more

  pub read_value_scalar :
      (f : ℕ) (t r : Bytes) (v : Var)
      → IsScalarText t
      → Ends r
      → scalar t ≡ some v
      → read_value (suc f) (t ++ r) ≡ some (v, r)
  unfolding read_value read_token
  read_value_scalar f [] r v h e s = absurd h
  read_value_scalar f (c ∷ t) r v (a, b, d, n, u) e s =
      rw (==_false a, ==_false b, ==_false d, span-append (c ∷ t) r n e, u, s) refl

  read_token_null :
      (t r : Bytes)
      → NoEnd t
      → Ends r
      → str_eq t (text "null") ≡ true
      → read_token (t ++ r) ≡ some (empty, r)
  unfolding read_token
  read_token_null t r n e u = rw (span-append t r n e, u) refl

  pub read_value_null :
      (f : ℕ) (r : Bytes) → Ends r → read_value (suc f) (text "null" ++ r) ≡ some (empty, r)
  unfolding read_value
  read_value_null f r e =
      read_token_null (text "null") r (refl, (refl, (refl, (refl, tt)))) e
        (str_eq_refl (text "null"))
