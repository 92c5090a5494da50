-- ===== src/Common/Outcome.antt =====
-- A C++ call that may throw, and such calls on a state, which is kept as it is when one throws.
use mathlib.Core.Option.{Option, none, some}
use mathlib.Core.Logic.{◌⊎◌, inl, inr}
use mathlib.Core.Path.{◌≡◌, refl, ap}
use cppapiframework.Common.Text.{Bytes}

-- `thrown` carries what().
pub data Outcome {ℓ} (A : Type ℓ) : Type ℓ where
  ok : A → Outcome A
  thrown : Bytes → Outcome A

infixl 5 ◌>>=◌
abbrev pub ◌>>=◌ {ℓ κ} : {A : Type ℓ} {B : Type κ} → Outcome A → (A → Outcome B) → Outcome B
ok a >>= f = f a
thrown e >>= f = thrown e

-- `at` and the like: a missing value throws.
abbrev pub or_throw {ℓ} : {A : Type ℓ} → Bytes → Option A → Outcome A
or_throw e none = thrown e
or_throw e (some a) = ok a

abbrev ok_or {ℓ} : {A : Type ℓ} → A → Outcome A → A
ok_or d (ok a) = a
ok_or d (thrown e) = d

pub ok-injective {ℓ} : {A : Type ℓ} (a b : A) → ok a ≡ ok b → a ≡ b
ok-injective a b e = ap (ok_or a) e

abbrev what_or {ℓ} : {A : Type ℓ} → Bytes → Outcome A → Bytes
what_or d (ok a) = d
what_or d (thrown e) = e

pub thrown-injective {ℓ} :
    {A : Type ℓ} (e f : Bytes) → ◌≡◌ {A = Outcome A} (thrown e) (thrown f) → e ≡ f
thrown-injective e f p = ap (what_or e) p

-- A call after another returns only after that one has.
pub returns_both {ℓ κ} :
    {A : Type ℓ} {B : Type κ} (o : Outcome A) (f : A → Outcome B) (b : B)
    → (o >>= f) ≡ ok b
    → (a : A) × (o ≡ ok a) × (f a ≡ ok b)
returns_both (ok a) f b e = (a, refl, e)
returns_both (thrown t) f b e = cc

pub Outcome-cases {ℓ} :
    {A : Type ℓ} (o : Outcome A) → ((a : A) × (o ≡ ok a)) ⊎ ((e : Bytes) × (o ≡ thrown e))
Outcome-cases (ok a) = inl (a, refl)
Outcome-cases (thrown e) = inr (e, refl)
