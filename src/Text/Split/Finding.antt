-- ===== src/Text/Split/Finding.antt =====
-- Where find finds a separator, and where none is.
use cppapiframework.Common.{
  ℕ, zero, suc, ◌+◌, ◌≡◌, refl, ap, Bool, true, false, Option, none, some, [], ◌∷◌, ◌++◌,
  if◌then◌else◌, arith, Bytes, is_empty, starts_with, length, take, drop,
}
use cppapiframework.Text.Split.{find}

pub starts_with-drop :
    (s term : Bytes) → starts_with s term ≡ true → s ≡ term ++ drop (length term) s
unfolding starts_with
starts_with-drop s [] h = refl
starts_with-drop [] (p ∷ ps) h = ground arith
starts_with-drop (c ∷ s) (p ∷ ps) h = ground (arith, starts_with-drop s ps)

-- Where find finds, the text is cut in three.
abbrev pub CutAt : Bytes → Bytes → Option ℕ → Type 0
CutAt s term none = Unit {0}
CutAt s term (some n) = s ≡ take n s ++ (term ++ drop (n + length term) s)

abbrev pub next_place : Bool → Option ℕ → Option ℕ
next_place starts o = if starts then some 0 else elim o [ none ↦ none | some n ↦ some (suc n) ]

pub cut_step :
    (c : ℕ) (s term : Bytes) (b : Bool)
    → starts_with (c ∷ s) term ≡ b
    → (o : Option ℕ) → CutAt s term o
    → CutAt (c ∷ s) term (next_place b o)
cut_step c s term true h o k = rw (from_zero (length term)) (starts_with-drop (c ∷ s) term h)
  where
    from_zero : (k : ℕ) → 0 + k ≡ k
    from_zero k = omega arith
cut_step c s term false h none k = tt
cut_step c s term false h (some n) k = rw (shift n (length term)) (ap (◌∷◌ c) k)
  where
    shift : (n k : ℕ) → suc n + k ≡ suc (n + k)
    shift n k = omega arith

pub find-CutAt : (s term : Bytes) → CutAt s term (find s term)
unfolding find
find-CutAt [] [] = refl
find-CutAt [] (p ∷ ps) = tt
find-CutAt (c ∷ s) term =
    cut_step c s term (starts_with (c ∷ s) term) refl (find s term) (find-CutAt s term)

-- A separator does not occur in the text before the place where find finds it.
pub take-starts_with :
    (n : ℕ) (s term : Bytes) → starts_with s term ≡ false → starts_with (take n s) term ≡ false
unfolding starts_with
take-starts_with n s [] h = ground arith
take-starts_with zero s (p ∷ ps) h = refl
take-starts_with (suc n) [] (p ∷ ps) h = refl
take-starts_with (suc n) (c ∷ s) (p ∷ ps) h = ground (arith, take-starts_with n s ps)

abbrev pub Clear : Bytes → Bytes → Option ℕ → Type 0
Clear s term none = find s term ≡ none
Clear s term (some n) = find (take n s) term ≡ none

pub Clear-step :
    (c : ℕ) (s : Bytes) (p : ℕ) (ps : Bytes) (b : Bool)
    → starts_with (c ∷ s) (p ∷ ps) ≡ b
    → (o : Option ℕ) → find s (p ∷ ps) ≡ o
    → Clear s (p ∷ ps) o
    → Clear (c ∷ s) (p ∷ ps) (next_place b o)
unfolding find
Clear-step c s p ps true h o e k = refl
Clear-step c s p ps false h none e k = rw (h, e) refl
Clear-step c s p ps false h (some n) e k = rw (take-starts_with (suc n) (c ∷ s) (p ∷ ps) h, k) refl

pub find-Clear : (s term : Bytes) → is_empty term ≡ false → Clear s term (find s term)
unfolding find starts_with
find-Clear s [] h = ground arith
find-Clear [] (p ∷ ps) h = refl
find-Clear (c ∷ s) (p ∷ ps) h =
    Clear-step c s p ps (starts_with (c ∷ s) (p ∷ ps)) refl (find s (p ∷ ps)) refl
      (find-Clear s (p ∷ ps) h)
