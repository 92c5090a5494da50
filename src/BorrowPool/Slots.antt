-- ===== src/BorrowPool/Slots.antt =====
-- The marks of the slots, and how many of them are set.
use cppapiframework.Common.{
  ℕ, zero, suc, ◌+◌, ◌≤◌, ◌<◌, ◌≡◌, ◌≢◌, refl, ap, ◌⊎◌, inl, inr, Bool, true, false, Option, none,
  some, List, [], ◌∷◌, arith, if◌then◌else◌, length, get_elem?, set, replicate, dec_eq,
}
use cppapiframework.BorrowPool.{compare_exchange, scan}

abbrev pub count_true : List Bool → ℕ
count_true [] = 0
count_true (b ∷ bs) = if b then suc (count_true bs) else count_true bs

pub count_true-le : (bs : List Bool) → count_true bs ≤ length bs
count_true-le [] = omega arith
count_true-le (b ∷ bs) = ground (arith, count_true-le bs)

pub count_true-replicate : (n : ℕ) → count_true (replicate n false) ≡ 0
count_true-replicate zero = refl
count_true-replicate (suc n) = count_true-replicate n

pub count_true-set :
    (bs : List Bool) (i : ℕ) (b c : Bool)
    → get_elem? bs i ≡ some b
    → count_true (set bs i c) + (if b then 1 else 0) ≡ count_true bs + (if c then 1 else 0)
count_true-set [] i b c h = ground arith
count_true-set (x ∷ bs) zero b c h = ground arith
count_true-set (x ∷ bs) (suc i) b c h = ground (arith, count_true-set bs i b c h)

pub get_elem?-lt : (bs : List Bool) (i : ℕ) (b : Bool) → get_elem? bs i ≡ some b → i < length bs
get_elem?-lt [] i b h = ground arith
get_elem?-lt (x ∷ bs) zero b h = omega arith
get_elem?-lt (x ∷ bs) (suc i) b h = omega (arith, get_elem?-lt bs i b h)

-- The exchange succeeds on a free slot only, and marks it.
abbrev pub Exchanges : List Bool → ℕ → Option (List Bool) → Type 0
Exchanges bs i none = (get_elem? bs i ≡ some true) ⊎ (get_elem? bs i ≡ none)
Exchanges bs i (some cs) = (get_elem? bs i ≡ some false) × (cs ≡ set bs i true)

pub compare_exchange-Exchanges : (bs : List Bool) (i : ℕ) → Exchanges bs i (compare_exchange bs i)
unfolding compare_exchange
compare_exchange-Exchanges bs i = ground arith

-- The scan finds a free slot at or behind its start, or none is free in its range.
abbrev pub Scans : ℕ → ℕ → List Bool → Option (ℕ × List Bool) → Type 0
Scans k i bs none = (j : ℕ) → i ≤ j → j < i + k → get_elem? bs j ≢ some false
Scans k i bs (some (j, cs)) = (i ≤ j) × (get_elem? bs j ≡ some false) × (cs ≡ set bs j true)

pub scan-Scans : (k i : ℕ) (bs : List Bool) → Scans k i bs (scan k i bs)
unfolding scan
scan-Scans zero i bs = λ j h l. absurd (omega arith)
scan-Scans (suc k) i bs =
    step (compare_exchange bs i) (compare_exchange-Exchanges bs i) (scan k (suc i) bs)
      (scan-Scans k (suc i) bs)
  where
    step :
        (o : Option (List Bool))
        → Exchanges bs i o
        → (r : Option (ℕ × List Bool)) → Scans k (suc i) bs r
        → Scans (suc k) i bs (elim o [ some cs ↦ some (i, cs) | none ↦ r ])
    step (some cs) e r s = (omega arith, e.0, e.1)
    step none e (some (j, cs)) s = (omega arith, s.1, s.2)
    step none e none s = λ j h l. elim (dec_eq i j) [
      | inl p ↦ λ f. ground arith
      | inr p ↦ s j (omega arith) (omega arith)
    ]

pub count_true_full :
    (bs : List Bool)
    → ((j : ℕ) → j < length bs → get_elem? bs j ≢ some false)
    → count_true bs ≡ length bs
count_true_full [] h = refl
count_true_full (true ∷ bs) h = ap suc (count_true_full bs (λ j l. h (suc j) (omega arith)))
count_true_full (false ∷ bs) h = absurd (h 0 (omega arith) refl)

-- A scan of all slots fails only if all are lent.
abbrev pub Finds : List Bool → Option (ℕ × List Bool) → Type 0
Finds bs none = count_true bs ≡ length bs
Finds bs (some (j, cs)) = (get_elem? bs j ≡ some false) × (j < length bs) × (cs ≡ set bs j true)

pub scan-Finds : (bs : List Bool) → Finds bs (scan (length bs) 0 bs)
scan-Finds bs = of_scan (scan (length bs) 0 bs) (scan-Scans (length bs) 0 bs)
  where
    of_scan : (o : Option (ℕ × List Bool)) → Scans (length bs) 0 bs o → Finds bs o
    of_scan none s = count_true_full bs (λ j l. s j (omega arith) (omega arith))
    of_scan (some (j, cs)) s = (s.1, get_elem?-lt bs j false s.1, s.2)

-- To clear a mark and to set it again changes nothing.
pub set_back :
    (bs : List Bool) (i : ℕ) → get_elem? bs i ≡ some true → set (set bs i false) i true ≡ bs
set_back [] i h = refl
set_back (b ∷ bs) zero h = ground arith
set_back (b ∷ bs) (suc i) h = ap (◌∷◌ b) (set_back bs i h)
