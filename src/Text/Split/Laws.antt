-- ===== src/Text/Split/Laws.antt =====
-- What explode and join make of each other's results.
use cppapiframework.Common.{
  ℕ, zero, suc, ◌+◌, ◌-◌, ◌<◌, ◌≤◌, ◌≡◌, ◌≢◌, refl, sym, ap, ◌∙◌, ◌⊎◌, inl, inr, Bool, true, false,
  Option, none, some, List, [], ◌∷◌, ◌++◌, if◌then◌else◌, arith, Bytes, is_empty, length, take,
  drop, length-append, take-append,
}
use mathlib.Core.List.{append_assoc, append-nil}
use cppapiframework.Text.Split.{find, explode_loop, explode, split, join_all, join}
use cppapiframework.Text.Split.Finding.{CutAt, find-CutAt, Clear, find-Clear}

-- One turn of the loop, whichever way find ends.
abbrev turn : ℕ → Bytes → Bytes → Option ℕ → List Bytes
turn turns s term none = s ∷ []
turn turns s term (some sep) =
    take sep s
    ∷ (if is_empty (drop (sep + length term) s)
        then []
        else explode_loop turns (drop (sep + length term) s) term)

explode_loop-turn :
    (turns : ℕ) (s term : Bytes) → explode_loop (suc turns) s term ≡ turn turns s term (find s term)
unfolding explode_loop
explode_loop-turn turns s term = go (find s term)
  where
    go :
        (o : Option ℕ)
        → elim o as (λ _. List Bytes) [
          | none ↦ s ∷ []
          | some sep ↦
              take sep s
              ∷ (if is_empty (drop (sep + length term) s)
                  then []
                  else explode_loop turns (drop (sep + length term) s) term)
        ]
          ≡ turn turns s term o
    go none = refl
    go (some sep) = refl

-- The text that the pieces come from: joined, each with a separator behind it, they are the text
-- or the text with one separator more.
Joins : Bytes → Bytes → List Bytes → Type 0
Joins s term vec = (w : Bytes) × (join_all vec term ≡ w ++ term) × ((w ≡ s) ⊎ (w ++ term ≡ s))

rest-Joins :
    (a term w r : Bytes)
    → (w ≡ r) ⊎ (w ++ term ≡ r)
    → ((a ++ term) ++ w ≡ a ++ (term ++ r)) ⊎ (((a ++ term) ++ w) ++ term ≡ a ++ (term ++ r))
rest-Joins a term w r (inl e) = inl (append_assoc a term w ∙ ap (λ x. a ++ (term ++ x)) e)
rest-Joins a term w r (inr e) = inr (
    append_assoc (a ++ term) w term
    ∙ append_assoc a term (w ++ term)
    ∙ ap (λ x. a ++ (term ++ x)) e)

cut-Joins :
    (turns : ℕ) (a term r s : Bytes)
    → s ≡ a ++ (term ++ r)
    → (is_empty r ≡ false → Joins r term (explode_loop turns r term))
    → Joins s term (a ∷ (if is_empty r then [] else explode_loop turns r term))
unfolding join_all Joins
cut-Joins turns a term [] s c h =
    (a, append-nil (a ++ term), inr (sym (c ∙ ap (λ x. a ++ x) (append-nil term))))
cut-Joins turns a term (x ∷ r) s c h =
    let (w, e, d) = h refl in
    (
      (a ++ term) ++ w,
      ap (λ y. (a ++ term) ++ y) e ∙ sym (append_assoc (a ++ term) w term),
      rw c (rest-Joins a term w (x ∷ r) d),
    )

turn-Joins :
    (turns : ℕ) (s term : Bytes) (o : Option ℕ)
    → CutAt s term o
    → ((r : Bytes)
        → length r < length s
        → is_empty r ≡ false
        → Joins r term (explode_loop turns r term))
    → length term ≢ 0
    → Joins s term (turn turns s term o)
unfolding join_all Joins
turn-Joins turns s term none c h t = (s, append-nil (s ++ term), inl refl)
turn-Joins turns s term (some sep) c h t =
    cut-Joins turns (take sep s) term (drop (sep + length term) s) s c (
      h (drop (sep + length term) s) (
        omega (
          arith,
          ap length c,
          length-append (take sep s) (term ++ drop (sep + length term) s),
          length-append term (drop (sep + length term) s),
        )))

explode_loop-Joins :
    (turns : ℕ) (s term : Bytes)
    → length s ≤ turns
    → is_empty s ≡ false
    → length term ≢ 0
    → Joins s term (explode_loop turns s term)
explode_loop-Joins zero [] term l e t = ground arith
explode_loop-Joins zero (c ∷ s) term l e t = absurd (omega arith)
explode_loop-Joins (suc turns) s term l e t = rw (explode_loop-turn turns s term) (
    turn-Joins turns s term (find s term) (find-CutAt s term)
      (λ r k e'. explode_loop-Joins turns r term (omega arith) e' t) t)

not_empty : (xs : Bytes) → length xs ≢ 0 → is_empty xs ≡ false
not_empty [] h = absurd (h refl)
not_empty (x ∷ xs) h = refl

-- join erases the separator behind the last piece.
join-erases :
    (w term : Bytes) (vec : List Bytes)
    → length term ≢ 0
    → join_all vec term ≡ w ++ term
    → join vec term ≡ w
unfolding join
join-erases w term vec t e =
    rw (e, not_empty (w ++ term) longer, not_empty term t, kept) (take-append w term)
  where
    longer : length (w ++ term) ≢ 0
    longer = omega (arith, length-append w term)

    kept : length (w ++ term) - length term ≡ length w
    kept = omega (arith, length-append w term)

join-Joins :
    (s term : Bytes) (vec : List Bytes)
    → length term ≢ 0
    → Joins s term vec
    → (join vec term ≡ s) ⊎ (join vec term ++ term ≡ s)
unfolding Joins
join-Joins s term vec t (w, e, d) = rw (join-erases w term vec t e) d

-- Joining what explode has cut gives the text back, or the text without a separator at its end.
pub join-explode :
    (s term : Bytes) → (join (explode s term) term ≡ s) ⊎ (join (explode s term) term ++ term ≡ s)
unfolding explode join join_all
join-explode [] term = inl refl
join-explode (c ∷ s) [] = inl (append-nil (c ∷ s ++ []) ∙ append-nil (c ∷ s))
join-explode (c ∷ s) (p ∷ ps) =
    join-Joins (c ∷ s) (p ∷ ps) _ (omega arith)
      (explode_loop-Joins (length (c ∷ s)) (c ∷ s) (p ∷ ps) (omega arith) refl (omega arith))

-- A piece holds no separator.
abbrev pub AllClear : Bytes → List Bytes → Type 0
AllClear term [] = Unit {0}
AllClear term (piece ∷ vec) = (find piece term ≡ none) × AllClear term vec

turn-AllClear :
    (turns : ℕ) (s term : Bytes) (o : Option ℕ)
    → find s term ≡ o
    → Clear s term o
    → ((r : Bytes) → AllClear term (explode_loop turns r term))
    → AllClear term (turn turns s term o)
turn-AllClear turns s term none e k h = (k, tt)
turn-AllClear turns s term (some sep) e k h = (k, rest (is_empty (drop (sep + length term) s)))
  where
    rest :
        (b : Bool)
        → AllClear term (if b then [] else explode_loop turns (drop (sep + length term) s) term)
    rest true = tt
    rest false = h (drop (sep + length term) s)

explode_loop-AllClear :
    (turns : ℕ) (s term : Bytes) → is_empty term ≡ false → AllClear term (explode_loop turns s term)
unfolding explode_loop
explode_loop-AllClear zero s term t = tt
explode_loop-AllClear (suc turns) s term t = rw (explode_loop-turn turns s term) (
    turn-AllClear turns s term (find s term) refl (find-Clear s term t)
      λ r. explode_loop-AllClear turns r term t)

-- No piece that explode gives holds the separator, if the separator is not empty.
pub explode-AllClear : (s term : Bytes) → is_empty term ≡ false → AllClear term (explode s term)
unfolding explode
explode-AllClear [] term t = tt
explode-AllClear (c ∷ s) [] t = ground arith
explode-AllClear (c ∷ s) (p ∷ ps) t = explode_loop-AllClear (length (c ∷ s)) (c ∷ s) (p ∷ ps) t

-- split is explode.
pub split-explode : (s term : Bytes) → split s term ≡ explode s term
unfolding split explode
split-explode s term = refl
