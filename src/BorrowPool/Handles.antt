-- ===== src/BorrowPool/Handles.antt =====
-- The handles: what the destructor, a move and `borrow` do to the pool.
use cppapiframework.Common.{
  ℕ, ◌≡◌, ◌≢◌, refl, sym, ◌⊎◌, inl, inr, true, false, Option, none, some, List, [], ◌∷◌, arith,
  get_elem?, get_elem?-set_self, get_elem?-set_ne, dec_eq, ==_iff, ==_false,
}
use cppapiframework.BorrowPool.{
  Pool, Handle, Wait, timeout, no_timeout, invalid_pos, get_valid_pos, disown_borrowed, destroy,
  move_assign, await, borrow, empty_handle,
}
use cppapiframework.BorrowPool.Laws.{IsValid, Grants, get_valid_pos-Grants, get_valid_pos-IsValid}

-- A handle that lends slot i.
abbrev pub Lends : Handle → ℕ → Type 0
Lends h i = (h.originpool ≡ true) × (h.bobject ≡ some i) × (h.pos ≡ i)

-- The target of a move lends what the source lent, and the source's destructor does nothing, so
-- the slot is given back once, by the target.
pub move_assign-destroy :
    (p : Pool) (h n : Handle) (i : ℕ)
    → Lends n i
    → let (target, source) = move_assign h n in
      Lends target i
      × (destroy p source ≡ p)
      × (destroy (destroy p source) target ≡ disown_borrowed p i)
unfolding move_assign destroy
move_assign-destroy p h n i l = ground arith

-- A move over a handle that lends another slot loses that slot: once both handles are destroyed,
-- it is marked as lent still, and nobody holds it.
pub move_assign_leaks :
    (p : Pool) (h n : Handle) (i j : ℕ)
    → Lends h i
    → Lends n j
    → i ≢ j
    → get_elem? p.bits i ≡ some true
    → let (target, source) = move_assign h n in
      get_elem? (destroy (destroy p source) target).bits i ≡ some true
unfolding move_assign destroy disown_borrowed
move_assign_leaks p h n i j lh ln ne e =
    ground (arith, get_elem?-set_ne p.bits j i false (λ q. ne (sym q)))

-- The waits end in well-formed pools only.
abbrev pub Woken : List Wait → Type 0
Woken [] = Unit {0}
Woken (timeout ∷ ws) = Woken ws
Woken (no_timeout q ∷ ws) = IsValid q × Woken ws

-- What `borrow` hands out: the empty handle, or one that lends a slot that is marked in the pool.
abbrev pub Lent : Option (Pool × Handle) → Type 0
Lent none = Unit {0}
Lent (some (q, h)) =
    IsValid q × ((h ≡ empty_handle) ⊎ ((i : ℕ) × Lends h i × (get_elem? q.bits i ≡ some true)))

Grants-marked :
    (p q : Pool) (pos : ℕ)
    → Grants p (q, pos)
    → pos ≢ invalid_pos
    → get_elem? q.bits pos ≡ some true
Grants-marked p q pos g ne = ground (arith, get_elem?-set_self p.bits pos true)

get_valid_pos_marked :
    (p : Pool)
    → IsValid p
    → (get_valid_pos p).1 ≢ invalid_pos
    → get_elem? (get_valid_pos p).0.bits (get_valid_pos p).1 ≡ some true
get_valid_pos_marked p v =
    Grants-marked p (get_valid_pos p).0 (get_valid_pos p).1 (get_valid_pos-Grants p v)

-- An answer of getValidPos: a well-formed pool, in which the position is marked if it is one.
abbrev Answer : Pool × ℕ → Type 0
Answer (p, pos) = IsValid p × (pos ≢ invalid_pos → get_elem? p.bits pos ≡ some true)

await-Lent :
    (ws : List Wait) (p : Pool) (pos : ℕ) → Woken ws → Answer (p, pos) → Lent (await ws (p, pos))
unfolding await
await-Lent [] p pos w (v, g) = elim (dec_eq pos invalid_pos) [
  | inl e ↦ rw ((==_iff _ _).1 e) tt
  | inr ne ↦ rw (==_false ne) (v, inr (pos, (refl, refl, refl), g ne))
]
await-Lent (timeout ∷ ws) p pos w (v, g) = elim (dec_eq pos invalid_pos) [
  | inl e ↦ rw ((==_iff _ _).1 e) (v, inl refl)
  | inr ne ↦ rw (==_false ne) (v, inr (pos, (refl, refl, refl), g ne))
]
await-Lent (no_timeout q ∷ ws) p pos (vq, w) (v, g) = elim (dec_eq pos invalid_pos) [
  | inl e ↦ rw ((==_iff _ _).1 e) (
      await-Lent ws (get_valid_pos q).0 (get_valid_pos q).1 w
        (get_valid_pos-IsValid q vq, get_valid_pos_marked q vq))
  | inr ne ↦ rw (==_false ne) (v, inr (pos, (refl, refl, refl), g ne))
]

-- However often the thread waits and whatever well-formed pools it wakes up to, `borrow`, if it is
-- over, hands out the empty handle or a slot that is marked as lent, and the pool is well-formed.
pub borrow-Lent : (p : Pool) (ws : List Wait) → IsValid p → Woken ws → Lent (borrow p ws)
unfolding borrow
borrow-Lent p ws v w =
    await-Lent ws (get_valid_pos p).0 (get_valid_pos p).1 w
      (get_valid_pos-IsValid p v, get_valid_pos_marked p v)
