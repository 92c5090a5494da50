-- ===== src/Circle.antt =====
-- src/utils/CircleMTIO.hpp: the circular buffer, each call run without another between its steps.
-- Pointers are the places of the elements, which the calls themselves do not read.
pub mod Laws
pub mod Exclusion
use cppapiframework.Common.{
  ℕ, ◌+◌, ◌%◌, ◌^◌, Bool, Option, none, some, List, [], ◌∷◌, ◌==◌, leb, if◌then◌else◌, get_or, set,
  replicate, length,
}

-- A state is 0 for free, 1 for being written and 2 for ready.
pub record Circle : Type 0 where
  pub elements_state : List ℕ
  pub reading_point : ℕ
  pub writing_point : ℕ

unfoldable pub init : ℕ → Circle
init num = record { elements_state = replicate num 0; reading_point = 0; writing_point = 0 }

-- The end of new_write. A place out of the array would be undefined behaviour: it counts as taken.
unfoldable pub take_element : ℕ → Circle → Option ℕ × Circle
take_element a c =
    if get_or c.elements_state a 1 == 0
    then (some a, record c { elements_state = set c.elements_state a 1 })
    else (none, c)

-- fetch_add(1) on the writing point
abbrev pub advanced : Circle → Circle
advanced c = record c { writing_point = (c.writing_point + 1) % 2 ^ 64 }

-- The part of new_write under the lock, and what follows.
unfoldable pub start_over : ℕ → Circle → Option ℕ × Circle
unfolding take_element
start_over num c =
    if leb num c.writing_point
    then take_element 0 (record c { writing_point = 1 })
    else take_element c.writing_point (advanced c)

unfoldable pub new_write : ℕ → Circle → Option ℕ × Circle
unfolding take_element start_over
new_write num c =
    if leb num c.writing_point
    then start_over num (advanced c)
    else take_element c.writing_point (advanced c)

unfoldable pub next : ℕ → Circle → Option ℕ × Circle
next num c =
    if get_or c.elements_state c.reading_point 1 == 2
    then (if c.reading_point == c.writing_point then (none, c) else (
      some c.reading_point,
      record c { reading_point = if leb num (c.reading_point + 1) then 0 else c.reading_point + 1 },
    ))
    else (none, c)

unfoldable pub set_free : ℕ → Circle → Circle
set_free a c = record c { elements_state = set c.elements_state a 0 }

unfoldable pub set_ready : ℕ → Circle → Circle
set_ready a c = record c { elements_state = set c.elements_state a 2 }

-- The calls of a program, one after the other, and the places they are given.
pub data Call : Type 0 where
  write read : Call
  free ready : ℕ → Call

unfoldable pub call : ℕ → Call → Circle → Option ℕ × Circle
unfolding new_write next set_free set_ready
call num write c = new_write num c
call num read c = next num c
call num (free a) c = (none, set_free a c)
call num (ready a) c = (none, set_ready a c)

unfoldable pub run : ℕ → List Call → Circle → List (Option ℕ) × Circle
unfolding call
run num [] c = ([], c)
run num (k ∷ calls) c =
    let r = call num k c in let rest = run num calls r.1 in (r.0 ∷ rest.0, rest.1)
