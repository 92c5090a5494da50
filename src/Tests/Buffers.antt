-- ===== src/Tests/Buffers.antt =====
-- src/utils/CircleMTIO.hpp on a small buffer.
use cppapiframework.Common.{◌≡◌, ◌<◌, refl, some, none, [], ◌∷◌, arith}
use cppapiframework.Circle.{
  Circle, init, take_element, start_over, new_write, next, set_free, set_ready, write, read, free,
  ready, call, run,
}
use cppapiframework.Circle.Exclusion.{Avoids, run-Avoids}

-- A full buffer whose reading point is where the next write would go gives nothing to a reader
-- until a write has failed.
test_full :
    (run 2
      (write
        ∷ ready 0
        ∷ write
        ∷ ready 1
        ∷ read
        ∷ free 0
        ∷ write
        ∷ ready 0
        ∷ read
        ∷ write
        ∷ read
        ∷ [])
      (init 2)).0
    ≡ some 0 ∷ none ∷ some 1 ∷ none ∷ some 0 ∷ none ∷ some 0 ∷ none ∷ none ∷ none ∷ some 1 ∷ []
unfolding run call new_write take_element start_over next set_free set_ready init
test_full = refl

abbrev one_written : Circle
one_written = record { elements_state = 1 ∷ 0 ∷ []; reading_point = 0; writing_point = 1 }

first_write : new_write 2 (run 2 [] (init 2)).1 ≡ (some 0, one_written)
unfolding run new_write take_element init
first_write = refl

run-Avoids_example : (0 < 2) × Avoids 0 (run 2 (write ∷ read ∷ write ∷ write ∷ []) one_written).0
run-Avoids_example =
    run-Avoids 2 [] (write ∷ read ∷ write ∷ write ∷ []) 0 one_written (omega arith) (omega arith)
      first_write tt
