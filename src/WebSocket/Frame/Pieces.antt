-- ===== src/WebSocket/Frame/Pieces.antt =====
-- How the stream is cut into pieces does not matter to receiveData.
use cppapiframework.Common.{ℕ, ◌≡◌, refl, List, [], ◌∷◌, ◌++◌, arith}
use cppapiframework.WebSocket.Frame.{
  Frame, Turn, uses, leaves, last, fails, turn, use_byte, Received, partial, complete, failed,
  receive_data, finish,
}

abbrev pub Moves : Turn → Type 0
Moves (leaves f) = ⊥
Moves _ = Unit {0}

-- The four turns that use_byte allows for are enough, whatever the frame is.
pub use_byte-Moves : (f : Frame) (b : ℕ) → Moves (use_byte 4 f b)
unfolding use_byte turn
use_byte-Moves f b = ground arith

-- What a second piece makes of the end of the first one.
abbrev pub then_piece : Received → List ℕ → Received
then_piece (partial f) ys = receive_data f ys
then_piece (complete f rest) ys = complete f (rest ++ ys)
then_piece failed ys = failed

-- The rest of receiveData behind a byte.
unfoldable pub from_turn : Turn → List ℕ → Received
from_turn (uses g) bs = receive_data g bs
from_turn (last g) bs = complete (finish g) bs
from_turn fails bs = failed
from_turn (leaves g) bs = failed

pub receive_data-cons :
    (f : Frame) (b : ℕ) (bs : List ℕ) → receive_data f (b ∷ bs) ≡ from_turn (use_byte 4 f b) bs
unfolding receive_data from_turn
receive_data-cons f b bs = go (use_byte 4 f b)
  where
    go :
        (t : Turn)
        → elim t as (λ _. Received) [
          | uses g ↦ receive_data g bs
          | last g ↦ complete (finish g) bs
          | fails ↦ failed
          | leaves g ↦ failed
        ]
          ≡ from_turn t bs
    go (uses g) = refl
    go (last g) = refl
    go fails = refl
    go (leaves g) = refl

from_turn-append :
    (t : Turn) (xs ys : List ℕ)
    → ((g : Frame) → receive_data g (xs ++ ys) ≡ then_piece (receive_data g xs) ys)
    → from_turn t (xs ++ ys) ≡ then_piece (from_turn t xs) ys
unfolding from_turn
from_turn-append (uses g) xs ys h = h g
from_turn-append (last g) xs ys h = refl
from_turn-append fails xs ys h = refl
from_turn-append (leaves g) xs ys h = refl

-- Reading two pieces one behind the other is reading them at once: the first one's end, the
-- frame's bytes and what is left behind the frame are the same.
pub receive_data-append :
    (f : Frame) (xs ys : List ℕ) → receive_data f (xs ++ ys) ≡ then_piece (receive_data f xs) ys
unfolding receive_data
receive_data-append f [] ys = refl
receive_data-append f (x ∷ xs) ys =
    rw (receive_data-cons f x (xs ++ ys), receive_data-cons f x xs)
      (from_turn-append (use_byte 4 f x) xs ys λ g. receive_data-append g xs ys)
