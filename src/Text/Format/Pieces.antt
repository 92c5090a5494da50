-- ===== src/Text/Format/Pieces.antt =====
-- A format that is written from plain text and parameters is filled in piece by piece.
use cppapiframework.Common.{
  ℕ, ◌<◌, ◌^◌, ◌≡◌, refl, ap, ◌∙◌, inl, inr, false, ◌||◌, some, List, [], ◌∷◌, ◌++◌, ◌==◌, length,
  if◌then◌else◌, arith, Bytes, Bool-cases,
}
use cppapiframework.Common.Outcome.{ok}
use cppapiframework.Common.Decimal.{
  is_digit, Digits, AllDigits, to_string, to_string-Digits, to_string-AllDigits, stoull,
  stoull-to_string,
}
use cppapiframework.Json.{Poco}
use cppapiframework.Json.Stringify.{Options}
use cppapiframework.Text.Format.{
  Arg, strings_of, get_numeric_from_string, Format, put, parameter_text, substitute, format_chr,
  format_loop, multi_register,
}
use mathlib.Core.List.{append_assoc, append-nil}

pub data Piece : Type 0 where
  plain : Bytes → Piece
  parameter : ℕ → Piece

-- A backslash stands before each backslash, each `%` and each digit.
unfoldable pub quoted : Bytes → Bytes
quoted [] = []
quoted (c ∷ s) =
    let rest = quoted s in
    if c == 0x5C || c == b'%' || is_digit c then 0x5C ∷ c ∷ rest else c ∷ rest

unfoldable pub written : List Piece → Bytes
unfolding quoted
written [] = []
written (plain s ∷ ps) = quoted s ++ written ps
written (parameter i ∷ ps) = b'%' ∷ (to_string i ++ written ps)

unfoldable pub filled : List Bytes → List Piece → Bytes
unfolding parameter_text
filled argl [] = []
filled argl (plain s ∷ ps) = s ++ filled argl ps
filled argl (parameter i ∷ ps) = parameter_text argl (to_string i) i ++ filled argl ps

-- The numbers fit size_t.
abbrev pub AllFit : List Piece → Type 0
AllFit [] = Unit {0}
AllFit (plain s ∷ ps) = AllFit ps
AllFit (parameter i ∷ ps) = (i < 2 ^ 64) × AllFit ps

abbrev NoDigit : Bytes → Type 0
NoDigit [] = Unit {0}
NoDigit (c ∷ s) = is_digit c ≡ false

abbrev printed : Bytes → Format
printed s = record { printbuf = s; ignore_next = false }

quoted-NoDigit : (s rest : Bytes) → NoDigit rest → NoDigit (quoted s ++ rest)
unfolding quoted
quoted-NoDigit [] rest h = h
quoted-NoDigit (c ∷ s) rest h = elim (Bool-cases (c == 0x5C || c == b'%' || is_digit c)) [
  | inl e ↦ rw e refl
  | inr e ↦ rw e (ground arith)
]

written-NoDigit : (ps : List Piece) → NoDigit (written ps)
unfolding written
written-NoDigit [] = tt
written-NoDigit (plain s ∷ ps) = quoted-NoDigit s (written ps) (written-NoDigit ps)
written-NoDigit (parameter i ∷ ps) = refl

numeric-stops : (rest : Bytes) → NoDigit rest → get_numeric_from_string rest ≡ []
unfolding get_numeric_from_string
numeric-stops [] h = refl
numeric-stops (c ∷ rest) h = ground arith

numeric-append :
    (ds rest : Bytes) → AllDigits ds → NoDigit rest → get_numeric_from_string (ds ++ rest) ≡ ds
unfolding get_numeric_from_string
numeric-append [] rest all h = numeric-stops rest h
numeric-append (d ∷ ds) rest all h = ground (arith, numeric-append ds rest all.2 h)

-- The digits that were read are passed over.
loop-skip :
    (argl : List Bytes) (f : Format) (ds rest : Bytes)
    → format_loop argl f (length ds) (ds ++ rest) ≡ format_loop argl f 0 rest
unfolding format_loop
loop-skip argl f [] rest = refl
loop-skip argl f (d ∷ ds) rest = loop-skip argl f ds rest

-- A character that was quoted, and one that need not be.
loop-chr :
    (argl : List Bytes) (s : Bytes) (c : ℕ) (rest : Bytes)
    → format_loop argl (printed s) 0 (quoted (c ∷ []) ++ rest)
      ≡ format_loop argl (printed (s ++ c ∷ [])) 0 rest
unfolding format_loop format_chr quoted
loop-chr argl s c rest = elim (Bool-cases (c == 0x5C || c == b'%' || is_digit c)) [
  | inl e ↦ rw e (ground arith)
  | inr e ↦ rw e (ground arith)
]

quoted-cons :
    (c : ℕ) (s rest : Bytes) → quoted (c ∷ s) ++ rest ≡ quoted (c ∷ []) ++ (quoted s ++ rest)
unfolding quoted
quoted-cons c s rest = elim (Bool-cases (c == 0x5C || c == b'%' || is_digit c)) [
  | inl e ↦ rw e refl
  | inr e ↦ rw e refl
]

loop-quoted :
    (argl : List Bytes) (t s rest : Bytes)
    → format_loop argl (printed t) 0 (quoted s ++ rest) ≡ format_loop argl (printed (t ++ s)) 0 rest
loop-quoted argl t [] rest = rw (append-nil t) (unfold quoted in refl)
loop-quoted argl t (c ∷ s) rest =
    ap (format_loop argl (printed t) 0) (quoted-cons c s rest)
    ∙ loop-chr argl t c (quoted s ++ rest)
    ∙ loop-quoted argl (t ++ c ∷ []) s rest
    ∙ ap (λ u. format_loop argl (printed u) 0 rest) (append_assoc t (c ∷ []) s)

substitute-to_string :
    (argl : List Bytes) (f : Format) (i : ℕ)
    → i < 2 ^ 64
    → substitute argl f (to_string i)
      ≡ ok (put (parameter_text argl (to_string i) i) f, length (to_string i))
substitute-to_string argl f i h =
    substitute_digits (to_string i) (to_string-Digits i) (stoull-to_string i h)
  where
    substitute_digits :
        (s : Bytes)
        → Digits s
        → stoull s ≡ some i
        → substitute argl f s ≡ ok (put (parameter_text argl s i) f, length s)
    substitute_digits [] d e = absurd d
    substitute_digits (c ∷ s) d e = unfold substitute in rw e refl

loop-parameter :
    (argl : List Bytes) (t : Bytes) (i : ℕ) (rest : Bytes)
    → i < 2 ^ 64
    → NoDigit rest
    → format_loop argl (printed t) 0 (b'%' ∷ (to_string i ++ rest))
      ≡ format_loop argl (printed (t ++ parameter_text argl (to_string i) i)) 0 rest
unfolding format_loop format_chr
loop-parameter argl t i rest h clear =
    rw
      (
        numeric-append (to_string i) rest (to_string-AllDigits i) clear,
        substitute-to_string argl (printed t) i h,
      )
      (loop-skip argl (put (parameter_text argl (to_string i) i) (printed t)) (to_string i) rest)

loop-written :
    (argl : List Bytes) (t : Bytes) (ps : List Piece)
    → AllFit ps
    → format_loop argl (printed t) 0 (written ps) ≡ ok (t ++ filled argl ps)
unfolding written filled
loop-written argl t [] all = unfold format_loop in rw (append-nil t) refl
loop-written argl t (plain s ∷ ps) all =
    loop-quoted argl t s (written ps)
    ∙ loop-written argl (t ++ s) ps all
    ∙ ap ok (append_assoc t s (filled argl ps))
loop-written argl t (parameter i ∷ ps) all =
    loop-parameter argl t i (written ps) all.0 (written-NoDigit ps)
    ∙ loop-written argl (t ++ parameter_text argl (to_string i) i) ps all.1
    ∙ ap ok (append_assoc t (parameter_text argl (to_string i) i) (filled argl ps))

-- For a format that is written from pieces, plain text with a backslash before each backslash, `%`
-- and digit, and parameters as `%` and their number below 2^64, multiRegister gives the pieces one
-- after the other: the plain text as it was, and for each parameter the text of the argument of
-- that number, or `%` and the number where there is no such argument.
pub multi_register-written :
    (o : Options) (p : Poco) (args : List Arg) (argl : List Bytes) (ps : List Piece)
    → strings_of o p args ≡ ok argl
    → AllFit ps
    → multi_register o p (written ps) args ≡ ok (filled argl ps)
unfolding multi_register
multi_register-written o p args argl ps e all = rw e (loop-written argl [] ps all)
