-- ===== src/Text/Format.antt =====
-- src/utils/StrFormat.hpp: the substitution of the parameters of a format.
pub mod Pieces
use cppapiframework.Common.{
  ℕ, zero, suc, Bool, true, false, ◌||◌, Option, none, some, List, [], ◌∷◌, ◌++◌, ◌==◌, ltb, length,
  get_elem?, if◌then◌else◌, Bytes, text,
}
use cppapiframework.Common.Int.{ℤ}
use cppapiframework.Common.Outcome.{Outcome, ok, ◌>>=◌, or_throw}
use cppapiframework.Common.Decimal.{to_string_ℤ, stoull}
use cppapiframework.Json.{Members, Poco, object}
use cppapiframework.Json.Stringify.{Options, stringify}

-- What the constructors of argToString take: `chars` is a C string, a std::string or what() of an
-- exception, `json` a pointer to an object, and a floating point number stands by its text.
pub data Arg : Type 0 where
  boolean : Bool → Arg
  chars : Bytes → Arg
  json : Option Members → Arg
  number : ℤ → Arg
  floating : Bytes → Arg

unfoldable pub arg_to_string : Options → Poco → Arg → Outcome Bytes
arg_to_string o p (boolean b) = ok (if b then text "true" else text "false")
arg_to_string o p (chars s) = ok s
arg_to_string o p (json none) = ok (text "{NULL JSON}")
arg_to_string o p (json (some ms)) = stringify o p (object ms)
arg_to_string o p (number z) = ok (to_string_ℤ z)
arg_to_string o p (floating s) = ok s

-- The array `argl`.
unfoldable pub strings_of : Options → Poco → List Arg → Outcome (List Bytes)
unfolding arg_to_string
strings_of o p [] = ok []
strings_of o p (a ∷ args) = do s ← arg_to_string o p a; ss ← strings_of o p args; ok (s ∷ ss)

unfoldable pub get_numeric_from_string : Bytes → Bytes
get_numeric_from_string [] = []
get_numeric_from_string (c ∷ s) =
    if ltb c b'0' || ltb b'9' c then [] else c ∷ get_numeric_from_string s

-- The variables of the loop.
pub record Format : Type 0 where
  pub printbuf : Bytes
  pub ignore_next : Bool

abbrev pub put : Bytes → Format → Format
put s f = record f { printbuf = f.printbuf ++ s }

abbrev pub insert_chr : ℕ → Format → Format
insert_chr c f = record { printbuf = f.printbuf ++ c ∷ []; ignore_next = false }

-- What stands for the parameter of a number that is written as `numbuf`.
unfoldable pub parameter_text : List Bytes → Bytes → ℕ → Bytes
parameter_text argl numbuf arg_id = elim (get_elem? argl arg_id) [
  | none ↦ b'%' ∷ numbuf
  | some s ↦ s
]

-- Behind a `%` that is not ignored: the new state, and how many characters the loop passes over.
unfoldable pub substitute : List Bytes → Format → Bytes → Outcome (Format × ℕ)
unfolding parameter_text
substitute argl f [] = ok (f, 0)
substitute argl f (d ∷ numbuf) = or_throw (text "stoul") (stoull (d ∷ numbuf)) >>= λ arg_id.
    ok (put (parameter_text argl (d ∷ numbuf) arg_id) f, length (d ∷ numbuf))

-- One character, with the text behind it.
unfoldable pub format_chr : List Bytes → Format → ℕ → Bytes → Outcome (Format × ℕ)
unfolding substitute get_numeric_from_string
format_chr argl f c rest =
    if c == 0x5C
    then (if f.ignore_next then ok (insert_chr c f, 0) else ok (record f { ignore_next = true }, 0))
    else if c == b'%'
    then (if f.ignore_next
        then ok (insert_chr c f, 0)
        else substitute argl f (get_numeric_from_string rest))
    else ok (insert_chr c f, 0)

unfoldable pub format_loop : List Bytes → Format → ℕ → Bytes → Outcome Bytes
unfolding format_chr
format_loop argl f skip [] = ok f.printbuf
format_loop argl f (suc skip) (c ∷ rest) = format_loop argl f skip rest
format_loop argl f zero (c ∷ rest) = format_chr argl f c rest >>= λ r. format_loop argl r.0 r.1 rest

unfoldable pub multi_register : Options → Poco → Bytes → List Arg → Outcome Bytes
unfolding strings_of format_loop
multi_register o p format args = strings_of o p args >>= λ argl.
    format_loop argl (record { printbuf = []; ignore_next = false }) 0 format
