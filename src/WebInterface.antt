-- ===== src/WebInterface.antt =====
-- src/WebInterface/CController.cpp and src/WebInterface/httpwrappers.hpp: what the controllers'
-- functions have in common. Pistache's requests are records of what is asked of them; of a response
-- writer its MIME type and the responses that were handed to it are kept.
pub mod Address
pub mod Hash
pub mod Routes
pub mod Input
use cppapiframework.Common.{
  ℕ, ◌≡◌, refl, Bool, true, false, ◌||◌, Option, none, some, List, [], ◌∷◌, ◌++◌, if◌then◌else◌,
  is_empty, Bytes, text,
}
use cppapiframework.Common.Outcome.{Outcome, ok, thrown}
use cppapiframework.Json.{boolean, string, Members, no_members, Poco, object, set_member}
use cppapiframework.Json.Stringify.{Options, stringify}

-- The media types of an Accept header are given by whether their subtype is HTML, and `get_accept`
-- is the call headers().get("Accept"): whether there is a header, or an exception.
pub record Request : Type 0 where
  pub body : Bytes
  pub raw_header : Bytes → Outcome Bytes
  pub host : Bytes
  pub port : ℕ
  pub authorization : Option Bytes
  pub accept : Option (List Bool)
  pub get_accept : Outcome Bool

pub record Response : Type 0 where
  pub code : ℕ
  pub body : Bytes
  pub mime : Bytes

pub record Writer : Type 0 where
  pub mime : Bytes
  pub sent : List Response

-- A ValidatorException, a CryptoException, and any other exception, by what().
pub data Fault : Type 0 where
  invalid crypto standard : Bytes → Fault

abbrev pub what : Fault → Bytes
what (invalid msg) = msg
what (crypto msg) = msg
what (standard msg) = msg

pub data Attempt (A : Type 0) : Type 0 where
  returned : A → Attempt A
  raised : Fault → Attempt A

abbrev pub Step : Type 0 → Type 0
Step A = Writer → Attempt A × Writer

abbrev pub give : {A : Type 0} → A → Step A
give a w = (returned a, w)

abbrev pub raise : {A : Type 0} → Fault → Step A
raise e w = (raised e, w)

abbrev after : {A B : Type 0} → (A → Step B) → Attempt A × Writer → Attempt B × Writer
after f (returned a, w) = f a w
after f (raised e, w) = (raised e, w)

infixl 5 ◌>>=◌
abbrev pub ◌>>=◌ : {A B : Type 0} → Step A → (A → Step B) → Step B
◌>>=◌ m f w = after f (m w)

abbrev handled : {A : Type 0} → (Fault → Step A) → Attempt A × Writer → Attempt A × Writer
handled f (returned a, w) = (returned a, w)
handled f (raised e, w) = f e w

-- try and catch
abbrev pub catching : {A : Type 0} → Step A → (Fault → Step A) → Step A
catching m f w = handled f (m w)

-- A call after another, where neither writes.
abbrev pub attempting : {A B : Type 0} → Attempt A → (A → Attempt B) → Attempt B
attempting (returned a) f = f a
attempting (raised e) f = raised e

pub attempting-returned :
    {A B : Type 0} (r : Attempt A) (f : A → Attempt B) (b : B)
    → attempting r f ≡ returned b
    → (a : A) × (r ≡ returned a) × (f a ≡ returned b)
attempting-returned (returned a) f b e = (a, refl, e)
attempting-returned (raised x) f b e = cc

-- A call that may throw an exception of the standard library or of Poco.
abbrev pub from_outcome : {A : Type 0} → Outcome A → Attempt A
from_outcome (ok a) = returned a
from_outcome (thrown e) = raised (standard e)

abbrev pub bad_request : ℕ
bad_request = 400

abbrev pub json_return : Bytes
json_return = text "application/json"

unfoldable pub send : ℕ → Bytes → Bytes → Step (Unit {0})
send code body mime w = (
  returned tt,
  record w { sent = w.sent ++ record { code = code; body = body; mime = mime } ∷ [] },
)

unfoldable pub set_mime : Bytes → Step (Unit {0})
set_mime mime w = (returned tt, record w { mime = mime })

unfoldable pub default_json_return : Bool → Bytes → Members
default_json_return success msg =
    set_member (text "mensagem") (string msg)
      (set_member (text "sucesso") (boolean success) no_members)

-- Poco's UUID stands by its text.
unfoldable pub default_json_return_uuid : Bool → Bytes → Bytes → Members
default_json_return_uuid success msg uuid = set_member (text "req_uuid") (string uuid) (
    set_member (text "mensagem") (string msg)
      (set_member (text "sucesso") (boolean success) no_members))

module _ (o : Options) (p : Poco) where
  unfoldable pub return_poco_json : ℕ → Members → Step (Unit {0})
  unfolding send
  return_poco_json code json =
      (λ w. (from_outcome (stringify o p (object json)), w)) >>= λ body. send code body json_return

  unfoldable pub throw_json_http_exception : {A : Type 0} → ℕ → Bool → Bytes → Step A
  unfolding set_mime return_poco_json default_json_return
  throw_json_http_exception code success msg = do
    _ ← set_mime json_return
    _ ← return_poco_json code (default_json_return success msg)
    raise (standard [])

  -- The rest of get_auth, by the value of the header.
  unfoldable pub check_auth : Option Bytes → Step (Option Bytes)
  unfolding return_poco_json default_json_return
  check_auth none = do
    _ ←
        return_poco_json bad_request
          (default_json_return false (text "Falta header Authorization com sua chave"))
    give none
  check_auth (some key) =
      let refused : Step (Option Bytes) = (do
        _ ←
            return_poco_json bad_request
              (default_json_return false (text "ID de acesso está vazio"))
        give none) in
      if is_empty key then refused else give (some key)

  unfoldable pub get_auth : Request → Step (Option Bytes)
  unfolding check_auth
  get_auth request = check_auth request.authorization

unfoldable pub any : List Bool → Bool
any [] = false
any (b ∷ bs) = b || any bs

unfoldable pub should_response_html : Request → Bool
unfolding any
should_response_html request = elim request.accept [ none ↦ true | some media ↦ any media ]
