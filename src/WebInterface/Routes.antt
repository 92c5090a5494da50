-- ===== src/WebInterface/Routes.antt =====
-- src/WebInterface/httpwrappers.hpp: responses by return, and the wrapper of a route's callback.
use cppapiframework.Common.{
  ℕ, ◌≡◌, refl, Bool, true, false, Option, none, some, [], ◌∷◌, ◌++◌, Bytes, text,
}
use cppapiframework.Common.Outcome.{ok}
use cppapiframework.WebInterface.{
  Request, Response, Writer, Fault, what, returned, raised, Step, give, ◌>>=◌, catching,
  from_outcome, json_return, send,
}

-- The status that the next response without one of its own has. The writer is threaded.
pub record Resp : Type 0 where
  pub route_status : ℕ

abbrev pub status_ok : ℕ
status_ok = 200

abbrev pub internal_server_error : ℕ
internal_server_error = 500

abbrev pub new_resp : Resp
new_resp = record { route_status = status_ok }

unfoldable pub status : ℕ → Resp → Resp
status code resp = record { route_status = code }

unfoldable pub send_body : Bytes → Bytes → Resp → Step Resp
send_body body mime resp = send resp.route_status body mime >>= λ u. give resp

unfoldable pub send_status : ℕ → Bytes → Bytes → Resp → Step Resp
send_status code body mime resp = send code body mime >>= λ u. give (record { route_status = code })

-- The classes of the file, and those of a program, by their sendResponse.
pub data ResponseViaReturn : Type 0 where
  exception_response : Bytes → ResponseViaReturn
  raw_string_response : Bytes → ℕ → Bytes → ResponseViaReturn
  other_response : (Request → Resp → Step (Unit {0})) → ResponseViaReturn

abbrev answer_exception : Bytes → Resp → Bool → Step (Unit {0})
answer_exception message resp true = do
  _ ← send_status internal_server_error (text "{\"message\": \"exception\"}") json_return resp
  give tt
answer_exception message resp false = do
  _ ← send_status internal_server_error message [] resp
  give tt

unfoldable pub send_response : ResponseViaReturn → Request → Resp → Step (Unit {0})
unfolding send_status
send_response (exception_response message) req resp =
    (λ w. (from_outcome req.get_accept, w)) >>= answer_exception message resp
send_response (raw_string_response body code mime) req resp = do
  _ ← send_status code body mime resp
  give tt
send_response (other_response f) req resp = f req resp

-- The callbacks of a route, `none` for an empty function. A callback that returns a response
-- returns one that is not null.
pub data Callback : Type 0 where
  via_return : Option (Request → Resp → Step ResponseViaReturn) → Callback
  not_via_return : Option (Request → Resp → Step (Unit {0})) → Callback

unfoldable pub call : Callback → Request → Resp → Step (Unit {0})
unfolding send_response
call (not_via_return none) req resp = give tt
call (not_via_return (some f)) req resp = f req resp
call (via_return none) req resp = give tt
call (via_return (some f)) req resp = f req resp >>= λ wrapper. send_response wrapper req resp

-- RouterWrapper's operator(), whose result is always Ok.
unfoldable pub handle_request : Callback → Request → Step (Unit {0})
unfolding call send_response
handle_request func request =
    catching (call func request new_resp)
      (λ e. send_response (exception_response (what e)) request new_resp)

-- An answer of code 500.
abbrev pub IsFailure : Response → Type 0
IsFailure r = r.code ≡ internal_server_error

-- If a callback raises an exception, in its body or while its response is sent, then one more
-- response goes out behind those that the callback had sent, it has the code 500, and the handler
-- returns, where the request's headers can be read.
pub handle_request-raised :
    (func : Callback) (request : Request) (w w' : Writer) (e : Fault) (accept : Bool)
    → call func request new_resp w ≡ (raised e, w')
    → request.get_accept ≡ ok accept
    → (r : Response) × (handle_request func request w
        ≡ (returned tt, record w' { sent = w'.sent ++ r ∷ [] }))
      × IsFailure r
unfolding handle_request send
handle_request-raised func request w w' e true h a = (
  record {
    code = internal_server_error;
    body = text "{\"message\": \"exception\"}";
    mime = json_return;
  },
  rw (h, a) refl,
  refl,
)
handle_request-raised func request w w' e false h a =
    (record { code = internal_server_error; body = what e; mime = [] }, rw (h, a) refl, refl)
