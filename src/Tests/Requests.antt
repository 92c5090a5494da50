-- ===== src/Tests/Requests.antt =====
-- src/WebInterface/CController.cpp on small requests.
use cppapiframework.Common.{
  ◌≡◌, refl, true, false, some, none, [], ◌∷◌, ◌++◌, Bytes, text, if◌then◌else◌, str_eq, not, ◌&&◌,
  is_empty,
}
use cppapiframework.Common.Outcome.{Outcome, ok, thrown}
use cppapiframework.Common.Decimal.{to_string}
use cppapiframework.Json.{
  string, boolean, object, Members, no_members, member, Poco, find_member, get, has, set_member,
}
use cppapiframework.Json.Stringify.{Options, stringify, format_string, format_chars}
use cppapiframework.WebInterface.{
  raise, standard, Request, Writer, returned, send, return_poco_json, default_json_return,
  bad_request, json_return, get_auth, check_auth,
}
use cppapiframework.WebInterface.Routes.{
  not_via_return, internal_server_error, call, send_response, send_status, handle_request,
}
use cppapiframework.WebInterface.Address.{
  get_ip_host_from_request, looks_local, is_one_of, get_ip_host_from_request-looks_local,
}
use cppapiframework.WebInterface.Hash.{Digests, hashed_text, hash_json_cmp}
use cppapiframework.WebInterface.Input.{
  Controller, new_controller, extract_object, parse_json_from_string, request_to_json,
  require_equal, require_field, valida_hash_request, read_input, input_json,
}
use cppapiframework.WebInterface.Input.Verdicts.{accepted, hash_wrong, verdict, answer}
use cppapiframework.WebInterface.Input.Answers.{input_json-answer}
use cppapiframework.WebInterface.Input.Accepted.{WasChecked, input_json-WasChecked}

abbrev header : Bytes → Outcome Bytes
header name =
    if str_eq name (text "X-Real-IP") then ok (text "10.0.0.1") else thrown (text "no such header")

abbrev from : Bytes → Bytes → Request
from host body = record {
  body = body;
  raw_header = header;
  host = host;
  port = 5000;
  authorization = some [];
  accept = some (false ∷ true ∷ []);
  get_accept = ok true;
}

real_ip : header (text "X-Real-IP") ≡ ok (text "10.0.0.1")
unfolding str_eq
real_ip = refl

-- A peer at 203.0.113.9 is taken at its word.
test_address :
    (get_ip_host_from_request (from (text "203.0.113.9") []) ≡ (text "10.0.0.1", []))
    × (get_ip_host_from_request (from (text "8.8.8.8") []) ≡ (text "8.8.8.8:5000", []))
unfolding get_ip_host_from_request str_eq is_one_of to_string
test_address = (refl, refl)

get_ip_host_from_request-looks_local_example :
    (get_ip_host_from_request (from (text "203.0.113.9") [])).0 ≡ (
      if looks_local (text "203.0.113.9") && not (is_empty (text "10.0.0.1"))
      then text "10.0.0.1"
      else text "203.0.113.9" ++ (text ":" ++ to_string 5000))
get_ip_host_from_request-looks_local_example =
    get_ip_host_from_request-looks_local (from (text "203.0.113.9") []) (text "10.0.0.1") real_ip

abbrev options : Options
options = record { strict_json = true; escape_all_unicode = false; append_hex = λ n w. [] }

abbrev an_object : Bytes → Members
an_object digest =
    member (text "_hash") (string digest) (member (text "a") (string (text "xy")) no_members)

-- A parser that takes the whole text for the digest.
abbrev poco : Poco
poco = record {
  parse = λ s. ok (object (an_object s));
  to_text = λ v. elim v [
    | string s ↦ ok s
    | boolean b ↦ ok (if b then text "true" else text "false")
    | _ ↦ thrown (text "Invalid access")
  ];
  to_u64 = λ v. thrown (text "Bad cast");
  to_i64 = λ v. thrown (text "Bad cast");
}

abbrev digests : Digests
digests = record { new_engine = returned tt; sha512 = λ s. returned s; digest_from_hex = λ s. ok s }

abbrev controller : Controller
controller = record new_controller { habilita_hash_input_json = true }

abbrev fresh : Writer
fresh = record { mime = []; sent = [] }

test_verdicts :
    (verdict options poco digests controller (from [] (text "xy"))
      ≡ accepted (an_object (text "xy")))
    × (verdict options poco digests controller (from [] (text "xz")) ≡ hash_wrong)
unfolding parse_json_from_string extract_object has find_member hash_json_cmp hashed_text get str_eq
test_verdicts = (refl, refl)

input_json-answer_example :
    input_json options poco digests controller (from [] (text "xz")) fresh
    ≡ answer options controller
        (verdict options poco digests controller (from [] (text "xz")))
        fresh
input_json-answer_example =
    input_json-answer options poco digests controller refl (from [] (text "xz")) fresh

accepted_input :
    input_json options poco digests controller (from [] (text "xy")) fresh
    ≡ (returned (some (an_object (text "xy"))), fresh)
unfolding input_json read_input request_to_json parse_json_from_string extract_object
    valida_hash_request require_field require_equal has find_member hash_json_cmp hashed_text get
    str_eq
accepted_input = refl

input_json-WasChecked_example :
    (fresh ≡ fresh) × WasChecked options poco digests controller (text "xy") (an_object (text "xy"))
input_json-WasChecked_example =
    input_json-WasChecked options poco digests controller refl refl (from [] (text "xy")) fresh
      fresh (an_object (text "xy")) accepted_input

test_auth : get_auth options poco (from [] []) fresh ≡ (
  returned none,
  record fresh {
    sent =
        record {
          code = bad_request;
          body = text "{\"mensagem\":\"ID de acesso está vazio\",\"sucesso\":false}";
          mime = json_return;
        }
        ∷ [];
  },
)
unfolding get_auth check_auth return_poco_json send default_json_return set_member str_eq stringify
    format_string format_chars
test_auth = refl

-- A callback that throws is answered with code 500.
test_route :
    handle_request
      (not_via_return (some (λ req resp. raise (standard (text "boom")))))
      (from [] [])
      fresh
    ≡ (
      returned tt,
      record fresh {
        sent =
            record {
              code = internal_server_error;
              body = text "{\"message\": \"exception\"}";
              mime = json_return;
            }
            ∷ [];
      },
    )
unfolding handle_request call send_response send_status send
test_route = refl
