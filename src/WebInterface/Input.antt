-- ===== src/WebInterface/Input.antt =====
-- src/WebInterface/CController.cpp: the JSON input of a request and the check of its hash, with
-- src/utils/Validator.hpp.
pub mod Verdicts
pub mod Answers
pub mod Accepted
use cppapiframework.Common.{
  ℕ, Bool, true, false, not, ◌&&◌, Option, none, some, List, [], ◌∷◌, ◌++◌, ltb, length,
  if◌then◌else◌, Bytes, text, str_eq,
}
use cppapiframework.Common.Outcome.{Outcome, ok, thrown}
use cppapiframework.Json.{
  Var, object, empty, boolean, string, Members, no_members, member, has, get, set_member, Poco,
}
use cppapiframework.Json.Stringify.{Options}
use cppapiframework.WebInterface.Hash.{Digests, hash_json_cmp}
use cppapiframework.WebInterface.{
  Request, Fault, invalid, crypto, standard, what, Attempt, returned, raised, Step, give, raise,
  ◌>>=◌, catching, from_outcome, bad_request, return_poco_json, throw_json_http_exception,
}

-- The members of a controller.
pub record Controller : Type 0 where
  pub min_json_body_size : ℕ
  pub max_json_body_size : ℕ
  pub defaulthashfield : Bytes
  pub habilita_hash_input_json : Bool

abbrev pub new_controller : Controller
new_controller = record {
  min_json_body_size = 0;
  max_json_body_size = 4096;
  defaulthashfield = text "_hash";
  habilita_hash_input_json = false;
}

unfoldable pub enable_input_hash_check : Bool → Controller → Controller
enable_input_hash_check enable c = record c { habilita_hash_input_json = enable }

-- ValidatorException::to_json
unfoldable pub fault_to_json : Bytes → Members
fault_to_json msg =
    set_member (text "mensagem") (string msg)
      (set_member (text "sucesso") (boolean false) no_members)

-- Var::extract of a pointer to an object
unfoldable pub extract_object : Var → Outcome Members
extract_object (object ms) = ok ms
extract_object empty = thrown (text "Invalid access")
extract_object _ = thrown (text "Bad cast exception")

module _ (o : Options) (p : Poco) (d : Digests) where
  unfoldable pub parse_json_from_string : Bytes → Outcome Members
  unfolding extract_object
  parse_json_from_string str = elim (p.parse str) [ thrown e ↦ thrown e | ok v ↦ extract_object v ]

  unfoldable pub request_to_json : Request → ℕ → ℕ → Attempt Members
  unfolding parse_json_from_string
  request_to_json request minsize maxsize =
      if ltb (length request.body) minsize
      then raised (invalid (text "Input data is small than expected"))
      else if ltb maxsize (length request.body)
      then raised (invalid (text "Input data is larger than expected"))
      else from_outcome (parse_json_from_string request.body)

  -- The handlers of valida_hash_request.
  unfoldable pub refuse_hash : Fault → Step (Unit {0})
  refuse_hash (crypto msg) =
      throw_json_http_exception o p bad_request false
        (text "Houve um problema com ao testar a hash")
  refuse_hash (invalid msg) = throw_json_http_exception o p bad_request false msg
  refuse_hash (standard msg) = throw_json_http_exception o p bad_request false msg

  -- What the try block does with the comparison.
  unfoldable pub require_equal : Bool → Step (Unit {0})
  require_equal true = give tt
  require_equal false =
      throw_json_http_exception o p bad_request false (text "Hash dos dados é inválida")

  unfoldable pub require_field : Bytes → Members → Step (Unit {0})
  require_field field param =
      if has field param
      then give tt
      else throw_json_http_exception o p bad_request false
          (text "Campo de hash \"" ++ (field ++ text "\" não está presente no json"))

  unfoldable pub valida_hash_request : Controller → Members → Step Bool
  unfolding hash_json_cmp refuse_hash require_equal require_field
  valida_hash_request c param = do
    _ ← require_field c.defaulthashfield param
    _ ←
        catching
          (λ w. ((λ w'. (hash_json_cmp p d param c.defaulthashfield, w')) >>= require_equal) w)
          refuse_hash
    give true

  -- The try block of input_json.
  unfoldable pub read_input : Controller → Request → Step (Option Members)
  unfolding request_to_json valida_hash_request
  read_input c request = do
    inputdata ← (λ w. (request_to_json request c.min_json_body_size c.max_json_body_size, w))
    let checked : Step Bool = valida_hash_request c inputdata
    valid ← (if c.habilita_hash_input_json then checked else give true)
    give (if valid then some inputdata else none)

  -- Its handlers.
  unfoldable pub refuse_input : Fault → Step (Option Members)
  unfolding fault_to_json
  refuse_input (invalid msg) = do
    _ ← return_poco_json o p bad_request (fault_to_json msg)
    give none
  refuse_input (crypto msg) =
      throw_json_http_exception o p bad_request false (text "Falha de leitura do Json")
  refuse_input (standard msg) =
      throw_json_http_exception o p bad_request false (text "Falha de leitura do Json")

  unfoldable pub input_json : Controller → Request → Step (Option Members)
  unfolding read_input refuse_input
  input_json c request = catching (read_input c request) refuse_input
