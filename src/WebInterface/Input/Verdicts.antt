-- ===== src/WebInterface/Input/Verdicts.antt =====
-- What is to be said of the input of a request, and the responses that say it.
use cppapiframework.Common.{
  Bool, true, false, Option, none, some, List, [], ◌∷◌, ◌++◌, map, ltb, length, if◌then◌else◌,
  Bytes, text,
}
use cppapiframework.Common.Outcome.{Outcome, ok, thrown}
use cppapiframework.Json.{Members, has, Poco}
use cppapiframework.Json.Stringify.{Options, format_string}
use cppapiframework.WebInterface.{
  Request, Response, Writer, invalid, crypto, standard, Attempt, returned, raised, bad_request,
  json_return,
}
use cppapiframework.WebInterface.Hash.{Digests, hash_json_cmp}
use cppapiframework.WebInterface.Input.{Controller, parse_json_from_string}

-- What is to be said of an input.
pub data Verdict : Type 0 where
  accepted : Members → Verdict
  bad_size : Bytes → Verdict
  unreadable hash_missing hash_wrong digest_failed : Verdict
  hash_unread : Bytes → Verdict

abbrev pub hash_verdict : Members → Attempt Bool → Verdict
hash_verdict ms (returned true) = accepted ms
hash_verdict ms (returned false) = hash_wrong
hash_verdict ms (raised (crypto e)) = digest_failed
hash_verdict ms (raised (invalid e)) = hash_unread e
hash_verdict ms (raised (standard e)) = hash_unread e

-- By whether the check is enabled, whether the field is there, and the comparison.
abbrev pub object_verdict : Bool → Bool → Members → Attempt Bool → Verdict
object_verdict false present ms r = accepted ms
object_verdict true false ms r = hash_missing
object_verdict true true ms r = hash_verdict ms r

module _ (o : Options) (p : Poco) (d : Digests) (c : Controller) where
  abbrev pub read_verdict : Outcome Members → Verdict
  read_verdict (thrown e) = unreadable
  read_verdict (ok ms) =
      object_verdict c.habilita_hash_input_json (has c.defaulthashfield ms) ms
        (hash_json_cmp p d ms c.defaulthashfield)

  abbrev pub verdict : Request → Verdict
  verdict request =
      if ltb (length request.body) c.min_json_body_size
      then bad_size (text "Input data is small than expected")
      else if ltb c.max_json_body_size (length request.body)
      then bad_size (text "Input data is larger than expected")
      else read_verdict (parse_json_from_string o p d request.body)

abbrev pub falha : Bytes
falha = text "Falha de leitura do Json"

module _ (o : Options) where
  -- The response of code 400 that says `msg`.
  abbrev pub refusal : Bytes → Response
  refusal msg = record {
    code = bad_request;
    body =
        text "{"
        ++ ((format_string o (text "mensagem")
              ++ (text ":"
                  ++ (format_string o msg
                      ++ (text "," ++ (format_string o (text "sucesso") ++ text ":false")))))
            ++ text "}");
    mime = json_return;
  }

  -- The responses that go out, and the exception that follows.
  abbrev pub refused : {A : Type 0} → List Bytes → Writer → Attempt A × Writer
  refused msgs w =
      (raised (standard []), record { mime = json_return; sent = w.sent ++ map refusal msgs })

  abbrev pub answer : Controller → Verdict → Writer → Attempt (Option Members) × Writer
  answer c (accepted ms) w = (returned (some ms), w)
  answer c (bad_size msg) w = (returned none, record w { sent = w.sent ++ refusal msg ∷ [] })
  answer c unreadable w = refused (falha ∷ []) w
  answer c hash_missing w =
      refused
        ((text "Campo de hash \"" ++ (c.defaulthashfield ++ text "\" não está presente no json"))
          ∷ falha
          ∷ [])
        w
  answer c hash_wrong w = refused (text "Hash dos dados é inválida" ∷ [] ∷ falha ∷ []) w
  answer c digest_failed w = refused (text "Houve um problema com ao testar a hash" ∷ falha ∷ []) w
  answer c (hash_unread e) w = refused (e ∷ falha ∷ []) w
