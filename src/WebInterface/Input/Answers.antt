-- ===== src/WebInterface/Input/Answers.antt =====
-- What input_json returns, and what it has sent by then, for every input.
use cppapiframework.Common.{
  ◌≡◌, refl, sym, ap, ◌∙◌, Bool, true, false, Option, none, some, List, [], ◌∷◌, ◌++◌, map, ltb,
  length, if◌then◌else◌, Bytes, text, str_eq, inl, inr, Bool-cases,
}
use cppapiframework.Common.Outcome.{Outcome, ok, thrown}
use cppapiframework.Json.{boolean, Members, has, set_member, Poco}
use cppapiframework.Json.Stringify.{Options, stringify}
use cppapiframework.WebInterface.{
  Request, Writer, invalid, crypto, standard, Attempt, returned, raised, Step, give, ◌>>=◌,
  catching, from_outcome, bad_request, json_return, send, return_poco_json,
  throw_json_http_exception, default_json_return,
}
use cppapiframework.WebInterface.Hash.{Digests, hash_json_cmp}
use cppapiframework.WebInterface.Input.{
  Controller, parse_json_from_string, request_to_json, refuse_hash, require_equal, require_field,
  valida_hash_request, read_input, refuse_input, input_json, fault_to_json,
}
use mathlib.Core.List.{append_assoc, map-append}
use cppapiframework.WebInterface.Input.Verdicts.{
  bad_size, hash_verdict, object_verdict, read_verdict, verdict, refusal, refused, falha, answer,
}

module _ (o : Options) (p : Poco) (d : Digests) (c : Controller)
    (texts : p.to_text (boolean false) ≡ ok (text "false")) where
  refusal_lem :
      (msg : Bytes) (w : Writer)
      → return_poco_json o p bad_request (default_json_return false msg) w
        ≡ (returned tt, record w { sent = w.sent ++ refusal o msg ∷ [] })
  unfolding return_poco_json default_json_return send stringify set_member str_eq
  refusal_lem msg w = rw texts refl

  throw-refused :
      {A : Type 0} (msg : Bytes) (w : Writer)
      → throw_json_http_exception o p {A = A} bad_request false msg w ≡ refused o (msg ∷ []) w
  unfolding throw_json_http_exception
  throw-refused msg w = rw (refusal_lem msg (record w { mime = json_return })) refl

  -- One more refusal, by the handler of input_json.
  refuse_input-refused :
      (msgs : List Bytes) (w : Writer)
      → catching (refused o msgs) (refuse_input o p d) w ≡ refused o (msgs ++ falha ∷ []) w
  unfolding refuse_input
  refuse_input-refused msgs w =
      throw-refused falha (record { mime = json_return; sent = w.sent ++ map (refusal o) msgs })
      ∙ ap (λ l. (raised (standard []), record { mime = json_return; sent = l }))
          (append_assoc w.sent (map (refusal o) msgs) (refusal o falha ∷ [])
            ∙ ap (λ l. w.sent ++ l) (sym (map-append (refusal o) msgs (falha ∷ []))))

  -- valida_hash_request behind the test for the field, by what the comparison gave.
  abbrev hash_answer : Attempt Bool → Writer → Attempt Bool × Writer
  hash_answer (returned true) w = (returned true, w)
  hash_answer (returned false) w = refused o (text "Hash dos dados é inválida" ∷ [] ∷ []) w
  hash_answer (raised (crypto e)) w =
      refused o (text "Houve um problema com ao testar a hash" ∷ []) w
  hash_answer (raised (invalid e)) w = refused o (e ∷ []) w
  hash_answer (raised (standard e)) w = refused o (e ∷ []) w

  abbrev compared : Attempt Bool → Step Bool
  compared r = do
    _ ← catching (λ w. ((λ w'. (r, w')) >>= require_equal o p d) w) (refuse_hash o p d)
    give true

  compared-hash_answer : (r : Attempt Bool) (w : Writer) → compared r w ≡ hash_answer r w
  unfolding require_equal refuse_hash
  compared-hash_answer (returned true) w = refl
  compared-hash_answer (returned false) w =
      rw
        (
          throw-refused {A = Unit {0}} (text "Hash dos dados é inválida") w,
          throw-refused {A = Unit {0}} [] (record {
            mime = json_return;
            sent = w.sent ++ refusal o (text "Hash dos dados é inválida") ∷ [];
          }),
        )
        (ap (λ l. (raised (standard []), record { mime = json_return; sent = l }))
          (append_assoc w.sent (refusal o (text "Hash dos dados é inválida") ∷ [])
            (refusal o [] ∷ [])))
  compared-hash_answer (raised (crypto e)) w =
      rw (throw-refused {A = Unit {0}} (text "Houve um problema com ao testar a hash") w) refl
  compared-hash_answer (raised (invalid e)) w = rw (throw-refused {A = Unit {0}} e w) refl
  compared-hash_answer (raised (standard e)) w = rw (throw-refused {A = Unit {0}} e w) refl

  -- The rest of input_json behind the check.
  abbrev finished : Members → Step Bool → Step (Option Members)
  finished ms check =
      catching (check >>= λ valid. give (if valid then some ms else none)) (refuse_input o p d)

  finished-hash_answer :
      (ms : Members) (r : Attempt Bool) (w : Writer)
      → finished ms (hash_answer r) w ≡ answer o c (hash_verdict ms r) w
  finished-hash_answer ms (returned true) w = refl
  finished-hash_answer ms (returned false) w =
      refuse_input-refused (text "Hash dos dados é inválida" ∷ [] ∷ []) w
  finished-hash_answer ms (raised (crypto e)) w =
      refuse_input-refused (text "Houve um problema com ao testar a hash" ∷ []) w
  finished-hash_answer ms (raised (invalid e)) w = refuse_input-refused (e ∷ []) w
  finished-hash_answer ms (raised (standard e)) w = refuse_input-refused (e ∷ []) w

  valida_hash_request-present :
      (ms : Members) (w : Writer)
      → has c.defaulthashfield ms ≡ true
      → valida_hash_request o p d c ms w ≡ hash_answer (hash_json_cmp p d ms c.defaulthashfield) w
  unfolding valida_hash_request require_field
  valida_hash_request-present ms w h =
      rw h (compared-hash_answer (hash_json_cmp p d ms c.defaulthashfield) w)

  valida_hash_request-missing :
      (ms : Members) (w : Writer)
      → has c.defaulthashfield ms ≡ false
      → valida_hash_request o p d c ms w
        ≡ refused o
            ((text "Campo de hash \""
                ++ (c.defaulthashfield ++ text "\" não está presente no json"))
              ∷ [])
            w
  unfolding valida_hash_request require_field
  valida_hash_request-missing ms w h =
      rw
        (
          h,
          throw-refused {A = Unit {0}}
              (text "Campo de hash \""
                ++ (c.defaulthashfield ++ text "\" não está presente no json"))
              w,
        )
        refl

  abbrev check : Bool → Members → Step Bool
  check enabled ms = if enabled then valida_hash_request o p d c ms else give true

  -- input_json, by what request_to_json gave.
  abbrev reading : Attempt Members → Step (Option Members)
  reading t =
      catching
        ((λ w. (t, w)) >>= λ ms.
          check c.habilita_hash_input_json ms >>= λ valid. give (if valid then some ms else none))
        (refuse_input o p d)

  finished-check :
      (ms : Members) (enabled present : Bool) (w : Writer)
      → has c.defaulthashfield ms ≡ present
      → finished ms (check enabled ms) w
        ≡ answer o c (object_verdict enabled present ms (hash_json_cmp p d ms c.defaulthashfield)) w
  finished-check ms false present w h = refl
  finished-check ms true false w h = rw (valida_hash_request-missing ms w h) (
      refuse_input-refused
        ((text "Campo de hash \"" ++ (c.defaulthashfield ++ text "\" não está presente no json"))
          ∷ [])
        w)
  finished-check ms true true w h =
      rw (valida_hash_request-present ms w h)
        (finished-hash_answer ms (hash_json_cmp p d ms c.defaulthashfield) w)

  reading-outcome :
      (t : Outcome Members) (w : Writer)
      → reading (from_outcome t) w ≡ answer o c (read_verdict o p d c t) w
  unfolding refuse_input
  reading-outcome (ok ms) w =
      finished-check ms c.habilita_hash_input_json (has c.defaulthashfield ms) w refl
  reading-outcome (thrown e) w = throw-refused falha w

  reading-invalid :
      (msg : Bytes) (w : Writer) → reading (raised (invalid msg)) w ≡ answer o c (bad_size msg) w
  unfolding refuse_input fault_to_json default_json_return
  reading-invalid msg w = rw (refusal_lem msg w) refl

  reading-request :
      (request : Request) (w : Writer)
      → reading (request_to_json o p d request c.min_json_body_size c.max_json_body_size) w
        ≡ answer o c (verdict o p d c request) w
  unfolding request_to_json
  reading-request request w = elim (Bool-cases (ltb (length request.body) c.min_json_body_size)) [
    | inl small ↦ rw small (reading-invalid (text "Input data is small than expected") w)
    | inr enough ↦ elim (Bool-cases (ltb c.max_json_body_size (length request.body))) [
      | inl large ↦
          rw (enough, large) (reading-invalid (text "Input data is larger than expected") w)
      | inr fits ↦ rw (enough, fits) (reading-outcome (parse_json_from_string o p d request.body) w)
    ]
  ]

  -- What input_json returns and has sent, for every request. The verdict is on the size of the
  -- body, on its text, and, with the check enabled, on the hash field: an accepted object is
  -- returned and nothing is sent; a body of a wrong size gives one response and a null pointer;
  -- in all other cases an exception is thrown after one response for a text that is no object,
  -- two for a hash field that is missing or that could not be tested, and three for a wrong hash.
  pub input_json-answer :
      (request : Request) (w : Writer)
      → input_json o p d c request w ≡ answer o c (verdict o p d c request) w
  unfolding input_json read_input
  input_json-answer request w = reading-request request w
