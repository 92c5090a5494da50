-- ===== src/WebInterface/Input/Accepted.antt =====
-- An object that input_json returns has passed every check, and nothing was sent on the way.
use cppapiframework.Common.{
  ◌≡◌, ◌≤◌, refl, sym, ap, subst, ◌∙◌, Bool, true, false, Option, some, ltb, length, Bytes, text,
  inl, inr, Bool-cases, arith,
}
use cppapiframework.Common.Outcome.{Outcome, ok, thrown}
use cppapiframework.Json.{boolean, Members, has, Poco}
use cppapiframework.Json.Stringify.{Options}
use cppapiframework.WebInterface.{
  Request, Writer, Attempt, returned, raised, crypto, invalid, standard,
}
use cppapiframework.WebInterface.Hash.{Digests, hash_json_cmp, HashMatches, hash_json_cmp-true}
use cppapiframework.WebInterface.Input.{Controller, parse_json_from_string, input_json}
use cppapiframework.WebInterface.Input.Verdicts.{
  Verdict, accepted, bad_size, unreadable, hash_missing, hash_wrong, digest_failed, hash_unread,
  hash_verdict, object_verdict, read_verdict, verdict, answer,
}
use cppapiframework.WebInterface.Input.Answers.{input_json-answer}

module _ (o : Options) (p : Poco) (d : Digests) (c : Controller) where
  pub record WasChecked (body : Bytes) (ms : Members) : Type 0 where
    pub size_fits : (c.min_json_body_size ≤ length body) × (length body ≤ c.max_json_body_size)
    pub parsed : parse_json_from_string o p d body ≡ ok ms
    pub present : has c.defaulthashfield ms ≡ true
    pub matches : HashMatches p d c.defaulthashfield ms

  abbrev result_or : Members → Attempt (Option Members) → Members
  result_or e (returned (some ms)) = ms
  result_or e _ = e

  answer-accepted :
      (v : Verdict) (w w' : Writer) (ms : Members)
      → answer o c v w ≡ (returned (some ms), w')
      → (v ≡ accepted ms) × (w ≡ w')
  answer-accepted (accepted ms') w w' ms e =
      (ap (λ r. accepted (result_or ms' r.0)) e, ap (λ r. r.1) e)
  answer-accepted (bad_size m) w w' ms e = cc
  answer-accepted unreadable w w' ms e = cc
  answer-accepted hash_missing w w' ms e = cc
  answer-accepted hash_wrong w w' ms e = cc
  answer-accepted digest_failed w w' ms e = cc
  answer-accepted (hash_unread m) w w' ms e = cc

  abbrev verdict_or : Members → Verdict → Members
  verdict_or e (accepted ms) = ms
  verdict_or e _ = e

  hash_verdict-accepted :
      (ms ms' : Members) (r : Attempt Bool)
      → hash_verdict ms r ≡ accepted ms'
      → (ms ≡ ms') × (r ≡ returned true)
  hash_verdict-accepted ms ms' (returned true) e = (ap (verdict_or ms) e, refl)
  hash_verdict-accepted ms ms' (returned false) e = cc
  hash_verdict-accepted ms ms' (raised (crypto m)) e = cc
  hash_verdict-accepted ms ms' (raised (invalid m)) e = cc
  hash_verdict-accepted ms ms' (raised (standard m)) e = cc

  object_verdict-accepted :
      (enabled present : Bool) (ms ms' : Members) (r : Attempt Bool)
      → object_verdict enabled present ms r ≡ accepted ms'
      → (ms ≡ ms') × (enabled ≡ true → (present ≡ true) × (r ≡ returned true))
  object_verdict-accepted false present ms ms' r e = (ap (verdict_or ms) e, λ on. cc)
  object_verdict-accepted true false ms ms' r e = cc
  object_verdict-accepted true true ms ms' r e =
      let h = hash_verdict-accepted ms ms' r e in (h.0, λ on. (refl, h.1))

  read_verdict-accepted :
      (t : Outcome Members) (ms : Members)
      → read_verdict o p d c t ≡ accepted ms
      → (t ≡ ok ms)
        × (c.habilita_hash_input_json ≡ true
            → (has c.defaulthashfield ms ≡ true) × HashMatches p d c.defaulthashfield ms)
  read_verdict-accepted (thrown x) ms e = cc
  read_verdict-accepted (ok ms') ms e =
      let (same, checks) =
        object_verdict-accepted c.habilita_hash_input_json (has c.defaulthashfield ms') ms' ms
          (hash_json_cmp p d ms' c.defaulthashfield) e in
      (
        ap ok same,
        λ on.
            subst (λ m. (has c.defaulthashfield m ≡ true) × HashMatches p d c.defaulthashfield m)
              same ((checks on).0, hash_json_cmp-true p d c.defaulthashfield ms' (checks on).1),
      )

  verdict-accepted :
      (request : Request) (ms : Members)
      → c.habilita_hash_input_json ≡ true
      → verdict o p d c request ≡ accepted ms
      → WasChecked request.body ms
  verdict-accepted request ms on e =
      elim (Bool-cases (ltb (length request.body) c.min_json_body_size)) [
        | inl small ↦ absurd (small_refused small)
        | inr enough ↦ elim (Bool-cases (ltb c.max_json_body_size (length request.body))) [
          | inl large ↦ absurd (large_refused enough large)
          | inr fits ↦
              let h =
                read_verdict-accepted (parse_json_from_string o p d request.body) ms
                  (rw (enough, fits) at e) in
              record {
                size_fits = (ground arith, ground arith);
                parsed = h.0;
                present = (h.1 on).0;
                matches = (h.1 on).1;
              }
        ]
      ]
    where
      small_refused : ltb (length request.body) c.min_json_body_size ≡ true → ⊥
      small_refused h = let e' = rw h at e in cc

      large_refused :
          ltb (length request.body) c.min_json_body_size ≡ false
          → ltb c.max_json_body_size (length request.body) ≡ true
          → ⊥
      large_refused h h' = let e' = rw (h, h') at e in cc

  -- With the check of the hash enabled, if input_json returns an object, nothing has been sent and
  -- the writer is as it was, the body's size lies in the controller's range, the object is what the
  -- body parses to, and the hash field is there and decodes to the digest of the texts of the other
  -- members.
  pub input_json-WasChecked :
      p.to_text (boolean false) ≡ ok (text "false")
      → c.habilita_hash_input_json ≡ true
      → (request : Request) (w w' : Writer) (ms : Members)
      → input_json o p d c request w ≡ (returned (some ms), w')
      → (w ≡ w') × WasChecked request.body ms
  input_json-WasChecked texts on request w w' ms e =
      let h =
        answer-accepted (verdict o p d c request) w w' ms
          (sym (input_json-answer o p d c texts request w) ∙ e) in
      (h.1, verdict-accepted request ms on h.0)
