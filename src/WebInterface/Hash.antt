-- ===== src/WebInterface/Hash.antt =====
-- src/WebInterface/CController.cpp: the hash of a JSON object and its comparison.
use cppapiframework.Common.{
  ◌≡◌, Bool, true, [], ◌++◌, if◌then◌else◌, Bytes, text, str_eq, str_eq→eq, subst, sym,
}
use cppapiframework.Common.Outcome.{Outcome, ok, thrown, ◌>>=◌, returns_both}
use cppapiframework.Json.{Members, no_members, member, get, Poco}
use cppapiframework.WebInterface.{
  standard, Attempt, returned, raised, attempting, attempting-returned, from_outcome,
}

-- Poco's digest engine: its construction, which may throw, the digest of what the updates put
-- together, which may throw a CryptoException, and the reading of a digest from hexadecimal digits.
pub record Digests : Type 0 where
  pub new_engine : Attempt (Unit {0})
  pub sha512 : Bytes → Attempt Bytes
  pub digest_from_hex : Bytes → Outcome Bytes

module _ (p : Poco) (d : Digests) where
  -- The updates of the digest: the texts of the members but one, in their order.
  unfoldable pub hashed_text : Bytes → Members → Outcome Bytes
  hashed_text ignorefield no_members = ok []
  hashed_text ignorefield (member k v ms) =
      let rest = hashed_text ignorefield ms in
      let taken : Outcome Bytes = (p.to_text v >>= λ t. rest >>= λ ts. ok (t ++ ts)) in
      if str_eq k ignorefield then rest else taken

  unfoldable pub hash_json : Members → Bytes → Attempt Bytes
  unfolding hashed_text
  hash_json param ignorefield =
      attempting d.new_engine
        λ _. attempting (from_outcome (hashed_text ignorefield param)) d.sha512

  -- Whatever is thrown in its try block becomes a runtime_error.
  abbrev relabel : Bytes → Outcome Bytes → Attempt Bytes
  relabel hashfield (ok digest) = returned digest
  relabel hashfield (thrown e) =
      raised (standard (text "Houve um problema em identificar o formato do campo " ++ hashfield))

  unfoldable pub source_digest : Members → Bytes → Attempt Bytes
  source_digest param hashfield =
      relabel hashfield (p.to_text (get hashfield param) >>= d.digest_from_hex)

  unfoldable pub hash_json_cmp : Members → Bytes → Attempt Bool
  unfolding hash_json source_digest
  hash_json_cmp param hashfield =
      attempting (hash_json param hashfield) λ target.
        attempting (source_digest param hashfield) λ source. returned (str_eq target source)

  -- The field holds the digest of the texts of the other members.
  pub record HashMatches (hashfield : Bytes) (ms : Members) : Type 0 where
    pub others : Bytes
    pub digest : Bytes
    pub field_text : Bytes
    pub hashed : hashed_text hashfield ms ≡ ok others
    pub digested : d.sha512 others ≡ returned digest
    pub written : p.to_text (get hashfield ms) ≡ ok field_text
    pub decoded : d.digest_from_hex field_text ≡ ok digest

  from_outcome-returned : (r : Outcome Bytes) (a : Bytes) → from_outcome r ≡ returned a → r ≡ ok a
  from_outcome-returned (ok b) a e = cc
  from_outcome-returned (thrown x) a e = cc

  relabel-returned : (f a : Bytes) (r : Outcome Bytes) → relabel f r ≡ returned a → r ≡ ok a
  relabel-returned f a (ok b) e = cc
  relabel-returned f a (thrown x) e = cc

  pub hash_json_cmp-true :
      (hashfield : Bytes) (ms : Members)
      → hash_json_cmp ms hashfield ≡ returned true
      → HashMatches hashfield ms
  unfolding hash_json_cmp
  hash_json_cmp-true hashfield ms e =
      let (target, e1, e2) = attempting-returned (hash_json ms hashfield) _ true e in
      let (source, e3, e4) = attempting-returned (source_digest ms hashfield) _ true e2 in
      let (engine, made, e0) = attempting-returned d.new_engine _ target e1 in
      let (others, e5, e6) =
        attempting-returned (from_outcome (hashed_text hashfield ms)) d.sha512 target e0 in
      let (field_text, e7, e8) =
        returns_both (p.to_text (get hashfield ms)) d.digest_from_hex source
          (relabel-returned hashfield source _ e3) in
      record {
        others = others;
        digest = target;
        field_text = field_text;
        hashed = from_outcome-returned (hashed_text hashfield ms) others e5;
        digested = e6;
        written = e7;
        decoded =
            subst (λ s. d.digest_from_hex field_text ≡ ok s) (sym (str_eq→eq target source (cc e4)))
              e8;
      }
