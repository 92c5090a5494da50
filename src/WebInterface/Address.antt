-- ===== src/WebInterface/Address.antt =====
-- src/WebInterface/CController.cpp: the address and the host that a request comes from.
use cppapiframework.Common.{
  ℕ, ◌+◌, ◌≡◌, refl, Bool, true, false, not, ◌&&◌, ◌||◌, Option, none, some, [], ◌∷◌, ◌++◌, ◌==◌,
  if◌then◌else◌, is_empty, Bytes, text, arith,
}
use cppapiframework.Common.Outcome.{Outcome, ok, thrown}
use cppapiframework.Common.Decimal.{to_string}
use cppapiframework.WebInterface.{Request}

-- An exception leaves the string empty.
abbrev header_or_empty : Outcome Bytes → Bytes
header_or_empty (ok s) = s
header_or_empty (thrown e) = []

unfoldable pub get_ip_host_from_header : Request → Bytes × Bytes
get_ip_host_from_header request = (
  header_or_empty (request.raw_header (text "X-Real-IP")),
  header_or_empty (request.raw_header (text "Host")),
)

unfoldable pub is_one_of : ℕ → Bytes → Bool
is_one_of c [] = false
is_one_of c (d ∷ chars) = c == d || is_one_of c chars

-- std::string::find_first_of, the place of the first character that is one of `chars`
unfoldable pub find_first_of : Bytes → Bytes → Option ℕ
unfolding is_one_of
find_first_of [] chars = none
find_first_of (c ∷ s) chars =
    if is_one_of c chars
    then some 0
    else elim (find_first_of s chars) [ none ↦ none | some i ↦ some (i + 1) ]

abbrev is_zero : Option ℕ → Bool
is_zero none = false
is_zero (some i) = i == 0

-- Whether a peer's word is taken for the address: an empty or a local host.
unfoldable pub trusts : Bytes → Bool
unfolding find_first_of
trusts host = is_empty host || is_zero (find_first_of host (text "127."))

unfoldable pub get_ip_host_from_request : Request → Bytes × Bytes
unfolding get_ip_host_from_header trusts
get_ip_host_from_request request =
    let result = get_ip_host_from_header request in
    if not (is_empty result.0) && trusts request.host
    then result
    else (request.host ++ (text ":" ++ to_string request.port), result.1)

-- The first character is 1, 2, 7 or a full stop, or there is none.
abbrev pub looks_local : Bytes → Bool
looks_local [] = true
looks_local (c ∷ s) = c == b'1' || c == b'2' || c == b'7' || c == b'.'

first_is_later : (o : Option ℕ) → is_zero (elim o [ none ↦ none | some i ↦ some (i + 1) ]) ≡ false
first_is_later none = refl
first_is_later (some i) = ground arith

trusts-looks_local : (host : Bytes) → trusts host ≡ looks_local host
unfolding trusts is_one_of
trusts-looks_local [] = refl
trusts-looks_local (c ∷ s) = ground (arith, first_is_later (find_first_of s (text "127.")))

-- With a header X-Real-IP, a peer whose address begins with a character other than 1, 2, 7 and the
-- full stop is reported by its own address and port, whatever the header says. A peer whose address
-- is empty or begins with one of these four, 127.0.0.1 or not, is reported by what it writes in the
-- header, if that is not empty.
pub get_ip_host_from_request-looks_local :
    (request : Request) (ip : Bytes)
    → request.raw_header (text "X-Real-IP") ≡ ok ip
    → (get_ip_host_from_request request).0 ≡ (
        if looks_local request.host && not (is_empty ip)
        then ip
        else request.host ++ (text ":" ++ to_string request.port))
unfolding get_ip_host_from_request
get_ip_host_from_request-looks_local request ip h =
    rw (trusts-looks_local request.host, h) (choice (looks_local request.host) (not (is_empty ip)))
  where
    choice :
        (near given : Bool)
        → (let r : Bytes × Bytes =
              (if given && near then (ip, header_or_empty (request.raw_header (text "Host"))) else (
                request.host ++ (text ":" ++ to_string request.port),
                header_or_empty (request.raw_header (text "Host")),
              )) in
            r.0)
          ≡ (if near && given then ip else request.host ++ (text ":" ++ to_string request.port))
    choice true true = refl
    choice true false = refl
    choice false true = refl
    choice false false = refl
