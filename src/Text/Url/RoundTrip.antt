-- ===== src/Text/Url/RoundTrip.antt =====
-- url_decode undoes percent-encoding with upper-case digits.
use cppapiframework.Common.{
  ℕ, ◌+◌, ◌*◌, ◌/◌, ◌%◌, ◌<◌, ◌≡◌, ◌≢◌, refl, sym, ap, ◌∙◌, inl, inr, Bool, true, false, [], ◌∷◌,
  ◌++◌, ◌==◌, ltb, if◌then◌else◌, arith, Bytes, Bool-cases, ==_false,
}
use cppapiframework.Text.Url.{Decoder, arrmap, percent, flush, decode_chr, decode_loop, url_decode}

abbrev digit : ℕ → ℕ
digit n = if ltb n 10 then 48 + n else 55 + n

-- Every byte that `keep` does not keep, and `%` in any case, is written as `%` and two digits.
unfoldable pub percent_encode : (ℕ → Bool) → Bytes → Bytes
percent_encode keep [] = []
percent_encode keep (b ∷ bs) =
    if keep b
    then b ∷ percent_encode keep bs
    else percent ∷ digit (b / 16) ∷ digit (b % 16) ∷ percent_encode keep bs

abbrev pub AllBytes : Bytes → Type 0
AllBytes [] = Unit {0}
AllBytes (b ∷ bs) = (b < 256) × AllBytes bs

-- The loop between two characters: nothing is pending, or two digits are.
abbrev plain : Bytes → Decoder
plain r = record { result = r; chrsize = 0; tempchchr = 0; inchr = false }

abbrev pending : Bytes → ℕ → Decoder
pending r t = record { result = r; chrsize = 2; tempchchr = t; inchr = true }

arrmap-digit : (n : ℕ) → n < 16 → arrmap (digit n) ≡ n
unfolding arrmap
arrmap-digit n h = ground arith

digit-ne : (n : ℕ) → n < 16 → (digit n == percent) ≡ false
digit-ne n h = ground arith

chr-kept :
    (r : Bytes) (b : ℕ) → (b == percent) ≡ false → decode_chr (plain r) b ≡ plain (r ++ b ∷ [])
unfolding decode_chr
chr-kept r b h = rw h refl

chr-first :
    (r : Bytes) (t c : ℕ)
    → (c == percent) ≡ false
    → decode_chr (record { result = r; chrsize = 0; tempchchr = t; inchr = true }) c
      ≡ record { result = r; chrsize = 1; tempchchr = arrmap c * 16; inchr = true }
unfolding decode_chr
chr-first r t c h = rw h refl

chr-second :
    (r : Bytes) (t c : ℕ)
    → (c == percent) ≡ false
    → decode_chr (record { result = r; chrsize = 1; tempchchr = t; inchr = true }) c
      ≡ pending r (t + arrmap c)
unfolding decode_chr
chr-second r t c h = rw h refl

-- The three characters of a byte that is not kept.
loop-escaped :
    (r : Bytes) (b : ℕ) (s : Bytes)
    → b < 256
    → decode_loop (plain r) (percent ∷ digit (b / 16) ∷ digit (b % 16) ∷ s)
      ≡ decode_loop (pending r b) s
unfolding decode_loop flush decode_chr
loop-escaped r b s h =
    rw
      (
        digit-ne (b / 16) (omega arith),
        digit-ne (b % 16) (omega arith),
        arrmap-digit (b / 16) (omega arith),
        arrmap-digit (b % 16) (omega arith),
      )
      (ap (λ t. decode_loop (pending r t) s) (omega arith))

loop-kept :
    (r : Bytes) (b : ℕ) (s : Bytes)
    → (b == percent) ≡ false
    → decode_loop (plain r) (b ∷ s) ≡ decode_loop (plain (r ++ b ∷ [])) s
unfolding decode_loop flush
loop-kept r b s h = rw (chr-kept r b h) refl

loop-pending :
    (r : Bytes) (t : ℕ) (s : Bytes)
    → flush (decode_loop (pending r t) s) ≡ flush (decode_loop (plain (r ++ t ∷ [])) s)
unfolding decode_loop flush
loop-pending r t [] = refl
loop-pending r t (c ∷ s) = refl

append-step : (r : Bytes) (b : ℕ) (s : Bytes) → (r ++ b ∷ []) ++ s ≡ r ++ b ∷ s
append-step [] b s = refl
append-step (x ∷ r) b s = ap (◌∷◌ x) (append-step r b s)

append-nil : (r : Bytes) → r ++ [] ≡ r
append-nil [] = refl
append-nil (x ∷ r) = ap (◌∷◌ x) (append-nil r)

kept-ne : (keep : ℕ → Bool) (b : ℕ) → keep percent ≡ false → keep b ≡ true → (b == percent) ≡ false
kept-ne keep b h k = ==_false λ e. true_ne (sym k ∙ ap keep e ∙ h)
  where
    true_ne : true ≢ false
    true_ne e = cc

loop-nil : (r : Bytes) → (flush (decode_loop (plain r) [])).result ≡ r ++ []
unfolding decode_loop flush
loop-nil r = sym (append-nil r)

loop-encode :
    (keep : ℕ → Bool) (r s : Bytes)
    → keep percent ≡ false
    → AllBytes s
    → (flush (decode_loop (plain r) (percent_encode keep s))).result ≡ r ++ s
unfolding percent_encode
loop-encode keep r [] h k = loop-nil r
loop-encode keep r (b ∷ s) h k = elim (Bool-cases (keep b)) [
  | inl e ↦
      rw (e, loop-kept r b (percent_encode keep s) (kept-ne keep b h e))
        (loop-encode keep (r ++ b ∷ []) s h k.1 ∙ append-step r b s)
  | inr e ↦
      rw (e, loop-escaped r b (percent_encode keep s) k.0, loop-pending r b (percent_encode keep s))
        (loop-encode keep (r ++ b ∷ []) s h k.1 ∙ append-step r b s)
]

-- Text that is percent-encoded, with upper-case digits and whatever bytes but `%` left as they
-- are, is decoded to what it was.
pub url_decode-percent_encode :
    (keep : ℕ → Bool) (s : Bytes)
    → keep percent ≡ false
    → AllBytes s
    → url_decode (percent_encode keep s) ≡ s
unfolding url_decode
url_decode-percent_encode keep s h k = loop-encode keep [] s h k
