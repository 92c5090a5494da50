-- ===== src/Text/Url.antt =====
-- src/utils/Strutils.hpp: url_decode.
pub mod RoundTrip
use cppapiframework.Common.{
  ℕ, ◌+◌, ◌*◌, ◌-◌, Bool, true, false, ◌&&◌, List, [], ◌∷◌, ◌++◌, ◌==◌, leb, if◌then◌else◌, Bytes,
}

-- The variables of the loop. chrsize counts the hexadecimal digits behind a `%`.
pub record Decoder : Type 0 where
  pub result : Bytes
  pub chrsize : ℕ
  pub tempchchr : ℕ
  pub inchr : Bool

abbrev pub new_decoder : Decoder
new_decoder = record { result = []; chrsize = 0; tempchchr = 0; inchr = false }

-- arrmap[c], 0 for a character that the map does not hold
unfoldable pub arrmap : ℕ → ℕ
arrmap c = if leb 48 c && leb c 57 then c - 48 else if leb 65 c && leb c 70 then c - 55 else 0

abbrev pub percent : ℕ
percent = 37

-- The character that two digits have given.
unfoldable pub flush : Decoder → Decoder
flush d =
    if d.chrsize == 2
    then record { result = d.result ++ d.tempchchr ∷ []; chrsize = 0; tempchchr = 0; inchr = false }
    else d

-- The loop's body behind the flush. The low four bits are 0 before the second digit is set in.
unfoldable pub decode_chr : Decoder → ℕ → Decoder
unfolding arrmap
decode_chr d c =
    if c == percent
    then record d { inchr = true; chrsize = 0; tempchchr = 0 }
    else if d.inchr
    then (if d.chrsize == 0
        then record d { tempchchr = arrmap c * 16; chrsize = d.chrsize + 1 }
        else record d { tempchchr = d.tempchchr + arrmap c; chrsize = d.chrsize + 1 })
    else record d { result = d.result ++ c ∷ [] }

unfoldable pub decode_loop : Decoder → Bytes → Decoder
unfolding flush decode_chr
decode_loop d [] = d
decode_loop d (c ∷ str) = decode_loop (decode_chr (flush d) c) str

unfoldable pub url_decode : Bytes → Bytes
unfolding flush decode_loop
url_decode str = (flush (decode_loop new_decoder str)).result
