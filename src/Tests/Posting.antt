-- ===== src/Tests/Posting.antt =====
-- Runs of the posting codec, and its theorems at concrete inputs.
use syntext.Prelude.{ℕ, ◌≡◌, refl, ◌⊎◌, ◌<◌, ◌^◌, true, List, [], ◌∷◌, All, arith}
use syntext.Posting.Varint.{
  VarintError, ok, err, write_rounds, write_varint, ascending, encode_from, varint_encode,
  read_from, read_varint, decode_from, varint_decode,
}
use syntext.Posting.RoundTrip.{varint_decode-encode}
use syntext.Posting.Decoded.{varint_decode_total}

abbrev three_ids : List ℕ
three_ids = 5 ∷ 300 ∷ 4294967295 ∷ []

encode_run : varint_encode (5 ∷ 300 ∷ []) ≡ ok (5 ∷ 167 ∷ 2 ∷ [])
unfolding varint_encode encode_from write_varint write_rounds
encode_run = refl

abbrev zero_delta_bytes : List ℕ
zero_delta_bytes = 5 ∷ 0 ∷ []

zero_delta_run : varint_decode zero_delta_bytes ≡ err VarintError.zero_delta
unfolding varint_decode decode_from read_varint read_from
zero_delta_run = refl

abbrev three_bytes : List ℕ
three_bytes = 5 ∷ 167 ∷ 2 ∷ 211 ∷ 253 ∷ 255 ∷ 255 ∷ 15 ∷ []

encode_largest_run : varint_encode three_ids ≡ ok three_bytes
unfolding varint_encode encode_from write_varint write_rounds ascending
encode_largest_run = refl

varint_decode-encode_example : varint_decode three_bytes ≡ ok three_ids
varint_decode-encode_example =
    varint_decode-encode three_ids three_bytes (omega arith, (omega arith, (omega arith, tt)))
      encode_largest_run

varint_decode_total_example :
    ((ids : List ℕ) × (varint_decode zero_delta_bytes ≡ ok ids)
      × (ascending ids ≡ true)
      × All (λ x. x < 2 ^ 32) ids)
    ⊎ ((e : VarintError) × (varint_decode zero_delta_bytes ≡ err e))
varint_decode_total_example = varint_decode_total zero_delta_bytes
