-- ===== src/Posting/Varint.antt =====
-- src/posting/mod.rs: delta-varint encoding and decoding of sorted u32 doc ids. A u32 is a number
-- below 2 ^ 32; shifts are multiplications and divisions, `& 0x7F` is `% 128`.
use Prim.Native.Nat.{bit_or}
use syntext.Prelude.{
  ℕ, zero, suc, ◌+◌, ◌-◌, ◌*◌, ◌/◌, ◌%◌, ◌^◌, Bool, true, false, ◌&&◌, List, [], ◌∷◌, ◌++◌, ltb,
  leb, ◌==◌, if◌then◌else◌, length, drop,
}

-- The message of each `Err`.
pub data VarintError : Type 0 where
  not_ascending too_many_continuation_bytes u32_overflow unexpected_end zero_delta delta_overflow :
      VarintError

-- `stuck` is no Rust value: the loop of `varint_decode` ran out of fuel.
pub data Result (A : Type 0) : Type 0 where
  ok : A → Result A
  err : VarintError → Result A
  stuck : Result A

infixl 5 ◌>>=◌
abbrev pub ◌>>=◌ : {A B : Type 0} → Result A → (A → Result B) → Result B
ok a >>= f = f a
err e >>= f = err e
stuck >>= f = stuck

-- `value & 0x7F` and `value >>= 7` for the rounds left; a u32 takes five.
unfoldable pub write_rounds : ℕ → ℕ → List ℕ
write_rounds zero value = []
write_rounds (suc rounds) value =
    let byte = value % 2 ^ 7 in
    let more = write_rounds rounds (value / 2 ^ 7) in
    if value / 2 ^ 7 == 0 then byte ∷ [] else (byte + 0x80) ∷ more

-- What `write_varint` pushes.
unfoldable pub write_varint : ℕ → List ℕ
unfolding write_rounds
write_varint value = write_rounds 5 value

unfoldable pub ascending : List ℕ → Bool
ascending [] = true
ascending (a ∷ []) = true
ascending (a ∷ b ∷ ids) = ltb a b && ascending (b ∷ ids)

unfoldable pub encode_from : ℕ → List ℕ → List ℕ
unfolding write_varint
encode_from prev [] = []
encode_from prev (id ∷ ids) = write_varint (id - prev) ++ encode_from id ids

unfoldable pub varint_encode : List ℕ → Result (List ℕ)
unfolding ascending encode_from
varint_encode ids = if ascending ids then ok (encode_from 0 ids) else err VarintError.not_ascending

-- The loop of `read_varint`: `i` bytes are read, `shift` is `7 * i`.
unfoldable pub read_from : List ℕ → ℕ → ℕ → ℕ → Result (ℕ × ℕ)
read_from [] i value shift = err VarintError.unexpected_end
read_from (byte ∷ bytes) i value shift =
    let bits = byte % 2 ^ 7 in
    let value' = bit_or value (bits * 2 ^ shift) in
    let more = read_from bytes (i + 1) value' (shift + 7) in
    if leb 35 shift
    then err VarintError.too_many_continuation_bytes
    else if shift == 28 && ltb 0x0F bits
    then err VarintError.u32_overflow
    else if ltb byte 0x80
    then ok (value', i + 1)
    else more

unfoldable pub read_varint : List ℕ → Result (ℕ × ℕ)
unfolding read_from
read_varint bytes = read_from bytes 0 0 0

abbrev pub checked_add : ℕ → ℕ → Result ℕ
checked_add prev delta =
    if ltb (prev + delta) (2 ^ 32) then ok (prev + delta) else err VarintError.delta_overflow

-- `first` tells that `ids` is still empty; the bytes are `bytes[pos..]`.
unfoldable pub decode_from : ℕ → Bool → ℕ → List ℕ → Result (List ℕ)
decode_from fuel first prev [] = ok []
decode_from zero first prev (byte ∷ bytes) = stuck
decode_from (suc fuel) first prev (byte ∷ bytes) = read_varint (byte ∷ bytes) >>= λ p.
    let delta = p.0 in
    let rest = checked_add prev delta >>= λ id.
    decode_from fuel false id (drop p.1 (byte ∷ bytes)) >>= λ ids. ok (id ∷ ids) in
    if first then rest else if delta == 0 then err VarintError.zero_delta else rest

-- Each round takes a byte at least.
unfoldable pub varint_decode : List ℕ → Result (List ℕ)
unfolding decode_from
varint_decode bytes = decode_from (length bytes) true 0 bytes
