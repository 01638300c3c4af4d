-- ===== src/Posting/RoundTrip.antt =====
-- `varint_decode` reads back what `varint_encode` wrote.
use native.Mathlib.Nat.{div-add-mod}
use native.Mathlib.Numerals.{towards_suc}
use syntext.Prelude.{
  ℕ, zero, suc, ◌+◌, ◌-◌, ◌*◌, ◌/◌, ◌%◌, ◌^◌, ◌≤◌, ◌<◌, ◌≡◌, refl, ap, inl, inr, Bool, true, false,
  List, [], ◌∷◌, ◌++◌, ◌==◌, if◌then◌else◌, length, drop, length-append, All, Bool-cases, arith,
}
use syntext.Prelude.Bits.{bit_or-shifted}
use syntext.Posting.Varint.{
  Result, VarintError, ok, err, ◌>>=◌, write_rounds, write_varint, ascending, encode_from,
  varint_encode, read_from, read_varint, checked_add, decode_from, varint_decode,
}

-- What the rounds left can write.
abbrev lim : ℕ → ℕ
lim zero = 0
lim (suc zero) = 16
lim (suc (suc r)) = 128 * lim (suc r)

shift_seven : (s : ℕ) → 2 ^ (s + 7) ≡ 128 * 2 ^ s
shift_seven s = simp towards_suc (omega arith)

-- The lowest seven bits of `v` and the others, shifted by `s`.
low_and_high : (v s : ℕ) → v * 2 ^ s ≡ v % 2 ^ 7 * 2 ^ s + v / 2 ^ 7 * 2 ^ (s + 7)
low_and_high v s = omega (
  arith,
  ap (λ (t : ℕ). t * 2 ^ s) (div-add-mod v 128),
  ap (λ (t : ℕ). v / 128 * t) (shift_seven s),
)

below_scaled : (g p value : ℕ) → g < 128 → value < p → value + g * p < 128 * p
below_scaled g p value h l = grind arith

last_byte :
    (v i value shift : ℕ) (rest : List ℕ)
    → v < 128
    → shift < 35
    → (shift ≡ 28 → v < 16)
    → value < 2 ^ shift
    → read_from (v ∷ rest) i value shift ≡ ok (value + v * 2 ^ shift, i + 1)
unfolding read_from
last_byte v i value shift rest small s top low =
    let same : v % 2 ^ 7 ≡ v = omega arith in
    rw (same, bit_or-shifted shift value v low) (ground arith)

inner_byte :
    (g i value shift : ℕ) (rest : List ℕ)
    → g < 128
    → shift < 28
    → value < 2 ^ shift
    → read_from ((g + 0x80) ∷ rest) i value shift
      ≡ read_from rest (i + 1) (value + g * 2 ^ shift) (shift + 7)
unfolding read_from
inner_byte g i value shift rest small s low =
    let same : (g + 0x80) % 2 ^ 7 ≡ g = omega arith in
    rw (same, bit_or-shifted shift value g low) (ground arith)

read_from-write :
    (r v i value shift : ℕ) (rest : List ℕ)
    → v < lim r
    → i + r ≡ 5
    → shift ≡ 7 * i
    → value < 2 ^ shift
    → read_from (write_rounds r v ++ rest) i value shift
      ≡ ok (value + v * 2 ^ shift, i + length (write_rounds r v))
unfolding write_rounds
read_from-write zero v i value shift rest l n s low = absurd (omega arith)
read_from-write (suc zero) v i value shift rest l n s low =
    let only : (v / 2 ^ 7 == 0) ≡ true = ground arith in
    let same : v % 2 ^ 7 ≡ v = omega arith in
    rw (only, same) (last_byte v i value shift rest (omega arith) (omega arith) (λ _. l) low)
read_from-write (suc (suc r)) v i value shift rest l n s low = elim (Bool-cases (v / 2 ^ 7 == 0)) [
  | inl done ↦
      let same : v % 2 ^ 7 ≡ v = ground arith in
      rw (done, same)
        (last_byte v i value shift rest (ground arith) (omega arith) (λ e. absurd (omega arith))
          low)
  | inr more ↦
      let g : ℕ = v % 2 ^ 7 in
      let next : ℕ = value + g * 2 ^ shift in
      let fits : next < 2 ^ (shift + 7) =
        rw (shift_seven shift) (below_scaled (v % 2 ^ 7) (2 ^ shift) value (omega arith) low) in
      let sum : next + v / 2 ^ 7 * 2 ^ (shift + 7) ≡ value + v * 2 ^ shift =
        omega (arith, low_and_high v shift) in
      let count : (i + 1) + length (write_rounds (suc r) (v / 2 ^ 7))
          ≡ i + suc (length (write_rounds (suc r) (v / 2 ^ 7))) =
        omega arith in
      rw
        (
          more,
          inner_byte g i value shift (write_rounds (suc r) (v / 2 ^ 7) ++ rest) (omega arith)
              (omega arith) low,
          read_from-write (suc r) (v / 2 ^ 7) (i + 1) next (shift + 7) rest (omega arith)
              (omega arith) (omega arith) fits,
        )
        (cc (sum, count))
]

read_varint-write :
    (v : ℕ) (rest : List ℕ)
    → v < 2 ^ 32
    → read_varint (write_varint v ++ rest) ≡ ok (v, length (write_varint v))
unfolding read_varint write_varint
read_varint-write v rest h =
    let sum : 0 + v * 2 ^ 0 ≡ v = omega arith in
    let count : 0 + length (write_rounds 5 v) ≡ length (write_rounds 5 v) = omega arith in
    cc (
      sum,
      count,
      read_from-write 5 v 0 0 0 rest (omega arith) (omega arith) (omega arith) (omega arith),
    )

length-write : (v : ℕ) → 1 ≤ length (write_varint v)
unfolding write_varint write_rounds
length-write v = ground arith

-- The ids go up from `prev`, strictly but for the first, and fit a u32.
abbrev pub Follows : Bool → ℕ → List ℕ → Type 0
Follows first prev [] = Unit {0}
Follows first prev (id ∷ ids) =
    (prev ≤ id) × (first ≡ false → prev < id) × (id < 2 ^ 32) × Follows false id ids

-- A round of the decoding loop after a delta has been read.
abbrev pub round : ℕ → Bool → ℕ → ℕ → List ℕ → Result (List ℕ)
round fuel first prev delta rest =
    let tail =
      checked_add prev delta >>= λ id. decode_from fuel false id rest >>= λ ids. ok (id ∷ ids) in
    if first then tail else if delta == 0 then err VarintError.zero_delta else tail

pub decode_from-step :
    (fuel : ℕ) (first : Bool) (prev : ℕ) (bytes : List ℕ) (delta n : ℕ)
    → read_varint bytes ≡ ok (delta, n)
    → decode_from (suc fuel) first prev bytes ≡ round fuel first prev delta (drop n bytes)
unfolding decode_from
decode_from-step fuel first prev [] delta n h = unfold read_varint in cc
decode_from-step fuel first prev (b ∷ bytes) delta n h = rw h

round-id :
    (fuel : ℕ) (first : Bool) (prev id : ℕ) (ids rest : List ℕ)
    → prev ≤ id
    → (first ≡ false → prev < id)
    → id < 2 ^ 32
    → decode_from fuel false id rest ≡ ok ids
    → round fuel first prev (id - prev) rest ≡ ok (id ∷ ids)
round-id fuel true prev id ids rest le lt fits tail =
    let sum : prev + (id - prev) ≡ id = omega arith in rw sum (ground arith)
round-id fuel false prev id ids rest le lt fits tail =
    let sum : prev + (id - prev) ≡ id = omega arith in
    let above : prev < id = lt refl in rw sum (ground arith)

encode_from-cons :
    (prev id : ℕ) (ids : List ℕ)
    → encode_from prev (id ∷ ids) ≡ write_varint (id - prev) ++ encode_from id ids
unfolding encode_from
encode_from-cons prev id ids = refl

length-encode_cons :
    (prev id : ℕ) (ids : List ℕ)
    → length (encode_from id ids) < length (encode_from prev (id ∷ ids))
length-encode_cons prev id ids =
    rw (encode_from-cons, length-append) (omega (arith, length-write (id - prev)))

drop_written : (w rest : List ℕ) → drop (length w) (w ++ rest) ≡ rest
drop_written [] rest = refl
drop_written (b ∷ w) rest = drop_written w rest

decode_from-encode :
    (fuel : ℕ) (first : Bool) (prev : ℕ) (ids : List ℕ)
    → Follows first prev ids
    → length (encode_from prev ids) ≤ fuel
    → decode_from fuel first prev (encode_from prev ids) ≡ ok ids
decode_from-encode fuel first prev [] f h = unfold encode_from decode_from in refl
decode_from-encode zero first prev (id ∷ ids) f h =
    absurd (omega (arith, length-encode_cons prev id ids))
decode_from-encode (suc fuel) first prev (id ∷ ids) (le, lt, fits, later) h =
    let delta : ℕ = id - prev in
    let rest : List ℕ = encode_from id ids in
    let tail : decode_from fuel false id rest ≡ ok ids =
      decode_from-encode fuel false id ids later (omega (arith, length-encode_cons prev id ids)) in
    rw
      (
        encode_from-cons,
        decode_from-step fuel first prev _ delta (length (write_varint delta))
            (read_varint-write delta rest (omega arith)),
        drop_written (write_varint delta) rest,
      )
      (round-id fuel first prev id ids rest le lt fits tail)

ascending-Follows :
    (id : ℕ) (ids : List ℕ)
    → ascending (id ∷ ids) ≡ true
    → All (λ x. x < 2 ^ 32) ids
    → Follows false id ids
unfolding ascending
ascending-Follows id [] a h = tt
ascending-Follows id (x ∷ ids) a h =
    (ground arith, λ _. ground arith, h.0, ascending-Follows x ids (ground arith) h.1)

ascending-Follows_first :
    (ids : List ℕ) → ascending ids ≡ true → All (λ x. x < 2 ^ 32) ids → Follows true 0 ids
ascending-Follows_first [] a h = tt
ascending-Follows_first (x ∷ ids) a h = (omega arith, λ e. cc, h.0, ascending-Follows x ids a h.1)

-- `varint_decode` returns the ids that `varint_encode` was given, for every list of u32 ids that it
-- accepts.
pub varint_decode-encode :
    (ids bytes : List ℕ)
    → All (λ id. id < 2 ^ 32) ids
    → varint_encode ids ≡ ok bytes
    → varint_decode bytes ≡ ok ids
varint_decode-encode ids bytes h e = elim (Bool-cases (ascending ids)) [
  | inl up ↦
      let encoded : ok (encode_from 0 ids) ≡ ok bytes =
        unfold varint_encode in rw (up, varint_encode) at e in
      let same : encode_from 0 ids ≡ bytes = cc in
      rw (← same) (
        unfold varint_decode in
        decode_from-encode _ true 0 ids (ascending-Follows_first ids up h) (omega arith))
  | inr down ↦
      let refused : err VarintError.not_ascending ≡ ok bytes =
        unfold varint_encode in rw (down, varint_encode) at e in
      cc
]
