-- ===== src/Posting/Decoded.antt =====
-- `varint_decode` on any bytes: it ends, with one of its errors or with ascending u32 ids.
use syntext.Prelude.{
  ℕ, zero, suc, ◌+◌, ◌*◌, ◌%◌, ◌^◌, ◌≤◌, ◌<◌, ◌≡◌, refl, ◌⊎◌, inl, inr, ◌≢◌, Bool, true, false,
  List, [], ◌∷◌, ◌==◌, length, drop, length-drop, All, Bool-cases, arith,
}
use Prim.Native.Nat.{bit_or}
use syntext.Posting.Varint.{
  Result, VarintError, ok, err, stuck, ◌>>=◌, ascending, read_from, read_varint, checked_add,
  decode_from, varint_decode,
}
use syntext.Posting.RoundTrip.{Follows, round, decode_from-step}

Result-cases :
    {A : Type 0} (r : Result A)
    → ((a : A) × (r ≡ ok a)) ⊎ (((e : VarintError) × (r ≡ err e)) ⊎ (r ≡ stuck))
Result-cases (ok a) = inl (a, refl)
Result-cases (err e) = inr (inl (e, refl))
Result-cases stuck = inr (inr refl)

-- Where two rounds in a row succeed, each did.
both_ok :
    {A B : Type 0} (r : Result A) (k : A → Result B) (y : B)
    → (r >>= k) ≡ ok y
    → (x : A) × (r ≡ ok x) × (k x ≡ ok y)
both_ok stuck k y h = cc
both_ok (err reason) k y h = cc
both_ok (ok x) k y h = (x, refl, h)

-- A number that is read takes a byte at least.
read_from_takes :
    (bytes : List ℕ) (i value shift v n : ℕ) → read_from bytes i value shift ≡ ok (v, n) → i < n
unfolding read_from
read_from_takes [] i value shift v n h = cc
read_from_takes (b ∷ bytes) i value shift v n h =
    ground
      (arith, read_from_takes bytes (i + 1) (bit_or value (b % 2 ^ 7 * 2 ^ shift)) (shift + 7) v n)

read_from-ne-stuck : (bytes : List ℕ) (i value shift : ℕ) → read_from bytes i value shift ≢ stuck
unfolding read_from
read_from-ne-stuck [] i value shift h = cc
read_from-ne-stuck (b ∷ bytes) i value shift h =
    ground
      (arith, read_from-ne-stuck bytes (i + 1) (bit_or value (b % 2 ^ 7 * 2 ^ shift)) (shift + 7))

abbrev tail_of : ℕ → ℕ → List ℕ → ℕ → Result (List ℕ)
tail_of fuel prev rest delta =
    checked_add prev delta >>= λ id. decode_from fuel false id rest >>= λ ids. ok (id ∷ ids)

checked_add-eq :
    (prev delta id : ℕ) → checked_add prev delta ≡ ok id → (id ≡ prev + delta) × (id < 2 ^ 32)
checked_add-eq prev delta id h = ground arith

tail-Follows :
    (fuel : ℕ) (first : Bool) (prev delta : ℕ) (rest ids : List ℕ)
    → ((id : ℕ) (tail : List ℕ) → decode_from fuel false id rest ≡ ok tail → Follows false id tail)
    → (first ≡ false → 0 < delta)
    → tail_of fuel prev rest delta ≡ ok ids
    → Follows first prev ids
tail-Follows fuel first prev delta rest ids later pos h =
    let (id, sum, h') = both_ok (checked_add prev delta) _ ids h in
    let (tail, ht, whole) = both_ok (decode_from fuel false id rest) _ ids h' in
    let (eq, fits) = checked_add-eq prev delta id sum in
    let same : id ∷ tail ≡ ids = cc in
    let up : first ≡ false → prev < id = λ e. let p : 0 < delta = pos e in omega arith in
    let ge : prev ≤ id = omega arith in rw (← same) (ge, up, fits, later id tail ht)

round-Follows :
    (fuel : ℕ) (first : Bool) (prev delta : ℕ) (rest ids : List ℕ)
    → ((id : ℕ) (tail : List ℕ) → decode_from fuel false id rest ≡ ok tail → Follows false id tail)
    → round fuel first prev delta rest ≡ ok ids
    → Follows first prev ids
round-Follows fuel true prev delta rest ids later h =
    tail-Follows fuel true prev delta rest ids later (λ e. cc) h
round-Follows fuel false prev delta rest ids later h = elim (Bool-cases (delta == 0)) [
  | inl z ↦ let refused : err VarintError.zero_delta ≡ ok ids = rw z at h in cc
  | inr p ↦ tail-Follows fuel false prev delta rest ids later (λ e. ground arith) (rw p at h)
]

decode_from-err :
    (fuel : ℕ) (first : Bool) (prev b : ℕ) (bytes : List ℕ) (e : VarintError)
    → read_varint (b ∷ bytes) ≡ err e
    → decode_from (suc fuel) first prev (b ∷ bytes) ≡ err e
unfolding decode_from
decode_from-err fuel first prev b bytes e h = rw h

read_varint-ne-stuck : (bytes : List ℕ) → read_varint bytes ≢ stuck
unfolding read_varint
read_varint-ne-stuck bytes = read_from-ne-stuck bytes 0 0 0

-- Decoded ids go up and fit a u32.
decode_from-Follows :
    (fuel : ℕ) (first : Bool) (prev : ℕ) (bytes ids : List ℕ)
    → decode_from fuel first prev bytes ≡ ok ids
    → Follows first prev ids
decode_from-Follows fuel first prev [] ids h =
    let empty_list : ok [] ≡ ok ids = unfold decode_from in h in
    let none_left : [] ≡ ids = cc in rw (← none_left) tt
decode_from-Follows zero first prev (b ∷ bytes) ids h =
    let ran_out : stuck ≡ ok ids = unfold decode_from in h in cc
decode_from-Follows (suc fuel) first prev (b ∷ bytes) ids h =
    elim (Result-cases (read_varint (b ∷ bytes))) [
      | inl ((delta, n), e) ↦
          round-Follows fuel first prev delta (drop n (b ∷ bytes)) ids
            (λ id tail k. decode_from-Follows fuel false id (drop n (b ∷ bytes)) tail k)
            (rw (decode_from-step fuel first prev (b ∷ bytes) delta n e) at h)
      | inr (inl (e, r)) ↦ cc (decode_from-err fuel first prev b bytes e r)
      | inr (inr r) ↦ absurd (read_varint-ne-stuck (b ∷ bytes) r)
    ]

tail-ne-stuck :
    (fuel prev delta : ℕ) (rest : List ℕ)
    → ((id : ℕ) → decode_from fuel false id rest ≢ stuck)
    → tail_of fuel prev rest delta ≢ stuck
tail-ne-stuck fuel prev delta rest later h = elim (Result-cases (checked_add prev delta)) [
  | inl (id, e) ↦ elim (Result-cases (decode_from fuel false id rest)) [
    | inl (ids, d) ↦ let done : ok (id ∷ ids) ≡ stuck = rw (e, d) at h in cc
    | inr (inl (x, d)) ↦ let failed : err x ≡ stuck = rw (e, d) at h in cc
    | inr (inr d) ↦ later id d
  ]
  | inr (inl (x, e)) ↦ let failed : err x ≡ stuck = rw e at h in cc
  | inr (inr e) ↦ ground arith
]

round-ne-stuck :
    (fuel : ℕ) (first : Bool) (prev delta : ℕ) (rest : List ℕ)
    → ((id : ℕ) → decode_from fuel false id rest ≢ stuck)
    → round fuel first prev delta rest ≢ stuck
round-ne-stuck fuel true prev delta rest later h = tail-ne-stuck fuel prev delta rest later h
round-ne-stuck fuel false prev delta rest later h = elim (Bool-cases (delta == 0)) [
  | inl z ↦ let refused : err VarintError.zero_delta ≡ stuck = rw z at h in cc
  | inr p ↦ tail-ne-stuck fuel prev delta rest later (rw p at h)
]

decode_from-ne-stuck :
    (fuel : ℕ) (first : Bool) (prev : ℕ) (bytes : List ℕ)
    → length bytes ≤ fuel
    → decode_from fuel first prev bytes ≢ stuck
decode_from-ne-stuck fuel first prev [] l h =
    let done : ◌≡◌ {A = Result (List ℕ)} (ok []) stuck = unfold decode_from in h in cc
decode_from-ne-stuck zero first prev (b ∷ bytes) l h = absurd (omega arith)
decode_from-ne-stuck (suc fuel) first prev (b ∷ bytes) l h =
    elim (Result-cases (read_varint (b ∷ bytes))) [
      | inl ((delta, n), e) ↦
          let takes : 0 < n = unfold read_varint in read_from_takes (b ∷ bytes) 0 0 0 delta n e in
          let shorter : length (drop n (b ∷ bytes)) ≤ fuel =
            omega (arith, length-drop n (b ∷ bytes)) in
          round-ne-stuck fuel first prev delta (drop n (b ∷ bytes))
            (λ id. decode_from-ne-stuck fuel false id (drop n (b ∷ bytes)) shorter)
            (rw (decode_from-step fuel first prev (b ∷ bytes) delta n e) at h)
      | inr (inl (e, r)) ↦ cc (decode_from-err fuel first prev b bytes e r)
      | inr (inr r) ↦ absurd (read_varint-ne-stuck (b ∷ bytes) r)
    ]

Follows-ascending : (id : ℕ) (ids : List ℕ) → Follows false id ids → ascending (id ∷ ids) ≡ true
unfolding ascending
Follows-ascending id [] f = refl
Follows-ascending id (x ∷ ids) (le, lt, fits, later) =
    let up : id < x = lt refl in ground (arith, Follows-ascending x ids later)

Follows-fits :
    (first : Bool) (prev : ℕ) (ids : List ℕ) → Follows first prev ids → All (λ x. x < 2 ^ 32) ids
Follows-fits first prev [] f = tt
Follows-fits first prev (x ∷ ids) (le, lt, fits, later) = (fits, Follows-fits false x ids later)

decoded-ascending :
    (ids : List ℕ) → Follows true 0 ids → (ascending ids ≡ true) × All (λ x. x < 2 ^ 32) ids
decoded-ascending [] f = (unfold ascending in refl, tt)
decoded-ascending (x ∷ ids) f = (Follows-ascending x ids f.3, Follows-fits true 0 (x ∷ ids) f)

-- On any bytes `varint_decode` ends, and returns either strictly ascending u32 ids or an error.
pub varint_decode_total :
    (bytes : List ℕ)
    → ((ids : List ℕ) × (varint_decode bytes ≡ ok ids)
        × (ascending ids ≡ true)
        × All (λ x. x < 2 ^ 32) ids)
      ⊎ ((e : VarintError) × (varint_decode bytes ≡ err e))
unfolding varint_decode
varint_decode_total bytes = elim (Result-cases (varint_decode bytes)) [
  | inl (ids, e) ↦
      let (up, fits) =
        decoded-ascending ids (decode_from-Follows (length bytes) true 0 bytes ids e) in
      inl (ids, e, up, fits)
  | inr (inl (x, e)) ↦ inr (x, e)
  | inr (inr e) ↦ absurd (decode_from-ne-stuck (length bytes) true 0 bytes (omega arith) e)
]
