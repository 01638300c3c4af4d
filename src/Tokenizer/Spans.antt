-- ===== src/Tokenizer/Spans.antt =====
-- The spans between neighbouring boundaries: a test on positions that the boundary lists pass, and
-- the spans of a part of a text as spans of the whole.
use native.Mathlib.Decide.{ℕ_discrete}
use syntext.Prelude.{
  ℕ, zero, suc, ◌+◌, ◌-◌, ◌≤◌, ◌<◌, ◌≡◌, refl, ap, ◌∙◌, ◌⊎◌, inl, inr, Bool, true, ◌||◌, List, [],
  ◌∷◌, ◌++◌, ◌==◌, length, get_or, length-append, get_or-append_left, get_or-append_right, arith,
}
use syntext.Tokenizer.Boundaries.{interior, dedup, boundaries}
use syntext.Tokenizer.Positions.{
  positions, IsSpan, dedup-positions, interior-positions, positions_last,
}

zero-or-suc : (n : ℕ) → (n ≡ 0) ⊎ ((k : ℕ) × (n ≡ suc k))
zero-or-suc zero = inl refl
zero-or-suc (suc k) = inr (k, refl)

-- Position `i` of `bytes` is a boundary.
unfoldable pub cut_at : (ℕ → ℕ → Bool) → List ℕ → ℕ → Bool
cut_at cut bytes zero = true
cut_at cut bytes (suc i) = suc i == length bytes || cut (get_or bytes i 0) (get_or bytes (suc i) 0)

module _ (cut : ℕ → ℕ → Bool) where
  pub cut_at_end : (bytes : List ℕ) → cut_at cut bytes (length bytes) ≡ true
  unfolding cut_at
  cut_at_end [] = refl
  cut_at_end (b ∷ bytes) = ground arith

  interior-cut_at :
      (b : ℕ) (bytes : List ℕ)
      → interior cut 1 b bytes ≡ positions (cut_at cut (b ∷ bytes)) 1 (length bytes)
  unfolding cut_at
  interior-cut_at b bytes =
      interior-positions (cut_at cut (b ∷ bytes)) cut 1 b bytes
        λ j h. let e : 1 + j ≡ suc j = omega arith in rw e (ground arith)

  -- The boundary list holds the positions that pass, in ascending order.
  pub boundaries-positions :
      (bytes : List ℕ) → boundaries cut bytes ≡ positions (cut_at cut bytes) 0 (suc (length bytes))
  unfolding boundaries
  boundaries-positions [] = unfold positions cut_at in refl
  boundaries-positions (b ∷ bytes) =
      let all : 0 ∷ (interior cut 1 b bytes ++ (suc (length bytes) ∷ []))
          ≡ positions (cut_at cut (b ∷ bytes)) 0 (suc (suc (length bytes))) =
        rw
          (
            interior-cut_at b bytes,
            positions_last (cut_at cut (b ∷ bytes)) 1 (length bytes) (suc (length bytes))
                (omega arith) (cut_at_end (b ∷ bytes)),
          )
          (unfold positions cut_at in refl) in
      ap dedup all ∙ dedup-positions (cut_at cut (b ∷ bytes)) 0 _

  -- A part `m` of the text `a ++ (m ++ c)`.
  module _ (a m c : List ℕ) where
    get_or-within : (i : ℕ) → i < length m → get_or (a ++ (m ++ c)) (length a + i) 0 ≡ get_or m i 0
    get_or-within i h = get_or-append_right a (m ++ c) i 0 ∙ get_or-append_left m c i 0 h

    cut_at-within :
        (i : ℕ)
        → suc i < length m
        → cut_at cut (a ++ (m ++ c)) (length a + suc i) ≡ cut_at cut m (suc i)
    unfolding cut_at
    cut_at-within i h =
        let e : length a + suc i ≡ suc (length a + i) = omega arith in
        let next : get_or (a ++ (m ++ c)) (suc (length a + i)) 0 ≡ get_or m (suc i) 0 =
          rw e at (get_or-within (suc i) h) in
        rw e (
          ground (
            arith,
            length-append a (m ++ c),
            length-append m c,
            get_or-within i (omega arith),
            next,
          ))

    -- A forced byte at the start or the end of the part is a boundary of the whole.
    pub cut_at_start :
        0 < length m
        → ((x : ℕ) → cut x (get_or m 0 0) ≡ true)
        → cut_at cut (a ++ (m ++ c)) (length a) ≡ true
    unfolding cut_at
    cut_at_start h forced = elim (zero-or-suc (length a)) [
      | inl e ↦ rw e
      | inr (k, e) ↦
          let here : get_or (a ++ (m ++ c)) (suc k) 0 ≡ get_or m 0 0 =
            let at_start : length a + 0 ≡ suc k = omega arith in
            rw at_start at (get_or-within 0 h) in
          rw e (ground (arith, here, forced (get_or (a ++ (m ++ c)) k 0)))
    ]

    pub cut_at_stop :
        0 < length m
        → ((x : ℕ) → cut (get_or m (length m - 1) 0) x ≡ true)
        → cut_at cut (a ++ (m ++ c)) (length a + length m) ≡ true
    unfolding cut_at
    cut_at_stop h forced = elim (zero-or-suc (length m)) [
      | inl e ↦ absurd (omega arith)
      | inr (k, e) ↦
          let at_end : length a + length m ≡ suc (length a + k) = omega arith in
          let before : length m - 1 ≡ k = omega arith in
          let forced_last : (x : ℕ) → cut (get_or m k 0) x ≡ true = rw before at forced in
          rw (at_end, cut_at, get_or-within k (omega arith))
            (ground (arith, forced_last (get_or (a ++ (m ++ c)) (suc (length a + k)) 0)))
    ]

    pub IsSpan-within :
        (s e : ℕ)
        → e ≤ length m
        → IsSpan (cut_at cut m) (s, e)
        → (s ≡ 0 → cut_at cut (a ++ (m ++ c)) (length a) ≡ true)
        → (e ≡ length m → cut_at cut (a ++ (m ++ c)) (length a + length m) ≡ true)
        → IsSpan (cut_at cut (a ++ (m ++ c))) (length a + s, length a + e)
    IsSpan-within s e h w first last = record {
      nonempty = omega (arith, w.nonempty);
      from = elim (zero-or-suc s) [
        | inl z ↦ let e : length a + s ≡ length a = omega arith in rw e (first z)
        | inr (k, z) ↦ rw z (cut_at-within k (omega (arith, w.nonempty)) ∙ (rw z at w.from))
      ];
      to = elim (ℕ_discrete e (length m)) [
        | yes z ↦ rw z (last z)
        | no other ↦ elim (zero-or-suc e) [
          | inl z ↦ absurd (omega (arith, w.nonempty))
          | inr (k, z) ↦ rw z (cut_at-within k (omega arith) ∙ (rw z at w.to))
        ]
      ];
      solid = λ i l r.
          let j : ℕ = i - length a - 1 in
          let z : i ≡ length a + suc j = omega arith in
          rw z (cut_at-within j (omega arith) ∙ w.solid (suc j) (omega arith) (omega arith));
    }
