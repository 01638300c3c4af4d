-- ===== src/Paths/GlobEnds.antt =====
-- The loop of `glob_matches_bytes` of src/path/filter.rs ends, whatever the bytes.
use mathlib.Core.Path.{subst}
use syntext.Prelude.{
  ℕ, zero, suc, ◌+◌, ◌-◌, ◌<◌, ◌≤◌, ◌≡◌, refl, Bool, inl, inr, none, some, List, [], ◌∷◌, ◌==◌,
  length, length-drop, drop, Bool-cases, arith,
}
use syntext.Paths.Glob.{
  Star, Rounds, matches_byte, go_back, glob_round, glob_loop, glob_matches_bytes, only_stars,
}
use syntext.Paths.GlobMatches.{glob_run}

-- The text behind the last star is at least as long as the rest of the text.
abbrev StarBounds : ℕ → ℕ → Star → List ℕ → Type 0
StarBounds most stars none t = Unit {0}
StarBounds most stars (some (ps, ts)) t =
    (length ts ≤ stars) × (length ts + length ps < most) × (length t ≤ length ts)

abbrev Bounds : ℕ → ℕ → ℕ → Star → List ℕ → List ℕ → Type 0
Bounds most stars steps star p t =
    (length t + length p < steps)
    × (length t + length p < most)
    × (length t ≤ stars)
    × StarBounds most stars star t

abbrev Finishes : ℕ → ℕ → ℕ → Rounds → Type 0
Finishes most stars steps rounds =
    (star : Star) (p t : List ℕ)
    → Bounds most stars steps star p t
    → (b : Bool) × (rounds t p star ≡ some b)

module _ (most : ℕ) where
  StarBounds-shorter :
      (stars c : ℕ) (star : Star) (t : List ℕ)
      → StarBounds most stars star (c ∷ t)
      → StarBounds most stars star t
  StarBounds-shorter stars c none t r = tt
  StarBounds-shorter stars c (some (ps, ts)) t (le, lt, longer) = (le, lt, omega arith)

  back_total :
      (stars c : ℕ) (back : Rounds) (star : Star) (t : List ℕ)
      → ((n : ℕ) → stars ≡ suc n → Finishes most n most back)
      → StarBounds most stars star (c ∷ t)
      → (b : Bool) × (go_back back star ≡ some b)
  back_total stars c back none t h r = (Bool.false, refl)
  back_total stars c back (some (ps, ts)) t h (le, lt, longer) =
      let n : stars ≡ suc (stars - 1) = omega arith in
      let short : length (drop 1 ts) ≡ length ts - 1 = length-drop 1 ts in
      h (stars - 1) n (some (ps, drop 1 ts)) ps (drop 1 ts)
        (omega arith, omega arith, omega arith, (omega arith, omega arith, omega arith))

  round_total :
      (stars steps : ℕ) (next back : Rounds)
      → Finishes most stars steps next
      → ((n : ℕ) → stars ≡ suc n → Finishes most n most back)
      → Finishes most stars (suc steps) (glob_round next back)
  unfolding glob_round
  round_total stars steps next back h k star p [] r = (only_stars p, refl)
  round_total stars steps next back h k star [] (c ∷ t) (a, b, le, r) =
      back_total stars c back star t k r
  round_total stars steps next back h k star (d ∷ p) (c ∷ t) (a, b, le, r) =
      elim (Bool-cases (matches_byte d c)) [
        | inl taken ↦ rw taken (
            h star p t (omega arith, omega arith, omega arith, StarBounds-shorter stars c star t r))
        | inr stuck ↦ elim (Bool-cases (d == b'*')) [
          | inl is_star ↦
              rw (stuck, is_star)
                (h (some (p, c ∷ t)) p (c ∷ t)
                  (omega arith, omega arith, le, (le, omega arith, omega arith)))
          | inr other ↦ rw (stuck, other) (back_total stars c back star t k r)
        ]
      ]

  loop_total : (stars steps : ℕ) → Finishes most stars steps (glob_loop most stars steps)
  unfolding glob_loop
  loop_total stars zero = λ star p t r. absurd (omega (arith, r.0))
  loop_total zero (suc steps) =
      round_total zero steps (glob_loop most zero steps) (λ t p s. none) (loop_total zero steps)
        (λ n e. absurd (omega arith))
  loop_total (suc stars) (suc steps) =
      round_total (suc stars) steps (glob_loop most (suc stars) steps) (glob_loop most stars most)
        (loop_total (suc stars) steps)
        (λ n e.
          subst (λ k. Finishes most k most (glob_loop most stars most)) (omega arith)
            (loop_total stars most))

-- For every text and pattern, stars in the text included, the loop of the matching of a glob ends
-- before its rounds run out, with the answer that the matching returns.
pub glob_matches_bytes_total :
    (text pattern : List ℕ) → glob_run text pattern ≡ some (glob_matches_bytes text pattern)
unfolding glob_matches_bytes
glob_matches_bytes_total text pattern =
    let most : ℕ = length text + length pattern + 1 in
    let (b, ends) =
      loop_total most (length text + 1) most none pattern text
        (omega arith, omega arith, omega arith, tt) in
    rw ends refl
