-- ===== src/Paths/GlobMatches.antt =====
-- The matching of a glob ends, and matches what the pattern means.
use mathlib.Core.Path.{subst}
use syntext.Prelude.{
  ℕ, zero, suc, ◌+◌, ◌<◌, ◌≤◌, ◌≡◌, refl, sym, ap, ◌∙◌, Bool, true, false, ◌||◌, inl, inr, Option,
  none, some, List, [], ◌∷◌, ◌++◌, ◌==◌, length, length-append, length-drop, ◌-◌, append_assoc,
  drop, contains, Bool-cases, ==_iff, arith,
}
use syntext.Paths.Glob.{
  Star, Rounds, matches_byte, go_back, glob_round, glob_loop, is_match, glob_matches_bytes,
}
use syntext.Paths.GlobMeaning.{
  any_suffix, wild, later, only_stars-wild, Synced, later-star, later_end,
}

-- What the loop is to answer: the rest matches, or a longer match of the last star does.
abbrev value : Star → List ℕ → List ℕ → Bool
value none p t = wild p t
value (some (ps, ts)) p t = wild p t || later (wild ps) ts

abbrev StarReady : ℕ → ℕ → Star → List ℕ → List ℕ → Type 0
StarReady most stars none p t = Unit {0}
StarReady most stars (some (ps, ts)) p t =
    (length ts ≤ stars)
    × (length ts + length ps < most)
    × (contains b'*' ts ≡ false)
    × Synced ps ts p t

abbrev Ready : ℕ → ℕ → ℕ → Star → List ℕ → List ℕ → Type 0
Ready most stars steps star p t =
    (length t + length p < steps)
    × (length t + length p < most)
    × (length t ≤ stars)
    × (contains b'*' t ≡ false)
    × StarReady most stars star p t

abbrev Answers : ℕ → ℕ → ℕ → Rounds → Type 0
Answers most stars steps rounds =
    (star : Star) (p t : List ℕ)
    → Ready most stars steps star p t
    → rounds t p star ≡ some (value star p t)

module _ (most : ℕ) where
  not_star :
      (seg : List ℕ) (d : ℕ)
      → contains b'*' seg ≡ false
      → (d == b'*') ≡ false
      → contains b'*' (seg ++ (d ∷ [])) ≡ false
  unfolding contains
  not_star [] d h e = rw e refl
  not_star (x ∷ seg) d h e = ground (arith, not_star seg d)

  Synced-next :
      (d c : ℕ) (ps ts p t : List ℕ)
      → (d == b'*') ≡ false
      → Synced ps ts (d ∷ p) (c ∷ t)
      → Synced ps ts p t
  unfolding contains
  Synced-next d c ps ts p t h (seg, m, e, e', n, free) = (
    seg ++ (d ∷ []),
    m ++ (c ∷ []),
    e ∙ sym (append_assoc seg (d ∷ []) p),
    e' ∙ sym (append_assoc m (c ∷ []) t),
    omega (arith, length-append seg (d ∷ []), length-append m (c ∷ []), n),
    not_star seg d free h,
  )

  StarReady-next :
      (stars d c : ℕ) (star : Star) (p t : List ℕ)
      → (d == b'*') ≡ false
      → StarReady most stars star (d ∷ p) (c ∷ t)
      → StarReady most stars star p t
  StarReady-next stars d c none p t h r = tt
  StarReady-next stars d c (some (ps, ts)) p t h (le, lt, free, s) =
      (le, lt, free, Synced-next d c ps ts p t h s)

  -- A byte that matches is taken.
  value-next :
      (d c : ℕ) (star : Star) (p t : List ℕ)
      → (d == b'*') ≡ false
      → matches_byte d c ≡ true
      → value star p t ≡ value star (d ∷ p) (c ∷ t)
  unfolding wild
  value-next d c none p t h m = rw (h, m) refl
  value-next d c (some (ps, ts)) p t h m = rw (h, m) refl

  -- A star takes the place of the last one.
  value-star :
      (stars c : ℕ) (star : Star) (p t : List ℕ)
      → StarReady most stars star (b'*' ∷ p) (c ∷ t)
      → value (some (p, c ∷ t)) p (c ∷ t) ≡ value star (b'*' ∷ p) (c ∷ t)
  unfolding wild any_suffix
  value-star stars c none p t r = refl
  value-star stars c (some (ps, ts)) p t (le, lt, free, s) =
      elim (Bool-cases (later (wild ps) ts)) [
        | inl longer ↦
            let here : any_suffix (wild p) (c ∷ t) ≡ true = later-star ps ts p (c ∷ t) s longer in
            rw longer (ground (arith, here))
        | inr no_longer ↦ rw no_longer (ground arith)
      ]

  -- A byte that does not match leaves the longer matches of the last star.
  value-back :
      (c : ℕ) (ts ps p t : List ℕ)
      → wild p (c ∷ t) ≡ false
      → Synced ps ts p (c ∷ t)
      → value (some (ps, drop 1 ts)) ps (drop 1 ts) ≡ value (some (ps, ts)) p (c ∷ t)
  unfolding any_suffix
  value-back c [] ps p t w (seg, m, e, e', n, free) =
      absurd (omega (arith, ap length e', length-append m (c ∷ t)))
  value-back c (x ∷ []) ps p t w s = rw w (ground arith)
  value-back c (x ∷ y ∷ ts) ps p t w s = rw w refl

  Synced-start : (ps ts : List ℕ) → Synced ps ts ps ts
  unfolding contains
  Synced-start ps ts = ([], [], refl, refl, refl, refl)

  at_least :
      (ps ts p : List ℕ) (c : ℕ) (t : List ℕ) → Synced ps ts p (c ∷ t) → length (c ∷ t) ≤ length ts
  at_least ps ts p c t (seg, m, e, e', n, free) =
      omega (arith, ap length e', length-append m (c ∷ t))

  free_parts :
      (c : ℕ) (t : List ℕ)
      → contains b'*' (c ∷ t) ≡ false
      → ((c == b'*') ≡ false) × (contains b'*' t ≡ false)
  unfolding contains
  free_parts c t h = ground arith

  free_drop : (ts : List ℕ) → contains b'*' ts ≡ false → contains b'*' (drop 1 ts) ≡ false
  free_drop [] h = h
  free_drop (c ∷ ts) h = (free_parts c ts h).1

  star-differs : (c : ℕ) → (c == b'*') ≡ false → matches_byte b'*' c ≡ false
  star-differs c h = ground arith

  no_match :
      (d c : ℕ) (p t : List ℕ)
      → (d == b'*') ≡ false
      → matches_byte d c ≡ false
      → wild (d ∷ p) (c ∷ t) ≡ false
  unfolding wild
  no_match d c p t h m = rw (h, m) refl

  -- The step back to the last star, with one less left.
  back-value :
      (stars c : ℕ) (back : Rounds) (star : Star) (p t : List ℕ)
      → ((n : ℕ) → stars ≡ suc n → Answers most n most back)
      → length (c ∷ t) ≤ stars
      → StarReady most stars star p (c ∷ t)
      → wild p (c ∷ t) ≡ false
      → go_back back star ≡ some (value star p (c ∷ t))
  back-value stars c back none p t h le r w = rw w refl
  back-value stars c back (some (ps, ts)) p t h le (ts_le, lt, free, s) w =
      let n : stars ≡ suc (stars - 1) = omega arith in
      let short : length (drop 1 ts) ≡ length ts - 1 = length-drop 1 ts in
      let pos : length (c ∷ t) ≤ length ts = at_least ps ts p c t s in
      h (stars - 1) n (some (ps, drop 1 ts)) ps (drop 1 ts) (
        omega arith,
        omega arith,
        omega arith,
        free_drop ts free,
        (omega arith, omega arith, free_drop ts free, Synced-start ps (drop 1 ts)),
      )
      ∙ ap some (value-back c ts ps p t w s)

  round-value :
      (stars steps : ℕ) (next back : Rounds)
      → Answers most stars steps next
      → ((n : ℕ) → stars ≡ suc n → Answers most n most back)
      → Answers most stars (suc steps) (glob_round next back)
  unfolding glob_round
  round-value stars steps next back h k none p [] r = ap some (only_stars-wild p)
  round-value stars steps next back h k (some (ps, ts)) p [] (a, b, le, free, (c, d, f, s)) =
      elim (Bool-cases (later (wild ps) ts)) [
        | inl longer ↦ absurd (later_end ps ts p s longer)
        | inr no_longer ↦ rw no_longer (ap some (only_stars-wild p ∙ ground arith))
      ]
  round-value stars steps next back h k star [] (c ∷ t) (a, b, le, free, r) =
      unfold wild in back-value stars c back star [] t k le r refl
  round-value stars steps next back h k star (d ∷ p) (c ∷ t) (a, b, le, free, r) =
      let (c_free, t_free) = free_parts c t free in
      elim (Bool-cases (d == b'*')) [
        | inl is_star ↦
            let e : d ≡ b'*' = (==_iff d b'*').0 is_star in
            let differs : matches_byte d c ≡ false = rw e (star-differs c c_free) in
            rw (differs, is_star)
              (h (some (p, c ∷ t)) p (c ∷ t) (
                omega arith,
                omega arith,
                le,
                free,
                (le, omega arith, free, Synced-start p (c ∷ t)),
              )
                ∙ ap some (
                    subst (λ x. value (some (p, c ∷ t)) p (c ∷ t) ≡ value star (x ∷ p) (c ∷ t))
                      (sym e)
                      (value-star stars c star p t
                        (subst (λ x. StarReady most stars star (x ∷ p) (c ∷ t)) e r))))
        | inr other ↦ elim (Bool-cases (matches_byte d c)) [
          | inl taken ↦ rw taken (
              h star p t (
                omega arith,
                omega arith,
                omega arith,
                t_free,
                StarReady-next stars d c star p t other r,
              )
              ∙ ap some (value-next d c star p t other taken))
          | inr stuck ↦
              rw (stuck, other)
                (back-value stars c back star (d ∷ p) t k le r (no_match d c p t other stuck))
        ]
      ]

  loop-value : (stars steps : ℕ) → Answers most stars steps (glob_loop most stars steps)
  unfolding glob_loop
  loop-value stars zero = λ star p t r. absurd (omega (arith, r.0))
  loop-value zero (suc steps) =
      round-value zero steps (glob_loop most zero steps) (λ t p s. none) (loop-value zero steps)
        (λ n e. absurd (omega arith))
  loop-value (suc stars) (suc steps) =
      round-value (suc stars) steps (glob_loop most (suc stars) steps) (glob_loop most stars most)
        (loop-value (suc stars) steps)
        (λ n e.
          subst (λ k. Answers most k most (glob_loop most stars most)) (omega arith)
            (loop-value stars most))

-- The rounds that `glob_matches_bytes` runs: one step back more than the text has bytes.
abbrev pub glob_run : List ℕ → List ℕ → Option Bool
glob_run text pattern =
    let most = length text + length pattern + 1 in
    glob_loop most (length text + 1) most text pattern none

-- On a text without a star, the loop of the matching of a glob ends before its rounds run out, with
-- an answer that the matching returns: true exactly where the pattern matches the whole text, a
-- star any bytes, a question mark one byte, another byte itself.
pub glob_matches_bytes-wild :
    (text pattern : List ℕ)
    → contains b'*' text ≡ false
    → (glob_run text pattern ≡ some (wild pattern text))
      × (glob_matches_bytes text pattern ≡ wild pattern text)
unfolding glob_matches_bytes
glob_matches_bytes-wild text pattern free =
    let most : ℕ = length text + length pattern + 1 in
    let ends : glob_run text pattern ≡ some (wild pattern text) =
      loop-value most (length text + 1) most none pattern text
        (omega arith, omega arith, omega arith, free, tt) in
    (ends, ap is_match ends)
