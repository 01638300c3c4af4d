-- ===== src/Tokenizer/Positions.antt =====
-- Boundary positions described by a test on positions: the lists that the loops of
-- tokenizer/mod.rs build, and the windows over them.
use syntext.Prelude.{
  ℕ, zero, suc, ◌+◌, ◌≤◌, ◌<◌, ◌≡◌, refl, inl, inr, Bool, true, false, List, [], ◌∷◌, ◌++◌, Memᴰ,
  if◌then◌else◌, All, length, get_or, Bool-cases, arith,
}
use native.Mathlib.Decide.{dec_lt, ℕ_discrete}
use native.Mathlib.Nat.{add-zero}
use syntext.Tokenizer.Boundaries.{interior, dedup_from, dedup}
use syntext.Tokenizer.Grams.{Window, windows_from, windows}

-- The positions from `i` on, `k` of them looked at, that pass the test.
unfoldable pub positions : (ℕ → Bool) → ℕ → ℕ → List ℕ
positions f i zero = []
positions f i (suc k) = let later = positions f (suc i) k in if f i then i ∷ later else later

-- Two neighbouring positions that pass, with none between them that does.
pub record IsSpan (f : ℕ → Bool) (w : Window) : Type 0 where
  pub nonempty : w.0 < w.1
  pub from : f w.0 ≡ true
  pub to : f w.1 ≡ true
  pub solid : (i : ℕ) → w.0 < i → i < w.1 → f i ≡ false

extend_gap :
    (f : ℕ → Bool) (p i : ℕ)
    → ((j : ℕ) → p < j → j < i → f j ≡ false)
    → f i ≡ false
    → (j : ℕ) → p < j
    → j < suc i
    → f j ≡ false
extend_gap f p i gap e j a b = elim (dec_lt j i) [
  | yes h ↦ gap j a h
  | no h ↦ let same : j ≡ i = omega arith in rw same e
]

-- Every window is a span.
windows_from-IsSpan :
    (f : ℕ → Bool) (p i k : ℕ)
    → p < i
    → f p ≡ true
    → ((j : ℕ) → p < j → j < i → f j ≡ false)
    → All (IsSpan f) (windows_from p (positions f i k))
unfolding positions windows_from
windows_from-IsSpan f p i zero h fp gap = tt
windows_from-IsSpan f p i (suc k) h fp gap = elim (Bool-cases (f i)) [
  | inl e ↦ rw e (
    record { nonempty = h; from = fp; to = e; solid = gap },
    windows_from-IsSpan f i (suc i) k (omega arith) e (λ j a b. absurd (omega arith)),
  )
  | inr e ↦ rw e (windows_from-IsSpan f p (suc i) k (omega arith) fp (extend_gap f p i gap e))
]

windows_from-bounded :
    (f : ℕ → Bool) (p i k n : ℕ)
    → i + k ≤ n
    → All (λ (w : Window). w.1 < n) (windows_from p (positions f i k))
unfolding positions windows_from
windows_from-bounded f p i zero n h = tt
windows_from-bounded f p i (suc k) n h = elim (Bool-cases (f i)) [
  | inl e ↦ rw e (omega arith, windows_from-bounded f i (suc i) k n (omega arith))
  | inr e ↦ rw e (windows_from-bounded f p (suc i) k n (omega arith))
]

-- Every span is a window: from its start on, then from any earlier start.
span-mem-windows_from :
    (f : ℕ → Bool) (s e i k : ℕ)
    → i ≤ e
    → e < i + k
    → f e ≡ true
    → ((j : ℕ) → i ≤ j → j < e → f j ≡ false)
    → Memᴰ (s, e) (windows_from s (positions f i k))
unfolding positions windows_from
span-mem-windows_from f s e i zero a b fe gap = absurd (omega arith)
span-mem-windows_from f s e i (suc k) a b fe gap = elim (ℕ_discrete i e) [
  | yes same ↦ rw (same, fe) (Memᴰ.head refl)
  | no other ↦
      let skip : f i ≡ false = gap i (omega arith) (omega arith) in
      rw skip (
        span-mem-windows_from f s e (suc i) k (omega arith) (omega arith) fe
          (λ j c d. gap j (omega arith) d))
]

span-mem-later :
    (f : ℕ → Bool) (s e p i k : ℕ)
    → i ≤ s
    → e < i + k
    → IsSpan f (s, e)
    → Memᴰ (s, e) (windows_from p (positions f i k))
unfolding positions windows_from
span-mem-later f s e p i zero a b w = absurd (omega (arith, w.nonempty))
span-mem-later f s e p i (suc k) a b w = elim (ℕ_discrete i s) [
  | yes same ↦
      rw (same, w.from)
        (Memᴰ.tail (
          span-mem-windows_from f s e (suc s) k w.nonempty (omega arith) w.to
            (λ j c d. w.solid j c d)))
  | no other ↦ elim (Bool-cases (f i)) [
    | inl hit ↦ rw hit (Memᴰ.tail (span-mem-later f s e i (suc i) k (omega arith) (omega arith) w))
    | inr miss ↦ rw miss (span-mem-later f s e p (suc i) k (omega arith) (omega arith) w)
  ]
]

module _ (f : ℕ → Bool) (n : ℕ) (start : f 0 ≡ true) where
  pub windows-IsSpan : All (IsSpan f) (windows (positions f 0 (suc n)))
  unfolding positions windows
  windows-IsSpan =
      rw start (windows_from-IsSpan f 0 1 n (omega arith) start (λ j a b. absurd (omega arith)))

  pub windows-bounded : All (λ (w : Window). w.1 < suc n) (windows (positions f 0 (suc n)))
  unfolding positions windows
  windows-bounded = rw start (windows_from-bounded f 0 1 n (suc n) (omega arith))

  pub span-mem-windows :
      (w : Window) → IsSpan f w → w.1 ≤ n → Memᴰ w (windows (positions f 0 (suc n)))
  unfolding positions windows
  span-mem-windows (zero, e) w h =
      rw start (span-mem-windows_from f 0 e 1 n w.nonempty (omega arith) w.to w.solid)
  span-mem-windows (suc s, e) w h =
      rw start (span-mem-later f (suc s) e 0 1 n (omega arith) (omega arith) w)

dedup_from-positions :
    (f : ℕ → Bool) (p i k : ℕ) → p < i → dedup_from p (positions f i k) ≡ positions f i k
unfolding positions dedup_from
dedup_from-positions f p i zero h = refl
dedup_from-positions f p i (suc k) h =
    ground (arith, dedup_from-positions f i (suc i) k, dedup_from-positions f p (suc i) k)

pub dedup-positions : (f : ℕ → Bool) (i k : ℕ) → dedup (positions f i k) ≡ positions f i k
unfolding positions dedup
dedup-positions f i zero = refl
dedup-positions f i (suc k) =
    ground (arith, dedup_from-positions f i (suc i) k, dedup-positions f (suc i) k)

-- What the byte loop finds is what the test passes, if the test looks at adjacent bytes.
pub interior-positions :
    (f : ℕ → Bool) (cut : ℕ → ℕ → Bool) (i left : ℕ) (rest : List ℕ)
    → ((j : ℕ) → j < length rest → f (i + j) ≡ cut (get_or (left ∷ rest) j 0) (get_or rest j 0))
    → interior cut i left rest ≡ positions f i (length rest)
unfolding interior positions
interior-positions f cut i left [] h = refl
interior-positions f cut i left (right ∷ rest) h =
    let here : f i ≡ cut left right = rw (← add-zero i) (h 0 (omega arith)) in
    let ih : interior cut (suc i) right rest ≡ positions f (suc i) (length rest) =
      interior-positions f cut (suc i) right rest
        (λ j a. let e : suc i + j ≡ i + suc j = omega arith in rw e (h (suc j) (omega arith))) in
    rw (ih, here)

pub positions_last :
    (f : ℕ → Bool) (i k n : ℕ)
    → i + k ≡ n
    → f n ≡ true
    → positions f i k ++ (n ∷ []) ≡ positions f i (suc k)
unfolding positions
positions_last f i zero n e h = let same : i ≡ n = omega arith in rw (same, h)
positions_last f i (suc k) n e h = ground (arith, positions_last f (suc i) k n (omega arith) h)

pub positions_miss :
    (f : ℕ → Bool) (i k n : ℕ) → i + k ≡ n → f n ≡ false → positions f i k ≡ positions f i (suc k)
unfolding positions
positions_miss f i zero n e h = let same : i ≡ n = omega arith in rw (same, h)
positions_miss f i (suc k) n e h = ground (arith, positions_miss f (suc i) k n (omega arith) h)

pub positions_none : (i k : ℕ) → positions (λ j. false) i k ≡ []
unfolding positions
positions_none i zero = refl
positions_none i (suc k) = positions_none (suc i) k
