-- ===== src/Tokenizer/Required.antt =====
-- The grams that a query requires are grams of every document that holds the query's text: an
-- indexed search misses no match (tokenizer/covering.rs against tokenizer/mod.rs).
use mathlib.Core.List.{map-append}
use syntext.Prelude.{
  ℕ, suc, ◌+◌, ◌-◌, ◌≤◌, ◌<◌, ◌≡◌, refl, sym, ap, ◌∙◌, inl, inr, Bool, true, false, List, [], ◌∷◌,
  ◌++◌, Memᴰ, slice, slice-within, get_or, length, length-map, length-append, All, Bool-cases, none,
  some, if◌then◌else◌, is_empty, ltb, arith,
}
use syntext.Tokenizer.Boundaries.{
  Tables, is_forced_boundary, to_ascii_lowercase, lowercase, cuts_lower, cuts_cased, boundaries,
  boundary_positions_lower, boundary_positions, min_gram_len,
}
use syntext.Tokenizer.Grams.{Window, windows, has_gram_len, gram_hash, build_all}
use syntext.Tokenizer.Covering.{
  CoveringSet, is_anchored, classify, build_covering, anchored_grams, build_covering_inner,
  push_tier, is_empty_set,
}
use syntext.Tokenizer.Positions.{IsSpan, windows-IsSpan, windows-bounded, span-mem-windows}
use syntext.Tokenizer.Spans.{cut_at, boundaries-positions, cut_at_start, cut_at_stop, IsSpan-within}
use syntext.Tokenizer.Camel.{forced-lowercase, get_or-lowercase}
use syntext.Tokenizer.Indexed.{lower_window-mem, window-mem}

All-zip {ℓ κ μ ν} :
    {A : Type ℓ} (P : A → Type κ) (Q : A → Type μ) (R : A → Type ν) (xs : List A)
    → ((x : A) → P x → Q x → R x)
    → All P xs
    → All Q xs
    → All R xs
All-zip P Q R [] f p q = tt
All-zip P Q R (x ∷ xs) f p q = (f x p.0 q.0, All-zip P Q R xs f p.1 q.1)

guarded-some :
    {A : Type 0} (short empty : Bool) (x y : A)
    → (if short then none else if empty then none else some x) ≡ some y
    → x ≡ y
guarded-some true empty x y h = cc
guarded-some false true x y h = cc
guarded-some false false x y h = cc

-- A window moved by the length of what precedes the text.
abbrev moved : ℕ → Window → Window
moved n w = (n + w.0, n + w.1)

-- `lower` is the text `m` as the query looks at it for forced bytes.
module _ (cut : ℕ → ℕ → Bool) (lower m : List ℕ) (same_length : length lower ≡ length m)
    (first : is_forced_boundary (get_or lower 0 0) ≡ true → (x : ℕ) → cut x (get_or m 0 0) ≡ true)
    (last : is_forced_boundary (get_or lower (length lower - 1) 0) ≡ true
      → (x : ℕ) → cut (get_or m (length m - 1) 0) x ≡ true)
    (a c : List ℕ) where
  forced_first :
      (s e : ℕ)
      → is_anchored lower (s, e) ≡ true
      → s ≡ 0
      → is_forced_boundary (get_or lower 0 0) ≡ true
  unfolding is_anchored
  forced_first s e h z = ground arith

  forced_last :
      (s e : ℕ)
      → is_anchored lower (s, e) ≡ true
      → e ≡ length m
      → is_forced_boundary (get_or lower (length lower - 1) 0) ≡ true
  unfolding is_anchored
  forced_last s e h z = ground arith

  -- An anchored span of the text is a window of every text around it.
  anchored-span :
      (w : Window)
      → IsSpan (cut_at cut m) w
      → w.1 < suc (length m)
      → is_anchored lower w ≡ true
      → (w.1 ≤ length m) × Memᴰ (moved (length a) w) (windows (boundaries cut (a ++ (m ++ c))))
  anchored-span (s, e) w b h = (
    omega arith,
    rw (boundaries-positions cut (a ++ (m ++ c))) (
        span-mem-windows (cut_at cut (a ++ (m ++ c))) (length (a ++ (m ++ c)))
          (unfold cut_at in refl) (length a + s, length a + e)
          (IsSpan-within cut a m c s e (omega arith) w
            (λ z. cut_at_start cut a m c (omega (arith, w.nonempty)) (first (forced_first s e h z)))
            (λ z. cut_at_stop cut a m c (omega (arith, w.nonempty)) (last (forced_last s e h z))))
          (omega (arith, length-append a (m ++ c), length-append m c))),
  )

  anchored-windows :
      All
        (λ w.
          is_anchored lower w ≡ true
          → (w.1 ≤ length m) × Memᴰ (moved (length a) w) (windows (boundaries cut (a ++ (m ++ c)))))
        (windows (boundaries cut m))
  anchored-windows = rw (boundaries-positions cut m) (
      All-zip (IsSpan (cut_at cut m)) (λ w. w.1 < suc (length m)) _ _ anchored-span
        (windows-IsSpan (cut_at cut m) (length m) (unfold cut_at in refl))
        (windows-bounded (cut_at cut m) (length m) (unfold cut_at in refl)))

All-map {ℓ κ μ} :
    {A : Type ℓ} (P : A → Type κ) (Q : A → Type μ) (xs : List A)
    → ((x : A) → P x → Q x)
    → All P xs
    → All Q xs
All-map P Q [] f p = tt
All-map P Q (x ∷ xs) f p = (f x p.0, All-map P Q xs f p.1)

module _ (t : Tables) (found : ℕ → Type 0) (lower : List ℕ) where
  -- The gram of an anchored window is found.
  abbrev FindsAnchored : Window → Type 0
  FindsAnchored w =
      is_anchored lower w ≡ true → has_gram_len w ≡ true → found (gram_hash t (slice lower w.0 w.1))

  classify-found :
      (ws : List Window) → All FindsAnchored ws → All found (classify t lower ws).required
  unfolding classify push_tier
  classify-found [] h = tt
  classify-found ((s, e) ∷ ws) h = elim (Bool-cases (has_gram_len (s, e))) [
    | inl len ↦ elim (Bool-cases (is_anchored lower (s, e))) [
      | inl real ↦ rw (len, real) (h.0 real len, classify-found ws h.1)
      | inr free ↦ rw (len, free) (classify-found ws h.1)
    ]
    | inr short ↦ rw short (classify-found ws h.1)
  ]

  anchored_grams-found :
      (ws : List Window) → All FindsAnchored ws → All found (anchored_grams t lower ws)
  unfolding anchored_grams
  anchored_grams-found [] h = tt
  anchored_grams-found (w ∷ ws) h = elim (Bool-cases (has_gram_len w)) [
    | inl len ↦ elim (Bool-cases (is_anchored lower w)) [
      | inl real ↦ rw (len, real) (h.0 real len, anchored_grams-found ws h.1)
      | inr free ↦ rw (len, free) (anchored_grams-found ws h.1)
    ]
    | inr short ↦ rw short (anchored_grams-found ws h.1)
  ]

module _ (t : Tables) where
  forced_cuts_lower :
      (b : ℕ)
      → is_forced_boundary b ≡ true
      → ((x : ℕ) → cuts_lower t x b ≡ true) × ((x : ℕ) → cuts_lower t b x ≡ true)
  unfolding cuts_lower
  forced_cuts_lower b h = (λ x. rw h, λ x. ground arith)

  forced_cuts_cased :
      (b : ℕ)
      → is_forced_boundary b ≡ true
      → ((x : ℕ) → cuts_cased t x b ≡ true) × ((x : ℕ) → cuts_cased t b x ≡ true)
  unfolding cuts_cased
  forced_cuts_cased b h = (λ x. rw h, λ x. ground arith)

  length-lowercase : (bytes : List ℕ) → length (lowercase bytes) ≡ length bytes
  length-lowercase bytes = length-map to_ascii_lowercase bytes

  lowercase-parts :
      (a m c : List ℕ) → lowercase (a ++ (m ++ c)) ≡ lowercase a ++ (lowercase m ++ lowercase c)
  lowercase-parts a m c =
      rw (map-append to_ascii_lowercase a (m ++ c), map-append to_ascii_lowercase m c)

  -- A gram of the part `m` stands in the whole text at the moved window.
  gram-within :
      (a m c : List ℕ) (w : Window)
      → w.1 ≤ length m
      → gram_hash t (slice (lowercase (a ++ (m ++ c))) (length a + w.0) (length a + w.1))
        ≡ gram_hash t (slice (lowercase m) w.0 w.1)
  gram-within a m c w h =
      rw (lowercase-parts a m c, ← length-lowercase a)
        (ap (gram_hash t) (
          slice-within (lowercase a) (lowercase m) (lowercase c) w.0 w.1
            (omega (arith, length-lowercase m))))

  moved_len : (n : ℕ) (w : Window) → has_gram_len (moved n w) ≡ has_gram_len w
  moved_len n (s, e) = let d : (n + e) - (n + s) ≡ e - s = omega arith in rw d

  forced_cased :
      (m : List ℕ) (i : ℕ)
      → is_forced_boundary (get_or (lowercase m) i 0) ≡ true
      → is_forced_boundary (get_or m i 0) ≡ true
  forced_cased m i h = sym (forced-lowercase (get_or m i 0)) ∙ (rw (get_or-lowercase m i) at h)

  -- `build_all` emits the gram for the text.
  abbrev pub IndexedIn : List ℕ → ℕ → Type 0
  IndexedIn bytes g = Memᴰ g (build_all t bytes)

  lower-found :
      (a m c : List ℕ)
      → All
          (FindsAnchored t (IndexedIn (a ++ (m ++ c))) (lowercase m))
          (windows (boundary_positions_lower t (lowercase m)))
  unfolding boundary_positions_lower
  lower-found a m c =
      All-map _ _ _
        (λ w f real len.
          let (bound, hit) = f real in
          let mem : Memᴰ (moved (length a) w)
              (windows (boundary_positions_lower t (lowercase (a ++ (m ++ c))))) =
            rw (lowercase-parts a m c) (rw (length-lowercase a) at hit) in
          rw (← gram-within a m c w (rw (length-lowercase m) at bound)) (
            lower_window-mem t (a ++ (m ++ c)) (moved (length a) w) mem
              (moved_len (length a) w ∙ len)))
        (anchored-windows (cuts_lower t) (lowercase m) (lowercase m) refl
          (λ h. (forced_cuts_lower _ h).0) (λ h. (forced_cuts_lower _ h).1) (lowercase a)
          (lowercase c))

  cased-found :
      (a m c : List ℕ)
      → All
          (FindsAnchored t (IndexedIn (a ++ (m ++ c))) (lowercase m))
          (windows (boundary_positions t m))
  unfolding boundary_positions
  cased-found a m c =
      All-map _ _ _
        (λ w f real len.
          let (bound, hit) = f real in
          rw (← gram-within a m c w bound)
            (window-mem t (a ++ (m ++ c)) (moved (length a) w) hit (moved_len (length a) w ∙ len)))
        (anchored-windows (cuts_cased t) (lowercase m) m (length-lowercase m)
          (λ h. (forced_cuts_cased _ (forced_cased m 0 h)).0)
          (λ h.
            (forced_cuts_cased _ (forced_cased m (length m - 1) (rw (length-lowercase m) at h))).1)
          a c)

  -- The grams that `build_covering` requires for a pattern are indexed for every document that holds
  -- a text with the pattern's ASCII-lowercased bytes: case-sensitive and ASCII case-insensitive
  -- matches alike.
  pub build_covering-required :
      (pattern : List ℕ) (covering : CoveringSet) (a m c : List ℕ)
      → build_covering t pattern ≡ some covering
      → lowercase m ≡ lowercase pattern
      → All (IndexedIn (a ++ (m ++ c))) covering.required
  build_covering-required pattern covering a m c built same_text =
      let tiers : CoveringSet =
        classify t (lowercase pattern) (windows (boundary_positions_lower t (lowercase pattern))) in
      let guards : (if ltb (length pattern) min_gram_len
            then none
            else if is_empty_set tiers
            then none
            else some tiers)
          ≡ some covering =
        unfold build_covering in built in
      let parts : tiers ≡ covering = guarded-some _ _ tiers covering guards in
      rw (← parts, ← same_text)
        (classify-found t (IndexedIn (a ++ (m ++ c))) (lowercase m) _ (lower-found a m c))

  -- The grams of `build_covering_inner` for a fragment of a regex are indexed for every document
  -- that holds the fragment.
  pub build_covering_inner-indexed :
      (fragment grams a c : List ℕ)
      → build_covering_inner t fragment ≡ some grams
      → All (IndexedIn (a ++ (fragment ++ c))) grams
  build_covering_inner-indexed fragment grams a c built =
      let hashes : List ℕ =
        anchored_grams t (lowercase fragment) (windows (boundary_positions t fragment)) in
      let guards : (if ltb (length fragment) min_gram_len
            then none
            else if is_empty hashes
            then none
            else some hashes)
          ≡ some grams =
        unfold build_covering_inner in built in
      let parts : hashes ≡ grams = guarded-some _ _ hashes grams guards in
      rw (← parts) (
        anchored_grams-found t (IndexedIn (a ++ (fragment ++ c))) (lowercase fragment) _
          (cased-found a fragment c))
