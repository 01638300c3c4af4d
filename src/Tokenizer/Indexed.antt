-- ===== src/Tokenizer/Indexed.antt =====
-- What `build_all` indexes: every span of the lowercased text, and every span between the
-- boundaries of `boundary_positions`.
use syntext.Prelude.{
  ℕ, ◌≡◌, refl, ◌⊎◌, inl, inr, true, List, [], ◌∷◌, ◌++◌, Memᴰ, slice, is_empty, if◌then◌else◌,
  Bool-cases, arith, is_empty,
}
use mathlib.Core.List.Memᴰ
use syntext.Tokenizer.Boundaries.{
  Tables, lowercase, boundary_positions_lower, boundary_positions, camel_case_boundaries,
}
use syntext.Tokenizer.Grams.{
  Window, windows, has_gram_len, precedes, same_window, skip_before, starts_with, gram_hash,
  push_gram, grams_for_boundaries, new_grams_for_boundaries, merge_boundaries, build_all,
}
use syntext.Tokenizer.Camel.{merged-boundaries, boundary_positions-lowercase}

skip_before-mem :
    {x : Window} (w : Window) (base : List Window) → Memᴰ x (skip_before w base) → Memᴰ x base
unfolding skip_before
skip_before-mem w [] m = m
skip_before-mem w (b ∷ base) m = elim (Bool-cases (precedes b w)) [
  | inl e ↦ Memᴰ.tail (skip_before-mem w base (rw (e, skip_before) at m))
  | inr e ↦ rw (e, skip_before) at m
]

same_window→eq : (v w : Window) → same_window v w ≡ true → w ≡ v
same_window→eq (a, b) (c, d) h = ground arith

starts_with→mem : (w : Window) (base : List Window) → starts_with w base ≡ true → Memᴰ w base
unfolding starts_with
starts_with→mem w [] h = absurd (ground arith)
starts_with→mem w (b ∷ base) h = Memᴰ.head (same_window→eq b w h)

module _ (t : Tables) (lower : List ℕ) where
  abbrev gram : Window → ℕ
  gram w = gram_hash t (slice lower w.0 w.1)

  push_gram_mem :
      (w : Window) (later : List ℕ)
      → has_gram_len w ≡ true
      → Memᴰ (gram w) (push_gram t lower w later)
  unfolding push_gram
  push_gram_mem (s, e) later h = rw h (Memᴰ.head refl)

  push_gram_later :
      {g : ℕ} (w : Window) (later : List ℕ) → Memᴰ g later → Memᴰ g (push_gram t lower w later)
  unfolding push_gram
  push_gram_later (s, e) later m = elim (Bool-cases (has_gram_len (s, e))) [
    | inl h ↦ rw h (Memᴰ.tail m)
    | inr h ↦ rw h m
  ]

  grams-mem :
      (w : Window) (ws : List Window)
      → Memᴰ w ws
      → has_gram_len w ≡ true
      → Memᴰ (gram w) (grams_for_boundaries t lower ws)
  unfolding grams_for_boundaries
  grams-mem w [] m h = elim m [ ]
  grams-mem w (v ∷ ws) (Memᴰ.head e) h = rw e (push_gram_mem v _ (rw e at h))
  grams-mem w (v ∷ ws) (Memᴰ.tail m) h = push_gram_later v _ (grams-mem w ws m h)

  -- A merged window gives a new gram, or is a window of the base.
  new_grams-mem :
      (w : Window) (base merged : List Window)
      → Memᴰ w merged
      → has_gram_len w ≡ true
      → Memᴰ (gram w) (new_grams_for_boundaries t lower base merged) ⊎ Memᴰ w base
  unfolding new_grams_for_boundaries
  new_grams-mem w base [] m h = elim m [ ]
  new_grams-mem w base (v ∷ merged) (Memᴰ.head e) h =
      elim (Bool-cases (starts_with v (skip_before v base))) [
        | inl hit ↦ inr (rw e (skip_before-mem v base (starts_with→mem v _ hit)))
        | inr miss ↦ inl (rw (miss, e) (push_gram_mem v _ (rw e at h)))
      ]
  new_grams-mem w base (v ∷ merged) (Memᴰ.tail m) h =
      elim (new_grams-mem w (skip_before v base) merged m h) [
        | inl found ↦ inl (later found)
        | inr old ↦ inr (skip_before-mem v base old)
      ]
    where
      later :
          Memᴰ (gram w) (new_grams_for_boundaries t lower (skip_before v base) merged)
          → Memᴰ (gram w) (new_grams_for_boundaries t lower base (v ∷ merged))
      later found = elim (Bool-cases (starts_with v (skip_before v base))) [
        | inl hit ↦ rw hit found
        | inr miss ↦ rw miss (push_gram_later v _ found)
      ]

is_empty→eq : (xs : List ℕ) → is_empty xs ≡ true → xs ≡ []
is_empty→eq [] h = refl
is_empty→eq (x ∷ xs) h = cc

module _ (t : Tables) (bytes : List ℕ) where
  abbrev lower_grams : List ℕ
  lower_grams =
      grams_for_boundaries t (lowercase bytes)
        (windows (boundary_positions_lower t (lowercase bytes)))

  abbrev camel_grams : List ℕ
  camel_grams =
      new_grams_for_boundaries t (lowercase bytes)
        (windows (boundary_positions_lower t (lowercase bytes)))
        (windows (
          merge_boundaries (boundary_positions_lower t (lowercase bytes))
            (camel_case_boundaries bytes)))

  abbrev all_grams : List ℕ
  all_grams =
      if is_empty (camel_case_boundaries bytes) then lower_grams else lower_grams ++ camel_grams

module _ (t : Tables) where
  build_all_lem : (bytes : List ℕ) → build_all t bytes ≡ all_grams t bytes
  build_all_lem [] = unfold build_all in refl
  build_all_lem (b ∷ bytes) = unfold build_all in refl

  lower_grams-mem :
      {g : ℕ} (bytes : List ℕ) → Memᴰ g (lower_grams t bytes) → Memᴰ g (build_all t bytes)
  lower_grams-mem bytes m = elim (Bool-cases (is_empty (camel_case_boundaries bytes))) [
    | inl e ↦ rw (build_all_lem, e) m
    | inr e ↦ rw (build_all_lem, e) (Memᴰ.append_left _ m)
  ]

  -- Every span of the lowercased text with a gram's length is indexed.
  pub lower_window-mem :
      (bytes : List ℕ) (w : Window)
      → Memᴰ w (windows (boundary_positions_lower t (lowercase bytes)))
      → has_gram_len w ≡ true
      → Memᴰ (gram_hash t (slice (lowercase bytes) w.0 w.1)) (build_all t bytes)
  lower_window-mem bytes w m h = lower_grams-mem bytes (grams-mem t (lowercase bytes) w _ m h)

  -- So is every span between the boundaries of the text as it is written.
  pub window-mem :
      (bytes : List ℕ) (w : Window)
      → Memᴰ w (windows (boundary_positions t bytes))
      → has_gram_len w ≡ true
      → Memᴰ (gram_hash t (slice (lowercase bytes) w.0 w.1)) (build_all t bytes)
  window-mem bytes w m h = elim (Bool-cases (is_empty (camel_case_boundaries bytes))) [
    | inl e ↦
        lower_window-mem bytes w
          (rw (← boundary_positions-lowercase t bytes (is_empty→eq _ e)) at m) h
    | inr e ↦
        elim (new_grams-mem t (lowercase bytes) w _ _ (rw (← merged-boundaries t bytes) at m) h) [
          | inl found ↦ rw (build_all_lem, e) (Memᴰ.append_right _ found)
          | inr old ↦ lower_window-mem bytes w old h
        ]
  ]
