-- ===== src/Tokenizer/Merging.antt =====
-- `merge_boundaries` of tokenizer/mod.rs is the union of two ascending lists of positions.
use syntext.Prelude.{
  ℕ, zero, suc, ◌≤◌, ◌≡◌, refl, Bool, false, ◌||◌, Option, none, some, List, [], ◌∷◌, Bool-cases,
  inl, inr, arith,
}
use syntext.Tokenizer.Grams.{is_last, push_merged, merge_from, merge_boundaries}
use syntext.Tokenizer.Positions.{positions}

-- The list is empty or starts at `lo` or above.
abbrev Starts : ℕ → List ℕ → Type 0
Starts lo [] = Unit {0}
Starts lo (x ∷ xs) = lo ≤ x

positions-Starts : (f : ℕ → Bool) (lo i k : ℕ) → lo ≤ i → Starts lo (positions f i k)
unfolding positions
positions-Starts f lo i zero h = tt
positions-Starts f lo i (suc k) h = ground (arith, positions-Starts f lo (suc i) k (omega arith))

merge_base :
    (last : Option ℕ) (b : ℕ) (base extra : List ℕ)
    → Starts (suc b) extra
    → merge_from last (b ∷ base) extra ≡ push_merged last b (merge_from (some b) base extra)
unfolding merge_from
merge_base last b base [] h = refl
merge_base last b base (e ∷ extra) h = ground arith

merge_extra :
    (last : Option ℕ) (e : ℕ) (base extra : List ℕ)
    → Starts (suc e) base
    → merge_from last base (e ∷ extra) ≡ push_merged last e (merge_from (some e) base extra)
unfolding merge_from
merge_extra last e [] extra h = refl
merge_extra last e (b ∷ base) extra h = ground arith

merge_both :
    (last : Option ℕ) (b : ℕ) (base extra : List ℕ)
    → merge_from last (b ∷ base) (b ∷ extra) ≡ push_merged last b (merge_from (some b) base extra)
unfolding merge_from
merge_both last b base extra = ground arith

push_fresh :
    (last : Option ℕ) (b : ℕ) (later : List ℕ)
    → is_last last b ≡ false
    → push_merged last b later ≡ b ∷ later
unfolding push_merged
push_fresh last b later h = rw h

merge_from-positions :
    (f g : ℕ → Bool) (last : Option ℕ) (i k : ℕ)
    → ((j : ℕ) → i ≤ j → is_last last j ≡ false)
    → merge_from last (positions f i k) (positions g i k) ≡ positions (λ j. f j || g j) i k
unfolding positions
merge_from-positions f g last i zero fresh = unfold merge_from in refl
merge_from-positions f g last i (suc k) fresh =
    let taken : merge_from (some i) (positions f (suc i) k) (positions g (suc i) k)
        ≡ positions (λ j. f j || g j) (suc i) k =
      merge_from-positions f g (some i) (suc i) k (λ j a. ground arith) in
    elim (Bool-cases (f i)) [
      | inl hf ↦ elim (Bool-cases (g i)) [
        | inl hg ↦
            rw (hf, hg, merge_both last i, push_fresh last i _ (fresh i (omega arith)), taken)
        | inr hg ↦ rw (
          hf,
          hg,
          merge_base last i _ _ (positions-Starts g (suc i) (suc i) k (omega arith)),
          push_fresh last i _ (fresh i (omega arith)),
          taken,
        )
      ]
      | inr hf ↦ elim (Bool-cases (g i)) [
        | inl hg ↦ rw (
          hf,
          hg,
          merge_extra last i _ _ (positions-Starts f (suc i) (suc i) k (omega arith)),
          push_fresh last i _ (fresh i (omega arith)),
          taken,
        )
        | inr hg ↦
            rw (hf, hg) (merge_from-positions f g last (suc i) k (λ j a. fresh j (omega arith)))
      ]
    ]

pub merge_boundaries-positions :
    (f g : ℕ → Bool) (i k : ℕ)
    → merge_boundaries (positions f i k) (positions g i k) ≡ positions (λ j. f j || g j) i k
unfolding merge_boundaries
merge_boundaries-positions f g i k = merge_from-positions f g none i k (λ j a. refl)
