-- ===== src/Segment/Dictionary.antt =====
-- The binary search of dict_read.rs against a dictionary whose records can be read and whose hashes
-- grow.
use syntext.Prelude.{
  ℕ, zero, suc, ◌+◌, ◌-◌, ◌/◌, ◌<◌, ◌≤◌, ◌≡◌, ◌≢◌, ◌⊎◌, refl, inl, inr, Option, none, some, ltb,
  ◌==◌, Bool-cases, arith, ==_iff,
}
use syntext.Segment.DictRead.{dict_search}

-- What a lookup among the first `n` records has to give: the postings of the record with that
-- hash, or none where there is no such record.
abbrev pub Looks : (ℕ → ℕ) → (ℕ → ℕ × ℕ) → ℕ → ℕ → Option (ℕ × ℕ) → Type 0
Looks hash postings n g r =
    ((i : ℕ) × (i < n) × (hash i ≡ g) × (r ≡ some (postings i)))
    ⊎ (((i : ℕ) → i < n → hash i ≢ g) × (r ≡ none))

module _ (read_hash : ℕ → Option ℕ) (read_postings : ℕ → Option (ℕ × ℕ)) (hash : ℕ → ℕ)
    (postings : ℕ → ℕ × ℕ) (n g : ℕ) (hashes_read : (i : ℕ) → i < n → read_hash i ≡ some (hash i))
    (postings_read : (i : ℕ) → i < n → read_postings i ≡ some (postings i))
    (increasing : (i j : ℕ) → i < j → j < n → hash i < hash j) where
  abbrev Below : ℕ → Type 0
  Below lo = (i : ℕ) → i < lo → hash i < g

  abbrev Above : ℕ → Type 0
  Above hi = (i : ℕ) → hi ≤ i → i < n → g < hash i

  absent : (lo hi : ℕ) → hi ≤ lo → Below lo → Above hi → (i : ℕ) → i < n → hash i ≢ g
  absent lo hi h below above i small e = elim (Bool-cases (ltb i lo)) [
    | inl left ↦ let less : i < lo = ground arith in omega (arith, below i less)
    | inr right ↦ let more : hi ≤ i = ground arith in omega (arith, above i more small)
  ]

  up_to : (mid : ℕ) → mid < n → hash mid < g → Below (mid + 1)
  up_to mid small less i h = elim (Bool-cases (ltb i mid)) [
    | inl left ↦ let before : i < mid = ground arith in omega (arith, increasing i mid before small)
    | inr right ↦ let here : i ≡ mid = ground arith in rw here less
  ]

  from_on : (mid : ℕ) → mid < n → g < hash mid → Above mid
  from_on mid small more i h bound = elim (Bool-cases (ltb mid i)) [
    | inl right ↦ let after : mid < i = ground arith in omega (arith, increasing mid i after bound)
    | inr left ↦ let here : i ≡ mid = ground arith in rw here more
  ]

  -- The rounds suffice, and what is outside of `lo..hi` is not the gram.
  search_lem :
      (rounds lo hi : ℕ)
      → hi ≤ lo + rounds
      → hi ≤ n
      → Below lo
      → Above hi
      → Looks hash postings n g (dict_search read_hash read_postings rounds g lo hi)
  unfolding dict_search
  search_lem zero lo hi h b below above = inr (absent lo hi (omega arith) below above, refl)
  search_lem (suc rounds) lo hi h b below above =
      let mid = lo + (hi - lo) / 2 in
      elim (Bool-cases (ltb lo hi)) [
        | inr done ↦ rw done (inr (absent lo hi (ground arith) below above, refl))
        | inl more ↦
            let low : lo < hi = ground arith in
            let m : mid < n = omega arith in
            elim (Bool-cases (hash mid == g)) [
              | inl same ↦
                  let e : hash mid ≡ g = ground (arith, ==_iff (hash mid) g) in
                  rw (more, hashes_read mid m, same, postings_read mid m) (inl (mid, m, e, refl))
              | inr other ↦ elim (Bool-cases (ltb (hash mid) g)) [
                | inl less ↦
                    rw (more, hashes_read mid m, other, less)
                      (search_lem rounds (mid + 1) hi (omega arith) b (up_to mid m (ground arith))
                        above)
                | inr greater ↦
                    rw (more, hashes_read mid m, other, greater)
                      (search_lem rounds lo mid (omega arith) (omega arith) below
                        (from_on mid m (ground arith)))
              ]
            ]
      ]

  -- Where the hashes of the `n` records grow and each record can be read, the search gives the
  -- postings of the record with the gram's hash, and none only where no record has that hash.
  pub dict_search_lem : Looks hash postings n g (dict_search read_hash read_postings n g 0 n)
  dict_search_lem =
      search_lem n 0 n (omega arith) (omega arith) (λ i h. omega arith) (λ i h k. omega arith)
