-- ===== src/Index/Overlay/Room.antt =====
-- The incremental build of the overlay fails for the lack of document ids alone.
use syntext.Prelude.{
  ℕ, suc, ◌+◌, ◌^◌, ◌≡◌, refl, Bool, true, false, ◌||◌, ◌⊎◌, inl, inr, List, [], ◌∷◌, ◌∙◌, ltb,
  ◌==◌, if◌then◌else◌, length, Bool-cases, arith,
}
use syntext.Tokenizer.Boundaries.{Tables}
use syntext.Tokenizer.Grams.{build_all}
use syntext.Index.Overlay.{
  OverlayDoc, OverlayView, Result, ok, doc_id_overflow, ◌>>=◌, next_doc_id, Building, push_doc,
  is_stale, overlay_docs_after, reuse_docs, keep_docs, add_files, build_incremental_delta, rebuild,
  build_incremental,
}

-- `count` ids from `start` on, and the one after them, are below 2 ^ 32.
abbrev pub room : ℕ → ℕ → Bool
room start count = count == 0 || ltb (start + count) (2 ^ 32)

-- A build that takes `count` ids from `start` on.
abbrev Takes : ℕ → ℕ → ℕ → ℕ → Result Building → Type 0
Takes base n start count r =
    ((room start count ≡ true) × (b : Building) × (r ≡ ok b) × (b.next_id ≡ start + count))
    ⊎ ((room start count ≡ false) × (r ≡ doc_id_overflow base n))

module _ (base n : ℕ) where
  Takes-one :
      (path count : ℕ) (content grams : List ℕ) (b : Building) (f : Building → Result Building)
      → ((b' : Building) → Takes base n b'.next_id count (f b'))
      → Takes base n b.next_id
          (suc count)
          (next_doc_id b.next_id base n >>= λ id. f (push_doc id.0 id.1 path content grams b))
  unfolding next_doc_id push_doc
  Takes-one path count content grams b f h = elim (Bool-cases (ltb (b.next_id + 1) (2 ^ 32))) [
    | inl fits ↦ rw fits (elim (h (push_doc b.next_id (b.next_id + 1) path content grams b)) [
      | inl (r, b', e, m) ↦ inl (ground arith, b', e, omega (arith, m))
      | inr (r, e) ↦ inr (ground arith, e)
    ])
    | inr full ↦ rw full (inr (ground arith, refl))
  ]

  add_files-Takes :
      (t : Tables) (files : List (ℕ × List ℕ)) (b : Building)
      → Takes base n b.next_id (length files) (add_files t base n files b)
  unfolding add_files
  add_files-Takes t [] b = inl (refl, b, refl, omega arith)
  add_files-Takes t ((path, content) ∷ files) b =
      Takes-one path (length files) content (build_all t content) b (add_files t base n files)
        (add_files-Takes t files)

  reuse_docs-Takes :
      (removed changed : List ℕ) (ds : List OverlayDoc) (b : Building)
      → Takes base n b.next_id
          (length (keep_docs removed changed ds))
          (reuse_docs base n removed changed ds b)
  unfolding reuse_docs keep_docs
  reuse_docs-Takes removed changed [] b = inl (refl, b, refl, omega arith)
  reuse_docs-Takes removed changed (d ∷ ds) b = elim (Bool-cases (is_stale removed changed d)) [
    | inl stale ↦ rw (stale, reuse_docs) (reuse_docs-Takes removed changed ds b)
    | inr fresh ↦
        rw (fresh, reuse_docs)
          (Takes-one d.path (length (keep_docs removed changed ds)) d.content d.grams b
            (reuse_docs base n removed changed ds) (reuse_docs-Takes removed changed ds))
  ]

  Takes-both :
      (start k m : ℕ) (r : Result Building) (f : Building → Result Building)
      → Takes base n start k r
      → ((b : Building) → Takes base n b.next_id m (f b))
      → Takes base n start (k + m) (r >>= f)
  Takes-both start k m r f (inr (full, e)) h = rw e (inr (ground arith, refl))
  Takes-both start k m r f (inl (fits, b, e, next)) h = rw e (elim (h b) [
    | inl (r, b', e', m') ↦ inl (ground arith, b', e', omega (arith, m', next))
    | inr (r, e') ↦ inr (ground arith, e')
  ])

-- The first id that a build gives out, and how many it gives out: those of the new files, and
-- where the base has grown those of the documents carried forward.
abbrev pub first_id : ℕ → OverlayView → ℕ
first_id base old = if base == old.base_doc_count then old.next_doc_id else base

abbrev pub ids_needed : ℕ → OverlayView → List (ℕ × List ℕ) → List ℕ → List ℕ → ℕ
ids_needed base old files changed removed =
    if base == old.base_doc_count
    then length files
    else length (keep_docs removed changed old.docs) + length files

module _ (t : Tables) (base : ℕ) (old : OverlayView) (files : List (ℕ × List ℕ))
    (changed removed : List ℕ) where
  abbrev pub Outcome : ℕ → ℕ → Result OverlayView → Type 0
  Outcome start count r =
      ((room start count ≡ true)
        × (v : OverlayView) × (r ≡ ok v)
        × (v.next_doc_id ≡ start + count)
        × (v.base_doc_count ≡ base))
      ⊎ ((room start count ≡ false)
          × (r ≡ doc_id_overflow base (overlay_docs_after old files changed)))

  Takes-Outcome :
      (start count : ℕ) (r : Result Building) (f : Building → OverlayView)
      → ((b : Building) → ((f b).next_doc_id ≡ b.next_id) × ((f b).base_doc_count ≡ base))
      → Takes base (overlay_docs_after old files changed) start count r
      → Outcome start count (r >>= λ b. ok (f b))
  Takes-Outcome start count r f h (inl (fits, b, e, m)) =
      rw e (inl (fits, f b, refl, (h b).0 ∙ m, (h b).1))
  Takes-Outcome start count r f h (inr (full, e)) = rw e (inr (full, refl))

  -- The incremental build of the overlay succeeds exactly where it needs no new id or its ids and the
  -- one after them are below
  -- 2 ^ 32; then the next id is the one after those it gave out. Otherwise it fails with the
  -- overflow of the document ids. The ids given out are those of the new files, from the overlay's
  -- next id on, or, where the base has grown, those of the documents carried forward and of the new
  -- files, from the base's count on.
  pub build_incremental-room :
      Outcome
        (first_id base old)
        (ids_needed base old files changed removed)
        (build_incremental t base old files changed removed)
  unfolding build_incremental build_incremental_delta rebuild
  build_incremental-room =
      let n = overlay_docs_after old files changed in
      elim (Bool-cases (base == old.base_doc_count)) [
        | inl same ↦ rw same (
            Takes-Outcome old.next_doc_id (length files) (add_files t base n files _) _
              (λ b. (refl, refl)) (add_files-Takes base n t files _))
        | inr grown ↦ rw grown (
            Takes-Outcome base (length (keep_docs removed changed old.docs) + length files)
              (reuse_docs base n removed changed old.docs _ >>= add_files t base n files) _
              (λ b. (refl, refl))
              (Takes-both base n base (length (keep_docs removed changed old.docs)) (length files)
                (reuse_docs base n removed changed old.docs _) (add_files t base n files)
                (reuse_docs-Takes base n removed changed old.docs _)
                (add_files-Takes base n t files)))
      ]
