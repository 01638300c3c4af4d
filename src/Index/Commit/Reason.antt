-- ===== src/Index/Commit/Reason.antt =====
-- Why a commit of src/index/commit.rs fails.
use syntext.Prelude.{
  ℕ, ◌≤◌, ◌<◌, ◌+◌, ◌^◌, ◌≡◌, ◌⊎◌, inl, inr, refl, Bool, true, false, List, [], ◌∷◌, ltb,
  if◌then◌else◌, Bool-cases, arith,
}
use syntext.Tokenizer.Boundaries.{Tables}
use syntext.Index.Bitmap.{RoaringBitmap}
use syntext.Index.Pending.{PendingState, TakeResult, take_for_commit}
use syntext.Index.Overlay.{overlay_docs_after, build_incremental}
use syntext.Index.Overlay.Room.{room, first_id, ids_needed, build_incremental-room}
use syntext.Index.Commit.{
  ChangedFileOutcome, IndexError, lock_conflict, overlay_full, doc_id_overflow, Reads, Result, ok,
  err, panics, Snapshot, limit_from, base_doc_id_limit, doc_count_sum, projected_overlay_doc_count,
  check_share, visible_of, removed_of, of_overlay,
}
use syntext.Index.Commit.Reading.{r}

-- A segment of `n` documents stands at the base id `base`.
abbrev pub Listed : ℕ → ℕ → List ℕ → List ℕ → Type 0
Listed base n [] bases = ⊥
Listed base n (m ∷ ms) [] = ⊥
Listed base n (m ∷ ms) (b ∷ bs) = ((b ≡ base) × (m ≡ n)) ⊎ Listed base n ms bs

-- The step yields a value, or an error that has the property `Cause`; it does not panic.
abbrev pub Ends : {A : Type 0} → (IndexError → Type 0) → Result A → Type 0
Ends Cause (ok a) = Unit
Ends Cause (err e) = Cause e
Ends Cause panics = ⊥

-- A segment of the lists does not end below 2 ^ 32.
abbrev pub SegmentOver : List ℕ → List ℕ → IndexError → Type 0
SegmentOver ns bases lock_conflict = ⊥
SegmentOver ns bases (overlay_full n base) = ⊥
SegmentOver ns bases (doc_id_overflow base n) = Listed base n ns bases × (2 ^ 32 ≤ base + n)

SegmentOver-later :
    (n base : ℕ) (ns bases : List ℕ) (o : Result ℕ)
    → Ends (SegmentOver ns bases) o
    → Ends (SegmentOver (n ∷ ns) (base ∷ bases)) o
SegmentOver-later n base ns bases (ok m) h = tt
SegmentOver-later n base ns bases (err lock_conflict) h = h
SegmentOver-later n base ns bases (err (overlay_full k b)) h = h
SegmentOver-later n base ns bases (err (doc_id_overflow b k)) (there, over) = (inr there, over)
SegmentOver-later n base ns bases panics h = h

SegmentOver-no_base :
    (n : ℕ) (ns : List ℕ) (o : Result ℕ)
    → Ends (SegmentOver ns []) o
    → Ends (SegmentOver (n ∷ ns) []) o
SegmentOver-no_base n ns (ok m) h = tt
SegmentOver-no_base n ns (err lock_conflict) h = h
SegmentOver-no_base n ns (err (overlay_full k b)) h = h
SegmentOver-no_base n [] (err (doc_id_overflow b k)) (there, over) = absurd there
SegmentOver-no_base n (m ∷ ns) (err (doc_id_overflow b k)) (there, over) = absurd there
SegmentOver-no_base n ns panics h = h

pub limit_from-Ends :
    (m : ℕ) (ns bases : List ℕ) → Ends (SegmentOver ns bases) (limit_from m ns bases)
unfolding limit_from
limit_from-Ends m [] bases = tt
limit_from-Ends m (n ∷ ns) [] = SegmentOver-no_base n ns _ (limit_from-Ends m ns [])
limit_from-Ends m (n ∷ ns) (base ∷ bases) = elim (Bool-cases (ltb (base + n) (2 ^ 32))) [
  | inl fits ↦ rw fits (
      SegmentOver-later n base ns bases _
        (limit_from-Ends (if ltb m (base + n) then base + n else m) ns bases))
  | inr over ↦ let past : 2 ^ 32 ≤ base + n = grind arith in rw over (inl (refl, refl), past)
]

module _ (t : Tables) (R : RoaringBitmap) (text : ℕ → List ℕ) (le_path : ℕ → ℕ → Bool)
    (read : ℕ → ChangedFileOutcome) (over_limit : ℕ → ℕ → Bool) (now : ℕ) (s : PendingState)
    (old : Snapshot t R text le_path) where
  abbrev pub take : TakeResult
  take = (take_for_commit s).0

  abbrev pub reads : Reads
  reads = r t R text le_path read over_limit now take.newly_changed

  abbrev pub visible : List ℕ
  visible = visible_of t R text le_path read over_limit now take.newly_changed reads

  abbrev pub removed : List ℕ
  removed = removed_of t R text le_path read over_limit now take.newly_deleted reads

  abbrev pub base_count : ℕ
  base_count = doc_count_sum old.base.doc_counts

  -- The base has documents, and the share of the overlay's documents after the commit is too large.
  abbrev pub ShareOver : IndexError → Type 0
  ShareOver lock_conflict = ⊥
  ShareOver (overlay_full n base) =
      (n ≡ projected_overlay_doc_count old.overlay visible removed)
      × (base ≡ base_count)
      × (0 < base)
      × (over_limit n base ≡ true)
  ShareOver (doc_id_overflow base n) = ⊥

  -- The ids that the overlay needs above the ids of the base do not fit.
  abbrev pub OverlayOver : IndexError → Type 0
  OverlayOver lock_conflict = ⊥
  OverlayOver (overlay_full n base) = ⊥
  OverlayOver (doc_id_overflow limit n) =
      (base_doc_id_limit old.base ≡ ok limit)
      × (n ≡ overlay_docs_after old.overlay reads.new_files visible)
      × (room (first_id limit old.overlay)
            (ids_needed limit old.overlay reads.new_files visible removed)
          ≡ false)

  -- Why a commit fails that holds the writer lock or not: the lock is not acquired; the base has
  -- documents, and the overlay's share is over the limit; a base segment does not end below 2 ^ 32,
  -- or the ids that the overlay needs do not.
  abbrev pub Reason : Bool → IndexError → Type 0
  Reason lock_acquired lock_conflict = lock_acquired ≡ false
  Reason lock_acquired (overlay_full n base) = ShareOver (overlay_full n base)
  Reason lock_acquired (doc_id_overflow base n) =
      SegmentOver old.base.doc_counts old.base.base_ids (doc_id_overflow base n)
      ⊎ OverlayOver (doc_id_overflow base n)

  pub base_limit-Ends : Ends (Reason true) (base_doc_id_limit old.base)
  base_limit-Ends =
      of_segment (base_doc_id_limit old.base)
        (limit_from-Ends 0 old.base.doc_counts old.base.base_ids)
    where
      of_segment :
          (o : Result ℕ)
          → Ends (SegmentOver old.base.doc_counts old.base.base_ids) o
          → Ends (Reason true) o
      of_segment (ok m) h = tt
      of_segment (err lock_conflict) h = absurd h
      of_segment (err (overlay_full k b)) h = absurd h
      of_segment (err (doc_id_overflow b k)) h = inl h
      of_segment panics h = h

  pub check_share-Ends : Ends (Reason true) (
      check_share t R text le_path read over_limit now base_count
        (projected_overlay_doc_count old.overlay visible removed))
  check_share-Ends = elim (Bool-cases (ltb 0 base_count)) [
    | inl some_base ↦
        elim (Bool-cases
          (over_limit (projected_overlay_doc_count old.overlay visible removed) base_count)) [
            | inl over ↦
                let pos : 0 < base_count = grind arith in
                rw (some_base, over) (refl, refl, pos, over)
            | inr fits ↦ rw (some_base, fits) tt
          ]
    | inr no_base ↦ rw no_base tt
  ]

  pub overlay-Ends :
      (limit : ℕ)
      → base_doc_id_limit old.base ≡ ok limit
      → Ends (Reason true) (
          of_overlay t R text le_path
            (build_incremental t limit old.overlay reads.new_files visible removed))
  overlay-Ends limit e =
      elim (build_incremental-room t limit old.overlay reads.new_files visible removed) [
        | inl (fits, v, built, next, base) ↦ rw built tt
        | inr (full, fails) ↦ rw fails (inr (e, refl, full))
      ]
