-- ===== src/Search/Postings.antt =====
-- src/search/executor.rs: `PostingBudget` and the loading of posting bitmaps. The cache of the
-- snapshot, which Rust keeps behind a lock, and the `Cell` of the budget are the state of a search.
use syntext.Prelude.{ℕ, ◌-◌, ◌*◌, Option, none, some, List, [], ◌∷◌, ltb, if◌then◌else◌}
use syntext.Posting.Varint
use syntext.Posting.Varint.{VarintError}
use syntext.Index.Bitmap.{RoaringBitmap}
use syntext.Index.PostingCache.{
  PostingCache, get, insert_with_budget, posting_bitmap_cache_max_bytes,
}
use syntext.Index.Snapshot.{PostingList, Segment, IndexSnapshot, to_vec}

pub data IndexError : Type 0 where
  query_too_broad : ℕ → IndexError
  corrupt_index : VarintError → IndexError

-- `stuck` is no Rust value, as in the decoder.
pub data Outcome (A : Type 0) : Type 0 where
  ok : A → Outcome A
  err : IndexError → Outcome A
  stuck : Outcome A

abbrev pub max_query_posting_bytes : ℕ
max_query_posting_bytes = 256 * 1024 * 1024

-- `map_err(|err| CorruptIndex(err))`
abbrev pub corrupt : {A : Type 0} → Varint.Result A → Outcome A
corrupt (Varint.ok a) = ok a
corrupt (Varint.err e) = err (corrupt_index e)
corrupt Varint.stuck = stuck

abbrev pub or_empty : Option (List ℕ) → List ℕ
or_empty none = []
or_empty (some ids) = ids

module _ (R : RoaringBitmap) where
  open R use {Bitmap, new, extend, subtract, serialized_size}

  -- The cache, and the bytes that the budget has left.
  pub record SearchState : Type 0 where
    pub cache : PostingCache R
    pub remaining : ℕ

  abbrev pub Search : Type 0 → Type 0
  Search A = SearchState → Outcome A × SearchState

  abbrev pub return : {A : Type 0} → A → Search A
  return a s = (ok a, s)

  abbrev pub continue_with :
      {A B : Type 0} → Outcome A × SearchState → (A → Search B) → Outcome B × SearchState
  continue_with (ok a, s) f = f a s
  continue_with (err e, s) f = (err e, s)
  continue_with (stuck, s) f = (stuck, s)

  -- The operator `?`.
  abbrev pub and_then : {A B : Type 0} → Search A → (A → Search B) → Search B
  and_then m f s = continue_with (m s) f

  unfoldable pub charge : ℕ → Search (Unit {0})
  charge n s =
      if ltb s.remaining n
      then (err (query_too_broad max_query_posting_bytes), s)
      else (ok tt, record s { remaining = s.remaining - n })

  module _ (snap : IndexSnapshot R) where
    -- `if let Some(postings) = seg.lookup_gram(gram_hash)`
    abbrev pub extend_postings : Option (PostingList R) → Bitmap → Outcome Bitmap
    extend_postings none bitmap = ok bitmap
    extend_postings (some postings) bitmap = elim (corrupt (to_vec R postings)) [
      | ok ids ↦ ok (extend ids bitmap)
      | err e ↦ err e
      | stuck ↦ stuck
    ]

    unfoldable pub extend_segments : ℕ → List (Segment R) → Bitmap → Outcome Bitmap
    extend_segments gram_hash [] bitmap = ok bitmap
    extend_segments gram_hash (seg ∷ segs) bitmap =
        elim (extend_postings (seg.lookup_gram gram_hash) bitmap) [
          | ok more ↦ extend_segments gram_hash segs more
          | err e ↦ err e
          | stuck ↦ stuck
        ]

    -- What is stored: the base postings and those of the overlay, less the deleted docs.
    abbrev pub finish : ℕ → Bitmap → Bitmap
    finish gram_hash bitmap =
        subtract (extend (or_empty (snap.overlay_grams gram_hash)) bitmap) snap.delete_set

    unfoldable pub store_posting_bitmap : ℕ → Bitmap → Search Bitmap
    unfolding insert_with_budget
    store_posting_bitmap gram_hash bitmap s =
        let (stored, cache) =
          insert_with_budget R gram_hash bitmap posting_bitmap_cache_max_bytes s.cache in
        (ok stored, record s { cache = cache })

    unfoldable pub posting_bitmap_inner : ℕ → Search Bitmap
    unfolding extend_segments store_posting_bitmap
    posting_bitmap_inner gram_hash s = elim (extend_segments gram_hash snap.segments new) [
      | ok bitmap ↦ store_posting_bitmap gram_hash (finish gram_hash bitmap) s
      | err e ↦ (err e, s)
      | stuck ↦ (stuck, s)
    ]

    unfoldable pub posting_bitmap_budgeted : ℕ → Search Bitmap
    unfolding posting_bitmap_inner charge get
    posting_bitmap_budgeted gram_hash s = elim (get R gram_hash s.cache) [
      | some bitmap ↦ (ok bitmap, s)
      | none ↦
          and_then (posting_bitmap_inner gram_hash)
            (λ bitmap. and_then (charge (serialized_size bitmap)) (λ _. return bitmap)) s
    ]

    unfoldable pub posting_bitmap : ℕ → Search Bitmap
    unfolding posting_bitmap_inner get
    posting_bitmap gram_hash s = elim (get R gram_hash s.cache) [
      | some bitmap ↦ (ok bitmap, s)
      | none ↦ posting_bitmap_inner gram_hash s
    ]
