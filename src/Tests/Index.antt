-- ===== src/Tests/Index.antt =====
-- The posting cache and the set of valid ids at concrete inputs.
use syntext.Prelude.{
  ◌≤◌, ◌≡◌, ◌⊎◌, refl, not, ◌&&◌, ◌||◌, none, some, List, [], ◌∷◌, ◌++◌, contains,
}
use syntext.Index.Bitmap.{RoaringBitmap}
use syntext.Index.PostingCache.{Entry, PostingCache, find_entry, get, evict, insert_with_budget}
use syntext.Index.Eviction.{holding, insert_with_budget-fifo}
use syntext.Index.Snapshot.{IndexSnapshot, all_doc_ids}
use syntext.Index.Valid.{in_segments, all_doc_ids-has}
use syntext.Prelude.{ℕ, ◌==◌, if◌then◌else◌, Option, some, none}
use syntext.Index.DeleteSet.{compute_delete_set, doc_of_any, compute_delete_set-has}
use syntext.Tests.ToyBitmap.{toy_bitmap}

abbrev two_entries : List (Entry toy_bitmap)
unfolding toy_bitmap
two_entries = (1, 5 ∷ [], 10) ∷ (2, 6 ∷ 7 ∷ [], 12) ∷ []

abbrev nine : RoaringBitmap.Bitmap toy_bitmap
unfolding toy_bitmap
nine = 9 ∷ []

-- The oldest entry leaves.
evict_run :
    PostingCache.order (insert_with_budget toy_bitmap 3 nine 25 (holding toy_bitmap two_entries)).1
    ≡ 2 ∷ 3 ∷ []
unfolding insert_with_budget evict find_entry toy_bitmap
evict_run = refl

no_entry : find_entry toy_bitmap 3 two_entries ≡ none
unfolding find_entry toy_bitmap
no_entry = refl

insert_with_budget-fifo_example :
    (gone : List (Entry toy_bitmap)) × (kept : List (Entry toy_bitmap)) × (two_entries
      ≡ gone ++ kept)
    × ((insert_with_budget toy_bitmap 3 nine 25 (holding toy_bitmap two_entries)).1
        ≡ holding toy_bitmap
            (kept ++ ((3, nine, RoaringBitmap.serialized_size toy_bitmap nine) ∷ [])))
    × ((PostingCache.bytes
            (insert_with_budget toy_bitmap 3 nine 25 (holding toy_bitmap two_entries)).1
          ≤ 25)
        ⊎ (kept ≡ []))
    × (get toy_bitmap 3 (insert_with_budget toy_bitmap 3 nine 25 (holding toy_bitmap two_entries)).1
        ≡ some nine)
insert_with_budget-fifo_example = insert_with_budget-fifo toy_bitmap 3 nine 25 two_entries no_entry

abbrev snapshot : IndexSnapshot toy_bitmap
unfolding toy_bitmap
snapshot = record {
  segments = record { lookup_gram = λ g. none; gram_cardinality = λ g. none; doc_count = 3 } ∷ [];
  base_ids = 4 ∷ [];
  overlay_grams = λ g. none;
  overlay_doc_ids = 9 ∷ [];
  delete_set = 5 ∷ [];
}

all_doc_ids-has_example : RoaringBitmap.has toy_bitmap (all_doc_ids toy_bitmap snapshot) 5 ≡ (
    (in_segments toy_bitmap snapshot.segments snapshot.base_ids 5
      && not (RoaringBitmap.has toy_bitmap snapshot.delete_set 5))
    || contains 5 snapshot.overlay_doc_ids)
all_doc_ids-has_example = all_doc_ids-has toy_bitmap snapshot 5

-- Path 7 has docs 4 and 6.
abbrev base_docs : ℕ → Option (List ℕ)
base_docs path = if path == 7 then some (4 ∷ 6 ∷ []) else none

compute_delete_set-has_example :
    RoaringBitmap.has toy_bitmap (compute_delete_set toy_bitmap base_docs (7 ∷ []) (8 ∷ []) nine) 6
    ≡ (RoaringBitmap.has toy_bitmap nine 6
        || (doc_of_any toy_bitmap base_docs (7 ∷ []) 6
            || doc_of_any toy_bitmap base_docs (8 ∷ []) 6))
compute_delete_set-has_example =
    compute_delete_set-has toy_bitmap base_docs (7 ∷ []) (8 ∷ []) nine 6
