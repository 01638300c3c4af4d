-- ===== src/Search/Meaning.antt =====
-- Which documents a gram query selects in a snapshot, told apart from how src/search/executor.rs
-- finds them.
use syntext.Prelude.{
  ℕ, ◌≡◌, Bool, true, false, not, ◌&&◌, ◌||◌, Option, none, some, List, [], ◌∷◌, Memᴰ, contains,
}
use syntext.Posting.Varint
use syntext.Posting.Varint.{VarintError}
use syntext.Index.Bitmap.{RoaringBitmap}
use syntext.Index.Snapshot.{PostingList, Segment, IndexSnapshot, to_vec, all_doc_ids}
use syntext.Query.GramQuery.{GramQuery, Queries}
use syntext.Search.Postings.{or_empty}

abbrev pub decoded_ids : Varint.Result (List ℕ) → List ℕ
decoded_ids (Varint.ok ids) = ids
decoded_ids (Varint.err e) = []
decoded_ids Varint.stuck = []

module _ (R : RoaringBitmap) where
  open R use {has}

  abbrev pub lists : Option (PostingList R) → ℕ → Bool
  lists none d = false
  lists (some postings) d = contains d (decoded_ids (to_vec R postings))

  unfoldable pub listed_in : List (Segment R) → ℕ → ℕ → Bool
  listed_in [] g d = false
  listed_in (seg ∷ segs) g d = lists (seg.lookup_gram g) d || listed_in segs g d

  module _ (snap : IndexSnapshot R) where
    unfoldable pub live : ℕ → Bool
    unfolding all_doc_ids
    live d = has (all_doc_ids R snap) d

    -- A base segment or the overlay lists the document under the gram, and it is not deleted.
    unfoldable pub posted : ℕ → ℕ → Bool
    unfolding listed_in
    posted g d =
        (listed_in snap.segments g d || contains d (or_empty (snap.overlay_grams g)))
        && not (has snap.delete_set d)

    unfoldable pub posted_all : List ℕ → ℕ → Bool
    unfolding posted
    posted_all [] d = true
    posted_all (g ∷ gs) d = posted g d && posted_all gs d

    unfoldable mutual
      unfolding live posted_all

      pub selects : GramQuery → ℕ → Bool
      selects (GramQuery.and Queries.nil) d = live d
      selects (GramQuery.and (Queries.cons q qs)) d = selects q d && all_select qs d
      selects (GramQuery.or qs) d = any_selects qs d
      selects (GramQuery.grams []) d = live d
      selects (GramQuery.grams (g ∷ gs)) d = posted_all (g ∷ gs) d
      selects GramQuery.all d = live d
      selects GramQuery.none d = false

      pub all_select : Queries → ℕ → Bool
      all_select Queries.nil d = true
      all_select (Queries.cons q qs) d = selects q d && all_select qs d

      pub any_selects : Queries → ℕ → Bool
      any_selects Queries.nil d = false
      any_selects (Queries.cons q qs) d = selects q d || any_selects qs d

    -- A posting list of a base segment does not decode.
    abbrev pub Damaged : VarintError → Type 0
    Damaged e =
        (seg : Segment R) × (g : ℕ) × (postings : PostingList R) × Memᴰ seg snap.segments
        × (seg.lookup_gram g ≡ some postings)
        × (to_vec R postings ≡ Varint.err e)
