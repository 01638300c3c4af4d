-- ===== src/Index/Snapshot.antt =====
-- src/index/snapshot.rs: what a search sees of the index. A segment is given by what its methods
-- answer (`lookup_gram`, `gram_cardinality`, `doc_count` of segment/dict_read.rs); the gram index of
-- the overlay is a function. A posting list is that of src/posting/mod.rs.
use syntext.Prelude.{ℕ, zero, suc, ◌+◌, Option, List, [], ◌∷◌, if◌then◌else◌}
use syntext.Index.Bitmap.{RoaringBitmap}
use syntext.Posting.Varint.{Result, ok, varint_decode}

module _ (R : RoaringBitmap) where
  open R use {Bitmap, new, insert, has, iter}

  pub data PostingList : Type 0 where
    small : List ℕ → PostingList
    large : Bitmap → PostingList

  unfoldable pub to_vec : PostingList → Result (List ℕ)
  to_vec (small bytes) = varint_decode bytes
  to_vec (large b) = ok (iter b)

  pub record Segment : Type 0 where
    pub lookup_gram : ℕ → Option PostingList
    pub gram_cardinality : ℕ → Option ℕ
    pub doc_count : ℕ

  pub record IndexSnapshot : Type 0 where
    pub segments : List Segment
    pub base_ids : List ℕ
    pub overlay_grams : ℕ → Option (List ℕ)
    pub overlay_doc_ids : List ℕ
    pub delete_set : Bitmap

  -- `for local in 0..seg.doc_count`, from `global` on.
  unfoldable pub insert_segment_docs : Bitmap → ℕ → ℕ → Bitmap → Bitmap
  insert_segment_docs deleted zero global bm = bm
  insert_segment_docs deleted (suc n) global bm =
      insert_segment_docs deleted n (global + 1)
        (if has deleted global then bm else insert global bm)

  -- A segment with no base id counts from 0.
  unfoldable pub insert_base_docs : Bitmap → List Segment → List ℕ → Bitmap → Bitmap
  unfolding insert_segment_docs
  insert_base_docs deleted [] bases bm = bm
  insert_base_docs deleted (seg ∷ segs) [] bm =
      insert_base_docs deleted segs [] (insert_segment_docs deleted seg.doc_count 0 bm)
  insert_base_docs deleted (seg ∷ segs) (base ∷ bases) bm =
      insert_base_docs deleted segs bases (insert_segment_docs deleted seg.doc_count base bm)

  unfoldable pub insert_overlay_docs : List ℕ → Bitmap → Bitmap
  insert_overlay_docs [] bm = bm
  insert_overlay_docs (id ∷ ids) bm = insert_overlay_docs ids (insert id bm)

  unfoldable pub all_doc_ids : IndexSnapshot → Bitmap
  unfolding insert_base_docs insert_overlay_docs
  all_doc_ids snap =
      insert_overlay_docs snap.overlay_doc_ids
        (insert_base_docs snap.delete_set snap.segments snap.base_ids new)
