-- ===== src/Index/Valid.antt =====
-- `all_doc_ids` is the set of valid ids: those of the segments that are not deleted, and those of
-- the overlay.
use syntext.Prelude.{
  ℕ, zero, suc, ◌+◌, ◌≡◌, refl, Bool, true, false, not, ◌&&◌, ◌||◌, inl, inr, List, [], ◌∷◌, ltb,
  leb, ◌==◌, if◌then◌else◌, contains, Bool-cases, ==_iff, arith,
}
use syntext.Index.Bitmap.{RoaringBitmap}
use syntext.Index.Snapshot.{
  Segment, IndexSnapshot, insert_segment_docs, insert_base_docs, insert_overlay_docs, all_doc_ids,
}

-- One of `count` ids from `base` on.
abbrev pub numbered : ℕ → ℕ → ℕ → Bool
numbered base count d = leb base d && ltb d (base + count)

module _ (R : RoaringBitmap) where
  open R use {Bitmap, new, insert, has, has-new, has-insert}

  unfoldable pub in_segments : List (Segment R) → List ℕ → ℕ → Bool
  in_segments [] bases d = false
  in_segments (seg ∷ segs) [] d = numbered 0 seg.doc_count d || in_segments segs [] d
  in_segments (seg ∷ segs) (base ∷ bases) d =
      numbered base seg.doc_count d || in_segments segs bases d

  has-kept :
      (deleted bm : Bitmap) (global d : ℕ)
      → has (if has deleted global then bm else insert global bm) d
        ≡ (has bm d || ((global == d) && not (has deleted d)))
  has-kept deleted bm global d = elim (Bool-cases (global == d)) [
    | inl same ↦
        let e : global ≡ d = (==_iff global d).0 same in
        elim (Bool-cases (has deleted global)) [
          | inl gone ↦ let gone' : has deleted d ≡ true = rw e at gone in rw gone (ground arith)
          | inr there ↦
              let there' : has deleted d ≡ false = rw e at there in
              rw (there, has-insert global bm d) (ground arith)
        ]
    | inr other ↦ elim (Bool-cases (has deleted global)) [
      | inl gone ↦ rw gone (ground arith)
      | inr there ↦ rw (there, has-insert global bm d) (ground arith)
    ]
  ]

  numbered-suc : (base n d : ℕ) → numbered base (suc n) d ≡ ((base == d) || numbered (base + 1) n d)
  numbered-suc base n d = ground arith

  insert_segment_docs-has :
      (deleted : Bitmap) (n global : ℕ) (bm : Bitmap) (d : ℕ)
      → has (insert_segment_docs R deleted n global bm) d
        ≡ (has bm d || (numbered global n d && not (has deleted d)))
  unfolding insert_segment_docs
  insert_segment_docs-has deleted zero global bm d =
      let none_there : numbered global 0 d ≡ false = ground arith in rw none_there (ground arith)
  insert_segment_docs-has deleted (suc n) global bm d =
      let later =
        insert_segment_docs-has deleted n (global + 1)
          (if has deleted global then bm else insert global bm) d in
      rw (later, has-kept deleted bm global d, numbered-suc global n d)
        (let a : Bool = global == d in
          let b : Bool = numbered (global + 1) n d in
          distribute (has bm d) a b (not (has deleted d)))
    where
      distribute : (h a b k : Bool) → ((h || (a && k)) || (b && k)) ≡ (h || ((a || b) && k))
      distribute true a b k = refl
      distribute false true true true = refl
      distribute false true true false = refl
      distribute false true false true = refl
      distribute false true false false = refl
      distribute false false b k = refl

  insert_base_docs-has :
      (deleted : Bitmap) (segs : List (Segment R)) (bases : List ℕ) (bm : Bitmap) (d : ℕ)
      → has (insert_base_docs R deleted segs bases bm) d
        ≡ (has bm d || (in_segments segs bases d && not (has deleted d)))
  unfolding insert_base_docs in_segments
  insert_base_docs-has deleted [] bases bm d = ground arith
  insert_base_docs-has deleted (seg ∷ segs) [] bm d =
      let one = insert_segment_docs-has deleted seg.doc_count 0 bm d in
      let later =
        insert_base_docs-has deleted segs [] (insert_segment_docs R deleted seg.doc_count 0 bm) d in
      ground (arith, one, later)
  insert_base_docs-has deleted (seg ∷ segs) (base ∷ bases) bm d =
      let one = insert_segment_docs-has deleted seg.doc_count base bm d in
      let later =
        insert_base_docs-has deleted segs bases
          (insert_segment_docs R deleted seg.doc_count base bm) d in
      ground (arith, one, later)

  insert_overlay_docs-has :
      (ids : List ℕ) (bm : Bitmap) (d : ℕ)
      → has (insert_overlay_docs R ids bm) d ≡ (has bm d || contains d ids)
  unfolding insert_overlay_docs contains
  insert_overlay_docs-has [] bm d = ground arith
  insert_overlay_docs-has (id ∷ ids) bm d =
      ground (arith, insert_overlay_docs-has ids (insert id bm) d, has-insert id bm d)

  -- An id is in `all_doc_ids` where it is an overlay doc, or numbers a doc of a segment and is not
  -- deleted.
  pub all_doc_ids-has :
      (snap : IndexSnapshot R) (d : ℕ)
      → has (all_doc_ids R snap) d ≡ (
          (in_segments snap.segments snap.base_ids d && not (has snap.delete_set d))
          || contains d snap.overlay_doc_ids)
  unfolding all_doc_ids
  all_doc_ids-has snap d =
      rw
        (
          insert_overlay_docs-has snap.overlay_doc_ids
              (insert_base_docs R snap.delete_set snap.segments snap.base_ids new) d,
          insert_base_docs-has snap.delete_set snap.segments snap.base_ids new d,
          has-new d,
        )
        refl
