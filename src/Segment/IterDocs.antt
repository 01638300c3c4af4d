-- ===== src/Segment/IterDocs.antt =====
-- The bulk read of the document table in dict_read.rs against one read per document.
use syntext.Prelude.{
  ℕ, zero, suc, ◌+◌, ◌-◌, ◌*◌, ◌^◌, ◌<◌, ◌≤◌, ◌≡◌, ◌⊎◌, refl, sym, ◌∙◌, true, false, inl, inr,
  Option, none, some, List, map, ltb, leb, Bool-cases, arith,
}
use syntext.Segment.Bytes.{◌>>◌, checked_mul}
use syntext.Segment.DictRead.{
  MmapSegment, check_len, get_doc_mmap, get_doc_from, get_doc, doc_ids, read_doc_region,
  parse_doc_from_region, region_docs, iter_docs,
}
use syntext.Segment.Lookup.{read_exact_at-inside}
use syntext.Segment.Docs.{TableValid}
use syntext.Segment.DocTable.{
  get_doc_pread-get_doc_mmap, region, parse_doc_from_region-get_doc_mmap,
}

map-doc_ids :
    {A : Type 0} (f g : ℕ → A) (start n : ℕ)
    → ((i : ℕ) → i < start + n → f i ≡ g i)
    → map f (doc_ids start n) ≡ map g (doc_ids start n)
unfolding doc_ids
map-doc_ids f g start zero h = refl
map-doc_ids f g start (suc n) h =
    rw (h start (omega arith), map-doc_ids f g (suc start) n (λ i k. h i (omega arith))) refl

module _ (seg : MmapSegment) (valid : TableValid seg) where
  get_doc_from-get_doc_mmap :
      (doc_id : ℕ) (file : Option (List ℕ))
      → (file ≡ none) ⊎ (file ≡ some seg.mmap)
      → get_doc_from seg doc_id file ≡ get_doc_mmap seg doc_id
  get_doc_from-get_doc_mmap doc_id file (inl e) = rw e refl
  get_doc_from-get_doc_mmap doc_id file (inr e) = rw e (get_doc_pread-get_doc_mmap seg valid doc_id)

  pub get_doc-get_doc_mmap :
      (doc_id : ℕ)
      → (seg.file ≡ none) ⊎ (seg.file ≡ some seg.mmap)
      → check_len seg ≡ true
      → doc_id < seg.doc_count
      → get_doc seg doc_id ≡ get_doc_mmap seg doc_id
  unfolding get_doc
  get_doc-get_doc_mmap doc_id same whole h =
      let counted : leb seg.doc_count doc_id ≡ false = ground arith in
      rw (whole, counted) (get_doc_from-get_doc_mmap doc_id seg.file same)

  -- The bulk read fails, or it gives the table, which then holds the index.
  bulk_read :
      (read_doc_region seg seg.mmap ≡ none)
      ⊎ ((seg.doc_table_offset + seg.doc_count * 8 ≤ seg.dict_offset)
          × (read_doc_region seg seg.mmap ≡ some (region seg valid)))
  unfolding read_doc_region checked_mul
  bulk_read =
      let len = seg.dict_offset - seg.doc_table_offset in
      elim (Bool-cases (ltb seg.dict_offset seg.doc_table_offset)) [
        | inl crossed ↦ inl (rw crossed refl)
        | inr ordered ↦ elim (Bool-cases (ltb (seg.doc_count * 8) (2 ^ 64))) [
          | inr overflow ↦ inl (rw (ordered, overflow) refl)
          | inl product ↦ elim (Bool-cases (ltb len (seg.doc_count * 8))) [
            | inl small ↦ inl (rw (ordered, product, small) refl)
            | inr holds ↦
                let room : seg.doc_table_offset ≤ seg.dict_offset = ground arith in
                inr (
                  ground arith,
                  rw
                      (
                        ordered,
                        product,
                        holds,
                        read_exact_at-inside seg.mmap len seg.doc_table_offset
                            (omega (arith, valid.inside)),
                      )
                      refl,
                )
          ]
        ]
      ]

  bulk_docs :
      (file : Option (List ℕ))
      → (seg.file ≡ none) ⊎ (seg.file ≡ some seg.mmap)
      → check_len seg ≡ true
      → (file ≡ none) ⊎ (file ≡ some seg.mmap)
      → region_docs seg (file >> read_doc_region seg) ≡ map (get_doc seg) (doc_ids 0 seg.doc_count)
  bulk_docs file same whole (inl e) = rw e refl
  bulk_docs file same whole (inr e) = elim bulk_read [
    | inl fails ↦ rw (e, fails) refl
    | inr (room, table) ↦
        rw (e, table)
          (map-doc_ids (parse_doc_from_region seg (region seg valid)) (get_doc seg) 0 seg.doc_count
            (λ i h.
              parse_doc_from_region-get_doc_mmap seg valid i (omega arith)
              ∙ sym (get_doc-get_doc_mmap i same whole (omega arith))))
  ]

  -- In a segment that is as long as when it was opened and whose file, if it has one, holds the
  -- mapped bytes, the bulk read gives for every document what one read of that document gives: none
  -- for the same documents, and otherwise the same entry.
  pub iter_docs-get_doc :
      (seg.file ≡ none) ⊎ (seg.file ≡ some seg.mmap)
      → check_len seg ≡ true
      → iter_docs seg ≡ map (get_doc seg) (doc_ids 0 seg.doc_count)
  unfolding iter_docs
  iter_docs-get_doc same whole = rw whole (bulk_docs seg.file same whole same)
