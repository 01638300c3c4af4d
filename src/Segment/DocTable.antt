-- ===== src/Segment/DocTable.antt =====
-- The three readers of the document table in dict_read.rs against each other.
use syntext.Prelude.{
  ℕ, ◌+◌, ◌-◌, ◌*◌, ◌^◌, ◌≤◌, ◌≡◌, refl, ◌∙◌, true, false, ◌&&◌, inl, inr, Option, none, List, ltb,
  leb, if◌then◌else◌, length, length-drop, length-take, take, drop, drop_twice, drop-take, slice,
  slice-take, slice-drop, Bool-cases, arith,
}
use syntext.Codec.Le.{from_le}
use syntext.Segment.Bytes.{
  ◌>>◌, get, get_from, read_exact_at, checked_add, checked_mul, saturating_add,
}
use syntext.Segment.DictRead.{
  DocEntry, MmapSegment, outside, read_entry, get_doc_mmap, pread_entry, get_doc_pread,
  parse_doc_from_region,
}
use syntext.Segment.Lookup.{get-inside}
use syntext.Segment.Docs.{TableValid, entry_at, read_entry-entry_at, pread_entry-entry_at}

read_exact_at-get :
    (bytes : List ℕ) (offset : ℕ) → read_exact_at bytes 8 offset ≡ get bytes offset (offset + 8)
unfolding read_exact_at get
read_exact_at-get bytes offset =
    let n : (offset + 8) - offset ≡ 8 = omega arith in
    elim (Bool-cases (leb (offset + 8) (length bytes))) [
      | inl fits ↦
          let inside : (leb offset (offset + 8) && leb (offset + 8) (length bytes)) ≡ true =
            ground arith in
          rw (inside, fits, n) refl
      | inr past ↦
          let beyond : (leb offset (offset + 8) && leb (offset + 8) (length bytes)) ≡ false =
            ground arith in
          rw (beyond, past) refl
    ]

module _ (seg : MmapSegment) (valid : TableValid seg) where
  pub room_lem :
      (abs_off : ℕ)
      → outside seg abs_off ≡ false
      → (seg.doc_table_offset ≤ abs_off) × (abs_off + 22 ≤ seg.dict_offset)
  unfolding outside saturating_add
  room_lem abs_off h = (
    ground (arith, valid.inside, valid.addressable),
    ground (arith, valid.inside, valid.addressable),
  )

  -- What each reader does with an offset that was read.
  unfoldable pub mmap_at : ℕ → Option DocEntry
  mmap_at abs_off =
      if outside seg abs_off
      then none
      else get_from seg.mmap abs_off >> λ e. read_entry seg abs_off e

  pub mmap_at-entry_at :
      (abs_off : ℕ) → mmap_at abs_off ≡ (if outside seg abs_off then none else entry_at seg abs_off)
  unfolding mmap_at get_from
  mmap_at-entry_at abs_off = elim (Bool-cases (outside seg abs_off)) [
    | inl out ↦ rw out refl
    | inr in_table ↦
        let (low, room) = room_lem abs_off in_table in
        let starts : leb abs_off (length seg.mmap) ≡ true = ground (arith, valid.inside) in
        rw (in_table, starts)
          (read_entry-entry_at seg valid abs_off room (drop abs_off seg.mmap)
            (omega (arith, valid.inside, length-drop abs_off seg.mmap)) (λ s t h. refl))
  ]

  pread_at-mmap_at :
      (abs_off : ℕ)
      → (if outside seg abs_off then none else pread_entry seg seg.mmap abs_off) ≡ mmap_at abs_off
  pread_at-mmap_at abs_off = elim (Bool-cases (outside seg abs_off)) [
    | inl out ↦ rw (mmap_at-entry_at abs_off, out) refl
    | inr in_table ↦
        let (low, room) = room_lem abs_off in_table in
        rw (mmap_at-entry_at abs_off, in_table) (pread_entry-entry_at seg valid abs_off room)
  ]

  pub get_doc_pread-get_doc_mmap :
      (doc_id : ℕ) → get_doc_pread seg seg.mmap doc_id ≡ get_doc_mmap seg doc_id
  unfolding get_doc_pread get_doc_mmap mmap_at
  get_doc_pread-get_doc_mmap doc_id = λ i. checked_mul doc_id 8 >> λ shift.
      checked_add seg.doc_table_offset shift >> λ idx_pos.
      read_exact_at-get seg.mmap idx_pos i >> λ offset. pread_at-mmap_at (from_le offset) i

  -- The part of the mapped bytes that holds the table.
  abbrev pub region : List ℕ
  region = take (seg.dict_offset - seg.doc_table_offset) (drop seg.doc_table_offset seg.mmap)

  length-region :
      seg.doc_table_offset ≤ seg.dict_offset
      → length region ≡ seg.dict_offset - seg.doc_table_offset
  length-region h =
      length-take (seg.dict_offset - seg.doc_table_offset) (drop seg.doc_table_offset seg.mmap)
        (omega (arith, valid.inside, length-drop seg.doc_table_offset seg.mmap))

  -- From an entry's place on, the region is the mapped bytes up to the dictionary.
  region_from :
      (abs_off : ℕ)
      → seg.doc_table_offset ≤ abs_off
      → abs_off + 22 ≤ seg.dict_offset
      → drop (abs_off - seg.doc_table_offset) region
        ≡ take (seg.dict_offset - abs_off) (drop abs_off seg.mmap)
  region_from abs_off low room =
      let len : (seg.dict_offset - seg.doc_table_offset) - (abs_off - seg.doc_table_offset)
          ≡ seg.dict_offset - abs_off =
        omega arith in
      let start : seg.doc_table_offset + (abs_off - seg.doc_table_offset) ≡ abs_off = omega arith in
      rw
        (
          drop-take (abs_off - seg.doc_table_offset) (seg.dict_offset - seg.doc_table_offset)
              (drop seg.doc_table_offset seg.mmap),
          len,
          drop_twice seg.doc_table_offset (abs_off - seg.doc_table_offset) seg.mmap,
          start,
        )
        refl

  region_at-mmap_at :
      (abs_off : ℕ)
      → (if outside seg abs_off
          then none
          else get_from region (abs_off - seg.doc_table_offset) >> λ e. read_entry seg abs_off e)
        ≡ mmap_at abs_off
  unfolding get_from
  region_at-mmap_at abs_off = elim (Bool-cases (outside seg abs_off)) [
    | inl out ↦ rw (mmap_at-entry_at abs_off, out) refl
    | inr in_table ↦
        let (low, room) = room_lem abs_off in_table in
        let rest = seg.dict_offset - abs_off in
        let starts : leb (abs_off - seg.doc_table_offset) (length region) ≡ true =
          ground (arith, length-region (omega arith)) in
        rw (mmap_at-entry_at abs_off, in_table, starts, region_from abs_off low room)
          (read_entry-entry_at seg valid abs_off room (take rest (drop abs_off seg.mmap))
            (omega (
              arith,
              valid.inside,
              length-drop abs_off seg.mmap,
              length-take rest (drop abs_off seg.mmap),
            ))
            (λ s t h. slice-take (drop abs_off seg.mmap) rest s t h))
  ]

  pub parse_doc_from_region-get_doc_mmap :
      (doc_id : ℕ)
      → seg.doc_table_offset + (doc_id * 8 + 8) ≤ seg.dict_offset
      → parse_doc_from_region seg region doc_id ≡ get_doc_mmap seg doc_id
  unfolding parse_doc_from_region get_doc_mmap mmap_at checked_mul checked_add
  parse_doc_from_region-get_doc_mmap doc_id h =
      let idx = doc_id * 8 in
      let pos = seg.doc_table_offset + idx in
      let small : ltb idx (2 ^ 64) ≡ true = ground (arith, valid.inside, valid.addressable) in
      let near : ltb pos (2 ^ 64) ≡ true = ground (arith, valid.inside, valid.addressable) in
      let end : seg.doc_table_offset + (idx + 8) ≡ pos + 8 = omega arith in
      let offset : slice region idx (idx + 8) ≡ slice seg.mmap pos (pos + 8) =
        slice-take (drop seg.doc_table_offset seg.mmap) (seg.dict_offset - seg.doc_table_offset) idx
          (idx + 8) (omega arith)
        ∙ slice-drop seg.mmap seg.doc_table_offset idx (idx + 8)
        ∙ rw end refl in
      rw
        (
          small,
          near,
          get-inside region idx (idx + 8) (omega arith)
              (omega (arith, length-region (omega arith))),
          get-inside seg.mmap pos (pos + 8) (omega arith) (omega (arith, valid.inside)),
          offset,
        )
        (region_at-mmap_at (from_le (slice seg.mmap pos (pos + 8))))
