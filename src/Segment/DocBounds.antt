-- ===== src/Segment/DocBounds.antt =====
-- Which bytes an entry of the document table comes from.
use mathlib.Core.Path.{subst}
use mathlib.Core.Option.{some-injective}
use syntext.Prelude.{
  ℕ, ◌+◌, ◌-◌, ◌<◌, ◌≤◌, ◌≡◌, ◌⊎◌, refl, sym, ◌∙◌, false, inl, inr, none, some, leb, if◌then◌else◌,
  length, length-drop, length-take, drop, slice, Bool-cases, arith,
}
use syntext.Codec.Le.{from_le}
use syntext.Segment.Bytes.{bind-some, get, checked_add, checked_mul}
use syntext.Segment.DictRead.{
  DocEntry, MmapSegment, entry_of, check_len, outside, too_long, get_doc_mmap, get_doc,
}
use syntext.Segment.Docs.{TableValid, header_of, entry_at, short}
use syntext.Segment.DocTable.{room_lem, mmap_at, mmap_at-entry_at}
use syntext.Segment.IterDocs.{get_doc-get_doc_mmap}

module _ (seg : MmapSegment) where
  -- The entry stands between the table's start and the dictionary, its path with it.
  abbrev pub InTable : DocEntry → Type 0
  InTable d =
      (abs_off : ℕ) × (seg.doc_table_offset ≤ abs_off)
      × (abs_off + (22 + length d.path) ≤ seg.dict_offset)
      × (d.doc_id ≡ from_le (slice (drop abs_off seg.mmap) 0 4))
      × (d.content_hash ≡ from_le (slice (drop abs_off seg.mmap) 4 12))
      × (d.size_bytes ≡ from_le (slice (drop abs_off seg.mmap) 12 20))
      × (d.path ≡ slice (drop abs_off seg.mmap) 22 (22 + length d.path))

  module _ (valid : TableValid seg) where
    entry-InTable :
        (abs_off : ℕ)
        → seg.doc_table_offset ≤ abs_off
        → abs_off + 22 ≤ seg.dict_offset
        → too_long seg abs_off (header_of (drop abs_off seg.mmap)) ≡ false
        → (let e = drop abs_off seg.mmap in
            let h = header_of e in InTable (entry_of h (slice e 22 (22 + h.path_len))))
    entry-InTable abs_off low room ends =
        let e = drop abs_off seg.mmap in
        let h = header_of e in
        let fit = short seg valid abs_off room h ends in
        let n : (22 + h.path_len) - 22 ≡ h.path_len = omega arith in
        let len : length (slice e 22 (22 + h.path_len)) ≡ h.path_len =
          length-take ((22 + h.path_len) - 22) (drop 22 e)
            (omega (arith, valid.inside, length-drop abs_off seg.mmap, length-drop 22 e))
          ∙ n in
        (abs_off, low, omega (arith, len), refl, refl, refl, rw len refl)

    at_offset : (abs_off : ℕ) (d : DocEntry) → mmap_at seg valid abs_off ≡ some d → InTable d
    at_offset abs_off d h =
        let closed : (if outside seg abs_off then none else entry_at seg abs_off) ≡ some d =
          sym (mmap_at-entry_at seg valid abs_off) ∙ h in
        elim (Bool-cases (outside seg abs_off)) [
          | inl out ↦ let stop : none ≡ some d = rw out at closed in ground arith
          | inr in_table ↦
              let (low, room) = room_lem seg valid abs_off in_table in
              let entry : entry_at seg abs_off ≡ some d = rw in_table at closed in
              elim (Bool-cases (too_long seg abs_off (header_of (drop abs_off seg.mmap)))) [
                | inl over ↦ let stop : none ≡ some d = rw over at entry in ground arith
                | inr ends ↦
                    let e = drop abs_off seg.mmap in
                    let h = header_of e in
                    let found = entry_of h (slice e 22 (22 + h.path_len)) in
                    let value : some found ≡ some d = rw ends at entry in
                    subst InTable (some-injective found d value)
                      (entry-InTable abs_off low room ends)
              ]
        ]

    in_mmap : (doc_id : ℕ) (d : DocEntry) → get_doc_mmap seg doc_id ≡ some d → InTable d
    unfolding get_doc_mmap mmap_at
    in_mmap doc_id d h =
        let (shift, e, h₁) = bind-some (checked_mul doc_id 8) _ d h in
        let (pos, e₂, h₂) = bind-some (checked_add seg.doc_table_offset shift) _ d h₁ in
        let (offset, e₃, h₃) = bind-some (get seg.mmap pos (pos + 8)) _ d h₂ in
        at_offset (from_le offset) d h₃

    -- In a segment whose table ends within the mapped bytes and whose file, if it has one, holds
    -- the same bytes, every entry that is returned is read from bytes between the table's start
    -- and the dictionary, its path with them: an offset or a length in the file that points
    -- elsewhere gives no entry.
    pub get_doc-InTable :
        (seg.file ≡ none) ⊎ (seg.file ≡ some seg.mmap)
        → (doc_id : ℕ) (d : DocEntry) → get_doc seg doc_id ≡ some d
        → (doc_id < seg.doc_count) × InTable d
    unfolding get_doc
    get_doc-InTable same doc_id d h = elim (Bool-cases (check_len seg)) [
      | inr changed ↦ let stop : none ≡ some d = rw changed at h in ground arith
      | inl whole ↦ elim (Bool-cases (leb seg.doc_count doc_id)) [
        | inl beyond ↦ let stop : none ≡ some d = rw (whole, beyond) at h in ground arith
        | inr counted ↦
            let small : doc_id < seg.doc_count = ground arith in
            let read : get_doc_mmap seg doc_id ≡ some d =
              sym (get_doc-get_doc_mmap seg valid doc_id same whole small) ∙ h in
            (small, in_mmap doc_id d read)
      ]
    ]
