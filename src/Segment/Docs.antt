-- ===== src/Segment/Docs.antt =====
-- The entries of the document table: what each of the readers of dict_read.rs gives.
use syntext.Prelude.{
  ℕ, ◌+◌, ◌-◌, ◌^◌, ◌<◌, ◌≤◌, ◌≡◌, refl, ◌∙◌, true, false, inl, inr, Option, none, some, List, ltb,
  if◌then◌else◌, length, take, drop, drop_twice, slice, slice-take, Bool-cases, arith,
}
use syntext.Segment.Bytes.{checked_add, saturating_add}
use syntext.Segment.DictRead.{
  DocEntry, MmapSegment, DocHeader, doc_header, entry_of, read_header, too_long, read_entry,
  pread_entry,
}
use syntext.Segment.Lookup.{get-inside, read_exact_at-inside}

abbrev pub header_of : List ℕ → DocHeader
header_of e = doc_header (slice e 0 4) (slice e 4 12) (slice e 12 20) (slice e 20 22)

read_header-inside : (e : List ℕ) → 22 ≤ length e → read_header e ≡ some (header_of e)
unfolding read_header
read_header-inside e h =
    rw
      (
        get-inside e 0 4 (omega arith) (omega arith),
        get-inside e 4 12 (omega arith) (omega arith),
        get-inside e 12 20 (omega arith) (omega arith),
        get-inside e 20 22 (omega arith) (omega arith),
      )
      refl

module _ (seg : MmapSegment) where
  -- As the segment's layout is validated: the table's end is in the mapped bytes.
  pub record TableValid : Type 0 where
    pub inside : seg.dict_offset ≤ length seg.mmap
    pub addressable : length seg.mmap < 2 ^ 63

  -- The entry whose bytes start at `abs_off`, or none where it does not end before the dictionary.
  abbrev pub entry_at : ℕ → Option DocEntry
  entry_at abs_off =
      let e = drop abs_off seg.mmap in
      let h = header_of e in
      if too_long seg abs_off h then none else some (entry_of h (slice e 22 (22 + h.path_len)))

  module _ (valid : TableValid) (abs_off : ℕ) (room : abs_off + 22 ≤ seg.dict_offset) where
    pub short :
        (h : DocHeader)
        → too_long seg abs_off h ≡ false
        → abs_off + (22 + h.path_len) ≤ seg.dict_offset
    unfolding too_long saturating_add
    short h e = ground (arith, valid.inside, valid.addressable)

    -- `e` has the bytes from `abs_off` to the dictionary.
    pub read_entry-entry_at :
        (e : List ℕ)
        → seg.dict_offset - abs_off ≤ length e
        → ((s t : ℕ)
            → t ≤ seg.dict_offset - abs_off
            → slice e s t ≡ slice (drop abs_off seg.mmap) s t)
        → read_entry seg abs_off e ≡ entry_at abs_off
    unfolding read_entry
    read_entry-entry_at e long same =
        let h = header_of (drop abs_off seg.mmap) in
        let header : read_header e ≡ some h =
          read_header-inside e (omega arith)
          ∙ rw
              (
                same 0 4 (omega arith),
                same 4 12 (omega arith),
                same 12 20 (omega arith),
                same 20 22 (omega arith),
              )
              refl in
        elim (Bool-cases (too_long seg abs_off h)) [
          | inl over ↦ rw (header, over) refl
          | inr ends ↦
              let fit = short h ends in
              rw
                (
                  header,
                  ends,
                  get-inside e 22 (22 + h.path_len) (omega arith) (omega arith),
                  same 22 (22 + h.path_len) (omega arith),
                )
                refl
        ]

    pub pread_entry-entry_at : pread_entry seg seg.mmap abs_off ≡ entry_at abs_off
    unfolding pread_entry checked_add
    pread_entry-entry_at =
        let e = drop abs_off seg.mmap in
        let h = header_of e in
        let near : ltb (abs_off + 22) (2 ^ 64) ≡ true =
          ground (arith, valid.inside, valid.addressable) in
        elim (Bool-cases (too_long seg abs_off h)) [
          | inl over ↦
              rw
                (
                  read_exact_at-inside seg.mmap 22 abs_off (omega (arith, valid.inside)),
                  slice-take e 22 0 4 (omega arith),
                  slice-take e 22 4 12 (omega arith),
                  slice-take e 22 12 20 (omega arith),
                  slice-take e 22 20 22 (omega arith),
                  over,
                )
                refl
          | inr ends ↦
              let fit = short h ends in
              let path : take h.path_len (drop (abs_off + 22) seg.mmap)
                  ≡ slice e 22 (22 + h.path_len) =
                let n : (22 + h.path_len) - 22 ≡ h.path_len = omega arith in
                rw (n, drop_twice abs_off 22 seg.mmap) refl in
              rw
                (
                  read_exact_at-inside seg.mmap 22 abs_off (omega (arith, valid.inside)),
                  slice-take e 22 0 4 (omega arith),
                  slice-take e 22 4 12 (omega arith),
                  slice-take e 22 12 20 (omega arith),
                  slice-take e 22 20 22 (omega arith),
                  ends,
                  near,
                  read_exact_at-inside seg.mmap h.path_len (abs_off + 22)
                      (omega (arith, valid.inside)),
                  path,
                )
                refl
        ]
