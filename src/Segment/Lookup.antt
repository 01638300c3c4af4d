-- ===== src/Segment/Lookup.antt =====
-- `dict_lookup` of dict_read.rs: both ways of reading find the gram that the dictionary's bytes
-- hold.
use mathlib.Core.Path.{subst}
use syntext.Prelude.{
  ℕ, ◌+◌, ◌*◌, ◌^◌, ◌<◌, ◌≤◌, ◌≡◌, ◌⊎◌, inl, inr, refl, ◌∙◌, true, ◌&&◌, Option, none, some, List,
  ltb, leb, length, length-drop, take, drop, drop_twice, slice, slice-take, slice-drop, arith,
}
use syntext.Codec.Le.{from_le}
use syntext.Segment.Bytes.{◌>>◌, get, get_from, read_exact_at, checked_add, checked_mul}
use syntext.Segment.DictRead.{
  dict_entry_size, MmapSegment, mmap_hash, mmap_postings, pread_record, dict_lookup_mmap,
  dict_lookup_pread, dict_lookup_from, dict_lookup,
}
use syntext.Segment.Dictionary.{Looks, dict_search_lem}

pub get-inside :
    (bytes : List ℕ) (a b : ℕ) → a ≤ b → b ≤ length bytes → get bytes a b ≡ some (slice bytes a b)
unfolding get
get-inside bytes a b h k =
    let inside : (leb a b && leb b (length bytes)) ≡ true = ground arith in rw inside refl

pub read_exact_at-inside :
    (file : List ℕ) (len offset : ℕ)
    → offset + len ≤ length file
    → read_exact_at file len offset ≡ some (take len (drop offset file))
unfolding read_exact_at
read_exact_at-inside file len offset h =
    let inside : leb (offset + len) (length file) ≡ true = ground arith in rw inside refl

module _ (seg : MmapSegment) where
  -- Record `i` of the dictionary, as the layout has it.
  abbrev pub dict_bytes : List ℕ
  dict_bytes = drop seg.dict_offset seg.mmap

  abbrev pub hash_at : ℕ → ℕ
  hash_at i = let base = i * dict_entry_size in from_le (slice dict_bytes base (base + 8))

  abbrev pub postings_at : ℕ → ℕ × ℕ
  postings_at i =
      let base = i * dict_entry_size in
      (
        from_le (slice dict_bytes (base + 8) (base + 16)),
        from_le (slice dict_bytes (base + 16) (base + 20)),
      )

  -- The dictionary stands within the mapped bytes, and its hashes grow.
  pub record DictValid : Type 0 where
    pub inside : seg.dict_offset + seg.gram_count * dict_entry_size ≤ length seg.mmap
    pub addressable : length seg.mmap < 2 ^ 64
    pub increasing : (i j : ℕ) → i < j → j < seg.gram_count → hash_at i < hash_at j

  module _ (valid : DictValid) where
    fits :
        (i : ℕ)
        → i < seg.gram_count
        → seg.dict_offset + (i * dict_entry_size + 20) ≤ length seg.mmap
    fits i h = omega (arith, valid.inside)

    mmap_hash_lem : (i : ℕ) → i < seg.gram_count → mmap_hash dict_bytes i ≡ some (hash_at i)
    unfolding mmap_hash
    mmap_hash_lem i h =
        let base = i * dict_entry_size in
        rw
          (get-inside dict_bytes base (base + 8) (omega arith)
            (omega (arith, fits i h, length-drop seg.dict_offset seg.mmap)))
          refl

    mmap_postings_lem :
        (i : ℕ) → i < seg.gram_count → mmap_postings dict_bytes i ≡ some (postings_at i)
    unfolding mmap_postings
    mmap_postings_lem i h =
        let base = i * dict_entry_size in
        rw
          (
            get-inside dict_bytes (base + 8) (base + 16) (omega arith)
                (omega (arith, fits i h, length-drop seg.dict_offset seg.mmap)),
            get-inside dict_bytes (base + 16) (base + 20) (omega arith)
                (omega (arith, fits i h, length-drop seg.dict_offset seg.mmap)),
          )
          refl

    -- A part of the record that one positional read gives.
    part_of_record :
        (i s e : ℕ)
        → e ≤ 20
        → slice (take 20 (drop (seg.dict_offset + i * dict_entry_size) seg.mmap)) s e
          ≡ slice dict_bytes (i * dict_entry_size + s) (i * dict_entry_size + e)
    part_of_record i s e h =
        let base = i * dict_entry_size in
        slice-take (drop (seg.dict_offset + base) seg.mmap) 20 s e h
        ∙ rw (← drop_twice seg.dict_offset base seg.mmap) (slice-drop dict_bytes base s e)

    pread_record_lem :
        (i : ℕ) → i < seg.gram_count → pread_record seg seg.mmap i ≡ some (hash_at i, postings_at i)
    unfolding pread_record checked_mul checked_add
    pread_record_lem i h =
        let base = i * dict_entry_size in
        let small : ltb base (2 ^ 64) ≡ true = ground (arith, fits i h, valid.addressable) in
        let near : ltb (seg.dict_offset + base) (2 ^ 64) ≡ true =
          ground (arith, fits i h, valid.addressable) in
        let zero_part : slice (take 20 (drop (seg.dict_offset + base) seg.mmap)) 0 8
            ≡ slice dict_bytes base (base + 8) =
          subst
            (λ k.
              slice (take 20 (drop (seg.dict_offset + base) seg.mmap)) 0 8
              ≡ slice dict_bytes k (base + 8))
            (omega arith) (part_of_record i 0 8 (omega arith)) in
        rw
          (
            small,
            near,
            read_exact_at-inside seg.mmap 20 (seg.dict_offset + base) (omega (arith, fits i h)),
            zero_part,
            part_of_record i 8 16 (omega arith),
            part_of_record i 16 20 (omega arith),
          )
          refl

    hash_lem :
        (i : ℕ)
        → i < seg.gram_count
        → (pread_record seg seg.mmap i >> λ r. some r.0) ≡ some (hash_at i)
    hash_lem i h = rw (pread_record_lem i h) refl

    postings_lem :
        (i : ℕ)
        → i < seg.gram_count
        → (pread_record seg seg.mmap i >> λ r. some r.1) ≡ some (postings_at i)
    postings_lem i h = rw (pread_record_lem i h) refl

    mmap-Looks : (g : ℕ) → Looks hash_at postings_at seg.gram_count g (dict_lookup_mmap seg g)
    unfolding dict_lookup_mmap get_from
    mmap-Looks g =
        let starts : leb seg.dict_offset (length seg.mmap) ≡ true = ground (arith, valid.inside) in
        rw starts (
          dict_search_lem (mmap_hash dict_bytes) (mmap_postings dict_bytes) hash_at postings_at
            seg.gram_count g mmap_hash_lem mmap_postings_lem valid.increasing)

    pread-Looks :
        (g : ℕ) → Looks hash_at postings_at seg.gram_count g (dict_lookup_pread seg seg.mmap g)
    unfolding dict_lookup_pread
    pread-Looks g =
        dict_search_lem (λ mid. pread_record seg seg.mmap mid >> λ r. some r.0)
          (λ mid. pread_record seg seg.mmap mid >> λ r. some r.1) hash_at postings_at seg.gram_count
          g hash_lem postings_lem valid.increasing

    from-Looks :
        (g : ℕ) (file : Option (List ℕ))
        → (file ≡ none) ⊎ (file ≡ some seg.mmap)
        → Looks hash_at postings_at seg.gram_count g (dict_lookup_from seg g file)
    from-Looks g file (inl e) = rw e (mmap-Looks g)
    from-Looks g file (inr e) = rw e (pread-Looks g)

  -- In a segment whose dictionary stands within the mapped bytes, in the order of the hashes, and
  -- whose file, if it has one, holds the same bytes, `dict_lookup` gives the offset and count of
  -- the record with the gram's hash, and none only where no record has that hash.
  pub dict_lookup-Looks :
      DictValid
      → (g : ℕ) → (seg.file ≡ none) ⊎ (seg.file ≡ some seg.mmap)
      → Looks hash_at postings_at seg.gram_count g (dict_lookup seg g)
  unfolding dict_lookup
  dict_lookup-Looks valid g same = from-Looks valid g seg.file same
