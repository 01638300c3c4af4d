-- ===== src/Segment/DictRead.antt =====
-- src/index/segment/dict_read.rs: binary search of the dictionary and reads of the document table,
-- from the mapped bytes and from the file. A path is its bytes. Whether the backing file exists is
-- decided at open; the postings that a dictionary entry points to are not read here.
use syntext.Prelude.{
  ℕ, zero, suc, ◌+◌, ◌-◌, ◌*◌, ◌/◌, Bool, not, ◌||◌, Option, none, some, List, [], ◌∷◌, map, ltb,
  leb, ◌==◌, if◌then◌else◌, length, slice,
}
use syntext.Codec.Le.{from_le}
use syntext.Segment.Bytes.{
  ◌>>◌, get, get_from, read_exact_at, checked_add, checked_mul, saturating_add,
}

abbrev pub dict_entry_size : ℕ
dict_entry_size = 20

abbrev pub min_doc_entry_bytes : ℕ
min_doc_entry_bytes = 22

pub record DocEntry : Type 0 where
  pub doc_id : ℕ
  pub content_hash : ℕ
  pub size_bytes : ℕ
  pub path : List ℕ

-- The contents of the open file, the mapped bytes, and what the footer says.
pub record MmapSegment : Type 0 where
  pub file : Option (List ℕ)
  pub mmap : List ℕ
  pub expected_len : ℕ
  pub doc_count : ℕ
  pub gram_count : ℕ
  pub doc_table_offset : ℕ
  pub dict_offset : ℕ

unfoldable pub check_len : MmapSegment → Bool
check_len seg = length seg.mmap == seg.expected_len

-- The test of an entry's offset, which the three readers share.
unfoldable pub outside : MmapSegment → ℕ → Bool
outside seg abs_off =
    ltb abs_off seg.doc_table_offset
    || ltb seg.dict_offset (saturating_add abs_off min_doc_entry_bytes)

-- The fields of fixed size, and the length of the path.
pub record DocHeader : Type 0 where
  pub doc_id : ℕ
  pub content_hash : ℕ
  pub size_bytes : ℕ
  pub path_len : ℕ

abbrev pub doc_header : List ℕ → List ℕ → List ℕ → List ℕ → DocHeader
doc_header id hash size len = record {
  doc_id = from_le id;
  content_hash = from_le hash;
  size_bytes = from_le size;
  path_len = from_le len;
}

abbrev pub entry_of : DocHeader → List ℕ → DocEntry
entry_of h path = record {
  doc_id = h.doc_id;
  content_hash = h.content_hash;
  size_bytes = h.size_bytes;
  path = path;
}

unfoldable pub read_header : List ℕ → Option DocHeader
read_header e = get e 0 4 >> λ id. get e 4 12 >> λ hash.
    get e 12 20 >> λ size. get e 20 22 >> λ len. some (doc_header id hash size len)

-- The whole entry has to end before the dictionary.
unfoldable pub too_long : MmapSegment → ℕ → DocHeader → Bool
too_long seg abs_off h = ltb seg.dict_offset (saturating_add abs_off (22 + h.path_len))

-- The entry at the start of `e`, which stands at `abs_off`.
unfoldable pub read_entry : MmapSegment → ℕ → List ℕ → Option DocEntry
read_entry seg abs_off e = read_header e >> λ h.
    if too_long seg abs_off h
    then none
    else get e 22 (22 + h.path_len) >> λ path. some (entry_of h path)

unfoldable pub get_doc_mmap : MmapSegment → ℕ → Option DocEntry
get_doc_mmap seg doc_id = checked_mul doc_id 8 >> λ shift.
    checked_add seg.doc_table_offset shift >> λ idx_pos.
    get seg.mmap idx_pos (idx_pos + 8) >> λ offset.
    if outside seg (from_le offset)
    then none
    else get_from seg.mmap (from_le offset) >> λ e. read_entry seg (from_le offset) e

-- The entry at `abs_off` of the file.
unfoldable pub pread_entry : MmapSegment → List ℕ → ℕ → Option DocEntry
pread_entry seg file abs_off = read_exact_at file 22 abs_off >> λ header.
    let h =
      doc_header (slice header 0 4) (slice header 4 12) (slice header 12 20) (slice header 20 22) in
    if too_long seg abs_off h
    then none
    else checked_add abs_off 22 >> λ path_off.
        read_exact_at file h.path_len path_off >> λ path. some (entry_of h path)

unfoldable pub get_doc_pread : MmapSegment → List ℕ → ℕ → Option DocEntry
get_doc_pread seg file doc_id = checked_mul doc_id 8 >> λ shift.
    checked_add seg.doc_table_offset shift >> λ idx_pos. read_exact_at file 8 idx_pos >> λ offset.
    if outside seg (from_le offset) then none else pread_entry seg file (from_le offset)

abbrev pub get_doc_from : MmapSegment → ℕ → Option (List ℕ) → Option DocEntry
get_doc_from seg doc_id none = get_doc_mmap seg doc_id
get_doc_from seg doc_id (some file) = get_doc_pread seg file doc_id

unfoldable pub get_doc : MmapSegment → ℕ → Option DocEntry
get_doc seg doc_id =
    if not (check_len seg)
    then none
    else if leb seg.doc_count doc_id
    then none
    else get_doc_from seg doc_id seg.file

-- `0..n`
unfoldable pub doc_ids : ℕ → ℕ → List ℕ
doc_ids start zero = []
doc_ids start (suc n) = start ∷ doc_ids (suc start) n

unfoldable pub read_doc_region : MmapSegment → List ℕ → Option (List ℕ)
read_doc_region seg file =
    let len = seg.dict_offset - seg.doc_table_offset in
    if ltb seg.dict_offset seg.doc_table_offset
    then none
    else checked_mul seg.doc_count 8 >> λ index_len.
        if ltb len index_len then none else read_exact_at file len seg.doc_table_offset

unfoldable pub parse_doc_from_region : MmapSegment → List ℕ → ℕ → Option DocEntry
parse_doc_from_region seg region doc_id = checked_mul doc_id 8 >> λ idx_pos.
    get region idx_pos (idx_pos + 8) >> λ offset.
    if outside seg (from_le offset)
    then none
    else get_from region (from_le offset - seg.doc_table_offset) >> λ e.
        read_entry seg (from_le offset) e

abbrev pub region_docs : MmapSegment → Option (List ℕ) → List (Option DocEntry)
region_docs seg none = map (get_doc seg) (doc_ids 0 seg.doc_count)
region_docs seg (some region) = map (parse_doc_from_region seg region) (doc_ids 0 seg.doc_count)

unfoldable pub iter_docs : MmapSegment → List (Option DocEntry)
iter_docs seg =
    if not (check_len seg) then [] else region_docs seg (seg.file >> read_doc_region seg)

-- An entry of the dictionary: the gram's hash, and the offset and count of its postings.
abbrev pub dict_entry : List ℕ → ℕ × (ℕ × ℕ)
dict_entry e = (from_le (slice e 0 8), (from_le (slice e 8 16), from_le (slice e 16 20)))

-- The hash is read first, the rest where the hash is the one that is sought.
unfoldable pub mmap_hash : List ℕ → ℕ → Option ℕ
mmap_hash dict mid =
    let base = mid * dict_entry_size in get dict base (base + 8) >> λ h. some (from_le h)

unfoldable pub mmap_postings : List ℕ → ℕ → Option (ℕ × ℕ)
mmap_postings dict mid =
    let base = mid * dict_entry_size in
    get dict (base + 8) (base + 16) >> λ off.
    get dict (base + 16) (base + 20) >> λ count. some (from_le off, from_le count)

unfoldable pub pread_record : MmapSegment → List ℕ → ℕ → Option (ℕ × (ℕ × ℕ))
pread_record seg file mid = checked_mul mid dict_entry_size >> λ shift.
    checked_add seg.dict_offset shift >> λ base.
    read_exact_at file dict_entry_size base >> λ e. some (dict_entry e)

-- `while lo < hi`, by how the record at `mid` is read; each round makes `hi - lo` smaller, and the
-- first argument is at least that.
unfoldable pub dict_search : (ℕ → Option ℕ) → (ℕ → Option (ℕ × ℕ)) → ℕ → ℕ → ℕ → ℕ → Option (ℕ × ℕ)
dict_search hash postings zero gram_hash lo hi = none
dict_search hash postings (suc rounds) gram_hash lo hi =
    let mid = lo + (hi - lo) / 2 in
    let later = dict_search hash postings rounds gram_hash (mid + 1) hi in
    let earlier = dict_search hash postings rounds gram_hash lo mid in
    if not (ltb lo hi)
    then none
    else hash mid >> λ mid_hash.
        if mid_hash == gram_hash
        then postings mid
        else if ltb mid_hash gram_hash
        then later
        else earlier

unfoldable pub dict_lookup_mmap : MmapSegment → ℕ → Option (ℕ × ℕ)
dict_lookup_mmap seg gram_hash = get_from seg.mmap seg.dict_offset >> λ dict.
    dict_search (mmap_hash dict) (mmap_postings dict) seg.gram_count gram_hash 0 seg.gram_count

unfoldable pub dict_lookup_pread : MmapSegment → List ℕ → ℕ → Option (ℕ × ℕ)
dict_lookup_pread seg file gram_hash =
    dict_search (λ mid. pread_record seg file mid >> λ r. some r.0)
      (λ mid. pread_record seg file mid >> λ r. some r.1) seg.gram_count gram_hash 0 seg.gram_count

abbrev pub dict_lookup_from : MmapSegment → ℕ → Option (List ℕ) → Option (ℕ × ℕ)
dict_lookup_from seg gram_hash none = dict_lookup_mmap seg gram_hash
dict_lookup_from seg gram_hash (some file) = dict_lookup_pread seg file gram_hash

unfoldable pub dict_lookup : MmapSegment → ℕ → Option (ℕ × ℕ)
dict_lookup seg gram_hash = dict_lookup_from seg gram_hash seg.file

unfoldable pub gram_cardinality : MmapSegment → ℕ → Option ℕ
gram_cardinality seg gram_hash =
    if not (check_len seg) then none else dict_lookup seg gram_hash >> λ p. some p.1
