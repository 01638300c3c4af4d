-- ===== src/Tests/Segment.antt =====
-- A small segment: one document, two grams.
use syntext.Prelude.{ℕ, ◌<◌, ◌≡◌, inr, refl, some, List, [], ◌∷◌, map, arith}
use syntext.Codec.Le.{from_le}
use syntext.Segment.Bytes.{read_exact_at, checked_add, checked_mul, saturating_add}
use syntext.Segment.DictRead.{
  MmapSegment, DocEntry, check_len, outside, too_long, pread_entry, get_doc_pread, get_doc, doc_ids,
  iter_docs, dict_lookup,
}
use syntext.Segment.Dictionary.{Looks}
use syntext.Segment.Lookup.{DictValid, hash_at, postings_at, dict_lookup-Looks}
use syntext.Segment.Docs.{TableValid}
use syntext.Segment.IterDocs.{iter_docs-get_doc}
use syntext.Segment.DocBounds.{InTable, get_doc-InTable}

-- The index of the table, the document "a", and the records of the grams 3 and 9.
abbrev bytes : List ℕ
bytes =
    8 ∷ 0 ∷ 0 ∷ 0 ∷ 0 ∷ 0 ∷ 0 ∷ 0 ∷ 7 ∷ 0 ∷ 0 ∷ 0 ∷ 5 ∷ 0 ∷ 0 ∷ 0 ∷ 0 ∷ 0 ∷ 0 ∷ 0 ∷ 9 ∷ 0 ∷ 0 ∷ 0
    ∷ 0 ∷ 0 ∷ 0 ∷ 0 ∷ 1 ∷ 0 ∷ 97 ∷ 3 ∷ 0 ∷ 0 ∷ 0 ∷ 0 ∷ 0 ∷ 0 ∷ 0 ∷ 1 ∷ 0 ∷ 0 ∷ 0 ∷ 0 ∷ 0 ∷ 0 ∷ 0 ∷ 2
    ∷ 0 ∷ 0 ∷ 0 ∷ 9 ∷ 0 ∷ 0 ∷ 0 ∷ 0 ∷ 0 ∷ 0 ∷ 0 ∷ 4 ∷ 0 ∷ 0 ∷ 0 ∷ 0 ∷ 0 ∷ 0 ∷ 0 ∷ 5 ∷ 0 ∷ 0 ∷ 0 ∷ []

abbrev small : MmapSegment
small = record {
  file = some bytes;
  mmap = bytes;
  expected_len = 71;
  doc_count = 1;
  gram_count = 2;
  doc_table_offset = 0;
  dict_offset = 31;
}

grows : (i j : ℕ) → i < j → j < 2 → hash_at small i < hash_at small j
unfolding from_le
grows i j h k =
    let a : i ≡ 0 = omega arith in let b : j ≡ 1 = omega arith in rw (a, b) (omega arith)

small-DictValid : DictValid small
small-DictValid = record { inside = omega arith; addressable = omega arith; increasing = grows }

small-TableValid : TableValid small
small-TableValid = record { inside = omega arith; addressable = omega arith }

dict_lookup-Looks_example : Looks (hash_at small) (postings_at small) 2 9 (dict_lookup small 9)
dict_lookup-Looks_example = dict_lookup-Looks small small-DictValid 9 (inr refl)

iter_docs-get_doc_example : iter_docs small ≡ map (get_doc small) (0 ∷ [])
unfolding doc_ids check_len
iter_docs-get_doc_example = iter_docs-get_doc small small-TableValid (inr refl) refl

abbrev doc_a : DocEntry
doc_a = record { doc_id = 7; content_hash = 5; size_bytes = 9; path = 97 ∷ [] }

small_doc : get_doc small 0 ≡ some doc_a
unfolding get_doc get_doc_pread pread_entry check_len outside too_long checked_mul checked_add
    saturating_add read_exact_at from_le
small_doc = refl

get_doc-InTable_example : (0 < 1) × InTable small doc_a
get_doc-InTable_example = get_doc-InTable small small-TableValid (inr refl) 0 doc_a small_doc
