-- ===== src/Tests/Codec.antt =====
-- Runs of the sidecars' readers and writers, with bitmaps of one number.
use mathlib.Core.Option
use syntext.Prelude.{
  get_elem?, ℕ, ◌%◌, ◌≤◌, ◌≡◌, refl, Bool, true, false, Option, none, some, List, [], ◌∷◌, ◌++◌,
  map, length, All, ltb, leb, ◌&&◌, contains, arith,
}
use syntext.Prelude.Text.{chars, eq_chars}
use syntext.Codec.Le.{from_le}
use syntext.Codec.Reader.{ok, err}
use syntext.Codec.Roaring.{Format}
use syntext.Codec.Header.{SidecarError, open_body, with_header}
use syntext.Codec.Sorted.{le_key, le_key_refl, find_key}
use syntext.Codec.PathsIdx.{PathIndex, encode, decode}
use syntext.Codec.PathsRoundTrip.{Fits, decode-encode-lookups}
use syntext.Codec.Accepted.{Byte}
use syntext.Codec.DeletesIdx
use syntext.Codec.CatalogueRoundTrip
use syntext.Codec.DeletesIdx.{is_plain_filename, has_dot_dot, read_deletes_idx, write_deletes_idx}
use syntext.Codec.DeletesRead.{read_deletes_idx-write_deletes_idx, read_deletes_idx-accepts}
use syntext.Codec.Catalogue.{
  System, FileFingerprint, CatalogueEntry, DecodedCatalogue, read_catalogue, write_catalogue,
}
use syntext.Codec.CatalogueRoundTrip.{FitsFingerprint, read_catalogue-write_catalogue}

abbrev one_number : List ℕ → Option ℕ
one_number [] = none
one_number (n ∷ []) = some n
one_number (n ∷ m ∷ ns) = none

abbrev toy : Format
toy = record {
  Bitmap = ℕ;
  serialize = λ n. n ∷ [];
  deserialize = one_number;
  xxh64 = λ bytes seed. length bytes % 256;
  deserialize-serialize = λ b. refl;
  xxh64_bound = λ bytes seed. omega arith;
}

abbrev two_paths : PathIndex toy
two_paths = record {
  paths = chars "a.rs" ∷ chars "b/c.py" ∷ [];
  path_to_file_id = (chars "a.rs", 0) ∷ (chars "b/c.py", 1) ∷ [];
  file_id_to_path = some (chars "a.rs") ∷ some (chars "b/c.py") ∷ [];
  extension_to_files = (chars "rs", 1) ∷ (chars "py", 2) ∷ [];
  component_to_files = (chars "b", 2) ∷ [];
  next_file_id = 2;
}

two_paths-Fits : Fits toy two_paths
two_paths-Fits = record {
  path_count = omega arith;
  path_lens = (omega arith, (omega arith, tt));
  ext_count = omega arith;
  ext_lens = ((omega arith, omega arith), ((omega arith, omega arith), tt));
  component_count = omega arith;
  component_lens = ((omega arith, omega arith), tt);
}

decode-encode-lookups_example :
    (decoded : PathIndex toy) × (decode toy (encode toy two_paths) ≡ ok decoded)
    × (decoded.paths ≡ two_paths.paths)
    × (decoded.file_id_to_path ≡ map some two_paths.paths)
    × ((i : ℕ)
        → get_elem? decoded.path_to_file_id i
          ≡ Option.map (λ path. (path, i)) (get_elem? two_paths.paths i))
    × (decoded.next_file_id ≡ 2)
    × (find_key (chars "py") decoded.extension_to_files ≡ some 2)
    × (find_key (chars "py") decoded.component_to_files ≡ none)
unfolding find_key eq_chars
decode-encode-lookups_example = decode-encode-lookups toy two_paths (chars "py") two_paths-Fits

abbrev starts_at_root : List ℕ → Bool
starts_at_root [] = false
starts_at_root (c ∷ cs) = leb c 47

deletes_are_plain : is_plain_filename starts_at_root (chars "deletes-1.idx") ≡ true
unfolding is_plain_filename has_dot_dot contains
deletes_are_plain = refl

read_deletes_idx-write_deletes_idx_example :
    read_deletes_idx toy starts_at_root
      (chars "deletes-1.idx")
      (some 17)
      (write_deletes_idx toy starts_at_root (chars "deletes-1.idx") 5)
    ≡ ok 5
read_deletes_idx-write_deletes_idx_example =
    read_deletes_idx-write_deletes_idx toy starts_at_root (chars "deletes-1.idx") 5 17
      deletes_are_plain (omega arith)

abbrev deletes_file : List ℕ
deletes_file = chars "STDL" ++ (1 ∷ 0 ∷ 0 ∷ 0 ∷ 1 ∷ 0 ∷ 0 ∷ 0 ∷ 0 ∷ 0 ∷ 0 ∷ 0 ∷ 5 ∷ [])

deletes_file_read :
    read_deletes_idx toy starts_at_root (chars "deletes-1.idx") (some 17) (some deletes_file) ≡ ok 5
unfolding read_deletes_idx is_plain_filename has_dot_dot contains DeletesIdx.decode open_body
    eq_chars from_le
deletes_file_read = refl

unfoldable are_bytes : List ℕ → Bool
are_bytes [] = true
are_bytes (b ∷ bs) = ltb b 256 && are_bytes bs

are_bytes-All : (bs : List ℕ) → are_bytes bs ≡ true → All Byte bs
unfolding are_bytes
are_bytes-All [] h = tt
are_bytes-All (b ∷ bs) h = (ground arith, are_bytes-All bs (ground arith))

deletes_file_bytes : All Byte deletes_file
unfolding are_bytes
deletes_file_bytes = are_bytes-All deletes_file refl

read_deletes_idx-accepts_example :
    (is_plain_filename starts_at_root (chars "deletes-1.idx") ≡ true)
    × ((n : ℕ) × (some 17 ≡ some n) × (n ≤ DeletesIdx.max_sidecar_size))
    × ((body : List ℕ) × (deletes_file ≡ with_header toy DeletesIdx.magic body)
        × (one_number body ≡ some 5))
read_deletes_idx-accepts_example =
    read_deletes_idx-accepts toy starts_at_root (chars "deletes-1.idx") (some 17) deletes_file 5
      deletes_file_bytes deletes_file_read

-- A file whose version is 2.
deletes_version_run :
    DeletesIdx.decode toy (chars "STDL" ++ (2 ∷ 0 ∷ 0 ∷ 0 ∷ 1 ∷ 0 ∷ 0 ∷ 0 ∷ 0 ∷ 0 ∷ 0 ∷ 0 ∷ 5 ∷ []))
    ≡ err (SidecarError.unsupported_version 2)
unfolding DeletesIdx.decode open_body eq_chars from_le
deletes_version_run = refl

abbrev ascii : System
ascii = record {
  path_le = le_key;
  to_string_lossy = λ path. path;
  is_utf8 = λ path. true;
  xxh64 = λ bytes seed. length bytes % 256;
  path_le_refl = le_key_refl;
  to_string_lossy_utf8 = λ path h. refl;
  xxh64_bound = λ bytes seed. omega arith;
}

abbrev digest : List ℕ
digest =
    1 ∷ 2 ∷ 3 ∷ 4 ∷ 5 ∷ 6 ∷ 7 ∷ 8 ∷ 1 ∷ 2 ∷ 3 ∷ 4 ∷ 5 ∷ 6 ∷ 7 ∷ 8 ∷ 1 ∷ 2 ∷ 3 ∷ 4 ∷ 5 ∷ 6 ∷ 7 ∷ 8
    ∷ 1 ∷ 2 ∷ 3 ∷ 4 ∷ 5 ∷ 6 ∷ 7 ∷ 8 ∷ []

abbrev print : FileFingerprint
print = record { digest = digest; size = 12; mtime_secs = 1700; mtime_nanos = 3 }

abbrev seen : CatalogueEntry
seen = record { fingerprint = print; observed_generation = 4 }

print-FitsFingerprint : FitsFingerprint print
print-FitsFingerprint = record {
  digest_len = refl;
  size_fits = omega arith;
  secs_fits = omega arith;
  nanos_fits = omega arith;
}

catalogue-Fits :
    CatalogueRoundTrip.Fits ascii 4
      ((chars "b.rs", seen) ∷ (chars "a.rs", seen) ∷ [])
      ((chars "st", 3) ∷ [])
catalogue-Fits = record {
  generation_fits = omega arith;
  entry_count = omega arith;
  entries_fit = (
    ((omega arith, refl), print-FitsFingerprint, omega arith),
    (((omega arith, refl), print-FitsFingerprint, omega arith), tt),
  );
  consumer_count = omega arith;
  consumers_fit = (((omega arith, refl), omega arith), tt);
}

read_catalogue-write_catalogue_example :
    (decoded : DecodedCatalogue) × (read_catalogue ascii (
        write_catalogue ascii 4
          ((chars "b.rs", seen) ∷ (chars "a.rs", seen) ∷ [])
          ((chars "st", 3) ∷ []))
      ≡ ok decoded)
    × (decoded.generation ≡ 4)
    × (find_key (chars "a.rs") decoded.entries ≡ some seen)
    × (find_key (chars "a.rs") decoded.consumers ≡ none)
unfolding find_key eq_chars
read_catalogue-write_catalogue_example =
    read_catalogue-write_catalogue ascii 4 ((chars "b.rs", seen) ∷ (chars "a.rs", seen) ∷ [])
      ((chars "st", 3) ∷ []) (chars "a.rs") catalogue-Fits
