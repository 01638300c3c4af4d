-- ===== src/Codec/Catalogue.antt =====
-- src/changes/codec.rs: the change catalogue's file. A path is its bytes in UTF-8; an i64 is its
-- 64-bit pattern; a hash map is the list of its entries, of which the last counts where a key
-- stands twice. Opening, writing and renaming the file are I/O.
use syntext.Prelude.{ℕ, ◌^◌, ◌<◌, ◌≡◌, ◌==◌, Bool, true, not, List, ◌++◌, if◌then◌else◌, length}
use syntext.Prelude.Text.{chars, eq_chars}
use syntext.Codec.Le.{le_bytes}
use syntext.Codec.Reader.{
  Result, ok, err, ◌>>=◌, Reader, read_bytes, read_le, read_times, write_each,
}
use syntext.Codec.Sorted.{le_key, sort_entries}

abbrev pub magic : List ℕ
magic = chars "SNTXCAT1"

abbrev pub version : ℕ
version = 1

-- The `io::Error`s.
pub data CatalogueError : Type 0 where
  invalid_magic checksum_mismatch invalid_utf8 unexpected_eof : CatalogueError
  unsupported_version : ℕ → CatalogueError

pub record FileFingerprint : Type 0 where
  pub digest : List ℕ
  pub size : ℕ
  pub mtime_secs : ℕ
  pub mtime_nanos : ℕ

pub record CatalogueEntry : Type 0 where
  pub fingerprint : FileFingerprint
  pub observed_generation : ℕ

abbrev pub Entries : Type 0
Entries = List (List ℕ × CatalogueEntry)

abbrev pub Consumers : Type 0
Consumers = List (List ℕ × ℕ)

pub record DecodedCatalogue : Type 0 where
  pub generation : ℕ
  pub entries : Entries
  pub consumers : Consumers

-- The standard library's order of paths (by components) and `to_string_lossy`, and the crate's
-- xxh64, with what is documented of them.
pub record System : Type 0 where
  pub path_le : List ℕ → List ℕ → Bool
  pub to_string_lossy : List ℕ → List ℕ
  pub is_utf8 : List ℕ → Bool
  pub xxh64 : List ℕ → ℕ → ℕ
  pub path_le_refl : (path : List ℕ) → path_le path path ≡ true
  pub to_string_lossy_utf8 : (path : List ℕ) → is_utf8 path ≡ true → to_string_lossy path ≡ path
  pub xxh64_bound : (bytes : List ℕ) (seed : ℕ) → xxh64 bytes seed < 256 ^ 8

unfoldable pub read_slice : ℕ → Reader CatalogueError (List ℕ)
read_slice len cur = read_bytes CatalogueError.unexpected_eof len cur

-- `read_u16`, `read_u32`, `read_u64` and `read_i64`, by their widths in bytes.
unfoldable pub read_uint : ℕ → Reader CatalogueError ℕ
read_uint w cur = read_le CatalogueError.unexpected_eof w cur

-- A length of two bytes, and as many bytes.
unfoldable pub write_name : List ℕ → List ℕ
write_name bytes = le_bytes 2 (length bytes) ++ bytes

unfoldable pub write_fingerprint : FileFingerprint → List ℕ
write_fingerprint f =
    f.digest ++ (le_bytes 8 f.size ++ (le_bytes 8 f.mtime_secs ++ le_bytes 4 f.mtime_nanos))

unfoldable pub write_consumer : List ℕ × ℕ → List ℕ
write_consumer (name, applied) = write_name name ++ le_bytes 8 applied

unfoldable pub read_fingerprint : Reader CatalogueError FileFingerprint
read_fingerprint cur = read_slice 32 cur >>= λ digest. read_uint 8 digest.1 >>= λ size.
    read_uint 8 size.1 >>= λ secs. read_uint 4 secs.1 >>= λ nanos. ok (
      record { digest = digest.0; size = size.0; mtime_secs = secs.0; mtime_nanos = nanos.0 },
      nanos.1,
    )

module _ (S : System) where
  open S use {path_le, to_string_lossy, is_utf8, xxh64}

  unfoldable pub write_entry : List ℕ × CatalogueEntry → List ℕ
  write_entry (path, entry) =
      write_name (to_string_lossy path)
      ++ (write_fingerprint entry.fingerprint ++ le_bytes 8 entry.observed_generation)

  unfoldable pub payload : Entries → Consumers → List ℕ
  payload entries consumers =
      le_bytes 4 (length entries)
      ++ (write_each write_entry (sort_entries path_le entries)
          ++ (le_bytes 4 (length consumers)
              ++ write_each write_consumer (sort_entries le_key consumers)))

  -- What the file holds before it is renamed.
  unfoldable pub write_catalogue : ℕ → Entries → Consumers → List ℕ
  write_catalogue generation entries consumers =
      let body = payload entries consumers in
      magic
      ++ (le_bytes 4 version ++ (le_bytes 8 generation ++ (le_bytes 8 (xxh64 body 0) ++ body)))

  -- A name whose bytes are text.
  unfoldable pub read_name : Reader CatalogueError (List ℕ)
  read_name cur = read_uint 2 cur >>= λ len. read_slice len.0 len.1 >>= λ name.
      if is_utf8 name.0 then ok name else err CatalogueError.invalid_utf8

  unfoldable pub read_entry : Reader CatalogueError (List ℕ × CatalogueEntry)
  read_entry cur = read_name cur >>= λ path. read_fingerprint path.1 >>= λ print.
      read_uint 8 print.1 >>= λ seen.
      ok ((path.0, record { fingerprint = print.0; observed_generation = seen.0 }), seen.1)

  unfoldable pub read_consumer : Reader CatalogueError (List ℕ × ℕ)
  read_consumer cur = read_name cur >>= λ name.
      read_uint 8 name.1 >>= λ applied. ok ((name.0, applied.0), applied.1)

  -- What stands after the last consumer is not looked at.
  unfoldable pub read_payload : ℕ → List ℕ → Result CatalogueError DecodedCatalogue
  read_payload generation cur = read_uint 4 cur >>= λ count.
      read_times read_entry count.0 count.1 >>= λ entries. read_uint 4 entries.1 >>= λ named.
      read_times read_consumer named.0 named.1 >>= λ consumers.
      ok (record { generation = generation; entries = entries.0; consumers = consumers.0 })

  unfoldable pub read_checked : ℕ → ℕ → List ℕ → Result CatalogueError DecodedCatalogue
  read_checked generation checksum body =
      if not (xxh64 body 0 == checksum)
      then err CatalogueError.checksum_mismatch
      else read_payload generation body

  -- After the magic number.
  unfoldable pub read_versioned : List ℕ → Result CatalogueError DecodedCatalogue
  read_versioned cur = read_uint 4 cur >>= λ found.
      if not (found.0 == version)
      then err (CatalogueError.unsupported_version found.0)
      else read_uint 8 found.1 >>= λ generation.
          read_uint 8 generation.1 >>= λ checksum. read_checked generation.0 checksum.0 checksum.1

  -- The contents of a file that exists.
  unfoldable pub read_catalogue : List ℕ → Result CatalogueError DecodedCatalogue
  read_catalogue bytes = read_slice 8 bytes >>= λ found.
      if not (eq_chars found.0 magic)
      then err CatalogueError.invalid_magic
      else read_versioned found.1
