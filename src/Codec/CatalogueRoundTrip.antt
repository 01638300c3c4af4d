-- ===== src/Codec/CatalogueRoundTrip.antt =====
-- `read_catalogue` of src/changes/codec.rs reads back what `write_catalogue` wrote.
use mathlib.Core.Path.{subst}
use syntext.Prelude.{
  ℕ, ◌^◌, ◌<◌, ◌≡◌, refl, true, List, [], ◌++◌, append-nil, append_assoc, ◌==◌, length, All, arith,
}
use syntext.Prelude.Text.{eq_chars_refl}
use syntext.Codec.Le.{le_bytes}
use syntext.Codec.Reader.{
  ok, read_times, write_each, read_bytes-append, read_le-append, read_times-write_each,
}
use syntext.Codec.Sorted.{
  le_key, le_key_refl, sort_entries, length-sort_entries, sort_entries-All, find_key,
  find_key-sort_entries,
}
use syntext.Codec.Catalogue.{
  magic, version, CatalogueError, FileFingerprint, CatalogueEntry, Entries, Consumers,
  DecodedCatalogue, System, read_slice, read_uint, write_name, write_fingerprint, write_consumer,
  read_fingerprint, write_entry, payload, write_catalogue, read_name, read_entry, read_consumer,
  read_payload, read_checked, read_versioned, read_catalogue,
}

read_slice-append :
    (n : ℕ) (xs rest : List ℕ) → n ≡ length xs → read_slice n (xs ++ rest) ≡ ok (xs, rest)
unfolding read_slice
read_slice-append n xs rest h = rw h (read_bytes-append CatalogueError.unexpected_eof xs rest)

read_uint-append :
    (w v : ℕ) (rest : List ℕ) → v < 256 ^ w → read_uint w (le_bytes w v ++ rest) ≡ ok (v, rest)
unfolding read_uint
read_uint-append w v rest h = read_le-append CatalogueError.unexpected_eof w v rest h

-- The values fit the widths of the source's fields.
pub record FitsFingerprint (f : FileFingerprint) : Type 0 where
  pub digest_len : 32 ≡ length f.digest
  pub size_fits : f.size < 256 ^ 8
  pub secs_fits : f.mtime_secs < 256 ^ 8
  pub nanos_fits : f.mtime_nanos < 256 ^ 4

read_fingerprint-append :
    (f : FileFingerprint) (rest : List ℕ)
    → FitsFingerprint f
    → read_fingerprint (write_fingerprint f ++ rest) ≡ ok (f, rest)
unfolding read_fingerprint write_fingerprint
read_fingerprint-append f rest h =
    let nanos = le_bytes 4 f.mtime_nanos in
    let secs = le_bytes 8 f.mtime_secs in
    let size = le_bytes 8 f.size in
    rw
      (
        append_assoc f.digest (size ++ (secs ++ nanos)) rest,
        append_assoc size (secs ++ nanos) rest,
        append_assoc secs nanos rest,
        read_slice-append 32 f.digest (size ++ (secs ++ (nanos ++ rest))) h.digest_len,
        read_uint-append 8 f.size (secs ++ (nanos ++ rest)) h.size_fits,
        read_uint-append 8 f.mtime_secs (nanos ++ rest) h.secs_fits,
        read_uint-append 4 f.mtime_nanos rest h.nanos_fits,
      )
      refl

module _ (S : System) where
  open S use {
    path_le, to_string_lossy, is_utf8, xxh64, path_le_refl, to_string_lossy_utf8, xxh64_bound,
  }

  -- Text whose length fits a u16.
  abbrev pub ShortText : List ℕ → Type 0
  ShortText name = (length name < 256 ^ 2) × (is_utf8 name ≡ true)

  abbrev pub FitsEntry : List ℕ × CatalogueEntry → Type 0
  FitsEntry e =
      ShortText e.0 × FitsFingerprint e.1.fingerprint × (e.1.observed_generation < 256 ^ 8)

  abbrev pub FitsConsumer : List ℕ × ℕ → Type 0
  FitsConsumer c = ShortText c.0 × (c.1 < 256 ^ 8)

  read_name-append :
      (name rest : List ℕ)
      → ShortText name
      → read_name S (write_name name ++ rest) ≡ ok (name, rest)
  unfolding read_name write_name
  read_name-append name rest (short, text) =
      rw
        (
          append_assoc (le_bytes 2 (length name)) name rest,
          read_uint-append 2 (length name) (name ++ rest) short,
          read_slice-append (length name) name rest refl,
          text,
        )
        refl

  read_entry-append :
      (e : List ℕ × CatalogueEntry) (rest : List ℕ)
      → FitsEntry e
      → read_entry S (write_entry S e ++ rest) ≡ ok (e, rest)
  unfolding read_entry write_entry
  read_entry-append (path, entry) rest (text, print, seen) =
      let name = write_name path in
      let fields = write_fingerprint entry.fingerprint in
      let last = le_bytes 8 entry.observed_generation in
      rw
        (
          to_string_lossy_utf8 path text.1,
          append_assoc name (fields ++ last) rest,
          append_assoc fields last rest,
          read_name-append path (fields ++ (last ++ rest)) text,
          read_fingerprint-append entry.fingerprint (last ++ rest) print,
          read_uint-append 8 entry.observed_generation rest seen,
        )
        refl

  read_consumer-append :
      (c : List ℕ × ℕ) (rest : List ℕ)
      → FitsConsumer c
      → read_consumer S (write_consumer c ++ rest) ≡ ok (c, rest)
  unfolding read_consumer write_consumer
  read_consumer-append (name, applied) rest (text, h) =
      rw
        (
          append_assoc (write_name name) (le_bytes 8 applied) rest,
          read_name-append name (le_bytes 8 applied ++ rest) text,
          read_uint-append 8 applied rest h,
        )
        refl

  pub record Fits (generation : ℕ) (entries : Entries) (consumers : Consumers) : Type 0 where
    pub generation_fits : generation < 256 ^ 8
    pub entry_count : length entries < 256 ^ 4
    pub entries_fit : All FitsEntry entries
    pub consumer_count : length consumers < 256 ^ 4
    pub consumers_fit : All FitsConsumer consumers

  abbrev sorted : ℕ → Entries → Consumers → DecodedCatalogue
  sorted g entries consumers = record {
    generation = g;
    entries = sort_entries path_le entries;
    consumers = sort_entries le_key consumers;
  }

  read_payload-payload :
      (g : ℕ) (entries : Entries) (consumers : Consumers)
      → Fits g entries consumers
      → read_payload S g (payload S entries consumers) ≡ ok (sorted g entries consumers)
  unfolding read_payload payload
  read_payload-payload g entries consumers fits =
      let es = sort_entries path_le entries in
      let cs = sort_entries le_key consumers in
      let names = write_each write_consumer cs in
      let e_len : length entries ≡ length es = omega (arith, length-sort_entries path_le entries) in
      let c_len : length consumers ≡ length cs =
        omega (arith, length-sort_entries le_key consumers) in
      let last : read_times (read_consumer S) (length cs) names ≡ ok (cs, []) =
        subst (λ x. read_times (read_consumer S) (length cs) x ≡ ok (cs, [])) (append-nil names)
          (read_times-write_each FitsConsumer (read_consumer S) write_consumer cs []
            read_consumer-append
            (sort_entries-All le_key FitsConsumer consumers fits.consumers_fit)) in
      rw
        (
          read_uint-append 4 (length entries)
              (write_each (write_entry S) es ++ (le_bytes 4 (length consumers) ++ names))
              fits.entry_count,
          e_len,
          read_times-write_each FitsEntry (read_entry S) (write_entry S) es
              (le_bytes 4 (length consumers) ++ names) read_entry-append
              (sort_entries-All path_le FitsEntry entries fits.entries_fit),
          read_uint-append 4 (length consumers) names fits.consumer_count,
          c_len,
          last,
        )
        refl

  read_catalogue-sorted :
      (g : ℕ) (entries : Entries) (consumers : Consumers)
      → Fits g entries consumers
      → read_catalogue S (write_catalogue S g entries consumers) ≡ ok (sorted g entries consumers)
  unfolding read_catalogue read_versioned read_checked write_catalogue
  read_catalogue-sorted g entries consumers fits =
      let body = payload S entries consumers in
      let sum = le_bytes 8 (xxh64 body 0) in
      let equal : (xxh64 body 0 == xxh64 body 0) ≡ true = ground arith in
      rw
        (
          read_slice-append 8 magic (le_bytes 4 version ++ (le_bytes 8 g ++ (sum ++ body))) refl,
          eq_chars_refl magic,
          read_uint-append 4 version (le_bytes 8 g ++ (sum ++ body)) (omega arith),
          read_uint-append 8 g (sum ++ body) fits.generation_fits,
          read_uint-append 8 (xxh64 body 0) body (xxh64_bound body 0),
          equal,
        )
        (read_payload-payload g entries consumers fits)

  -- Where every field fits its width, every name is text that fits a u16 length, `read_catalogue`
  -- returns, for what `write_catalogue` wrote, a catalogue of the same generation in which every
  -- path has the entry it had and every consumer the generation it had.
  pub read_catalogue-write_catalogue :
      (g : ℕ) (entries : Entries) (consumers : Consumers) (key : List ℕ)
      → Fits g entries consumers
      → (decoded : DecodedCatalogue) × (read_catalogue S (write_catalogue S g entries consumers)
          ≡ ok decoded)
        × (decoded.generation ≡ g)
        × (find_key key decoded.entries ≡ find_key key entries)
        × (find_key key decoded.consumers ≡ find_key key consumers)
  read_catalogue-write_catalogue g entries consumers key fits = (
    sorted g entries consumers,
    read_catalogue-sorted g entries consumers fits,
    refl,
    find_key-sort_entries path_le path_le_refl key entries,
    find_key-sort_entries le_key le_key_refl key consumers,
  )
