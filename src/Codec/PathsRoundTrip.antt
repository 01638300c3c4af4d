-- ===== src/Codec/PathsRoundTrip.antt =====
-- `decode` of paths_idx.rs reads back what `encode` wrote.
use syntext.Prelude.{
  ℕ, zero, suc, ◌+◌, ◌^◌, ◌<◌, ◌≡◌, refl, some, List, [], ◌∷◌, ◌++◌, map, get_elem?, append-nil,
  append_assoc, length, All, arith,
}
use syntext.Codec.Le.{le_bytes}
use syntext.Codec.Reader.{ok, write_each, read_bytes-append, read_le-append, read_times-write_each}
use syntext.Codec.Roaring.{Format}
use syntext.Codec.Sorted.{
  le_key, le_key_refl, sort_entries, length-sort_entries, sort_entries-All, find_key,
  find_key-sort_entries,
}
use mathlib.Core.Option
use mathlib.Core.Path.{subst}
use syntext.Codec.Header.{SidecarError, open_body-with_header}
use syntext.Codec.PathsIdx.{
  magic, Table, PathIndex, numbered_paths, from_sidecar_parts, write_sized, write_entry,
  write_bitmap_table, encode_body, encode, read_u32, read_sized, read_entry, read_bitmap_table,
  decode_body, decode,
}

-- Each path stands with its position, counted from `n`.
numbered_paths-get_elem :
    (i n : ℕ) (paths : List (List ℕ))
    → get_elem? (numbered_paths n paths) i ≡ Option.map (λ path. (path, n + i)) (get_elem? paths i)
unfolding numbered_paths
numbered_paths-get_elem i n [] = refl
numbered_paths-get_elem zero n (p ∷ ps) = let e : n + 0 ≡ n = omega arith in rw e refl
numbered_paths-get_elem (suc i) n (p ∷ ps) =
    let next : n + 1 + i ≡ n + suc i = omega arith in
    subst
      (λ k.
        get_elem? (numbered_paths (n + 1) ps) i ≡ Option.map (λ path. (path, k)) (get_elem? ps i))
      next (numbered_paths-get_elem i (n + 1) ps)

numbered_from_zero :
    (i : ℕ) (paths : List (List ℕ))
    → get_elem? (numbered_paths 0 paths) i ≡ Option.map (λ path. (path, i)) (get_elem? paths i)
numbered_from_zero i paths =
    let e : 0 + i ≡ i = omega arith in rw e at (numbered_paths-get_elem i 0 paths)

module _ (F : Format) where
  open F use {Bitmap, serialize, deserialize, deserialize-serialize}

  abbrev pub Short : List ℕ → Type 0
  Short bytes = length bytes < 256 ^ 4

  abbrev pub ShortEntry : List ℕ × Bitmap → Type 0
  ShortEntry e = Short e.0 × Short (serialize e.1)

  -- Every length that is written fits a u32.
  pub record Fits (index : PathIndex F) : Type 0 where
    pub path_count : length index.paths < 256 ^ 4
    pub path_lens : All Short index.paths
    pub ext_count : length index.extension_to_files < 256 ^ 4
    pub ext_lens : All ShortEntry index.extension_to_files
    pub component_count : length index.component_to_files < 256 ^ 4
    pub component_lens : All ShortEntry index.component_to_files

  read_u32-append :
      (v : ℕ) (rest : List ℕ) → v < 256 ^ 4 → read_u32 F (le_bytes 4 v ++ rest) ≡ ok (v, rest)
  unfolding read_u32
  read_u32-append v rest h = read_le-append SidecarError.truncated 4 v rest h

  read_sized-append :
      (bytes rest : List ℕ)
      → Short bytes
      → read_sized F (write_sized F bytes ++ rest) ≡ ok (bytes, rest)
  unfolding read_sized write_sized
  read_sized-append bytes rest h =
      rw
        (
          append_assoc (le_bytes 4 (length bytes)) bytes rest,
          read_u32-append (length bytes) (bytes ++ rest) h,
          read_bytes-append SidecarError.truncated bytes rest,
        )
        refl

  read_entry-append :
      (e : List ℕ × Bitmap) (rest : List ℕ)
      → ShortEntry e
      → read_entry F (write_entry F e ++ rest) ≡ ok (e, rest)
  unfolding read_entry write_entry
  read_entry-append (key, b) rest (h, k) =
      rw
        (
          append_assoc (write_sized F key) (write_sized F (serialize b)) rest,
          read_sized-append key (write_sized F (serialize b) ++ rest) h,
          read_sized-append (serialize b) rest k,
          deserialize-serialize b,
        )
        refl

  read_table-append :
      (table : Table F) (rest : List ℕ)
      → length table < 256 ^ 4
      → All ShortEntry table
      → read_bitmap_table F (write_bitmap_table F table ++ rest)
        ≡ ok (sort_entries le_key table, rest)
  unfolding read_bitmap_table write_bitmap_table
  read_table-append table rest h k =
      let entries = sort_entries le_key table in
      let count : length entries < 256 ^ 4 = omega (arith, length-sort_entries le_key table) in
      rw
        (
          append_assoc (le_bytes 4 (length entries)) (write_each (write_entry F) entries) rest,
          read_u32-append (length entries) (write_each (write_entry F) entries ++ rest) count,
        )
        (read_times-write_each ShortEntry (read_entry F) (write_entry F) entries rest
          read_entry-append (sort_entries-All le_key ShortEntry table k))

  body-decoded :
      (index : PathIndex F)
      → Fits index
      → decode_body F (encode_body F index)
        ≡ ok (
            from_sidecar_parts F index.paths
              (sort_entries le_key index.extension_to_files)
              (sort_entries le_key index.component_to_files))
  unfolding decode_body encode_body
  body-decoded index fits =
      let exts = write_bitmap_table F index.extension_to_files in
      let comps = write_bitmap_table F index.component_to_files in
      let last : read_bitmap_table F comps ≡ ok (sort_entries le_key index.component_to_files, []) =
        subst (λ x. read_bitmap_table F x ≡ ok (sort_entries le_key index.component_to_files, []))
          (append-nil comps)
          (read_table-append index.component_to_files [] fits.component_count
            fits.component_lens) in
      rw
        (
          read_u32-append (length index.paths)
              (write_each (write_sized F) index.paths ++ (exts ++ comps)) fits.path_count,
          read_times-write_each Short (read_sized F) (write_sized F) index.paths (exts ++ comps)
              read_sized-append fits.path_lens,
          read_table-append index.extension_to_files comps fits.ext_count fits.ext_lens,
          last,
        )
        refl

  decode-encode :
      (index : PathIndex F)
      → Fits index
      → decode F (encode F index)
        ≡ ok (
            from_sidecar_parts F index.paths
              (sort_entries le_key index.extension_to_files)
              (sort_entries le_key index.component_to_files))
  unfolding decode encode
  decode-encode index fits =
      rw (open_body-with_header F magic (encode_body F index) refl) (body-decoded index fits)

  -- Where each length fits a u32, `decode` returns, for what `encode` wrote, a path index with the
  -- same paths in the same order, in which the file ids are the positions of the paths, counted from 0,
  -- both from path to id and from id to path, the next file id is the number of the paths, and every
  -- key of either table has the bitmap that it had.
  pub decode-encode-lookups :
      (index : PathIndex F) (key : List ℕ)
      → Fits index
      → (decoded : PathIndex F) × (decode F (encode F index) ≡ ok decoded)
        × (decoded.paths ≡ index.paths)
        × (decoded.file_id_to_path ≡ map some index.paths)
        × ((i : ℕ)
            → get_elem? decoded.path_to_file_id i
              ≡ Option.map (λ path. (path, i)) (get_elem? index.paths i))
        × (decoded.next_file_id ≡ length index.paths)
        × (find_key key decoded.extension_to_files ≡ find_key key index.extension_to_files)
        × (find_key key decoded.component_to_files ≡ find_key key index.component_to_files)
  unfolding from_sidecar_parts
  decode-encode-lookups index key fits = (
    from_sidecar_parts F index.paths (sort_entries le_key index.extension_to_files)
        (sort_entries le_key index.component_to_files),
    decode-encode index fits,
    refl,
    refl,
    λ i. numbered_from_zero i index.paths,
    omega (arith, fits.path_count),
    find_key-sort_entries le_key le_key_refl key index.extension_to_files,
    find_key-sort_entries le_key le_key_refl key index.component_to_files,
  )
