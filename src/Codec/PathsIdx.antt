-- ===== src/Codec/PathsIdx.antt =====
-- src/index/paths_idx.rs: the sidecar that caches the path index, and the parts of
-- src/path/mod.rs that it stores. A path is its bytes; a hash map is the list of its entries, and
-- where a key stands twice the last entry counts. Reading and writing the file is I/O.
use syntext.Prelude.{
  ℕ, ◌+◌, ◌*◌, ◌%◌, ◌^◌, Option, none, some, List, [], ◌∷◌, ◌++◌, map, ltb, if◌then◌else◌, is_empty,
  length,
}
use syntext.Prelude.Text.{chars}
use syntext.Codec.Le.{le_bytes}
use syntext.Codec.Reader.{
  Result, ok, err, ◌>>=◌, Reader, read_bytes, read_le, read_times, write_each,
}
use syntext.Codec.Roaring.{Format}
use syntext.Codec.Sorted.{le_key, sort_entries}
use syntext.Codec.Header.{SidecarError, open_body, with_header}

abbrev pub magic : List ℕ
magic = chars "STPI"

abbrev pub max_sidecar_size : ℕ
max_sidecar_size = 8 * 1024 * 1024 * 1024

-- File ids from `n` on.
unfoldable pub numbered_paths : ℕ → List (List ℕ) → List (List ℕ × ℕ)
numbered_paths n [] = []
numbered_paths n (p ∷ ps) = (p, n) ∷ numbered_paths (n + 1) ps

module _ (F : Format) where
  open F use {Bitmap, serialize, deserialize}

  abbrev pub Table : Type 0
  Table = List (List ℕ × Bitmap)

  pub record PathIndex : Type 0 where
    pub paths : List (List ℕ)
    pub path_to_file_id : List (List ℕ × ℕ)
    pub file_id_to_path : List (Option (List ℕ))
    pub extension_to_files : Table
    pub component_to_files : Table
    pub next_file_id : ℕ

  unfoldable pub from_sidecar_parts : List (List ℕ) → Table → Table → PathIndex
  from_sidecar_parts paths extensions components = record {
    paths = paths;
    path_to_file_id = numbered_paths 0 paths;
    file_id_to_path = map some paths;
    extension_to_files = extensions;
    component_to_files = components;
    next_file_id = length paths % 2 ^ 32;
  }

  -- A `len as u32` and the bytes.
  unfoldable pub write_sized : List ℕ → List ℕ
  write_sized bytes = le_bytes 4 (length bytes) ++ bytes

  unfoldable pub write_entry : List ℕ × Bitmap → List ℕ
  write_entry (key, bitmap) = write_sized key ++ write_sized (serialize bitmap)

  unfoldable pub write_bitmap_table : Table → List ℕ
  write_bitmap_table table =
      let entries = sort_entries le_key table in
      le_bytes 4 (length entries) ++ write_each write_entry entries

  unfoldable pub encode_body : PathIndex → List ℕ
  encode_body index =
      le_bytes 4 (length index.paths)
      ++ (write_each write_sized index.paths
          ++ (write_bitmap_table index.extension_to_files
              ++ write_bitmap_table index.component_to_files))

  unfoldable pub encode : PathIndex → List ℕ
  encode index = with_header F magic (encode_body index)

  unfoldable pub read_u32 : Reader SidecarError ℕ
  read_u32 = read_le SidecarError.truncated 4

  -- A length and as many bytes.
  unfoldable pub read_sized : Reader SidecarError (List ℕ)
  read_sized rest = read_u32 rest >>= λ p. read_bytes SidecarError.truncated p.0 p.1

  abbrev pub deserialized : Option Bitmap → Result SidecarError Bitmap
  deserialized none = err SidecarError.bitmap
  deserialized (some b) = ok b

  unfoldable pub read_entry : Reader SidecarError (List ℕ × Bitmap)
  read_entry rest = read_sized rest >>= λ p.
      read_sized p.1 >>= λ q. deserialized (deserialize q.0) >>= λ b. ok ((p.0, b), q.1)

  unfoldable pub read_bitmap_table : Reader SidecarError Table
  read_bitmap_table rest = read_u32 rest >>= λ p. read_times read_entry p.0 p.1

  unfoldable pub decode_body : List ℕ → Result SidecarError PathIndex
  decode_body body = read_u32 body >>= λ count. read_times read_sized count.0 count.1 >>= λ paths.
      read_bitmap_table paths.1 >>= λ extensions. read_bitmap_table extensions.1 >>= λ components.
      if is_empty components.1
      then ok (from_sidecar_parts paths.0 extensions.0 components.0)
      else err SidecarError.truncated

  unfoldable pub decode : List ℕ → Result SidecarError PathIndex
  decode bytes = open_body F magic bytes >>= decode_body

  abbrev pub read_contents : Option (List ℕ) → Result SidecarError PathIndex
  read_contents none = err SidecarError.io
  read_contents (some bytes) = decode bytes

  -- The file's size and contents, where the system gives them.
  unfoldable pub read_paths_idx : Option ℕ → Option (List ℕ) → Result SidecarError PathIndex
  read_paths_idx none contents = err SidecarError.io
  read_paths_idx (some size) contents =
      if ltb max_sidecar_size size
      then err (SidecarError.too_large size)
      else read_contents contents
