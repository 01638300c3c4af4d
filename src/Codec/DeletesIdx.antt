-- ===== src/Codec/DeletesIdx.antt =====
-- src/index/deletes_idx.rs: the sidecar that keeps the documents the snapshot hides. Its header is
-- that of paths.idx with its own magic number. The random file name, and reading and writing the
-- file, are I/O.
use syntext.Prelude.{
  ℕ, ◌*◌, Bool, false, not, ◌&&◌, ◌||◌, Option, none, some, List, [], ◌∷◌, ltb, ◌==◌, if◌then◌else◌,
  is_empty, contains,
}
use syntext.Prelude.Text.{chars}
use syntext.Codec.Reader.{Result, ok, err, ◌>>=◌}
use syntext.Codec.Roaring.{Format}
use syntext.Codec.Header.{SidecarError, open_body, with_header}

abbrev pub magic : List ℕ
magic = chars "STDL"

abbrev pub max_sidecar_size : ℕ
max_sidecar_size = 1024 * 1024 * 1024

-- `name.contains("..")`
unfoldable pub has_dot_dot : List ℕ → Bool
has_dot_dot [] = false
has_dot_dot (c ∷ []) = false
has_dot_dot (c ∷ d ∷ cs) = c == 46 && d == 46 || has_dot_dot (d ∷ cs)

-- `is_absolute` of the standard library is a parameter: it depends on the platform.
unfoldable pub is_plain_filename : (List ℕ → Bool) → List ℕ → Bool
is_plain_filename is_absolute name =
    not (is_empty name)
    && not (contains 47 name)
    && not (contains 92 name)
    && not (has_dot_dot name)
    && not (is_absolute name)

module _ (F : Format) where
  open F use {Bitmap, serialize, deserialize}

  abbrev pub deserialized : Option Bitmap → Result SidecarError Bitmap
  deserialized none = err SidecarError.bitmap
  deserialized (some b) = ok b

  unfoldable pub decode : List ℕ → Result SidecarError Bitmap
  decode bytes = open_body F magic bytes >>= λ body. deserialized (deserialize body)

  unfoldable pub encode : Bitmap → List ℕ
  encode b = with_header F magic (serialize b)

  abbrev pub read_contents : Option (List ℕ) → Result SidecarError Bitmap
  read_contents none = err SidecarError.io
  read_contents (some bytes) = decode bytes

  abbrev pub read_sized_file : Option ℕ → Option (List ℕ) → Result SidecarError Bitmap
  read_sized_file none contents = err SidecarError.io
  read_sized_file (some size) contents =
      if ltb max_sidecar_size size
      then err (SidecarError.too_large size)
      else read_contents contents

  -- The size and the contents of the file of that name, where the system gives them.
  unfoldable pub read_deletes_idx :
      (List ℕ → Bool) → List ℕ → Option ℕ → Option (List ℕ) → Result SidecarError Bitmap
  read_deletes_idx is_absolute name size contents =
      if not (is_plain_filename is_absolute name)
      then err SidecarError.bad_filename
      else read_sized_file size contents

  -- The bytes that are written to a new file, which is then renamed to `name`.
  unfoldable pub write_deletes_idx : (List ℕ → Bool) → List ℕ → Bitmap → Option (List ℕ)
  write_deletes_idx is_absolute name b =
      if not (is_plain_filename is_absolute name) then none else some (encode b)
