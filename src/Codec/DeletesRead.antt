-- ===== src/Codec/DeletesRead.antt =====
-- What reading the deletes sidecar of deletes_idx.rs gives.
use syntext.Prelude.{
  ℕ, ◌≤◌, ◌≡◌, refl, ap, Bool, true, false, inl, inr, Option, none, some, List, ltb, All,
  Bool-cases, arith,
}
use syntext.Codec.Reader.{ok, err, Result-cases, ok-injective}
use syntext.Codec.Roaring.{Format}
use syntext.Codec.Header.{SidecarError, open_body, with_header, open_body-with_header}
use syntext.Codec.Accepted.{Byte, open_body-accepts}
use syntext.Codec.DeletesIdx.{
  magic, max_sidecar_size, is_plain_filename, deserialized, decode, encode, read_sized_file,
  read_deletes_idx, write_deletes_idx,
}

module _ (F : Format) where
  open F use {Bitmap, serialize, deserialize, deserialize-serialize}

  decode-encode : (b : Bitmap) → decode F (encode F b) ≡ ok b
  unfolding decode encode
  decode-encode b =
      rw (open_body-with_header F magic (serialize b) refl, deserialize-serialize b) refl

  -- What `write_deletes_idx` writes under a plain name is read back as the same bitmap, where the
  -- file is not over the size cap.
  pub read_deletes_idx-write_deletes_idx :
      (is_absolute : List ℕ → Bool) (name : List ℕ) (b : Bitmap) (size : ℕ)
      → is_plain_filename is_absolute name ≡ true
      → size ≤ max_sidecar_size
      → read_deletes_idx F is_absolute name (some size) (write_deletes_idx F is_absolute name b)
        ≡ ok b
  unfolding read_deletes_idx write_deletes_idx
  read_deletes_idx-write_deletes_idx is_absolute name b size plain h =
      let small : ltb max_sidecar_size size ≡ false = ground arith in
      rw (plain, small) (decode-encode b)

  deserialized-ok : (o : Option Bitmap) (b : Bitmap) → deserialized F o ≡ ok b → o ≡ some b
  deserialized-ok none b h = ground arith
  deserialized-ok (some a) b h = ap some (ok-injective a b h)

  decode-ok :
      (bytes : List ℕ) (b : Bitmap)
      → decode F bytes ≡ ok b
      → (body : List ℕ) × (open_body F magic bytes ≡ ok body) × (deserialize body ≡ some b)
  unfolding decode
  decode-ok bytes b h = elim (Result-cases (open_body F magic bytes)) [
    | inl (e, bad) ↦ let stop : err e ≡ ok b = rw bad at h in ground arith
    | inr (body, good) ↦
        let value : deserialized F (deserialize body) ≡ ok b = rw good at h in
        (body, good, deserialized-ok (deserialize body) b value)
  ]

  -- The file that `read_sized_file` takes.
  sized-ok :
      (size : Option ℕ) (bytes : List ℕ) (b : Bitmap)
      → read_sized_file F size (some bytes) ≡ ok b
      → (n : ℕ) × (size ≡ some n) × (n ≤ max_sidecar_size) × (decode F bytes ≡ ok b)
  sized-ok none bytes b h = ground arith
  sized-ok (some n) bytes b h = elim (Bool-cases (ltb max_sidecar_size n)) [
    | inl large ↦ let stop : err (SidecarError.too_large n) ≡ ok b = rw large at h in ground arith
    | inr small ↦
        let value : decode F bytes ≡ ok b = rw small at h in (n, refl, ground arith, value)
  ]

  -- Where `read_deletes_idx` returns a bitmap, the name is plain, the file's size was known and not
  -- over the cap, and the file's bytes are the magic number, version 1, the checksum of the rest
  -- and a rest that deserializes to that bitmap.
  pub read_deletes_idx-accepts :
      (is_absolute : List ℕ → Bool) (name : List ℕ) (size : Option ℕ) (bytes : List ℕ) (b : Bitmap)
      → All Byte bytes
      → read_deletes_idx F is_absolute name size (some bytes) ≡ ok b
      → (is_plain_filename is_absolute name ≡ true)
        × ((n : ℕ) × (size ≡ some n) × (n ≤ max_sidecar_size))
        × ((body : List ℕ) × (bytes ≡ with_header F magic body) × (deserialize body ≡ some b))
  unfolding read_deletes_idx
  read_deletes_idx-accepts is_absolute name size bytes b bs h =
      elim (Bool-cases (is_plain_filename is_absolute name)) [
        | inr other ↦
            let stop : err SidecarError.bad_filename ≡ ok b = rw other at h in ground arith
        | inl plain ↦
            let value : read_sized_file F size (some bytes) ≡ ok b = rw plain at h in
            let (n, known, small, opened) = sized-ok size bytes b value in
            let (body, whole, bitmap) = decode-ok bytes b opened in
            (
              plain,
              (n, known, small),
              (body, open_body-accepts F magic bytes body bs whole, bitmap),
            )
      ]
