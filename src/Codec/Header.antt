-- ===== src/Codec/Header.antt =====
-- src/index/paths_idx.rs and deletes_idx.rs: the header that both sidecars have, magic number,
-- version and checksum of the body.
use syntext.Prelude.{
  ℕ, ◌+◌, ◌≡◌, refl, true, false, not, List, [], ◌++◌, append_assoc, ltb, ◌==◌, if◌then◌else◌,
  length, length-append, drop, drop-append, slice, arith,
}
use syntext.Prelude.{sym, ◌∙◌, ◌-◌}
use syntext.Prelude.Text.{eq_chars, eq_chars_refl}
use syntext.Codec.Le.{le_bytes, from_le, length-le_bytes, from_le-le_bytes}
use syntext.Codec.Reader.{Result, ok, err, take_all, drop_all}
use syntext.Codec.Roaring.{Format}

-- The variants of `SidecarError`; those of the two files are put together. A bitmap's message is
-- left out.
pub data SidecarError : Type 0 where
  io too_short bad_magic checksum_mismatch truncated bad_filename bitmap : SidecarError
  too_large unsupported_version : ℕ → SidecarError

abbrev pub format_version : ℕ
format_version = 1

abbrev pub header_len : ℕ
header_len = 4 + 4 + 8

module _ (F : Format) where
  open F use {xxh64, xxh64_bound}

  -- What `decode` does before the body is read.
  unfoldable pub open_body : List ℕ → List ℕ → Result SidecarError (List ℕ)
  open_body magic bytes =
      let version = from_le (slice bytes 4 8) in
      let checksum = from_le (slice bytes 8 16) in
      let body = drop header_len bytes in
      if ltb (length bytes) header_len
      then err too_short
      else if not (eq_chars (slice bytes 0 4) magic)
      then err bad_magic
      else if not (version == format_version)
      then err (unsupported_version version)
      else if not (xxh64 body 0 == checksum)
      then err checksum_mismatch
      else ok body

  unfoldable pub with_header : List ℕ → List ℕ → List ℕ
  with_header magic body =
      magic ++ (le_bytes 4 format_version ++ (le_bytes 8 (xxh64 body 0) ++ body))

  -- A part of the file, between what stands before it and after it.
  part :
      (a m c : List ℕ) (s e : ℕ)
      → s ≡ length a
      → e ≡ length a + length m
      → slice (a ++ (m ++ c)) s e ≡ m
  part a m c s e hs he =
      let es : s ≡ length a + 0 = omega arith in
      let n : e - s ≡ length m = omega arith in
      let d : drop s (a ++ (m ++ c)) ≡ m ++ c = rw es (drop-append a (m ++ c) 0) in
      rw (d, n) (take_all m c)

  pub open_body-with_header :
      (magic body : List ℕ) → length magic ≡ 4 → open_body magic (with_header magic body) ≡ ok body
  unfolding open_body with_header
  open_body-with_header magic body four =
      let version = le_bytes 4 format_version in
      let sum = le_bytes 8 (xxh64 body 0) in
      let whole = magic ++ (version ++ (sum ++ body)) in
      let v_len : length version ≡ 4 = length-le_bytes 4 format_version in
      let s_len : length sum ≡ 8 = length-le_bytes 8 (xxh64 body 0) in
      let long : ltb (length whole) header_len ≡ false = ground (
        arith,
        length-append magic (version ++ (sum ++ body)),
        length-append version (sum ++ body),
        length-append sum body,
      ) in
      let m : slice whole 0 4 ≡ magic =
        part [] magic (version ++ (sum ++ body)) 0 4 refl (omega arith) in
      let v : slice whole 4 8 ≡ version =
        part magic version (sum ++ body) 4 8 (omega arith) (omega arith) in
      let both : magic ++ (version ++ (sum ++ body)) ≡ (magic ++ version) ++ (sum ++ body) =
        sym (append_assoc magic version (sum ++ body)) in
      let c : slice whole 8 16 ≡ sum = rw both (
        part (magic ++ version) sum body 8 16 (omega (arith, length-append magic version))
          (omega (arith, length-append magic version))) in
      let three : whole ≡ ((magic ++ version) ++ sum) ++ body =
        both ∙ sym (append_assoc (magic ++ version) sum body) in
      let all_len : length ((magic ++ version) ++ sum) ≡ header_len =
        omega (arith, length-append (magic ++ version) sum, length-append magic version) in
      let b : drop header_len whole ≡ body =
        rw (three, ← all_len) (drop_all ((magic ++ version) ++ sum) body) in
      let checked : (xxh64 body 0 == xxh64 body 0) ≡ true = ground arith in
      rw
        (
          long,
          m,
          eq_chars_refl magic,
          v,
          from_le-le_bytes 4 format_version (omega arith),
          c,
          from_le-le_bytes 8 (xxh64 body 0) (xxh64_bound body 0),
          b,
          checked,
        )
        refl
