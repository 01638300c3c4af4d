-- ===== src/Paths/Filter.antt =====
-- src/path/filter.rs: `build_filter` over the path index, and `matches_path_filter` on one path. The
-- cache of globs is a function, where there is one.
use syntext.Prelude.{
  ℕ, suc, ◌%◌, ◌^◌, Bool, true, false, not, ◌&&◌, ◌||◌, Option, none, some, List, [], ◌∷◌,
  if◌then◌else◌, is_empty,
}
use syntext.Prelude.Text.{eq_chars}
use syntext.Index.Bitmap.{RoaringBitmap}
use syntext.Paths.PathIndex.{PathIndex, files_with_extension}
use syntext.Paths.Glob.{path_has_extension, path_matches_glob}

unfoldable pub any_extension : List (List ℕ) → List ℕ → Bool
unfolding path_has_extension
any_extension [] path = false
any_extension (ext ∷ types) path = path_has_extension path ext || any_extension types path

-- `find` is memmem's of the crate memchr.
module _ (find : List ℕ → List ℕ → Bool) where
  abbrev pub glob_allows : Option (List ℕ) → List ℕ → Bool
  glob_allows none path = true
  glob_allows (some glob) path = path_matches_glob find path glob

  unfoldable pub matches_path_filter :
      List ℕ → List (List ℕ) → List (List ℕ) → Option (List ℕ) → Bool
  unfolding any_extension path_matches_glob
  matches_path_filter path file_types exclude_types path_glob =
      if not (is_empty file_types) && not (any_extension file_types path)
      then false
      else if any_extension exclude_types path
      then false
      else glob_allows path_glob path

  module _ (R : RoaringBitmap) (text : ℕ → List ℕ) where
    open R use {Bitmap, new, insert, union, intersect, subtract}

    abbrev pub union_found : Bitmap → Option Bitmap → Bitmap
    union_found b none = b
    union_found b (some found) = union b found

    unfoldable pub include_types : PathIndex R → List (List ℕ) → Bitmap → Bitmap
    include_types idx [] b = b
    include_types idx (ext ∷ types) b =
        include_types idx types (union_found b (files_with_extension R ext idx))

    abbrev pub subtract_found : Bitmap → Option Bitmap → Bitmap
    subtract_found b none = b
    subtract_found b (some found) = subtract b found

    unfoldable pub remove_types : PathIndex R → List (List ℕ) → Bitmap → Bitmap
    remove_types idx [] b = b
    remove_types idx (ext ∷ types) b =
        remove_types idx types (subtract_found b (files_with_extension R ext idx))

    -- The visible paths from file id `i` on that pass the test.
    unfoldable pub insert_visible : (List ℕ → Bool) → ℕ → List (Option ℕ) → Bitmap → Bitmap
    insert_visible test i [] b = b
    insert_visible test i (none ∷ files) b = insert_visible test (suc i) files b
    insert_visible test i (some p ∷ files) b =
        insert_visible test (suc i) files (if test (text p) then insert (i % 2 ^ 32) b else b)

    abbrev pub files_matching : PathIndex R → List ℕ → Bitmap
    files_matching idx glob =
        insert_visible (λ path. path_matches_glob find path glob) 0 idx.file_id_to_path new

    abbrev pub all_files : PathIndex R → Bitmap
    all_files idx = insert_visible (λ path. true) 0 idx.file_id_to_path new

    abbrev pub Cache : Type 0
    Cache = Option (List ℕ → Option Bitmap)

    abbrev pub put : List ℕ → Bitmap → (List ℕ → Option Bitmap) → List ℕ → Option Bitmap
    put glob b cached key = if eq_chars glob key then some b else cached key

    abbrev pub cached_or :
        PathIndex R → List ℕ → (List ℕ → Option Bitmap) → Option Bitmap → Bitmap × Cache
    cached_or idx glob cached (some b) = (b, some cached)
    cached_or idx glob cached none =
        let b = files_matching idx glob in (b, some (put glob b cached))

    unfoldable pub glob_bitmap : PathIndex R → List ℕ → Cache → Bitmap × Cache
    unfolding insert_visible path_matches_glob eq_chars
    glob_bitmap idx glob none = (files_matching idx glob, none)
    glob_bitmap idx glob (some cached) = cached_or idx glob cached (cached glob)

    abbrev pub narrow : Option Bitmap → Bitmap → Bitmap
    narrow none b = b
    narrow (some r) b = intersect r b

    abbrev pub with_types : PathIndex R → List (List ℕ) → Option Bitmap
    with_types idx types = if is_empty types then none else some (include_types idx types new)

    abbrev pub with_glob :
        PathIndex R → Option (List ℕ) → Cache → Option Bitmap → Option Bitmap × Cache
    with_glob idx none cache r = (r, cache)
    with_glob idx (some glob) cache r =
        let (b, cache') = glob_bitmap idx glob cache in (some (narrow r b), cache')

    abbrev pub or_all : PathIndex R → Option Bitmap → Bitmap
    or_all idx none = all_files idx
    or_all idx (some r) = r

    abbrev pub without_types : PathIndex R → List (List ℕ) → Option Bitmap → Option Bitmap
    without_types idx types r =
        if is_empty types then r else some (remove_types idx types (or_all idx r))

    -- `none` is that all files are candidates.
    unfoldable pub build_filter :
        PathIndex R
        → List (List ℕ)
        → List (List ℕ)
        → Option (List ℕ)
        → Cache
        → Option Bitmap × Cache
    unfolding include_types remove_types glob_bitmap insert_visible
    build_filter idx file_types exclude_types path_glob cache =
        let (r, cache') = with_glob idx path_glob cache (with_types idx file_types) in
        (without_types idx exclude_types r, cache')
