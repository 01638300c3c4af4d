-- ===== src/Tests/Paths.antt =====
-- Runs of the path index and its filter, and their theorems at concrete inputs.
use syntext.Prelude.{
  ℕ, ◌≡◌, refl, Bool, true, false, none, some, List, [], ◌∷◌, leb, ◌==◌, if◌then◌else◌, contains,
  arith,
}
use syntext.Tokenizer.Boundaries.{to_ascii_lowercase}
use syntext.Paths.Names.{path_extension, path_components}
use syntext.Paths.PathIndex.{
  PathIndex, lookup_id, insert_id, add_path, build_from, build, build_incremental, file_id,
}
use syntext.Paths.Added.{Valid, Stays}
use syntext.Paths.Stable.{build_incremental-Valid}
use syntext.Paths.Built.{build-Valid}
use syntext.Paths.Glob.{glob_matches_bytes, path_has_extension}
use syntext.Paths.GlobMeaning.{wild}
use syntext.Paths.GlobMatches.{glob_run, glob_matches_bytes-wild}
use syntext.Paths.GlobEnds.{glob_matches_bytes_total}
use syntext.Paths.Filter.{matches_path_filter, build_filter}
use syntext.Paths.FilterMatches.{allows, IsRight, build_filter-matches}
use syntext.Tests.Toy.{bytes}
use syntext.Tests.ToyBitmap.{toy_bitmap}

abbrev names : ℕ → List ℕ
names p =
    if p == 1 then bytes "src/lib.rs" else if p == 2 then bytes "docs/a.md" else bytes "src/new.py"

abbrev index : PathIndex toy_bitmap
index = build toy_bitmap names (1 ∷ 2 ∷ [])

extension_of_lib : path_extension (bytes "src/Lib.RS") ≡ some (bytes "rs")
unfolding path_extension to_ascii_lowercase
extension_of_lib = refl

components_of_lib : path_components (bytes "src//Lib.rs") ≡ bytes "src" ∷ bytes "lib.rs" ∷ []
unfolding path_components to_ascii_lowercase
components_of_lib = refl

id_of_second : file_id toy_bitmap 2 index ≡ some 1
unfolding build build_from add_path insert_id lookup_id
id_of_second = refl

Valid-index : Valid toy_bitmap names index
unfolding contains
Valid-index = (build-Valid toy_bitmap names (1 ∷ 2 ∷ []) (omega arith) (refl, (refl, tt))).0

build_incremental-Valid_example :
    (new : PathIndex toy_bitmap) × (build_incremental toy_bitmap names leb index (1 ∷ []) (3 ∷ [])
      ≡ some new)
    × Valid toy_bitmap names new
    × ((p : ℕ)
        → Stays toy_bitmap names index.next_file_id
            (contains p (3 ∷ []))
            (if contains p (1 ∷ []) then none else file_id toy_bitmap p index)
            (file_id toy_bitmap p new))
unfolding build contains
build_incremental-Valid_example =
    build_incremental-Valid toy_bitmap names leb index (1 ∷ []) (3 ∷ []) (omega arith) Valid-index

glob_matches_bytes-wild_example :
    (glob_run (bytes "maintain.rs") (bytes "m*in.r?") ≡ some true)
    × (glob_matches_bytes (bytes "maintain.rs") (bytes "m*in.r?") ≡ true)
unfolding wild contains
glob_matches_bytes-wild_example =
    glob_matches_bytes-wild (bytes "maintain.rs") (bytes "m*in.r?") refl

glob_matches_bytes_total_example : glob_run (bytes "*ab") (bytes "*") ≡ some false
unfolding glob_matches_bytes
glob_matches_bytes_total_example = glob_matches_bytes_total (bytes "*ab") (bytes "*")

-- A star in a name is taken for the star of the glob.
star_in_name : glob_matches_bytes (bytes "*ab") (bytes "*") ≡ false
unfolding glob_matches_bytes
star_in_name = refl

-- A name that ends in a dot has the empty extension for one path, and none in the index.
empty_extension : path_has_extension (bytes "src/odd.") [] ≡ true
unfolding path_has_extension
empty_extension = refl

no_key_for_empty_extension : path_extension (bytes "src/odd.") ≡ none
unfolding path_extension
no_key_for_empty_extension = refl

abbrev found_within : List ℕ → List ℕ → Bool
found_within text needle = false

build_filter-matches_example :
    (allows toy_bitmap 1
        (build_filter found_within toy_bitmap names index
          (bytes "md" ∷ [])
          (bytes "rs" ∷ [])
          (some (bytes "docs/*"))
          none).0
      ≡ matches_path_filter found_within
          (bytes "docs/a.md")
          (bytes "md" ∷ [])
          (bytes "rs" ∷ [])
          (some (bytes "docs/*")))
    × IsRight found_within toy_bitmap names 1 2
        (build_filter found_within toy_bitmap names index
          (bytes "md" ∷ [])
          (bytes "rs" ∷ [])
          (some (bytes "docs/*"))
          none).1
unfolding build build_from add_path
build_filter-matches_example =
    build_filter-matches found_within toy_bitmap names index (Valid.consistent Valid-index)
      (omega arith) 1 2 refl (bytes "md" ∷ []) (bytes "rs" ∷ []) (some (bytes "docs/*")) none
      (refl, tt) (refl, tt) tt
