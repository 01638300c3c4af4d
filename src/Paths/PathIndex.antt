-- ===== src/Paths/PathIndex.antt =====
-- src/path/mod.rs: `PathIndex`. A path is a number, `text` its bytes, `le_path` the order of paths of
-- the standard library. A hash map is a function or the list of its entries, a hash set a list;
-- `Arc` shares what the model copies. Counts of u32 wrap.
use syntext.Prelude.{
  ℕ, zero, suc, ◌+◌, ◌%◌, ◌^◌, Bool, Option, none, some, List, [], ◌∷◌, ◌++◌, ◌==◌, if◌then◌else◌,
  length, get_elem?, contains,
}
use syntext.Prelude.Text.{eq_chars}
use syntext.Index.Bitmap.{RoaringBitmap}
use syntext.Index.Overlay.{dedup}
use syntext.Paths.Names.{ascii_lower, path_extension, path_components}

-- The maps from paths to file ids.
unfoldable pub lookup_id : ℕ → List (ℕ × ℕ) → Option ℕ
lookup_id p [] = none
lookup_id p ((q, id) ∷ m) = if q == p then some id else lookup_id p m

unfoldable pub insert_id : ℕ → ℕ → List (ℕ × ℕ) → List (ℕ × ℕ)
insert_id p id [] = (p, id) ∷ []
insert_id p id ((q, j) ∷ m) =
    let rest = insert_id p id m in if q == p then (p, id) ∷ m else (q, j) ∷ rest

unfoldable pub remove_id : ℕ → List (ℕ × ℕ) → List (ℕ × ℕ)
remove_id p [] = []
remove_id p ((q, j) ∷ m) = let rest = remove_id p m in if q == p then rest else (q, j) ∷ rest

-- `paths[id] = None`; there is none out of bounds, where the code panics.
unfoldable pub tombstone : ℕ → List (Option ℕ) → Option (List (Option ℕ))
tombstone id [] = none
tombstone zero (p ∷ ps) = some (none ∷ ps)
tombstone (suc id) (p ∷ ps) = elim (tombstone id ps) [ none ↦ none | some rest ↦ some (p ∷ rest) ]

unfoldable pub retain_paths : List ℕ → List ℕ → List ℕ
retain_paths removed [] = []
retain_paths removed (p ∷ ps) =
    let rest = retain_paths removed ps in if contains p removed then rest else p ∷ rest

abbrev pub extension_keys : Option (List ℕ) → List (List ℕ)
extension_keys none = []
extension_keys (some ext) = ext ∷ []

module _ (R : RoaringBitmap) where
  open R use {Bitmap, new, insert, remove, no_ids}

  abbrev pub KeyMap : Type 0
  KeyMap = List ℕ → Option Bitmap

  pub record PathIndex : Type 0 where
    pub paths : List ℕ
    pub path_to_file_id : List (ℕ × ℕ)
    pub file_id_to_path : List (Option ℕ)
    pub extension_to_files : KeyMap
    pub component_to_files : KeyMap
    pub next_file_id : ℕ

  abbrev pub or_new : Option Bitmap → Bitmap
  or_new none = new
  or_new (some b) = b

  -- `entry(key).or_default().insert(file_id)`.
  unfoldable pub insert_key : List ℕ → ℕ → KeyMap → KeyMap
  insert_key key file_id m k = if eq_chars key k then some (insert file_id (or_new (m k))) else m k

  unfoldable pub insert_keys : List (List ℕ) → ℕ → KeyMap → KeyMap
  insert_keys [] file_id m = m
  insert_keys (key ∷ keys) file_id m = insert_keys keys file_id (insert_key key file_id m)

  abbrev pub drop_without : ℕ → Option Bitmap → Option Bitmap
  drop_without file_id none = none
  drop_without file_id (some b) =
      let left = remove file_id b in if no_ids left then none else some left

  unfoldable pub remove_key : List ℕ → ℕ → KeyMap → KeyMap
  remove_key key file_id m k = if eq_chars key k then drop_without file_id (m k) else m k

  unfoldable pub remove_keys : List (List ℕ) → ℕ → KeyMap → KeyMap
  remove_keys [] file_id m = m
  remove_keys (key ∷ keys) file_id m = remove_keys keys file_id (remove_key key file_id m)

  abbrev pub no_paths : PathIndex
  no_paths = record {
    paths = [];
    path_to_file_id = [];
    file_id_to_path = [];
    extension_to_files = λ _. none;
    component_to_files = λ _. none;
    next_file_id = 0;
  }

  abbrev pub file_id : ℕ → PathIndex → Option ℕ
  file_id p idx = lookup_id p idx.path_to_file_id

  abbrev pub live_path_count : PathIndex → ℕ
  live_path_count idx = length idx.path_to_file_id

  abbrev pub or_none : Option (Option ℕ) → Option ℕ
  or_none none = none
  or_none (some o) = o

  abbrev pub path : ℕ → PathIndex → Option ℕ
  path id idx = or_none (get_elem? idx.file_id_to_path id)

  abbrev pub files_with_extension : List ℕ → PathIndex → Option Bitmap
  files_with_extension ext idx = idx.extension_to_files (ascii_lower ext)

  abbrev pub files_with_component : List ℕ → PathIndex → Option Bitmap
  files_with_component component idx = idx.component_to_files (ascii_lower component)

module _ (text : ℕ → List ℕ) where
  abbrev pub extensions : ℕ → List (List ℕ)
  extensions path = extension_keys (path_extension (text path))

  abbrev pub components : ℕ → List (List ℕ)
  components path = path_components (text path)

module _ (R : RoaringBitmap) (text : ℕ → List ℕ) where
  -- A round of a loop that adds a path: `insert_path_metadata` and the three maps.
  unfoldable pub add_path : ℕ → ℕ → PathIndex R → PathIndex R
  add_path file_id path idx = record {
    paths = idx.paths ++ (path ∷ []);
    path_to_file_id = insert_id path file_id idx.path_to_file_id;
    file_id_to_path = idx.file_id_to_path ++ (some path ∷ []);
    extension_to_files = insert_keys R (extensions text path) file_id idx.extension_to_files;
    component_to_files = insert_keys R (components text path) file_id idx.component_to_files;
    next_file_id = idx.next_file_id;
  }

  unfoldable pub build_from : ℕ → List ℕ → PathIndex R → PathIndex R
  build_from file_id [] idx = idx
  build_from file_id (path ∷ paths) idx =
      build_from (suc file_id) paths (add_path (file_id % 2 ^ 32) path idx)

  unfoldable pub build : List ℕ → PathIndex R
  build sorted_paths = record (build_from 0 sorted_paths (no_paths R)) {
    next_file_id = length sorted_paths % 2 ^ 32;
  }

  -- The removal of a path with this id: `remove_path_metadata` and the two maps.
  unfoldable pub remove_path : ℕ → ℕ → PathIndex R → Option (PathIndex R)
  remove_path file_id path idx = elim (tombstone file_id idx.file_id_to_path) [
    | none ↦ none
    | some cleared ↦ some (record idx {
      path_to_file_id = remove_id path idx.path_to_file_id;
      file_id_to_path = cleared;
      extension_to_files = remove_keys R (extensions text path) file_id idx.extension_to_files;
      component_to_files = remove_keys R (components text path) file_id idx.component_to_files;
    })
  ]

  unfoldable pub remove_paths : List ℕ → PathIndex R → Option (PathIndex R)
  remove_paths [] idx = some idx
  remove_paths (path ∷ paths) idx = elim (lookup_id path idx.path_to_file_id) [
    | none ↦ remove_paths paths idx
    | some file_id ↦ elim (remove_path file_id path idx) [
      | none ↦ none
      | some idx' ↦ remove_paths paths idx'
    ]
  ]

  unfoldable pub add_paths : List ℕ → PathIndex R → PathIndex R
  add_paths [] idx = idx
  add_paths (path ∷ paths) idx = elim (lookup_id path idx.path_to_file_id) [
    | none ↦ add_paths paths (record (add_path idx.next_file_id path idx) {
      next_file_id = (idx.next_file_id + 1) % 2 ^ 32;
    })
    | some file_id ↦ add_paths paths idx
  ]

module _ (le_path : ℕ → ℕ → Bool) where
  unfoldable pub insert_path : ℕ → List ℕ → List ℕ
  insert_path x [] = x ∷ []
  insert_path x (y ∷ ys) =
      let later = insert_path x ys in if le_path x y then x ∷ y ∷ ys else y ∷ later

  unfoldable pub sort_paths : List ℕ → List ℕ
  sort_paths [] = []
  sort_paths (x ∷ xs) = insert_path x (sort_paths xs)

module _ (R : RoaringBitmap) (text : ℕ → List ℕ) (le_path : ℕ → ℕ → Bool) where
  abbrev pub with_sorted_paths : PathIndex R → PathIndex R
  with_sorted_paths idx = record idx { paths = dedup (sort_paths le_path idx.paths) }

  abbrev pub added_to : List ℕ → Option (PathIndex R) → Option (PathIndex R)
  added_to added_paths none = none
  added_to added_paths (some idx) = some (with_sorted_paths (add_paths R text added_paths idx))

  unfoldable pub build_incremental : PathIndex R → List ℕ → List ℕ → Option (PathIndex R)
  build_incremental old removed_paths added_paths = added_to added_paths (
      remove_paths R text removed_paths
        (record old { paths = retain_paths removed_paths old.paths }))
