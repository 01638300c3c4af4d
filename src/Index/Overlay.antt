-- ===== src/Index/Overlay.antt =====
-- src/index/overlay: the in-memory index of the dirty files. Paths are only compared, so a path is a
-- number that stands for it; a hash map is a function, a hash set a list. `Arc` shares what the
-- model copies.
pub mod OrderedIds
pub mod Postings
pub mod ById
pub mod Outcomes
pub mod Invariant
pub mod Reach
pub mod Contents
pub mod Room
use syntext.Prelude.{
  ℕ, suc, ◌+◌, ◌-◌, ◌^◌, Bool, true, false, ◌||◌, Option, none, some, List, [], ◌∷◌, ◌++◌, ltb, leb,
  ◌==◌, if◌then◌else◌, length, get_elem?, is_empty, contains,
}
use syntext.Tokenizer.Boundaries.{Tables}
use syntext.Tokenizer.Grams.{build_all}

pub record OverlayDoc : Type 0 where
  pub doc_id : ℕ
  pub path : ℕ
  pub content : List ℕ
  pub grams : List ℕ

pub record OverlayView : Type 0 where
  pub gram_index : ℕ → Option (List ℕ)
  pub docs : List OverlayDoc
  pub doc_id_map : ℕ → Option ℕ
  pub next_doc_id : ℕ
  pub base_doc_count : ℕ

abbrev pub empty : OverlayView
empty = record {
  gram_index = λ _. none;
  docs = [];
  doc_id_map = λ _. none;
  next_doc_id = 0;
  base_doc_count = 0;
}

-- `panics` is an index out of the bounds of `docs`.
pub data Lookup : Type 0 where
  missing panics : Lookup
  found : OverlayDoc → Lookup

abbrev pub indexed : Option OverlayDoc → Lookup
indexed none = panics
indexed (some d) = found d

abbrev pub doc_at : List OverlayDoc → Option ℕ → Lookup
doc_at docs none = missing
doc_at docs (some idx) = indexed (get_elem? docs idx)

unfoldable pub get_doc : ℕ → OverlayView → Lookup
get_doc global_id v = doc_at v.docs (v.doc_id_map global_id)

unfoldable pub find_path : ℕ → List OverlayDoc → Option OverlayDoc
find_path path [] = none
find_path path (d ∷ ds) = if d.path == path then some d else find_path path ds

abbrev pub get_doc_by_path : ℕ → OverlayView → Option OverlayDoc
get_doc_by_path path v = find_path path v.docs

-- The error carries the base's count and the number of documents that the overlay was to hold.
pub data Result {ℓ} (A : Type ℓ) : Type ℓ where
  ok : A → Result A
  doc_id_overflow : ℕ → ℕ → Result A

infixl 5 ◌>>=◌
abbrev pub ◌>>=◌ {ℓ κ} : {A : Type ℓ} {B : Type κ} → Result A → (A → Result B) → Result B
ok a >>= f = f a
doc_id_overflow b n >>= f = doc_id_overflow b n

-- The id, and the one after it: `checked_add(1)` of a u32.
unfoldable pub next_doc_id : ℕ → ℕ → ℕ → Result (ℕ × ℕ)
next_doc_id next_id base_doc_count overlay_docs =
    if ltb (next_id + 1) (2 ^ 32)
    then ok (next_id, next_id + 1)
    else doc_id_overflow base_doc_count overlay_docs

abbrev pub or_default : Option (List ℕ) → List ℕ
or_default none = []
or_default (some ids) = ids

abbrev pub GramIndex : Type 0
GramIndex = ℕ → Option (List ℕ)

-- `entry(gram_hash).or_default().push(doc_id)`.
unfoldable pub push_posting : ℕ → ℕ → GramIndex → GramIndex
push_posting gram_hash doc_id index g =
    if gram_hash == g then some (or_default (index g) ++ (doc_id ∷ [])) else index g

unfoldable pub push_postings : List ℕ → ℕ → GramIndex → GramIndex
push_postings [] doc_id index = index
push_postings (g ∷ gs) doc_id index = push_postings gs doc_id (push_posting g doc_id index)

-- `values_mut()`: a map of every list.
abbrev pub map_list : (List ℕ → List ℕ) → Option (List ℕ) → Option (List ℕ)
map_list f none = none
map_list f (some ids) = some (f ids)

unfoldable pub insert_id : ℕ → List ℕ → List ℕ
insert_id x [] = x ∷ []
insert_id x (y ∷ ys) = let later = insert_id x ys in if leb x y then x ∷ y ∷ ys else y ∷ later

unfoldable pub sort_unstable : List ℕ → List ℕ
sort_unstable [] = []
sort_unstable (x ∷ xs) = insert_id x (sort_unstable xs)

abbrev pub is_next : ℕ → List ℕ → Bool
is_next x [] = false
is_next x (y ∷ ys) = x == y

unfoldable pub dedup : List ℕ → List ℕ
dedup [] = []
dedup (x ∷ xs) = let rest = dedup xs in if is_next x xs then rest else x ∷ rest

abbrev pub sorted_ids : List ℕ → List ℕ
sorted_ids ids = dedup (sort_unstable ids)

-- `windows(2).any(|w| w[0] >= w[1])`, behind the id `x`.
unfoldable pub out_of_order_after : ℕ → List ℕ → Bool
out_of_order_after x [] = false
out_of_order_after x (y ∷ ys) = leb y x || out_of_order_after y ys

unfoldable pub out_of_order : List ℕ → Bool
out_of_order [] = false
out_of_order (x ∷ xs) = out_of_order_after x xs

abbrev pub sort_if_needed : List ℕ → List ℕ
sort_if_needed ids = if out_of_order ids then sorted_ids ids else ids

-- `retain(|&id| id != doc_id)`.
unfoldable pub retain_others : ℕ → List ℕ → List ℕ
retain_others doc_id [] = []
retain_others doc_id (x ∷ xs) =
    let rest = retain_others doc_id xs in if x == doc_id then rest else x ∷ rest

unfoldable pub remove_postings : List ℕ → ℕ → GramIndex → GramIndex
remove_postings [] doc_id index = index
remove_postings (gram_hash ∷ gs) doc_id index =
    remove_postings gs doc_id
      λ g. (if gram_hash == g then map_list (retain_others doc_id) (index g) else index g)

-- `retain(|_, list| !list.is_empty())`.
abbrev pub drop_empty : Option (List ℕ) → Option (List ℕ)
drop_empty none = none
drop_empty (some ids) = if is_empty ids then none else some ids

-- The maps of `enumerate()` collected: a later document replaces an earlier one of its id.
unfoldable pub collect_ids : ℕ → List OverlayDoc → (ℕ → Option ℕ) → ℕ → Option ℕ
collect_ids i [] index = index
collect_ids i (d ∷ ds) index =
    collect_ids (suc i) ds (λ id. if d.doc_id == id then some i else index id)

-- What a build has so far.
pub record Building : Type 0 where
  pub gram_index : GramIndex
  pub docs : List OverlayDoc
  pub next_id : ℕ

-- The postings of a document with this id, and the document.
unfoldable pub push_doc : ℕ → ℕ → ℕ → List ℕ → List ℕ → Building → Building
push_doc doc_id next_id path content grams b = record {
  gram_index = push_postings grams doc_id b.gram_index;
  docs = b.docs ++ (record { doc_id = doc_id; path = path; content = content; grams = grams } ∷ []);
  next_id = next_id;
}

abbrev pub view : ℕ → (List ℕ → List ℕ) → Building → OverlayView
view base_doc_count order b = record {
  gram_index = λ g. map_list order (b.gram_index g);
  docs = b.docs;
  doc_id_map = collect_ids 0 b.docs (λ _. none);
  next_doc_id = b.next_id;
  base_doc_count = base_doc_count;
}

abbrev pub is_stale : List ℕ → List ℕ → OverlayDoc → Bool
is_stale removed_paths newly_changed d =
    contains d.path removed_paths || contains d.path newly_changed

-- `(old.docs.len() + new_files.len()).saturating_sub(newly_changed.len())`.
abbrev pub overlay_docs_after : OverlayView → List (ℕ × List ℕ) → List ℕ → ℕ
overlay_docs_after old new_files newly_changed =
    length old.docs + length new_files - length newly_changed

-- The old documents that are not stale, with new ids and their cached grams.
unfoldable pub reuse_docs : ℕ → ℕ → List ℕ → List ℕ → List OverlayDoc → Building → Result Building
reuse_docs base n removed_paths newly_changed [] b = ok b
reuse_docs base n removed_paths newly_changed (d ∷ ds) b =
    elim (is_stale removed_paths newly_changed d) [
      | true ↦ reuse_docs base n removed_paths newly_changed ds b
      | false ↦ next_doc_id b.next_id base n >>= λ id.
          reuse_docs base n removed_paths newly_changed ds
            (push_doc id.0 id.1 d.path d.content d.grams b)
    ]

-- The loop over the old documents that takes the stale ones out of the posting lists.
unfoldable pub remove_stale : List ℕ → List ℕ → List OverlayDoc → GramIndex → GramIndex
remove_stale removed_paths newly_changed [] index = index
remove_stale removed_paths newly_changed (d ∷ ds) index =
    remove_stale removed_paths newly_changed ds (
      if is_stale removed_paths newly_changed d
      then remove_postings d.grams d.doc_id index
      else index)

unfoldable pub keep_docs : List ℕ → List ℕ → List OverlayDoc → List OverlayDoc
keep_docs removed_paths newly_changed [] = []
keep_docs removed_paths newly_changed (d ∷ ds) =
    let rest = keep_docs removed_paths newly_changed ds in
    if is_stale removed_paths newly_changed d then rest else d ∷ rest

module _ (t : Tables) where
  unfoldable pub add_files : ℕ → ℕ → List (ℕ × List ℕ) → Building → Result Building
  add_files base n [] b = ok b
  add_files base n ((path, content) ∷ files) b = next_doc_id b.next_id base n >>= λ id.
      add_files base n files (push_doc id.0 id.1 path content (build_all t content) b)

  unfoldable pub build : ℕ → List (ℕ × List ℕ) → Result OverlayView
  build base_doc_count dirty_files =
      add_files base_doc_count (length dirty_files) dirty_files
        (record { gram_index = λ _. none; docs = []; next_id = base_doc_count })
      >>= λ b. ok (view base_doc_count sorted_ids b)

  unfoldable pub build_incremental_delta :
      ℕ → OverlayView → List (ℕ × List ℕ) → List ℕ → List ℕ → Result OverlayView
  build_incremental_delta base_doc_count old new_files newly_changed removed_paths =
      let index = remove_stale removed_paths newly_changed old.docs old.gram_index in
      add_files base_doc_count (overlay_docs_after old new_files newly_changed) new_files (record {
        gram_index = λ g. drop_empty (index g);
        docs = keep_docs removed_paths newly_changed old.docs;
        next_id = old.next_doc_id;
      })
      >>= λ b. ok (view base_doc_count sort_if_needed b)

  unfoldable pub rebuild :
      ℕ → OverlayView → List (ℕ × List ℕ) → List ℕ → List ℕ → Result OverlayView
  rebuild base_doc_count old new_files newly_changed removed_paths =
      let n = overlay_docs_after old new_files newly_changed in
      reuse_docs base_doc_count n removed_paths newly_changed old.docs
        (record { gram_index = λ _. none; docs = []; next_id = base_doc_count })
      >>= (λ b. add_files base_doc_count n new_files b)
      >>= λ b. ok (view base_doc_count sorted_ids b)

  unfoldable pub build_incremental :
      ℕ → OverlayView → List (ℕ × List ℕ) → List ℕ → List ℕ → Result OverlayView
  build_incremental base_doc_count old new_files newly_changed removed_paths =
      if base_doc_count == old.base_doc_count
      then build_incremental_delta base_doc_count old new_files newly_changed removed_paths
      else rebuild base_doc_count old new_files newly_changed removed_paths
