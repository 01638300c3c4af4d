-- ===== src/Index/Commit.antt =====
-- src/index/commit.rs and what it calls of helpers.rs, flush.rs and snapshot.rs: the commit of the
-- pending edits. What the read of a changed file yields (`classify_changed_file`), the clock, whether
-- the writer lock is acquired, and the comparison of the overlay's share in floating point come from
-- outside, and no content is preloaded. The symbol index is left out. A hash set is a list.
pub mod Counts
pub mod Reading
pub mod Reason
pub mod Visible
use syntext.Prelude.{
  ℕ, ◌+◌, ◌%◌, ◌^◌, Bool, not, ◌&&◌, Option, none, some, List, [], ◌∷◌, ◌++◌, ltb, ◌==◌,
  if◌then◌else◌, length, contains,
}
use syntext.Tokenizer.Boundaries.{Tables}
use syntext.Index.Bitmap.{RoaringBitmap}
use syntext.Index.Pending.{
  PendingState, TakeResult, remove_path, take_for_commit, requeue_uncommitted, has_uncommitted,
}
use syntext.Index.DeleteSet.{compute_delete_set}
use syntext.Index.Overlay
use syntext.Index.Overlay.{OverlayDoc, OverlayView, build_incremental}
use syntext.Paths.PathIndex
use syntext.Paths.PathIndex.{PathIndex, file_id}

pub data ChangedFileOutcome : Type 0 where
  indexed : List ℕ → ChangedFileOutcome
  excluded vanished : ChangedFileOutcome

-- The document counts of the base segments, and their base ids.
pub record BaseSegments : Type 0 where
  pub doc_counts : List ℕ
  pub base_ids : List ℕ
  pub path_doc_ids : ℕ → Option (List ℕ)

pub record FlushBookkeeping : Type 0 where
  pub read_epoch : Option ℕ
  pub non_doc_paths : List ℕ

pub data IndexError : Type 0 where
  lock_conflict : IndexError
  overlay_full : ℕ → ℕ → IndexError
  doc_id_overflow : ℕ → ℕ → IndexError

-- `panics` is an index out of bounds.
pub data Result {ℓ} (A : Type ℓ) : Type ℓ where
  ok : A → Result A
  err : IndexError → Result A
  panics : Result A

infixl 5 ◌>>=◌
abbrev pub ◌>>=◌ {ℓ κ} : {A : Type ℓ} {B : Type κ} → Result A → (A → Result B) → Result B
ok a >>= f = f a
err e >>= f = err e
panics >>= f = panics

unfoldable pub doc_count_sum : List ℕ → ℕ
doc_count_sum [] = 0
doc_count_sum (n ∷ ns) = (n + doc_count_sum ns) % 2 ^ 32

-- `max_limit` is the greatest end so far; a segment without a base id is passed over.
unfoldable pub limit_from : ℕ → List ℕ → List ℕ → Result ℕ
limit_from max_limit [] bases = ok max_limit
limit_from max_limit (n ∷ ns) [] = limit_from max_limit ns []
limit_from max_limit (n ∷ ns) (base ∷ bases) =
    let limit = base + n in
    let rest = limit_from (if ltb max_limit limit then limit else max_limit) ns bases in
    if ltb limit (2 ^ 32) then rest else err (doc_id_overflow base n)

abbrev pub base_doc_id_limit : BaseSegments → Result ℕ
base_doc_id_limit base = limit_from 0 base.doc_counts base.base_ids

-- The items of a hash set, each once.
unfoldable pub each_once : List ℕ → List ℕ
each_once [] = []
each_once (p ∷ ps) = let rest = each_once ps in if contains p rest then rest else p ∷ rest

-- What the loop over the changed paths collects.
pub record Reads : Type 0 where
  pub new_files : List (ℕ × List ℕ)
  pub excluded_changed : List ℕ
  pub vanished_paths : List ℕ

abbrev pub note_read : ℕ → ChangedFileOutcome → Reads → Reads
note_read path (indexed content) r = record r { new_files = (path, content) ∷ r.new_files }
note_read path excluded r = record r { excluded_changed = path ∷ r.excluded_changed }
note_read path vanished r = record r { vanished_paths = path ∷ r.vanished_paths }

unfoldable pub remove_each : List ℕ → List ℕ → List ℕ
remove_each [] paths = paths
remove_each (p ∷ ps) paths = remove_each ps (remove_path p paths)

unfoldable pub count_if : {A : Type 0} → (A → Bool) → List A → ℕ
count_if test [] = 0
count_if test (x ∷ xs) = (if test x then 1 else 0) + count_if test xs

unfoldable pub projected_overlay_doc_count : OverlayView → List ℕ → List ℕ → ℕ
unfolding count_if
projected_overlay_doc_count old visible removed =
    count_if (λ (d : OverlayDoc). not (contains d.path visible) && not (contains d.path removed))
      old.docs
    + count_if (λ (p : ℕ). not (contains p removed)) visible

abbrev pub note_commit_for_flush : ℕ → List ℕ → FlushBookkeeping → FlushBookkeeping
note_commit_for_flush read_epoch paths book = record {
  read_epoch = elim book.read_epoch [ none ↦ some read_epoch | some e ↦ some e ];
  non_doc_paths = book.non_doc_paths ++ paths;
}

module _ (t : Tables) (R : RoaringBitmap) (text : ℕ → List ℕ) (le_path : ℕ → ℕ → Bool) where
  open R use {Bitmap}

  pub record Snapshot : Type 0 where
    pub base : BaseSegments
    pub overlay : OverlayView
    pub delete_set : Bitmap
    pub path_index : PathIndex R
    pub overlay_doc_to_file_id : ℕ → Option ℕ

  pub record Index : Type 0 where
    pub pending : PendingState
    pub snapshot : Snapshot
    pub flush_book : FlushBookkeeping

  unfoldable pub map_docs : PathIndex R → List OverlayDoc → (ℕ → Option ℕ) → ℕ → Option ℕ
  map_docs paths [] m = m
  map_docs paths (d ∷ ds) m = map_docs paths ds (elim (file_id R d.path paths) [
    | none ↦ m
    | some fid ↦ λ id. (if d.doc_id == id then some fid else m id)
  ])

  abbrev pub of_overlay : Overlay.Result OverlayView → Result OverlayView
  of_overlay (Overlay.ok v) = ok v
  of_overlay (Overlay.doc_id_overflow b n) = err (doc_id_overflow b n)

  abbrev pub of_paths : Option (PathIndex R) → Result (PathIndex R)
  of_paths none = panics
  of_paths (some p) = ok p

  -- `over_limit n base` is `n as f64 / base as f64 > 0.50`.
  module _ (read : ℕ → ChangedFileOutcome) (over_limit : ℕ → ℕ → Bool) (now : ℕ) where
    unfoldable pub read_changed : List ℕ → Reads
    read_changed [] = record { new_files = []; excluded_changed = []; vanished_paths = [] }
    read_changed (p ∷ ps) = note_read p (read p) (read_changed ps)

    abbrev pub visible_of : List ℕ → Reads → List ℕ
    visible_of newly_changed r =
        remove_each r.vanished_paths (remove_each r.excluded_changed (each_once newly_changed))

    abbrev pub removed_of : List ℕ → Reads → List ℕ
    removed_of newly_deleted r = newly_deleted ++ (r.excluded_changed ++ r.vanished_paths)

    abbrev pub check_share : ℕ → ℕ → Result (Unit {0})
    check_share base_doc_count n =
        if ltb 0 base_doc_count && over_limit n base_doc_count
        then err (overlay_full n base_doc_count)
        else ok tt

    abbrev pub snapshot_of : Snapshot → TakeResult → OverlayView → PathIndex R → Snapshot
    snapshot_of old take overlay paths = record {
      base = old.base;
      overlay = overlay;
      delete_set =
          compute_delete_set R old.base.path_doc_ids take.newly_changed take.newly_deleted
            old.delete_set;
      path_index = paths;
      overlay_doc_to_file_id = map_docs paths overlay.docs (λ id. none);
    }

    -- The new snapshot, and the paths that the flush is told of.
    unfoldable pub commit_inner : Snapshot → TakeResult → Result (Snapshot × List ℕ)
    unfolding limit_from each_once read_changed remove_each projected_overlay_doc_count
    commit_inner old take =
        let base_doc_count = doc_count_sum old.base.doc_counts in
        let r = read_changed (each_once take.newly_changed) in
        let visible = visible_of take.newly_changed r in
        let removed = removed_of take.newly_deleted r in
        base_doc_id_limit old.base >>= λ limit.
        check_share base_doc_count (projected_overlay_doc_count old.overlay visible removed)
        >>= λ fits.
            of_overlay (build_incremental t limit old.overlay r.new_files visible removed)
            >>= λ overlay.
                of_paths (PathIndex.build_incremental R text le_path old.path_index removed visible)
                >>= λ paths. ok (snapshot_of old take overlay paths, removed)

    -- The edits taken go back where the commit fails.
    abbrev pub finish :
        Index → TakeResult → PendingState → Result (Snapshot × List ℕ) → Result (Unit {0}) × Index
    finish index take pending (ok (snapshot, removed)) = (
      ok tt,
      record {
        pending = pending;
        snapshot = snapshot;
        flush_book = note_commit_for_flush now removed index.flush_book;
      },
    )
    finish index take pending (err e) =
        (err e, record index { pending = requeue_uncommitted take.drained pending })
    finish index take pending panics =
        (panics, record index { pending = requeue_uncommitted take.drained pending })

    unfoldable pub commit_batch : Bool → Index → Result (Unit {0}) × Index
    unfolding commit_inner
    commit_batch lock_acquired index =
        if not (has_uncommitted index.pending)
        then (ok tt, index)
        else if lock_acquired
        then (let (take, pending) = take_for_commit index.pending in
            finish index take pending (commit_inner index.snapshot take))
        else (err lock_conflict, index)
