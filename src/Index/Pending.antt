-- ===== src/Index/Pending.antt =====
-- src/index/pending.rs: edits that wait for a commit. Paths are only compared, so a path is a number
-- that stands for it; a hash set is a list. The lock is left out: each method holds it throughout.
use syntext.Prelude.{
  ℕ, Bool, not, List, [], ◌∷◌, ◌++◌, ◌==◌, contains, if◌then◌else◌, length, is_empty,
}

pub data EditKind : Type 0 where
  changed deleted : EditKind

pub record FileEdit : Type 0 where
  pub path : ℕ
  pub kind : EditKind

pub record PendingState : Type 0 where
  pub uncommitted : List FileEdit

pub record TakeResult : Type 0 where
  pub newly_changed : List ℕ
  pub newly_deleted : List ℕ
  pub drained : List FileEdit

unfoldable pub notify_change : ℕ → PendingState → PendingState
notify_change path s = record {
  uncommitted = s.uncommitted ++ (record { path = path; kind = changed } ∷ []);
}

unfoldable pub notify_delete : ℕ → PendingState → PendingState
notify_delete path s = record {
  uncommitted = s.uncommitted ++ (record { path = path; kind = deleted } ∷ []);
}

unfoldable pub remove_path : ℕ → List ℕ → List ℕ
remove_path p [] = []
remove_path p (x ∷ xs) = let rest = remove_path p xs in if x == p then rest else x ∷ rest

-- A round of the loop over the drained edits, on the two sets.
abbrev pub fold_edit : FileEdit → List ℕ × List ℕ → List ℕ × List ℕ
fold_edit e (newly_changed, newly_deleted) = elim e.kind [
  | changed ↦ (e.path ∷ newly_changed, remove_path e.path newly_deleted)
  | deleted ↦ (remove_path e.path newly_changed, e.path ∷ newly_deleted)
]

unfoldable pub fold_edits : List FileEdit → List ℕ × List ℕ → List ℕ × List ℕ
unfolding remove_path
fold_edits [] sets = sets
fold_edits (e ∷ es) sets = fold_edits es (fold_edit e sets)

unfoldable pub take_for_commit : PendingState → TakeResult × PendingState
unfolding fold_edits
take_for_commit s =
    let (newly_changed, newly_deleted) = fold_edits s.uncommitted ([], []) in
    (
      record {
        newly_changed = newly_changed;
        newly_deleted = newly_deleted;
        drained = s.uncommitted;
      },
      record { uncommitted = [] },
    )

-- The walk from the last edit on: an edit stays where no later one has its path. With the edits
-- kept come the paths seen.
unfoldable pub keep_last : List FileEdit → List FileEdit × List ℕ
keep_last [] = ([], [])
keep_last (e ∷ es) =
    let (deduped, seen) = keep_last es in
    if contains e.path seen then (deduped, seen) else (e ∷ deduped, e.path ∷ seen)

unfoldable pub requeue_uncommitted : List FileEdit → PendingState → PendingState
unfolding keep_last
requeue_uncommitted edits s =
    if is_empty edits then s else record { uncommitted = (keep_last (edits ++ s.uncommitted)).0 }

unfoldable pub has_uncommitted : PendingState → Bool
has_uncommitted s = not (is_empty s.uncommitted)

unfoldable pub uncommitted_count : PendingState → ℕ
uncommitted_count s = length s.uncommitted

unfoldable pub reset : PendingState → PendingState
reset s = record { uncommitted = [] }
