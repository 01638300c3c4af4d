-- ===== src/Tests/Pending.antt =====
-- Pending edits at concrete inputs.
use syntext.Prelude.{◌≡◌, refl, true, false, [], ◌∷◌, ◌++◌, contains}
use syntext.Index.Pending.{
  changed, deleted, FileEdit, PendingState, TakeResult, notify_change, notify_delete,
  take_for_commit, requeue_uncommitted,
}
use syntext.Index.LastEdit.{
  last_kind, ends_changed, ends_deleted, one_per_path, still_last, take_for_commit_last,
  requeue_uncommitted_last,
}

-- Path 1 is changed and then deleted, path 2 changed.
abbrev edited : PendingState
unfolding notify_change notify_delete
edited = notify_delete 1 (notify_change 2 (notify_change 1 (record { uncommitted = [] })))

take_run : TakeResult.newly_changed (take_for_commit edited).0 ≡ 2 ∷ []
unfolding take_for_commit notify_change notify_delete
take_run = refl

take_for_commit_last_example :
    (contains 1 (TakeResult.newly_changed (take_for_commit edited).0)
      ≡ ends_changed (last_kind 1 edited.uncommitted) false)
    × (contains 1 (TakeResult.newly_deleted (take_for_commit edited).0)
        ≡ ends_deleted (last_kind 1 edited.uncommitted) false)
    × (TakeResult.drained (take_for_commit edited).0 ≡ edited.uncommitted)
    × (PendingState.uncommitted (take_for_commit edited).1 ≡ [])
take_for_commit_last_example = take_for_commit_last edited 1

abbrev first_edit : FileEdit
first_edit = record { path = 2; kind = deleted }

requeue_run :
    PendingState.uncommitted (requeue_uncommitted (first_edit ∷ []) edited)
    ≡ record { path = 2; kind = changed } ∷ record { path = 1; kind = deleted } ∷ []
unfolding requeue_uncommitted notify_change notify_delete contains
requeue_run = refl

requeue_uncommitted_last_example :
    (PendingState.uncommitted (requeue_uncommitted (first_edit ∷ []) edited)
      ≡ still_last (first_edit ∷ []) edited.uncommitted ++ still_last edited.uncommitted [])
    × (last_kind 2 (PendingState.uncommitted (requeue_uncommitted (first_edit ∷ []) edited))
        ≡ last_kind 2 ((first_edit ∷ []) ++ edited.uncommitted))
    × (one_per_path (PendingState.uncommitted (requeue_uncommitted (first_edit ∷ []) edited))
        ≡ true)
requeue_uncommitted_last_example = requeue_uncommitted_last first_edit [] edited 2
