-- ===== src/Index/Commit/Visible.antt =====
-- A commit makes the pending edits visible, or keeps them.
use syntext.Prelude.{
  ℕ, ◌≤◌, ◌+◌, ◌<◌, ◌^◌, ◌≡◌, refl, ap, ◌∙◌, Bool, true, false, not, ◌&&◌, ◌||◌, inl, inr, Option,
  none, some, List, [], ◌∷◌, if◌then◌else◌, length, is_empty, append-nil, Bool-cases, arith,
}
use syntext.Tokenizer.Boundaries.{Tables}
use syntext.Index.Bitmap.{RoaringBitmap}
use syntext.Index.Pending.{
  EditKind, changed, deleted, FileEdit, PendingState, TakeResult, fold_edits, take_for_commit,
  requeue_uncommitted, has_uncommitted,
}
use syntext.Index.LastEdit.{
  last_kind, ends_changed, ends_deleted, take_for_commit_last, requeue_uncommitted_last,
}
use syntext.Index.Overlay
use syntext.Index.Overlay.{OverlayView, get_doc_by_path, build_incremental}
use syntext.Index.Overlay.Contents.{content_of, after_commit, get_doc_by_path-build_incremental}
use syntext.Paths.PathIndex
use syntext.Paths.PathIndex.{PathIndex}
use syntext.Paths.Added.{Valid}
use syntext.Paths.Stable.{build_incremental-Valid}
use syntext.Index.Commit.{
  ChangedFileOutcome, indexed, excluded, vanished, Result, ok, err, panics, ◌>>=◌, Snapshot, Index,
  each_once, remove_each, base_doc_id_limit, doc_count_sum, projected_overlay_doc_count,
  check_share, of_overlay, of_paths, snapshot_of, visible_of, removed_of, commit_inner, finish,
  commit_batch,
}
use syntext.Index.Commit.Reading.{
  content_read, is_excluded, is_vanished, r, find-new_files, visible-contains, removed-contains,
  All-IsVisible,
}
use syntext.Index.Commit.Reason.{Reason, Ends, base_limit-Ends, check_share-Ends, overlay-Ends}
use syntext.Index.Commit.Counts.{
  empty_list, length-remove_each, length-each_once, length-fold_edits,
}

-- What a path's last edit makes of its content: a change brings what was read, or nothing where the
-- file is excluded or gone; a deletion leaves nothing; without an edit the content stays.
abbrev pub after_edit : Option EditKind → ChangedFileOutcome → Option (List ℕ) → Option (List ℕ)
after_edit none o old = old
after_edit (some changed) o old = content_read o
after_edit (some deleted) o old = none

abbrev commits : Option EditKind → ChangedFileOutcome → Option (List ℕ) → Option (List ℕ)
commits k o old =
    after_commit (if ends_changed k false then content_read o else none)
      ((ends_deleted k false || (ends_changed k false && (is_excluded o || is_vanished o)))
        || (ends_changed k false && not (is_excluded o || is_vanished o)))
      old

commits-after_edit :
    (k : Option EditKind) (o : ChangedFileOutcome) (old : Option (List ℕ))
    → commits k o old ≡ after_edit k o old
commits-after_edit none o old = refl
commits-after_edit (some deleted) o old = refl
commits-after_edit (some changed) (indexed c) old = refl
commits-after_edit (some changed) excluded old = refl
commits-after_edit (some changed) vanished old = refl

module _ (t : Tables) (R : RoaringBitmap) (text : ℕ → List ℕ) (le_path : ℕ → ℕ → Bool)
    (read : ℕ → ChangedFileOutcome) (over_limit : ℕ → ℕ → Bool) (now : ℕ) where
  -- What the overlay holds for a path.
  abbrev pub holds : Snapshot t R text le_path → ℕ → Option (List ℕ)
  holds s p = content_of (get_doc_by_path p s.overlay)

  module _ (s : PendingState) (old : Snapshot t R text le_path) (p : ℕ) where
    abbrev take : TakeResult
    take = (take_for_commit s).0

    abbrev visible : List ℕ
    visible =
        visible_of t R text le_path read over_limit now take.newly_changed
          (r t R text le_path read over_limit now take.newly_changed)

    abbrev removed : List ℕ
    removed =
        removed_of t R text le_path read over_limit now take.newly_deleted
          (r t R text le_path read over_limit now take.newly_changed)

    built-holds :
        (limit : ℕ) (v : OverlayView)
        → build_incremental t limit old.overlay
            (r t R text le_path read over_limit now take.newly_changed).new_files
            visible
            removed
          ≡ Overlay.ok v
        → content_of (get_doc_by_path p v)
          ≡ after_edit (last_kind p s.uncommitted) (read p) (holds old p)
    built-holds limit v e =
        let files = (r t R text le_path read over_limit now take.newly_changed).new_files in
        let (c, d, drained, left) = take_for_commit_last s p in
        get_doc_by_path-build_incremental p removed visible t limit old.overlay files
          (All-IsVisible t R text le_path read over_limit now take.newly_changed) e
        ∙ (rw
            (
              find-new_files t R text le_path read over_limit now take.newly_changed p,
              removed-contains t R text le_path read over_limit now take.newly_changed p
                  take.newly_deleted,
              visible-contains t R text le_path read over_limit now take.newly_changed p,
              c,
              d,
            )
            (commits-after_edit (last_kind p s.uncommitted) (read p) (holds old p)))

    -- A new snapshot holds what the edits say, and has a valid path index.
    abbrev Good : Result (Snapshot t R text le_path × List ℕ) → Type 0
    Good (ok (new, paths)) =
        (holds new p ≡ after_edit (last_kind p s.uncommitted) (read p) (holds old p))
        × Valid R text new.path_index
    Good (err e) = Reason t R text le_path read over_limit now s old true e
    Good panics = ⊥

    Good-paths :
        (v : OverlayView)
        → (content_of (get_doc_by_path p v)
            ≡ after_edit (last_kind p s.uncommitted) (read p) (holds old p))
        → Valid R text old.path_index
        → old.path_index.next_file_id + length visible < 2 ^ 32
        → Good (
            of_paths t R text le_path
              (PathIndex.build_incremental R text le_path old.path_index removed visible)
            >>= λ paths.
                ok (snapshot_of t R text le_path read over_limit now old take v paths, removed))
    Good-paths v h w fits =
        let (new, e, w', stays) =
          build_incremental-Valid R text le_path old.path_index removed visible fits w in
        rw e (h, w')

    Good-overlay :
        (o : Overlay.Result OverlayView)
        → ((v : OverlayView)
            → o ≡ Overlay.ok v
            → content_of (get_doc_by_path p v)
              ≡ after_edit (last_kind p s.uncommitted) (read p) (holds old p))
        → Ends
            (Reason t R text le_path read over_limit now s old true)
            (of_overlay t R text le_path o)
        → Valid R text old.path_index
        → old.path_index.next_file_id + length visible < 2 ^ 32
        → Good (
            of_overlay t R text le_path o >>= λ overlay.
            of_paths t R text le_path
              (PathIndex.build_incremental R text le_path old.path_index removed visible)
            >>= λ paths.
                ok (
                  snapshot_of t R text le_path read over_limit now old take overlay paths,
                  removed,
                ))
    Good-overlay (Overlay.ok v) h why w fits = Good-paths v (h v refl) w fits
    Good-overlay (Overlay.doc_id_overflow b n) h why w fits = why

    Good-bind :
        {A : Type 0} (m : Result A) (f : A → Result (Snapshot t R text le_path × List ℕ))
        → Ends (Reason t R text le_path read over_limit now s old true) m
        → ((a : A) → m ≡ ok a → Good (f a))
        → Good (m >>= f)
    Good-bind (ok a) f n h = h a refl
    Good-bind (err e) f n h = n
    Good-bind panics f n h = n

    commit_inner-Good :
        Valid R text old.path_index
        → old.path_index.next_file_id + length visible < 2 ^ 32
        → Good (commit_inner t R text le_path read over_limit now old take)
    unfolding commit_inner
    commit_inner-Good w fits =
        Good-bind (base_doc_id_limit old.base) _
          (base_limit-Ends t R text le_path read over_limit now s old)
          (λ limit e.
            Good-bind
              (check_share t R text le_path read over_limit now (doc_count_sum old.base.doc_counts)
                (projected_overlay_doc_count old.overlay visible removed))
              _ (check_share-Ends t R text le_path read over_limit now s old)
              (λ share _.
                Good-overlay
                  (build_incremental t limit old.overlay
                    (r t R text le_path read over_limit now take.newly_changed).new_files visible
                    removed)
                  (built-holds limit)
                  (overlay-Ends t R text le_path read over_limit now s old limit e) w fits))

  -- The edits put back are those taken.
  requeued :
      (es : List FileEdit) (s : PendingState) (p : ℕ)
      → is_empty es ≡ false
      → s.uncommitted ≡ []
      → last_kind p (PendingState.uncommitted (requeue_uncommitted es s)) ≡ last_kind p es
  requeued [] s p h e = cc
  requeued (x ∷ es) s p h e =
      (requeue_uncommitted_last x es s p).1 ∙ ap (last_kind p) (rw e (append-nil (x ∷ es)))

  -- The path's content after a commit, or the state as it was.
  abbrev pub CommitsOrKeeps :
      Bool → ℕ → Index t R text le_path → Result (Unit {0}) × Index t R text le_path → Type 0
  CommitsOrKeeps lock_acquired p old (ok u, new) =
      (holds new.snapshot p
        ≡ after_edit (last_kind p old.pending.uncommitted) (read p) (holds old.snapshot p))
      × Valid R text new.snapshot.path_index
      × (new.pending.uncommitted ≡ [])
  CommitsOrKeeps lock_acquired p old (err e, new) =
      Reason t R text le_path read over_limit now old.pending old.snapshot lock_acquired e
      × (new.snapshot ≡ old.snapshot)
      × (last_kind p new.pending.uncommitted ≡ last_kind p old.pending.uncommitted)
  CommitsOrKeeps lock_acquired p old (panics, new) = ⊥

  finished :
      (p : ℕ) (old : Index t R text le_path) (o : Result (Snapshot t R text le_path × List ℕ))
      → is_empty old.pending.uncommitted ≡ false
      → Good old.pending old.snapshot p o
      → CommitsOrKeeps true p old (
          finish t R text le_path read over_limit now old
            (take_for_commit old.pending).0
            (take_for_commit old.pending).1
            o)
  finished p old (ok (new, paths)) some_edits (h, w) =
      (h, w, (take_for_commit_last old.pending p).3)
  finished p old (err e) some_edits g =
      let (c, d, drained, left) = take_for_commit_last old.pending p in
      (
        g,
        refl,
        rw drained
            (requeued old.pending.uncommitted (take_for_commit old.pending).1 p some_edits left),
      )
  finished p old panics some_edits g = g

  abbrev visible_set : PendingState → List ℕ
  visible_set s =
      visible_of t R text le_path read over_limit now (take_for_commit s).0.newly_changed
        (r t R text le_path read over_limit now (take_for_commit s).0.newly_changed)

  few_visible : (s : PendingState) → length (visible_set s) ≤ length s.uncommitted
  unfolding take_for_commit
  few_visible s =
      let changed = (fold_edits s.uncommitted ([], [])).0 in
      let set = each_once changed in
      let reads = r t R text le_path read over_limit now changed in
      omega (
        arith,
        length-remove_each reads.vanished_paths (remove_each reads.excluded_changed set),
        length-remove_each reads.excluded_changed set,
        length-each_once changed,
        length-fold_edits s.uncommitted ([], []),
      )

  -- Over a valid path index, with room for an id for each pending edit, a commit ends without an index
  -- out of bounds. Where it succeeds, the overlay holds for a path: the content read, where the
  -- last edit is a change and the file was read; nothing, where it is a change of a file that is
  -- excluded or gone, or a deletion; what it held before, where there is no edit; the path index
  -- stays valid, and no edit is pending. Where it fails, the writer lock is not acquired; or the base
  -- has documents and the overlay's share of them after the commit is over the limit; or a base segment
  -- does not end below 2 ^ 32; or the ids that the overlay's build gives out above the base do not.
  -- Then the snapshot is the old one and each path keeps its last pending edit.
  pub commit_batch-CommitsOrKeeps :
      (lock_acquired : Bool) (old : Index t R text le_path)
      → Valid R text old.snapshot.path_index
      → old.snapshot.path_index.next_file_id + length old.pending.uncommitted < 2 ^ 32
      → (p : ℕ)
      → CommitsOrKeeps lock_acquired p old
          (commit_batch t R text le_path read over_limit now lock_acquired old)
  unfolding commit_batch has_uncommitted last_kind
  commit_batch-CommitsOrKeeps lock_acquired old w fits p =
      elim (Bool-cases (is_empty old.pending.uncommitted)) [
        | inl no_edits ↦
            let none_left : old.pending.uncommitted ≡ [] =
              empty_list old.pending.uncommitted no_edits in
            rw no_edits (rw none_left (refl, w, refl))
        | inr some_edits ↦ elim (Bool-cases lock_acquired) [
          | inl locked ↦
              rw (some_edits, locked)
                (finished p old _ some_edits (
                  commit_inner-Good old.pending old.snapshot p w
                    (omega (arith, few_visible old.pending))))
          | inr busy ↦ rw (some_edits, busy) (refl, refl, refl)
        ]
      ]
