-- ===== src/Paths/Stable.antt =====
-- File ids are stable: a path index made from another keeps the ids of the paths that stay.
use mathlib.Core.Path.{subst}
use syntext.Prelude.{
  ℕ, ◌+◌, ◌^◌, ◌<◌, ◌≡◌, refl, sym, ap, ◌∙◌, Bool, true, false, ◌||◌, inl, inr, Option, none, some,
  List, [], ◌∷◌, ◌==◌, if◌then◌else◌, length, contains, Bool-cases, Option-cases, ==_iff, arith,
}
use syntext.Index.Bitmap.{RoaringBitmap}
use syntext.Index.Overlay.{dedup}
use syntext.Index.Overlay.OrderedIds.{dedup-contains}
use syntext.Paths.PathIndex.{
  PathIndex, lookup_id, retain_paths, remove_paths, add_paths, insert_path, sort_paths,
  with_sorted_paths, added_to, build_incremental, file_id,
}
use syntext.Paths.Table.{lookup-remove_id, contains-retain_paths}
use syntext.Paths.Valid.{is_known, Consistent, Consistent-with, remove_path-Consistent}
use syntext.Paths.Added.{Valid, Stays, add_paths-Added}

module _ (R : RoaringBitmap) (text : ℕ → List ℕ) where
  -- The paths go, in bounds; the ids of the others stay.
  abbrev Removed : List ℕ → PathIndex R → PathIndex R → Type 0
  Removed ps idx idx' =
      Consistent R text idx'
      × ((q : ℕ) → file_id R q idx' ≡ (if contains q ps then none else file_id R q idx))
      × (length idx'.file_id_to_path ≡ length idx.file_id_to_path)
      × (idx'.paths ≡ idx.paths)
      × (idx'.next_file_id ≡ idx.next_file_id)

  removed_also :
      (p q : ℕ) (gone : Bool) (o o' new : Option ℕ)
      → new ≡ (if gone then none else o')
      → o' ≡ (if p == q then none else o)
      → new ≡ (if p == q || gone then none else o)
  removed_also p q true o o' new h k = elim (Bool-cases (p == q)) [
    | inl same ↦ rw same h
    | inr other ↦ rw other h
  ]
  removed_also p q false o o' new h k = elim (Bool-cases (p == q)) [
    | inl same ↦ rw same (h ∙ (rw same at k))
    | inr other ↦ rw other (h ∙ (rw other at k))
  ]

  not_there :
      (p q : ℕ) (idx : PathIndex R)
      → file_id R p idx ≡ none
      → file_id R q idx ≡ (if p == q then none else file_id R q idx)
  not_there p q idx h = elim (Bool-cases (p == q)) [
    | inl same ↦ let r : p ≡ q = (==_iff p q).0 same in rw same (rw r at h)
    | inr other ↦ rw other refl
  ]

  remove_paths-Removed :
      (ps : List ℕ) (idx : PathIndex R)
      → Consistent R text idx
      → (idx' : PathIndex R) × (remove_paths R text ps idx ≡ some idx') × Removed ps idx idx'
  unfolding remove_paths contains
  remove_paths-Removed [] idx c = (idx, refl, (c, λ q. refl, refl, refl, refl))
  remove_paths-Removed (p ∷ ps) idx c = elim (Option-cases (file_id R p idx)) [
    | inl unknown ↦
        let (idx', e, (c', ids, n, same_paths, next)) = remove_paths-Removed ps idx c in
        (
          idx',
          rw (unknown, remove_paths) e,
          (
            c',
            λ q.
                removed_also p q (contains q ps) (file_id R q idx) (file_id R q idx)
                  (file_id R q idx') (ids q) (not_there p q idx unknown),
            n,
            same_paths,
            next,
          ),
        )
    | inr (id, known) ↦
        let (mid, gone, c1, table, n1, paths1, next1) =
          remove_path-Consistent R text p id idx known c in
        let (idx', e, (c', ids, n, same_paths, next)) = remove_paths-Removed ps mid c1 in
        (
          idx',
          rw (known, remove_paths) (rw (gone, remove_paths) e),
          (
            c',
            λ q.
                removed_also p q (contains q ps) (file_id R q idx) (file_id R q mid)
                  (file_id R q idx') (ids q)
                  (ap (lookup_id q) table ∙ lookup-remove_id q p idx.path_to_file_id),
            n ∙ n1,
            same_paths ∙ paths1,
            next ∙ next1,
          ),
        )
  ]

  module _ (le_path : ℕ → ℕ → Bool) where
    contains-insert_path :
        (p x : ℕ) (ys : List ℕ)
        → contains p (insert_path le_path x ys) ≡ ((x == p) || contains p ys)
    unfolding insert_path contains
    contains-insert_path p x [] = refl
    contains-insert_path p x (y ∷ ys) = elim (Bool-cases (le_path x y)) [
      | inl before ↦ rw before refl
      | inr after ↦ rw after (ground (arith, contains-insert_path p x ys))
    ]

    contains-sort_paths : (p : ℕ) (ps : List ℕ) → contains p (sort_paths le_path ps) ≡ contains p ps
    unfolding sort_paths contains
    contains-sort_paths p [] = refl
    contains-sort_paths p (x ∷ xs) =
        ground (arith, contains-insert_path p x (sort_paths le_path xs), contains-sort_paths p xs)

    sorted-Valid :
        (idx : PathIndex R) → Valid R text idx → Valid R text (with_sorted_paths R text le_path idx)
    sorted-Valid idx v = record {
      consistent =
          Consistent-with R text idx (dedup (sort_paths le_path idx.paths)) idx.next_file_id
            v.consistent;
      counted = v.counted;
      listed = λ p.
          dedup-contains p (sort_paths le_path idx.paths)
          ∙ contains-sort_paths p idx.paths
          ∙ v.listed p;
    }

    -- The removal of paths from the list, and from the table, agree.
    still_listed :
        (p : ℕ) (removed : List ℕ) (idx idx' : PathIndex R)
        → Valid R text idx
        → file_id R p idx' ≡ (if contains p removed then none else file_id R p idx)
        → contains p (retain_paths removed idx.paths) ≡ is_known (file_id R p idx')
    still_listed p removed idx idx' v h =
        rw (h, contains-retain_paths p removed idx.paths, v.listed p)
          (elim (Bool-cases (contains p removed)) [
            | inl gone ↦ rw gone (ground arith)
            | inr kept ↦ rw kept (ground arith)
          ])

    -- Where the ids given out and the paths added together fit a u32, an update of a valid index does
    -- not index out of bounds and yields a valid index, in which a path that is not removed keeps its
    -- id, another has an id exactly where it is added, and a fresh id is none that was given out.
    pub build_incremental-Valid :
        (old : PathIndex R) (removed added : List ℕ)
        → old.next_file_id + length added < 2 ^ 32
        → Valid R text old
        → (new : PathIndex R) × (build_incremental R text le_path old removed added ≡ some new)
          × Valid R text new
          × ((p : ℕ)
              → Stays R text old.next_file_id
                  (contains p added)
                  (if contains p removed then none else file_id R p old)
                  (file_id R p new))
    unfolding build_incremental
    build_incremental-Valid old removed added fits v =
        let start : PathIndex R = record old { paths = retain_paths removed old.paths } in
        let (mid, e, (c, ids, n, same_paths, next)) = remove_paths-Removed removed start (
          Consistent-with R text old (retain_paths removed old.paths) old.next_file_id
            v.consistent) in
        let valid : Valid R text mid = record {
          consistent = c;
          counted = n ∙ v.counted ∙ sym next;
          listed = λ p. (ap (contains p) same_paths ∙ still_listed p removed old mid v (ids p));
        } in
        let (v', stays) = add_paths-Added R text added mid (rw next fits) valid in
        (
          with_sorted_paths R text le_path (add_paths R text added mid),
          ap (added_to R text le_path added) e,
          sorted-Valid (add_paths R text added mid) v',
          λ p.
              subst
                (λ o.
                  Stays R text old.next_file_id (contains p added) o
                    (file_id R p (add_paths R text added mid)))
                (ids p)
                (subst
                  (λ k.
                    Stays R text k (contains p added) (file_id R p mid)
                      (file_id R p (add_paths R text added mid)))
                  next (stays p)),
        )
