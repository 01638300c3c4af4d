-- ===== src/Index/Commit/Reading.antt =====
-- What the reads of a commit collect of each changed path.
use syntext.Prelude.{
  ℕ, ◌≡◌, refl, sym, ap, ◌∙◌, Bool, true, false, not, ◌&&◌, ◌||◌, inl, inr, Option, none, some,
  List, [], ◌∷◌, ◌++◌, ◌==◌, if◌then◌else◌, contains, All, Bool-cases, ==_iff, arith,
}
use syntext.Tokenizer.Boundaries.{Tables}
use syntext.Index.Bitmap.{RoaringBitmap}
use syntext.Index.Pending.{remove_path}
use syntext.Index.LastEdit.{contains-remove_path}
use syntext.Index.Overlay.Contents.{find_file}
use syntext.Index.Overlay.OrderedIds.{contains-append}
use syntext.Index.Commit.{
  ChangedFileOutcome, indexed, excluded, vanished, Reads, note_read, each_once, remove_each,
  read_changed, visible_of, removed_of,
}

abbrev pub content_read : ChangedFileOutcome → Option (List ℕ)
content_read (indexed content) = some content
content_read excluded = none
content_read vanished = none

abbrev pub is_excluded : ChangedFileOutcome → Bool
is_excluded (indexed content) = false
is_excluded excluded = true
is_excluded vanished = false

abbrev pub is_vanished : ChangedFileOutcome → Bool
is_vanished (indexed content) = false
is_vanished excluded = false
is_vanished vanished = true

pub each_once-contains : (p : ℕ) (ps : List ℕ) → contains p (each_once ps) ≡ contains p ps
unfolding each_once contains
each_once-contains p [] = refl
each_once-contains p (q ∷ ps) = elim (Bool-cases (contains q (each_once ps))) [
  | inl again ↦ elim (Bool-cases (q == p)) [
    | inl same ↦
        let e : q ≡ p = (==_iff q p).0 same in
        let there : contains p (each_once ps) ≡ true = rw e at again in rw (again, same) there
    | inr other ↦ rw (again, other) (each_once-contains p ps)
  ]
  | inr first ↦ rw first (ground (arith, each_once-contains p ps))
]

remove_each-contains :
    (p : ℕ) (gone ps : List ℕ)
    → contains p (remove_each gone ps) ≡ (contains p ps && not (contains p gone))
unfolding remove_each contains
remove_each-contains p [] ps = ground arith
remove_each-contains p (q ∷ gone) ps =
    ground (arith, remove_each-contains p gone (remove_path q ps), contains-remove_path p q ps)

module _ (t : Tables) (R : RoaringBitmap) (text : ℕ → List ℕ) (le_path : ℕ → ℕ → Bool)
    (read : ℕ → ChangedFileOutcome) (over_limit : ℕ → ℕ → Bool) (now : ℕ) where
  abbrev pub reads : List ℕ → Reads
  reads = read_changed t R text le_path read over_limit now

  -- What the reads say of a path.
  abbrev pub OfPath : ℕ → Bool → Reads → Type 0
  OfPath p changed r =
      (find_file p r.new_files ≡ (if changed then content_read (read p) else none))
      × (contains p r.excluded_changed ≡ (changed && is_excluded (read p)))
      × (contains p r.vanished_paths ≡ (changed && is_vanished (read p)))

  note_read-OfPath :
      (p q : ℕ) (changed : Bool) (o : ChangedFileOutcome) (r : Reads)
      → o ≡ read q
      → OfPath p changed r
      → OfPath p (q == p || changed) (note_read q o r)
  unfolding find_file contains
  note_read-OfPath p q changed (indexed c) r e (f, x, v) = elim (Bool-cases (q == p)) [
    | inl same ↦
        let here : read p ≡ indexed c = ap read (sym ((==_iff q p).0 same)) ∙ sym e in
        rw (same, here) (refl, x ∙ (rw here (ground arith)), v ∙ (rw here (ground arith)))
    | inr other ↦ rw other (f, x, v)
  ]
  note_read-OfPath p q changed excluded r e (f, x, v) = elim (Bool-cases (q == p)) [
    | inl same ↦
        let here : read p ≡ excluded = ap read (sym ((==_iff q p).0 same)) ∙ sym e in
        rw (same, here) (f ∙ (rw here (ground arith)), refl, v ∙ (rw here (ground arith)))
    | inr other ↦ rw other (f, x, v)
  ]
  note_read-OfPath p q changed vanished r e (f, x, v) = elim (Bool-cases (q == p)) [
    | inl same ↦
        let here : read p ≡ vanished = ap read (sym ((==_iff q p).0 same)) ∙ sym e in
        rw (same, here) (f ∙ (rw here (ground arith)), x ∙ (rw here (ground arith)), refl)
    | inr other ↦ rw other (f, x, v)
  ]

  pub reads-OfPath : (p : ℕ) (ps : List ℕ) → OfPath p (contains p ps) (reads ps)
  unfolding read_changed contains find_file
  reads-OfPath p [] = (refl, refl, refl)
  reads-OfPath p (q ∷ ps) =
      note_read-OfPath p q (contains p ps) (read q) (reads ps) refl (reads-OfPath p ps)

  module _ (changed : List ℕ) where
    abbrev pub r : Reads
    r = reads (each_once changed)

    -- A changed path is visible where its content was read.
    pub visible-contains :
        (p : ℕ)
        → contains p (visible_of t R text le_path read over_limit now changed r)
          ≡ (contains p changed && not (is_excluded (read p) || is_vanished (read p)))
    visible-contains p =
        let (f, x, v) = reads-OfPath p (each_once changed) in
        ground (
          arith,
          remove_each-contains p r.vanished_paths
              (remove_each r.excluded_changed (each_once changed)),
          remove_each-contains p r.excluded_changed (each_once changed),
          each_once-contains p changed,
        )

    -- The content that was read of a path, if it is a changed one.
    pub find-new_files :
        (p : ℕ)
        → find_file p r.new_files ≡ (if contains p changed then content_read (read p) else none)
    find-new_files p =
        (reads-OfPath p (each_once changed)).0 ∙ (rw (each_once-contains p changed) refl)

    pub removed-contains :
        (p : ℕ) (deleted : List ℕ)
        → contains p (removed_of t R text le_path read over_limit now deleted r) ≡ (
            contains p deleted
            || (contains p changed && (is_excluded (read p) || is_vanished (read p))))
    removed-contains p deleted =
        let (f, x, v) = reads-OfPath p (each_once changed) in
        ground (
          arith,
          contains-append p deleted (r.excluded_changed ++ r.vanished_paths),
          contains-append p r.excluded_changed r.vanished_paths,
          each_once-contains p changed,
        )

    abbrev IsVisible : ℕ × List ℕ → Type 0
    IsVisible f = contains f.0 (visible_of t R text le_path read over_limit now changed r) ≡ true

    noted-IsVisible :
        (p : ℕ) (o : ChangedFileOutcome) (rest : Reads)
        → read p ≡ o
        → contains p changed ≡ true
        → All IsVisible rest.new_files
        → All IsVisible (note_read p o rest).new_files
    noted-IsVisible p (indexed c) rest e h hs = (visible-contains p ∙ (rw (h, e) refl), hs)
    noted-IsVisible p excluded rest e h hs = hs
    noted-IsVisible p vanished rest e h hs = hs

    new_files-IsVisible :
        (ps : List ℕ)
        → ((p : ℕ) → contains p ps ≡ true → contains p changed ≡ true)
        → All IsVisible (reads ps).new_files
    unfolding read_changed contains
    new_files-IsVisible [] h = tt
    new_files-IsVisible (p ∷ ps) h =
        noted-IsVisible p (read p) (reads ps) refl (h p (ground arith))
          (new_files-IsVisible ps (λ q there. h q (ground arith)))

    pub All-IsVisible : All IsVisible r.new_files
    All-IsVisible =
        new_files-IsVisible (each_once changed)
          (λ p there. sym (each_once-contains p changed) ∙ there)
