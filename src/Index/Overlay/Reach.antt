-- ===== src/Index/Overlay/Reach.antt =====
-- The overlays that commits reach.
use syntext.Prelude.{ℕ, ◌≡◌, List}
use syntext.Tokenizer.Boundaries.{Tables}
use syntext.Index.Overlay.{OverlayView, empty, ok, build, build_incremental}
use syntext.Index.Overlay.Outcomes.{OkAll-ok}
use syntext.Index.Overlay.Invariant.{
  WellFormed, empty-WellFormed, build-WellFormed, build_incremental-WellFormed,
}

module _ (t : Tables) where
  -- An index opens with no overlay or builds one; each commit builds the next from the last.
  pub data Reached : OverlayView → Type 0 where
    opened : Reached empty
    built :
        (base : ℕ) (files : List (ℕ × List ℕ)) {v : OverlayView}
        → build t base files ≡ ok v
        → Reached v
    committed :
        (base : ℕ) (files : List (ℕ × List ℕ)) (changed removed : List ℕ) {old v : OverlayView}
        → Reached old
        → build_incremental t base old files changed removed ≡ ok v
        → Reached v

  -- Every overlay that builds and commits reach is well formed: its documents have ascending ids,
  -- from the base's count on and below the next id; an id is posted under a gram exactly where its
  -- document has that gram; every posting list ascends, without repetitions, and none is empty; the
  -- cached grams of a document are those of its content; and a lookup by id answers as a linear
  -- search does, without an index out of bounds.
  pub Reached-WellFormed : {v : OverlayView} → Reached v → WellFormed t v
  Reached-WellFormed opened = empty-WellFormed t
  Reached-WellFormed (built base files e) =
      OkAll-ok (WellFormed t) (build-WellFormed t base files) e
  Reached-WellFormed (committed base files changed removed r e) =
      OkAll-ok (WellFormed t)
        (build_incremental-WellFormed t base _ files changed removed (Reached-WellFormed r)) e
