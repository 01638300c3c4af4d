-- ===== src/Tests/Overlay.antt =====
-- Runs of the overlay, and its theorems at concrete inputs.
use syntext.Prelude.{ℕ, ◌≡◌, refl, some, List, [], ◌∷◌, map, contains}
use syntext.Index.Overlay.{
  OverlayDoc, OverlayView, empty, get_doc_by_path, Result, ok, doc_id_overflow, next_doc_id,
  push_doc, reuse_docs, keep_docs, add_files, build, build_incremental_delta, rebuild,
  build_incremental, find_path,
}
use syntext.Index.Overlay.Invariant.{WellFormed}
use syntext.Index.Overlay.Reach.{built, committed, Reached-WellFormed}
use syntext.Index.Overlay.Contents.{content_of}
use syntext.Index.Overlay.Room.{Outcome, first_id, ids_needed, build_incremental-room}
use syntext.Tests.Toy.{toy, bytes}

abbrev value : Result OverlayView → OverlayView
value (ok v) = v
value (doc_id_overflow b n) = empty

abbrev first_files : List (ℕ × List ℕ)
first_files = (1, bytes "one") ∷ (2, bytes "two") ∷ (3, bytes "three") ∷ []

abbrev next_files : List (ℕ × List ℕ)
next_files = (2, bytes "second") ∷ []

abbrev first_overlay : OverlayView
first_overlay = value (build toy 5 first_files)

-- Path 2 has changed, and path 3 is gone.
abbrev next_overlay : OverlayView
next_overlay = value (build_incremental toy 5 first_overlay next_files (2 ∷ []) (3 ∷ []))

-- The base has grown meanwhile.
abbrev moved_overlay : OverlayView
moved_overlay = value (build_incremental toy 9 first_overlay next_files (2 ∷ []) (3 ∷ []))

ids_after_delta : map (λ d. OverlayDoc.doc_id d) next_overlay.docs ≡ 5 ∷ 8 ∷ []
unfolding build_incremental build_incremental_delta keep_docs add_files build push_doc next_doc_id
    contains
ids_after_delta = refl

ids_after_rebuild : map (λ d. OverlayDoc.doc_id d) moved_overlay.docs ≡ 9 ∷ 10 ∷ []
unfolding build_incremental rebuild reuse_docs add_files build push_doc next_doc_id contains
ids_after_rebuild = refl

Reached-WellFormed_example : WellFormed toy next_overlay
unfolding build_incremental build_incremental_delta keep_docs add_files build push_doc next_doc_id
    contains
Reached-WellFormed_example =
    Reached-WellFormed toy
      (committed 5 next_files (2 ∷ []) (3 ∷ []) (built 5 first_files refl) refl)

changed_content : content_of (get_doc_by_path 2 moved_overlay) ≡ some (bytes "second")
unfolding build_incremental rebuild reuse_docs add_files build push_doc next_doc_id contains
    find_path
changed_content = refl

build_incremental-room_example :
    Outcome toy 9 first_overlay next_files
      (2 ∷ [])
      (3 ∷ [])
      (first_id 9 first_overlay)
      (ids_needed 9 first_overlay next_files (2 ∷ []) (3 ∷ []))
      (build_incremental toy 9 first_overlay next_files (2 ∷ []) (3 ∷ []))
build_incremental-room_example =
    build_incremental-room toy 9 first_overlay next_files (2 ∷ []) (3 ∷ [])
