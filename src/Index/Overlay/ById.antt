-- ===== src/Index/Overlay/ById.antt =====
-- The lookup of a document of the overlay by its id is a linear search.

use syntext.Prelude.{
  ℕ, suc, ◌+◌, ◌<◌, ◌≡◌, refl, inl, inr, Option, some, List, [], ◌∷◌, ◌==◌, if◌then◌else◌, ap, ◌∙◌,
  Bool-cases, get_elem?, arith,
}
use syntext.Index.Overlay.{OverlayDoc, Lookup, missing, panics, found, indexed, doc_at, collect_ids}
use syntext.Index.Overlay.Postings.{Numbered}

-- The linear search that the map of ids stands for.
unfoldable pub find_doc : ℕ → List OverlayDoc → Lookup
find_doc id [] = missing
find_doc id (d ∷ ds) = if d.doc_id == id then found d else find_doc id ds

abbrev pub found_or : Lookup → Lookup → Lookup
found_or start missing = start
found_or start panics = panics
found_or start (found d) = found d

pub found_or_missing : (l : Lookup) → found_or missing l ≡ l
found_or_missing missing = refl
found_or_missing panics = refl
found_or_missing (found d) = refl

find_doc_below :
    (lo hi : ℕ) (docs : List OverlayDoc) (id : ℕ)
    → Numbered lo hi docs
    → id < lo
    → find_doc id docs ≡ missing
unfolding find_doc
find_doc_below lo hi [] id h l = refl
find_doc_below lo hi (x ∷ xs) id (h, hs) l =
    ground (arith, find_doc_below (suc x.doc_id) hi xs id hs)

-- `ds` is what `docs` holds from index `i` on.
pub collect_ids-find :
    (lo hi : ℕ) (docs ds : List OverlayDoc) (i : ℕ) (index : ℕ → Option ℕ) (id : ℕ) (start : Lookup)
    → Numbered lo hi ds
    → ((k : ℕ) → get_elem? docs (i + k) ≡ get_elem? ds k)
    → doc_at docs (index id) ≡ start
    → doc_at docs (collect_ids i ds index id) ≡ found_or start (find_doc id ds)
unfolding collect_ids find_doc
collect_ids-find lo hi docs [] i index id start h at e = e
collect_ids-find lo hi docs (x ∷ xs) i index id start (h, hs) at e =
    let index' = λ (j : ℕ). (if x.doc_id == j then some i else index j) in
    let later : (k : ℕ) → get_elem? docs (suc i + k) ≡ get_elem? xs k =
      λ k. (ap (get_elem? docs) (omega arith) ∙ at (suc k)) in
    elim (Bool-cases (x.doc_id == id)) [
      | inl here ↦
          let here_at : get_elem? docs i ≡ some x = ap (get_elem? docs) (omega arith) ∙ at 0 in
          rw here (
            collect_ids-find (suc x.doc_id) hi docs xs (suc i) index' id (found x) hs later
              (rw here (ap indexed here_at))
            ∙ ap (found_or (found x)) (find_doc_below (suc x.doc_id) hi xs id hs (ground arith)))
      | inr away ↦
          rw away (
            collect_ids-find (suc x.doc_id) hi docs xs (suc i) index' id start hs later (rw away e))
    ]
