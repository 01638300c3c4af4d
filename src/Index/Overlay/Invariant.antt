-- ===== src/Index/Overlay/Invariant.antt =====
-- The overlays that builds yield are well formed.

use syntext.Prelude.{
  ℕ, suc, ◌+◌, ◌≡◌, refl, false, inl, inr, Option, none, some, List, [], ◌∷◌, ◌++◌, ltb, ◌==◌, ◌^◌,
  is_empty, contains, length, ap, ◌∙◌, Bool-cases, ==_iff, All, OptionAll, get_elem?, arith,
}
use syntext.Tokenizer.Boundaries.{Tables}
use syntext.Tokenizer.Grams.{build_all}
use syntext.Index.Overlay.{
  OverlayDoc, OverlayView, empty, missing, get_doc, Result, ok, ◌>>=◌, next_doc_id, or_default,
  map_list, sorted_ids, sort_if_needed, drop_empty, Building, push_doc, view, is_stale,
  overlay_docs_after, reuse_docs, remove_stale, keep_docs, add_files, build,
  build_incremental_delta, rebuild, build_incremental,
}
use syntext.Index.Overlay.OrderedIds.{
  IsAscending, sorted_ids-IsAscending, sorted_ids-contains, sort_if_needed-IsAscending,
  sort_if_needed-contains,
}
use syntext.Index.Overlay.ById.{find_doc, found_or_missing, collect_ids-find}
use syntext.Index.Overlay.Postings.{
  Numbered, Numbered-append, IsPosted, NoEmptyList, push_doc-IsPosted, push_postings-NoEmptyList,
  remove_stale-IsPosted, drop_empty-NoEmptyList, keep_docs-below,
}
use syntext.Index.Overlay.Outcomes.{OkAll, OkAll-bind, has_member, keep_docs-All}

-- The list is in ascending order, and not empty.
abbrev IsList : List ℕ → Type 0
IsList ids = IsAscending ids × (is_empty ids ≡ false)

module _ (t : Tables) where
  abbrev HasGrams : OverlayDoc → Type 0
  HasGrams d = d.grams ≡ build_all t d.content

  -- The ids of the documents ascend from the base's count on, and are below the next id; an id is
  -- posted under a gram exactly where its document has the gram; each posting list is in ascending
  -- order, without repetitions, and none is empty; the cached grams are those of the content; and
  -- the lookup by id is that of a linear search.
  pub record WellFormed (v : OverlayView) : Type 0 where
    pub numbered : Numbered v.base_doc_count v.next_doc_id v.docs
    pub is_posted : IsPosted v.docs v.gram_index
    pub lists : (g : ℕ) → OptionAll IsList (v.gram_index g)
    pub has_grams : All HasGrams v.docs
    pub mapped : (id : ℕ) → get_doc id v ≡ find_doc id v.docs

  record Sound (base : ℕ) (b : Building) : Type 0 where
    numbered : Numbered base b.next_id b.docs
    is_posted : IsPosted b.docs b.gram_index
    no_empty : NoEmptyList b.gram_index
    has_grams : All HasGrams b.docs

  All-push :
      (ds : List OverlayDoc) (d : OverlayDoc)
      → All HasGrams ds
      → HasGrams d
      → All HasGrams (ds ++ (d ∷ []))
  All-push [] d h k = (k, tt)
  All-push (x ∷ xs) d (h, hs) k = (h, All-push xs d hs k)

  push_doc-Sound :
      (base path : ℕ) (content grams : List ℕ) (b : Building)
      → grams ≡ build_all t content
      → Sound base b
      → Sound base (push_doc b.next_id (suc b.next_id) path content grams b)
  unfolding push_doc
  push_doc-Sound base path content grams b e s =
      let doc =
        let d : OverlayDoc = record {
          doc_id = b.next_id;
          path = path;
          content = content;
          grams = grams;
        } in
        d in
      record {
        numbered = Numbered-append base b.next_id b.docs doc s.numbered refl;
        is_posted = push_doc-IsPosted b.next_id (suc b.next_id) path content grams b s.is_posted;
        no_empty = push_postings-NoEmptyList grams b.next_id b.gram_index s.no_empty;
        has_grams = All-push b.docs doc s.has_grams e;
      }

  -- The next id is taken, or there is none.
  taken_then :
      (base n path : ℕ) (content grams : List ℕ) (b : Building) (f : Building → Result Building)
      → grams ≡ build_all t content
      → Sound base b
      → ((b' : Building) → Sound base b' → OkAll (Sound base) (f b'))
      → OkAll
          (Sound base)
          (next_doc_id b.next_id base n >>= λ id. f (push_doc id.0 id.1 path content grams b))
  unfolding next_doc_id
  taken_then base n path content grams b f e s k =
      elim (Bool-cases (ltb (b.next_id + 1) (2 ^ 32))) [
        | inl fits ↦
            let after : b.next_id + 1 ≡ suc b.next_id = omega arith in
            rw fits (rw after (k _ (push_doc-Sound base path content grams b e s)))
        | inr full ↦ rw full tt
      ]

  add_files-Sound :
      (base n : ℕ) (files : List (ℕ × List ℕ)) (b : Building)
      → Sound base b
      → OkAll (Sound base) (add_files t base n files b)
  unfolding add_files
  add_files-Sound base n [] b s = s
  add_files-Sound base n ((path, content) ∷ files) b s =
      taken_then base n path content (build_all t content) b (add_files t base n files) refl s
        (add_files-Sound base n files)

  reuse_docs-Sound :
      (base n : ℕ) (removed changed : List ℕ) (ds : List OverlayDoc) (b : Building)
      → All HasGrams ds
      → Sound base b
      → OkAll (Sound base) (reuse_docs base n removed changed ds b)
  unfolding reuse_docs
  reuse_docs-Sound base n removed changed [] b h s = s
  reuse_docs-Sound base n removed changed (d ∷ ds) b (h, hs) s =
      elim (Bool-cases (is_stale removed changed d)) [
        | inl stale ↦ rw (stale, reuse_docs) (reuse_docs-Sound base n removed changed ds b hs s)
        | inr fresh ↦
            rw (fresh, reuse_docs)
              (taken_then base n d.path d.content d.grams b (reuse_docs base n removed changed ds) h
                s (λ b'. reuse_docs-Sound base n removed changed ds b' hs))
      ]

  Sound-none :
      (base : ℕ) → Sound base (record { gram_index = λ _. none; docs = []; next_id = base })
  unfolding contains
  Sound-none base = record {
    numbered = omega arith;
    is_posted = λ g d. refl;
    no_empty = λ g. tt;
    has_grams = tt;
  }

  Sound-kept :
      (removed changed : List ℕ) (old : OverlayView)
      → WellFormed old
      → Sound old.base_doc_count (record {
        gram_index = λ g. drop_empty (remove_stale removed changed old.docs old.gram_index g);
        docs = keep_docs removed changed old.docs;
        next_id = old.next_doc_id;
      })
  Sound-kept removed changed old w = record {
    numbered =
        keep_docs-below removed changed old.base_doc_count old.next_doc_id old.docs w.numbered;
    is_posted =
        remove_stale-IsPosted removed changed old.base_doc_count old.next_doc_id old.docs
          old.gram_index w.numbered w.is_posted;
    no_empty = drop_empty-NoEmptyList (remove_stale removed changed old.docs old.gram_index);
    has_grams = keep_docs-All HasGrams removed changed old.docs w.has_grams;
  }

  module _ (order : List ℕ → List ℕ) (ascends : (ids : List ℕ) → IsAscending (order ids))
      (same_ids : (d : ℕ) (ids : List ℕ) → contains d (order ids) ≡ contains d ids) where
    order-nonempty : (ids : List ℕ) → is_empty ids ≡ false → is_empty (order ids) ≡ false
    order-nonempty ids h = has_member (order ids) ids (λ d. same_ids d ids) h

    ordered_index :
        (o : Option (List ℕ)) (d : ℕ)
        → contains d (or_default (map_list order o)) ≡ contains d (or_default o)
    ordered_index none d = refl
    ordered_index (some ids) d = same_ids d ids

    ordered_list :
        (o : Option (List ℕ))
        → OptionAll (λ ids. is_empty ids ≡ false) o
        → OptionAll IsList (map_list order o)
    ordered_list none h = tt
    ordered_list (some ids) h = (ascends ids, order-nonempty ids h)

    view-WellFormed : (base : ℕ) (b : Building) → Sound base b → WellFormed (view base order b)
    unfolding get_doc
    view-WellFormed base b s = record {
      numbered = s.numbered;
      is_posted = λ g d. ordered_index (b.gram_index g) d ∙ s.is_posted g d;
      lists = λ g. ordered_list (b.gram_index g) (s.no_empty g);
      has_grams = s.has_grams;
      mapped = λ id.
          collect_ids-find base b.next_id b.docs b.docs 0 (λ _. none) id missing s.numbered
            (λ k. ap (get_elem? b.docs) (omega arith)) refl
          ∙ found_or_missing (find_doc id b.docs);
    }

  rebuilt : (base : ℕ) (b : Building) → Sound base b → WellFormed (view base sorted_ids b)
  rebuilt = view-WellFormed sorted_ids sorted_ids-IsAscending sorted_ids-contains

  pub build-WellFormed :
      (base : ℕ) (files : List (ℕ × List ℕ)) → OkAll WellFormed (build t base files)
  unfolding build
  build-WellFormed base files =
      OkAll-bind (Sound base) WellFormed (add_files t base (length files) files _)
        (λ b. ok (view base sorted_ids b))
        (add_files-Sound base (length files) files _ (Sound-none base)) (rebuilt base)

  delta-WellFormed :
      (old : OverlayView) (files : List (ℕ × List ℕ)) (changed removed : List ℕ)
      → WellFormed old
      → OkAll WellFormed (build_incremental_delta t old.base_doc_count old files changed removed)
  unfolding build_incremental_delta
  delta-WellFormed old files changed removed w =
      let n = overlay_docs_after old files changed in
      OkAll-bind (Sound old.base_doc_count) WellFormed (add_files t old.base_doc_count n files _)
        (λ b. ok (view old.base_doc_count sort_if_needed b))
        (add_files-Sound old.base_doc_count n files _ (Sound-kept removed changed old w))
        (view-WellFormed sort_if_needed sort_if_needed-IsAscending sort_if_needed-contains
          old.base_doc_count)

  rebuild-WellFormed :
      (base : ℕ) (old : OverlayView) (files : List (ℕ × List ℕ)) (changed removed : List ℕ)
      → WellFormed old
      → OkAll WellFormed (rebuild t base old files changed removed)
  unfolding rebuild
  rebuild-WellFormed base old files changed removed w =
      let n = overlay_docs_after old files changed in
      OkAll-bind (Sound base) WellFormed
        (reuse_docs base n removed changed old.docs _ >>= λ b. add_files t base n files b)
        (λ b. ok (view base sorted_ids b))
        (OkAll-bind (Sound base) (Sound base) (reuse_docs base n removed changed old.docs _)
          (add_files t base n files)
          (reuse_docs-Sound base n removed changed old.docs _ w.has_grams (Sound-none base))
          (add_files-Sound base n files))
        (rebuilt base)

  pub build_incremental-WellFormed :
      (base : ℕ) (old : OverlayView) (files : List (ℕ × List ℕ)) (changed removed : List ℕ)
      → WellFormed old
      → OkAll WellFormed (build_incremental t base old files changed removed)
  unfolding build_incremental
  build_incremental-WellFormed base old files changed removed w =
      elim (Bool-cases (base == old.base_doc_count)) [
        | inl same ↦
            let e : base ≡ old.base_doc_count = (==_iff base old.base_doc_count).0 same in
            rw (same, e) (delta-WellFormed old files changed removed w)
        | inr grown ↦ rw grown (rebuild-WellFormed base old files changed removed w)
      ]

  pub empty-WellFormed : WellFormed empty
  unfolding contains get_doc find_doc
  empty-WellFormed = record {
    numbered = omega arith;
    is_posted = λ g d. refl;
    lists = λ g. tt;
    has_grams = tt;
    mapped = λ id. refl;
  }
