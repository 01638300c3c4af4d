-- ===== src/Index/Overlay/Contents.antt =====
-- What the overlay holds for a path after a commit.
use syntext.Prelude.{
  ℕ, ◌+◌, ◌^◌, ◌≡◌, refl, sym, ap, ◌∙◌, Bool, true, false, ◌||◌, inl, inr, Option, none, some, List,
  [], ◌∷◌, ◌++◌, ltb, ◌==◌, if◌then◌else◌, contains, All, Bool-cases, ==_iff,
}
use syntext.Tokenizer.Boundaries.{Tables}
use syntext.Tokenizer.Grams.{build_all}
use syntext.Index.Overlay.{
  OverlayDoc, OverlayView, get_doc_by_path, find_path, Result, ok, doc_id_overflow, ◌>>=◌,
  next_doc_id, sorted_ids, sort_if_needed, Building, push_doc, view, is_stale, overlay_docs_after,
  reuse_docs, keep_docs, add_files, build_incremental_delta, rebuild, build_incremental,
}
use syntext.Index.Overlay.Outcomes.{OkAll, OkAll-ok, OkAll-bind}

abbrev pub content_of : Option OverlayDoc → Option (List ℕ)
content_of none = none
content_of (some d) = some d.content

-- The first of the files read with this path.
unfoldable pub find_file : ℕ → List (ℕ × List ℕ) → Option (List ℕ)
find_file p [] = none
find_file p ((path, content) ∷ files) = if path == p then some content else find_file p files

abbrev or_else : Option (List ℕ) → Option (List ℕ) → Option (List ℕ)
or_else none o = o
or_else (some c) o = some c

abbrev unless : Bool → Option (List ℕ) → Option (List ℕ)
unless b o = if b then none else o

-- A file that was read has its content; another path keeps its document unless it is stale.
abbrev pub after_commit : Option (List ℕ) → Bool → Option (List ℕ) → Option (List ℕ)
after_commit none stale old = if stale then none else old
after_commit (some c) stale old = some c

module _ (p : ℕ) where
  abbrev held : List OverlayDoc → Option (List ℕ)
  held docs = content_of (find_path p docs)

  held-append :
      (xs : List OverlayDoc) (d : OverlayDoc)
      → held (xs ++ (d ∷ [])) ≡ or_else (held xs) (if d.path == p then some d.content else none)
  unfolding find_path
  held-append [] d = elim (Bool-cases (d.path == p)) [ inl e ↦ rw e refl | inr e ↦ rw e refl ]
  held-append (x ∷ xs) d = elim (Bool-cases (x.path == p)) [
    | inl e ↦ rw e refl
    | inr e ↦ rw e (held-append xs d)
  ]

  or_else_assoc : (a b c : Option (List ℕ)) → or_else (or_else a b) c ≡ or_else a (or_else b c)
  or_else_assoc none b c = refl
  or_else_assoc (some x) b c = refl

  or_else_none : (a : Option (List ℕ)) → or_else a none ≡ a
  or_else_none none = refl
  or_else_none (some x) = refl

  replaced :
      (b : Bool) (old new : Option (List ℕ))
      → or_else (unless (b || true) old) new ≡ after_commit new (b || true) old
  replaced true old none = refl
  replaced true old (some c) = refl
  replaced false old none = refl
  replaced false old (some c) = refl

  -- The build adds what `o` says of the path.
  abbrev Adds : Option (List ℕ) → Building → Building → Type 0
  Adds o b b' = held b'.docs ≡ or_else (held b.docs) o

  OkAll-weaken :
      (P Q : Building → Type 0) (r : Result Building)
      → OkAll P r
      → ((b : Building) → P b → Q b)
      → OkAll Q r
  OkAll-weaken P Q (ok b) h k = k b h
  OkAll-weaken P Q (doc_id_overflow base n) h k = tt

  pushed :
      (id next path : ℕ) (content grams : List ℕ) (b : Building)
      → held (push_doc id next path content grams b).docs
        ≡ or_else (held b.docs) (if path == p then some content else none)
  unfolding push_doc
  pushed id next path content grams b =
      held-append b.docs (record { doc_id = id; path = path; content = content; grams = grams })

  first :
      (d : OverlayDoc) (ds : List OverlayDoc)
      → held (d ∷ ds) ≡ or_else (if d.path == p then some d.content else none) (held ds)
  unfolding find_path
  first d ds = elim (Bool-cases (d.path == p)) [ inl e ↦ rw e refl | inr e ↦ rw e refl ]

  taken_then :
      (base n path : ℕ) (content grams : List ℕ) (b : Building) (f : Building → Result Building)
      (o : Option (List ℕ))
      → ((b' : Building) → OkAll (Adds o b') (f b'))
      → OkAll
          (Adds (or_else (if path == p then some content else none) o) b)
          (next_doc_id b.next_id base n >>= λ id. f (push_doc id.0 id.1 path content grams b))
  unfolding next_doc_id
  taken_then base n path content grams b f o h = elim (Bool-cases (ltb (b.next_id + 1) (2 ^ 32))) [
    | inl fits ↦
        let b' = push_doc b.next_id (b.next_id + 1) path content grams b in
        rw fits (
          OkAll-weaken (Adds o b') (Adds (or_else (if path == p then some content else none) o) b)
            (f b') (h b')
            (λ b'' e.
              e
              ∙ ap (λ a. or_else a o) (pushed b.next_id (b.next_id + 1) path content grams b)
              ∙ or_else_assoc (held b.docs) (if path == p then some content else none) o))
    | inr full ↦ rw full tt
  ]

  unless_here :
      (b : Bool) (c : List ℕ) (o : Option (List ℕ))
      → or_else (if b then some c else none) o ≡ (if b then some c else o)
  unless_here true c o = refl
  unless_here false c o = refl

  add_files-Adds :
      (t : Tables) (base n : ℕ) (files : List (ℕ × List ℕ)) (b : Building)
      → OkAll (Adds (find_file p files) b) (add_files t base n files b)
  unfolding add_files find_file
  add_files-Adds t base n [] b = sym (or_else_none (held b.docs))
  add_files-Adds t base n ((path, content) ∷ files) b =
      rw (← unless_here (path == p) content (find_file p files)) (
        taken_then base n path content (build_all t content) b (add_files t base n files)
          (find_file p files) (add_files-Adds t base n files))

  module _ (removed changed : List ℕ) where
    abbrev stale_path : Bool
    stale_path = contains p removed || contains p changed

    unless_none : (b : Bool) → unless b none ≡ none
    unless_none true = refl
    unless_none false = refl

    unless-true : {b : Bool} (o : Option (List ℕ)) → b ≡ true → unless b o ≡ none
    unless-true o e = rw e refl

    unless-false : {b : Bool} (o : Option (List ℕ)) → b ≡ false → unless b o ≡ o
    unless-false o e = rw e refl

    -- What a document adds that stands before others: nothing where it is stale.
    stale_first :
        (d : OverlayDoc) (ds : List OverlayDoc)
        → is_stale removed changed d ≡ true
        → unless stale_path (held (d ∷ ds)) ≡ unless stale_path (held ds)
    unfolding find_path
    stale_first d ds h = elim (Bool-cases (d.path == p)) [
      | inl same ↦
          let e : d.path ≡ p = (==_iff d.path p).0 same in
          let gone : stale_path ≡ true = rw (← e) h in rw (gone) refl
      | inr other ↦ rw other refl
    ]

    fresh_first :
        (d : OverlayDoc) (ds : List OverlayDoc)
        → is_stale removed changed d ≡ false
        → unless stale_path (held (d ∷ ds))
          ≡ or_else (if d.path == p then some d.content else none) (unless stale_path (held ds))
    unfolding find_path
    fresh_first d ds h = elim (Bool-cases (d.path == p)) [
      | inl same ↦
          let e : d.path ≡ p = (==_iff d.path p).0 same in
          let there : stale_path ≡ false = rw (← e) h in rw (same, there) refl
      | inr other ↦ rw other refl
    ]

    reuse_docs-Adds :
        (base n : ℕ) (ds : List OverlayDoc) (b : Building)
        → OkAll (Adds (unless stale_path (held ds)) b) (reuse_docs base n removed changed ds b)
    unfolding reuse_docs find_path
    reuse_docs-Adds base n [] b =
        sym (ap (or_else (held b.docs)) (unless_none stale_path) ∙ or_else_none (held b.docs))
    reuse_docs-Adds base n (d ∷ ds) b = elim (Bool-cases (is_stale removed changed d)) [
      | inl stale ↦ rw (stale, reuse_docs, stale_first d ds stale) (reuse_docs-Adds base n ds b)
      | inr fresh ↦
          rw (fresh, reuse_docs, fresh_first d ds fresh)
            (taken_then base n d.path d.content d.grams b (reuse_docs base n removed changed ds)
              (unless stale_path (held ds)) (reuse_docs-Adds base n ds))
    ]

    keep_docs-held :
        (ds : List OverlayDoc) → held (keep_docs removed changed ds) ≡ unless stale_path (held ds)
    unfolding keep_docs
    keep_docs-held [] = unfold find_path in sym (unless_none stale_path)
    keep_docs-held (d ∷ ds) = elim (Bool-cases (is_stale removed changed d)) [
      | inl stale ↦ rw stale (keep_docs-held ds ∙ sym (stale_first d ds stale))
      | inr fresh ↦ rw fresh (
          first d (keep_docs removed changed ds)
          ∙ ap (or_else (if d.path == p then some d.content else none)) (keep_docs-held ds)
          ∙ sym (fresh_first d ds fresh))
    ]

    fresh_files :
        (files : List (ℕ × List ℕ))
        → All (λ f. contains f.0 changed ≡ true) files
        → contains p changed ≡ false
        → find_file p files ≡ none
    unfolding find_file
    fresh_files [] h e = refl
    fresh_files ((path, content) ∷ files) (h, hs) e = elim (Bool-cases (path == p)) [
      | inl same ↦
          let q : path ≡ p = (==_iff path p).0 same in
          let there : contains p changed ≡ true = rw (← q) h in cc
      | inr other ↦ rw other (fresh_files files hs e)
    ]

    merged :
        (old : Option (List ℕ)) (files : List (ℕ × List ℕ))
        → All (λ f. contains f.0 changed ≡ true) files
        → or_else (unless stale_path old) (find_file p files)
          ≡ after_commit (find_file p files) stale_path old
    merged old files h = elim (Bool-cases (contains p changed)) [
      | inl new ↦ rw new (replaced (contains p removed) old (find_file p files))
      | inr kept ↦ rw (fresh_files files h kept) (or_else_none (unless stale_path old))
    ]

    module _ (t : Tables) (base : ℕ) (old : OverlayView) (files : List (ℕ × List ℕ))
        (h : All (λ f. contains f.0 changed ≡ true) files) where
      abbrev Holds : OverlayView → Type 0
      Holds v =
          content_of (get_doc_by_path p v)
          ≡ after_commit (find_file p files) stale_path (content_of (get_doc_by_path p old))

      delta-Holds : OkAll Holds (build_incremental_delta t base old files changed removed)
      unfolding build_incremental_delta
      delta-Holds =
          let n = overlay_docs_after old files changed in
          OkAll-bind _ Holds (add_files t base n files _) (λ b. ok (view base sort_if_needed b))
            (add_files-Adds t base n files _)
            (λ b e.
              e
              ∙ ap (λ o. or_else o (find_file p files)) (keep_docs-held old.docs)
              ∙ merged (held old.docs) files h)

      rebuild-Holds : OkAll Holds (rebuild t base old files changed removed)
      unfolding rebuild find_path
      rebuild-Holds =
          let n = overlay_docs_after old files changed in
          let start : Building = record { gram_index = λ _. none; docs = []; next_id = base } in
          OkAll-bind
            (λ b. held b.docs ≡ or_else (unless stale_path (held old.docs)) (find_file p files))
            Holds
            (reuse_docs base n removed changed old.docs start >>= λ b. add_files t base n files b)
            (λ b. ok (view base sorted_ids b))
            (OkAll-bind (Adds (unless stale_path (held old.docs)) start)
              (λ b. held b.docs ≡ or_else (unless stale_path (held old.docs)) (find_file p files))
              (reuse_docs base n removed changed old.docs start) (add_files t base n files)
              (reuse_docs-Adds base n old.docs start)
              (λ b e.
                OkAll-weaken (Adds (find_file p files) b)
                  (λ b'.
                    held b'.docs ≡ or_else (unless stale_path (held old.docs)) (find_file p files))
                  (add_files t base n files b) (add_files-Adds t base n files b)
                  (λ b' e'. e' ∙ ap (λ o. or_else o (find_file p files)) e)))
            (λ b e. e ∙ merged (held old.docs) files h)

      incremental-Holds : OkAll Holds (build_incremental t base old files changed removed)
      unfolding build_incremental
      incremental-Holds = elim (Bool-cases (base == old.base_doc_count)) [
        | inl same ↦ rw same delta-Holds
        | inr grown ↦ rw grown rebuild-Holds
      ]

      -- After a commit, whether by the delta or by the rebuild, where each file read is one of the
      -- changed paths, the overlay holds for a path the content read, where it was read; nothing,
      -- where it was not read and is removed or changed; and what it held before otherwise.
      pub get_doc_by_path-build_incremental :
          {v : OverlayView}
          → build_incremental t base old files changed removed ≡ ok v
          → content_of (get_doc_by_path p v)
            ≡ after_commit
                (find_file p files)
                (contains p removed || contains p changed)
                (content_of (get_doc_by_path p old))
      get_doc_by_path-build_incremental e = OkAll-ok Holds incremental-Holds e
