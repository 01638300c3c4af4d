-- ===== src/Index/Overlay/Postings.antt =====
-- What stands in the overlay's posting lists, after each step of a build.
use syntext.Prelude.{
  ℕ, suc, ◌<◌, ◌≤◌, ◌≡◌, refl, Bool, true, false, not, ◌&&◌, ◌||◌, inl, inr, Option, none, some,
  List, [], ◌∷◌, ◌++◌, ◌==◌, if◌then◌else◌, is_empty, contains, Bool-cases, OptionAll, arith,
}
use syntext.Index.Overlay.{
  OverlayDoc, GramIndex, Building, or_default, map_list, drop_empty, push_posting, push_postings,
  remove_postings, retain_others, is_stale, remove_stale, keep_docs, push_doc,
}
use syntext.Index.Overlay.OrderedIds.{contains-append, retain_others-contains}

-- A document with this id has the gram.
abbrev pub posts : List OverlayDoc → ℕ → ℕ → Bool
posts [] g d = false
posts (x ∷ xs) g d = (x.doc_id == d && contains g x.grams) || posts xs g d

-- The ids ascend from `lo` on, and are below `hi`.
abbrev pub Numbered : ℕ → ℕ → List OverlayDoc → Type 0
Numbered lo hi [] = lo ≤ hi
Numbered lo hi (x ∷ xs) = (lo ≤ x.doc_id) × Numbered (suc x.doc_id) hi xs

-- The index posts what these documents have.
abbrev pub IsPosted : List OverlayDoc → GramIndex → Type 0
IsPosted docs index = (g d : ℕ) → contains d (or_default (index g)) ≡ posts docs g d

abbrev pub NoEmptyList : GramIndex → Type 0
NoEmptyList index = (g : ℕ) → OptionAll (λ ids. is_empty ids ≡ false) (index g)

push_posting-contains :
    (g0 id : ℕ) (index : GramIndex) (g d : ℕ)
    → contains d (or_default (push_posting g0 id index g))
      ≡ (contains d (or_default (index g)) || (id == d && g0 == g))
unfolding push_posting contains
push_posting-contains g0 id index g d = elim (Bool-cases (g0 == g)) [
  | inl same ↦ rw same (ground (arith, contains-append d (or_default (index g)) (id ∷ [])))
  | inr other ↦ rw other (ground arith)
]

push_postings-contains :
    (gs : List ℕ) (id : ℕ) (index : GramIndex) (g d : ℕ)
    → contains d (or_default (push_postings gs id index g))
      ≡ (contains d (or_default (index g)) || (id == d && contains g gs))
unfolding push_postings contains
push_postings-contains [] id index g d = ground arith
push_postings-contains (g0 ∷ gs) id index g d = ground (
  arith,
  push_postings-contains gs id (push_posting g0 id index) g d,
  push_posting-contains g0 id index g d,
)

remove_postings-contains :
    (gs : List ℕ) (id : ℕ) (index : GramIndex) (g d : ℕ)
    → contains d (or_default (remove_postings gs id index g))
      ≡ (contains d (or_default (index g)) && not (id == d && contains g gs))
unfolding remove_postings contains
remove_postings-contains [] id index g d = ground arith
remove_postings-contains (g0 ∷ gs) id index g d = elim (Bool-cases (g0 == g)) [
  | inl same ↦
      rw
        (
          remove_postings-contains gs id
              (λ g. if g0 == g then map_list (retain_others id) (index g) else index g) g d,
          same,
        )
        (elim (index g)
          as (λ o.
            (contains d (or_default (map_list (retain_others id) o))
              && not (id == d && contains g gs))
            ≡ (contains d (or_default o) && not (id == d && true))) [
              | none ↦ unfold contains in refl
              | some ids ↦ ground (arith, retain_others-contains d id ids)
            ])
  | inr other ↦
      rw
        (
          remove_postings-contains gs id
              (λ g. if g0 == g then map_list (retain_others id) (index g) else index g) g d,
          other,
        )
        refl
]

drop_empty-contains :
    (o : Option (List ℕ)) (d : ℕ)
    → contains d (or_default (drop_empty o)) ≡ contains d (or_default o)
drop_empty-contains none d = refl
drop_empty-contains (some []) d = refl
drop_empty-contains (some (x ∷ xs)) d = refl

is_empty-append : (xs : List ℕ) (x : ℕ) → is_empty (xs ++ (x ∷ [])) ≡ false
is_empty-append [] x = refl
is_empty-append (y ∷ ys) x = refl

Numbered-from :
    (lo lo' hi : ℕ) (docs : List OverlayDoc) → lo ≤ lo' → Numbered lo' hi docs → Numbered lo hi docs
Numbered-from lo lo' hi [] l h = omega arith
Numbered-from lo lo' hi (x ∷ xs) l (h, hs) = (omega arith, hs)

pub Numbered-append :
    (lo hi : ℕ) (docs : List OverlayDoc) (x : OverlayDoc)
    → Numbered lo hi docs
    → x.doc_id ≡ hi
    → Numbered lo (suc hi) (docs ++ (x ∷ []))
Numbered-append lo hi [] x h e = (omega arith, omega arith)
Numbered-append lo hi (y ∷ ys) x (h, hs) e = (h, Numbered-append (suc y.doc_id) hi ys x hs e)

posts-below :
    (lo hi : ℕ) (docs : List OverlayDoc) (g d : ℕ)
    → Numbered lo hi docs
    → d < lo
    → posts docs g d ≡ false
posts-below lo hi [] g d h l = refl
posts-below lo hi (x ∷ xs) g d (h, hs) l = ground (arith, posts-below (suc x.doc_id) hi xs g d hs)

pub posts-append :
    (xs ys : List OverlayDoc) (g d : ℕ) → posts (xs ++ ys) g d ≡ (posts xs g d || posts ys g d)
posts-append [] ys g d = refl
posts-append (x ∷ xs) ys g d = ground (arith, posts-append xs ys g d)

module _ (removed changed : List ℕ) where
  abbrev posts_stale : List OverlayDoc → ℕ → ℕ → Bool
  posts_stale [] g d = false
  posts_stale (x ∷ xs) g d =
      (is_stale removed changed x && (x.doc_id == d && contains g x.grams)) || posts_stale xs g d

  remove_stale-contains :
      (docs : List OverlayDoc) (index : GramIndex) (g d : ℕ)
      → contains d (or_default (remove_stale removed changed docs index g))
        ≡ (contains d (or_default (index g)) && not (posts_stale docs g d))
  unfolding remove_stale
  remove_stale-contains [] index g d = ground arith
  remove_stale-contains (x ∷ xs) index g d = elim (Bool-cases (is_stale removed changed x)) [
    | inl stale ↦
        rw (stale, remove_stale)
          (ground (
            arith,
            remove_stale-contains xs (remove_postings x.grams x.doc_id index) g d,
            remove_postings-contains x.grams x.doc_id index g d,
          ))
    | inr fresh ↦ rw (fresh, remove_stale) (ground (arith, remove_stale-contains xs index g d))
  ]

  posts_stale_none :
      (docs : List OverlayDoc) (g d : ℕ) → posts docs g d ≡ false → posts_stale docs g d ≡ false
  posts_stale_none [] g d h = refl
  posts_stale_none (x ∷ xs) g d h = ground (arith, posts_stale_none xs g d)

  pub keep_docs-below :
      (lo hi : ℕ) (docs : List OverlayDoc)
      → Numbered lo hi docs
      → Numbered lo hi (keep_docs removed changed docs)
  unfolding keep_docs
  keep_docs-below lo hi [] h = h
  keep_docs-below lo hi (x ∷ xs) (h, hs) = elim (Bool-cases (is_stale removed changed x)) [
    | inl stale ↦ rw stale (
        Numbered-from lo (suc x.doc_id) hi (keep_docs removed changed xs) (omega arith)
          (keep_docs-below (suc x.doc_id) hi xs hs))
    | inr fresh ↦ rw fresh (h, keep_docs-below (suc x.doc_id) hi xs hs)
  ]

  keep_docs-posts :
      (lo hi : ℕ) (docs : List OverlayDoc) (g d : ℕ)
      → Numbered lo hi docs
      → (posts docs g d && not (posts_stale docs g d)) ≡ posts (keep_docs removed changed docs) g d
  unfolding keep_docs
  keep_docs-posts lo hi [] g d h = refl
  keep_docs-posts lo hi (x ∷ xs) g d (h, hs) = elim (Bool-cases (x.doc_id == d)) [
    | inl here ↦
        let none_below : posts xs g d ≡ false =
          posts-below (suc x.doc_id) hi xs g d hs (ground arith) in
        let kept = keep_docs-posts (suc x.doc_id) hi xs g d hs in
        let stale = posts_stale_none xs g d none_below in
        elim (Bool-cases (is_stale removed changed x)) [
          | inl old ↦ rw old (ground arith)
          | inr fresh ↦ rw fresh (ground arith)
        ]
    | inr away ↦
        let kept = keep_docs-posts (suc x.doc_id) hi xs g d hs in
        elim (Bool-cases (is_stale removed changed x)) [
          | inl old ↦ rw old (ground arith)
          | inr fresh ↦ rw fresh (ground arith)
        ]
  ]

  pub remove_stale-IsPosted :
      (lo hi : ℕ) (docs : List OverlayDoc) (index : GramIndex)
      → Numbered lo hi docs
      → IsPosted docs index
      → IsPosted
          (keep_docs removed changed docs)
          (λ g. drop_empty (remove_stale removed changed docs index g))
  remove_stale-IsPosted lo hi docs index h p g d = ground (
    arith,
    drop_empty-contains (remove_stale removed changed docs index g) d,
    remove_stale-contains docs index g d,
    keep_docs-posts lo hi docs g d h,
    p g d,
  )

pub push_doc-IsPosted :
    (id next path : ℕ) (content grams : List ℕ) (b : Building)
    → IsPosted b.docs b.gram_index
    → IsPosted
        (push_doc id next path content grams b).docs
        (push_doc id next path content grams b).gram_index
unfolding push_doc
push_doc-IsPosted id next path content grams b p g d = ground (
  arith,
  push_postings-contains grams id b.gram_index g d,
  posts-append b.docs (record { doc_id = id; path = path; content = content; grams = grams } ∷ []) g
      d,
  p g d,
)

push_posting-NoEmptyList :
    (g0 id : ℕ) (index : GramIndex) → NoEmptyList index → NoEmptyList (push_posting g0 id index)
unfolding push_posting
push_posting-NoEmptyList g0 id index h g = elim (Bool-cases (g0 == g)) [
  | inl same ↦ rw same (is_empty-append (or_default (index g)) id)
  | inr other ↦ rw other (h g)
]

pub push_postings-NoEmptyList :
    (gs : List ℕ) (id : ℕ) (index : GramIndex)
    → NoEmptyList index
    → NoEmptyList (push_postings gs id index)
unfolding push_postings
push_postings-NoEmptyList [] id index h = h
push_postings-NoEmptyList (g ∷ gs) id index h =
    push_postings-NoEmptyList gs id (push_posting g id index)
      (push_posting-NoEmptyList g id index h)

pub drop_empty-NoEmptyList : (index : GramIndex) → NoEmptyList (λ g. drop_empty (index g))
drop_empty-NoEmptyList index g =
    elim (index g) as (λ o. OptionAll (λ ids. is_empty ids ≡ false) (drop_empty o)) [
      | none ↦ tt
      | some ids ↦
          elim ids as (λ l. OptionAll (λ ids. is_empty ids ≡ false) (drop_empty (some l))) [
            | [] ↦ tt
            | x ∷ xs ↦ refl
          ]
    ]
