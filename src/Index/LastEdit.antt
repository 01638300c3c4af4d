-- ===== src/Index/LastEdit.antt =====
-- A commit takes the last edit of each path, also after a failed commit put its edits back.
use syntext.Prelude.{
  ℕ, ◌≡◌, refl, ap, ◌∙◌, append-nil, Bool, true, false, not, ◌&&◌, inl, inr, Option, none, some,
  List, [], ◌∷◌, ◌++◌, ◌==◌, contains, if◌then◌else◌, Bool-cases, Option-cases, ==_iff, arith,
}
use syntext.Index.Pending.{
  EditKind, changed, deleted, FileEdit, PendingState, TakeResult, remove_path, fold_edit,
  fold_edits, take_for_commit, keep_last, requeue_uncommitted,
}

abbrev last_of : Option EditKind → ℕ → FileEdit → Option EditKind
last_of (some k) p e = some k
last_of none p e = if e.path == p then some e.kind else none

-- The kind of the last edit of a path.
unfoldable pub last_kind : ℕ → List FileEdit → Option EditKind
last_kind p [] = none
last_kind p (e ∷ es) = last_of (last_kind p es) p e

-- What the last edit says of membership, and what held before where there is none.
abbrev pub ends_changed : Option EditKind → Bool → Bool
ends_changed none before = before
ends_changed (some changed) before = true
ends_changed (some deleted) before = false

abbrev pub ends_deleted : Option EditKind → Bool → Bool
ends_deleted none before = before
ends_deleted (some changed) before = false
ends_deleted (some deleted) before = true

pub contains-remove_path :
    (p q : ℕ) (xs : List ℕ) → contains p (remove_path q xs) ≡ (contains p xs && not (q == p))
unfolding contains remove_path
contains-remove_path p q [] = refl
contains-remove_path p q (x ∷ xs) = elim (Bool-cases (x == q)) [
  | inl same ↦
      let e : x ≡ q = (==_iff x q).0 same in
      rw same (rw e (ground (arith, contains-remove_path p q xs)))
  | inr other ↦ rw other (elim (Bool-cases (x == p)) [
    | inl here ↦ let e : x ≡ p = (==_iff x p).0 here in ground (arith, contains-remove_path p q xs)
    | inr away ↦ ground (arith, contains-remove_path p q xs)
  ])
]

abbrev Folded : ℕ → Option EditKind → List ℕ × List ℕ → List ℕ × List ℕ → Type 0
Folded p k before after =
    (contains p after.0 ≡ ends_changed k (contains p before.0))
    × (contains p after.1 ≡ ends_deleted k (contains p before.1))

edit-Folded :
    (p q : ℕ) (k : EditKind) (sets : List ℕ × List ℕ)
    → Folded p
        (last_of none p (record { path = q; kind = k }))
        sets
        (fold_edit (record { path = q; kind = k }) sets)
unfolding contains
edit-Folded p q changed (c, d) = elim (Bool-cases (q == p)) [
  | inl same ↦ rw same (refl, ground (arith, contains-remove_path p q d))
  | inr other ↦ rw other (refl, ground (arith, contains-remove_path p q d))
]
edit-Folded p q deleted (c, d) = elim (Bool-cases (q == p)) [
  | inl same ↦ rw same (ground (arith, contains-remove_path p q c), refl)
  | inr other ↦ rw other (ground (arith, contains-remove_path p q c), refl)
]

Folded-twice :
    (p : ℕ) (k : Option EditKind) (e : FileEdit) (a b c : List ℕ × List ℕ)
    → Folded p (last_of none p e) a b
    → Folded p k b c
    → Folded p (last_of k p e) a c
Folded-twice p none e a b c (f, g) (f', g') = (rw (← f) f', rw (← g) g')
Folded-twice p (some changed) e a b c f g = g
Folded-twice p (some deleted) e a b c f g = g

fold_edits-Folded :
    (p : ℕ) (es : List FileEdit) (sets : List ℕ × List ℕ)
    → Folded p (last_kind p es) sets (fold_edits es sets)
unfolding fold_edits last_kind
fold_edits-Folded p [] sets = (refl, refl)
fold_edits-Folded p (e ∷ es) sets =
    Folded-twice p (last_kind p es) e sets (fold_edit e sets) (fold_edits es (fold_edit e sets))
      (edit-Folded p e.path e.kind sets) (fold_edits-Folded p es (fold_edit e sets))

-- A commit takes a path as changed where its last edit is a change, and as deleted where it is a
-- deletion; it drains the edits as they came.
pub take_for_commit_last :
    (s : PendingState) (p : ℕ)
    → (contains p (TakeResult.newly_changed (take_for_commit s).0)
        ≡ ends_changed (last_kind p s.uncommitted) false)
      × (contains p (TakeResult.newly_deleted (take_for_commit s).0)
          ≡ ends_deleted (last_kind p s.uncommitted) false)
      × (TakeResult.drained (take_for_commit s).0 ≡ s.uncommitted)
      × (PendingState.uncommitted (take_for_commit s).1 ≡ [])
unfolding take_for_commit contains
take_for_commit_last s p =
    let (f, g) = fold_edits-Folded p s.uncommitted ([], []) in (f, g, refl, refl)

abbrev pub is_there : Option EditKind → Bool
is_there none = false
is_there (some k) = true

-- One edit for each path at most.
unfoldable pub one_per_path : List FileEdit → Bool
unfolding last_kind
one_per_path [] = true
one_per_path (e ∷ es) = not (is_there (last_kind e.path es)) && one_per_path es

-- The paths seen are those of the edits kept.
keep_last-seen :
    (p : ℕ) (es : List FileEdit)
    → (last_kind p (keep_last es).0 ≡ last_kind p es)
      × (contains p (keep_last es).1 ≡ is_there (last_kind p es))
unfolding keep_last last_kind contains
keep_last-seen p [] = (refl, refl)
keep_last-seen p (e ∷ es) =
    let (kind, seen) = keep_last-seen p es in
    elim (Bool-cases (contains e.path (keep_last es).1)) [
      | inl later ↦ elim (Bool-cases (e.path == p)) [
        | inl same ↦
            let eq : e.path ≡ p = (==_iff e.path p).0 same in
            let there : contains p (keep_last es).1 ≡ true = rw eq at later in
            elim (Option-cases (last_kind p es)) [
              | inl gone ↦ let no : contains p (keep_last es).1 ≡ false = rw (seen, gone) refl in cc
              | inr (k, have) ↦ rw (later, keep_last, kind, have) (refl, rw there refl)
            ]
        | inr other ↦ elim (Option-cases (last_kind p es)) [
          | inl gone ↦ rw (later, keep_last, kind, gone, other) (refl, rw (seen, gone) refl)
          | inr (k, have) ↦ rw (later, keep_last, kind, have) (refl, rw (seen, have) refl)
        ]
      ]
      | inr new ↦ elim (Bool-cases (e.path == p)) [
        | inl same ↦ elim (Option-cases (last_kind p es)) [
          | inl gone ↦ rw (new, keep_last, kind, gone, same) (refl, refl)
          | inr (k, have) ↦ rw (new, keep_last, kind, have, same) (refl, refl)
        ]
        | inr other ↦ elim (Option-cases (last_kind p es)) [
          | inl gone ↦ rw (new, keep_last, kind, gone, other) (refl, rw (seen, gone) refl)
          | inr (k, have) ↦ rw (new, keep_last, kind, have, other) (refl, rw (seen, have) refl)
        ]
      ]
    ]

keep_last-one : (es : List FileEdit) → one_per_path (keep_last es).0 ≡ true
unfolding keep_last one_per_path
keep_last-one [] = refl
keep_last-one (e ∷ es) =
    let (kind, seen) = keep_last-seen e.path es in
    let later = keep_last-one es in
    elim (Bool-cases (contains e.path (keep_last es).1)) [
      | inl there ↦ rw there later
      | inr new ↦ elim (Option-cases (last_kind e.path es)) [
        | inl gone ↦ rw (new, keep_last, kind, gone) later
        | inr (k, have) ↦
            let yes : contains e.path (keep_last es).1 ≡ true = rw (seen, have) refl in cc
      ]
    ]

-- The edits of the first list that neither it nor the second one overrules with a later edit of the
-- same path, in their order.
unfoldable pub still_last : List FileEdit → List FileEdit → List FileEdit
still_last [] after = []
still_last (e ∷ es) after =
    let rest = still_last es after in
    if is_there (last_kind e.path (es ++ after)) then rest else e ∷ rest

keep_last-still_last :
    (es after : List FileEdit)
    → (keep_last (es ++ after)).0 ≡ still_last es after ++ (keep_last after).0
unfolding keep_last still_last
keep_last-still_last [] after = refl
keep_last-still_last (e ∷ es) after =
    let (kind, seen) = keep_last-seen e.path (es ++ after) in
    let later = keep_last-still_last es after in
    elim (Bool-cases (is_there (last_kind e.path (es ++ after)))) [
      | inl there ↦ rw (seen, there) later
      | inr new ↦ rw (seen, new) (ap (◌∷◌ e) later)
    ]

keep_last_alone : (es : List FileEdit) → (keep_last es).0 ≡ still_last es []
keep_last_alone es =
    let split = keep_last-still_last es [] in
    unfold keep_last in rw (append-nil es, append-nil (still_last es [])) at split

-- Where a failed commit puts back at least one edit, the edits put back come first and those that
-- came meanwhile after them, each list in its order and without the edits that a later one of the
-- same path overrules. So each path keeps its last edit of the two lists, and one edit for each path
-- is left.
pub requeue_uncommitted_last :
    (e : FileEdit) (edits : List FileEdit) (s : PendingState) (p : ℕ)
    → (PendingState.uncommitted (requeue_uncommitted (e ∷ edits) s)
        ≡ still_last (e ∷ edits) s.uncommitted ++ still_last s.uncommitted [])
      × (last_kind p (PendingState.uncommitted (requeue_uncommitted (e ∷ edits) s))
          ≡ last_kind p ((e ∷ edits) ++ s.uncommitted))
      × (one_per_path (PendingState.uncommitted (requeue_uncommitted (e ∷ edits) s)) ≡ true)
unfolding requeue_uncommitted
requeue_uncommitted_last e edits s p = (
  keep_last-still_last (e ∷ edits) s.uncommitted
      ∙ ap (still_last (e ∷ edits) s.uncommitted ++◌) (keep_last_alone s.uncommitted),
  (keep_last-seen p ((e ∷ edits) ++ s.uncommitted)).0,
  keep_last-one ((e ∷ edits) ++ s.uncommitted),
)
