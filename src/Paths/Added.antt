-- ===== src/Paths/Added.antt =====
-- Paths that are added to a valid path index.
use mathlib.Core.Path.{subst}
use native.Mathlib.Nat.{mod-eq_of_lt}
use syntext.Prelude.{
  ℕ, ◌+◌, ◌%◌, ◌^◌, ◌<◌, ◌≤◌, ◌≡◌, refl, sym, ap, ◌∙◌, Bool, true, false, ◌||◌, inl, inr, Option,
  none, some, List, [], ◌∷◌, ◌==◌, if◌then◌else◌, length, contains, Bool-cases, Option-cases,
  OptionAll, ==_iff, length-append, arith,
}
use syntext.Index.Bitmap.{RoaringBitmap}
use syntext.Index.Overlay.OrderedIds.{contains-append}
use syntext.Paths.PathIndex.{PathIndex, add_path, add_paths, file_id}
use syntext.Paths.Table.{lookup-insert_id}
use syntext.Paths.Valid.{is_known, Consistent, Consistent-with, add_path-Consistent}

module _ (R : RoaringBitmap) (text : ℕ → List ℕ) where
  -- The index is consistent, the next id is the number of ids given out, and the list of paths has
  -- exactly those with an id.
  pub record Valid (idx : PathIndex R) : Type 0 where
    pub consistent : Consistent R text idx
    pub counted : length idx.file_id_to_path ≡ idx.next_file_id
    pub listed : (p : ℕ) → contains p idx.paths ≡ is_known (file_id R p idx)

  -- A path that stays has its id; another has one exactly where it is added, and none that was given
  -- out before.
  abbrev pub Stays : ℕ → Bool → Option ℕ → Option ℕ → Type 0
  Stays fresh added (some i) new = new ≡ some i
  Stays fresh added none new = (is_known new ≡ added) × OptionAll (λ i. fresh ≤ i) new

  abbrev grown : ℕ → PathIndex R → PathIndex R
  grown p idx = record (add_path R text idx.next_file_id p idx) {
    next_file_id = (idx.next_file_id + 1) % 2 ^ 32;
  }

  pub add_path-file_id :
      (id p q : ℕ) (idx : PathIndex R)
      → file_id R q (add_path R text id p idx) ≡ (if p == q then some id else file_id R q idx)
  unfolding add_path
  add_path-file_id id p q idx = lookup-insert_id q p id idx.path_to_file_id

  known-if :
      (b : Bool) (id : ℕ) (o : Option ℕ) → is_known (if b then some id else o) ≡ (is_known o || b)
  known-if true id none = refl
  known-if true id (some i) = refl
  known-if false id none = refl
  known-if false id (some i) = refl

  pub add_path-listed :
      (id p : ℕ) (idx : PathIndex R)
      → ((q : ℕ) → contains q idx.paths ≡ is_known (file_id R q idx))
      → (q : ℕ)
      → contains q (add_path R text id p idx).paths
        ≡ is_known (file_id R q (add_path R text id p idx))
  add_path-listed id p idx h q =
      rw (add_path-file_id id p q idx, known-if (p == q) id (file_id R q idx), ← h q)
        (unfold add_path contains in contains-append q idx.paths (p ∷ []) ∙ ground arith)

  pub add_path-counted :
      (id p : ℕ) (idx : PathIndex R)
      → length (add_path R text id p idx).file_id_to_path ≡ length idx.file_id_to_path + 1
  unfolding add_path
  add_path-counted id p idx = length-append idx.file_id_to_path (some p ∷ [])

  grown-Valid :
      (p : ℕ) (idx : PathIndex R)
      → file_id R p idx ≡ none
      → idx.next_file_id + 1 < 2 ^ 32
      → Valid idx
      → Valid (grown p idx)
  grown-Valid p idx new fits v = record {
    consistent = Consistent-with R text (add_path R text idx.next_file_id p idx) _ _ (
        subst (λ n. Consistent R text (add_path R text n p idx)) v.counted
          (add_path-Consistent R text p idx new v.consistent));
    counted =
        add_path-counted idx.next_file_id p idx
        ∙ (ap (λ n. n + 1) v.counted ∙ sym (mod-eq_of_lt fits));
    listed = add_path-listed idx.next_file_id p idx v.listed;
  }

  Stays-later :
      (fresh fresh' : ℕ) (a : Bool) (o new : Option ℕ)
      → fresh ≤ fresh'
      → Stays fresh' a o new
      → Stays fresh a o new
  Stays-later fresh fresh' a (some i) new l s = s
  Stays-later fresh fresh' a none none l s = s
  Stays-later fresh fresh' a none (some i) l (s, n) = (s, omega arith)

  -- The path added, or another one.
  Stays-grown :
      (p q : ℕ) (added : Bool) (idx : PathIndex R) (new : Option ℕ)
      → file_id R p idx ≡ none
      → Stays
          (idx.next_file_id + 1)
          added
          (file_id R q (add_path R text idx.next_file_id p idx))
          new
      → Stays idx.next_file_id (p == q || added) (file_id R q idx) new
  Stays-grown p q added idx new none_yet s = elim (Bool-cases (p == q)) [
    | inl same ↦
        let r : p ≡ q = (==_iff p q).0 same in
        let e : new ≡ some idx.next_file_id =
          rw (add_path-file_id idx.next_file_id p q idx, same) at s in
        let none_q : file_id R q idx ≡ none = rw r at none_yet in
        rw (same, none_q, e) (refl, omega arith)
    | inr other ↦ rw other (
        Stays-later idx.next_file_id (idx.next_file_id + 1) added (file_id R q idx) new
          (omega arith) (rw (add_path-file_id idx.next_file_id p q idx, other) at s))
  ]

  Stays-known :
      (p q : ℕ) (added : Bool) (fresh i : ℕ) (o new : Option ℕ)
      → (p ≡ q → o ≡ some i)
      → Stays fresh added o new
      → Stays fresh (p == q || added) o new
  Stays-known p q added fresh i o new h s = elim (Bool-cases (p == q)) [
    | inl same ↦ let e : o ≡ some i = h ((==_iff p q).0 same) in rw e (rw e at s)
    | inr other ↦ rw other s
  ]

  abbrev pub Added : List ℕ → PathIndex R → PathIndex R → Type 0
  Added ps idx idx' =
      Valid idx'
      × ((q : ℕ) → Stays idx.next_file_id (contains q ps) (file_id R q idx) (file_id R q idx'))

  same-Stays : (fresh : ℕ) (o : Option ℕ) → Stays fresh false o o
  same-Stays fresh none = (refl, tt)
  same-Stays fresh (some i) = refl

  pub add_paths-Added :
      (ps : List ℕ) (idx : PathIndex R)
      → idx.next_file_id + length ps < 2 ^ 32
      → Valid idx
      → Added ps idx (add_paths R text ps idx)
  unfolding add_paths contains
  add_paths-Added [] idx fits v = (v, λ q. same-Stays idx.next_file_id (file_id R q idx))
  add_paths-Added (p ∷ ps) idx fits v = elim (Option-cases (file_id R p idx)) [
    | inl new ↦
        let next : (idx.next_file_id + 1) % 2 ^ 32 ≡ idx.next_file_id + 1 =
          mod-eq_of_lt (omega arith) in
        let (v', s) =
          add_paths-Added ps (grown p idx) (rw next (omega arith))
            (grown-Valid p idx new (omega arith) v) in
        rw (new, add_paths)
          (
            v',
            λ q. Stays-grown p q (contains q ps) idx _ new (
                subst
                  (λ n.
                    Stays n (contains q ps) (file_id R q (grown p idx))
                      (file_id R q (add_paths R text ps (grown p idx))))
                  next (s q)),
          )
    | inr (i, known) ↦
        let (v', s) = add_paths-Added ps idx (omega arith) v in
        rw (known, add_paths)
          (
            v',
            λ q.
                Stays-known p q (contains q ps) idx.next_file_id i (file_id R q idx) _
                  (λ e. rw e at known) (s q),
          )
  ]
