-- ===== src/Paths/Valid.antt =====
-- The path index stays consistent with itself.
use mathlib.Core.Option.{some-injective}
use syntext.Prelude.{
  ℕ, zero, suc, ◌≡◌, refl, sym, ap, ◌∙◌, Bool, true, false, inl, inr, Option, none, some, List, [],
  ◌∷◌, ◌++◌, ◌==◌, if◌then◌else◌, length, get_elem?, Bool-cases, ==_iff, arith,
}
use syntext.Index.Bitmap.{RoaringBitmap}
use syntext.Paths.PathIndex.{
  KeyMap, PathIndex, lookup_id, insert_id, remove_id, extensions, components, insert_keys,
  remove_keys, add_path, remove_path, no_paths,
}
use syntext.Paths.Metadata.{in_files, lists_key, insert_keys-has, remove_keys-has}
use syntext.Paths.Table.{
  lookup-insert_id, lookup-remove_id, get_elem?-last, get_elem?-end, tombstone-Cleared,
}

-- The path at a file id has the key.
abbrev pub has_key : (ℕ → List (List ℕ)) → List ℕ → Option (Option ℕ) → Bool
has_key keys k none = false
has_key keys k (some none) = false
has_key keys k (some (some p)) = lists_key k (keys p)

abbrev pub is_known : Option ℕ → Bool
is_known none = false
is_known (some i) = true

module _ (R : RoaringBitmap) (text : ℕ → List ℕ) where
  -- The map lists under a key the ids of the paths that have it.
  abbrev pub IsIndexed : (ℕ → List (List ℕ)) → List (Option ℕ) → KeyMap R → Type 0
  IsIndexed keys files m =
      (k : List ℕ) (i : ℕ) → in_files R (m k) i ≡ has_key keys k (get_elem? files i)

  -- The two tables are inverse to one another, ids are given out in turn, and the maps of extensions
  -- and of components list under a key exactly the files whose path has it.
  pub record Consistent (idx : PathIndex R) : Type 0 where
    pub to_path :
        (p i : ℕ)
        → lookup_id p idx.path_to_file_id ≡ some i
        → get_elem? idx.file_id_to_path i ≡ some (some p)
    pub to_id :
        (p i : ℕ)
        → get_elem? idx.file_id_to_path i ≡ some (some p)
        → lookup_id p idx.path_to_file_id ≡ some i
    pub by_extension : IsIndexed (extensions text) idx.file_id_to_path idx.extension_to_files
    pub by_component : IsIndexed (components text) idx.file_id_to_path idx.component_to_files

  insert_keys-IsIndexed :
      (keys : ℕ → List (List ℕ)) (files : List (Option ℕ)) (m : KeyMap R) (p : ℕ)
      → IsIndexed keys files m
      → IsIndexed keys (files ++ (some p ∷ [])) (insert_keys R (keys p) (length files) m)
  insert_keys-IsIndexed keys files m p h k i =
      rw (insert_keys-has R (keys p) (length files) m k i, get_elem?-last files (some p) i)
        (elim (Bool-cases (length files == i)) [
          | inl here ↦
              let e : length files ≡ i = (==_iff (length files) i).0 here in
              let none_yet : has_key keys k (get_elem? files i) ≡ false =
                (rw (← e) (rw (get_elem?-end files) refl)) in
              rw here (ground (arith, h k i))
          | inr other ↦ rw other (ground (arith, h k i))
        ])

  remove_keys-IsIndexed :
      (keys : ℕ → List (List ℕ)) (files cleared : List (Option ℕ)) (m : KeyMap R) (p id : ℕ)
      → get_elem? files id ≡ some (some p)
      → ((i : ℕ) → get_elem? cleared i ≡ (if id == i then some none else get_elem? files i))
      → IsIndexed keys files m
      → IsIndexed keys cleared (remove_keys R (keys p) id m)
  remove_keys-IsIndexed keys files cleared m p id at c h k i =
      rw (remove_keys-has R (keys p) id m k i, c i)
        (elim (Bool-cases (id == i)) [
          | inl here ↦
              let e : id ≡ i = (==_iff id i).0 here in
              let had : in_files R (m k) i ≡ lists_key k (keys p) =
                h k i ∙ (ap (has_key keys k) (ap (get_elem? files) (sym e) ∙ at)) in
              rw here (ground arith)
          | inr other ↦ rw other (ground (arith, h k i))
        ])

  -- What stands in the table stands before its end.
  not_last :
      (files : List (Option ℕ)) (x : Option ℕ) (i : ℕ)
      → get_elem? files i ≡ some x
      → (length files == i) ≡ false
  not_last [] x i h = cc
  not_last (y ∷ files) x zero h = ground arith
  not_last (y ∷ files) x (suc i) h = ground (arith, not_last files x i h)

  last_to_id :
      (m : List (ℕ × ℕ)) (files : List (Option ℕ)) (p q i : ℕ)
      → lookup_id p m ≡ none
      → (get_elem? files i ≡ some (some q) → lookup_id q m ≡ some i)
      → get_elem? (files ++ (some p ∷ [])) i ≡ some (some q)
      → lookup_id q (insert_id p (length files) m) ≡ some i
  last_to_id m files p q i new h e = elim (Bool-cases (length files == i)) [
    | inl last ↦
        let r : length files ≡ i = (==_iff (length files) i).0 last in
        let there : ◌≡◌ {A = Option (Option ℕ)} (some (some p)) (some (some q)) =
          rw (get_elem?-last files (some p) i, last) at e in
        let same : p ≡ q = cc in
        rw (lookup-insert_id q p (length files) m, (==_iff p q).1 same, r) refl
    | inr before ↦
        let there : lookup_id q m ≡ some i =
          h (rw (get_elem?-last files (some p) i, before) at e) in
        rw (lookup-insert_id q p (length files) m, differs p q i new there) there
  ]
    where
      differs : (p q i : ℕ) → lookup_id p m ≡ none → lookup_id q m ≡ some i → (p == q) ≡ false
      differs p q i new there = elim (Bool-cases (p == q)) [
        | inl same ↦
            let r : p ≡ q = (==_iff p q).0 same in
            let gone : lookup_id q m ≡ none = rw (← r) new in cc
        | inr other ↦ other
      ]

  last_to_path :
      (m : List (ℕ × ℕ)) (files : List (Option ℕ)) (p q i : ℕ)
      → (lookup_id q m ≡ some i → get_elem? files i ≡ some (some q))
      → lookup_id q (insert_id p (length files) m) ≡ some i
      → get_elem? (files ++ (some p ∷ [])) i ≡ some (some q)
  last_to_path m files p q i h e = elim (Bool-cases (p == q)) [
    | inl same ↦
        let r : p ≡ q = (==_iff p q).0 same in
        let there : ◌≡◌ {A = Option ℕ} (some (length files)) (some i) =
          rw (lookup-insert_id q p (length files) m, same) at e in
        let last : (length files == i) ≡ true =
          (==_iff (length files) i).1 (some-injective (length files) i there) in
        rw (get_elem?-last files (some p) i, last, r) refl
    | inr other ↦
        let old : get_elem? files i ≡ some (some q) =
          h (rw (lookup-insert_id q p (length files) m, other) at e) in
        rw (get_elem?-last files (some p) i, not_last files (some q) i old) old
  ]

  pub add_path-Consistent :
      (p : ℕ) (idx : PathIndex R)
      → lookup_id p idx.path_to_file_id ≡ none
      → Consistent idx
      → Consistent (add_path R text (length idx.file_id_to_path) p idx)
  unfolding add_path
  add_path-Consistent p idx new c = record {
    to_path = λ q i h. last_to_path idx.path_to_file_id idx.file_id_to_path p q i (c.to_path q i) h;
    to_id = λ q i h. last_to_id idx.path_to_file_id idx.file_id_to_path p q i new (c.to_id q i) h;
    by_extension =
        insert_keys-IsIndexed (extensions text) idx.file_id_to_path idx.extension_to_files p
          c.by_extension;
    by_component =
        insert_keys-IsIndexed (components text) idx.file_id_to_path idx.component_to_files p
          c.by_component;
  }

  removed_to_path :
      (m : List (ℕ × ℕ)) (files cleared : List (Option ℕ)) (p id q i : ℕ)
      → get_elem? files id ≡ some (some p)
      → (get_elem? cleared i ≡ (if id == i then some none else get_elem? files i))
      → (lookup_id q m ≡ some i → get_elem? files i ≡ some (some q))
      → lookup_id q (remove_id p m) ≡ some i
      → get_elem? cleared i ≡ some (some q)
  removed_to_path m files cleared p id q i at c h e = elim (Bool-cases (p == q)) [
    | inl same ↦
        let gone : ◌≡◌ {A = Option ℕ} none (some i) = rw (lookup-remove_id q p m, same) at e in cc
    | inr other ↦
        let there : get_elem? files i ≡ some (some q) =
          h (rw (lookup-remove_id q p m, other) at e) in
        elim (Bool-cases (id == i)) [
          | inl here ↦
              let r : id ≡ i = (==_iff id i).0 here in
              let both : ◌≡◌ {A = Option (Option ℕ)} (some (some p)) (some (some q)) =
                sym at ∙ ap (get_elem? files) r ∙ there in
              let same : p ≡ q = cc in let is_same : (p == q) ≡ true = (==_iff p q).1 same in cc
          | inr away ↦ rw (c, away) there
        ]
  ]

  removed_to_id :
      (m : List (ℕ × ℕ)) (files cleared : List (Option ℕ)) (p id q i : ℕ)
      → lookup_id p m ≡ some id
      → (get_elem? cleared i ≡ (if id == i then some none else get_elem? files i))
      → (get_elem? files i ≡ some (some q) → lookup_id q m ≡ some i)
      → get_elem? cleared i ≡ some (some q)
      → lookup_id q (remove_id p m) ≡ some i
  removed_to_id m files cleared p id q i known c h e = elim (Bool-cases (id == i)) [
    | inl here ↦
        let gone : ◌≡◌ {A = Option (Option ℕ)} (some none) (some (some q)) = rw (c, here) at e in cc
    | inr away ↦
        let there : lookup_id q m ≡ some i = h (rw (c, away) at e) in
        elim (Bool-cases (p == q)) [
          | inl same ↦
              let r : p ≡ q = (==_iff p q).0 same in
              let both : ◌≡◌ {A = Option ℕ} (some id) (some i) =
                sym known ∙ ap (λ x. lookup_id x m) r ∙ there in
              let is_same : (id == i) ≡ true = (==_iff id i).1 (some-injective id i both) in cc
          | inr other ↦ rw (lookup-remove_id q p m, other) there
        ]
  ]

  -- The removal of a known path stays in bounds, and leaves the index consistent.
  pub remove_path-Consistent :
      (p id : ℕ) (idx : PathIndex R)
      → lookup_id p idx.path_to_file_id ≡ some id
      → Consistent idx
      → (idx' : PathIndex R) × (remove_path R text id p idx ≡ some idx')
        × Consistent idx'
        × (idx'.path_to_file_id ≡ remove_id p idx.path_to_file_id)
        × (length idx'.file_id_to_path ≡ length idx.file_id_to_path)
        × (idx'.paths ≡ idx.paths)
        × (idx'.next_file_id ≡ idx.next_file_id)
  unfolding remove_path
  remove_path-Consistent p id idx known c =
      let at = c.to_path p id known in
      let (cleared, e, n, gets) = tombstone-Cleared id idx.file_id_to_path at in
      (
        record idx {
          path_to_file_id = remove_id p idx.path_to_file_id;
          file_id_to_path = cleared;
          extension_to_files = remove_keys R (extensions text p) id idx.extension_to_files;
          component_to_files = remove_keys R (components text p) id idx.component_to_files;
        },
        rw (e, remove_path) refl,
        record {
          to_path = λ q i h.
              removed_to_path idx.path_to_file_id idx.file_id_to_path cleared p id q i at (gets i)
                (c.to_path q i) h;
          to_id = λ q i h.
              removed_to_id idx.path_to_file_id idx.file_id_to_path cleared p id q i known (gets i)
                (c.to_id q i) h;
          by_extension =
              remove_keys-IsIndexed (extensions text) idx.file_id_to_path cleared
                idx.extension_to_files p id at gets c.by_extension;
          by_component =
              remove_keys-IsIndexed (components text) idx.file_id_to_path cleared
                idx.component_to_files p id at gets c.by_component;
        },
        refl,
        n,
        refl,
        refl,
      )

  pub Consistent-with :
      (idx : PathIndex R) (ps : List ℕ) (n : ℕ)
      → Consistent idx
      → Consistent (record idx { paths = ps; next_file_id = n })
  Consistent-with idx ps n c = record {
    to_path = c.to_path;
    to_id = c.to_id;
    by_extension = c.by_extension;
    by_component = c.by_component;
  }

  pub no_paths-Consistent : Consistent (no_paths R)
  unfolding lookup_id
  no_paths-Consistent = record {
    to_path = λ p i h. cc;
    to_id = λ p i h. cc;
    by_extension = λ k i. refl;
    by_component = λ k i. refl;
  }
