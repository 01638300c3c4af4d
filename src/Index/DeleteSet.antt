-- ===== src/Index/DeleteSet.antt =====
-- src/index/pending.rs: `compute_delete_set`. The map from paths to base doc ids is a function; a
-- hash set is a list.
use syntext.Prelude.{
  ℕ, ◌≡◌, Bool, false, ◌||◌, Option, none, some, List, [], ◌∷◌, ◌++◌, contains, arith,
}
use syntext.Index.Bitmap.{RoaringBitmap}

module _ (R : RoaringBitmap) (base_path_doc_ids : ℕ → Option (List ℕ)) where
  open R use {Bitmap, insert, has, has-insert}

  unfoldable pub insert_ids : List ℕ → Bitmap → Bitmap
  insert_ids [] delete_set = delete_set
  insert_ids (id ∷ ids) delete_set = insert_ids ids (insert id delete_set)

  abbrev pub insert_found : Option (List ℕ) → Bitmap → Bitmap
  insert_found none delete_set = delete_set
  insert_found (some ids) delete_set = insert_ids ids delete_set

  unfoldable pub delete_paths : List ℕ → Bitmap → Bitmap
  unfolding insert_ids
  delete_paths [] delete_set = delete_set
  delete_paths (path ∷ paths) delete_set =
      delete_paths paths (insert_found (base_path_doc_ids path) delete_set)

  unfoldable pub compute_delete_set : List ℕ → List ℕ → Bitmap → Bitmap
  unfolding delete_paths
  compute_delete_set modified_paths deleted_paths prev =
      delete_paths (modified_paths ++ deleted_paths) prev

  abbrev pub lists_doc : Option (List ℕ) → ℕ → Bool
  lists_doc none d = false
  lists_doc (some ids) d = contains d ids

  -- One of the paths has the document in the base.
  abbrev pub doc_of_any : List ℕ → ℕ → Bool
  doc_of_any [] d = false
  doc_of_any (path ∷ paths) d = lists_doc (base_path_doc_ids path) d || doc_of_any paths d

  insert_ids-has :
      (ids : List ℕ) (b : Bitmap) (d : ℕ) → has (insert_ids ids b) d ≡ (has b d || contains d ids)
  unfolding insert_ids contains
  insert_ids-has [] b d = ground arith
  insert_ids-has (id ∷ ids) b d =
      ground (arith, insert_ids-has ids (insert id b) d, has-insert id b d)

  insert_found-has :
      (found : Option (List ℕ)) (b : Bitmap) (d : ℕ)
      → has (insert_found found b) d ≡ (has b d || lists_doc found d)
  insert_found-has none b d = ground arith
  insert_found-has (some ids) b d = insert_ids-has ids b d

  delete_paths-has :
      (paths : List ℕ) (b : Bitmap) (d : ℕ)
      → has (delete_paths paths b) d ≡ (has b d || doc_of_any paths d)
  unfolding delete_paths
  delete_paths-has [] b d = ground arith
  delete_paths-has (path ∷ paths) b d = ground (
    arith,
    delete_paths-has paths (insert_found (base_path_doc_ids path) b) d,
    insert_found-has (base_path_doc_ids path) b d,
  )

  doc_of_any-append :
      (xs ys : List ℕ) (d : ℕ) → doc_of_any (xs ++ ys) d ≡ (doc_of_any xs d || doc_of_any ys d)
  doc_of_any-append [] ys d = ground arith
  doc_of_any-append (x ∷ xs) ys d = ground (arith, doc_of_any-append xs ys d)

  -- A base document is in the new delete set where it was in the last one, or a modified or a
  -- deleted path has it.
  pub compute_delete_set-has :
      (modified deleted : List ℕ) (prev : Bitmap) (d : ℕ)
      → has (compute_delete_set modified deleted prev) d
        ≡ (has prev d || (doc_of_any modified d || doc_of_any deleted d))
  unfolding compute_delete_set
  compute_delete_set-has modified deleted prev d =
      ground
        (arith, delete_paths-has (modified ++ deleted) prev d, doc_of_any-append modified deleted d)
