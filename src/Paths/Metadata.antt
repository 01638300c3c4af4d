-- ===== src/Paths/Metadata.antt =====
-- The maps from extensions and components to file ids, with a file added or removed.
use syntext.Prelude.{
  ℕ, ◌≡◌, refl, Bool, false, not, ◌&&◌, ◌||◌, inl, inr, Option, none, some, List, [], ◌∷◌, ◌==◌,
  Bool-cases, arith,
}
use syntext.Prelude.Text.{eq_chars}
use syntext.Index.Bitmap.{RoaringBitmap}
use syntext.Paths.PathIndex.{
  KeyMap, or_new, insert_key, insert_keys, drop_without, remove_key, remove_keys,
}

unfoldable pub lists_key : List ℕ → List (List ℕ) → Bool
lists_key k [] = false
lists_key k (key ∷ keys) = eq_chars key k || lists_key k keys

module _ (R : RoaringBitmap) where
  open R use {Bitmap, insert, remove, has, no_ids, has-new, has-insert, has-remove, no_ids_has}

  abbrev pub in_files : Option Bitmap → ℕ → Bool
  in_files none i = false
  in_files (some b) i = has b i

  or_new-has : (o : Option Bitmap) (i : ℕ) → has (or_new R o) i ≡ in_files o i
  or_new-has none i = has-new i
  or_new-has (some b) i = refl

  insert_key-has :
      (key : List ℕ) (id : ℕ) (m : KeyMap R) (k : List ℕ) (i : ℕ)
      → in_files (insert_key R key id m k) i ≡ (in_files (m k) i || (id == i && eq_chars key k))
  unfolding insert_key
  insert_key-has key id m k i = elim (Bool-cases (eq_chars key k)) [
    | inl same ↦ rw (same, has-insert id (or_new R (m k)) i) (ground (arith, or_new-has (m k) i))
    | inr other ↦ rw other (ground arith)
  ]

  pub insert_keys-has :
      (keys : List (List ℕ)) (id : ℕ) (m : KeyMap R) (k : List ℕ) (i : ℕ)
      → in_files (insert_keys R keys id m k) i ≡ (in_files (m k) i || (id == i && lists_key k keys))
  unfolding insert_keys lists_key
  insert_keys-has [] id m k i = ground arith
  insert_keys-has (key ∷ keys) id m k i =
      ground
        (arith, insert_keys-has keys id (insert_key R key id m) k i, insert_key-has key id m k i)

  drop_without-has :
      (id : ℕ) (o : Option Bitmap) (i : ℕ)
      → in_files (drop_without R id o) i ≡ (in_files o i && not (id == i))
  drop_without-has id none i = refl
  drop_without-has id (some b) i = elim (Bool-cases (no_ids (remove id b))) [
    | inl empty ↦ rw empty (ground (arith, no_ids_has (remove id b) i empty, has-remove id b i))
    | inr left ↦ rw left (has-remove id b i)
  ]

  remove_key-has :
      (key : List ℕ) (id : ℕ) (m : KeyMap R) (k : List ℕ) (i : ℕ)
      → in_files (remove_key R key id m k) i ≡ (in_files (m k) i && not (id == i && eq_chars key k))
  unfolding remove_key
  remove_key-has key id m k i = elim (Bool-cases (eq_chars key k)) [
    | inl same ↦ rw same (ground (arith, drop_without-has id (m k) i))
    | inr other ↦ rw other (ground arith)
  ]

  pub remove_keys-has :
      (keys : List (List ℕ)) (id : ℕ) (m : KeyMap R) (k : List ℕ) (i : ℕ)
      → in_files (remove_keys R keys id m k) i
        ≡ (in_files (m k) i && not (id == i && lists_key k keys))
  unfolding remove_keys lists_key
  remove_keys-has [] id m k i = ground arith
  remove_keys-has (key ∷ keys) id m k i =
      ground
        (arith, remove_keys-has keys id (remove_key R key id m) k i, remove_key-has key id m k i)
