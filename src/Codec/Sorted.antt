-- ===== src/Codec/Sorted.antt =====
-- The sidecars write the entries of a hash map in the order of their keys. A map is the list of its
-- entries; where a key stands twice, the last entry counts, as when they are inserted in turn.
use syntext.Prelude.{
  ℕ, suc, ◌≡◌, refl, sym, ap, ◌∙◌, Bool, true, false, ◌⊎◌, inl, inr, Option, none, some, List, [],
  ◌∷◌, ltb, ◌==◌, if◌then◌else◌, length, All, Bool-cases, arith,
}
use syntext.Prelude.Text.{eq_chars, eq_chars-eq}

-- `a.0.cmp(b.0)` is not greater: bytes in lexicographic order.
unfoldable pub le_key : List ℕ → List ℕ → Bool
le_key [] ys = true
le_key (x ∷ xs) [] = false
le_key (x ∷ xs) (y ∷ ys) =
    let rest = le_key xs ys in if ltb x y then true else if x == y then rest else false

pub le_key_refl : (xs : List ℕ) → le_key xs xs ≡ true
unfolding le_key
le_key_refl [] = refl
le_key_refl (x ∷ xs) = ground (arith, le_key_refl xs)

-- `le` is the order of the keys.
module _ {A : Type 0} (le : List ℕ → List ℕ → Bool) where
  unfoldable pub insert_sorted : List ℕ × A → List (List ℕ × A) → List (List ℕ × A)
  insert_sorted e [] = e ∷ []
  insert_sorted e (x ∷ xs) =
      let later = x ∷ insert_sorted e xs in if le e.0 x.0 then e ∷ x ∷ xs else later

  unfoldable pub sort_entries : List (List ℕ × A) → List (List ℕ × A)
  sort_entries [] = []
  sort_entries (e ∷ es) = insert_sorted e (sort_entries es)

  length-insert_sorted :
      (e : List ℕ × A) (es : List (List ℕ × A)) → length (insert_sorted e es) ≡ suc (length es)
  unfolding insert_sorted
  length-insert_sorted e [] = refl
  length-insert_sorted e (x ∷ xs) = elim (Bool-cases (le e.0 x.0)) [
    | inl first ↦ rw first refl
    | inr later ↦ rw later (ap suc (length-insert_sorted e xs))
  ]

  pub length-sort_entries : (es : List (List ℕ × A)) → length (sort_entries es) ≡ length es
  unfolding sort_entries
  length-sort_entries [] = refl
  length-sort_entries (e ∷ es) =
      length-insert_sorted e (sort_entries es) ∙ ap suc (length-sort_entries es)

  module _ (Good : List ℕ × A → Type 0) where
    insert_sorted-All :
        (e : List ℕ × A) (es : List (List ℕ × A))
        → Good e
        → All Good es
        → All Good (insert_sorted e es)
    unfolding insert_sorted
    insert_sorted-All e [] h k = (h, tt)
    insert_sorted-All e (x ∷ xs) h (k, ks) = elim (Bool-cases (le e.0 x.0)) [
      | inl first ↦ rw first (h, (k, ks))
      | inr later ↦ rw later (k, insert_sorted-All e xs h ks)
    ]

    pub sort_entries-All : (es : List (List ℕ × A)) → All Good es → All Good (sort_entries es)
    unfolding sort_entries
    sort_entries-All [] h = tt
    sort_entries-All (e ∷ es) (h, hs) =
        insert_sorted-All e (sort_entries es) h (sort_entries-All es hs)

abbrev pub or_else {ℓ} : {A : Type ℓ} → Option A → Option A → Option A
or_else none o = o
or_else (some a) o = some a

module _ {A : Type 0} where
  abbrev pub entry_at : List ℕ → List ℕ × A → Option A
  entry_at key e = if eq_chars e.0 key then some e.1 else none

  -- The value of a key: the last entry's.
  unfoldable pub find_key : List ℕ → List (List ℕ × A) → Option A
  find_key key [] = none
  find_key key (e ∷ es) = or_else (find_key key es) (entry_at key e)

  module _ (le : List ℕ → List ℕ → Bool) (le_refl : (k : List ℕ) → le k k ≡ true)
      (key : List ℕ) where
    or_else_swap :
        (o p q : Option A)
        → (p ≡ none) ⊎ (q ≡ none)
        → or_else (or_else o p) q ≡ or_else (or_else o q) p
    or_else_swap (some a) p q h = refl
    or_else_swap none none none h = refl
    or_else_swap none none (some b) h = refl
    or_else_swap none (some a) none h = refl
    or_else_swap none (some a) (some b) (inl h) = ground arith
    or_else_swap none (some a) (some b) (inr h) = ground arith

    one_entry :
        (e x : List ℕ × A) → le e.0 x.0 ≡ false → (entry_at key e ≡ none) ⊎ (entry_at key x ≡ none)
    one_entry e x h = elim (Bool-cases (eq_chars e.0 key)) [
      | inr differs ↦ inl (rw differs refl)
      | inl first ↦ elim (Bool-cases (eq_chars x.0 key)) [
        | inr differs ↦ inr (rw differs refl)
        | inl also ↦
            let same : e.0 ≡ x.0 = eq_chars-eq e.0 key first ∙ sym (eq_chars-eq x.0 key also) in
            let less : le x.0 x.0 ≡ false = rw same at h in
            let both : true ≡ false = sym (le_refl x.0) ∙ less in ground arith
      ]
    ]

    find_key-insert_sorted :
        (e : List ℕ × A) (es : List (List ℕ × A))
        → find_key key (insert_sorted le e es) ≡ or_else (find_key key es) (entry_at key e)
    unfolding insert_sorted find_key
    find_key-insert_sorted e [] = refl
    find_key-insert_sorted e (x ∷ xs) = elim (Bool-cases (le e.0 x.0)) [
      | inl first ↦ rw first refl
      | inr later ↦
          rw (later, find_key-insert_sorted e xs)
            (or_else_swap (find_key key xs) (entry_at key e) (entry_at key x) (one_entry e x later))
    ]

    pub find_key-sort_entries :
        (es : List (List ℕ × A)) → find_key key (sort_entries le es) ≡ find_key key es
    unfolding sort_entries find_key
    find_key-sort_entries [] = refl
    find_key-sort_entries (e ∷ es) =
        find_key-insert_sorted e (sort_entries le es)
        ∙ ap (λ o. or_else o (entry_at key e)) (find_key-sort_entries es)
