-- ===== src/Search/Cardinality.antt =====
-- src/search/executor.rs: the estimates by which operands are ordered, in u32 arithmetic, and the
-- stable sort by a cached key of the standard library.
use syntext.Prelude.{
  ℕ, ◌+◌, ◌-◌, ◌%◌, ◌^◌, min, Option, none, some, List, [], ◌∷◌, leb, if◌then◌else◌, length,
}
use syntext.Index.Bitmap.{RoaringBitmap}
use syntext.Index.Snapshot.{Segment, IndexSnapshot, all_doc_ids}
use syntext.Query.GramQuery.{GramQuery, Queries}

abbrev pub saturating_add : ℕ → ℕ → ℕ
saturating_add a b = min (a + b) (2 ^ 32 - 1)

module _ {A : Type 0} where
  -- The first place whose key is not below: equal keys keep their order.
  unfoldable pub insert_by_key : ℕ × A → List (ℕ × A) → List (ℕ × A)
  insert_by_key x [] = x ∷ []
  insert_by_key x (y ∷ ys) =
      let later = y ∷ insert_by_key x ys in if leb x.0 y.0 then x ∷ y ∷ ys else later

  -- The operands with their keys, the least key first.
  unfoldable pub sort_by_cached_key : List (ℕ × A) → List (ℕ × A)
  unfolding insert_by_key
  sort_by_cached_key [] = []
  sort_by_cached_key (x ∷ xs) = insert_by_key x (sort_by_cached_key xs)

abbrev pub or_zero : Option ℕ → ℕ
or_zero none = 0
or_zero (some n) = n

abbrev pub overlay_count : Option (List ℕ) → ℕ
overlay_count none = 0
overlay_count (some ids) = length ids % 2 ^ 32

-- `.min().unwrap_or(total_docs)`
abbrev pub least : ℕ → Option ℕ → Option ℕ
least n none = some n
least n (some m) = some (min n m)

abbrev pub unwrap_or : ℕ → Option ℕ → ℕ
unwrap_or total none = total
unwrap_or total (some n) = n

module _ (R : RoaringBitmap) (snap : IndexSnapshot R) where
  open R use {len}

  unfoldable pub base_total : ℕ → List (Segment R) → ℕ
  base_total gram_hash [] = 0
  base_total gram_hash (seg ∷ segs) =
      (or_zero (seg.gram_cardinality gram_hash) + base_total gram_hash segs) % 2 ^ 32

  unfoldable pub gram_cardinality : ℕ → ℕ
  unfolding base_total
  gram_cardinality gram_hash =
      saturating_add (base_total gram_hash snap.segments)
        (overlay_count (snap.overlay_grams gram_hash))

  unfoldable pub total_docs : ℕ
  unfolding all_doc_ids
  total_docs = len (all_doc_ids R snap) % 2 ^ 32

  unfoldable pub least_cardinality : List ℕ → Option ℕ
  unfolding gram_cardinality
  least_cardinality [] = none
  least_cardinality (hash ∷ hashes) = least (gram_cardinality hash) (least_cardinality hashes)

  unfoldable mutual
    unfolding total_docs least_cardinality

    pub query_cardinality_upper_bound : GramQuery → ℕ
    query_cardinality_upper_bound (GramQuery.and children) =
        unwrap_or total_docs (least_bound children)
    query_cardinality_upper_bound (GramQuery.or children) = min (sum_bounds 0 children) total_docs
    query_cardinality_upper_bound (GramQuery.grams hashes) =
        unwrap_or total_docs (least_cardinality hashes)
    query_cardinality_upper_bound GramQuery.all = total_docs
    query_cardinality_upper_bound GramQuery.none = 0

    pub least_bound : Queries → Option ℕ
    least_bound Queries.nil = none
    least_bound (Queries.cons q qs) = least (query_cardinality_upper_bound q) (least_bound qs)

    pub sum_bounds : ℕ → Queries → ℕ
    sum_bounds acc Queries.nil = acc
    sum_bounds acc (Queries.cons q qs) =
        sum_bounds (saturating_add acc (query_cardinality_upper_bound q)) qs
