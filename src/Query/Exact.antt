-- ===== src/Query/Exact.antt =====
-- `exact_literal_variants` of query/regex_decompose.rs lists every text that a regex matches.
use mathlib.Core.List.Memᴰ
use syntext.Prelude.{
  ℕ, zero, suc, ◌+◌, ◌≤◌, ◌≡◌, refl, ◌⊎◌, inl, inr, true, false, Option, none, some, List, [], ◌∷◌,
  ◌++◌, Memᴰ, append-nil, append_assoc, ltb, length, is_empty, Bool-cases, arith,
}
use syntext.Query.Hir.{Hir, Hirs, HirSemantics, Matcher, Repeats, AtMost}
use syntext.Query.Decompose.{
  ◌>>=◌, Literals, products, concat_variants, repeat_variants, exact_literal_variants, concat_each,
  alternate_each, is_exact,
}

pub >>=-eq-some {ℓ κ} :
    {A : Type ℓ} {B : Type κ} (o : Option A) (f : A → Option B) {b : B}
    → (o >>= f) ≡ some b
    → (a : A) × (o ≡ some a) × (f a ≡ some b)
>>=-eq-some none f h = cc
>>=-eq-some (some a) f h = (a, refl, h)

products-mem :
    (x y : List ℕ) (left right : Literals)
    → Memᴰ x left
    → Memᴰ y right
    → Memᴰ (x ++ y) (products left right)
unfolding products
products-mem x y [] right m n = elim m [ ]
products-mem x y (l ∷ left) right (Memᴰ.head e) n =
    rw e (Memᴰ.append_left _ (Memᴰ.map (λ suffix. l ++ suffix) n))
products-mem x y (l ∷ left) right (Memᴰ.tail m) n =
    Memᴰ.append_right _ (products-mem x y left right m n)

not-empty : {A : Type 0} {x : A} (xs : List A) → Memᴰ x xs → is_empty xs ≡ false
not-empty [] m = elim m [ ]
not-empty (y ∷ xs) m = refl

concat_variants-products :
    (left right : Literals) (limit : ℕ) (out : Literals)
    → is_empty left ≡ false
    → is_empty right ≡ false
    → concat_variants left right limit ≡ some out
    → products left right ≡ out
unfolding concat_variants
concat_variants-products left right limit out l r h = ground arith

concat_variants-mem :
    (x y : List ℕ) (left right : Literals) (limit : ℕ) (out : Literals)
    → Memᴰ x left
    → Memᴰ y right
    → concat_variants left right limit ≡ some out
    → Memᴰ (x ++ y) out
concat_variants-mem x y left right limit out m n h =
    rw (← concat_variants-products left right limit out (not-empty left m) (not-empty right n) h)
      (products-mem x y left right m n)

repeat_variants-mem :
    (M : Matcher) (variants : Literals) (limit : ℕ)
    → ((a m c : List ℕ) → M a m c → Memᴰ m variants)
    → (n : ℕ) (p a m c : List ℕ) (acc out : Literals) → Memᴰ p acc
    → Repeats M n a m c
    → repeat_variants n variants acc limit ≡ some out
    → Memᴰ (p ++ m) out
repeat_variants-mem M variants limit sound zero p a m c acc out k r h =
    let same : some acc ≡ some out = unfold repeat_variants in h in
    let e : acc ≡ out = cc in rw (r, append-nil, ← e) k
repeat_variants-mem M variants limit sound (suc n) p a m c acc out k (x, y, e, mx, my) h =
    let step : (concat_variants acc variants limit >>= λ acc'.
    repeat_variants n variants acc' limit)
        ≡ some out =
      unfold repeat_variants in h in
    let (acc', ha, hb) = >>=-eq-some (concat_variants acc variants limit) _ step in
    rw (e, ← append_assoc p x y)
      (repeat_variants-mem M variants limit sound n (p ++ x) (a ++ x) y c acc' out
        (concat_variants-mem p x acc variants limit acc' k (sound a x (y ++ c) mx) ha) my hb)

exact-count :
    (min n : ℕ) (max : Option ℕ) → is_exact min max ≡ true → min ≤ n → AtMost max n → n ≡ min
exact-count min n none e lo hi = cc
exact-count min n (some max) e lo hi = ground arith

module _ (s : HirSemantics) (limit : ℕ) where
  open s use {
    Matches, empty_law, literal_law, capture_law, concat_nil, concat_cons, alternation_nil,
    alternation_cons, repetition_law,
  }

  mutual
    unfolding exact_literal_variants

    variants-mem_rec :
        (h : Hir) (a m c : List ℕ) (out : Literals)
        → Matches h a m c
        → exact_literal_variants h limit ≡ some out
        → Memᴰ m out
    variants-mem_rec Hir.empty a m c out k h =
        let e : ([] ∷ []) ≡ out = cc in rw (empty_law a m c k, ← e) (Memᴰ.head refl)
    variants-mem_rec (Hir.literal bytes) a m c out k h =
        let e : (bytes ∷ []) ≡ out = cc in rw (literal_law bytes a m c k, ← e) (Memᴰ.head refl)
    variants-mem_rec (Hir.class j) a m c out k h = cc
    variants-mem_rec (Hir.look j) a m c out k h = cc
    variants-mem_rec (Hir.repetition min max sub) a m c out k h =
        elim (Bool-cases (is_exact min max)) [
          | inl e ↦
              let (variants, hv, hr) =
                >>=-eq-some (exact_literal_variants sub limit) _ (rw e at h) in
              let (n, lo, hi, reps) = repetition_law min max sub a m c k in
              repeat_variants-mem (Matches sub) variants limit
                (λ a' m' c' k'. variants-mem_rec sub a' m' c' variants k' hv) min [] a m c ([] ∷ [])
                out (Memᴰ.head refl) (rw (exact-count min n max e lo hi) at reps) hr
          | inr e ↦ let no_variants : none ≡ some out = rw e at h in cc
        ]
    variants-mem_rec (Hir.capture sub) a m c out k h =
        variants-mem_rec sub a m c out (capture_law sub a m c k) h
    variants-mem_rec (Hir.concat subs) a m c out k h =
        concat_each-mem subs [] a m c ([] ∷ []) out (Memᴰ.head refl) k h
    variants-mem_rec (Hir.alternation subs) a m c out k h =
        alternate_each-mem subs a m c [] out (inr k) h

    concat_each-mem :
        (hs : Hirs) (p a m c : List ℕ) (acc out : Literals)
        → Memᴰ p acc
        → Matches (Hir.concat hs) a m c
        → concat_each hs acc limit ≡ some out
        → Memᴰ (p ++ m) out
    concat_each-mem Hirs.nil p a m c acc out q k h =
        let e : acc ≡ out = cc in rw (concat_nil a m c k, append-nil, ← e) q
    concat_each-mem (Hirs.cons sub subs) p a m c acc out q k h =
        let (variants, hv, h2) = >>=-eq-some (exact_literal_variants sub limit) _ h in
        let (acc', ha, h3) = >>=-eq-some (concat_variants acc variants limit) _ h2 in
        let (x, y, e, kx, ky) = concat_cons sub subs a m c k in
        rw (e, ← append_assoc p x y)
          (concat_each-mem subs (p ++ x) (a ++ x) y c acc' out
            (concat_variants-mem p x acc variants limit acc' q
              (variants-mem_rec sub a x (y ++ c) variants kx hv) ha)
            ky h3)

    alternate_each-mem :
        (hs : Hirs) (a m c : List ℕ) (acc out : Literals)
        → Memᴰ m acc ⊎ Matches (Hir.alternation hs) a m c
        → alternate_each hs acc limit ≡ some out
        → Memᴰ m out
    alternate_each-mem Hirs.nil a m c acc out (inl q) h = let e : acc ≡ out = cc in rw (← e) q
    alternate_each-mem Hirs.nil a m c acc out (inr k) h = absurd (alternation_nil a m c k)
    alternate_each-mem (Hirs.cons sub subs) a m c acc out q h =
        let (variants, hv, h2) = >>=-eq-some (exact_literal_variants sub limit) _ h in
        let next : Memᴰ m (acc ++ variants) ⊎ Matches (Hir.alternation subs) a m c = elim q [
          | inl old ↦ inl (Memᴰ.append_left _ old)
          | inr k ↦ elim (alternation_cons sub subs a m c k) [
            | inl here ↦ inl (Memᴰ.append_right acc (variants-mem_rec sub a m c variants here hv))
            | inr later ↦ inr later
          ]
        ] in
        elim (Bool-cases (ltb limit (length acc + length variants))) [
          | inl e ↦ let no_variants : none ≡ some out = rw e at h2 in cc
          | inr e ↦ alternate_each-mem subs a m c (acc ++ variants) out next (rw e at h2)
        ]

  -- If a regex has a list of literals, every text that it matches is one of them.
  pub variants-mem :
      (h : Hir) (a m c : List ℕ) (out : Literals)
      → Matches h a m c
      → exact_literal_variants h limit ≡ some out
      → Memᴰ m out
  variants-mem h a m c out k e = variants-mem_rec h a m c out k e
