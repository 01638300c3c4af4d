-- ===== src/Index/Overlay/Outcomes.antt =====
-- What holds of a build that yields a result, and lists of documents.
use mathlib.Core.Path.{subst}
use syntext.Prelude.{
  ℕ, ◌≡◌, refl, false, inl, inr, List, [], ◌∷◌, is_empty, contains, Bool-cases, All, arith,
}
use syntext.Index.Overlay.{OverlayDoc, Result, ok, doc_id_overflow, ◌>>=◌, is_stale, keep_docs}

abbrev pub OkAll {ℓ} : {A : Type ℓ} → (A → Type 0) → Result A → Type 0
OkAll P (ok a) = P a
OkAll P (doc_id_overflow b n) = Unit

pub OkAll-ok {ℓ} : {A : Type ℓ} (P : A → Type 0) {r : Result A} {a : A} → OkAll P r → r ≡ ok a → P a
OkAll-ok P h e = subst (OkAll P) e h

pub OkAll-bind {ℓ κ} :
    {A : Type ℓ} {B : Type κ} (P : A → Type 0) (Q : B → Type 0) (r : Result A) (f : A → Result B)
    → OkAll P r
    → ((a : A) → P a → OkAll Q (f a))
    → OkAll Q (r >>= f)
OkAll-bind P Q (ok a) f h k = k a h
OkAll-bind P Q (doc_id_overflow b n) f h k = tt

pub has_member :
    (xs ys : List ℕ)
    → ((d : ℕ) → contains d xs ≡ contains d ys)
    → is_empty ys ≡ false
    → is_empty xs ≡ false
unfolding contains
has_member (x ∷ xs) ys h e = refl
has_member [] [] h e = e
has_member [] (y ∷ ys) h e = ground (arith, h y)

pub keep_docs-All :
    (P : OverlayDoc → Type 0) (removed changed : List ℕ) (ds : List OverlayDoc)
    → All P ds
    → All P (keep_docs removed changed ds)
unfolding keep_docs
keep_docs-All P removed changed [] h = tt
keep_docs-All P removed changed (x ∷ xs) (h, hs) = elim (Bool-cases (is_stale removed changed x)) [
  | inl stale ↦ rw stale (keep_docs-All P removed changed xs hs)
  | inr fresh ↦ rw fresh (h, keep_docs-All P removed changed xs hs)
]
