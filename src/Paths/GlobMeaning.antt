-- ===== src/Paths/GlobMeaning.antt =====
-- What a wildcard pattern means, told apart from how src/path/filter.rs matches it.
use syntext.Prelude.{
  ℕ, zero, suc, ◌≤◌, ◌≡◌, refl, sym, ap, ◌∙◌, Bool, true, false, ◌&&◌, ◌||◌, inl, inr, List, [],
  ◌∷◌, ◌++◌, ◌==◌, if◌then◌else◌, is_empty, length, length-append, drop, contains, Bool-cases,
  drop_twice, drop-append, length-drop, arith,
}
use syntext.Paths.Glob.{only_stars}

-- The text or a part at its end satisfies `f`.
unfoldable pub any_suffix : (List ℕ → Bool) → List ℕ → Bool
any_suffix f [] = f []
any_suffix f (c ∷ text) = f (c ∷ text) || any_suffix f text

abbrev one_then : ℕ → (List ℕ → Bool) → List ℕ → Bool
one_then d f [] = false
one_then d f (c ∷ text) = (d == c || d == b'?') && f text

-- A star matches any bytes, a question mark one byte, another byte itself.
unfoldable pub wild : List ℕ → List ℕ → Bool
unfolding any_suffix
wild [] text = is_empty text
wild (d ∷ pattern) text =
    if d == b'*' then any_suffix (wild pattern) text else one_then d (wild pattern) text

-- A shorter part at the end of the text satisfies `f`.
abbrev pub later : (List ℕ → Bool) → List ℕ → Bool
later f [] = false
later f (c ∷ text) = any_suffix f text

pub only_stars-wild : (pattern : List ℕ) → only_stars pattern ≡ wild pattern []
unfolding only_stars wild
only_stars-wild [] = refl
only_stars-wild (d ∷ pattern) = elim (Bool-cases (d == b'*')) [
  | inl star ↦ rw star (only_stars-wild pattern)
  | inr other ↦ rw other refl
]

any_suffix-at :
    (f : List ℕ → Bool) (text : List ℕ)
    → any_suffix f text ≡ true
    → (k : ℕ) × (k ≤ length text) × (f (drop k text) ≡ true)
unfolding any_suffix
any_suffix-at f [] h = (0, omega arith, h)
any_suffix-at f (c ∷ text) h = elim (Bool-cases (f (c ∷ text))) [
  | inl here ↦ (0, omega arith, here)
  | inr away ↦ let (k, le, e) = any_suffix-at f text (rw away at h) in (suc k, omega arith, e)
]

later-at :
    (f : List ℕ → Bool) (text : List ℕ)
    → later f text ≡ true
    → (k : ℕ) × (1 ≤ k) × (k ≤ length text) × (f (drop k text) ≡ true)
later-at f [] h = cc
later-at f (c ∷ text) h =
    let (k, le, e) = any_suffix-at f text h in (suc k, omega arith, omega arith, e)

any_suffix-drop :
    (f : List ℕ → Bool) (k : ℕ) (text : List ℕ)
    → any_suffix f (drop k text) ≡ true
    → any_suffix f text ≡ true
unfolding any_suffix
any_suffix-drop f zero text h = h
any_suffix-drop f (suc k) [] h = h
any_suffix-drop f (suc k) (c ∷ text) h = ground (arith, any_suffix-drop f k text h)

-- A pattern that starts without a star takes as many bytes as it starts with.
wild-start :
    (seg pattern s : List ℕ)
    → contains b'*' seg ≡ false
    → wild (seg ++ pattern) s ≡ true
    → (length seg ≤ length s) × (wild pattern (drop (length seg) s) ≡ true)
unfolding contains wild
wild-start [] pattern s h w = (omega arith, w)
wild-start (d ∷ seg) pattern [] h w = elim (Bool-cases (d == b'*')) [
  | inl star ↦ ground arith
  | inr other ↦ let there : one_then d (wild (seg ++ pattern)) [] ≡ true = rw other at w in cc
]
wild-start (d ∷ seg) pattern (c ∷ s) h w = elim (Bool-cases (d == b'*')) [
  | inl star ↦ ground arith
  | inr other ↦
      let there : one_then d (wild (seg ++ pattern)) (c ∷ s) ≡ true = rw other at w in
      let (le, e) = wild-start seg pattern s (rw other at h) (ground arith) in (omega arith, e)
]

-- The pattern `ps` without its start is `p`, and the text `ts` without as many bytes is `t`.
abbrev pub Synced : List ℕ → List ℕ → List ℕ → List ℕ → Type 0
Synced ps ts p t =
    (seg : List ℕ) × (m : List ℕ) × (ps ≡ seg ++ p)
    × (ts ≡ m ++ t)
    × (length seg ≡ length m)
    × (contains b'*' seg ≡ false)

drop-synced : (n k : ℕ) (m t : List ℕ) → n ≡ length m → drop n (drop k (m ++ t)) ≡ drop k t
drop-synced n k m t e =
    drop_twice k n (m ++ t) ∙ (ap (λ i. drop i (m ++ t)) (omega (arith, e)) ∙ drop-append m t k)

-- Where a later start of the last star's pattern matches, so does a star from here on.
pub later-star :
    (ps ts p t : List ℕ)
    → Synced ps ts (b'*' ∷ p) t
    → later (wild ps) ts ≡ true
    → any_suffix (wild p) t ≡ true
unfolding wild
later-star ps ts p t (seg, m, e, e', n, free) h =
    let (k, pos, le, w) = later-at (wild ps) ts h in
    let w' : wild (seg ++ (b'*' ∷ p)) (drop k (m ++ t)) ≡ true = rw (← e, ← e') w in
    let (fits, rest) = wild-start seg (b'*' ∷ p) (drop k (m ++ t)) free w' in
    let rest' : any_suffix (wild p) (drop (length seg) (drop k (m ++ t))) ≡ true = rest in
    any_suffix-drop (wild p) k t
      (sym (ap (any_suffix (wild p)) (drop-synced (length seg) k m t n)) ∙ rest')

-- At the end of the text no later start matches.
pub later_end : (ps ts p : List ℕ) → Synced ps ts p [] → later (wild ps) ts ≡ true → ⊥
later_end ps ts p (seg, m, e, e', n, free) h =
    let (k, pos, le, w) = later-at (wild ps) ts h in
    let w' : wild (seg ++ p) (drop k ts) ≡ true = rw (← e) w in
    let (fits, rest) = wild-start seg p (drop k ts) free w' in
    omega (arith, length-drop k ts, ap length e', length-append m [])
