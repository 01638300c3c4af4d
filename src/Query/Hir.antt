-- ===== src/Query/Hir.antt =====
-- The regex syntax tree of the crate regex_syntax, as far as query/regex_decompose.rs reads it: the
-- constructors that it matches on. A character class and a zero-width assertion are not looked
-- into, and stand here as numbers. What a tree matches is a parameter, `HirSemantics`, with the
-- crate's documented meaning of each constructor that the decomposition relies on.
use syntext.Prelude.{ℕ, zero, suc, ◌≤◌, ◌≡◌, ◌⊎◌, Option, none, some, List, [], ◌++◌}

mutual
  pub data Hir : Type 0 where
    empty : Hir
    literal : List ℕ → Hir
    class : ℕ → Hir
    look : ℕ → Hir
    repetition : ℕ → Option ℕ → Hir → Hir
    capture : Hir → Hir
    concat : Hirs → Hir
    alternation : Hirs → Hir

  pub data Hirs : Type 0 where
    nil : Hirs
    cons : Hir → Hirs → Hirs

-- `M a m c`: a match of the text `m` behind the text `a` and before the text `c`.
abbrev pub Matcher : Type 1
Matcher = List ℕ → List ℕ → List ℕ → Type 0

-- `n` matches, one after the other.
abbrev pub Repeats : Matcher → ℕ → Matcher
Repeats M zero a m c = m ≡ []
Repeats M (suc n) a m c =
    (x : List ℕ) × (y : List ℕ) × (m ≡ x ++ y) × M a x (y ++ c) × Repeats M n (a ++ x) y c

abbrev pub AtMost : Option ℕ → ℕ → Type 0
AtMost none n = Unit {0}
AtMost (some max) n = n ≤ max

pub record HirSemantics : Type 1 where
  pub Matches : Hir → Matcher
  pub empty_law : (a m c : List ℕ) → Matches empty a m c → m ≡ []
  pub literal_law : (bytes a m c : List ℕ) → Matches (literal bytes) a m c → m ≡ bytes
  pub capture_law : (h : Hir) (a m c : List ℕ) → Matches (capture h) a m c → Matches h a m c
  pub concat_nil : (a m c : List ℕ) → Matches (concat nil) a m c → m ≡ []
  pub concat_cons :
      (h : Hir) (hs : Hirs) (a m c : List ℕ)
      → Matches (concat (cons h hs)) a m c
      → (x : List ℕ) × (y : List ℕ) × (m ≡ x ++ y)
        × Matches h a x (y ++ c)
        × Matches (concat hs) (a ++ x) y c
  pub alternation_nil : (a m c : List ℕ) → Matches (alternation nil) a m c → ⊥
  pub alternation_cons :
      (h : Hir) (hs : Hirs) (a m c : List ℕ)
      → Matches (alternation (cons h hs)) a m c
      → Matches h a m c ⊎ Matches (alternation hs) a m c
  pub repetition_law :
      (min : ℕ) (max : Option ℕ) (h : Hir) (a m c : List ℕ)
      → Matches (repetition min max h) a m c
      → (n : ℕ) × (min ≤ n) × AtMost max n × Repeats (Matches h) n a m c
