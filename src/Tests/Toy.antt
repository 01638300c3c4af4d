-- ===== src/Tests/Toy.antt =====
-- Parameters for the runs: a table with no rare bigram, a hash that reads a gram as a number, and a
-- meaning for the regex trees.
use Prim.Native.String.{String}
use Prim.Native.Char.{code}
use syntext.Prelude.{ℕ, ◌+◌, ◌*◌, ◌≤◌, ◌≡◌, refl, ◌⊎◌, Bool, Option, some, List, [], ◌∷◌, ◌++◌}
use syntext.Tokenizer.Boundaries.{Tables}
use syntext.Query.Hir.{Hir, Hirs, Matcher, Repeats, AtMost, HirSemantics}

-- The bytes of an ASCII text.
abbrev pub bytes : String → List ℕ
bytes String.[] = []
bytes (String.◌∷◌ c s) = code c ∷ bytes s

abbrev pub toy_hash : List ℕ → ℕ → ℕ
toy_hash [] seed = seed
toy_hash (b ∷ bs) seed = toy_hash bs (seed * 256 + b)

abbrev pub toy : Tables
toy = record { bigram_weights = λ _. 0; xxh64 = toy_hash }

-- A class matches any one byte, an assertion the empty text.
unfoldable mutual
  pub meaning : Hir → Matcher
  meaning Hir.empty a m c = m ≡ []
  meaning (Hir.literal bs) a m c = m ≡ bs
  meaning (Hir.class k) a m c = (b : ℕ) × (m ≡ b ∷ [])
  meaning (Hir.look k) a m c = m ≡ []
  meaning (Hir.repetition min max sub) a m c =
      (n : ℕ) × (min ≤ n) × AtMost max n × Repeats (meaning sub) n a m c
  meaning (Hir.capture sub) a m c = meaning sub a m c
  meaning (Hir.concat subs) a m c = meaning_concat subs a m c
  meaning (Hir.alternation subs) a m c = meaning_alternation subs a m c

  pub meaning_concat : Hirs → Matcher
  meaning_concat Hirs.nil a m c = m ≡ []
  meaning_concat (Hirs.cons sub subs) a m c =
      (x : List ℕ) × (y : List ℕ) × (m ≡ x ++ y)
      × meaning sub a x (y ++ c)
      × meaning_concat subs (a ++ x) y c

  pub meaning_alternation : Hirs → Matcher
  meaning_alternation Hirs.nil a m c = ⊥
  meaning_alternation (Hirs.cons sub subs) a m c =
      meaning sub a m c ⊎ meaning_alternation subs a m c

-- The regex of a case-insensitive literal, read as a class for each byte.
abbrev pub class_each : List ℕ → Hirs
class_each [] = Hirs.nil
class_each (b ∷ bs) = Hirs.cons (Hir.class 0) (class_each bs)

abbrev pub parse_classes : List ℕ → Bool → Option Hir
parse_classes pattern ci = some (Hir.concat (class_each pattern))

pub class_each-meaning : (a m c : List ℕ) → meaning_concat (class_each m) a m c
unfolding meaning
class_each-meaning a [] c = refl
class_each-meaning a (b ∷ m) c =
    (b ∷ [], m, refl, (b, refl), class_each-meaning (a ++ (b ∷ [])) m c)

unfoldable pub toy_semantics : HirSemantics
unfolding meaning
toy_semantics = record {
  Matches = meaning;
  empty_law = λ a m c k. k;
  literal_law = λ bs a m c k. k;
  capture_law = λ h a m c k. k;
  concat_nil = λ a m c k. k;
  concat_cons = λ h hs a m c k. k;
  alternation_nil = λ a m c k. k;
  alternation_cons = λ h hs a m c k. k;
  repetition_law = λ min max h a m c k. k;
}
