-- ===== src/Tests/Verifier.antt =====
-- The lines of a small file, with searchers of bytes written out.
use mathlib.Core.Path.{subst}
use mathlib.Core.List.{Memᴰ}
use mathlib.Core.Option.{some-injective}
use syntext.Prelude.{
  ℕ, suc, ◌+◌, ◌-◌, ◌^◌, ◌<◌, ◌≡◌, refl, ap, Bool, true, false, inl, inr, Option, none, some, List,
  [], ◌∷◌, map, ◌==◌, if◌then◌else◌, length, take, drop, slice, All, Bool-cases, Option-cases,
  arith, ==_iff,
}
use syntext.Search.Verifier.{
  SearchMatch, Memchr, count, line_start, line_end, line_content_end, count_lines, search_match,
  literal_rounds, verify_literal, verify_regex, verify_empty,
}
use syntext.Search.LineNumbers.{OnItsLine, verify_literal-OnItsLine}
use syntext.Search.EmptyLines.{NewlinesFrom, WholeLine, verify_empty-WholeLine}
use syntext.Search.EachLine.{verify_literal_each_line}
use syntext.Search.RegexLines.{verify_regex-OnItsLine}

abbrev after_first : Bool → Option ℕ → Option ℕ
after_first at_first (some p) = some (suc p)
after_first true none = some 0
after_first false none = none

unfoldable last_position : ℕ → List ℕ → Option ℕ
last_position b [] = none
last_position b (x ∷ xs) = after_first (x == b) (last_position b xs)

abbrev next_position : Option ℕ → Option ℕ
next_position none = none
next_position (some p) = some (suc p)

unfoldable first_position : ℕ → List ℕ → Option ℕ
first_position b [] = none
first_position b (x ∷ xs) =
    let rest = first_position b xs in if x == b then some 0 else next_position rest

first_position-none : (b : ℕ) (xs : List ℕ) → first_position b xs ≡ none → count b xs ≡ 0
unfolding first_position count
first_position-none b [] h = refl
first_position-none b (x ∷ xs) h = elim (Bool-cases (x == b)) [
  | inl here ↦ let found : some 0 ≡ none = rw here at h in ground arith
  | inr other ↦ elim (Option-cases (first_position b xs)) [
    | inl e ↦ rw other (first_position-none b xs e)
    | inr (p, e) ↦ let found : some (suc p) ≡ none = rw (other, e) at h in ground arith
  ]
]

abbrev BeforeFirst : ℕ → List ℕ → ℕ → Type 0
BeforeFirst b xs p = (p < length xs) × (count b (take p xs) ≡ 0)

first_position-some :
    (b : ℕ) (xs : List ℕ) (p : ℕ) → first_position b xs ≡ some p → BeforeFirst b xs p
unfolding first_position count
first_position-some b [] p h = ground arith
first_position-some b (x ∷ xs) p h = elim (Bool-cases (x == b)) [
  | inl here ↦
      let found : some 0 ≡ some p = rw here at h in
      subst (BeforeFirst b (x ∷ xs)) (some-injective 0 p found) (omega arith, refl)
  | inr other ↦ elim (Option-cases (first_position b xs)) [
    | inl e ↦ let found : none ≡ some p = rw (other, e) at h in ground arith
    | inr (r, e) ↦
        let found : some (suc r) ≡ some p = rw (other, e) at h in
        let (inside, clear) = first_position-some b xs r e in
        subst (BeforeFirst b (x ∷ xs)) (some-injective (suc r) p found)
          (omega arith, rw other clear)
  ]
]

last_position-none : (b : ℕ) (xs : List ℕ) → last_position b xs ≡ none → count b xs ≡ 0
unfolding last_position count
last_position-none b [] h = refl
last_position-none b (x ∷ xs) h = elim (Option-cases (last_position b xs)) [
  | inr (p, e) ↦ let found : some (suc p) ≡ none = rw e at h in ground arith
  | inl e ↦ elim (Bool-cases (x == b)) [
    | inl here ↦ let found : some 0 ≡ none = rw (e, here) at h in ground arith
    | inr other ↦ rw other (last_position-none b xs e)
  ]
]

abbrev AtLast : ℕ → List ℕ → ℕ → Type 0
AtLast b xs p = (p < length xs) × (slice xs p (p + 1) ≡ b ∷ []) × (count b (drop (p + 1) xs) ≡ 0)

later : (b x : ℕ) (xs : List ℕ) (p : ℕ) → AtLast b xs p → AtLast b (x ∷ xs) (suc p)
later b x xs p (inside, at, clear) =
    let place : suc p + 1 ≡ suc (p + 1) = omega arith in
    let one : suc (p + 1) - suc p ≡ (p + 1) - p = omega arith in
    (omega arith, rw (place, one) at, rw place clear)

last_position-some : (b : ℕ) (xs : List ℕ) (p : ℕ) → last_position b xs ≡ some p → AtLast b xs p
unfolding last_position count
last_position-some b [] p h = ground arith
last_position-some b (x ∷ xs) p h = elim (Option-cases (last_position b xs)) [
  | inr (r, e) ↦
      let found : some (suc r) ≡ some p = rw e at h in
      subst (AtLast b (x ∷ xs)) (some-injective (suc r) p found)
        (later b x xs r (last_position-some b xs r e))
  | inl e ↦ elim (Bool-cases (x == b)) [
    | inr other ↦ let found : none ≡ some p = rw (e, other) at h in ground arith
    | inl here ↦
        let found : some 0 ≡ some p = rw (e, here) at h in
        let same : x ≡ b = ground (arith, ==_iff x b) in
        subst (AtLast b (x ∷ xs)) (some-injective 0 p found)
          (omega arith, ap (λ y. y ∷ []) same, last_position-none b xs e)
  ]
]

abbrev searchers : Memchr
searchers = record {
  memchr = first_position;
  memrchr = last_position;
  memchr_count = count;
  memrchr_none = last_position-none;
  memrchr_some = last_position-some;
  memchr_none = first_position-none;
  memchr_some = first_position-some;
  memchr_count_lem = λ b xs. refl;
}

-- Two lines hold "ab", the second one twice.
abbrev file : List ℕ
file = 120 ∷ 10 ∷ 97 ∷ 98 ∷ 13 ∷ 10 ∷ 97 ∷ 98 ∷ 97 ∷ 98 ∷ []

few_newlines : count 10 (take 10 file) + 1 < 2 ^ 32
unfolding count
few_newlines = omega arith

verify_literal_run :
    verify_literal searchers file true 2 (2 ∷ 6 ∷ 8 ∷ [])
    ≡ record {
      line_number = 2;
      line_content = [];
      byte_offset = 2;
      submatch_start = 0;
      submatch_end = 2;
    }
      ∷ record {
        line_number = 3;
        line_content = [];
        byte_offset = 6;
        submatch_start = 0;
        submatch_end = 2;
      }
      ∷ []
unfolding verify_literal literal_rounds line_start line_end line_content_end count_lines
    search_match first_position last_position count
verify_literal_run = refl

verify_literal-OnItsLine_example :
    All (OnItsLine file) (verify_literal searchers file true 2 (2 ∷ 6 ∷ 8 ∷ []))
verify_literal-OnItsLine_example =
    verify_literal-OnItsLine searchers file true few_newlines 2 (2 ∷ 6 ∷ 8 ∷ [])
      (omega arith, omega arith, (omega arith, omega arith, (omega arith, omega arith, tt)))

verify_regex-OnItsLine_example :
    All (OnItsLine file) (verify_regex searchers file true ((2, 4) ∷ (6, 8) ∷ (8, 10) ∷ []))
verify_regex-OnItsLine_example =
    verify_regex-OnItsLine searchers file true few_newlines ((2, 4) ∷ (6, 8) ∷ (8, 10) ∷ [])
      (omega arith, omega arith, (omega arith, omega arith, (omega arith, omega arith, tt)))

verify_literal_each_line_example :
    All
      (λ q.
        Memᴰ
          (count 10 (take q file) + 1)
          (map SearchMatch.line_number (verify_literal searchers file true 2 (2 ∷ 6 ∷ 8 ∷ []))))
      (2 ∷ 6 ∷ 8 ∷ [])
verify_literal_each_line_example =
    verify_literal_each_line searchers file true few_newlines (omega arith) 2 (2 ∷ 6 ∷ 8 ∷ [])
      (omega arith, omega arith, (omega arith, omega arith, (omega arith, omega arith, tt)))

file-NewlinesFrom : NewlinesFrom searchers file 0 (1 ∷ 5 ∷ [])
unfolding count
file-NewlinesFrom =
    (omega arith, omega arith, refl, refl, (omega arith, omega arith, refl, refl, refl))

verify_empty-WholeLine_example :
    All (WholeLine searchers file) (verify_empty searchers file false (1 ∷ 5 ∷ []))
verify_empty-WholeLine_example =
    verify_empty-WholeLine searchers file few_newlines (1 ∷ 5 ∷ []) file-NewlinesFrom
