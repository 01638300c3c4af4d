-- ===== src/Search/Verifier.antt =====
-- src/search/verifier.rs: which lines of a file hold a match. The searchers of the crates memchr
-- and regex are parameters, and so are the matches that they find; a match's path is left out.
use syntext.Prelude.{
  ℕ, suc, ◌+◌, ◌-◌, ◌%◌, ◌^◌, ◌<◌, ◌≡◌, min, Bool, ◌&&◌, Option, none, some, List, [], ◌∷◌, ltb,
  leb, ◌==◌, if◌then◌else◌, length, get_or, take, drop, slice,
}

pub record SearchMatch : Type 0 where
  pub line_number : ℕ
  pub line_content : List ℕ
  pub byte_offset : ℕ
  pub submatch_start : ℕ
  pub submatch_end : ℕ

-- The bytes with this value.
unfoldable pub count : ℕ → List ℕ → ℕ
count b [] = 0
count b (x ∷ xs) = let rest = count b xs in if x == b then suc rest else rest

-- What the crate memchr documents: `memchr` and `memrchr` find the first and the last position of
-- a byte, `memchr_iter(..).count()` counts its positions.
pub record Memchr : Type 0 where
  pub memchr : ℕ → List ℕ → Option ℕ
  pub memrchr : ℕ → List ℕ → Option ℕ
  pub memchr_count : ℕ → List ℕ → ℕ
  pub memrchr_none : (b : ℕ) (xs : List ℕ) → memrchr b xs ≡ none → count b xs ≡ 0
  pub memrchr_some :
      (b : ℕ) (xs : List ℕ) (p : ℕ)
      → memrchr b xs ≡ some p
      → (p < length xs) × (slice xs p (p + 1) ≡ b ∷ []) × (count b (drop (p + 1) xs) ≡ 0)
  pub memchr_none : (b : ℕ) (xs : List ℕ) → memchr b xs ≡ none → count b xs ≡ 0
  pub memchr_some :
      (b : ℕ) (xs : List ℕ) (p : ℕ)
      → memchr b xs ≡ some p
      → (p < length xs) × (count b (take p xs) ≡ 0)
  pub memchr_count_lem : (b : ℕ) (xs : List ℕ) → memchr_count b xs ≡ count b xs

-- The loop's variables.
pub record Scan : Type 0 where
  pub last_line_start : ℕ
  pub current_line_num : ℕ
  pub last_newline_counted_up_to : ℕ
  pub current_line_end : ℕ

abbrev pub start_scan : Scan
start_scan = record {
  last_line_start = 2 ^ 64 - 1;
  current_line_num = 1;
  last_newline_counted_up_to = 0;
  current_line_end = 0;
}

module _ (M : Memchr) (content : List ℕ) (skip_line_content : Bool) where
  open M use {memchr, memrchr, memchr_count}

  abbrev pub after_newline : ℕ → Option ℕ → ℕ
  after_newline from none = from
  after_newline from (some pos) = from + pos + 1

  unfoldable pub line_start : Scan → ℕ → ℕ
  line_start scan match_start =
      let from = scan.last_newline_counted_up_to in
      after_newline from (memrchr 10 (slice content from match_start))

  abbrev pub end_at : ℕ → Option ℕ → ℕ
  end_at match_start none = length content
  end_at match_start (some pos) = match_start + pos

  unfoldable pub line_end : ℕ → ℕ
  line_end match_start = end_at match_start (memchr 10 (drop match_start content))

  -- A `\r` at the end is trimmed.
  unfoldable pub line_content_end : ℕ → ℕ → ℕ
  line_content_end s e = if ltb s e && get_or content (e - 1) 0 == 13 then e - 1 else e

  -- The newlines between the last count and the line's start.
  unfoldable pub count_lines : Scan → ℕ → Scan
  count_lines scan s =
      let from = scan.last_newline_counted_up_to in
      if ltb from s
      then record scan {
        current_line_num =
            (scan.current_line_num + memchr_count 10 (slice content from s)) % 2 ^ 32;
        last_newline_counted_up_to = s;
      }
      else scan

  -- The match on the line from `s` to `e`.
  unfoldable pub search_match : ℕ → ℕ → ℕ → ℕ → ℕ → SearchMatch
  search_match line_num s e match_start match_end = record {
    line_number = line_num;
    line_content = if skip_line_content then [] else slice content s e;
    byte_offset = match_start;
    submatch_start = match_start - s;
    submatch_end = min match_end (line_content_end s e) - s;
  }

  abbrev pub at_line : Scan → ℕ → ℕ → Scan
  at_line scan s e = record scan { last_line_start = s; current_line_end = e }

  -- The rest of the round, where the match is reported.
  abbrev pub report : Scan → ℕ → ℕ → (Scan → List SearchMatch) → List SearchMatch
  report scan match_start match_end rest =
      let s = line_start scan match_start in
      let e = line_end match_start in
      let counted = count_lines scan s in
      search_match counted.current_line_num s e match_start match_end ∷ rest (at_line counted s e)

  -- The rounds for the positions of a literal of `len` bytes.
  unfoldable pub literal_rounds : ℕ → Scan → List ℕ → List SearchMatch
  literal_rounds len scan [] = []
  literal_rounds len scan (match_start ∷ starts) =
      if ltb match_start scan.current_line_end
      then literal_rounds len scan starts
      else if line_start scan match_start == scan.last_line_start
      then literal_rounds len scan starts
      else report scan match_start (match_start + len) (λ next. literal_rounds len next starts)

  unfoldable pub verify_literal : ℕ → List ℕ → List SearchMatch
  verify_literal len starts = literal_rounds len start_scan starts

  -- The rounds for the starts and ends of a regex's matches.
  unfoldable pub regex_rounds : Scan → List (ℕ × ℕ) → List SearchMatch
  regex_rounds scan [] = []
  regex_rounds scan ((match_start, match_end) ∷ rest) =
      if ltb match_start scan.current_line_end
      then regex_rounds scan rest
      else if leb (length content) (line_start scan match_start)
      then regex_rounds scan rest
      else if ltb (line_end match_start) match_end
      then regex_rounds scan rest
      else if line_start scan match_start == scan.last_line_start
      then regex_rounds scan rest
      else report scan match_start match_end (λ next. regex_rounds next rest)

  unfoldable pub verify_regex : List (ℕ × ℕ) → List SearchMatch
  verify_regex matches = regex_rounds start_scan matches

  -- The match of an empty pattern on the line from `s` to `e`.
  unfoldable pub empty_match : ℕ → ℕ → ℕ → SearchMatch
  empty_match line_num s e = record {
    line_number = line_num;
    line_content = if skip_line_content then [] else slice content s e;
    byte_offset = s;
    submatch_start = 0;
    submatch_end = 0;
  }

  -- The rounds for the positions of the newlines; an unterminated last line follows.
  unfoldable pub empty_rounds : ℕ → ℕ → List ℕ → List SearchMatch
  empty_rounds s line_num [] =
      if ltb s (length content) then empty_match line_num s (length content) ∷ [] else []
  empty_rounds s line_num (pos ∷ ps) =
      empty_match line_num s pos ∷ empty_rounds (pos + 1) ((line_num + 1) % 2 ^ 32) ps

  unfoldable pub verify_empty : List ℕ → List SearchMatch
  verify_empty newlines = empty_rounds 0 1 newlines
