-- ===== src/Search/EmptyLines.antt =====
-- The lines that `verify_empty` of verifier.rs reports.
use syntext.Prelude.{
  ℕ, ◌+◌, ◌-◌, ◌%◌, ◌^◌, ◌<◌, ◌≤◌, ◌≡◌, refl, ◌⊎◌, inl, inr, false, List, [], ◌∷◌, ltb, length,
  slice, All, Bool-cases, arith,
}
use syntext.Search.Verifier.{SearchMatch, count, Memchr, empty_match, empty_rounds, verify_empty}
use syntext.Search.LineNumbers.{newlines_before, count-split, StartsLine}

one_newline :
    (content : List ℕ) (p : ℕ)
    → slice content p (p + 1) ≡ 10 ∷ []
    → count 10 (slice content p (p + 1)) ≡ 1
unfolding count
one_newline content p e = rw e refl

module _ (M : Memchr) (content : List ℕ) where
  -- The positions of the newlines from `s` on, all of them.
  abbrev pub NewlinesFrom : ℕ → List ℕ → Type 0
  NewlinesFrom s [] = count 10 (slice content s (length content)) ≡ 0
  NewlinesFrom s (p ∷ ps) =
      (s ≤ p)
      × (p < length content)
      × (count 10 (slice content s p) ≡ 0)
      × (slice content p (p + 1) ≡ 10 ∷ [])
      × NewlinesFrom (p + 1) ps

  -- The line ends at `e`: a newline stands there, or the file ends.
  abbrev pub EndsLine : ℕ → Type 0
  EndsLine e = (e ≡ length content) ⊎ (slice content e (e + 1) ≡ 10 ∷ [])

  -- A whole line: its number, its start at the start of a line, and as its content the bytes from
  -- there to the end of that line, which hold no newline.
  abbrev pub WholeLine : SearchMatch → Type 0
  WholeLine m =
      (m.line_number ≡ newlines_before content m.byte_offset + 1)
      × StartsLine content m.byte_offset
      × (e : ℕ) × (m.byte_offset ≤ e)
      × (e ≤ length content)
      × EndsLine e
      × (m.line_content ≡ slice content m.byte_offset e)
      × (count 10 m.line_content ≡ 0)

  module _ (fits : newlines_before content (length content) + 1 < 2 ^ 32) where
    empty_rounds-WholeLine :
        (s line_num : ℕ) (ps : List ℕ)
        → line_num ≡ newlines_before content s + 1
        → StartsLine content s
        → NewlinesFrom s ps
        → All WholeLine (empty_rounds M content false s line_num ps)
    unfolding empty_rounds empty_match
    empty_rounds-WholeLine s line_num [] num starts clear =
        elim (Bool-cases (ltb s (length content))) [
          | inl more ↦
              let low : s ≤ length content = grind arith in
              let all : length content ≤ length content = omega arith in
              rw more ((num, starts, length content, low, all, inl refl, refl, clear), tt)
          | inr done ↦ rw done tt
        ]
    empty_rounds-WholeLine s line_num (p ∷ ps) num starts (low, inside, clear, newline, rest) =
        let one : count 10 (slice content p (p + 1)) ≡ 1 = one_newline content p newline in
        let back : (p + 1) - 1 ≡ p = omega arith in
        let next : (line_num + 1) % 2 ^ 32 ≡ newlines_before content (p + 1) + 1 = omega (
          arith,
          count-split content s p low,
          count-split content p (p + 1) (omega arith),
          count-split content (p + 1) (length content) (omega arith),
        ) in
        (
          (num, starts, p, low, omega arith, inr newline, refl, clear),
          empty_rounds-WholeLine (p + 1) ((line_num + 1) % 2 ^ 32) ps next (inr (rw back newline))
              rest,
        )

    -- Given the positions of all newlines of a file with less than 2 ^ 32 - 1 of them, every match
    -- that `verify_empty` returns with its content stands at the start of a line, has the number of
    -- that line counted from 1, and has as its content all bytes of the line up to its newline or the
    -- end of the file.
    pub verify_empty-WholeLine :
        (newlines : List ℕ)
        → NewlinesFrom 0 newlines
        → All WholeLine (verify_empty M content false newlines)
    unfolding verify_empty count
    verify_empty-WholeLine newlines h = empty_rounds-WholeLine 0 1 newlines refl (inl refl) h
