-- ===== src/Search/RegexLines.antt =====
-- The lines that `verify_regex` of verifier.rs reports.
use syntext.Prelude.{
  ℕ, ◌+◌, ◌^◌, ◌<◌, ◌≤◌, refl, inl, inr, Bool, List, [], ◌∷◌, ltb, leb, ◌==◌, length, All,
  Bool-cases, arith,
}
use syntext.Search.Verifier.{
  count, Memchr, Scan, start_scan, line_start, line_end, count_lines, at_line, regex_rounds,
  verify_regex,
}
use syntext.Search.LineNumbers.{newlines_before, OnItsLine, ValidScan, report_lem}

module _ (M : Memchr) (content : List ℕ) (skip : Bool)
    (fits : newlines_before content (length content) + 1 < 2 ^ 32) where
  -- The starts of the matches ascend from `lo` on, within the file.
  abbrev pub AscendingStarts : ℕ → List (ℕ × ℕ) → Type 0
  AscendingStarts lo [] = Unit
  AscendingStarts lo ((q, end) ∷ ms) = (lo ≤ q) × (q ≤ length content) × AscendingStarts q ms

  regex_rounds-OnItsLine :
      (lo : ℕ) (scan : Scan) (matches : List (ℕ × ℕ))
      → ValidScan M content skip scan
      → scan.last_newline_counted_up_to ≤ lo
      → AscendingStarts lo matches
      → All (OnItsLine content) (regex_rounds M content skip scan matches)
  unfolding regex_rounds
  regex_rounds-OnItsLine lo scan [] valid h a = tt
  regex_rounds-OnItsLine lo scan ((q, end) ∷ ms) valid h (low, high, a) =
      let skipped = regex_rounds-OnItsLine q scan ms valid (omega arith) a in
      let s = line_start M content skip scan q in
      elim (Bool-cases (ltb q scan.current_line_end)) [
        | inl seen ↦ rw seen skipped
        | inr fresh ↦ elim (Bool-cases (leb (length content) s)) [
          | inl phantom ↦ rw (fresh, phantom) skipped
          | inr line ↦ elim (Bool-cases (ltb (line_end M content skip q) end)) [
            | inl spans ↦ rw (fresh, line, spans) skipped
            | inr within ↦ elim (Bool-cases (s == scan.last_line_start)) [
              | inl same ↦ rw (fresh, line, within, same) skipped
              | inr other ↦
                  let counted = count_lines M content skip scan s in
                  let (found, next, at) =
                    report_lem M content skip fits scan q end valid (omega arith) high in
                  rw (fresh, line, within, other)
                    (
                      found,
                      regex_rounds-OnItsLine q
                          (at_line M content skip counted s (line_end M content skip q)) ms next at
                          a,
                    )
            ]
          ]
        ]
      ]

  -- Where the starts of a regex's matches ascend within the file, and the file has less than
  -- 2 ^ 32 - 1 newlines, every match that `verify_regex` returns has the number of its line,
  -- counted from 1, and its distance from the start of that line.
  pub verify_regex-OnItsLine :
      (matches : List (ℕ × ℕ))
      → AscendingStarts 0 matches
      → All (OnItsLine content) (verify_regex M content skip matches)
  unfolding verify_regex count
  verify_regex-OnItsLine matches a =
      regex_rounds-OnItsLine 0 start_scan matches (refl, inl refl) (omega arith) a
