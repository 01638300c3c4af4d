-- ===== src/Search/LineNumbers.antt =====
-- The lines that verifier.rs reports.
use syntext.Prelude.{
  ℕ, zero, suc, ◌+◌, ◌-◌, ◌^◌, ◌<◌, ◌≤◌, ◌≡◌, ◌⊎◌, refl, ap, sym, ◌∙◌, inl, inr, Bool, some, List,
  [], ◌∷◌, ltb, ◌==◌, length, length-take, length-drop, take_nil, take, drop, drop-take, drop_twice,
  slice, slice-take, slice-drop, All, Bool-cases, Option-cases, arith,
}
use syntext.Search.Verifier.{
  SearchMatch, count, Memchr, Scan, start_scan, line_start, line_end, count_lines, search_match,
  at_line, literal_rounds, verify_literal,
}

-- The newlines before a position.
abbrev pub newlines_before : List ℕ → ℕ → ℕ
newlines_before content p = count 10 (take p content)

pub count-split :
    (xs : List ℕ) (a b : ℕ)
    → a ≤ b
    → newlines_before xs b ≡ newlines_before xs a + count 10 (slice xs a b)
unfolding count
count-split xs zero b h = let e : b - 0 ≡ b = omega arith in rw e (omega arith)
count-split [] (suc a) b h = rw (take_nil {A = ℕ} b, take_nil {A = ℕ} (b - suc a)) (omega arith)
count-split (x ∷ xs) (suc a) zero h = omega arith
count-split (x ∷ xs) (suc a) (suc b) h =
    let e : suc b - suc a ≡ b - a = omega arith in
    rw e (ground (arith, count-split xs a b (omega arith)))

-- A line starts here: at the start of the file, or behind a newline.
abbrev pub StartsLine : List ℕ → ℕ → Type 0
StartsLine content s = (s ≡ 0) ⊎ (slice content (s - 1) s ≡ 10 ∷ [])

-- The match is reported with the number of its line, counted from 1, and with its distance from
-- the line's start.
abbrev pub OnItsLine : List ℕ → SearchMatch → Type 0
OnItsLine content m =
    (m.line_number ≡ newlines_before content m.byte_offset + 1)
    × (m.submatch_start ≤ m.byte_offset)
    × StartsLine content (m.byte_offset - m.submatch_start)
    × (count 10 (slice content (m.byte_offset - m.submatch_start) m.byte_offset) ≡ 0)

module _ (M : Memchr) (content : List ℕ) (skip : Bool) where
  open M use {memrchr, memrchr_none, memrchr_some, memchr_count_lem}

  abbrev pub ValidScan : Scan → Type 0
  ValidScan scan =
      (scan.current_line_num ≡ newlines_before content scan.last_newline_counted_up_to + 1)
      × StartsLine content scan.last_newline_counted_up_to

  -- The start of a line that holds `q`, from `w` on.
  abbrev pub LineStart : ℕ → ℕ → ℕ → Type 0
  LineStart w q s = (w ≤ s) × (s ≤ q) × StartsLine content s × (count 10 (slice content s q) ≡ 0)

  last_newline :
      (w q p : ℕ)
      → w ≤ q
      → q ≤ length content
      → memrchr 10 (slice content w q) ≡ some p
      → LineStart w q (w + p + 1)
  last_newline w q p h k e =
      let (inside, at, clear) = memrchr_some 10 (slice content w q) p e in
      let len : length (slice content w q) ≡ q - w =
        length-take (q - w) (drop w content) (omega (arith, length-drop w content)) in
      let same : slice (slice content w q) p (p + 1) ≡ slice content (w + p) (w + p + 1) =
        slice-take (drop w content) (q - w) p (p + 1) (omega arith)
        ∙ slice-drop content w p (p + 1)
        ∙ ap (λ t. slice content (w + p) t) (omega arith) in
      let back : (w + p + 1) - 1 ≡ w + p = omega arith in
      let left : (q - w) - (p + 1) ≡ q - (w + p + 1) = omega arith in
      let place : w + (p + 1) ≡ w + p + 1 = omega arith in
      let rest : drop (p + 1) (slice content w q) ≡ slice content (w + p + 1) q =
        rw (drop-take (p + 1) (q - w) (drop w content), drop_twice w (p + 1) content, left, place)
          refl in
      (omega arith, omega arith, inr (rw back (sym same ∙ at)), rw (← rest) clear)

  pub line_start_lem :
      (scan : Scan) (q : ℕ)
      → StartsLine content scan.last_newline_counted_up_to
      → scan.last_newline_counted_up_to ≤ q
      → q ≤ length content
      → LineStart scan.last_newline_counted_up_to q (line_start M content skip scan q)
  unfolding line_start
  line_start_lem scan q starts h k =
      let w = scan.last_newline_counted_up_to in
      elim (Option-cases (memrchr 10 (slice content w q))) [
        | inl clear ↦ rw clear (omega arith, h, starts, memrchr_none 10 (slice content w q) clear)
        | inr (p, e) ↦ rw e (last_newline w q p h k e)
      ]

  module _ (fits : newlines_before content (length content) + 1 < 2 ^ 32) where
    pub count_lines_lem :
        (scan : Scan) (s : ℕ)
        → ValidScan scan
        → scan.last_newline_counted_up_to ≤ s
        → s ≤ length content
        → StartsLine content s
        → ((count_lines M content skip scan s).current_line_num ≡ newlines_before content s + 1)
          × ((count_lines M content skip scan s).last_newline_counted_up_to ≡ s)
    unfolding count_lines
    count_lines_lem scan s (num, at) h k starts =
        let w = scan.last_newline_counted_up_to in
        elim (Bool-cases (ltb w s)) [
          | inl later ↦
              rw (later, memchr_count_lem 10 (slice content w s), num)
                (
                  omega
                      (arith, count-split content w s h, count-split content s (length content) k),
                  refl,
                )
          | inr here ↦ let same : w ≡ s = ground arith in rw (here, ← same) (num, refl)
        ]

    pub report_lem :
        (scan : Scan) (q end : ℕ)
        → ValidScan scan
        → scan.last_newline_counted_up_to ≤ q
        → q ≤ length content
        → (let s = line_start M content skip scan q in
            let counted = count_lines M content skip scan s in
            OnItsLine content (
              search_match M content skip counted.current_line_num s
                (line_end M content skip q)
                q
                end)
            × ValidScan counted
            × (counted.last_newline_counted_up_to ≤ q))
    unfolding search_match
    report_lem scan q end valid h k =
        let s = line_start M content skip scan q in
        let (low, high, starts, clear) = line_start_lem scan q valid.1 h k in
        let (num, at) = count_lines_lem scan s valid low (omega arith) starts in
        let back : q - (q - s) ≡ s = omega arith in
        (
          (
            omega (arith, num, count-split content s q high),
            omega arith,
            rw back starts,
            rw back clear,
          ),
          (rw at num, rw at starts),
          omega (arith, at),
        )

    -- The positions ascend from `lo` on, within the file.
    abbrev pub Ascending : ℕ → List ℕ → Type 0
    Ascending lo [] = Unit
    Ascending lo (q ∷ qs) = (lo ≤ q) × (q ≤ length content) × Ascending q qs

    literal_rounds-OnItsLine :
        (len lo : ℕ) (scan : Scan) (starts : List ℕ)
        → ValidScan scan
        → scan.last_newline_counted_up_to ≤ lo
        → Ascending lo starts
        → All (OnItsLine content) (literal_rounds M content skip len scan starts)
    unfolding literal_rounds
    literal_rounds-OnItsLine len lo scan [] valid h a = tt
    literal_rounds-OnItsLine len lo scan (q ∷ qs) valid h (low, high, a) =
        let skipped = literal_rounds-OnItsLine len q scan qs valid (omega arith) a in
        elim (Bool-cases (ltb q scan.current_line_end)) [
          | inl seen ↦ rw seen skipped
          | inr fresh ↦
              elim (Bool-cases (line_start M content skip scan q == scan.last_line_start)) [
                | inl same ↦ rw (fresh, same) skipped
                | inr other ↦
                    let s = line_start M content skip scan q in
                    let counted = count_lines M content skip scan s in
                    let (found, next, at) = report_lem scan q (q + len) valid (omega arith) high in
                    rw (fresh, other)
                      (
                        found,
                        literal_rounds-OnItsLine len q
                            (at_line M content skip counted s (line_end M content skip q)) qs next
                            at a,
                      )
              ]
        ]

    -- Where the positions at which a literal was found ascend within the file, and the file has
    -- less than 2 ^ 32 - 1 newlines, every match that `verify_literal` returns has the number of
    -- its line, counted from 1, and its distance from the start of that line.
    pub verify_literal-OnItsLine :
        (len : ℕ) (starts : List ℕ)
        → Ascending 0 starts
        → All (OnItsLine content) (verify_literal M content skip len starts)
    unfolding verify_literal count
    verify_literal-OnItsLine len starts a =
        literal_rounds-OnItsLine len 0 start_scan starts (refl, inl refl) (omega arith) a
