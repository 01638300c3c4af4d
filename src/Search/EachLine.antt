-- ===== src/Search/EachLine.antt =====
-- `verify_literal` of verifier.rs misses no line.
use mathlib.Core.List.{Memᴰ}
use mathlib.Core.Path.{subst}
use syntext.Prelude.{
  ℕ, zero, suc, ◌+◌, ◌-◌, ◌^◌, ◌<◌, ◌≤◌, ◌≡◌, ◌⊎◌, refl, sym, ◌∙◌, inl, inr, Bool, List, [], ◌∷◌,
  map, ltb, ◌==◌, length, take, drop, slice, All, Bool-cases, Option-cases, arith, ==_iff,
}
use syntext.Search.Verifier.{
  SearchMatch, count, Memchr, Scan, start_scan, line_start, line_end, count_lines, search_match,
  at_line, literal_rounds, verify_literal,
}
use syntext.Search.LineNumbers.{
  newlines_before, count-split, ValidScan, line_start_lem, report_lem, Ascending,
}

count-take : (n : ℕ) (xs : List ℕ) → count 10 (take n xs) ≤ count 10 xs
unfolding count
count-take zero xs = omega arith
count-take (suc n) [] = omega arith
count-take (suc n) (x ∷ xs) = ground (arith, count-take n xs)

All-imp : {P Q : ℕ → Type 0} (qs : List ℕ) → ((q : ℕ) → P q → Q q) → All P qs → All Q qs
All-imp [] f h = tt
All-imp (q ∷ qs) f (h, hs) = (f q h, All-imp qs f hs)

module _ (M : Memchr) (content : List ℕ) (skip : Bool)
    (fits : newlines_before content (length content) + 1 < 2 ^ 32)
    (addressable : length content < 2 ^ 63) where
  open M use {memchr, memchr_none, memchr_some}

  abbrev pub line_of : ℕ → ℕ
  line_of q = newlines_before content q + 1

  -- No newline stands between a position and the end of its line.
  same_line :
      (r q : ℕ)
      → r ≤ q
      → q ≤ length content
      → q < line_end M content skip r
      → newlines_before content q ≡ newlines_before content r
  unfolding line_end
  same_line r q h k e = elim (Option-cases (memchr 10 (drop r content))) [
    | inl n ↦ omega (
      arith,
      count-split content r q h,
      memchr_none 10 (drop r content) n,
      count-take (q - r) (drop r content),
    )
    | inr (p, s) ↦
        let before : q < r + p = rw s at e in
        omega (
          arith,
          count-split content r q h,
          (memchr_some 10 (drop r content) p s).1,
          count-split (drop r content) (q - r) p (omega arith),
        )
  ]

  -- The line of the last report is known: to this the two tests of a round compare.
  abbrev LastKnown : (ℕ → Type 0) → Scan → ℕ → Type 0
  LastKnown Known scan lo =
      ((scan.current_line_end ≡ 0) × (scan.last_line_start ≡ 2 ^ 64 - 1))
      ⊎ ((r : ℕ) × (r ≤ lo)
          × (scan.current_line_end ≡ line_end M content skip r)
          × (newlines_before content scan.last_line_start ≡ newlines_before content r)
          × Known (line_of r))

  module _ (Known : ℕ → Type 0) (scan : Scan) (lo q : ℕ) where
    still_known : lo ≤ q → LastKnown Known scan lo → LastKnown Known scan q
    still_known low (inl first) = inl first
    still_known low (inr (r, before, end, start, known)) = inr (r, omega arith, end, start, known)

    seen_known :
        lo ≤ q
        → q ≤ length content
        → q < scan.current_line_end
        → LastKnown Known scan lo
        → Known (line_of q)
    seen_known low high inside (inl (none_yet, s)) = absurd (omega arith)
    seen_known low high inside (inr (r, before, end, start, known)) =
        let same = same_line r q (omega arith) high (omega arith) in rw same known

    start_known :
        (s : ℕ)
        → s ≤ q
        → q ≤ length content
        → s ≡ scan.last_line_start
        → count 10 (slice content s q) ≡ 0
        → LastKnown Known scan lo
        → Known (line_of q)
    start_known s to high at clear (inl (none_yet, never)) = absurd (omega arith)
    start_known s to high at clear (inr (r, before, end, start, known)) =
        let same : newlines_before content s ≡ newlines_before content r = rw at start in
        let line : newlines_before content q ≡ newlines_before content r =
          omega (arith, count-split content s q to) in
        rw line known

  reported :
      (Known : ℕ → Type 0) (line first n : ℕ) (rest : List ℕ)
      → line ≡ first
      → (Known n ⊎ (n ≡ line)) ⊎ Memᴰ n rest
      → Known n ⊎ Memᴰ n (first ∷ rest)
  reported Known line first n rest e (inl (inl known)) = inl known
  reported Known line first n rest e (inl (inr here)) = inr (Memᴰ.head (here ∙ e))
  reported Known line first n rest e (inr there) = inr (Memᴰ.tail there)

  abbrev numbers : List SearchMatch → List ℕ
  numbers ms = map SearchMatch.line_number ms

  -- Each position's line is known, or among the reported ones.
  abbrev Covered : (ℕ → Type 0) → List ℕ → List SearchMatch → Type 0
  Covered Known starts ms = All (λ q. Known (line_of q) ⊎ Memᴰ (line_of q) (numbers ms)) starts

  rounds-each :
      (len : ℕ) (Known : ℕ → Type 0) (lo : ℕ) (scan : Scan) (starts : List ℕ)
      → ValidScan M content skip scan
      → scan.last_newline_counted_up_to ≤ lo
      → LastKnown Known scan lo
      → Ascending M content skip fits lo starts
      → Covered Known starts (literal_rounds M content skip len scan starts)
  unfolding literal_rounds search_match
  rounds-each len Known lo scan [] valid h last a = tt
  rounds-each len Known lo scan (q ∷ qs) valid h last (low, high, a) =
      let s = line_start M content skip scan q in
      let (from, to, starts, clear) =
        line_start_lem M content skip scan q valid.1 (omega arith) high in
      let result = literal_rounds M content skip len scan (q ∷ qs) in
      let same_result = literal_rounds M content skip len scan qs in
      let skipped =
        rounds-each len Known q scan qs valid (omega arith) (still_known Known scan lo q low last)
          a in
      elim (Bool-cases (ltb q scan.current_line_end)) [
        | inl seen ↦
            let step : same_result ≡ result = rw seen refl in
            subst (Covered Known (q ∷ qs)) step
              (inl (seen_known Known scan lo q low high (ground arith) last), skipped)
        | inr fresh ↦ elim (Bool-cases (s == scan.last_line_start)) [
          | inl same ↦
              let at : s ≡ scan.last_line_start = ground (arith, ==_iff s scan.last_line_start) in
              let step : same_result ≡ result = rw (fresh, same) refl in
              subst (Covered Known (q ∷ qs)) step
                (inl (start_known Known scan lo q s to high at clear last), skipped)
          | inr other ↦
              let counted = count_lines M content skip scan s in
              let e = line_end M content skip q in
              let (found, next, at) =
                report_lem M content skip fits scan q (q + len) valid (omega arith) high in
              let line : newlines_before content s ≡ newlines_before content q =
                omega (arith, count-split content s q to) in
              let rest =
                rounds-each len (λ n. Known n ⊎ (n ≡ line_of q)) q
                  (at_line M content skip counted s e) qs next at
                  (inr (q, omega arith, refl, line, inr refl)) a in
              let m = search_match M content skip counted.current_line_num s e q (q + len) in
              let after =
                literal_rounds M content skip len (at_line M content skip counted s e) qs in
              let step : m ∷ after ≡ result = rw (fresh, other) refl in
              let number : line_of q ≡ m.line_number = sym found.0 in
              subst (Covered Known (q ∷ qs)) step (
                inr (Memᴰ.head number),
                All-imp qs
                    (λ p h.
                      reported Known (line_of q) m.line_number (line_of p) (numbers after) number h)
                    rest,
              )
        ]
      ]

  known_line : {xs : List ℕ} (q : ℕ) → (line_of q ≡ 0) ⊎ Memᴰ (line_of q) xs → Memᴰ (line_of q) xs
  known_line q (inl e) = absurd (omega arith)
  known_line q (inr m) = m

  -- Where the positions at which a literal was found ascend within the file, the file has less than
  -- 2 ^ 63 bytes and less than 2 ^ 32 - 1 newlines, `verify_literal` reports the line of each of
  -- the positions.
  pub verify_literal_each_line :
      (len : ℕ) (starts : List ℕ)
      → Ascending M content skip fits 0 starts
      → All (λ q. Memᴰ (line_of q) (numbers (verify_literal M content skip len starts))) starts
  unfolding verify_literal count
  verify_literal_each_line len starts a =
      All-imp starts (λ q h. known_line q h)
        (rounds-each len (λ n. n ≡ 0) 0 start_scan starts (refl, inl refl) (omega arith)
          (inl (refl, refl)) a)
