-- ===== src/Paths/FilterMatches.antt =====
-- The filter by bitmaps allows exactly the files whose paths the filter of one path allows.
use syntext.Prelude.{
  ℕ, zero, suc, ◌+◌, ◌%◌, ◌^◌, ◌<◌, ◌≤◌, ◌≡◌, refl, sym, ap, ◌∙◌, Bool, true, false, not, ◌&&◌,
  ◌||◌, inl, inr, Option, none, some, List, [], ◌∷◌, ◌==◌, if◌then◌else◌, is_empty, length,
  get_elem?, All, Bool-cases, OptionAll, arith,
}
use syntext.Prelude.Text.{eq_chars, eq_chars-eq}
use syntext.Tokenizer.Boundaries.{to_ascii_lowercase}
use syntext.Index.Bitmap.{RoaringBitmap}
use syntext.Paths.Names.{after_last, name_of, ascii_lower, extension_of, path_extension}
use syntext.Paths.PathIndex.{PathIndex, files_with_extension, extension_keys}
use syntext.Paths.Metadata.{in_files, lists_key}
use syntext.Paths.Valid.{Consistent}
use syntext.Paths.Glob.{ascii_eq_ignore_case, is_extension, path_has_extension, path_matches_glob}
use syntext.Paths.Filter.{
  any_extension, glob_allows, matches_path_filter, union_found, include_types, subtract_found,
  remove_types, insert_visible, files_matching, Cache, put, cached_or, glob_bitmap, narrow,
  with_types, with_glob, or_all, without_types, build_filter,
}

ascii_eq-lower :
    (a b : List ℕ) → ascii_eq_ignore_case a b ≡ eq_chars (ascii_lower a) (ascii_lower b)
unfolding ascii_eq_ignore_case eq_chars
ascii_eq-lower [] [] = refl
ascii_eq-lower [] (y ∷ b) = refl
ascii_eq-lower (x ∷ a) [] = refl
ascii_eq-lower (x ∷ a) (y ∷ b) =
    ap (λ r. (to_ascii_lowercase x == to_ascii_lowercase y) && r) (ascii_eq-lower a b)

-- The key of a path's extension is a type's, where the path has the type as extension.
key-is_extension :
    (ext : List ℕ) (o : Option (List ℕ))
    → is_empty ext ≡ false
    → lists_key (ascii_lower ext) (extension_keys (extension_of o)) ≡ is_extension ext o
unfolding lists_key
key-is_extension ext none h = refl
key-is_extension [] (some []) h = cc
key-is_extension (e ∷ ext) (some []) h = unfold ascii_eq_ignore_case in refl
key-is_extension ext (some (a ∷ actual)) h = (ground arith) ∙ sym (ascii_eq-lower (a ∷ actual) ext)

abbrev pub IsNamed : List ℕ → Type 0
IsNamed ext = is_empty ext ≡ false

-- No filter allows every file.
abbrev pub allows : (R : RoaringBitmap) → ℕ → Option (RoaringBitmap.Bitmap R) → Bool
allows R i none = true
allows R i (some b) = RoaringBitmap.has R b i

module _ (find : List ℕ → List ℕ → Bool) (R : RoaringBitmap) (text : ℕ → List ℕ) where
  open R use {
    Bitmap, new, insert, union, intersect, subtract, has, has-new, has-insert, has-union,
    has-intersect, has-subtract,
  }

  -- The cached bitmaps are right about the file with id `i` and path `p`.
  abbrev pub IsRight : ℕ → ℕ → Cache find R text → Type 0
  IsRight i p none = Unit {0}
  IsRight i p (some cached) =
      (glob : List ℕ)
      → OptionAll (λ b. has b i ≡ path_matches_glob find (text p) glob) (cached glob)

  abbrev passes : (List ℕ → Bool) → Option (Option ℕ) → Bool
  passes test none = false
  passes test (some none) = false
  passes test (some (some p)) = test (text p)

  insert-if :
      (b : Bool) (id : ℕ) (bm : Bitmap) (i : ℕ)
      → has (if b then insert id bm else bm) i ≡ (has bm i || (b && id == i))
  insert-if true id bm i = has-insert id bm i ∙ ground arith
  insert-if false id bm i = ground arith

  insert_visible-before :
      (test : List ℕ → Bool) (k : ℕ) (files : List (Option ℕ)) (bm : Bitmap) (i : ℕ)
      → k + length files ≤ 2 ^ 32
      → i < k
      → has (insert_visible find R text test k files bm) i ≡ has bm i
  unfolding insert_visible
  insert_visible-before test k [] bm i h l = refl
  insert_visible-before test k (none ∷ files) bm i h l =
      insert_visible-before test (suc k) files bm i (omega arith) (omega arith)
  insert_visible-before test k (some p ∷ files) bm i h l =
      let id : (k % 2 ^ 32 == i) ≡ false = ground arith in
      insert_visible-before test (suc k) files _ i (omega arith) (omega arith)
      ∙ (insert-if (test (text p)) (k % 2 ^ 32) bm i ∙ (rw id (ground arith)))

  insert_visible-has :
      (test : List ℕ → Bool) (k : ℕ) (files : List (Option ℕ)) (bm : Bitmap) (j : ℕ)
      → k + length files ≤ 2 ^ 32
      → has (insert_visible find R text test k files bm) (k + j)
        ≡ (has bm (k + j) || passes test (get_elem? files j))
  unfolding insert_visible
  insert_visible-has test k [] bm j h = ground arith
  insert_visible-has test k (none ∷ files) bm zero h =
      insert_visible-before test (suc k) files bm (k + 0) (omega arith) (omega arith) ∙ ground arith
  insert_visible-has test k (some p ∷ files) bm zero h =
      let id : (k % 2 ^ 32 == k + 0) ≡ true = ground arith in
      insert_visible-before test (suc k) files _ (k + 0) (omega arith) (omega arith)
      ∙ (insert-if (test (text p)) (k % 2 ^ 32) bm (k + 0) ∙ (rw id (ground arith)))
  insert_visible-has test k (none ∷ files) bm (suc j) h =
      let shift : k + suc j ≡ suc k + j = omega arith in
      rw shift (insert_visible-has test (suc k) files bm j (omega arith))
  insert_visible-has test k (some p ∷ files) bm (suc j) h =
      let shift : k + suc j ≡ suc k + j = omega arith in
      let id : (k % 2 ^ 32 == suc k + j) ≡ false = ground arith in
      rw shift (
        insert_visible-has test (suc k) files _ j (omega arith)
        ∙ ap (λ b. b || passes test (get_elem? files j))
            (insert-if (test (text p)) (k % 2 ^ 32) bm (suc k + j) ∙ (rw id (ground arith))))

  module _ (idx : PathIndex R) (c : Consistent R text idx)
      (fits : length idx.file_id_to_path ≤ 2 ^ 32) (i p : ℕ)
      (here : get_elem? idx.file_id_to_path i ≡ some (some p)) where
    visible :
        (test : List ℕ → Bool)
        → has (insert_visible find R text test 0 idx.file_id_to_path new) i ≡ test (text p)
    visible test =
        let e : 0 + i ≡ i = omega arith in
        let at : has (insert_visible find R text test 0 idx.file_id_to_path new) i
            ≡ (has new i || passes test (get_elem? idx.file_id_to_path i)) =
          rw e at (insert_visible-has test 0 idx.file_id_to_path new i (omega arith)) in
        at ∙ (rw (here, has-new i) refl)

    typed :
        (ext : List ℕ)
        → IsNamed ext
        → in_files R (files_with_extension R ext idx) i ≡ path_has_extension (text p) ext
    unfolding path_has_extension path_extension
    typed ext h =
        c.by_extension (ascii_lower ext) i
        ∙ (rw here (
            key-is_extension ext (after_last b'.' (name_of (text p) (after_last b'/' (text p)))) h))

    union_found-has :
        (b : Bitmap) (o : Option Bitmap)
        → has (union_found find R text b o) i ≡ (has b i || in_files R o i)
    union_found-has b none = ground arith
    union_found-has b (some found) = has-union b found i

    subtract_found-has :
        (b : Bitmap) (o : Option Bitmap)
        → has (subtract_found find R text b o) i ≡ (has b i && not (in_files R o i))
    subtract_found-has b none = ground arith
    subtract_found-has b (some found) = has-subtract b found i

    include_types-has :
        (types : List (List ℕ)) (b : Bitmap)
        → All IsNamed types
        → has (include_types find R text idx types b) i ≡ (has b i || any_extension types (text p))
    unfolding include_types any_extension
    include_types-has [] b h = ground arith
    include_types-has (ext ∷ types) b (h, hs) = ground (
      arith,
      include_types-has types (union_found find R text b (files_with_extension R ext idx)) hs,
      union_found-has b (files_with_extension R ext idx),
      typed ext h,
    )

    remove_types-has :
        (types : List (List ℕ)) (b : Bitmap)
        → All IsNamed types
        → has (remove_types find R text idx types b) i
          ≡ (has b i && not (any_extension types (text p)))
    unfolding remove_types any_extension
    remove_types-has [] b h = ground arith
    remove_types-has (ext ∷ types) b (h, hs) = ground (
      arith,
      remove_types-has types (subtract_found find R text b (files_with_extension R ext idx)) hs,
      subtract_found-has b (files_with_extension R ext idx),
      typed ext h,
    )

    with_types-allows :
        (types : List (List ℕ))
        → All IsNamed types
        → allows R i (with_types find R text idx types)
          ≡ not (not (is_empty types) && not (any_extension types (text p)))
    with_types-allows [] h = refl
    with_types-allows (ext ∷ types) h =
        include_types-has (ext ∷ types) new h ∙ (rw (has-new i) (ground arith))

    narrow-allows :
        (o : Option Bitmap) (b : Bitmap)
        → has (narrow find R text o b) i ≡ (allows R i o && has b i)
    narrow-allows none b = refl
    narrow-allows (some r) b = has-intersect r b i

    put-IsRight :
        (glob : List ℕ) (b : Bitmap) (cached : List ℕ → Option Bitmap)
        → has b i ≡ path_matches_glob find (text p) glob
        → IsRight i p (some cached)
        → IsRight i p (some (put find R text glob b cached))
    put-IsRight glob b cached h r key = elim (Bool-cases (eq_chars glob key)) [
      | inl same ↦
          let e : glob ≡ key = eq_chars-eq glob key same in
          rw same (h ∙ ap (path_matches_glob find (text p)) e)
      | inr other ↦ rw other (r key)
    ]

    cached_or-IsRight :
        (glob : List ℕ) (cached : List ℕ → Option Bitmap) (o : Option Bitmap)
        → OptionAll (λ b. has b i ≡ path_matches_glob find (text p) glob) o
        → IsRight i p (some cached)
        → (has (cached_or find R text idx glob cached o).0 i ≡ path_matches_glob find (text p) glob)
          × IsRight i p (cached_or find R text idx glob cached o).1
    cached_or-IsRight glob cached (some b) h r = (h, r)
    cached_or-IsRight glob cached none h r =
        let e = visible (λ path. path_matches_glob find path glob) in
        (e, put-IsRight glob (files_matching find R text idx glob) cached e r)

    glob_bitmap-IsRight :
        (glob : List ℕ) (cache : Cache find R text)
        → IsRight i p cache
        → (has (glob_bitmap find R text idx glob cache).0 i ≡ path_matches_glob find (text p) glob)
          × IsRight i p (glob_bitmap find R text idx glob cache).1
    unfolding glob_bitmap
    glob_bitmap-IsRight glob none r = (visible (λ path. path_matches_glob find path glob), tt)
    glob_bitmap-IsRight glob (some cached) r =
        cached_or-IsRight glob cached (cached glob) (r glob) r

    with_glob-IsRight :
        (glob : Option (List ℕ)) (cache : Cache find R text) (o : Option Bitmap)
        → IsRight i p cache
        → (allows R i (with_glob find R text idx glob cache o).0
            ≡ (allows R i o && glob_allows find glob (text p)))
          × IsRight i p (with_glob find R text idx glob cache o).1
    with_glob-IsRight none cache o r = (ground arith, r)
    with_glob-IsRight (some glob) cache o r =
        let (e, r') = glob_bitmap-IsRight glob cache r in
        (
          narrow-allows o (glob_bitmap find R text idx glob cache).0
              ∙ ap (λ b. allows R i o && b) e,
          r',
        )

    or_all-has : (o : Option Bitmap) → has (or_all find R text idx o) i ≡ allows R i o
    or_all-has none = visible (λ path. true)
    or_all-has (some r) = refl

    without_types-allows :
        (types : List (List ℕ)) (o : Option Bitmap)
        → All IsNamed types
        → allows R i (without_types find R text idx types o)
          ≡ (allows R i o && not (any_extension types (text p)))
    without_types-allows [] o h = unfold any_extension in ground arith
    without_types-allows (ext ∷ types) o h =
        remove_types-has (ext ∷ types) (or_all find R text idx o) h
        ∙ ap (λ b. b && not (any_extension (ext ∷ types) (text p))) (or_all-has o)

    -- Over a consistent path index of at most 2 ^ 32 files, where no type asked for is empty and the
    -- cached globs are right about a file, the filter allows the file exactly where the filter of one
    -- path allows its path, and the cached globs stay right about it.
    pub build_filter-matches :
        (file_types exclude_types : List (List ℕ)) (path_glob : Option (List ℕ))
        (cache : Cache find R text)
        → All IsNamed file_types
        → All IsNamed exclude_types
        → IsRight i p cache
        → (allows R i (build_filter find R text idx file_types exclude_types path_glob cache).0
            ≡ matches_path_filter find (text p) file_types exclude_types path_glob)
          × IsRight i p (build_filter find R text idx file_types exclude_types path_glob cache).1
    unfolding build_filter matches_path_filter
    build_filter-matches file_types exclude_types path_glob cache h k r =
        let typed_only = with_types find R text idx file_types in
        let (e, r') = with_glob-IsRight path_glob cache typed_only r in
        let globbed = (with_glob find R text idx path_glob cache typed_only).0 in
        (
          without_types-allows exclude_types globbed k
              ∙ (rw (e, with_types-allows file_types h) (ground arith)),
          r',
        )
