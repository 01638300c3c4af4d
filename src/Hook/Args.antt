-- ===== src/Hook/Args.antt =====
-- src/hook/core/rewrite_rg.rs and rewrite_grep.rs: the arguments of rg and grep in terms of st. The
-- loop over `args[i]` is a recursion on `args[i..]`, with a count of the words taken ahead.
use syntext.Prelude.{
  ℕ, zero, suc, Bool, true, false, not, ◌&&◌, ◌||◌, Option, none, some, List, [], ◌∷◌, ◌++◌, ◌==◌,
  ltb, if◌then◌else◌, is_empty, length,
}
use syntext.Prelude.Text.{chars, eq_chars}
use syntext.Hook.Shell.{Word}

-- `split_once('=')`: the name, and the value where there is one.
abbrev pub cons_name : ℕ → List ℕ × Option (List ℕ) → List ℕ × Option (List ℕ)
cons_name c (name, value) = (c ∷ name, value)

unfoldable pub split_once : List ℕ → List ℕ × Option (List ℕ)
split_once [] = ([], none)
split_once (c ∷ cs) =
    let rest = cons_name c (split_once cs) in if c == b'=' then ([], some cs) else rest

-- The variables of the two functions; grep uses `recursive`, rg `has_regexp`.
pub record Options : Type 0 where
  pub options : List (List ℕ)
  pub positionals : List (List ℕ)
  pub flagged : Bool
  pub after_double_dash : Bool

abbrev pub push_option : List ℕ → Options → Options
push_option o s = record s { options = s.options ++ (o ∷ []) }

abbrev pub push_positional : List ℕ → Options → Options
push_positional p s = record s { positionals = s.positionals ++ (p ∷ []) }

-- What the helpers return: the words taken beyond the first, and the state.
abbrev pub Taken : Type 0
Taken = Option ℕ × Options

unfoldable pub push_no_value_long : Option (List ℕ) → List ℕ → Options → Taken
push_no_value_long none flag s = (some 0, push_option flag s)
push_no_value_long (some value) flag s = (none, s)

unfoldable pub push_value_long : Option (List ℕ) → List Word → List ℕ → Options → Taken
push_value_long (some value) args flag s = (some 0, push_option value (push_option flag s))
push_value_long none [] flag s = (none, push_option flag s)
push_value_long none (w ∷ args) flag s = (some 1, push_option w.text (push_option flag s))

abbrev pub flag_where : Taken → Taken
flag_where (none, s) = (none, s)
flag_where (some n, s) = (some n, record s { flagged = true })

unfoldable pub parse_rg_name : List ℕ → Option (List ℕ) → List Word → Options → Taken
unfolding push_no_value_long push_value_long eq_chars
parse_rg_name name value args s =
    if eq_chars name (chars "--line-number")
    then push_no_value_long value (chars "-n") s
    else if eq_chars name (chars "--fixed-strings")
    then push_no_value_long value (chars "-F") s
    else if eq_chars name (chars "--ignore-case")
    then push_no_value_long value (chars "-i") s
    else if eq_chars name (chars "--json")
    then push_no_value_long value (chars "--json") s
    else if eq_chars name (chars "--type")
    then push_value_long value args (chars "-t") s
    else if eq_chars name (chars "--glob")
    then push_value_long value args (chars "-g") s
    else if eq_chars name (chars "--regexp")
    then flag_where (push_value_long value args (chars "-e") s)
    else (none, s)

unfoldable pub has_prefix : List ℕ → List ℕ → Bool
has_prefix [] cs = true
has_prefix (p ∷ ps) [] = false
has_prefix (p ∷ ps) (c ∷ cs) = p == c && has_prefix ps cs

unfoldable pub parse_rg_long : List ℕ → List Word → Options → Taken
unfolding parse_rg_name split_once has_prefix
parse_rg_long arg args s =
    if has_prefix (chars "--") arg
    then (let (name, value) = split_once arg in parse_rg_name name value args s)
    else (none, s)

-- The value of a short flag: the rest of the word, or the next word.
abbrev pub short_value : List ℕ → List ℕ → List Word → Options → Taken
short_value flag [] [] s = (none, push_option flag s)
short_value flag [] (w ∷ args) s = (some 1, push_option w.text (push_option flag s))
short_value flag (c ∷ cs) args s = (some 0, push_option (c ∷ cs) (push_option flag s))

unfoldable pub parse_rg_flags : List ℕ → List Word → Options → Taken
parse_rg_flags [] args s = (some 0, s)
parse_rg_flags (flag ∷ rest) args s =
    let later = λ (o : List ℕ). parse_rg_flags rest args (push_option o s) in
    if flag == b'n'
    then later (chars "-n")
    else if flag == b'F'
    then later (chars "-F")
    else if flag == b'i'
    then later (chars "-i")
    else if flag == b't'
    then short_value (chars "-t") rest args s
    else if flag == b'g'
    then short_value (chars "-g") rest args s
    else if flag == b'e'
    then short_value (chars "-e") rest args (record s { flagged = true })
    else (none, s)

-- `strip_prefix('-')`, with no flag left refused.
abbrev pub parse_rg_short : List ℕ → List Word → Options → Taken
parse_rg_short [] args s = (none, s)
parse_rg_short (dash ∷ rest) args s =
    if is_empty rest then (none, s) else parse_rg_flags rest args s

abbrev pub is_option : List ℕ → Bool
is_option [] = false
is_option (c ∷ cs) = c == b'-' && not (is_empty cs)

-- One word: `none` where the whole command is refused.
abbrev pub short_where_long_fails :
    (List ℕ → List Word → Options → Taken) → List ℕ → List Word → Taken → Taken
short_where_long_fails short arg args (some n, s) = (some n, s)
short_where_long_fails short arg args (none, s) =
    if is_option arg then short arg args s else (some 0, push_positional arg s)

unfoldable pub take_word :
    (List ℕ → List Word → Options → Taken)
    → (List ℕ → List Word → Options → Taken)
    → List ℕ
    → List Word
    → Options
    → Taken
take_word long short arg args s =
    if s.after_double_dash
    then (some 0, push_positional arg s)
    else if eq_chars arg (chars "--")
    then (some 0, record s { after_double_dash = true })
    else short_where_long_fails short arg args (long arg args s)

unfoldable pub take_words :
    (List ℕ → List Word → Options → Taken)
    → (List ℕ → List Word → Options → Taken)
    → ℕ
    → List Word
    → Options
    → Option Options
unfolding take_word
take_words long short ahead [] s = some s
take_words long short (suc ahead) (w ∷ args) s = take_words long short ahead args s
take_words long short zero (w ∷ args) s =
    let (taken, s') = take_word long short w.text args s in
    elim taken [ none ↦ none | some ahead ↦ take_words long short ahead args s' ]

abbrev pub no_options : Options
no_options = record { options = []; positionals = []; flagged = false; after_double_dash = false }

abbrev pub with_positionals : Options → List (List ℕ)
with_positionals s = s.options ++ (chars "--" ∷ s.positionals)

abbrev pub finish_rg : Option Options → Option (List (List ℕ))
finish_rg none = none
finish_rg (some s) =
    if not s.flagged && is_empty s.positionals
    then none
    else if is_empty s.positionals
    then some s.options
    else some (with_positionals s)

unfoldable pub rewrite_rg_args : List Word → Option (List (List ℕ))
unfolding take_words parse_rg_long parse_rg_flags
rewrite_rg_args args = finish_rg (take_words parse_rg_long parse_rg_short 0 args no_options)

abbrev pub only_without_value : Option (List ℕ) → Options → Options → Taken
only_without_value none s' s = (some 0, s')
only_without_value (some value) s' s = (none, s)

abbrev pub binary_files : Option (List ℕ) → List Word → Options → Taken
binary_files none [] s = (none, s)
binary_files none (w ∷ args) s =
    if eq_chars w.text (chars "without-match") then (some 1, s) else (none, s)
binary_files (some value) args s =
    if eq_chars value (chars "without-match") then (some 0, s) else (none, s)

unfoldable pub parse_grep_name : List ℕ → Option (List ℕ) → List Word → Options → Taken
unfolding eq_chars
parse_grep_name name value args s =
    if eq_chars name (chars "--recursive") || eq_chars name (chars "--dereference-recursive")
    then only_without_value value (record s { flagged = true }) s
    else if eq_chars name (chars "--line-number")
    then only_without_value value (push_option (chars "-n") s) s
    else if eq_chars name (chars "--ignore-case")
    then only_without_value value (push_option (chars "-i") s) s
    else if eq_chars name (chars "--fixed-strings")
    then only_without_value value (push_option (chars "-F") s) s
    else if eq_chars name (chars "--binary-files")
    then binary_files value args s
    else (none, s)

unfoldable pub parse_grep_long : List ℕ → List Word → Options → Taken
unfolding parse_grep_name split_once
parse_grep_long arg args s = let (name, value) = split_once arg in parse_grep_name name value args s

unfoldable pub parse_grep_flags : List ℕ → Options → Taken
parse_grep_flags [] s = (some 0, s)
parse_grep_flags (flag ∷ rest) s =
    let later = λ (s' : Options). parse_grep_flags rest s' in
    if flag == b'R' || flag == b'r'
    then later (record s { flagged = true })
    else if flag == b'n'
    then later (push_option (chars "-n") s)
    else if flag == b'i'
    then later (push_option (chars "-i") s)
    else if flag == b'F'
    then later (push_option (chars "-F") s)
    else if flag == b'I'
    then later s
    else (none, s)

abbrev pub parse_grep_short : List ℕ → List Word → Options → Taken
parse_grep_short [] args s = (none, s)
parse_grep_short (dash ∷ rest) args s = if is_empty rest then (none, s) else parse_grep_flags rest s

abbrev pub finish_grep : Option Options → Option (List (List ℕ))
finish_grep none = none
finish_grep (some s) =
    if not s.flagged || ltb (length s.positionals) 2 then none else some (with_positionals s)

unfoldable pub rewrite_grep_args : List Word → Option (List (List ℕ))
unfolding take_words parse_grep_long parse_grep_flags
rewrite_grep_args args = finish_grep (take_words parse_grep_long parse_grep_short 0 args no_options)
