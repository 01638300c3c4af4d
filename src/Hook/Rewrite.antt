-- ===== src/Hook/Rewrite.antt =====
-- src/hook/core/rewrite.rs: the rewriting of a shell command. The search for an index root is I/O.
use syntext.Prelude.{
  ℕ, Bool, true, false, ◌||◌, Option, none, some, List, [], ◌∷◌, ◌++◌, map, if◌then◌else◌,
}
use syntext.Prelude.Text.{chars, eq_chars}
use syntext.Hook.Shell.{
  Word, ShellItem, Parsed, ok, err, parse, is_env_assignment, shell_quote, render_raw_words,
}
use syntext.Hook.Args.{rewrite_rg_args, rewrite_grep_args, split_once}

pub data SegmentRewrite : Type 0 where
  rewritten : List ℕ → SegmentRewrite
  unchanged unsupported_search : SegmentRewrite

-- `join(" ")`
unfoldable pub join : List (List ℕ) → List ℕ
join [] = []
join (p ∷ []) = p
join (p ∷ q ∷ ps) = p ++ (0x20 ∷ join (q ∷ ps))

abbrev pub quote_pair : List ℕ → List ℕ × Option (List ℕ) → List ℕ
quote_pair text (key, some value) = key ++ (b'=' ∷ shell_quote value)
quote_pair text (key, none) = shell_quote text

unfoldable pub quote_env_assignment : List ℕ → List ℕ
unfolding split_once shell_quote
quote_env_assignment text = quote_pair text (split_once text)

abbrev pub quote_env : Word → List ℕ
quote_env w = quote_env_assignment w.text

unfoldable pub render_rewritten_segment : List Word → List ℕ → List (List ℕ) → List ℕ
unfolding join quote_env_assignment shell_quote
render_rewritten_segment env st_program args =
    join (map quote_env env ++ (shell_quote st_program ∷ map shell_quote args))

-- The words before the command, and those from it on.
abbrev pub cons_env : Word → List Word × List Word → List Word × List Word
cons_env w (env, rest) = (w ∷ env, rest)

unfoldable pub split_env : List Word → List Word × List Word
unfolding is_env_assignment
split_env [] = ([], [])
split_env (w ∷ ws) =
    let rest = cons_env w (split_env ws) in if is_env_assignment w.text then rest else ([], w ∷ ws)

unfoldable pub rewritten_args : List ℕ → List Word → Option (Option (List (List ℕ)))
unfolding rewrite_rg_args rewrite_grep_args eq_chars
rewritten_args command args =
    if eq_chars command (chars "rg")
    then some (rewrite_rg_args args)
    else if eq_chars command (chars "grep")
    then some (rewrite_grep_args args)
    else none

abbrev pub rewrite_segment : List Word → List ℕ → Option (Option (List (List ℕ))) → SegmentRewrite
rewrite_segment env st_program none = unchanged
rewrite_segment env st_program (some none) = unsupported_search
rewrite_segment env st_program (some (some args)) =
    rewritten (render_rewritten_segment env st_program args)

abbrev pub rewrite_from : List ℕ → List Word × List Word → SegmentRewrite
rewrite_from st_program (env, []) = unchanged
rewrite_from st_program (env, w ∷ args) =
    rewrite_segment env st_program (rewritten_args w.text args)

unfoldable pub rewrite_command_words : List Word → List ℕ → SegmentRewrite
unfolding split_env rewritten_args render_rewritten_segment
rewrite_command_words words st_program = rewrite_from st_program (split_env words)

-- The loop over the items, with `changed` and `output`.
unfoldable pub rewrite_items : List ℕ → List ShellItem → Bool → List (List ℕ) → Option (List ℕ)
unfolding rewrite_command_words join render_raw_words
rewrite_items st_program [] changed output = if changed then some (join output) else none
rewrite_items st_program (ShellItem.op o ∷ items) changed output =
    rewrite_items st_program items changed (output ++ (o ∷ []))
rewrite_items st_program (ShellItem.command words ∷ items) changed output =
    elim (rewrite_command_words words st_program) [
      | rewritten rendered ↦ rewrite_items st_program items true (output ++ (rendered ∷ []))
      | unchanged ↦ rewrite_items st_program items changed (output ++ (render_raw_words words ∷ []))
      | unsupported_search ↦ none
    ]

abbrev pub rewrite_line : List ℕ → Parsed → Option (List ℕ)
rewrite_line st_program (err e) = none
rewrite_line st_program (ok line) =
    if line.has_pipe || line.has_redirection || line.has_expansion || line.has_background
    then none
    else rewrite_items st_program line.items false []

unfoldable pub rewrite_shell_command : List ℕ → List ℕ → Option (List ℕ)
unfolding parse rewrite_items
rewrite_shell_command command st_program = rewrite_line st_program (parse command)
