-- ===== src/Tests/Hook.antt =====
-- Runs of the shell hook, and its theorems at concrete inputs.
use syntext.Prelude.{ℕ, ◌≡◌, refl, none, some, List, [], ◌∷◌, map}
use syntext.Prelude.Text.{chars}
use syntext.Hook.Shell.{Word, ok, parse, render_raw_words, empty_line}
use syntext.Hook.Quote.{as_word, with_command, parse-shell_quote}
use syntext.Hook.Rewrite.{rewritten, rewrite_command_words, rewrite_shell_command}

rewrite_run :
    rewrite_shell_command (chars "LC_ALL=C rg -ni 'a b' src") (chars "st")
    ≡ some (chars "LC_ALL=C st -n -i -- 'a b' src")
unfolding rewrite_shell_command
rewrite_run = refl

grep_run :
    rewrite_shell_command (chars "cd x && grep -rn foo .") (chars "st")
    ≡ some (chars "cd x && st -n -- foo .")
unfolding rewrite_shell_command
grep_run = refl

pipe_run : rewrite_shell_command (chars "rg foo | head") (chars "st") ≡ none
unfolding rewrite_shell_command
pipe_run = refl

fd_run : rewrite_shell_command (chars "rg foo 2>&1") (chars "st") ≡ none
unfolding rewrite_shell_command
fd_run = refl

abbrev nasty : List (List ℕ)
nasty = chars "a'; rm -rf $HOME | x" ∷ [] ∷ chars "2" ∷ []

parse-shell_quote_example :
    parse (render_raw_words (map as_word (chars "st" ∷ nasty)))
    ≡ ok (with_command empty_line (map as_word (chars "st" ∷ nasty)))
parse-shell_quote_example = parse-shell_quote (chars "st") nasty

abbrev env : List Word
env = record { text = chars "A=b c"; raw = chars "A='b c'" } ∷ []

abbrev rg_words : List Word
rg_words = as_word (chars "rg") ∷ as_word (chars "-e") ∷ as_word (chars "a b") ∷ []

rg_words_run : rewrite_command_words rg_words (chars "st") ≡ rewritten (chars "st -e 'a b'")
unfolding rewrite_command_words
rg_words_run = refl
