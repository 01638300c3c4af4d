-- ===== src/Index/Commit/Counts.antt =====
-- How many paths a commit goes through.
use syntext.Prelude.{ℕ, suc, ◌≤◌, ◌+◌, ◌≡◌, refl, true, List, [], ◌∷◌, length, is_empty, arith}
use syntext.Index.Pending.{EditKind, changed, deleted, FileEdit, remove_path, fold_edit, fold_edits}
use syntext.Index.Commit.{each_once, remove_each}

pub empty_list : (es : List FileEdit) → is_empty es ≡ true → es ≡ []
empty_list [] h = refl
empty_list (e ∷ es) h = cc

length-remove_path : (p : ℕ) (ps : List ℕ) → length (remove_path p ps) ≤ length ps
unfolding remove_path
length-remove_path p [] = omega arith
length-remove_path p (q ∷ ps) = ground (arith, length-remove_path p ps)

pub length-remove_each : (gone ps : List ℕ) → length (remove_each gone ps) ≤ length ps
unfolding remove_each
length-remove_each [] ps = omega arith
length-remove_each (p ∷ gone) ps =
    omega (arith, length-remove_each gone (remove_path p ps), length-remove_path p ps)

pub length-each_once : (ps : List ℕ) → length (each_once ps) ≤ length ps
unfolding each_once
length-each_once [] = omega arith
length-each_once (p ∷ ps) = ground (arith, length-each_once ps)

fold_kind :
    (k : EditKind) (q : ℕ) (c d : List ℕ)
    → length (fold_edit (record { path = q; kind = k }) (c, d)).0 ≤ suc (length c)
fold_kind changed q c d = omega arith
fold_kind deleted q c d = omega (arith, length-remove_path q c)

length-fold_edit :
    (e : FileEdit) (sets : List ℕ × List ℕ) → length (fold_edit e sets).0 ≤ suc (length sets.0)
length-fold_edit e (c, d) = fold_kind e.kind e.path c d

-- Each edit adds one path to the changed ones at most.
pub length-fold_edits :
    (es : List FileEdit) (sets : List ℕ × List ℕ)
    → length (fold_edits es sets).0 ≤ length es + length sets.0
unfolding fold_edits
length-fold_edits [] sets = omega arith
length-fold_edits (e ∷ es) sets =
    omega (arith, length-fold_edits es (fold_edit e sets), length-fold_edit e sets)
