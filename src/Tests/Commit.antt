-- ===== src/Tests/Commit.antt =====
-- Runs of a commit, and its theorem at a concrete input.
use syntext.Prelude.{ℕ, ◌≡◌, refl, Bool, true, none, List, [], ◌∷◌, leb, ltb, ◌*◌, contains, arith}
use syntext.Index.Pending.{notify_change, notify_delete, take_for_commit, has_uncommitted}
use syntext.Index.Overlay.{
  empty, next_doc_id, push_doc, add_files, build_incremental, reuse_docs, rebuild,
}
use syntext.Index.Bitmap.{RoaringBitmap}
use syntext.Paths.PathIndex
use syntext.Paths.PathIndex.{PathIndex, insert_id, lookup_id, build_from, build, add_path}
use syntext.Paths.Added.{Valid}
use syntext.Paths.Built.{build-Valid}
use syntext.Index.Commit.{
  ChangedFileOutcome, indexed, Index, Result, ok, doc_count_sum, commit_batch,
}
use syntext.Index.Commit.Visible.{CommitsOrKeeps, commit_batch-CommitsOrKeeps}
use syntext.Tests.Toy.{toy, bytes}
use syntext.Tests.ToyBitmap.{toy_bitmap}

abbrev names : ℕ → List ℕ
names p = bytes "a.rs"

-- More than half.
abbrev over_half : ℕ → ℕ → Bool
over_half n base = ltb base (2 * n)

abbrev contents : ℕ → ChangedFileOutcome
contents p = indexed (bytes "fn main")

abbrev first_index : Index toy toy_bitmap names leb
first_index = record {
  pending = notify_delete 3 (notify_change 2 (record { uncommitted = [] }));
  snapshot = record {
    base = record { doc_counts = 4 ∷ []; base_ids = 0 ∷ []; path_doc_ids = λ p. none };
    overlay = empty;
    delete_set = RoaringBitmap.new toy_bitmap;
    path_index = build toy_bitmap names (1 ∷ 2 ∷ 3 ∷ []);
    overlay_doc_to_file_id = λ id. none;
  };
  flush_book = record { read_epoch = none; non_doc_paths = [] };
}

abbrev committed : Result (Unit {0}) × Index toy toy_bitmap names leb
committed = commit_batch toy toy_bitmap names leb contents over_half 7 true first_index

commit_succeeds : committed.0 ≡ ok tt
unfolding commit_batch has_uncommitted doc_count_sum PathIndex.remove_paths PathIndex.remove_path
    PathIndex.tombstone notify_delete notify_change take_for_commit build build_from add_path
    insert_id lookup_id PathIndex.build_incremental build_incremental rebuild reuse_docs add_files
    push_doc next_doc_id toy_bitmap
commit_succeeds = refl

Valid-index : Valid toy_bitmap names first_index.snapshot.path_index
unfolding contains
Valid-index =
    (build-Valid toy_bitmap names (1 ∷ 2 ∷ 3 ∷ []) (omega arith) (refl, (refl, (refl, tt)))).0

commit_batch-CommitsOrKeeps_example :
    CommitsOrKeeps toy toy_bitmap names leb contents over_half 7 true 2 first_index committed
unfolding build notify_delete notify_change
commit_batch-CommitsOrKeeps_example =
    commit_batch-CommitsOrKeeps toy toy_bitmap names leb contents over_half 7 true first_index
      Valid-index (omega arith) 2
