-- ===== src/Lib.antt =====
-- A verification library of syntext, a hybrid code search index: files are indexed by sparse
-- n-grams, a query is narrowed to a set of candidate documents, and the candidates are verified
-- against their bytes.
--
-- The tokenizer (src/tokenizer) cuts text at boundaries and hashes the spans between them. The
-- indexer records the grams of each document (`build_all`), a query asks for grams that every
-- matching document must have (`build_covering`, `build_covering_inner`), the planner (src/query)
-- turns a pattern into a boolean query over grams. A snapshot of the index (src/index/snapshot.rs)
-- posts doc ids under grams in base segments and an overlay, and the executor
-- (src/search/executor.rs) runs a query on it within a byte budget, through a cache of bitmaps.
--
--   Prelude     names, tests and list lemmas that the files share
--   Tokenizer   src/tokenizer/mod.rs and covering.rs: `Boundaries` (boundary_positions,
--               with_boundary_positions_lower, camel_case_boundaries), `Grams` (build_all and its
--               helpers), `Covering`; their proofs in the other children
--   Query       src/query/mod.rs (`GramQuery`, `Route`) and src/query/regex_decompose.rs
--               (`Decompose`); `Hir` is what the planner sees of the crate regex_syntax
--   Posting     src/posting/mod.rs: the delta-varint codec (`Varint`) and its proofs
--   Index       src/index/snapshot.rs: `PostingCache` and `Snapshot` (all_doc_ids); `Bitmap` is what
--               they use of the crate roaring; `Eviction` and `Valid` hold their proofs;
--               `Pending` and `DeleteSet` are src/index/pending.rs, with proofs in
--               `LastEdit`; `CompactPlan` is src/index/compact_plan.rs, with proofs in
--               `CompactBounds`; `Overlay` is src/index/overlay (build, build_incremental and its
--               delta path, get_doc), with proofs in its children; `Commit` is src/index/commit.rs
--               (commit_batch) with what it calls of helpers.rs and flush.rs, composed of `Pending`,
--               `Overlay`, `DeleteSet` and Paths.PathIndex, with proofs in its children
--   Search      src/search/executor.rs: `Postings` (PostingBudget, posting_bitmap_inner and its
--               callers), `Cardinality` (gram_cardinality, query_cardinality_upper_bound, the sort),
--               `Execute` (execute_query_bitmap, execute_query, should_use_index); `Meaning` says
--               which documents a query selects; `Candidates` is the choice of candidates in
--               search_with_content (src/search/mod.rs); `Verifier` is src/search/verifier.rs
--               (verify_literal, verify_regex,
--               verify_empty); proofs in the other children
--   Codec       files that the index keeps beside its segments, as bytes: `PathsIdx`
--               (src/index/paths_idx.rs), `DeletesIdx` (src/index/deletes_idx.rs) and `Catalogue`
--               (src/changes/codec.rs), over `Reader` (a cursor over bytes), `Le` (to_le_bytes),
--               `Sorted` (the order of the entries) and `Header` (the sidecars' common header);
--               `Roaring` is what they use of the crates roaring and xxhash_rust
--   Segment     src/index/segment/dict_read.rs: `DictRead` (dict_lookup, get_doc, iter_docs), over
--               `Bytes` (checked reads at offsets); proofs in the other children
--   Paths       src/path: `Names` (path_extension, path_components), `PathIndex` (mod.rs: build,
--               build_incremental and the lookups), `Glob` and `Filter` (filter.rs:
--               path_matches_glob, build_filter, matches_path_filter); `GlobMeaning` says what a
--               wildcard pattern means; proofs in the other children
--   Hook        src/hook/core: `Shell` (shell.rs, the lexer of command lines), `Args`
--               (rewrite_rg.rs and rewrite_grep.rs) and `Rewrite` (rewrite.rs); `Posix` says how a POSIX
--               shell splits quoted words; proofs in the other children
--   Tests       runs of the definitions and the theorems at concrete inputs
--
-- Bytes, hashes and positions are numbers; a slice of bytes is a list. The trained bigram table
-- (src/tokenizer/weights.rs) and the hash xxh64 are parameters (`Tables`), and so are the regex
-- parser and the meaning of its trees (`HirSemantics`, with the crate's documented laws): nothing
-- that is proved depends on their values. The searchers of bytes of the crate memchr are a
-- parameter with their documented laws (`Memchr`), and the matches that memmem or a regex finds
-- are a list. Thread-local buffers are left out, since they only save allocations. The cache of a
-- snapshot is passed from step to step; its lock is left out, since a search takes it for one call
-- at a time. Loops are structural recursion, but for the decoder of posting lists, whose fuel is
-- the number of bytes left (each round takes a byte at least), and the writer of a varint, whose
-- fuel is five rounds of seven bits (enough for a u32), and the binary search of a dictionary,
-- whose fuel is the number of its records (each round leaves fewer), and the loop of
-- `glob_matches_bytes`, which goes back to the last star at most once for each byte of the text and
-- takes at most as many rounds between as the text and the pattern have bytes (each takes a byte of
-- one of them). The shell lexer counts, for
-- an operator of several chars, the chars that the next rounds skip. A u32 is a number below 2 ^
-- 32: `varint_decode` checks its sums, the estimates wrap and saturate as in Rust, and the ids of
-- a snapshot fit since src/index/open.rs checks the sum of the segments. The f64 test
-- `is_selective_enough` is a parameter. A sort by keys is an insertion sort; where Rust's is
-- unstable (`should_use_index`), it is one of the orders possible.
--
-- A text of the shell hook is its code points; blanks are those of char::is_whitespace. A file is
-- its bytes or none where it cannot be read; creating, syncing and renaming files is left out, and
-- so is the memory that a decoder reserves ahead. A hash map is the list of its entries, the last
-- of which counts for a key that stands twice. An i64 is its 64-bit pattern. usize has 64 bits.
--
-- For the executor a segment is given by the answers of its methods; `Segment` models those of the
-- dictionary and the document table by their bytes, not yet the posting lists. In the overlay, the
-- commit and the path index a path is a number that stands for it, with its bytes as a function
-- where they count; the order of paths is a parameter, and so is memmem of the crate memchr. A hash
-- map is there a function or an association list, a hash set a list, each of its items once where
-- the code goes through it. An index out of bounds, where the code would panic, is a result of its
-- own (`panics`, or none). What a commit reads of a changed file (`classify_changed_file`), the
-- clock, the writer lock and the comparison of the overlay's share in floating point are arguments;
-- the symbol index, preloaded contents and log lines are left out.
--
-- The rest of src/search, the segment writer and the delta segments, the rest of src/index, the
-- operations of the change catalogue, the settings files of the hook, the command line, the
-- bindings and the crate under context/ are not modelled.
pub mod Prelude
pub mod Tokenizer
pub mod Query
pub mod Posting
pub mod Index
pub mod Search
pub mod Segment
pub mod Paths
pub mod Hook
pub mod Tests
pub mod Codec
