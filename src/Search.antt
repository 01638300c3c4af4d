-- ===== src/Search.antt =====
-- src/search: a query run against a snapshot of the index.
pub mod Postings
pub mod Cardinality
pub mod Execute
pub mod Meaning
pub mod Computes
pub mod Cached
pub mod Posted
pub mod Conjunction
pub mod Exact
pub mod Answers
pub mod Complete
pub mod Candidates
pub mod Probing
pub mod Found
pub mod Verifier
pub mod LineNumbers
pub mod RegexLines
pub mod EachLine
pub mod EmptyLines
