-- ===== src/Query.antt =====
-- src/query: the boolean gram queries, their simplification, the decomposition of a regex into one,
-- and the routing of a pattern.
pub mod GramQuery
pub mod Hir
pub mod Decompose
pub mod Route
pub mod Simplify
pub mod Exact
pub mod Sound
pub mod RouteSound
