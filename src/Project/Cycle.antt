-- ===== src/Project/Cycle.antt =====
-- `findCycle` of internal/projectroute/projectroute.go: the graph, the search, and its proof.
pub mod Graph
pub mod Search
mod Edges
mod Paths
pub mod Invariant
pub mod Correct
