-- ===== src/SafeDrop.antt =====
-- The detector of use after free, double free and dangling pointers (rapx/src/analysis/safedrop).
pub mod UnionFind
pub mod Types
pub mod State
pub mod Nodes
pub mod CheckBugs
pub mod Transfer
pub mod Component
pub mod Check
pub mod Build
pub mod Scc
mod Tests
