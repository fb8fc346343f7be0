-- ===== src/Dpf/Tree.antt =====
-- The invariant of the evaluation tree: what one call of `GenerateNext` does to the nodes.
pub mod Step
pub mod Invariant
pub mod Levels
