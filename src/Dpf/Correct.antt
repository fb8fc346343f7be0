-- ===== src/Dpf/Correct.antt =====
-- That the keys which `GenerateKeysIncremental` returns share the function that the paper asks for.
pub mod Block
pub mod Point
pub mod Points
pub mod Level
pub mod Keys
pub mod Party
pub mod Leaves
pub mod Shares
pub mod Typed
