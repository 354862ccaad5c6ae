-- ===== src/Consensus.antt =====
-- The consensus rules (src/consensus/): one child for each source file.
pub mod Difficulty
pub mod Header
pub mod Rewards
pub mod Policy
pub mod Validation
