-- ===== src/Chain.antt =====
-- internal/chain: the state of the chain and what a block does to it.
pub mod Apply
pub mod Segment
pub mod Undo
pub mod Value
pub mod State
pub mod Signing
pub mod Blocks
pub mod Reorg
pub mod Engines
pub mod Process
