-- ===== src/Consensus.antt =====
-- internal/consensus: proof of work and proof of authority.
pub mod Pow
pub mod Poa
pub mod Stake
