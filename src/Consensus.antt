-- ===== src/Consensus.antt =====
-- Mitosis/consensus: the rounds of prepare, precommit and commit inside a shard.
pub mod Phase
pub mod Protocol
pub mod Votes
pub mod Leader
pub mod Validator
pub mod Run
pub mod Rebroadcast
pub mod Counted
pub mod Certificates
pub mod Quorum
pub mod Keys
pub mod Honest
