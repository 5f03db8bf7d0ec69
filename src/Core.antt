-- ===== src/Core.antt =====
-- Mitosis/core: the pool of transactions, the states of the other shards, and the blockchain.
pub mod TxPool
pub mod ShardStates
pub mod Blockchain
