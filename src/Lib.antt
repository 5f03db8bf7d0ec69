-- ===== src/Lib.antt =====
-- Mitosis, a sharded blockchain in Go: relay shards pass on the headers of blocks, partition shards keep
-- accounts and agree on blocks by a consensus of three steps, and a transaction between two partition
-- shards travels as an outbound chunk with a proof against the header of its block.
--
-- Parts and files:
--   Types      Mitosis/types: bitmap.go in Types/Bitmap and its children; the records and their
--              constructors in Types/Data, their copies in Types/Copies, the hashes of transaction.go,
--              header.go and derive_sha.go in Types/Hashing; go-ethereum's encodings and the trie are
--              the records of Types/Libraries.
--   Config     Mitosis/config/config.go: NewConfig is `new_config`; Config/Assign and Config/Layout are
--              about where it puts a node.
--   Topics     Mitosis/topics/topics.go: the constants and the byte that stands for a topic.
--   Bls        Mitosis/bls/bls.go and pubkeydb.go, over herumi's library as the record `Herumi`. Its laws,
--              `BlsLaws`, and sums of signatures are in Bls/Aggregate, the keys of a new store in Bls/Reset.
--   Consensus  Mitosis/consensus: Phase, Protocol (the state `Bft`, the keys), Votes and Leader
--              (leader.go), Validator (validator.go), Run (HandleBFTMsg). The chain is the record
--              `ChainCalls` of the calls that the handlers make. Counted, Certificates, Quorum and Keys are
--              about which votes count, what is committed, thresholds, and the keys of nodes. Honest and its children
--              put a leader and its validators together: Tally, States, Proposal and Decision are about
--              the leader, Voter about a validator, and Round about all of them. Rebroadcast has the loop
--              of TryGossip.
--   Core       Mitosis/core: TxPool (txpool.go), ShardStates (shardstates.go) and Blockchain
--              (blockchain.go: Genesis, CreateNewBlock, CheckBlock, RollBack; Blockchain/Execute has
--              Commit, ExecuteBlock and the bodies of HandleHeaderMsg and HandleInboundChunkMsg). The
--              pool is one object that ShardStates and the blockchain share; it is a field of
--              `ShardStates` here. The calls that are made of the state database are the record
--              `StateCalls`, which Blockchain/Accounts fills with the model of Mitosis/state; the laws
--              that the sums of balances rely on are `LedgerLaws`, which it satisfies.
--   State      Mitosis/state: Journal (journal.go), Objects, Accounts and Roots (state_object.go and
--              statedb.go), Revert (the `revert` of journal.go), Copy. The trie is the record `TrieCalls`, and
--              what is relied on of it `TrieLaws`. Views, Balances and Ledger compare the database with a
--              plain ledger; Tracked, Sound, Kept, Settled, Commit and Reopen are about what gets into
--              the trie; Undo, Undone and Reverted are about the journal, Copied about copies.
--   EventBus   Mitosis/eventbus: listeners, subscriptions and publishing. EventBus/Servers has `Server` of
--              core/blockchain.go and of consensus/protocol.go, which subscribe. EventBus/Delivery and EventBus/Reached are about what listeners get.
--   Message    Mitosis/message/bcmessage.go, and ProcessMessage of Mitosis/p2p/basereader.go. RLP is the
--              record `Codec`.
--   P2p        Mitosis/p2p/node.go and GossipAll of protocol.go: `P2PNode` is `P2pNode`, over libp2p, its gossip
--              and ToString as the record `PubSub`. P2p/Gossip is about what is published, P2p/Launch about
--              how a node comes up; what is relied on of the record is `PubSubLaws`.
--   Prelude    lists, Boolean tests, words, association lists for Go's maps, bits and counting.
--   Tests      runs at concrete inputs, with concrete libraries.
--
-- Integers of the code are numbers that wrap at their width (`u32`, `sub32`). A panic (an index out of
-- range, a nil pointer, a division by zero) is `none`, or `panic` in the handlers of the consensus; an
-- error that a handler returns is `failed`, with the state it leaves. Loops are by structural recursion;
-- the loop over the bits of a byte has eight rounds, after which a byte is 0 (Types/Bitmap/Rounds). A Go map is an
-- association list, and a `range` over it takes one order.
--
-- Handlers run one at a time, and a mutex of the code has no counterpart. `go TryGossip` is an entry in
-- the list of what was sent. The goroutines of GossipAll are a list of the shards that they find.
--
-- The clock and random numbers are arguments. `CheckBlock` waits for the header of an inbound chunk
-- without a bound; where it is not there, the model gives `none`.
--
-- Not modelled: the proofs of the state database; NewBlockchain, which connects the parts, and the file that
-- a leader writes of a block; the trie (Mitosis/trie), a copy of go-ethereum's, whose calls are parameters; the
-- table of peers and the search for peers of Mitosis/p2p, which are calls of libp2p; the cached bytes, the
-- comparison and the hash of messages; files, JSON and RLP.
pub mod Prelude
pub mod Types
pub mod Config
pub mod Topics
pub mod Bls
pub mod Consensus
pub mod Core
pub mod State
pub mod EventBus
pub mod Message
pub mod P2p
pub mod Tests
