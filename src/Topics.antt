-- ===== src/Topics.antt =====
-- Mitosis/topics/topics.go: `type Topic uint8` and its constants (`Data` is `payload` here), and the byte
-- that stands for a topic before a message. The names of the topics, which are printed, are left out.
use mitosis.Prelude.{
  ℕ, ◌==◌, ltb, if◌then◌else◌, Bool, true, false, List, [], ◌∷◌, ◌++◌, Option, none, some, length,
  get_elem?, suc, ◌≡◌, refl, ◌%◌,
}

abbrev pub Topic : Type 0
Topic = ℕ

abbrev pub version : Topic
version = 0

abbrev pub unknown : Topic
unknown = 1

abbrev pub reject : Topic
reject = 2

abbrev pub payload : Topic
payload = 3

abbrev pub get_data : Topic
get_data = 4

abbrev pub pub_gossip : Topic
pub_gossip = 5

abbrev pub header_gossip : Topic
header_gossip = 6

abbrev pub block_gossip : Topic
block_gossip = 7

abbrev pub m_block_gossip : Topic
m_block_gossip = 8

abbrev pub tx_gossip : Topic
tx_gossip = 9

abbrev pub outbound_chunk_gossip : Topic
outbound_chunk_gossip = 10

abbrev pub state_block_gossip : Topic
state_block_gossip = 11

abbrev pub consensus_leader : Topic
consensus_leader = 12

abbrev pub consensus_validator : Topic
consensus_validator = 13

abbrev pub cshard_validate_request : Topic
cshard_validate_request = 14

abbrev pub mshard_validate_request : Topic
mshard_validate_request = 15

abbrev pub validate_result : Topic
validate_result = 16

abbrev pub shard_reject : Topic
shard_reject = 17

abbrev pub shard_challenge : Topic
shard_challenge = 18

-- The array `Topics`, with the buffer of each topic.
abbrev pub topics : List (Topic × List ℕ)
topics =
    (version, version ∷ [])
    ∷ (unknown, unknown ∷ [])
    ∷ (reject, reject ∷ [])
    ∷ (payload, payload ∷ [])
    ∷ (get_data, get_data ∷ [])
    ∷ (pub_gossip, pub_gossip ∷ [])
    ∷ (header_gossip, header_gossip ∷ [])
    ∷ (block_gossip, block_gossip ∷ [])
    ∷ (m_block_gossip, m_block_gossip ∷ [])
    ∷ (tx_gossip, tx_gossip ∷ [])
    ∷ (outbound_chunk_gossip, outbound_chunk_gossip ∷ [])
    ∷ (state_block_gossip, state_block_gossip ∷ [])
    ∷ (consensus_leader, consensus_leader ∷ [])
    ∷ (consensus_validator, consensus_validator ∷ [])
    ∷ (cshard_validate_request, cshard_validate_request ∷ [])
    ∷ (mshard_validate_request, mshard_validate_request ∷ [])
    ∷ (validate_result, validate_result ∷ [])
    ∷ (shard_reject, shard_reject ∷ [])
    ∷ (shard_challenge, shard_challenge ∷ [])
    ∷ []

-- Whether each topic stands at its index; `init` panics where one does not.
unfoldable pub check_consistency : ℕ → List (Topic × List ℕ) → Bool
check_consistency i [] = true
check_consistency i ((t, buf) ∷ rest) =
    let later = check_consistency (suc i) rest in if i % 256 == t then later else false

abbrev pub buffer_of : Option (Topic × List ℕ) → Option (List ℕ)
buffer_of none = none
buffer_of (some (t, buf)) = some buf

-- `ToBuffer`; an index that is out of range panics.
unfoldable pub to_buffer : Topic → Option (List ℕ)
to_buffer t = buffer_of (get_elem? topics t)

abbrev pub put_before : List ℕ → Option (List ℕ) → Option (List ℕ)
put_before bytes none = none
put_before bytes (some buf) = some (buf ++ bytes)

unfoldable pub prepend : List ℕ → Topic → Option (List ℕ)
unfolding to_buffer
prepend bytes t = put_before bytes (if ltb (length topics) t then some (t ∷ []) else to_buffer t)

-- The topic, and what is left to read; an empty reader is an error.
unfoldable pub extract : List ℕ → Option (Topic × List ℕ)
extract [] = none
extract (t ∷ rest) = some (t, rest)

unfoldable pub write : List ℕ → Topic → List ℕ
write w t = w ++ (t ∷ [])

topics_consistent : check_consistency 0 topics ≡ true
unfolding check_consistency
topics_consistent = refl
