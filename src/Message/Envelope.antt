-- ===== src/Message/Envelope.antt =====
-- Mitosis/message/bcmessage.go: a message that is marshaled and unmarshaled.
use mitosis.Prelude.{ℕ, true, List, ◌∷◌, some, ◌≡◌, refl, subst, arith, ◌⊎◌, inl, inr}
use mitosis.Types.Data.{Header, OutboundChunk, Block, BftMessage}
use mitosis.Topics.{
  Topic, block_gossip, consensus_leader, consensus_validator, outbound_chunk_gossip, header_gossip,
  to_buffer, prepend, extract,
}
use mitosis.Message.{
  Codec, ReadsBack, Payload, empty, of_block, of_bft, of_chunk, of_header, BlockchainMessage,
  new_blockchain_message, fits, marshal_payload, marshal_binary, read_payload, unmarshal_binary,
}

module _ (R : Codec) where
  -- The bytes of a message, that give it back.
  RoundTrips : Topic → Payload → Type 0
  RoundTrips t content =
      (bytes : List ℕ) × (marshal_payload R t content ≡ some bytes)
      × (unmarshal_binary R bytes ≡ some (new_blockchain_message t content))

  round_block : (b : Block) → ReadsBack R (of_block b) → RoundTrips block_gossip (of_block b)
  unfolding RoundTrips marshal_payload prepend to_buffer unmarshal_binary extract read_payload
  round_block b back = (block_gossip ∷ R.encode_block b, refl, rw back refl)

  round_leader : (m : BftMessage) → ReadsBack R (of_bft m) → RoundTrips consensus_leader (of_bft m)
  unfolding RoundTrips marshal_payload prepend to_buffer unmarshal_binary extract read_payload
  round_leader m back = (consensus_leader ∷ R.encode_bft m, refl, rw back refl)

  round_validator :
      (m : BftMessage) → ReadsBack R (of_bft m) → RoundTrips consensus_validator (of_bft m)
  unfolding RoundTrips marshal_payload prepend to_buffer unmarshal_binary extract read_payload
  round_validator m back = (consensus_validator ∷ R.encode_bft m, refl, rw back refl)

  round_chunk :
      (c : OutboundChunk) → ReadsBack R (of_chunk c) → RoundTrips outbound_chunk_gossip (of_chunk c)
  unfolding RoundTrips marshal_payload prepend to_buffer unmarshal_binary extract read_payload
  round_chunk c back = (outbound_chunk_gossip ∷ R.encode_chunk c, refl, rw back refl)

  round_header : (h : Header) → ReadsBack R (of_header h) → RoundTrips header_gossip (of_header h)
  unfolding RoundTrips marshal_payload prepend to_buffer unmarshal_binary extract read_payload
  round_header h back = (header_gossip ∷ R.encode_header h, refl, rw back refl)

  round_payload :
      (t : Topic) (content : Payload)
      → fits t content ≡ true
      → ReadsBack R content
      → RoundTrips t content
  unfolding fits
  round_payload t empty e back = absurd (ground (arith, e))
  round_payload t (of_block b) e back =
      let same : block_gossip ≡ t = ground (arith, e) in
      subst (λ k. RoundTrips k (of_block b)) same (round_block b back)
  round_payload t (of_bft m) e back =
      let same : (consensus_leader ≡ t) ⊎ (consensus_validator ≡ t) = ground (arith, e) in
      elim same [
        | inl p ↦ subst (λ k. RoundTrips k (of_bft m)) p (round_leader m back)
        | inr p ↦ subst (λ k. RoundTrips k (of_bft m)) p (round_validator m back)
      ]
  round_payload t (of_chunk c) e back =
      let same : outbound_chunk_gossip ≡ t = ground (arith, e) in
      subst (λ k. RoundTrips k (of_chunk c)) same (round_chunk c back)
  round_payload t (of_header h) e back =
      let same : header_gossip ≡ t = ground (arith, e) in
      subst (λ k. RoundTrips k (of_header h)) same (round_header h back)

  -- A message with a payload of the type that its topic goes with is marshaled to bytes, and these are
  -- unmarshaled to the same topic and the same payload, if RLP reads what it wrote of the payload.
  pub unmarshal_binary-marshal_binary :
      (m : BlockchainMessage)
      → fits m.topic m.content ≡ true
      → ReadsBack R m.content
      → (bytes : List ℕ) × (marshal_binary R m ≡ some bytes) × (unmarshal_binary R bytes ≡ some m)
  unfolding marshal_binary RoundTrips
  unmarshal_binary-marshal_binary m e back = round_payload m.topic m.content e back
