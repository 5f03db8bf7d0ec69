-- ===== src/Consensus/Honest.antt =====
-- The nodes of Mitosis/consensus that follow the protocol: what they share in a shard, the votes that they
-- send, and what the leader's count and the validators' check make of these votes.
pub mod Tally
pub mod States
pub mod Proposal
pub mod Decision
pub mod Voter
pub mod Round
use mitosis.Prelude.{
  ℕ, zero, suc, ◌+◌, ◌^◌, ◌<◌, ◌≤◌, ◌≡◌, refl, ap, sym, subst, ◌∙◌, ◌≢◌, ◌==◌, leb, true, false,
  List, [], ◌∷◌, ◌++◌, Option, none, some, arith, Between, elem, length, u32, append-nil, lt→ltb,
  Option-cases, inl, inr,
}
use mitosis.Prelude.Ascending.{insert_sorted}
use mitosis.Prelude.Assoc.{lookup}
use mitosis.Types.Bitmap.{Bitmap, get_element, get_size, merge}
use mitosis.Types.Bitmap.Members.{Holds, size-Holds, merge-Holds}
use mitosis.Types.Data.{Block, BftMessage}
use mitosis.Bls.{Herumi, PubKeyDb, get_pub_key, verify_sign}
use mitosis.Bls.Aggregate.{
  BlsLaws, Stored, total, total_one, total-insert_sorted, verify_aggregate-total,
}
use mitosis.Consensus.Phase.{Phase, is_out}
use mitosis.Consensus.Votes.{at_height, vote, check_vote, merge_vote, counted}
use mitosis.Consensus.Validator.{check_certificate}
use mitosis.Consensus.Certificates.{Certified, check_certificate_iff}
use mitosis.Consensus.Protocol.{
  Setting, key_to_node_id, get_key_offset, node_id_to_key, shard_start,
}

-- What the nodes of a shard have in common: their number, the threshold, the secret key of each node by
-- its place, and the text of a hash.
pub record Shard (B : Herumi) : Type 0 where
  pub size : ℕ
  pub threshold : ℕ
  pub secret : ℕ → B.SecretKey
  pub text : ℕ → List ℕ

module _ {B : Herumi} (L : BlsLaws B) (S : Shard B) where
  -- The threshold is more than one vote, and no set of the nodes has secret keys that cancel out.
  pub record IsShard : Type 0 where
    pub small : S.size + 7 < 2 ^ 32
    pub several : 1 < S.threshold
    pub usable :
        (k : ℕ) (ks : List ℕ)
        → Between 0 S.size (k ∷ ks)
        → B.get_public_key (total L S.secret (k ∷ ks)) ≢ B.no_key

  -- The node at place `j` is set up for the shard, and has the public keys of all its nodes.
  pub record IsNode (j : ℕ) (cfg : Setting B) : Type 0 where
    pub below : j < S.size
    pub place : node_id_to_key cfg.config ≡ j
    pub count : cfg.node_num_per_shard ≡ S.size
    pub enough : cfg.consensus_threshold ≡ S.threshold
    pub own : cfg.secret ≡ S.secret j
    pub texts : (h : ℕ) → cfg.hash_bytes h ≡ S.text h
    pub keys :
        (k : ℕ)
        → k < S.size
        → get_pub_key B cfg.store cfg.shard_id (key_to_node_id cfg.config k)
          ≡ some (B.get_public_key (S.secret k))

  -- The sum of the signatures of some nodes, of one text.
  abbrev pub signed_by : List ℕ → List ℕ → B.Sign
  signed_by ks msg = B.sign_byte (total L S.secret ks) msg

  pub signed_by_one : (k : ℕ) (msg : List ℕ) → signed_by (k ∷ []) msg ≡ B.sign_byte (S.secret k) msg
  signed_by_one k msg = ap (λ (s : B.SecretKey). B.sign_byte s msg) (total_one L S.secret k)

  signed_by-insert_sorted :
      (k : ℕ) (ks msg : List ℕ)
      → signed_by (insert_sorted k ks) msg ≡ B.add (signed_by ks msg) (B.sign_byte (S.secret k) msg)
  signed_by-insert_sorted k ks msg =
      ap (λ (s : B.SecretKey). B.sign_byte s msg) (total-insert_sorted L S.secret k ks)
      ∙ L.sign-add (total L S.secret ks) (S.secret k) msg

  -- A message about a block that carries the signatures of some nodes, over the hash and `tail`.
  pub record IsSigned (b : Block) (tail : List ℕ) (ks : List ℕ) (m : BftMessage) : Type 0 where
    pub number : m.block_num ≡ b.height
    pub hash : m.block_hash ≡ b.hash
    pub signature : m.sender_sig ≡ B.serialize (signed_by ks (S.text b.hash ++ tail))
    pub signers : Holds S.size ks m.sender_pubkey_bitmap

  module _ (shard : IsShard) {l : ℕ} {cfg : Setting B} (node : IsNode l cfg) where
    one_usable : (k : ℕ) → k < S.size → B.get_public_key (S.secret k) ≢ B.no_key
    one_usable k h e =
        shard.usable k [] (omega arith) (ap B.get_public_key (total_one L S.secret k) ∙ e)

    -- The signature of one node passes VerifySign.
    pub verify_sign-own :
        (k : ℕ) (msg : List ℕ)
        → k < S.size
        → verify_sign B cfg.store
            (B.serialize (signed_by (k ∷ []) msg))
            msg
            (key_to_node_id cfg.config k)
            cfg.shard_id
          ≡ true
    unfolding verify_sign
    verify_sign-own k msg h =
        rw (verify_sign, signed_by_one k msg, L.deserialize-serialize, node.keys k h)
          (L.verify-sign (S.secret k) msg (one_usable k h))

    key_lem : (k : ℕ) → u32 (k + get_key_offset cfg.config) ≡ key_to_node_id cfg.config k
    unfolding get_key_offset key_to_node_id
    key_lem k = omega arith

    get_pub_key-lookup :
        (db : PubKeyDb B) (id : ℕ)
        → lookup cfg.shard_id cfg.store ≡ some db
        → get_pub_key B cfg.store cfg.shard_id id ≡ lookup id db
    unfolding get_pub_key
    get_pub_key-lookup db id e = rw (get_pub_key, e)

    no_database :
        lookup cfg.shard_id cfg.store ≡ none
        → (id : ℕ) → get_pub_key B cfg.store cfg.shard_id id ≡ none
    unfolding get_pub_key
    no_database e id = rw (get_pub_key, e)

    database :
        (db : PubKeyDb B) × (lookup cfg.shard_id cfg.store ≡ some db)
        × Stored L S.secret db (get_key_offset cfg.config) S.size
    database = elim (Option-cases (lookup cfg.shard_id cfg.store)) [
      | inl e ↦
          absurd
            (ground (arith, node.keys l node.below, no_database e (key_to_node_id cfg.config l)))
      | inr (db, e) ↦
          (db, e, λ k h. rw (key_lem k) (sym (get_pub_key-lookup db _ e) ∙ node.keys k h))
    ]

    -- A message with enough signatures is a certificate.
    pub signed-Certified :
        (b : Block) (tail ks : List ℕ) (m : BftMessage)
        → IsSigned b tail ks m
        → S.threshold ≤ length ks
        → Certified cfg b tail m
    signed-Certified b tail [] m v h = absurd (omega (arith, shard.several))
    signed-Certified b tail (k ∷ ks) m v h =
        let (db, here, stored) = database in
        record {
          same_block = v.hash;
          enough = omega (
            arith,
            h,
            node.enough,
            size-Holds S.size shard.small m.sender_pubkey_bitmap _ v.signers,
          );
          signed =
              rw (v.signature, node.texts b.hash)
                (verify_aggregate-total L S.secret cfg.store db cfg.shard_id
                  (get_key_offset cfg.config) S.size m.sender_pubkey_bitmap (k ∷ ks)
                  (S.text b.hash ++ tail) here stored v.signers.listed v.signers.range
                  (shard.usable k ks v.signers.range));
        }

    pub signer_verified :
        (b : Block) (tail : List ℕ) (j : ℕ) (m : BftMessage)
        → IsSigned b tail (j ∷ []) m
        → verify_sign B cfg.store m.sender_sig
            (cfg.hash_bytes m.block_hash ++ tail)
            (key_to_node_id cfg.config j)
            cfg.shard_id
          ≡ true
    signer_verified b tail j m v =
        rw (v.signature, v.hash, node.texts b.hash) (verify_sign-own j _ v.signers.range.1)

    not_out :
        (b : Block) (step number : ℕ)
        → number ≡ b.height
        → is_out (at_height b.height step) (at_height number step) ≡ false
    unfolding is_out
    not_out b step number e = ground arith

    -- The leader's sum with the signature of a vote.
    sum_lem :
        (b : Block) (tail ks : List ℕ) (j : ℕ) (m : BftMessage)
        → IsSigned b tail (j ∷ []) m
        → B.add (signed_by ks (S.text b.hash ++ tail)) (B.deserialize m.sender_sig)
          ≡ signed_by (insert_sorted j ks) (S.text b.hash ++ tail)
    sum_lem b tail ks j m v =
        rw (v.signature, L.deserialize-serialize, signed_by_one j (S.text b.hash ++ tail))
          (sym (signed_by-insert_sorted j ks (S.text b.hash ++ tail)))

    -- A vote of a node that has not voted is counted.
    pub vote_counted :
        (b : Block) (tail ks : List ℕ) (step j : ℕ) (voters : Bitmap) (m : BftMessage)
        → Holds S.size ks voters
        → length ks < S.threshold
        → IsSigned b tail (j ∷ []) m
        → elem j ks ≡ false
        → (merged : Bitmap) × (vote cfg
              (at_height b.height step)
              step
              tail
              (some b)
              (some voters)
              (some (signed_by ks (S.text b.hash ++ tail)))
              m
            ≡ counted merged (signed_by (insert_sorted j ks) (S.text b.hash ++ tail)))
          × Holds S.size (insert_sorted j ks) merged
    vote_counted b tail ks step j voters m held few v new =
        let (held', (k, rest, fresh)) =
          merge-Holds S.size shard.small voters m.sender_pubkey_bitmap ks j held v.signers new in
        (
          (merge voters m.sender_pubkey_bitmap).0,
          unfold vote check_vote merge_vote in
              ground (
                arith,
                not_out b step m.block_num v.number,
                v.hash,
                size-Holds S.size shard.small voters ks held,
                node.enough,
                v.signers.listed,
                signer_verified b tail j m v,
                fresh,
                sum_lem b tail ks j m v,
              ),
          held',
        )
