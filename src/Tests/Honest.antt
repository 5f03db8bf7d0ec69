-- ===== src/Tests/Honest.antt =====
-- A round of consensus among three of the four nodes of a shard.
use native.Mathlib.Nat.{add_comm, add_assoc, add-mul}
use mitosis.Prelude.{
  ℕ, zero, suc, ◌+◌, ◌<◌, ◌≡◌, refl, ◌≢◌, Bool, true, false, List, [], ◌∷◌, some, arith, sum,
  Between,
}
use mitosis.Prelude.Assoc.{lookup}
use mitosis.Bls.{get_pub_key}
use mitosis.Bls.Aggregate.{BlsLaws, total}
use mitosis.Consensus.Protocol.{Bft, node_id_to_key, key_to_node_id, shard_start}
use mitosis.Consensus.Leader.{signed_block}
use mitosis.Consensus.Certificates.{Certified}
use mitosis.Consensus.Honest.{Shard, IsShard, IsNode}
use mitosis.Consensus.Honest.Round.{Voter, IsVoter, HasCommitted, Stage, round, honest_round}
use mitosis.Types.Data.{BftMessage}
use mitosis.Tests.Toy.{toy_bls, toy_chain, toy_setting, toy_bft, toy_block}

toy_verify-sign :
    (s : ℕ) (msg : List ℕ)
    → s ≢ 0
    → toy_bls.verify_byte (toy_bls.sign_byte s msg) (some (toy_bls.get_public_key s)) msg ≡ true
toy_verify-sign s msg h = ground arith

abbrev toy_laws : BlsLaws toy_bls
toy_laws = record {
  add_secret = λ s t. s + t;
  no_secret = 0;
  add_secret_comm = λ s t. add_comm s t;
  add_secret_assoc = λ s t u. add_assoc s t u;
  none-add = λ s. omega arith;
  public-none = refl;
  public-add = λ s t. refl;
  sign-add = λ s t msg. add-mul s t (sum msg + 1);
  verify-sign = toy_verify-sign;
  deserialize-serialize = λ s. refl;
}

abbrev toy_shard : Shard toy_bls
toy_shard = record { size = 4; threshold = 3; secret = λ k. 1; text = λ h. h ∷ [] }

toy_usable :
    (k : ℕ) (ks : List ℕ) → Between 0 4 (k ∷ ks) → total toy_laws toy_shard.secret (k ∷ ks) ≢ 0
unfolding total
toy_usable k ks p e = absurd (omega (arith, e))

toy_shard-IsShard : IsShard toy_laws toy_shard
toy_shard-IsShard = record { small = omega arith; several = omega arith; usable = toy_usable }

toy_keys :
    (node : ℕ) (leader : Bool) (k : ℕ)
    → k < 4
    → get_pub_key toy_bls
        (toy_setting node leader).store
        1001
        (key_to_node_id (toy_setting node leader).config k)
      ≡ some 1
unfolding get_pub_key key_to_node_id shard_start lookup
toy_keys node leader zero h = refl
toy_keys node leader (suc zero) h = refl
toy_keys node leader (suc (suc zero)) h = refl
toy_keys node leader (suc (suc (suc zero))) h = refl
toy_keys node leader (suc (suc (suc (suc k)))) h = absurd (omega (arith, h))

toy_IsNode :
    (j : ℕ) (leader : Bool) → j < 4 → IsNode toy_laws toy_shard j (toy_setting (j + 5) leader)
unfolding node_id_to_key shard_start
toy_IsNode j leader h = record {
  below = h;
  place = omega (arith, h);
  count = refl;
  enough = refl;
  own = refl;
  texts = λ h. refl;
  keys = toy_keys (j + 5) leader;
}

-- The leader is the last node, and the first two vote.
abbrev fresh_bft : Bft toy_bls toy_chain
fresh_bft = record (toy_bft 3) {
  phase = record { height = 0; bft_phase = 3 };
  current_block = some (toy_block 0 6);
}

abbrev voter : ℕ → Voter toy_bls
voter j = record { calls = toy_chain; cfg = toy_setting (j + 5) false; state = fresh_bft }

voter-IsVoter : (j : ℕ) → j < 4 → IsVoter toy_laws toy_shard (toy_block 1 7) j (voter j)
voter-IsVoter j h = record {
  node = toy_IsNode j false h;
  votes = refl;
  ready = record {
    behind = ground arith;
    follows = λ h. (refl, refl);
    checked = [];
    accepts = refl;
    writes = λ signature voters. (_, _, refl, refl);
  };
}

honest_round_example :
    (s' : Bft toy_bls toy_chain) × (vs' : List (Voter toy_bls)) × (m : BftMessage) × (round
        (toy_setting 8 true)
        fresh_bft
        (voter 0 ∷ voter 1 ∷ [])
      ≡ some (s', vs'))
    × Certified (toy_setting 8 true) (toy_block 1 7) [] m
    × (some (signed_block (toy_block 1 7) m.sender_sig m.sender_pubkey_bitmap ∷ []) ≡ some s'.chain)
    × Stage
        (HasCommitted toy_laws toy_shard (toy_block 1 7) m)
        (0 ∷ 1 ∷ [])
        (voter 0 ∷ voter 1 ∷ [])
        vs'
honest_round_example =
    honest_round toy_laws toy_shard (toy_block 1 7) (toy_setting 8 true) fresh_bft [] 3 (0 ∷ 1 ∷ [])
      (voter 0 ∷ voter 1 ∷ []) toy_shard-IsShard (toy_IsNode 3 true (omega arith)) refl refl
      (ground arith) (λ signature voters. (_, _, refl, refl))
      (voter-IsVoter 0 (omega arith), (voter-IsVoter 1 (omega arith), tt)) (refl, (refl, tt))
      (omega arith)
