-- ===== src/Consensus/Rebroadcast.antt =====
-- TryGossip of Mitosis/consensus/protocol.go: the loop that sends a message again as long as its phase lasts.
use mitosis.Prelude.{ℕ, ◌+◌, ◌≡◌, refl, List, [], ◌∷◌, if◌then◌else◌, length, arith}
use mitosis.Consensus.Phase.{Phase, is_out}

-- The turns after which the phase was not over.
abbrev pub lasting : Phase → List Phase → ℕ
lasting phase [] = 0
lasting phase (p ∷ found) =
    let later = lasting phase found in if is_out p phase then later else 1 + later

module _ {ℓ} {M : Type ℓ} where
  -- What the first turns of the loop gossip, which has no end. `found` are the node's phases after the waits.
  unfoldable pub try_gossip : Phase → M → List Phase → List M
  try_gossip phase message [] = []
  try_gossip phase message (p ∷ found) =
      let later = try_gossip phase message found in
      message ∷ (if is_out p phase then later else message ∷ later)

  -- Every turn sends the message once, over or not, and the turns that find the phase lasting send it twice.
  pub length-try_gossip :
      (phase : Phase) (message : M) (found : List Phase)
      → length (try_gossip phase message found) ≡ length found + lasting phase found
  unfolding try_gossip
  length-try_gossip phase message [] = refl
  length-try_gossip phase message (p ∷ found) =
      ground (arith, length-try_gossip phase message found)
