-- ===== src/Consensus/Quorum.antt =====
-- How much two certificates that `check_certificate` accepts have in common: the threshold of
-- config/config.go is more than two thirds of a shard's nodes.
use mitosis.Prelude.{ℕ, ◌+◌, ◌*◌, ◌^◌, ◌<◌, ◌≤◌, ◌≡◌, ◌&&◌, List, none, length, arith}
use mitosis.Prelude.Count.{count}
use mitosis.Bls.{Herumi}
use mitosis.Config.{threshold}
use mitosis.Types.Bitmap.{IsBytes, member}
use mitosis.Types.Bitmap.Overlap.{beyond, get_size_overlap}
use mitosis.Types.Data.{Block, BftMessage}
use mitosis.Consensus.Certificates.{check_certificate_iff}
use mitosis.Consensus.Validator.{check_certificate}
use mitosis.Consensus.Protocol.{Setting}

-- The threshold is the least number above two thirds, while the product does not wrap.
pub threshold_bounds :
    (n : ℕ) → n * 2 < 2 ^ 32 → (2 * n < 3 * threshold n) × (3 * threshold n ≤ 2 * n + 3)
unfolding threshold
threshold_bounds n h = omega arith

-- Where the threshold is the one that `NewConfig` computes for `n` nodes and `n * 2` does not wrap, take any two
-- messages that pass the checks of a certificate, for whatever blocks and steps, with bitmaps of bytes of
-- fewer than 2 ^ 32 bits. The keys of the shard's `n` nodes that are in both bitmaps, and the keys from `n` on
-- in either, which the checks let pass, are together more than a third of `n`.
pub certificates_overlap :
    (B : Herumi) (cfg : Setting B) (n : ℕ) (b c : Block) (tail_b tail_c : List ℕ) (m k : BftMessage)
    → cfg.consensus_threshold ≡ threshold n
    → n * 2 < 2 ^ 32
    → check_certificate cfg b tail_b m ≡ none
    → check_certificate cfg c tail_c k ≡ none
    → IsBytes m.sender_pubkey_bitmap
    → IsBytes k.sender_pubkey_bitmap
    → length m.sender_pubkey_bitmap * 8 < 2 ^ 32
    → length k.sender_pubkey_bitmap * 8 < 2 ^ 32
    → n
      < 3
        * (count n (λ i. member m.sender_pubkey_bitmap i && member k.sender_pubkey_bitmap i)
            + (beyond n m.sender_pubkey_bitmap + beyond n k.sender_pubkey_bitmap))
certificates_overlap B cfg n b c tail_b tail_c m k t small ok_m ok_k bytes_m bytes_k fits_m fits_k =
    omega (
      arith,
      threshold_bounds n small,
      ((check_certificate_iff cfg b tail_b m).0 ok_m).enough,
      ((check_certificate_iff cfg c tail_c k).0 ok_k).enough,
      get_size_overlap n m.sender_pubkey_bitmap k.sender_pubkey_bitmap bytes_m bytes_k fits_m
          fits_k,
    )
