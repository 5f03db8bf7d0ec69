-- ===== src/Consensus/Phase.antt =====
-- Mitosis/consensus/protocol.go: `Phase`, a height and one of the four steps of a round, and its three
-- comparisons.
use mitosis.Prelude.{
  ℕ, ◌≤◌, ◌<◌, ◌≡◌, ◌↔◌, ◌⊎◌, Bool, true, false, ◌&&◌, ◌||◌, ltb, leb, ◌==◌, if◌then◌else◌, arith,
}

pub record Phase : Type 0 where
  pub height : ℕ
  pub bft_phase : ℕ

abbrev pub bft_init : ℕ
bft_init = 0

abbrev pub bft_prepare : ℕ
bft_prepare = 1

abbrev pub bft_precommit : ℕ
bft_precommit = 2

abbrev pub bft_commit : ℕ
bft_commit = 3

unfoldable pub switch : Phase → ℕ → ℕ → Phase
switch p height bft_phase =
    if ltb height p.height || (p.height == height && leb bft_phase p.bft_phase)
    then p
    else record { height = height; bft_phase = bft_phase }

-- Whether `x` is later than `p`.
unfoldable pub is_new : Phase → Phase → Bool
is_new p x =
    if ltb x.height p.height || (p.height == x.height && leb x.bft_phase p.bft_phase)
    then false
    else true

-- Whether `x` is behind `p`.
unfoldable pub is_out : Phase → Phase → Bool
is_out p x =
    if ltb x.height p.height || (p.height == x.height && ltb x.bft_phase p.bft_phase)
    then true
    else false

-- The order of the phases: by height, then by step.
abbrev pub Before : Phase → Phase → Type 0
Before p x = (p.height < x.height) ⊎ ((p.height ≡ x.height) × (p.bft_phase < x.bft_phase))

abbrev pub AtMost : Phase → Phase → Type 0
AtMost p x = (p.height < x.height) ⊎ ((p.height ≡ x.height) × (p.bft_phase ≤ x.bft_phase))

-- `IsNew` and `IsOut` decide the lexicographic order of height and step, `IsNew` that the argument is
-- later and `IsOut` that it is earlier.
pub phase_order :
    (p x : Phase) → ((is_new p x ≡ true) ↔ Before p x) × ((is_out p x ≡ true) ↔ Before x p)
unfolding is_new is_out
phase_order p x = ((λ h. ground arith, λ h. ground arith), (λ h. ground arith, λ h. ground arith))

pub AtMost-refl : (p : Phase) → AtMost p p
AtMost-refl p = ground arith

pub AtMost-trans : (p q r : Phase) → AtMost p q → AtMost q r → AtMost p r
AtMost-trans p q r h g = ground arith

-- `Switch` moves to the later of the two phases: the result is at least either, and is one of them.
pub switch_latest :
    (p : Phase) (height bft_phase : ℕ)
    → let x : Phase = record { height = height; bft_phase = bft_phase } in
      AtMost p (switch p height bft_phase)
      × AtMost x (switch p height bft_phase)
      × ((switch p height bft_phase ≡ p) ⊎ (switch p height bft_phase ≡ x))
unfolding switch
switch_latest p height bft_phase = (ground arith, ground arith, ground arith)
