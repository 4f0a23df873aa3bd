-- ===== src/Dkg.antt =====
-- server/src/domain/dkgSchedule.ts: when a round of a quorum is due and what its absence means.
pub mod Windows
pub mod Anchor
pub mod Missed
pub mod Touched
mod Tests
use devnet_deftrack.Common.{
  ℕ, zero, suc, ◌+◌, ◌-◌, ◌%◌, String, Bool, true, false, not, ◌&&◌, Option, none, some, List, [],
  ◌∷◌, ltb, leb, if◌then◌else◌,
}

-- `currentRoundHeight`
unfoldable pub current_round_height : (tip dkg_interval quorum_index : ℕ) → ℕ
current_round_height tip dkg_interval quorum_index = tip - tip % dkg_interval + quorum_index

-- `resolvedByHeight`
abbrev pub resolved_by_height : (expected_height dkg_mining_window_end : ℕ) → ℕ
resolved_by_height expected_height dkg_mining_window_end = expected_height + dkg_mining_window_end

-- `absenceIsEvidence`
unfoldable pub absence_is_evidence : ℕ → Option ℕ → Bool
absence_is_evidence expected_height none = true
absence_is_evidence expected_height (some oldest) = leb oldest expected_height

-- `formationGateHeight !== undefined && expectedHeight < formationGateHeight`
abbrev pub is_gated : ℕ → Option ℕ → Bool
is_gated expected_height none = false
is_gated expected_height (some gate) = ltb expected_height gate

-- `formationEndHeight !== undefined && expectedHeight >= formationEndHeight`
abbrev pub is_retired : ℕ → Option ℕ → Bool
is_retired expected_height none = false
is_retired expected_height (some end) = leb end expected_height

-- `isSchedulable`
unfoldable pub is_schedulable : ℕ → (gate end : Option ℕ) → Bool
is_schedulable expected_height gate end =
    not (is_gated expected_height gate) && not (is_retired expected_height end)

-- `retiredObservationHeight`; `tip < end - 1` is `tip + 1 < end`, and an end height is at least 2
unfoldable pub retired_observation_height : ℕ → Option ℕ → Option ℕ
retired_observation_height tip none = none
retired_observation_height tip (some end) = if ltb (tip + 1) end then none else some (end - 2)

-- `RoundOutcome`
pub data RoundOutcome : Type 0 where
  pending formed failed impossible : RoundOutcome

-- `typeof effectiveSize === 'number' && typeof minSize === 'number' && effectiveSize < minSize`
abbrev pub is_too_small : (effective_size min_size : Option ℕ) → Bool
is_too_small (some effective) (some least) = ltb effective least
is_too_small _ _ = false

-- `classifyRound`
unfoldable pub classify_round :
    (tip expected_height dkg_mining_window_end : ℕ)
    → (commitment_seen : Bool) → (effective_size min_size : Option ℕ) → RoundOutcome
classify_round tip expected_height window_end commitment_seen effective_size min_size =
    if commitment_seen
    then formed
    else if ltb tip (resolved_by_height expected_height window_end)
    then pending
    else if is_too_small effective_size min_size
    then impossible
    else failed
