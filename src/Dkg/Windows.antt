-- ===== src/Dkg/Windows.antt =====
-- server/src/domain/dkgWindows.ts: the contribution windows of a profile of quorums, and outages in
-- blocks. Heights are at or above the quorum index.
use devnet_deftrack.Common.{
  ℕ, zero, suc, ◌+◌, ◌-◌, ◌*◌, ◌/◌, ◌%◌, Bool, true, false, ◌&&◌, Option, none, some, ltb, leb,
  ◌==◌, if◌then◌else◌,
}

-- `LlmqProfile`, as far as the windows depend on it
pub record LlmqProfile : Type 0 where
  pub dkg_interval : ℕ
  pub dkg_phase_blocks : ℕ

pub record HeightRange : Type 0 where
  pub from_height : ℕ
  pub to_height : ℕ

-- `contributionWindowFor`
unfoldable pub contribution_window_for :
    (height : ℕ) → LlmqProfile → (quorum_index : ℕ) → HeightRange
contribution_window_for height profile quorum_index =
    let cycle_start = height - (height - quorum_index) % profile.dkg_interval in
    record {
      from_height = cycle_start + profile.dkg_phase_blocks;
      to_height = cycle_start + 2 * profile.dkg_phase_blocks;
    }

-- `roundWorkOverlaps`
unfoldable pub round_work_overlaps : (expected_height : ℕ) → LlmqProfile → HeightRange → Bool
round_work_overlaps expected_height profile range =
    if profile.dkg_phase_blocks == 0
    then false
    else leb (expected_height + profile.dkg_phase_blocks) range.to_height
      && ltb range.from_height (expected_height + 2 * profile.dkg_phase_blocks)

-- `DkgWindowRange`
pub record DkgWindowRange : Type 0 where
  pub guaranteed : ℕ
  pub possible : ℕ

-- `dkgWindowsCovered`; a negative quotient is 0, and `Math.ceil(n / d)` is `(n + d - 1) / d`
unfoldable pub dkg_windows_covered : (duration_blocks : ℕ) → LlmqProfile → DkgWindowRange
dkg_windows_covered duration_blocks profile =
    if duration_blocks == 0 then record { guaranteed = 0; possible = 0 } else record {
      guaranteed = (duration_blocks + 1 - profile.dkg_phase_blocks) / profile.dkg_interval;
      possible = (duration_blocks + 1 + profile.dkg_interval - 1) / profile.dkg_interval;
    }

-- `blocksToGuaranteeWindows`
unfoldable pub blocks_to_guarantee_windows : (windows : ℕ) → LlmqProfile → ℕ
blocks_to_guarantee_windows windows profile =
    if windows == 0 then 0 else windows * profile.dkg_interval + profile.dkg_phase_blocks - 1

pub record Anchor : Type 0 where
  pub start_height : ℕ
  pub duration_blocks : ℕ

-- The loop of `anchorForNextWindow`, for at most `fuel` more cycles.
unfoldable pub anchor_from :
    (fuel cycle not_before : ℕ) → LlmqProfile → (quorum_index : ℕ) → Option Anchor
anchor_from zero cycle not_before profile quorum_index = none
anchor_from (suc fuel) cycle not_before profile quorum_index =
    elim (leb not_before (quorum_index + cycle * profile.dkg_interval + profile.dkg_phase_blocks)) [
      | true ↦ some (record {
        start_height = quorum_index + cycle * profile.dkg_interval + profile.dkg_phase_blocks;
        duration_blocks = profile.dkg_phase_blocks;
      })
      | false ↦ anchor_from fuel (cycle + 1) not_before profile quorum_index
    ]

-- `anchorForNextWindow`: two cycles are enough fuel, by `anchor_for_next_window_lem`.
unfoldable pub anchor_for_next_window :
    (not_before : ℕ) → LlmqProfile → (quorum_index : ℕ) → Option Anchor
unfolding anchor_from
anchor_for_next_window not_before profile quorum_index =
    anchor_from 2 ((not_before - quorum_index) / profile.dkg_interval) not_before profile
      quorum_index

-- The contribution window of a cycle lies within an outage. Cycles are counted from the one before
-- the first of the chain, so that the cycle -1 is 0: both sides have one more interval.
abbrev pub is_missed : (cycle start end : ℕ) → LlmqProfile → (quorum_index : ℕ) → Bool
is_missed cycle start end profile quorum_index =
    leb (start + profile.dkg_interval)
      (quorum_index + cycle * profile.dkg_interval + profile.dkg_phase_blocks)
    && leb (quorum_index + cycle * profile.dkg_interval + 2 * profile.dkg_phase_blocks)
        (end + profile.dkg_interval)

-- The loop of `dkgWindowsFromAnchor` over some cycles.
unfoldable pub count_missed : (cycles cycle start end : ℕ) → LlmqProfile → (quorum_index : ℕ) → ℕ
count_missed zero cycle start end profile quorum_index = 0
count_missed (suc cycles) cycle start end profile quorum_index =
    (if is_missed cycle start end profile quorum_index then 1 else 0)
    + count_missed cycles (cycle + 1) start end profile quorum_index

-- `dkgWindowsFromAnchor`: from one cycle before that of the start to one behind that of the end
unfoldable pub dkg_windows_from_anchor :
    (start duration_blocks : ℕ) → LlmqProfile → (quorum_index : ℕ) → ℕ
unfolding count_missed
dkg_windows_from_anchor start duration_blocks profile quorum_index =
    let end = start + duration_blocks in
    let first = (start - quorum_index) / profile.dkg_interval in
    let last = (end - quorum_index) / profile.dkg_interval + 2 in
    count_missed (last + 1 - first) first start end profile quorum_index
