-- ===== src/Dkg/Touched.antt =====
-- `dkgWindowsCovered` of server/src/domain/dkgWindows.ts against `roundWorkOverlaps`: the windows that
-- an outage touches.
use native.Mathlib.Nat.{mod-lt, div-add-mod', mul-le-mul_right, le-div_iff_mul-le}
use devnet_deftrack.Common.{
  ℕ, ◌+◌, ◌-◌, ◌*◌, ◌/◌, ◌%◌, ◌≤◌, ◌<◌, ◌≡◌, inl, inr, true, false, leb, ◌==◌, arith, Bool-cases,
  leb→le,
}
use devnet_deftrack.Dkg.Windows.{LlmqProfile, HeightRange, dkg_windows_covered, round_work_overlaps}

one_and_a_bit : (d : ℕ) → 1 < d → (d + d - 1) / d ≡ 1
one_and_a_bit d h =
    let split = div-add-mod' (d + d - 1) d in
    let rest : (d + d - 1) % d < d = mod-lt (d + d - 1) (omega arith) in
    let at_least : 1 ≤ (d + d - 1) / d = (le-div_iff_mul-le (omega arith)).1 (omega arith) in
    elim (Bool-cases (leb 2 ((d + d - 1) / d))) [
      | inl two ↦
          let more = mul-le-mul_right d (leb→le 2 ((d + d - 1) / d) two) in absurd (omega arith)
      | inr fewer ↦ ground arith
    ]

-- The blocks of an outage.
abbrev pub outage_blocks : (start duration : ℕ) → HeightRange
outage_blocks start duration = record { from_height = start; to_height = start + duration - 1 }

-- For a profile with phases of three blocks or more, an outage one block shorter than the interval that
-- starts at the last block of the first contribution window overlaps that window and the next one,
-- although the possible number of windows for its length is one.
pub dkg_windows_possible_low :
    (profile : LlmqProfile)
    → 3 ≤ profile.dkg_phase_blocks
    → 2 * profile.dkg_phase_blocks ≤ profile.dkg_interval
    → let duration = profile.dkg_interval - 1 in
      let start = 2 * profile.dkg_phase_blocks - 1 in
      let outage = outage_blocks start duration in
      ((dkg_windows_covered duration profile).possible ≡ 1)
      × (round_work_overlaps 0 profile outage ≡ true)
      × (round_work_overlaps profile.dkg_interval profile outage ≡ true)
unfolding dkg_windows_covered round_work_overlaps
dkg_windows_possible_low profile phase room =
    let lasting : (profile.dkg_interval - 1 == 0) ≡ false = ground arith in
    let some_phase : (profile.dkg_phase_blocks == 0) ≡ false = ground arith in
    let sum : profile.dkg_interval - 1 + 1 + profile.dkg_interval - 1
        ≡ profile.dkg_interval + profile.dkg_interval - 1 =
      omega arith in
    (
      rw (lasting, dkg_windows_covered) (rw sum (one_and_a_bit profile.dkg_interval (omega arith))),
      rw (some_phase, round_work_overlaps) (ground arith),
      rw (some_phase, round_work_overlaps) (ground arith),
    )
