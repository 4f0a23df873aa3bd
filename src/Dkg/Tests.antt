-- ===== src/Dkg/Tests.antt =====
-- The profiles of the devnet, and the laws of windows at them.
use devnet_deftrack.Common.{◌≤◌, ◌≡◌, true, some, arith}
use devnet_deftrack.Dkg.Windows.{
  LlmqProfile, Anchor, dkg_windows_covered, dkg_windows_from_anchor, anchor_for_next_window,
  round_work_overlaps,
}
use devnet_deftrack.Dkg.Anchor.{IsNextWindow, anchor_for_next_window-IsNextWindow}
use devnet_deftrack.Dkg.Missed.{dkg_windows_bounds}
use devnet_deftrack.Dkg.Touched.{dkg_windows_possible_low}

-- An interval of 24 blocks with phases of 2, and one of 72 blocks with phases of 4.
abbrev hourly : LlmqProfile
hourly = record { dkg_interval = 24; dkg_phase_blocks = 2 }

abbrev slow : LlmqProfile
slow = record { dkg_interval = 72; dkg_phase_blocks = 4 }

dkg_windows_bounds_example :
    ((dkg_windows_covered 50 hourly).guaranteed ≤ dkg_windows_from_anchor 100 50 hourly 0)
    × (dkg_windows_from_anchor 100 50 hourly 0 ≤ (dkg_windows_covered 50 hourly).possible)
dkg_windows_bounds_example =
    dkg_windows_bounds 100 50 hourly 0 (omega arith) (omega arith) (omega arith)

anchor_for_next_window-IsNextWindow_example :
    (a : Anchor) × (anchor_for_next_window 100 hourly 0 ≡ some a) × IsNextWindow 100 hourly 0 a
anchor_for_next_window-IsNextWindow_example =
    anchor_for_next_window-IsNextWindow 100 hourly 0 (omega arith) (omega arith)

dkg_windows_possible_low_example :
    ((dkg_windows_covered 71 slow).possible ≡ 1)
    × (round_work_overlaps 0 slow (record { from_height = 7; to_height = 77 }) ≡ true)
    × (round_work_overlaps 72 slow (record { from_height = 7; to_height = 77 }) ≡ true)
dkg_windows_possible_low_example = dkg_windows_possible_low slow (omega arith) (omega arith)
