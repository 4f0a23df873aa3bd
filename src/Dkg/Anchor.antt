-- ===== src/Dkg/Anchor.antt =====
-- server/src/domain/dkgWindows.ts: anchors and the next contribution window.
use mathlib.Core.Path.{ap₂}
use native.Mathlib.Nat.{mul-add-mod_self_right, mod-eq_of_lt, mod-lt, div-add-mod'}
use devnet_deftrack.Common.{
  le→leb, ℕ, ◌+◌, ◌-◌, ◌*◌, ◌/◌, ◌%◌, ◌≤◌, ◌<◌, ◌≡◌, inl, inr, refl, true, some, leb, arith,
  Bool-cases, leb→le, ◌∙◌, ap,
}
use devnet_deftrack.Dkg.Windows.{
  LlmqProfile, Anchor, contribution_window_for, anchor_from, anchor_for_next_window,
}

-- An anchor starts at the contribution window that comes first at or after a height.
pub record IsNextWindow (not_before : ℕ) (profile : LlmqProfile) (q : ℕ) (a : Anchor) : Type 0 where
  pub not_early : not_before ≤ a.start_height
  pub first : a.start_height < not_before + profile.dkg_interval
  pub window :
      contribution_window_for a.start_height profile q
      ≡ record { from_height = a.start_height; to_height = a.start_height + a.duration_blocks }

window_at :
    (c q : ℕ) (profile : LlmqProfile)
    → profile.dkg_phase_blocks < profile.dkg_interval
    → let start = q + c * profile.dkg_interval + profile.dkg_phase_blocks in
      contribution_window_for start profile q
      ≡ record { from_height = start; to_height = start + profile.dkg_phase_blocks }
unfolding contribution_window_for
window_at c q profile h =
    let start = q + c * profile.dkg_interval + profile.dkg_phase_blocks in
    let offset : start - q ≡ c * profile.dkg_interval + profile.dkg_phase_blocks = omega arith in
    let stage : (start - q) % profile.dkg_interval ≡ profile.dkg_phase_blocks =
      ap (λ x. x % profile.dkg_interval) offset
      ∙ mul-add-mod_self_right c profile.dkg_interval profile.dkg_phase_blocks
      ∙ mod-eq_of_lt h in
    let from : start - (start - q) % profile.dkg_interval + profile.dkg_phase_blocks ≡ start =
      omega (arith, stage) in
    let to : start - (start - q) % profile.dkg_interval + 2 * profile.dkg_phase_blocks
        ≡ start + profile.dkg_phase_blocks =
      omega (arith, stage) in
    ap₂ (λ x y. record { from_height = x; to_height = y }) from to

-- For a profile whose phases are shorter than its interval, the search for an anchor ends within two
-- cycles, at the contribution window that comes first at or after the given height, and lasts for
-- that window.
pub anchor_for_next_window-IsNextWindow :
    (not_before : ℕ) (profile : LlmqProfile) (q : ℕ)
    → profile.dkg_phase_blocks < profile.dkg_interval
    → q ≤ not_before
    → (a : Anchor) × (anchor_for_next_window not_before profile q ≡ some a)
      × IsNextWindow not_before profile q a
unfolding anchor_for_next_window anchor_from
anchor_for_next_window-IsNextWindow not_before profile q h le =
    let c = (not_before - q) / profile.dkg_interval in
    let split = div-add-mod' (not_before - q) profile.dkg_interval in
    let rest : (not_before - q) % profile.dkg_interval < profile.dkg_interval =
      mod-lt (not_before - q) (omega arith) in
    let start = q + c * profile.dkg_interval + profile.dkg_phase_blocks in
    let next = q + (c + 1) * profile.dkg_interval + profile.dkg_phase_blocks in
    let longer : (c + 1) * profile.dkg_interval ≡ c * profile.dkg_interval + profile.dkg_interval =
      omega arith in
    elim (Bool-cases (leb not_before start)) [
      | inl now ↦ (
        record { start_height = start; duration_blocks = profile.dkg_phase_blocks },
        rw (now, anchor_from) refl,
        record {
          not_early = leb→le not_before start now;
          first = omega arith;
          window = window_at c q profile h;
        },
      )
      | inr later ↦
          let reached : leb not_before next ≡ true = le→leb not_before next (omega arith) in
          let passed : start < not_before = ground arith in
          (
            record { start_height = next; duration_blocks = profile.dkg_phase_blocks },
            rw (later, anchor_from) (rw (reached, anchor_from) refl),
            record {
              not_early = leb→le not_before next reached;
              first = omega arith;
              window = window_at (c + 1) q profile h;
            },
          )
    ]
