-- ===== src/Dsl.antt =====
-- server/src/domain/dslSchedule.ts and dslEnforcement.ts: when a service commitment of the Sentinel Layer may be
-- mined, and what is read from one. The child Order models dslCanonicalOrder.ts.
pub mod Order
pub mod Boundaries
pub mod Texts
pub mod Naming
mod Tests
use devnet_deftrack.Common.{
  ℕ, ◌+◌, ◌-◌, ◌*◌, ◌/◌, ◌%◌, Bool, true, false, not, ◌&&◌, ◌||◌, Option, none, some, leb, ltb,
  ◌==◌, if◌then◌else◌,
}

-- `epochOf`
abbrev pub epoch_of : (height epoch_interval : ℕ) → ℕ
epoch_of height epoch_interval = height / epoch_interval

-- `isBoundary`
unfoldable pub is_boundary : (height epoch_interval : ℕ) → Bool
is_boundary height epoch_interval =
    ltb 0 epoch_interval && height % epoch_interval == 0 && ltb 0 height

-- `closedEpochAt`, at a boundary, which is above the first interval's start
unfoldable pub closed_epoch_at : (boundary_height epoch_interval : ℕ) → ℕ
closed_epoch_at boundary_height epoch_interval = boundary_height / epoch_interval - 1

-- `boundaryOf`
unfoldable pub boundary_of : (epoch epoch_interval : ℕ) → ℕ
boundary_of epoch epoch_interval = (epoch + 1) * epoch_interval

-- `Math.ceil(m / n)`
abbrev pub ceil_div : ℕ → ℕ → ℕ
ceil_div m n = if m % n == 0 then m / n else m / n + 1

-- `firstCommittableBoundary`
unfoldable pub first_committable_boundary : (activation_height epoch_interval : ℕ) → ℕ
first_committable_boundary activation_height epoch_interval =
    ceil_div (activation_height + epoch_interval) epoch_interval * epoch_interval

-- `isCommittable`
unfoldable pub is_committable : (boundary_height activation_height epoch_interval : ℕ) → Bool
unfolding is_boundary first_committable_boundary
is_committable boundary_height activation_height epoch_interval =
    if leb activation_height 0
    then false
    else is_boundary boundary_height epoch_interval
      && leb (first_committable_boundary activation_height epoch_interval) boundary_height

-- `isMassOutage`, with `DSL_MASS_OUTAGE_PCT`
unfoldable pub is_mass_outage : (missed_count list_size : Option ℕ) → Bool
is_mass_outage none list_size = false
is_mass_outage (some missed) none = false
is_mass_outage (some missed) (some size) =
    if leb size 0 then false else leb (size * 15) (missed * 100)

-- `DslEnforcementState`
pub record DslEnforcementState : Type 0 where
  pub height : Option ℕ
  pub active : Bool

-- `dslEnforcementState`
unfoldable pub dsl_enforcement_state :
    (enforcement_height : ℕ) → (indexed_tip : Option ℕ) → DslEnforcementState
dsl_enforcement_state enforcement_height indexed_tip =
    if leb enforcement_height 0 then record { height = none; active = false } else record {
      height = some enforcement_height;
      active = elim indexed_tip [ none ↦ false | some tip ↦ leb enforcement_height tip ];
    }
