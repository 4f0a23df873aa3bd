-- ===== src/RunState.antt =====
-- server/src/domain/simulationRunState.ts: the statuses, events and record of one simulation run,
-- and a new run. The children model the transition and the reconcile, and prove laws of them.
pub mod Transition
pub mod Reconcile
pub mod WellFormed
pub mod Laws
pub mod Accepts
pub mod Overdue
pub mod Reach
pub mod Sweep
pub mod OnTime
mod Tests
use devnet_deftrack.Common.{
  ℕ, ◌+◌, ◌*◌, String, Bool, true, false, not, ◌&&◌, ◌||◌, Option, none, some, leb, ltb, ◌==◌,
  Result, ok, err, ◌>>=◌, ◌>>◌, throw_if, is_blank, is_safe_integer,
}

pub data Status : Type 0 where
  draft preflight rejected scheduled baseline armed activation_pending fault_active : Status
  observing aborting recovery cooldown completed aborted failed : Status

-- The position in `SIMULATION_RUN_STATUSES`, by which two statuses are compared.
abbrev pub status_index : Status → ℕ
status_index draft = 0
status_index preflight = 1
status_index rejected = 2
status_index scheduled = 3
status_index baseline = 4
status_index armed = 5
status_index activation_pending = 6
status_index fault_active = 7
status_index observing = 8
status_index aborting = 9
status_index recovery = 10
status_index cooldown = 11
status_index completed = 12
status_index aborted = 13
status_index failed = 14

-- `a === b` on statuses
abbrev pub same_status : Status → Status → Bool
same_status a b = status_index a == status_index b

pub data EventType : Type 0 where
  begin_preflight preflight_passed preflight_rejected begin_baseline baseline_completed : EventType
  dry_run_completed begin_activation activate_fault begin_observation begin_recovery : EventType
  recovery_succeeded recovery_failed cooldown_completed abort_requested : EventType

-- The event types of a transition record: an event's own, and those of the system.
pub data TransitionType : Type 0 where
  event : EventType → TransitionType
  system_timeout system_resume_recovery system_cooldown_complete : TransitionType

-- The position in `SIMULATION_RUN_EVENT_TYPES`.
abbrev pub event_index : EventType → ℕ
event_index begin_preflight = 0
event_index preflight_passed = 1
event_index preflight_rejected = 2
event_index begin_baseline = 3
event_index baseline_completed = 4
event_index dry_run_completed = 5
event_index begin_activation = 6
event_index activate_fault = 7
event_index begin_observation = 8
event_index begin_recovery = 9
event_index recovery_succeeded = 10
event_index recovery_failed = 11
event_index cooldown_completed = 12
event_index abort_requested = 13

-- `a === b` on a recorded event type and that of an event
abbrev pub same_type : TransitionType → EventType → Bool
same_type (event a) b = event_index a == event_index b
same_type _ _ = false

pub record ChainAnchor : Type 0 where
  pub height : ℕ
  pub hash : String

-- What an event carries beside its id and time; the union of the event interfaces.
pub data Payload : Type 0 where
  plain : EventType → Payload
  activation : (fault_lease_expires_at_ms : ℕ) → Payload
  fault : (fault_lease_expires_at_ms : ℕ) → (chain_tip : Option ChainAnchor) → Payload
  recovered : (chain_tip : Option ChainAnchor) → Payload

pub record Event : Type 0 where
  pub event_id : String
  pub at_ms : ℕ
  pub payload : Payload

pub record TransitionRecord : Type 0 where
  pub event_id : String
  pub event_type : TransitionType
  pub source : Status
  pub to : Status
  pub at_ms : ℕ
  pub reason : Option String

pub record RunState : Type 0 where
  pub run_key : String
  pub status : Status
  pub revision : ℕ
  pub live : Bool
  pub created_at_ms : ℕ
  pub updated_at_ms : ℕ
  pub state_entered_at_ms : ℕ
  pub cooldown_expires_at_ms : Option ℕ
  pub run_expires_at_ms : ℕ
  pub fault_activated_tip : Option ChainAnchor
  pub recovered_tip : Option ChainAnchor
  pub fault_lease_expires_at_ms : Option ℕ
  pub fault_may_be_active : Bool
  pub abort_requested : Bool
  pub last_transition : Option TransitionRecord

-- The codes of `SimulationStateError`; the messages are left out.
pub data StateError : Type 0 where
  invalid_input invalid_transition event_id_reused stale_event : StateError
  run_expired invalid_fault_lease : StateError

-- `createSimulationRunState`
unfoldable pub create_run : String → Bool → ℕ → ℕ → Result StateError RunState
create_run run_key live created_at_ms run_expires_at_ms = do
  throw_if (is_blank run_key) invalid_input
  throw_if
      (not (is_safe_integer created_at_ms)
        || not (is_safe_integer run_expires_at_ms)
        || leb run_expires_at_ms created_at_ms)
      invalid_input
  ok (record {
    run_key = run_key;
    status = draft;
    revision = 0;
    live = live;
    created_at_ms = created_at_ms;
    updated_at_ms = created_at_ms;
    state_entered_at_ms = created_at_ms;
    cooldown_expires_at_ms = none;
    run_expires_at_ms = run_expires_at_ms;
    fault_activated_tip = none;
    recovered_tip = none;
    fault_lease_expires_at_ms = none;
    fault_may_be_active = false;
    abort_requested = false;
    last_transition = none;
  })

-- `COOLDOWN_BUDGET_MS`
abbrev pub cooldown_budget_ms : ℕ
cooldown_budget_ms = 15 * 60_000

-- `ABORTABLE_STATUSES`
unfoldable pub is_abortable : Status → Bool
is_abortable draft = true
is_abortable preflight = true
is_abortable scheduled = true
is_abortable baseline = true
is_abortable armed = true
is_abortable activation_pending = true
is_abortable fault_active = true
is_abortable observing = true
is_abortable cooldown = true
is_abortable _ = false

-- `isTerminalSimulationStatus`, over `TERMINAL_STATUSES`
unfoldable pub is_terminal : Status → Bool
is_terminal rejected = true
is_terminal completed = true
is_terminal aborted = true
is_terminal _ = false

-- `TIMEOUT_RECOVERY_STATUSES`
unfoldable pub can_auto_recover : Status → Bool
can_auto_recover preflight = true
can_auto_recover scheduled = true
can_auto_recover baseline = true
can_auto_recover armed = true
can_auto_recover activation_pending = true
can_auto_recover fault_active = true
can_auto_recover observing = true
can_auto_recover _ = false

-- `RECONCILABLE_SIMULATION_STATUSES`, as a test of membership
unfoldable pub is_reconcilable : Status → Bool
unfolding can_auto_recover
is_reconcilable aborting = true
is_reconcilable cooldown = true
is_reconcilable status = can_auto_recover status
