-- ===== src/RunState/Transition.antt =====
-- server/src/domain/simulationRunState.ts: `assertEvent`, `applyTransition` and
-- `transitionSimulationRun`.
use devnet_deftrack.Common.{
  ℕ, ◌+◌, String, Bool, true, false, not, ◌&&◌, ◌||◌, Option, none, some, leb, ltb, ◌==◌, ◌===◌,
  if◌then◌else◌, Result, ok, err, ◌>>◌, throw_if, is_blank, is_safe_integer, List, [], ◌∷◌, ◌++◌,
}
use devnet_deftrack.RunState.{
  Status, EventType, TransitionType, same_type, same_status, ChainAnchor, Payload, Event, RunState,
  StateError, cooldown_budget_ms, is_abortable, plain, activation, fault, recovered,
}
use devnet_deftrack.RunState.{
  draft, preflight, rejected, scheduled, baseline, armed, activation_pending, fault_active,
  observing, aborting, recovery, cooldown, completed, aborted, failed,
}
use devnet_deftrack.RunState.{
  begin_preflight, preflight_passed, preflight_rejected, begin_baseline, baseline_completed,
  dry_run_completed, begin_activation, activate_fault, begin_observation, begin_recovery,
  recovery_succeeded, recovery_failed, cooldown_completed, abort_requested,
}
use devnet_deftrack.RunState.{
  invalid_input, invalid_transition, event_id_reused, stale_event, run_expired, invalid_fault_lease,
}

-- `event.type`
abbrev pub type_of : Payload → EventType
type_of (plain t) = t
type_of (activation _) = begin_activation
type_of (fault _ _) = activate_fault
type_of (recovered _) = recovery_succeeded

-- `ORDINARY_TRANSITIONS[status]?.[type]`
unfoldable pub ordinary_transition : Status → EventType → Option Status
ordinary_transition draft begin_preflight = some preflight
ordinary_transition preflight preflight_passed = some scheduled
ordinary_transition preflight preflight_rejected = some rejected
ordinary_transition scheduled begin_baseline = some baseline
ordinary_transition baseline baseline_completed = some armed
ordinary_transition armed begin_activation = some activation_pending
ordinary_transition armed activate_fault = some fault_active
ordinary_transition armed dry_run_completed = some completed
ordinary_transition armed begin_recovery = some recovery
ordinary_transition activation_pending activate_fault = some fault_active
ordinary_transition activation_pending begin_recovery = some recovery
ordinary_transition fault_active begin_observation = some observing
ordinary_transition fault_active begin_recovery = some recovery
ordinary_transition observing begin_recovery = some recovery
ordinary_transition aborting begin_recovery = some recovery
ordinary_transition recovery recovery_succeeded = some cooldown
ordinary_transition recovery recovery_failed = some failed
ordinary_transition cooldown cooldown_completed = some completed
ordinary_transition failed begin_recovery = some recovery
ordinary_transition _ _ = none

-- The keys of `ORDINARY_TRANSITIONS[status]`, in the order in which they are written.
ordinary_events : Status → List EventType
ordinary_events draft = begin_preflight ∷ []
ordinary_events preflight = preflight_passed ∷ preflight_rejected ∷ []
ordinary_events scheduled = begin_baseline ∷ []
ordinary_events baseline = baseline_completed ∷ []
ordinary_events armed = begin_activation ∷ activate_fault ∷ dry_run_completed ∷ begin_recovery ∷ []
ordinary_events activation_pending = activate_fault ∷ begin_recovery ∷ []
ordinary_events fault_active = begin_observation ∷ begin_recovery ∷ []
ordinary_events observing = begin_recovery ∷ []
ordinary_events aborting = begin_recovery ∷ []
ordinary_events recovery = recovery_succeeded ∷ recovery_failed ∷ []
ordinary_events cooldown = cooldown_completed ∷ []
ordinary_events failed = begin_recovery ∷ []
ordinary_events _ = []

abbrev is_recovery : Status → Bool
is_recovery recovery = true
is_recovery _ = false

abbrev is_failed : Status → Bool
is_failed failed = true
is_failed _ = false

abbrev is_cooldown : Status → Bool
is_cooldown cooldown = true
is_cooldown _ = false

-- `allowedSimulationEvents`
unfoldable pub allowed_events : Status → List EventType
unfolding ordinary_events is_abortable
allowed_events status =
    if is_abortable status || is_recovery status
    then ordinary_events status ++ abort_requested ∷ []
    else ordinary_events status

-- The events that an expired run still takes.
unfoldable pub is_recovery_safe : EventType → Bool
is_recovery_safe abort_requested = true
is_recovery_safe begin_recovery = true
is_recovery_safe recovery_succeeded = true
is_recovery_safe recovery_failed = true
is_recovery_safe cooldown_completed = true
is_recovery_safe _ = false

-- `event.type === 'activate_fault' && state.faultLeaseExpiresAtMs !== event.faultLeaseExpiresAtMs`
abbrev changes_lease : RunState → Payload → Bool
changes_lease s (fault lease _) = elim s.fault_lease_expires_at_ms [
  | none ↦ true
  | some old ↦ not (old == lease)
]
changes_lease s (plain activate_fault) = true
changes_lease s (plain _) = false
changes_lease s (activation _) = false
changes_lease s (recovered _) = false

-- `state.lastTransition?.eventId === event.eventId`
unfoldable pub is_retry : RunState → Event → Bool
is_retry s e = elim s.last_transition [ none ↦ false | some t ↦ t.event_id === e.event_id ]

-- The test `changedEvent`, at a retry.
unfoldable pub is_changed_retry : RunState → Event → Bool
is_changed_retry s e = elim s.last_transition [
  | none ↦ false
  | some t ↦
      not (same_type t.event_type (type_of e.payload))
      || not (t.at_ms == e.at_ms)
      || changes_lease s e.payload
]

unfoldable pub assert_event : RunState → Event → Result StateError (Unit {0})
unfolding is_retry is_changed_retry is_recovery_safe
assert_event s e =
    if is_blank e.event_id || not (is_safe_integer e.at_ms)
    then err invalid_input
    else if is_retry s e
    then throw_if (is_changed_retry s e) event_id_reused
    else if ltb e.at_ms s.updated_at_ms
    then err stale_event
    else throw_if (leb s.run_expires_at_ms e.at_ms && not (is_recovery_safe (type_of e.payload)))
        run_expired

-- The optional fields of the argument of `applyTransition`: `none` is a field left out.
-- `fault_lease_expires_at_ms` may also be given as null, so it is an option in an option.
pub record Changes : Type 0 where
  pub reason : Option String
  pub abort_requested : Option Bool
  pub fault_lease_expires_at_ms : Option (Option ℕ)
  pub fault_may_be_active : Option Bool
  pub fault_activated_tip : Option ChainAnchor
  pub recovered_tip : Option ChainAnchor

abbrev pub no_changes : Changes
no_changes = record {
  reason = none;
  abort_requested = none;
  fault_lease_expires_at_ms = none;
  fault_may_be_active = none;
  fault_activated_tip = none;
  recovered_tip = none;
}

abbrev override {ℓ} : {A : Type ℓ} → Option A → A → A
override none old = old
override (some new) old = new

abbrev override_tip : Option ChainAnchor → Option ChainAnchor → Option ChainAnchor
override_tip none old = old
override_tip (some tip) old = some tip

-- The cooldown deadline is stamped when the run enters `cooldown`, and kept from then on.
abbrev stamp_cooldown : RunState → ℕ → Status → Option ℕ
stamp_cooldown s at_ms to =
    if same_status to cooldown && not (same_status s.status cooldown)
    then some (at_ms + cooldown_budget_ms)
    else s.cooldown_expires_at_ms

unfoldable pub apply_transition :
    RunState → String → TransitionType → ℕ → Status → Changes → RunState
apply_transition s event_id event_type at_ms to c = record s {
  fault_activated_tip = override_tip c.fault_activated_tip s.fault_activated_tip;
  recovered_tip = override_tip c.recovered_tip s.recovered_tip;
  status = to;
  revision = s.revision + 1;
  updated_at_ms = at_ms;
  state_entered_at_ms = if same_status to s.status then s.state_entered_at_ms else at_ms;
  cooldown_expires_at_ms = stamp_cooldown s at_ms to;
  abort_requested = override c.abort_requested s.abort_requested;
  fault_lease_expires_at_ms = override c.fault_lease_expires_at_ms s.fault_lease_expires_at_ms;
  fault_may_be_active = override c.fault_may_be_active s.fault_may_be_active;
  last_transition = some (record {
    event_id = event_id;
    event_type = event_type;
    source = s.status;
    to = to;
    at_ms = at_ms;
    reason = c.reason;
  });
}

abbrev apply_event : RunState → Event → Status → Changes → Result StateError RunState
apply_event s e to c =
    ok (apply_transition s e.event_id (TransitionType.event (type_of e.payload)) e.at_ms to c)

-- The branch of `abort_requested`.
unfoldable pub request_abort : RunState → Event → Result StateError RunState
unfolding apply_transition is_abortable
request_abort s e =
    if is_recovery s.status
    then apply_event s e recovery (record no_changes {
      abort_requested = some true;
      reason = some "abort requested while recovery was already running";
    })
    else if not (is_abortable s.status)
    then err invalid_transition
    else apply_event s e aborting (record no_changes { abort_requested = some true })

-- The branch of `begin_activation` and `activate_fault`.
unfoldable pub activate :
    RunState → Event → Status → ℕ → Option ChainAnchor → Result StateError RunState
unfolding apply_transition
activate s e to lease tip =
    if not s.live
    then err invalid_transition
    else if not (is_safe_integer lease) || leb lease e.at_ms || ltb s.run_expires_at_ms lease
    then err invalid_fault_lease
    else apply_event s e to (record no_changes {
      fault_lease_expires_at_ms = some (some lease);
      fault_may_be_active = some true;
      fault_activated_tip = tip;
    })

-- The branch of `recovery_succeeded`.
unfoldable pub succeed_recovery : RunState → Event → Option ChainAnchor → Result StateError RunState
unfolding apply_transition
succeed_recovery s e tip =
    apply_event s e (if s.abort_requested then aborted else cooldown) (record no_changes {
      fault_lease_expires_at_ms = some none;
      fault_may_be_active = some false;
      recovered_tip = tip;
    })

-- An event that carries nothing more than the base event. One that should carry a lease has none,
-- which `activate` refuses as no safe integer.
unfoldable pub apply_plain : RunState → Event → EventType → Status → Result StateError RunState
unfolding apply_transition succeed_recovery
apply_plain s e begin_activation to =
    if not s.live then err invalid_transition else err invalid_fault_lease
apply_plain s e activate_fault to =
    if not s.live then err invalid_transition else err invalid_fault_lease
apply_plain s e recovery_succeeded to = succeed_recovery s e none
apply_plain s e dry_run_completed to =
    if s.live then err invalid_transition else apply_event s e to no_changes
apply_plain s e recovery_failed to =
    apply_event s e to (record no_changes { fault_may_be_active = some true })
apply_plain s e begin_recovery to =
    if is_failed s.status && not s.fault_may_be_active
    then err invalid_transition
    else apply_event s e to no_changes
apply_plain s e _ to = apply_event s e to no_changes

-- The branches that follow the lookup of the status to go to.
unfoldable pub apply_payload : RunState → Event → Payload → Status → Result StateError RunState
unfolding activate succeed_recovery apply_plain
apply_payload s e (activation lease) to = activate s e to lease none
apply_payload s e (fault lease tip) to = activate s e to lease tip
apply_payload s e (recovered tip) to = succeed_recovery s e tip
apply_payload s e (plain t) to = apply_plain s e t to

unfoldable pub apply_ordinary : RunState → Event → Result StateError RunState
unfolding ordinary_transition apply_payload
apply_ordinary s e = elim (ordinary_transition s.status (type_of e.payload)) [
  | none ↦ err invalid_transition
  | some to ↦ apply_payload s e e.payload to
]

unfoldable pub is_abort : EventType → Bool
is_abort abort_requested = true
is_abort _ = false

-- The transition of an event that has passed `assertEvent` and is no retry.
unfoldable pub apply_fresh : RunState → Event → Result StateError RunState
unfolding request_abort apply_ordinary is_abort
apply_fresh s e = if is_abort (type_of e.payload) then request_abort s e else apply_ordinary s e

-- `transitionSimulationRun`
unfoldable pub transition : RunState → Event → Result StateError RunState
unfolding assert_event is_retry apply_fresh
transition s e = do assert_event s e; if is_retry s e then ok s else apply_fresh s e
