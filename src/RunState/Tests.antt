-- ===== src/RunState/Tests.antt =====
-- A live run from its creation to its end, and the laws at it.
use devnet_deftrack.Common.{
  All, [], ◌∷◌, is_blank, decimal, ◌≡◌, ◌⊎◌, ◌≤◌, ◌+◌, refl, true, false, some, none, ok, arith,
  eq_iff, ◌&&◌,
}
use devnet_deftrack.RunState.{
  Status, RunState, Event, EventType, Payload, plain, fault, activation, recovered, create_run,
  can_auto_recover, is_reconcilable, is_terminal,
}
use devnet_deftrack.RunState.{
  begin_preflight, preflight_passed, begin_baseline, baseline_completed, begin_observation,
  begin_recovery, recovery_succeeded, recovery, cooldown, completed, aborting, armed, fault_active,
  begin_activation,
}
use devnet_deftrack.RunState.Transition.{transition, allowed_events}
use devnet_deftrack.RunState.Reconcile.{
  reconcile, ReconcileResult, cooldown_deadline, fault_lease_expired,
}
use devnet_deftrack.RunState.Sweep.{
  sweep, decides, reconcilable_run_filter, find_reconcilable_run_keys,
}
use devnet_deftrack.RunState.OnTime.{IsOnTime, sweep-IsOnTime}
use devnet_deftrack.RunState.WellFormed.{WellFormed, is_clean, is_leased, transition-WellFormed}
use devnet_deftrack.RunState.Laws.{make_event}
use devnet_deftrack.RunState.Accepts.{is_ok, contains, is_admissible, transition_accepts}
use devnet_deftrack.RunState.Overdue.{reconcile_outcome}
use devnet_deftrack.RunState.Reach.{
  here, RecoversBy, Recovered, created_run_safe, recovery_reachable,
}

machine : Unit {0}
unfolding transition reconcile create_run is_blank decimal allowed_events is_reconcilable
    is_terminal
machine = tt

abbrev new_run : RunState
new_run = record {
  run_key = "r1";
  status = Status.draft;
  revision = 0;
  live = true;
  created_at_ms = 1000;
  updated_at_ms = 1000;
  state_entered_at_ms = 1000;
  cooldown_expires_at_ms = none;
  run_expires_at_ms = 90_000;
  fault_activated_tip = none;
  recovered_tip = none;
  fault_lease_expires_at_ms = none;
  fault_may_be_active = false;
  abort_requested = false;
  last_transition = none;
}

abbrev armed_run : RunState
armed_run = record new_run {
  status = armed;
  revision = 4;
  updated_at_ms = 2000;
  state_entered_at_ms = 2000;
}

abbrev activate_event : Event
activate_event = make_event "e5" 3000 (activation 60_000)

abbrev activated_run : RunState
activated_run = record armed_run {
  status = Status.activation_pending;
  revision = 5;
  updated_at_ms = 3000;
  state_entered_at_ms = 3000;
  fault_lease_expires_at_ms = some 60_000;
  fault_may_be_active = true;
  last_transition = some (record {
    event_id = "e5";
    event_type = devnet_deftrack.RunState.event begin_activation;
    source = armed;
    to = Status.activation_pending;
    at_ms = 3000;
    reason = none;
  });
}

armed_run-WellFormed : WellFormed armed_run
armed_run-WellFormed = ground arith

activated_run-WellFormed : WellFormed activated_run
activated_run-WellFormed = ground arith

created : create_run "r1" true 1000 90_000 ≡ ok new_run
unfolding machine
created = refl

activated : transition armed_run activate_event ≡ ok activated_run
unfolding machine
activated = refl

transition-WellFormed_example : WellFormed activated_run
transition-WellFormed_example =
    transition-WellFormed armed_run activated_run activate_event armed_run-WellFormed activated

transition_accepts_example : is_ok (transition armed_run activate_event) ≡ (
    contains (allowed_events armed) begin_activation
    && is_admissible armed_run activate_event (activation 60_000))
unfolding machine
transition_accepts_example =
    transition_accepts armed_run activate_event armed_run-WellFormed refl refl

abbrev completed_run : RunState
completed_run = record armed_run { status = completed }

-- The lease of the activated run ends at 60,000; the reconcile at 61,000 moves it into recovery.
abbrev timed_out : ReconcileResult
timed_out = record {
  state = record activated_run {
    status = recovery;
    revision = 6;
    updated_at_ms = 61_000;
    state_entered_at_ms = 61_000;
    abort_requested = true;
    last_transition = some (record {
      event_id = "system:timeout:fault-lease-expired:60000";
      event_type = devnet_deftrack.RunState.system_timeout;
      source = Status.activation_pending;
      to = recovery;
      at_ms = 61_000;
      reason = some "fault-lease-expired";
    });
  };
  changed = true;
  reason = fault_lease_expired;
}

times_out : reconcile activated_run 61_000 ≡ ok timed_out
unfolding machine
times_out = refl

reconcile_outcome_example :
    (is_reconcilable Status.activation_pending ≡ true)
    × (timed_out.state.revision ≡ activated_run.revision + 1)
    × (((timed_out.state.status ≡ recovery)
          × (timed_out.state.abort_requested ≡ true)
          × (timed_out.state.fault_may_be_active ≡ activated_run.fault_may_be_active))
        ⊎ ((activated_run.status ≡ cooldown)
            × (timed_out.state.status ≡ completed)
            × (cooldown_deadline activated_run ≤ 61_000)))
reconcile_outcome_example = reconcile_outcome activated_run 61_000 timed_out times_out refl

created_run_safe_example :
    (is_clean Status.draft ≡ true
      → (new_run.fault_may_be_active ≡ false) × (new_run.fault_lease_expires_at_ms ≡ none))
    × (true ≡ false → is_leased Status.draft ≡ false)
created_run_safe_example = created_run_safe "r1" true 1000 90_000 new_run new_run created here

recovery_reachable_example :
    (t : RunState) × RecoversBy activated_run "e6" "e7" 4000 t × Recovered t
unfolding machine
recovery_reachable_example =
    recovery_reachable activated_run "e6" "e7" 4000 activated_run-WellFormed refl
      (refl, refl, λ e. cc ((eq_iff "e6" "e7").1 e)) (refl, omega arith) (refl, refl)

-- A pass over the run whose lease ended at 60,000 and a completed one.
swept_counts :
    (sweep 61_000 (λ s. decides) (activated_run ∷ completed_run ∷ [])).runs
    ≡ timed_out.state ∷ completed_run ∷ []
unfolding machine sweep find_reconcilable_run_keys
swept_counts = refl

sweep-IsOnTime_example :
    All (IsOnTime 61_000) (sweep 61_000 (λ s. decides) (activated_run ∷ completed_run ∷ [])).runs
unfolding machine reconcilable_run_filter
sweep-IsOnTime_example =
    sweep-IsOnTime 61_000 (λ s. decides) (activated_run ∷ completed_run ∷ []) refl (λ key. refl)
      (omega arith)
