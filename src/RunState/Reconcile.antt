-- ===== src/RunState/Reconcile.antt =====
-- server/src/domain/simulationRunState.ts: `reconcilePersistedSimulationRun`, by which a persisted
-- run resumes after a restart or at a tick of the scheduler.
use devnet_deftrack.Common.{
  ℕ, String, Bool, true, false, not, ◌&&◌, ◌||◌, Option, none, some, leb, ltb, if◌then◌else◌,
  Result, ok, err, ◌<>◌, decimal, is_safe_integer,
}
use devnet_deftrack.RunState.{
  RunState, StateError, can_auto_recover, recovery, completed, aborting, cooldown, stale_event,
  same_status, system_timeout, system_resume_recovery, system_cooldown_complete,
}
use devnet_deftrack.RunState.Transition.{apply_transition, no_changes}

pub data ReconcileReason : Type 0 where
  current run_expired fault_lease_expired abort_in_progress cooldown_budget_elapsed :
      ReconcileReason

pub record ReconcileResult : Type 0 where
  pub state : RunState
  pub changed : Bool
  pub reason : ReconcileReason

abbrev reason_text : ReconcileReason → String
reason_text current = "current"
reason_text run_expired = "run-expired"
reason_text fault_lease_expired = "fault-lease-expired"
reason_text abort_in_progress = "abort-in-progress"
reason_text cooldown_budget_elapsed = "cooldown-budget-elapsed"

abbrev changed_to : RunState → ReconcileReason → ReconcileResult
changed_to next reason = record { state = next; changed = true; reason = reason }

abbrev pub unchanged : RunState → ReconcileResult
unchanged s = record { state = s; changed = false; reason = current }

-- An abort whose recovery was not begun before the process died.
abbrev resume_abort : RunState → ℕ → ReconcileResult
resume_abort s now_ms =
    changed_to
      (apply_transition s ("system:resume-recovery:" <> decimal s.revision) system_resume_recovery
        now_ms recovery
        (record no_changes {
          abort_requested = some true;
          reason = some "process resumed an abort in progress";
        }))
      abort_in_progress

-- `state.cooldownExpiresAtMs ?? state.runExpiresAtMs`
abbrev pub cooldown_deadline : RunState → ℕ
cooldown_deadline s = elim s.cooldown_expires_at_ms [ none ↦ s.run_expires_at_ms | some d ↦ d ]

abbrev complete_cooldown : RunState → ℕ → ReconcileResult
complete_cooldown s now_ms =
    changed_to
      (apply_transition s ("system:cooldown-complete:" <> decimal (cooldown_deadline s))
        system_cooldown_complete now_ms completed
        (record no_changes { reason = some "cooldown-budget-elapsed" }))
      cooldown_budget_elapsed

abbrev pub lease_expired : RunState → ℕ → Bool
lease_expired s now_ms =
    s.fault_may_be_active
    && elim s.fault_lease_expires_at_ms [ none ↦ false | some lease ↦ leb lease now_ms ]

abbrev deadline_text : Option ℕ → String
deadline_text none = "null"
deadline_text (some n) = decimal n

abbrev time_out : RunState → ℕ → ReconcileReason → Option ℕ → ReconcileResult
time_out s now_ms reason deadline =
    changed_to
      (apply_transition s ("system:timeout:" <> reason_text reason <> ":" <> deadline_text deadline)
        system_timeout now_ms recovery
        (record no_changes { abort_requested = some true; reason = some (reason_text reason) }))
      reason

-- `reconcilePersistedSimulationRun`
unfoldable pub reconcile : RunState → ℕ → Result StateError ReconcileResult
unfolding apply_transition can_auto_recover
reconcile s now_ms =
    if not (is_safe_integer now_ms) || ltb now_ms s.updated_at_ms
    then err stale_event
    else if same_status s.status aborting
    then ok (resume_abort s now_ms)
    else if same_status s.status cooldown && leb (cooldown_deadline s) now_ms
    then ok (complete_cooldown s now_ms)
    else if can_auto_recover s.status && lease_expired s now_ms
    then ok (time_out s now_ms fault_lease_expired s.fault_lease_expires_at_ms)
    else if can_auto_recover s.status && leb s.run_expires_at_ms now_ms
    then ok (time_out s now_ms run_expired (some s.run_expires_at_ms))
    else ok (unchanged s)
