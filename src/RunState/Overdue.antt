-- ===== src/RunState/Overdue.antt =====
-- What `reconcilePersistedSimulationRun` of server/src/domain/simulationRunState.ts decides.
use devnet_deftrack.Common.{ℕ, ◌+◌, ◌≤◌, ◌<◌, ◌≡◌, ◌≢◌, ◌⊎◌, true, false, ok, arith}
use devnet_deftrack.RunState.{RunState, is_reconcilable, can_auto_recover}
use devnet_deftrack.RunState.{aborting, recovery, cooldown, completed}
use devnet_deftrack.RunState.Reconcile.{
  reconcile, ReconcileResult, unchanged, cooldown_deadline, lease_expired,
}

-- A reconcile that changes a run does so at a status of the sweeper's list, and moves it into
-- recovery with a requested abort, or completes a cooldown whose deadline has passed.
pub reconcile_outcome :
    (s : RunState) (now : ℕ) (r : ReconcileResult)
    → reconcile s now ≡ ok r
    → r.changed ≡ true
    → (is_reconcilable s.status ≡ true)
      × (r.state.revision ≡ s.revision + 1)
      × (((r.state.status ≡ recovery)
            × (r.state.abort_requested ≡ true)
            × (r.state.fault_may_be_active ≡ s.fault_may_be_active))
          ⊎ ((s.status ≡ cooldown) × (r.state.status ≡ completed) × (cooldown_deadline s ≤ now)))
unfolding reconcile is_reconcilable
reconcile_outcome s now r h c = ground arith

-- A second reconcile at the same time finds nothing to do.
pub reconcile_idempotent :
    (s : RunState) (now : ℕ) (r : ReconcileResult)
    → reconcile s now ≡ ok r
    → reconcile r.state now ≡ ok (unchanged r.state)
unfolding reconcile
reconcile_idempotent s now r h = ground arith

-- After a reconcile no run stands at a faulty status with a lease or a deadline that has passed,
-- none is left aborting, and none rests beyond its cooldown.
pub reconcile_none_overdue :
    (s : RunState) (now : ℕ) (r : ReconcileResult)
    → reconcile s now ≡ ok r
    → (can_auto_recover r.state.status ≡ true
        → (lease_expired r.state now ≡ false) × (now < r.state.run_expires_at_ms))
      × (r.state.status ≢ aborting)
      × (r.state.status ≡ cooldown → now < cooldown_deadline r.state)
unfolding reconcile
reconcile_none_overdue s now r h = ground arith
