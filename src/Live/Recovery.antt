-- ===== src/Live/Recovery.antt =====
-- `faultApplyCommandsForPlan` and `faultRecoveryTargetsForPlan` of server/src/simulator/liveExecutorPlan.ts.
use devnet_deftrack.Common.{
  ℕ, ◌+◌, String, true, false, some, List, [], ◌∷◌, ◌++◌, map, Result, ok, ◌>>=◌,
}
use devnet_deftrack.Netem.{Preimage}
use devnet_deftrack.Netem.Plans.{service_job_id}
use devnet_deftrack.Netem.Runner.{has}
use devnet_deftrack.Netem.Commands.{
  WrapperCommand, applying, stopping_service, setting_dsl_fault, clearing,
}
use devnet_deftrack.Live.{
  LiveAction, Target, LiveFaultError, LabFault, ScheduledLabAction, LabRecoveryTarget,
}
use devnet_deftrack.Live.Faults.{LiveInput, lab_faults_for_plan}
use devnet_deftrack.Live.Scheduled.{scheduled_lab_actions_for_plan}

-- What recovery clears, and what it could not speak for
pub record RecoveryPlan : Type 0 where
  pub targets : List LabRecoveryTarget
  pub skipped : ℕ

module _ (short : Preimage → String) where
  -- `faultApplyCommandsForPlan`
  unfoldable pub fault_apply_commands_for_plan :
      LiveInput → List LiveAction → Result LiveFaultError (List WrapperCommand)
  unfolding lab_faults_for_plan
  fault_apply_commands_for_plan input actions = do
    found ← lab_faults_for_plan short true input actions
    ok (map (λ fault. fault.apply) found.faults)

  abbrev pub recovery_of_fault : LabFault → LabRecoveryTarget
  recovery_of_fault fault = record {
    target_id = fault.target_id;
    container = fault.container;
    fault_class = fault.fault_class;
    clear = clearing fault.job_id (some fault.job_id);
  }

  -- The job that ends what an action has scheduled
  abbrev pub scheduled_job_id : (run_tag : String) → ScheduledLabAction → String
  scheduled_job_id run_tag later = elim later.command as (λ x. String) [
    | clearing job_id _ ↦ job_id
    | applying _ _ _ _ _ _ ↦ service_job_id short run_tag later.container
    | stopping_service _ _ _ _ ↦ service_job_id short run_tag later.container
    | setting_dsl_fault _ _ _ _ _ _ _ _ ↦ service_job_id short run_tag later.container
  ]

  abbrev pub recovery_of_scheduled : (run_tag : String) → ScheduledLabAction → LabRecoveryTarget
  recovery_of_scheduled run_tag later = record {
    target_id = later.target_id;
    container = later.container;
    fault_class = later.fault_class;
    clear = clearing (scheduled_job_id run_tag later) (some (scheduled_job_id run_tag later));
  }

  -- The loop over what is scheduled, with the containers seen so far
  unfoldable pub add_deferred :
      (run_tag : String) → (seen : List String) → List ScheduledLabAction → List LabRecoveryTarget
  add_deferred run_tag seen [] = []
  add_deferred run_tag seen (later ∷ actions) = elim (has seen later.container) [
    | true ↦ add_deferred run_tag seen actions
    | false ↦
        recovery_of_scheduled run_tag later ∷ add_deferred run_tag (later.container ∷ seen) actions
  ]

  -- `faultRecoveryTargetsForPlan`
  unfoldable pub fault_recovery_targets_for_plan :
      (targets : List Target)
      → (run_tag : String) → List LiveAction
      → Result LiveFaultError RecoveryPlan
  unfolding lab_faults_for_plan scheduled_lab_actions_for_plan add_deferred
  fault_recovery_targets_for_plan targets run_tag actions =
      let input : LiveInput = record {
        targets = targets;
        run_tag = run_tag;
        expires_at_ms = 1;
        now_ms = 0;
        defer_scheduled = true;
      } in
      lab_faults_for_plan short false input actions >>= λ found.
      scheduled_lab_actions_for_plan short false input actions >>= λ deferred. ok (record {
        targets =
            map recovery_of_fault found.faults
            ++ add_deferred run_tag (map (λ fault. fault.container) found.faults) deferred.actions;
        skipped = found.skipped + deferred.skipped;
      })
