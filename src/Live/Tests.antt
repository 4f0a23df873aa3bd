-- ===== src/Live/Tests.antt =====
-- A plan that stops a node at once and another one later, on a lab of two nodes.
use devnet_deftrack.Common.{◌≡◌, refl, String, true, none, some, List, [], ◌∷◌, ok, arith, ℕ, All}
use mathlib.Core.List.{Memᴰ}
use devnet_deftrack.Netem.{FaultClass, Preimage, container_of}
use devnet_deftrack.Netem.Plans.{service_job_id}
use devnet_deftrack.Netem.Commands.{stopping_service, clearing, parse_wrapper_command}
use devnet_deftrack.Netem.Sendable.{print_command}
use devnet_deftrack.Live.{
  ActionPayload, service_stop, service_start, fault_clear, LiveAction, service_control, netem_p2p,
  Target, LabFault, LabRecoveryTarget, ScheduledLabAction,
}
use devnet_deftrack.Live.Faults.{LiveInput, Found, lab_faults_for_plan}
use devnet_deftrack.Live.Scheduled.{
  Schedule, scheduled_lab_actions_for_plan, assert_single_fault_class,
}
use devnet_deftrack.Live.Recovery.{RecoveryPlan, recovery_of_fault, fault_recovery_targets_for_plan}
use devnet_deftrack.Live.Cleared.{ClearsService, recovery_covers_faults}
use devnet_deftrack.Live.Stops.{recovery_restarts_services}
use devnet_deftrack.Live.Accepted.{commands_accepted}

live_code : Unit {0}
unfolding lab_faults_for_plan scheduled_lab_actions_for_plan assert_single_fault_class
    fault_recovery_targets_for_plan service_job_id
live_code = tt

-- A digest of the container alone.
abbrev digest : Preimage → String
digest = container_of

abbrev node : String → String → Target
node id host = record {
  target_id = id;
  host_ref = host;
  chain_host_ref = none;
  network = "regtest";
  capabilities = service_control ∷ netem_p2p ∷ [];
}

abbrev action : String → String → ActionPayload → ℕ → LiveAction
action id target payload offset = record {
  action_id = id;
  target_id = target;
  payload = payload;
  not_before_offset_ms = offset;
}

abbrev plan : List LiveAction
plan =
    action "a1" "n1" service_stop 0
    ∷ action "a2" "n2" service_stop 5000
    ∷ action "a3" "n2" service_start 8000
    ∷ action "a4" "n1" service_start 9000
    ∷ action "a5" "n1" fault_clear 9500
    ∷ []

abbrev input : LiveInput
input = record {
  targets = node "n1" "mn01" ∷ node "n2" "mn02" ∷ [];
  run_tag = "r1";
  expires_at_ms = 60_000;
  now_ms = 10_000;
  defer_scheduled = true;
}

abbrev stop_fault : LabFault
stop_fault = record {
  target_id = "n1";
  container = "mn01";
  fault_class = FaultClass.service;
  job_id = service_job_id digest "r1" "mn01";
  apply = stopping_service "mn01" "r1" 60_000 (some (service_job_id digest "r1" "mn01"));
}

abbrev found : Found
found = record {
  faults = stop_fault ∷ [];
  seen = service_job_id digest "r1" "mn01" ∷ [];
  stopped_targets = "n1" ∷ [];
  skipped = 0;
}

applied : lab_faults_for_plan digest true input plan ≡ ok found
unfolding live_code
applied = refl

abbrev later : String → String → String → ℕ → ScheduledLabAction
later id target host offset = record {
  action_id = id;
  target_id = target;
  container = host;
  fault_class = FaultClass.service;
  not_before_offset_ms = offset;
  command = clearing (service_job_id digest "r1" host) (some id);
}

abbrev schedule : Schedule
schedule = record {
  actions =
      record (later "a2" "n2" "mn02" 5000) {
        command = stopping_service "mn02" "r1" 60_000 (some "a2");
      }
      ∷ later "a3" "n2" "mn02" 8000
      ∷ later "a4" "n1" "mn01" 9000
      ∷ [];
  skipped = 0;
}

deferred : scheduled_lab_actions_for_plan digest true input plan ≡ ok schedule
unfolding live_code
deferred = refl

abbrev recovery : String → String → LabRecoveryTarget
recovery target host = record {
  target_id = target;
  container = host;
  fault_class = FaultClass.service;
  clear = clearing (service_job_id digest "r1" host) (some (service_job_id digest "r1" host));
}

abbrev recovery_plan : RecoveryPlan
recovery_plan = record { targets = recovery "n1" "mn01" ∷ recovery "n2" "mn02" ∷ []; skipped = 0 }

recovered : fault_recovery_targets_for_plan digest input.targets "r1" plan ≡ ok recovery_plan
unfolding live_code
recovered = refl

single : assert_single_fault_class plan ≡ ok tt
unfolding live_code
single = refl

recovery_covers_faults_example :
    (told : RecoveryPlan) × (fault_recovery_targets_for_plan digest input.targets "r1" plan
      ≡ ok told)
    × (told.skipped ≡ 0)
    × All (λ fault. Memᴰ (recovery_of_fault digest fault) told.targets) found.faults
recovery_covers_faults_example =
    recovery_covers_faults digest input plan found schedule applied deferred

recovery_restarts_services_example :
    All (λ a. ClearsService digest "r1" recovery_plan.targets a.container) schedule.actions
recovery_restarts_services_example =
    recovery_restarts_services digest input plan found schedule recovery_plan single refl refl
      applied deferred recovered

commands_accepted_example :
    All
      (λ fault. parse_wrapper_command (print_command fault.apply) 11_000 ≡ ok fault.apply)
      found.faults
commands_accepted_example =
    commands_accepted digest 11_000 input plan found (refl, (refl, tt)) refl
      (record { running = omega arith; short_enough = omega arith; safe = refl }) applied
