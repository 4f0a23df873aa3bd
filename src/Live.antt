-- ===== src/Live.antt =====
-- server/src/simulator/liveExecutorPlan.ts and dockerLiveExecutor.ts: what a run's plan asks of the fault wrapper,
-- and what its recovery clears. The actions of a plan and the targets that it names.
pub mod Faults
pub mod Scheduled
pub mod Recovery
pub mod Covered
pub mod Deferred
pub mod Services
pub mod Cleared
pub mod Stops
pub mod Accepted
mod Tests
use devnet_deftrack.Common.{
  ℕ, String, Bool, true, false, not, ◌&&◌, ◌||◌, Option, none, some, List, [], ◌∷◌, any, ◌===◌,
  if◌then◌else◌, Result, ok, err,
}
use devnet_deftrack.Netem.{FaultClass, DslFaultKind}
use devnet_deftrack.Netem.Args.{FaultError}
use devnet_deftrack.Netem.Commands.{WrapperCommand}

-- A number of a plan, which may be a fraction: whether it is above zero, and how it is printed.
pub record Amount : Type 0 where
  pub is_positive : Bool
  pub digits : String

-- `PlannedActionPayload`, without the lease lengths, which only other parts read
pub data ActionPayload : Type 0 where
  service_stop service_start : ActionPayload
  netem_apply : (latency_ms jitter_ms loss_percent correlation_percent : Amount) → ActionPayload
  partition_apply : (peer_target_ids : List String) → ActionPayload
  dsl_fault_apply : DslFaultKind → (epochs param : ℕ) → ActionPayload
  dsl_fault_clear : DslFaultKind → ActionPayload
  fault_clear : ActionPayload

-- `PlannedSimulationAction`, the fields that the translation reads
pub record LiveAction : Type 0 where
  pub action_id : String
  pub target_id : String
  pub payload : ActionPayload
  pub not_before_offset_ms : ℕ

pub data Capability : Type 0 where
  service_control netem_p2p partition_p2p dsl_test_hook : Capability

abbrev pub same_capability : Capability → Capability → Bool
same_capability service_control service_control = true
same_capability netem_p2p netem_p2p = true
same_capability partition_p2p partition_p2p = true
same_capability dsl_test_hook dsl_test_hook = true
same_capability _ _ = false

-- `SimulationTargetSnapshot`, the fields that the translation reads
pub record Target : Type 0 where
  pub target_id : String
  pub host_ref : String
  pub chain_host_ref : Option String
  pub network : String
  pub capabilities : List Capability

-- Why a translation throws: by the error's class, or by the check of arguments
pub data LiveFaultError : Type 0 where
  unsupported unscheduled invalid_target nothing_composed : LiveFaultError
  refused : FaultError → LiveFaultError

-- `indexTargetsById` with a lookup: of targets with one id the last counts.
abbrev pub target_by_id : String → List Target → Option Target
target_by_id id [] = none
target_by_id id (target ∷ targets) = elim (target_by_id id targets) [
  | some later ↦ some later
  | none ↦ if target.target_id === id then some target else none
]

abbrev pub declares : Option Capability → Target → Bool
declares none target = true
declares (some capability) target = any (same_capability capability) target.capabilities

-- `requireLabTarget`
unfoldable pub require_lab_target :
    List Target → String → Option Capability → Result LiveFaultError Target
require_lab_target targets id capability = elim (target_by_id id targets) [
  | none ↦ err invalid_target
  | some target ↦
      if target.network === "regtest"
      then (if declares capability target then ok target else err invalid_target)
      else err invalid_target
]

-- `LabFault`
pub record LabFault : Type 0 where
  pub target_id : String
  pub container : String
  pub fault_class : FaultClass
  pub job_id : String
  pub apply : WrapperCommand

-- `ScheduledLabAction`
pub record ScheduledLabAction : Type 0 where
  pub action_id : String
  pub target_id : String
  pub container : String
  pub fault_class : FaultClass
  pub not_before_offset_ms : ℕ
  pub command : WrapperCommand

-- `LabRecoveryTarget`
pub record LabRecoveryTarget : Type 0 where
  pub target_id : String
  pub container : String
  pub fault_class : FaultClass
  pub clear : WrapperCommand
