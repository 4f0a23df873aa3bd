-- ===== src/Netem.antt =====
-- server/src/simulator/netemLease.ts: the faults, jobs and actions of the lab fault wrapper. The
-- children model the checks of arguments, the plans and the runner, and prove laws of them.
pub mod Args
pub mod Plans
pub mod Runner
pub mod Slots
pub mod Superset
pub mod PlanSafety
pub mod Undo
pub mod Sorting
pub mod Recovery
pub mod Boot
pub mod Life
pub mod Restores
pub mod Repeats
pub mod Vectors
pub mod Json
pub mod State
pub mod Commands
pub mod RoundTrips
pub mod Sendable
pub mod Ceiling
pub mod Leases
pub mod Hour
mod Tests
use devnet_deftrack.Common.{
  ℕ, String, Bool, true, false, ◌&&◌, Option, none, some, List, [], ◌∷◌, ◌===◌, ◌==◌, get_elem?,
}

pub data NetemKind : Type 0 where
  latency loss jitter netem partition : NetemKind

pub record NetemSpec : Type 0 where
  pub container : String
  pub kind : NetemKind
  pub args : List String

pub data FaultClass : Type 0 where
  netem service dsl : FaultClass

pub data DslFaultKind : Type 0 where
  response_drop report_drop response_delay report_delay commitment_skip : DslFaultKind

pub record DslFaultSpec : Type 0 where
  pub container : String
  pub fault_kind : DslFaultKind
  pub epochs : ℕ
  pub param : ℕ
  pub scenario_id : String

-- `FaultJob.kind`
pub data JobKind : Type 0 where
  netem_kind : NetemKind → JobKind
  service_stop : JobKind
  dsl_kind : JobKind

pub record FaultJob : Type 0 where
  pub job_id : String
  pub run_tag : String
  pub container : String
  pub fault_class : Option FaultClass
  pub kind : JobKind
  pub args : List String
  pub applied_at_ms : ℕ
  pub expires_at_ms : ℕ

-- `faultClassOf`
abbrev pub fault_class_of : FaultJob → FaultClass
fault_class_of job = elim job.fault_class [ none ↦ FaultClass.netem | some c ↦ c ]

pub data FaultAction : Type 0 where
  apply : (container : String) → (tc_args : List String) → FaultAction
  clear : (container : String) → (tc_args : List String) → FaultAction
  stop : (container : String) → FaultAction
  start : (container : String) → FaultAction
  dsl_set : DslFaultSpec → FaultAction
  dsl_clear : (container : String) → (fault_id : String) → FaultAction

-- `WrapperState` is the list of its jobs.
pub record Plan : Type 0 where
  pub jobs : List FaultJob
  pub actions : List FaultAction

pub record JobUndo : Type 0 where
  pub job : FaultJob
  pub action : FaultAction

-- `UNDO_RANK`
abbrev pub undo_rank : FaultClass → ℕ
undo_rank FaultClass.dsl = 0
undo_rank FaultClass.service = 1
undo_rank FaultClass.netem = 2

-- `a === b` on fault classes
abbrev pub same_class : FaultClass → FaultClass → Bool
same_class a b = undo_rank a == undo_rank b

-- `tcClearArgs`
abbrev pub tc_clear_args : List String
tc_clear_args = "qdisc" ∷ "del" ∷ "dev" ∷ "eth0" ∷ "root" ∷ []

-- `job.args[3] ?? ''`
abbrev pub fault_id_of : FaultJob → String
fault_id_of job = elim (get_elem? job.args 3) [ none ↦ "" | some id ↦ id ]

-- `undoFor`
unfoldable pub undo_for : FaultJob → FaultAction
undo_for job = elim (fault_class_of job) [
  | service ↦ start job.container
  | dsl ↦ dsl_clear job.container (fault_id_of job)
  | netem ↦ clear job.container tc_clear_args
]

-- What is hashed into a job id.
pub data Preimage : Type 0 where
  netem_of : (run_tag container : String) → NetemKind → List String → Preimage
  service_of : (run_tag container : String) → Preimage
  dsl_of : (run_tag container : String) → DslFaultKind → Preimage

abbrev pub container_of : Preimage → String
container_of (netem_of tag container kind args) = container
container_of (service_of tag container) = container
container_of (dsl_of tag container kind) = container
