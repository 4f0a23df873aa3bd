-- ===== src/Netem/Plans.antt =====
-- server/src/simulator/netemLease.ts: the ids of jobs and the plans. `short` stands for the first
-- sixteen digits of the SHA-256 of what is hashed.
use devnet_deftrack.Common.{
  ℕ, String, Bool, false, not, ◌&&◌, Option, none, some, List, [], ◌∷◌, ◌++◌, map, leb, ltb, ◌===◌,
  ◌<>◌, if◌then◌else◌, Result, ok, err, ◌>>=◌, ◌>>◌, throw_if, decimal, filter, find, get_elem?,
}
use devnet_deftrack.Netem.{
  NetemKind, NetemSpec, FaultClass, DslFaultKind, DslFaultSpec, FaultJob, apply, stop, dsl_set,
  Plan, JobUndo, partition, undo_for, undo_rank, same_class, fault_class_of, fault_id_of, Preimage,
  netem_of, service_of, dsl_of, netem_kind, service_stop, dsl_kind, response_drop, report_drop,
  response_delay, report_delay, commitment_skip,
}
use devnet_deftrack.Netem.Args.{
  FaultError, spent_lease, tc_apply_args, tc_partition_args, assert_dsl_fault_spec,
}

-- `job.container === container && faultClassOf(job) === faultClass`
abbrev pub is_slot : String → FaultClass → FaultJob → Bool
is_slot container fault_class job =
    job.container === container && same_class (fault_class_of job) fault_class

abbrev pub has_id : String → FaultJob → Bool
has_id id job = job.job_id === id

abbrev pub without_id : String → List FaultJob → List FaultJob
without_id id jobs = filter (λ job. not (has_id id job)) jobs

abbrev pub without_slot : String → FaultClass → List FaultJob → List FaultJob
without_slot container fault_class jobs =
    filter (λ job. not (is_slot container fault_class job)) jobs

-- `{ state, actions: [] }`
abbrev pub nothing_to_do : List FaultJob → Plan
nothing_to_do jobs = record { jobs = jobs; actions = [] }

-- The found job is the identical fault, under a lease that has not run out.
abbrev pub is_current : Option FaultJob → String → ℕ → Bool
is_current none id now_ms = false
is_current (some job) id now_ms = has_id id job && ltb now_ms job.expires_at_ms

-- A DSL fault is current only once the node has answered with a fault id.
abbrev pub is_armed : Option FaultJob → ℕ → Bool
is_armed none now_ms = false
is_armed (some job) now_ms = ltb now_ms job.expires_at_ms && not (fault_id_of job === "")

abbrev pub kind_name : DslFaultKind → String
kind_name response_drop = "response-drop"
kind_name report_drop = "report-drop"
kind_name response_delay = "response-delay"
kind_name report_delay = "report-delay"
kind_name commitment_skip = "commitment-skip"

-- `spec.kind === 'partition' ? tcPartitionArgs(spec) : [tcApplyArgs(spec)]`
unfoldable pub tc_vectors : NetemKind → NetemSpec → Result FaultError (List (List String))
unfolding tc_partition_args tc_apply_args
tc_vectors partition spec = tc_partition_args spec
tc_vectors _ spec = tc_apply_args spec >>= λ args. ok (args ∷ [])

module _ (short : Preimage → String) where
  -- `netemJobId`
  unfoldable pub netem_job_id : String → NetemSpec → String
  netem_job_id run_tag spec =
      "netem-" <> short (netem_of run_tag spec.container spec.kind spec.args)

  -- `serviceJobId`
  unfoldable pub service_job_id : String → String → String
  service_job_id run_tag container = "service-" <> short (service_of run_tag container)

  -- `dslJobId`
  unfoldable pub dsl_job_id : String → String → DslFaultKind → String
  dsl_job_id run_tag container kind = "dsl-" <> short (dsl_of run_tag container kind)

  abbrev pub netem_job : NetemSpec → String → ℕ → ℕ → FaultJob
  netem_job spec run_tag now_ms expires_at_ms = record {
    job_id = netem_job_id run_tag spec;
    run_tag = run_tag;
    container = spec.container;
    fault_class = some FaultClass.netem;
    kind = netem_kind spec.kind;
    args = spec.args;
    applied_at_ms = now_ms;
    expires_at_ms = expires_at_ms;
  }

  -- `planApply`
  unfoldable pub plan_apply : List FaultJob → NetemSpec → String → ℕ → ℕ → Result FaultError Plan
  unfolding tc_vectors
  plan_apply jobs spec run_tag now_ms expires_at_ms =
      if leb expires_at_ms now_ms
      then err spent_lease
      else if is_current (find (is_slot spec.container FaultClass.netem) jobs)
          (netem_job_id run_tag spec) now_ms
      then ok (nothing_to_do jobs)
      else (tc_vectors spec.kind spec >>= λ vectors. ok (record {
        jobs =
            without_slot spec.container FaultClass.netem jobs
            ++ netem_job spec run_tag now_ms expires_at_ms ∷ [];
        actions = map (λ args. apply spec.container args) vectors;
      }))

  abbrev pub service_job : String → String → ℕ → ℕ → FaultJob
  service_job container run_tag now_ms expires_at_ms = record {
    job_id = service_job_id run_tag container;
    run_tag = run_tag;
    container = container;
    fault_class = some FaultClass.service;
    kind = service_stop;
    args = [];
    applied_at_ms = now_ms;
    expires_at_ms = expires_at_ms;
  }

  -- `planServiceStop`
  unfoldable pub plan_service_stop :
      List FaultJob → String → String → ℕ → ℕ → Result FaultError Plan
  plan_service_stop jobs container run_tag now_ms expires_at_ms =
      if leb expires_at_ms now_ms
      then err spent_lease
      else if is_current (find (is_slot container FaultClass.service) jobs)
          (service_job_id run_tag container) now_ms
      then ok (nothing_to_do jobs)
      else ok (record {
        jobs =
            without_slot container FaultClass.service jobs
            ++ service_job container run_tag now_ms expires_at_ms ∷ [];
        actions = stop container ∷ [];
      })

  abbrev pub dsl_job : DslFaultSpec → String → ℕ → ℕ → FaultJob
  dsl_job spec run_tag now_ms expires_at_ms = record {
    job_id = dsl_job_id run_tag spec.container spec.fault_kind;
    run_tag = run_tag;
    container = spec.container;
    fault_class = some FaultClass.dsl;
    kind = dsl_kind;
    args = kind_name spec.fault_kind ∷ decimal spec.epochs ∷ decimal spec.param ∷ "" ∷ [];
    applied_at_ms = now_ms;
    expires_at_ms = expires_at_ms;
  }

  -- `planDslSet`
  unfoldable pub plan_dsl_set :
      List FaultJob → DslFaultSpec → String → ℕ → ℕ → Result FaultError Plan
  unfolding assert_dsl_fault_spec
  plan_dsl_set jobs spec run_tag now_ms expires_at_ms = do
    assert_dsl_fault_spec spec
    throw_if (leb expires_at_ms now_ms) spent_lease
    ok (
        if is_armed (find (has_id (dsl_job_id run_tag spec.container spec.fault_kind)) jobs) now_ms
        then nothing_to_do jobs
        else record {
          jobs =
              without_id (dsl_job_id run_tag spec.container spec.fault_kind) jobs
              ++ dsl_job spec run_tag now_ms expires_at_ms ∷ [];
          actions = dsl_set spec ∷ [];
        })

-- `job.args[k] ?? ''`
abbrev arg_of : FaultJob → ℕ → String
arg_of job k = elim (get_elem? job.args k) [ none ↦ "" | some a ↦ a ]

-- The update of `withDslFaultId` on one job.
unfoldable pub with_id : String → String → FaultJob → FaultJob
with_id id fault_id job =
    if has_id id job && same_class (fault_class_of job) FaultClass.dsl
    then record job { args = arg_of job 0 ∷ arg_of job 1 ∷ arg_of job 2 ∷ fault_id ∷ [] }
    else job

-- `withDslFaultId`
unfoldable pub with_dsl_fault_id : List FaultJob → String → String → List FaultJob
unfolding with_id
with_dsl_fault_id jobs id fault_id = map (with_id id fault_id) jobs

-- `planClear`
unfoldable pub plan_clear : List FaultJob → String → Plan
unfolding undo_for
plan_clear jobs id = elim (find (has_id id) jobs) [
  | none ↦ nothing_to_do jobs
  | some job ↦ record { jobs = without_id id jobs; actions = undo_for job ∷ [] }
]

-- `sort(byUndoRank)`, which is stable: a job goes in front of the later ones of its rank.
unfoldable pub insert_job : FaultJob → List FaultJob → List FaultJob
insert_job job [] = job ∷ []
insert_job job (other ∷ rest) =
    if leb (undo_rank (fault_class_of job)) (undo_rank (fault_class_of other))
    then job ∷ other ∷ rest
    else other ∷ insert_job job rest

unfoldable pub sort_jobs : List FaultJob → List FaultJob
unfolding insert_job
sort_jobs [] = []
sort_jobs (job ∷ jobs) = insert_job job (sort_jobs jobs)

abbrev pub undo_job : FaultJob → JobUndo
undo_job job = record { job = job; action = undo_for job }

abbrev pub is_expired : ℕ → FaultJob → Bool
is_expired now_ms job = leb job.expires_at_ms now_ms

-- `planSweep`
unfoldable pub plan_sweep : List FaultJob → ℕ → List JobUndo
unfolding sort_jobs undo_for
plan_sweep jobs now_ms = map undo_job (sort_jobs (filter (is_expired now_ms) jobs))

-- `sweepExpired`
unfoldable pub sweep_expired : List FaultJob → ℕ → Plan
unfolding plan_sweep
sweep_expired jobs now_ms = elim (plan_sweep jobs now_ms) [
  | [] ↦ nothing_to_do jobs
  | undo ∷ undos ↦ record {
    jobs = filter (λ job. not (is_expired now_ms job)) jobs;
    actions = map (λ u. u.action) (undo ∷ undos);
  }
]

-- `planBootRecovery`
unfoldable pub plan_boot_recovery : List FaultJob → List JobUndo
unfolding sort_jobs undo_for
plan_boot_recovery jobs = map undo_job (sort_jobs jobs)
