-- ===== src/Netem/Runner.antt =====
-- server/src/simulator/netemRunner.ts: `LabFaultRunner`. Its operations run one at a time, each over
-- the stored jobs and the lab host. An action or a save may fail, which a script says, and the
-- process may die at any point: so an operation yields every world that it passes through.
use devnet_deftrack.Common.{
  ◌||◌, ℕ, suc, ◌≡◌, ◌⊎◌, String, Bool, true, false, not, Option, none, some, List, [], ◌∷◌, ◌++◌,
  ◌===◌, if◌then◌else◌, Result, ok, err, filter, any, ◌+◌,
}
use devnet_deftrack.Netem.{
  NetemSpec, DslFaultSpec, FaultJob, FaultAction, apply, clear, stop, start, Plan, JobUndo,
  Preimage,
}
use devnet_deftrack.Netem.Args.{FaultError}
use devnet_deftrack.Netem.Plans.{
  plan_apply, plan_service_stop, plan_dsl_set, with_dsl_fault_id, plan_clear, plan_sweep,
  plan_boot_recovery, dsl_job_id, without_id,
}

-- The container whose interface an action impairs, and the one that it stops.
abbrev pub impairs : FaultAction → Option String
impairs (apply c _) = some c
impairs _ = none

abbrev pub stops : FaultAction → Option String
stops (stop c) = some c
stops _ = none

-- What the wrapper relies on of `docker` and `tc`: an interface is impaired only by an apply on its
-- container and a container is down only by a stop of it; a clear and a start undo them, also where
-- there is nothing to undo.
pub record LabHost : Type 1 where
  pub Lab : Type 0
  pub perform : FaultAction → Lab → Lab
  pub impaired : Lab → String → Bool
  pub stopped : Lab → String → Bool
  pub impaired_by :
      (a : FaultAction) (l : Lab) (c : String)
      → impaired (perform a l) c ≡ true
      → (impaired l c ≡ true) ⊎ (impairs a ≡ some c)
  pub stopped_by :
      (a : FaultAction) (l : Lab) (c : String)
      → stopped (perform a l) c ≡ true
      → (stopped l c ≡ true) ⊎ (stops a ≡ some c)
  pub clear_undoes :
      (c : String) (args : List String) (l : Lab) → impaired (perform (clear c args) l) c ≡ false
  pub start_undoes : (c : String) (l : Lab) → stopped (perform (start c) l) c ≡ false

-- How the execution of an action ends: it lands, it fails with no effect, or it throws although its
-- effect has landed.
pub data Outcome : Type 0 where
  lands fails fails_late : Outcome

abbrev pub landed : Outcome → Bool
landed lands = true
landed fails = false
landed fails_late = false

-- `succeeded.has(id)`
abbrev pub has : List String → String → Bool
has ids id = any (λ other. other === id) ids

-- Whether the record can be read at the start of an operation; how its actions end, in order; whether its
-- saves succeed; and what the node answers to a `dsl-set`. A second load that throws has the effect of a
-- save that fails.
pub record Script : Type 0 where
  pub loads : Bool
  pub outcome : ℕ → Outcome
  pub first_save : Bool
  pub second_save : Bool
  pub fault_id : Option String

module _ (host : LabHost) where
  open host use {Lab, perform}

  -- The stored jobs and the lab.
  pub record World : Type 0 where
    pub jobs : List FaultJob
    pub lab : Lab

  -- The worlds passed through after the first, the last world, and whether the operation threw.
  pub record Ran : Type 0 where
    pub visited : List World
    pub world : World
    pub threw : Bool

  abbrev pub execute : FaultAction → Outcome → World → World
  execute a lands w = record w { lab = perform a w.lab }
  execute a fails w = w
  execute a fails_late w = record w { lab = perform a w.lab }

  abbrev pub stay : World → Bool → Ran
  stay w threw = record { visited = []; world = w; threw = threw }

  -- `store.save`, which throws if it does not succeed.
  abbrev pub save : Bool → List FaultJob → World → Ran
  save true jobs w =
      let next = record w { jobs = jobs } in
      record { visited = next ∷ []; world = next; threw = false }
  save false jobs w = stay w true

  -- The rest of a body, unless what stands before it threw.
  abbrev pub and_then : Ran → (World → Ran) → Ran
  and_then r rest =
      if r.threw then r else record (rest r.world) { visited = r.visited ++ (rest r.world).visited }

  -- `runActions`
  unfoldable pub run_actions : List FaultAction → (ℕ → Outcome) → World → Ran
  run_actions [] outcome w = stay w false
  run_actions (a ∷ actions) outcome w =
      let next = execute a (outcome 0) w in
      let rest = run_actions actions (λ k. outcome (suc k)) next in
      if landed (outcome 0)
      then record rest { visited = next ∷ rest.visited }
      else record { visited = next ∷ []; world = next; threw = true }

  -- A plan carried out: nothing to do, or the record is saved and then the actions run.
  abbrev pub carry_out : Result FaultError Plan → Script → World → Ran
  carry_out (err e) script w = stay w true
  carry_out (ok plan) script w = elim plan.actions [
    | [] ↦ stay w false
    | a ∷ actions ↦
        and_then (save script.first_save plan.jobs w) (run_actions (a ∷ actions) script.outcome)
  ]

  -- What stands behind the actions of a plan that has any.
  abbrev pub if_acted : Result FaultError Plan → (World → Ran) → Ran → Ran
  if_acted (err e) rest ran = ran
  if_acted (ok plan) rest ran = elim plan.actions [ [] ↦ ran | a ∷ actions ↦ and_then ran rest ]

  -- `clearLocked` behind its first load
  unfoldable pub clear_locked : String → Script → World → Ran
  unfolding run_actions plan_clear
  clear_locked id script w = elim (plan_clear w.jobs id).actions [
    | [] ↦ stay w false
    | a ∷ actions ↦
        and_then (run_actions (a ∷ actions) script.outcome w)
          (λ fresh. save script.first_save (without_id id fresh.jobs) fresh)
  ]

  -- What `runUndos` comes to; it never throws.
  pub record Undone : Type 0 where
    pub visited : List World
    pub world : World
    pub succeeded : List String
    pub failed : ℕ

  -- `runUndos`
  unfoldable pub run_undos : List JobUndo → (ℕ → Outcome) → World → Undone
  run_undos [] outcome w = record { visited = []; world = w; succeeded = []; failed = 0 }
  run_undos (u ∷ undos) outcome w =
      let next = execute u.action (outcome 0) w in
      let rest = run_undos undos (λ k. outcome (suc k)) next in
      if landed (outcome 0)
      then record rest { visited = next ∷ rest.visited; succeeded = u.job.job_id ∷ rest.succeeded }
      else record rest { visited = next ∷ rest.visited; failed = rest.failed + 1 }

  -- `tickLocked` behind its first load; `tick` catches what it throws.
  unfoldable pub tick_locked : ℕ → Script → World → Ran
  unfolding run_undos plan_sweep
  tick_locked now_ms script w = elim (plan_sweep w.jobs now_ms) [
    | [] ↦ stay w false
    | u ∷ undos ↦
        let undone = run_undos (u ∷ undos) script.outcome w in
        let saved =
          save script.first_save
            (filter (λ job. not (has undone.succeeded job.job_id)) undone.world.jobs)
            undone.world in
        record saved { visited = undone.visited ++ saved.visited }
  ]

  -- What the loop of `bootCleanupLocked` comes to.
  pub record Recovering : Type 0 where
    pub visited : List World
    pub world : World
    pub retained : List FaultJob
    pub cleared : ℕ

  -- The loop of `bootCleanupLocked`.
  unfoldable pub recover_all : List JobUndo → (ℕ → Outcome) → World → Recovering
  recover_all [] outcome w = record { visited = []; world = w; retained = []; cleared = 0 }
  recover_all (u ∷ undos) outcome w =
      let next = execute u.action (outcome 0) w in
      let rest = recover_all undos (λ k. outcome (suc k)) next in
      if landed (outcome 0)
      then record rest { visited = next ∷ rest.visited; cleared = rest.cleared + 1 }
      else record rest {
        visited = next ∷ rest.visited;
        retained = record (u.job) { expires_at_ms = 0 } ∷ rest.retained;
      }

  -- `bootCleanupLocked`, which starts clean from a record that cannot be read; a save that fails is only
  -- logged.
  unfoldable pub boot_cleanup_locked : Script → World → Ran
  unfolding recover_all plan_boot_recovery
  boot_cleanup_locked script w =
      let stored = if script.loads then w.jobs else [] in
      let recovering = recover_all (plan_boot_recovery stored) script.outcome w in
      let saved = save script.first_save recovering.retained recovering.world in
      record saved { visited = recovering.visited ++ saved.visited; threw = false }

  module _ (short : Preimage → String) where
    -- `applyLocked` behind its first load
    unfoldable pub apply_locked : NetemSpec → String → ℕ → ℕ → Script → World → Ran
    unfolding run_actions plan_apply
    apply_locked spec run_tag now_ms expires_at_ms script w =
        carry_out (plan_apply short w.jobs spec run_tag now_ms expires_at_ms) script w

    -- `stopServiceLocked` behind its first load
    unfoldable pub stop_service_locked : String → String → ℕ → ℕ → Script → World → Ran
    unfolding run_actions plan_service_stop
    stop_service_locked container run_tag now_ms expires_at_ms script w =
        carry_out (plan_service_stop short w.jobs container run_tag now_ms expires_at_ms) script w

    -- The second save of `setDslFaultLocked`, if the node answered with a fault id.
    abbrev pub save_fault_id : DslFaultSpec → String → Script → World → Ran
    save_fault_id spec run_tag script w = elim script.fault_id [
      | none ↦ stay w false
      | some id ↦
          if id === ""
          then stay w false
          else save script.second_save
              (with_dsl_fault_id w.jobs (dsl_job_id short run_tag spec.container spec.fault_kind)
                id)
              w
    ]

    -- `setDslFaultLocked` behind its first load
    unfoldable pub set_dsl_fault_locked : DslFaultSpec → String → ℕ → ℕ → Script → World → Ran
    unfolding run_actions plan_dsl_set with_dsl_fault_id
    set_dsl_fault_locked spec run_tag now_ms expires_at_ms script w =
        let plan = plan_dsl_set short w.jobs spec run_tag now_ms expires_at_ms in
        if_acted plan (save_fault_id spec run_tag script) (carry_out plan script w)

    -- An operation of the runner, with its arguments.
    pub data Operation : Type 0 where
      applying : NetemSpec → (run_tag : String) → (expires_at_ms : ℕ) → Operation
      stopping : (container run_tag : String) → (expires_at_ms : ℕ) → Operation
      setting_dsl : DslFaultSpec → (run_tag : String) → (expires_at_ms : ℕ) → Operation
      clearing : (job_id : String) → Operation
      ticking : Operation
      booting : Operation

    -- An operation, once its first load is done: the body of a boot catches what that throws, the others throw.
    unfoldable pub run_loaded : ℕ → Script → Operation → World → Ran
    unfolding apply_locked stop_service_locked set_dsl_fault_locked
    run_loaded now_ms script (applying spec run_tag expires) w =
        apply_locked spec run_tag now_ms expires script w
    run_loaded now_ms script (stopping container run_tag expires) w =
        stop_service_locked container run_tag now_ms expires script w
    run_loaded now_ms script (setting_dsl spec run_tag expires) w =
        set_dsl_fault_locked spec run_tag now_ms expires script w
    run_loaded now_ms script (clearing id) w = clear_locked id script w
    run_loaded now_ms script ticking w = tick_locked now_ms script w
    run_loaded now_ms script booting w = boot_cleanup_locked script w

    abbrev pub is_boot : Operation → Bool
    is_boot booting = true
    is_boot _ = false

    -- `serialise`: one operation at a time, over what the last one left. Where its first load throws, it ends at
    -- once, but for a boot.
    unfoldable pub run_operation : ℕ → Script → Operation → World → Ran
    unfolding run_loaded
    run_operation now_ms script op w =
        if script.loads || is_boot op then run_loaded now_ms script op w else stay w true
