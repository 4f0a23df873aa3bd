-- ===== src/Actions/Dispatcher.antt =====
-- `SimulationActionDispatcher` of server/src/services/simulationDispatcher.service.ts: one pass over the queue.
-- The run store, the plans, the executor and the clock are parameters.
use devnet_deftrack.Common.{
  ℕ, zero, suc, ◌+◌, String, Bool, true, false, Option, none, some, List, [], ◌∷◌, ◌++◌, leb, ◌===◌,
  if◌then◌else◌, Result, ok, err,
}
use devnet_deftrack.RunState.{RunState, Status}
use devnet_deftrack.Actions.{
  Action, ActionResult, ResultCode, applied, already_clear, wrapper_failed, SettledStatus,
  as_succeeded, as_failed, as_compensated,
}
use devnet_deftrack.Actions.Queue.{ClaimInput, claim_due, settle, expire_overdue}
use devnet_deftrack.Actions.Rows.{planned_end_kind}

-- `LEASE_MS`, where the dependencies set no other
abbrev pub default_lease_ms : ℕ
default_lease_ms = 30_000

-- `MAX_PER_TICK`
abbrev pub max_per_tick : ℕ
max_per_tick = 20

-- `DISPATCHABLE_STATUSES`
abbrev pub is_dispatchable_status : Status → Bool
is_dispatchable_status Status.fault_active = true
is_dispatchable_status Status.observing = true
is_dispatchable_status _ = false

-- What a pass asks of the rest of the server.
pub data Effect : Type 0 where
  dispatched : RunState → (action_id : String) → (fault_lease_expires_at_ms : ℕ) → Effect
  ended : RunState → Effect

-- The calls of `ActionDispatcherDeps`; an error is its message, and a plan is known by a name.
pub record Server : Type 0 where
  pub load_run : String → Result String RunState
  pub load_plan : RunState → Result String String
  pub dispatch :
      RunState → (plan action_id : String) → (fault_lease_expires_at_ms : ℕ) → Option String
  pub planned_end : Option (RunState → Option String)

-- `ActionDispatcherDeps`: what the server would answer and what the clock would show at each moment. A pass
-- reads the clock at some of them, and each of its calls of the server is answered at a later one of its own.
pub record Deps : Type 0 where
  pub server : ℕ → Server
  pub clock : ℕ → ℕ
  pub worker_id : String
  pub lease_ms : ℕ

-- The queue, and the effects so far, the latest last.
pub record Pass : Type 0 where
  pub actions : List Action
  pub effects : List Effect

-- The result that the dispatcher's `settle` records
abbrev pub settled_result :
    SettledStatus → ResultCode → (now_ms : ℕ) → (detail : Option String) → ActionResult
settled_result status code now_ms detail = record {
  code = code;
  public_message = elim status [
    | as_succeeded ↦ "Scheduled action applied."
    | as_failed ↦ "Scheduled action was not applied."
    | as_compensated ↦ "Scheduled action was not applied."
  ];
  private_detail = detail;
  wrapper_version = none;
  finished_at_ms = now_ms;
}

-- The dispatcher's `settle`; the log line about a lost lease is left out.
abbrev pub settle_claimed :
    Deps
    → Action
    → SettledStatus
    → ResultCode
    → (now_ms : ℕ) → (detail : Option String) → Pass
    → Pass
settle_claimed deps claimed status code now_ms detail pass = record pass {
  actions =
      (settle claimed.action_id deps.worker_id status (settled_result status code now_ms detail)
        now_ms pass.actions).0;
}

abbrev pub with_effect : Effect → Pass → Pass
with_effect e pass = record pass { effects = pass.effects ++ e ∷ [] }

-- The rest of the `try` after a call that may have thrown, and its `catch`
abbrev pub settle_outcome : Deps → Action → (now_ms : ℕ) → Option String → Pass → Pass
settle_outcome deps claimed now_ms none pass =
    settle_claimed deps claimed as_succeeded applied now_ms none pass
settle_outcome deps claimed now_ms (some message) pass =
    settle_claimed deps claimed as_failed wrapper_failed now_ms (some message) pass

-- The branch of `perform` for the planned end
abbrev pub perform_end : Deps → Server → Action → (now_ms : ℕ) → RunState → Pass → Pass
perform_end deps server claimed now_ms run pass = elim server.planned_end [
  | none ↦
      settle_claimed deps claimed as_compensated already_clear now_ms
        (some "no planned-end handler is configured; the fault lease closes the run") pass
  | some planned_end ↦
      settle_outcome deps claimed now_ms (planned_end run) (with_effect (ended run) pass)
]

-- The branch of `perform` for a step
abbrev pub perform_step :
    Deps → (loading sending : Server) → Action → (now_ms lease : ℕ) → RunState → Pass → Pass
perform_step deps loading sending claimed now_ms lease run pass = elim (loading.load_plan run) [
  | err message ↦ settle_claimed deps claimed as_failed wrapper_failed now_ms (some message) pass
  | ok plan ↦
      settle_outcome deps claimed now_ms (sending.dispatch run plan claimed.action_id lease)
        (with_effect (dispatched run claimed.action_id lease) pass)
]

-- The part of `perform` after the status of the run was found good; the lease is the run's.
abbrev pub perform_leased :
    Deps
    → (loading sending : Server) → Action
    → (now_ms : ℕ) → RunState
    → (lease : Option ℕ) → Pass
    → Pass
perform_leased deps loading sending claimed now_ms run none pass =
    settle_claimed deps claimed as_compensated already_clear now_ms (some "the run lease has ended")
      pass
perform_leased deps loading sending claimed now_ms run (some lease) pass =
    if leb lease now_ms
    then settle_claimed deps claimed as_compensated already_clear now_ms
        (some "the run lease has ended") pass
    else (if claimed.kind === planned_end_kind
        then perform_end deps sending claimed now_ms run pass
        else perform_step deps loading sending claimed now_ms lease run pass)

-- `perform` from a moment on: it reads the clock then, and the run is loaded, the plan is loaded and the step
-- or the end is sent at the three moments after, each when the answer before has come.
unfoldable pub perform : Deps → (moment : ℕ) → Action → Pass → Pass
unfolding settle
perform deps moment claimed pass =
    let now_ms = deps.clock moment in
    elim ((deps.server (moment + 1)).load_run claimed.run_key) [
      | err message ↦
          settle_claimed deps claimed as_failed wrapper_failed now_ms (some message) pass
      | ok run ↦
          if is_dispatchable_status run.status
          then perform_leased deps (deps.server (moment + 2)) (deps.server (moment + 3)) claimed
              now_ms run run.fault_lease_expires_at_ms pass
          else settle_claimed deps claimed as_compensated already_clear now_ms
              (some "run is no longer in its fault window") pass
    ]

-- What a pass asks of the queue
abbrev pub claim_input : Deps → (moment : ℕ) → ClaimInput
claim_input deps moment = record {
  claimed_by = deps.worker_id;
  now_ms = deps.clock moment;
  lease_ms = deps.lease_ms;
  run_key = none;
}

-- The loop of `tick`: at most so many claims, each performed before the next. The clock is read before every
-- claim and again before what was claimed is performed, which takes four moments.
unfoldable pub claim_loop : Deps → (left moment : ℕ) → Pass → Pass
unfolding claim_due perform
claim_loop deps zero moment pass = pass
claim_loop deps (suc left) moment pass =
    let claiming = claim_due (claim_input deps moment) pass.actions in
    elim claiming.1 [
      | none ↦ record pass { actions = claiming.0 }
      | some claimed ↦
          claim_loop deps left (moment + 5)
            (perform deps (moment + 1) claimed (record pass { actions = claiming.0 }))
    ]

-- `tick`, when no other pass is running
unfoldable pub tick : Deps → List Action → Pass
unfolding claim_loop expire_overdue
tick deps actions =
    claim_loop deps max_per_tick 1
      (record { actions = expire_overdue (deps.clock 0) actions; effects = [] })
