-- ===== src/Actions/Tests.antt =====
-- A queue of two steps and a planned end, and the laws of the queue and of the dispatcher at it.
use mathlib.Core.List.{Memᴰ}
use devnet_deftrack.Common.{
  ℕ, ◌+◌, ◌≤◌, ◌≡◌, ◌≢◌, refl, String, true, false, none, some, List, [], ◌∷◌, map, if◌then◌else◌,
  ◌===◌, arith, eq_iff, All, length, Result, ok, subst,
}
use devnet_deftrack.RunState.{RunState, Status}
use devnet_deftrack.RunState.WellFormed.{WellFormed}
use devnet_deftrack.Actions.{
  Action, ActionStatus, ActionResult, applied, as_succeeded, as_failed, is_claimable, claim_action,
  is_renewable, renew_action, is_settleable, settle_action, is_overdue, expire_action,
}
use devnet_deftrack.Actions.Queue.{
  ClaimInput, enqueue, claim_due, first_sorted, settle, expire_overdue, renew_lease, cancel_pending,
  cancel_action,
}
use devnet_deftrack.Actions.Rows.{
  PlannedAction, ScheduleInput, scheduled_step_rows_for, scheduled_action_rows_for,
}
use devnet_deftrack.Actions.Dispatcher.{Server, Deps, perform, claim_loop, tick, max_per_tick}
use devnet_deftrack.Actions.History.{
  QueueCall, enqueuing, cancelling, claiming, renewing, settling, expiring, step_queue, run_queue,
}
use devnet_deftrack.Actions.Sound.{IsSound, run_queue-IsSound, final_stays}
use devnet_deftrack.Actions.Exclusive.{lease_exclusive}
use devnet_deftrack.Actions.Attempts.{attempts_of, ceiling_of, claims_of, claims_bounded}
use devnet_deftrack.Actions.Passes.{
  IsRightful, LoadsWellFormed, tick-IsRightful, OwnHistory, tick-OwnHistory,
}
use devnet_deftrack.Actions.Held.{held, held-tick}

abbrev planned : String → ℕ → String → ℕ → PlannedAction
planned id sequence kind offset = record {
  action_id = id;
  run_key = "r1";
  sequence = sequence;
  target_id = "mn-1";
  kind = kind;
  payload = "{}";
  payload_digest = "digest";
  not_before_offset_ms = offset;
  expires_after_ms = 60_000;
  max_attempts = 3;
}

abbrev plan_input : ScheduleInput
plan_input = record {
  run_key = "r1";
  actions =
      planned "a0" 0 "service-stop" 0
      ∷ planned "a1" 1 "service-start" 5000
      ∷ planned "a2" 2 "service-stop" 9000
      ∷ planned "a3" 3 "fault-clear" 20_000
      ∷ [];
  activated_at_ms = 100_000;
  fault_lease_expires_at_ms = 160_000;
}

abbrev queued : List Action
queued = enqueue (scheduled_action_rows_for plan_input) []

-- The immediate step and the one that no dispatcher performs are left out, the planned end comes last.
queued_starts : map (λ a. a.not_before_ms) queued ≡ some 105_000 ∷ some 109_000 ∷ some 121_000 ∷ []
unfolding enqueue scheduled_action_rows_for scheduled_step_rows_for
queued_starts = refl

abbrev asking : String → ℕ → ClaimInput
asking worker now = record { claimed_by = worker; now_ms = now; lease_ms = 30_000; run_key = none }

abbrev report : ActionResult
report = record {
  code = applied;
  public_message = "Scheduled action applied.";
  private_detail = none;
  wrapper_version = none;
  finished_at_ms = 106_000;
}

-- Two workers; the second takes over when the lease of the first has run out, and the third step never runs.
abbrev history : List QueueCall
history =
    enqueuing (scheduled_action_rows_for plan_input)
    ∷ claiming (asking "w1" 106_000)
    ∷ settling "a1" "w1" as_succeeded report 106_000
    ∷ claiming (asking "w2" 110_000)
    ∷ renewing "a2" "w2" 120_000 30_000
    ∷ claiming (asking "w1" 150_000)
    ∷ cancelling "r1" 151_000
    ∷ settling "a2" "w1" as_failed report 152_000
    ∷ expiring 200_000
    ∷ []

history_ends :
    map {B = ActionStatus × ℕ} (λ a. (a.status, a.attempts)) (run_queue history [])
    ≡ (ActionStatus.succeeded, 1) ∷ (ActionStatus.failed, 2) ∷ (ActionStatus.compensated, 0) ∷ []
unfolding enqueue scheduled_action_rows_for scheduled_step_rows_for run_queue step_queue claim_due
    first_sorted is_claimable claim_action settle is_settleable settle_action renew_lease
    is_renewable renew_action cancel_pending cancel_action expire_overdue is_overdue expire_action
history_ends = refl

run_queue-IsSound_example : All IsSound (run_queue history [])
run_queue-IsSound_example = run_queue-IsSound history [] tt

claims_bounded_example :
    claims_of "a2" history [] + attempts_of "a2" [] ≤ ceiling_of "a2" (run_queue history [])
claims_bounded_example = claims_bounded "a2" history [] tt

abbrev step_action : Action
step_action = record {
  action_id = "a1";
  run_key = "r1";
  sequence = 1;
  target_id = "mn-1";
  kind = "service-start";
  status = ActionStatus.claimed;
  revision = 1;
  payload = "{}";
  payload_digest = "digest";
  not_before_ms = some 105_000;
  expires_at_ms = 160_000;
  attempts = 1;
  max_attempts = 3;
  claimed_by = some "w1";
  lease_until_ms = some 136_000;
  claimed_at_ms = some 106_000;
  executed_at_ms = none;
  result = none;
}

w2_is_not_w1 : ◌≢◌ {A = String} "w2" "w1"
w2_is_not_w1 same = absurd (ground (arith, (eq_iff "w2" "w1").1 same))

-- Another worker asks, tries to settle, and the sweep passes, all before the lease has run out.
abbrev intrusion : List QueueCall
intrusion =
    claiming (asking "w2" 110_000)
    ∷ settling "a1" "w2" as_failed report 111_000
    ∷ expiring 120_000
    ∷ cancelling "r1" 130_000
    ∷ []

lease_exclusive_example : Memᴰ step_action (run_queue intrusion (step_action ∷ []))
lease_exclusive_example =
    lease_exclusive "w1" 136_000 intrusion (step_action ∷ []) step_action
      (record { claimed = refl; owner = refl; lease = refl }) (omega arith)
      (omega arith, (w2_is_not_w1, (omega arith, (tt, tt)))) (Memᴰ.head refl)

abbrev failed_action : Action
failed_action = record step_action {
  status = ActionStatus.failed;
  lease_until_ms = none;
  result = some report;
  executed_at_ms = some 107_000;
}

final_stays_example :
    Memᴰ failed_action (run_queue (claiming (asking "w1" 110_000) ∷ []) (failed_action ∷ []))
final_stays_example =
    final_stays (claiming (asking "w1" 110_000) ∷ []) (failed_action ∷ []) failed_action refl
      (Memᴰ.head refl)

abbrev observed_run : RunState
observed_run = record {
  run_key = "r1";
  status = Status.observing;
  revision = 7;
  live = true;
  created_at_ms = 90_000;
  updated_at_ms = 101_000;
  state_entered_at_ms = 101_000;
  cooldown_expires_at_ms = none;
  run_expires_at_ms = 200_000;
  fault_activated_tip = none;
  recovered_tip = none;
  fault_lease_expires_at_ms = some 160_000;
  fault_may_be_active = true;
  abort_requested = false;
  last_transition = none;
}

observed_run-WellFormed : WellFormed observed_run
observed_run-WellFormed = ground arith

-- The server has the run and carries out all but the second step, for which the wrapper fails.
abbrev server : Server
server = record {
  load_run = λ run_key. ok observed_run;
  load_plan = λ run. ok "plan";
  dispatch = λ run plan id lease. if id === "a2" then some "wrapper refused" else none;
  planned_end = none;
}

abbrev deps : Deps
deps = record {
  server = λ reading. server;
  clock = λ reading. 110_000 + reading;
  worker_id = "w1";
  lease_ms = 30_000;
}

tick_effects : length (tick deps queued).effects ≡ 2
unfolding enqueue scheduled_action_rows_for scheduled_step_rows_for tick claim_loop perform
    claim_due first_sorted is_claimable claim_action settle is_settleable settle_action
    expire_overdue is_overdue expire_action
tick_effects = refl

ok_same : (s t : RunState) → ◌≡◌ {A = Result String RunState} (ok s) (ok t) → s ≡ t
ok_same s t e = cc

deps-LoadsWellFormed : LoadsWellFormed deps
deps-LoadsWellFormed reading run_key run loaded =
    subst WellFormed (ok_same observed_run run loaded) observed_run-WellFormed

tick-IsRightful_example :
    All (IsRightful deps) (tick deps queued).effects
    × (length (tick deps queued).effects ≤ max_per_tick)
tick-IsRightful_example = tick-IsRightful deps queued deps-LoadsWellFormed

tick-OwnHistory_example :
    OwnHistory deps 41 queued (tick deps queued).actions
    × (All IsSound queued → All IsSound (tick deps queued).actions)
tick-OwnHistory_example = tick-OwnHistory deps queued

held-tick_example : held "w1" (tick deps queued).actions ≤ held "w1" queued
held-tick_example = held-tick deps queued
