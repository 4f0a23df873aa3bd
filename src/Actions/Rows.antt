-- ===== src/Actions/Rows.antt =====
-- `scheduledActionRowsFor` of server/src/services/simulationDispatcher.service.ts: the rows that a plan puts
-- in the queue when its fault begins.
use devnet_deftrack.Common.{
  ℕ, ◌+◌, String, Bool, ◌||◌, List, [], ◌∷◌, ◌++◌, map, filter, ltb, ◌==◌, ◌===◌, ◌<>◌,
  if◌then◌else◌,
}
use devnet_deftrack.Actions.Queue.{ActionRow}

-- `PlannedSimulationAction`; a payload is its JSON text.
pub record PlannedAction : Type 0 where
  pub action_id : String
  pub run_key : String
  pub sequence : ℕ
  pub target_id : String
  pub kind : String
  pub payload : String
  pub payload_digest : String
  pub not_before_offset_ms : ℕ
  pub expires_after_ms : ℕ
  pub max_attempts : ℕ

-- The parameter of `scheduledActionRowsFor`
pub record ScheduleInput : Type 0 where
  pub run_key : String
  pub actions : List PlannedAction
  pub activated_at_ms : ℕ
  pub fault_lease_expires_at_ms : ℕ

-- `PLANNED_END_KIND`
abbrev pub planned_end_kind : String
planned_end_kind = "planned-end"

-- `PLANNED_END_DELAY_MS`
abbrev pub planned_end_delay_ms : ℕ
planned_end_delay_ms = 1000

-- `DISPATCHABLE_ACTION_KINDS`
abbrev pub is_dispatchable_kind : String → Bool
is_dispatchable_kind kind =
    kind === "service-stop" || kind === "service-start" || kind === "dsl-fault-clear"

-- The row of a step
abbrev pub step_row : ScheduleInput → PlannedAction → ActionRow
step_row input action = record {
  action_id = action.action_id;
  run_key = input.run_key;
  sequence = action.sequence;
  target_id = action.target_id;
  kind = action.kind;
  payload = action.payload;
  payload_digest = action.payload_digest;
  not_before_ms = input.activated_at_ms + action.not_before_offset_ms;
  expires_at_ms = input.fault_lease_expires_at_ms;
  max_attempts = action.max_attempts;
}

-- `row.notBeforeMs < row.expiresAtMs`
abbrev pub is_within_lease : ActionRow → Bool
is_within_lease row = ltb row.not_before_ms row.expires_at_ms

abbrev pub is_deferred : PlannedAction → Bool
is_deferred action = ltb 0 action.not_before_offset_ms

-- `scheduledStepRowsFor`
unfoldable pub scheduled_step_rows_for : ScheduleInput → List ActionRow
scheduled_step_rows_for input = filter is_within_lease (
    map (step_row input)
      (filter (λ action. is_dispatchable_kind action.kind) (filter is_deferred input.actions)))

-- `Math.max`
abbrev pub max : ℕ → ℕ → ℕ
max m n = if ltb m n then n else m

-- `actions.reduce((max, action) => Math.max(max, field(action)), start)`
abbrev pub largest : (PlannedAction → ℕ) → List PlannedAction → (start : ℕ) → ℕ
largest field [] start = start
largest field (action ∷ actions) start = largest field actions (max start (field action))

abbrev pub last_offset_ms : ScheduleInput → ℕ
last_offset_ms input = largest (λ action. action.not_before_offset_ms) input.actions 0

-- `plannedEnd` of `scheduledActionRowsFor`
abbrev pub planned_end_row : ScheduleInput → ActionRow
planned_end_row input = record {
  action_id = input.run_key <> ":planned-end";
  run_key = input.run_key;
  sequence = largest (λ action. action.sequence) input.actions 0 + 1;
  target_id = "run";
  kind = planned_end_kind;
  payload = "{\"kind\":\"planned-end\"}";
  payload_digest = planned_end_kind;
  not_before_ms = input.activated_at_ms + last_offset_ms input + planned_end_delay_ms;
  expires_at_ms = input.fault_lease_expires_at_ms;
  max_attempts = 3;
}

-- `scheduledActionRowsFor`
unfoldable pub scheduled_action_rows_for : ScheduleInput → List ActionRow
unfolding scheduled_step_rows_for
scheduled_action_rows_for input =
    let scheduled = scheduled_step_rows_for input in
    if last_offset_ms input == 0
    then scheduled
    else (if is_within_lease (planned_end_row input)
        then scheduled ++ planned_end_row input ∷ []
        else scheduled)
