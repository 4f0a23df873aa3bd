-- ===== src/Actions/Schedule.antt =====
-- The rows of a plan: `scheduledActionRowsFor` of server/src/services/simulationDispatcher.service.ts.
use devnet_deftrack.Common.{
  ℕ, ◌≤◌, ◌<◌, ◌≡◌, ◌⊎◌, inl, inr, refl, true, List, [], ◌∷◌, map, filter, ◌==◌, arith, All,
  All-append, All-implies, Bool-cases,
}
use devnet_deftrack.Actions.Queue.{ActionRow}
use devnet_deftrack.Actions.Rows.{
  PlannedAction, ScheduleInput, is_dispatchable_kind, step_row, is_within_lease, is_deferred,
  scheduled_step_rows_for, max, largest, last_offset_ms, planned_end_row, scheduled_action_rows_for,
}

-- A row of the run that is due after the fault began and before its lease ends, when it expires.
pub record IsScheduled (input : ScheduleInput) (row : ActionRow) : Type 0 where
  pub own_run : row.run_key ≡ input.run_key
  pub after_start : input.activated_at_ms < row.not_before_ms
  pub before_end : row.not_before_ms < input.fault_lease_expires_at_ms
  pub expiry : row.expires_at_ms ≡ input.fault_lease_expires_at_ms

-- A row of a step that a dispatcher can carry out, due before the planned end and with a lower sequence.
pub record IsStep (input : ScheduleInput) (row : ActionRow) : Type 0 where
  pub scheduled : IsScheduled input row
  pub dispatchable : is_dispatchable_kind row.kind ≡ true
  pub earlier : row.not_before_ms < (planned_end_row input).not_before_ms
  pub lower : row.sequence < (planned_end_row input).sequence

largest-start :
    (field : PlannedAction → ℕ) (actions : List PlannedAction) (start : ℕ)
    → start ≤ largest field actions start
largest-start field [] start = omega arith
largest-start field (action ∷ actions) start =
    let rest = largest-start field actions (max start (field action)) in ground arith

largest-All :
    (field : PlannedAction → ℕ) (actions : List PlannedAction) (start : ℕ)
    → All (λ action. field action ≤ largest field actions start) actions
largest-All field [] start = tt
largest-All field (action ∷ actions) start =
    let rest = largest-start field actions (max start (field action)) in
    (ground arith, largest-All field actions (max start (field action)))

-- The steps come from actions that pass the filters.
steps-All :
    (input : ScheduleInput) (actions : List PlannedAction)
    → All (λ action. action.not_before_offset_ms ≤ last_offset_ms input) actions
    → All (λ action. action.sequence < (planned_end_row input).sequence) actions
    → All (IsStep input) (
        filter is_within_lease (
          map
            (step_row input)
            (filter (λ action. is_dispatchable_kind action.kind) (filter is_deferred actions))))
steps-All input [] le lt = tt
steps-All input (action ∷ actions) (l, le) (s, lt) =
    let rest = steps-All input actions le lt in
    elim (Bool-cases (is_deferred action)) [
      | inr miss ↦ rw miss rest
      | inl deferred ↦ rw deferred (elim (Bool-cases (is_dispatchable_kind action.kind)) [
        | inr miss ↦ rw miss rest
        | inl kind ↦ rw kind (elim (Bool-cases (is_within_lease (step_row input action))) [
          | inr miss ↦ rw miss rest
          | inl within ↦ rw within (
            record {
              scheduled = record {
                own_run = refl;
                after_start = ground arith;
                before_end = ground arith;
                expiry = refl;
              };
              dispatchable = kind;
              earlier = ground arith;
              lower = s;
            },
            rest,
          )
        ])
      ])
    ]

pub scheduled_step_rows_for-All :
    (input : ScheduleInput) → All (IsStep input) (scheduled_step_rows_for input)
unfolding scheduled_step_rows_for
scheduled_step_rows_for-All input =
    steps-All input input.actions
      (largest-All (λ action. action.not_before_offset_ms) input.actions 0)
      (All-implies (λ a. a.sequence ≤ largest (λ action. action.sequence) input.actions 0)
        (λ action. action.sequence < (planned_end_row input).sequence) (λ a k. omega arith)
        input.actions (largest-All (λ action. action.sequence) input.actions 0))

-- What every queued row is.
abbrev pub IsQueued : ScheduleInput → ActionRow → Type 0
IsQueued input row = IsScheduled input row × (IsStep input row ⊎ (row ≡ planned_end_row input))

-- Every row that a plan puts in the queue is due after the fault began and before its lease ends, when the
-- row expires; it is the row of a step that a dispatcher can carry out, due before the planned end and with a
-- lower sequence, or it is the planned end.
pub scheduled_action_rows_for-All :
    (input : ScheduleInput) → All (IsQueued input) (scheduled_action_rows_for input)
unfolding scheduled_action_rows_for
scheduled_action_rows_for-All input =
    let steps =
      All-implies (IsStep input) (IsQueued input) (λ row k. (k.scheduled, inl k))
        (scheduled_step_rows_for input) (scheduled_step_rows_for-All input) in
    elim (Bool-cases (last_offset_ms input == 0)) [
      | inl immediate ↦ rw (scheduled_action_rows_for, immediate) steps
      | inr later ↦ elim (Bool-cases (is_within_lease (planned_end_row input))) [
        | inr late ↦ rw (scheduled_action_rows_for, later, late) steps
        | inl within ↦
            rw (scheduled_action_rows_for, later, within)
              (All-append (IsQueued input) (scheduled_step_rows_for input)
                (planned_end_row input ∷ []) steps
                (
                  (
                    record {
                      own_run = refl;
                      after_start = ground arith;
                      before_end = ground arith;
                      expiry = refl;
                    },
                    inr refl,
                  ),
                  tt,
                ))
      ]
    ]
