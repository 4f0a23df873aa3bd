-- ===== src/Live/Scheduled.antt =====
-- `scheduledLabActionsForPlan` and `assertSingleFaultClass` of server/src/simulator/liveExecutorPlan.ts: the
-- actions that a dispatcher performs later.
use Prim.Native.String.{compare}
use text.Mathlib.Text.{is_lt}
use devnet_deftrack.Common.{
  ℕ, ◌+◌, String, Bool, true, false, ◌&&◌, ◌||◌, Option, none, some, List, [], ◌∷◌, ◌++◌, any, leb,
  ltb, ◌==◌, if◌then◌else◌, Result, ok, err, ◌>>=◌, throw_if,
}
use devnet_deftrack.Netem.{FaultClass, Preimage}
use devnet_deftrack.Netem.Plans.{service_job_id, dsl_job_id}
use devnet_deftrack.Netem.Commands.{stopping_service, clearing}
use devnet_deftrack.Live.{
  ActionPayload, service_stop, service_start, netem_apply, partition_apply, dsl_fault_apply,
  dsl_fault_clear, fault_clear, LiveAction, service_control, dsl_test_hook, Target, LiveFaultError,
  unsupported, require_lab_target, ScheduledLabAction,
}
use devnet_deftrack.Live.Faults.{LiveInput}

-- What the loop has scheduled so far
pub record Schedule : Type 0 where
  pub actions : List ScheduledLabAction
  pub skipped : ℕ

-- The order of the sort, with the ids compared as texts
abbrev pub goes_before : ScheduledLabAction → ScheduledLabAction → Bool
goes_before a b =
    ltb a.not_before_offset_ms b.not_before_offset_ms
    || (a.not_before_offset_ms == b.not_before_offset_ms && is_lt (compare a.action_id b.action_id))

-- `scheduled.sort`, which is stable
unfoldable pub insert_scheduled :
    ScheduledLabAction → List ScheduledLabAction → List ScheduledLabAction
insert_scheduled a [] = a ∷ []
insert_scheduled a (b ∷ rest) =
    if goes_before b a then b ∷ insert_scheduled a rest else a ∷ b ∷ rest

unfoldable pub sort_scheduled : List ScheduledLabAction → List ScheduledLabAction
unfolding insert_scheduled
sort_scheduled [] = []
sort_scheduled (a ∷ actions) = insert_scheduled a (sort_scheduled actions)

module _ (short : Preimage → String) where
  abbrev pub scheduled_clear :
      LiveInput → LiveAction → Target → FaultClass → (job_id : String) → ScheduledLabAction
  scheduled_clear input action target fault_class job_id = record {
    action_id = action.action_id;
    target_id = target.target_id;
    container = target.host_ref;
    fault_class = fault_class;
    not_before_offset_ms = action.not_before_offset_ms;
    command = clearing job_id (some action.action_id);
  }

  abbrev pub scheduled_stop : LiveInput → LiveAction → Target → ScheduledLabAction
  scheduled_stop input action target = record {
    action_id = action.action_id;
    target_id = target.target_id;
    container = target.host_ref;
    fault_class = FaultClass.service;
    not_before_offset_ms = action.not_before_offset_ms;
    command =
        stopping_service target.host_ref input.run_tag input.expires_at_ms (some action.action_id);
  }

  -- What an action with an offset schedules, or `none` where it is recovery's
  unfoldable pub schedule_action :
      LiveInput → LiveAction → ActionPayload → Result LiveFaultError (Option ScheduledLabAction)
  unfolding require_lab_target
  schedule_action input action fault_clear = ok none
  schedule_action input action (dsl_fault_clear kind) = do
    target ← require_lab_target input.targets action.target_id (some dsl_test_hook)
    ok (
        some (
          scheduled_clear input action target FaultClass.dsl
            (dsl_job_id short input.run_tag target.host_ref kind)))
  schedule_action input action service_stop = do
    target ← require_lab_target input.targets action.target_id (some service_control)
    ok (some (scheduled_stop input action target))
  schedule_action input action service_start = do
    target ← require_lab_target input.targets action.target_id (some service_control)
    ok (
        some (
          scheduled_clear input action target FaultClass.service
            (service_job_id short input.run_tag target.host_ref)))
  schedule_action input action (netem_apply _ _ _ _) = err unsupported
  schedule_action input action (partition_apply _) = err unsupported
  schedule_action input action (dsl_fault_apply _ _ _) = err unsupported

  abbrev pub with_scheduled : Option ScheduledLabAction → Schedule → Schedule
  with_scheduled none schedule = schedule
  with_scheduled (some later) schedule = record schedule {
    actions = schedule.actions ++ later ∷ [];
  }

  -- The loop
  unfoldable pub schedule_all :
      (strict : Bool) → LiveInput → List LiveAction → Schedule → Result LiveFaultError Schedule
  unfolding schedule_action
  schedule_all strict input [] schedule = ok schedule
  schedule_all strict input (action ∷ actions) schedule = elim (leb action.not_before_offset_ms 0) [
    | true ↦ schedule_all strict input actions schedule
    | false ↦ elim (schedule_action input action action.payload) [
      | ok later ↦ schedule_all strict input actions (with_scheduled later schedule)
      | err e ↦ elim strict [
        | true ↦ err e
        | false ↦
            schedule_all strict input actions (record schedule { skipped = schedule.skipped + 1 })
      ]
    ]
  ]

  -- `scheduledLabActionsForPlan`
  unfoldable pub scheduled_lab_actions_for_plan :
      (strict : Bool) → LiveInput → List LiveAction → Result LiveFaultError Schedule
  unfolding schedule_all sort_scheduled
  scheduled_lab_actions_for_plan strict input actions = do
    schedule ← schedule_all strict input actions (record { actions = []; skipped = 0 })
    ok (record schedule { actions = sort_scheduled schedule.actions })

abbrev pub puts_netem : LiveAction → Bool
puts_netem action = elim action.payload as (λ x. Bool) [
  | service_stop ↦ false
  | service_start ↦ false
  | netem_apply _ _ _ _ ↦ true
  | partition_apply _ ↦ true
  | dsl_fault_apply _ _ _ ↦ false
  | dsl_fault_clear _ ↦ false
  | fault_clear ↦ false
]

abbrev pub puts_service : LiveAction → Bool
puts_service action = elim action.payload as (λ x. Bool) [
  | service_stop ↦ true
  | service_start ↦ false
  | netem_apply _ _ _ _ ↦ false
  | partition_apply _ ↦ false
  | dsl_fault_apply _ _ _ ↦ false
  | dsl_fault_clear _ ↦ false
  | fault_clear ↦ false
]

abbrev pub puts_dsl : LiveAction → Bool
puts_dsl action = elim action.payload as (λ x. Bool) [
  | service_stop ↦ false
  | service_start ↦ false
  | netem_apply _ _ _ _ ↦ false
  | partition_apply _ ↦ false
  | dsl_fault_apply _ _ _ ↦ true
  | dsl_fault_clear _ ↦ false
  | fault_clear ↦ false
]

abbrev pub one_if : Bool → ℕ
one_if b = if b then 1 else 0

-- `assertSingleFaultClass`
unfoldable pub assert_single_fault_class : List LiveAction → Result LiveFaultError (Unit {0})
assert_single_fault_class actions =
    throw_if
      (ltb 1 (
        one_if (any puts_netem actions)
        + one_if (any puts_service actions)
        + one_if (any puts_dsl actions)))
      unsupported

abbrev pub clears_dsl : LiveAction → Bool
clears_dsl action = elim action.payload as (λ x. Bool) [
  | service_stop ↦ false
  | service_start ↦ false
  | netem_apply _ _ _ _ ↦ false
  | partition_apply _ ↦ false
  | dsl_fault_apply _ _ _ ↦ false
  | dsl_fault_clear _ ↦ true
  | fault_clear ↦ false
]
