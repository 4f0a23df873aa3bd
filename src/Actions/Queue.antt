-- ===== src/Actions/Queue.antt =====
-- `MongoSimulationActionRepository` of server/src/services/simulationAction.repository.ts: the calls on the
-- collection of actions, each of which the database performs in one step.
use devnet_deftrack.Common.{
  ℕ, ◌+◌, String, Bool, true, false, not, ◌&&◌, ◌||◌, Option, none, some, List, [], ◌∷◌, ◌++◌, map,
  ltb, ◌===◌, if◌then◌else◌, find, any,
}
use devnet_deftrack.Actions.{
  Action, ActionStatus, ActionResult, already_clear, is_pending, is_claimable, claim_action,
  is_renewable, renew_action, SettledStatus, is_settleable, settle_action, is_overdue,
  expire_action,
}

-- `ScheduledActionRow`
pub record ActionRow : Type 0 where
  pub action_id : String
  pub run_key : String
  pub sequence : ℕ
  pub target_id : String
  pub kind : String
  pub payload : String
  pub payload_digest : String
  pub not_before_ms : ℕ
  pub expires_at_ms : ℕ
  pub max_attempts : ℕ

-- The document that `$setOnInsert` writes, with the defaults of the schema.
abbrev pub new_action : ActionRow → Action
new_action row = record {
  action_id = row.action_id;
  run_key = row.run_key;
  sequence = row.sequence;
  target_id = row.target_id;
  kind = row.kind;
  status = ActionStatus.pending;
  revision = 0;
  payload = row.payload;
  payload_digest = row.payload_digest;
  not_before_ms = some row.not_before_ms;
  expires_at_ms = row.expires_at_ms;
  attempts = 0;
  max_attempts = row.max_attempts;
  claimed_by = none;
  lease_until_ms = none;
  claimed_at_ms = none;
  executed_at_ms = none;
  result = none;
}

abbrev pub has_action_id : String → Action → Bool
has_action_id id a = a.action_id === id

-- `updateOne` with `$setOnInsert` and `upsert`
abbrev pub upsert : ActionRow → List Action → List Action
upsert row actions =
    if any (has_action_id row.action_id) actions then actions else actions ++ new_action row ∷ []

-- `enqueue`
unfoldable pub enqueue : List ActionRow → List Action → List Action
enqueue [] actions = actions
enqueue (row ∷ rows) actions = enqueue rows (upsert row actions)

-- `updateMany`
abbrev pub update_many : (Action → Bool) → (Action → Action) → List Action → List Action
update_many test update actions = map (λ a. if test a then update a else a) actions

-- `findOneAndUpdate`: the first action that passes the test is updated.
abbrev pub update_first : (Action → Bool) → (Action → Action) → List Action → List Action
update_first test update [] = []
update_first test update (a ∷ actions) =
    if test a then update a ∷ actions else a ∷ update_first test update actions

-- The answer of `findOneAndUpdate` with `new: true`.
abbrev pub updated : (Action → Bool) → (Action → Action) → List Action → Option Action
updated test update actions = elim (find test actions) [ none ↦ none | some a ↦ some (update a) ]

-- The update of `cancelPending`
unfoldable pub cancel_action : (now_ms : ℕ) → Action → Action
cancel_action now_ms a = record a {
  status = ActionStatus.compensated;
  executed_at_ms = some now_ms;
  result = some (record {
    code = already_clear;
    public_message = "Cancelled: the run ended before this action was due.";
    private_detail = none;
    wrapper_version = none;
    finished_at_ms = now_ms;
  });
  revision = a.revision + 1;
}

abbrev pub is_cancellable : (run_key : String) → Action → Bool
is_cancellable run_key a = a.run_key === run_key && is_pending a.status

-- `cancelPending`
unfoldable pub cancel_pending : (run_key : String) → (now_ms : ℕ) → List Action → List Action
unfolding cancel_action
cancel_pending run_key now_ms actions =
    update_many (is_cancellable run_key) (cancel_action now_ms) actions

-- `sort: { notBeforeMs: 1, sequence: 1 }`: a missing time is the least.
abbrev pub is_time_before : Option ℕ → Option ℕ → Bool
is_time_before none none = false
is_time_before none (some t) = true
is_time_before (some s) none = false
is_time_before (some s) (some t) = ltb s t

abbrev pub is_sorted_before : Action → Action → Bool
is_sorted_before a b =
    is_time_before a.not_before_ms b.not_before_ms
    || (not (is_time_before b.not_before_ms a.not_before_ms) && ltb a.sequence b.sequence)

-- The first in the order of those that pass a test; of equal ones, the one that is stored first.
unfoldable pub first_sorted : (Action → Bool) → List Action → Option Action
first_sorted test [] = none
first_sorted test (a ∷ actions) = elim (first_sorted test actions) [
  | none ↦ if test a then some a else none
  | some best ↦ if test a && not (is_sorted_before best a) then some a else some best
]

-- The run filter of `claimDue`
abbrev pub is_of_run : Option String → Action → Bool
is_of_run none a = true
is_of_run (some run_key) a = a.run_key === run_key

abbrev pub is_wanted : (now_ms : ℕ) → (run_key : Option String) → Action → Bool
is_wanted now_ms run_key a = is_claimable now_ms a && is_of_run run_key a

-- What a worker asks for.
pub record ClaimInput : Type 0 where
  pub claimed_by : String
  pub now_ms : ℕ
  pub lease_ms : ℕ
  pub run_key : Option String

-- `claimDue`: the collection and the claimed action; an action that was claimed has a lease, so that
-- `toLeased` answers with it.
unfoldable pub claim_due : ClaimInput → List Action → List Action × Option Action
unfolding first_sorted claim_action is_claimable
claim_due input actions = elim (first_sorted (is_wanted input.now_ms input.run_key) actions) [
  | none ↦ (actions, none)
  | some best ↦ (
    update_first (λ a. has_action_id best.action_id a && is_wanted input.now_ms input.run_key a)
        (claim_action input.claimed_by input.now_ms input.lease_ms) actions,
    some (claim_action input.claimed_by input.now_ms input.lease_ms best),
  )
]

-- `renewLease`
unfoldable pub renew_lease :
    (action_id claimed_by : String)
    → (now_ms lease_ms : ℕ) → List Action
    → List Action × Option Action
unfolding is_renewable renew_action
renew_lease action_id claimed_by now_ms lease_ms actions =
    let test = is_renewable action_id claimed_by now_ms in
    (
      update_first test (renew_action now_ms lease_ms) actions,
      updated test (renew_action now_ms lease_ms) actions,
    )

-- `settle`
unfoldable pub settle :
    (action_id claimed_by : String)
    → SettledStatus
    → ActionResult
    → (executed_at_ms : ℕ) → List Action
    → List Action × Bool
unfolding is_settleable settle_action
settle action_id claimed_by status result executed_at_ms actions =
    let test = is_settleable action_id claimed_by in
    (update_first test (settle_action status result executed_at_ms) actions, any test actions)

-- `expireOverdue`
unfoldable pub expire_overdue : (now_ms : ℕ) → List Action → List Action
unfolding is_overdue expire_action
expire_overdue now_ms actions = update_many (is_overdue now_ms) expire_action actions
