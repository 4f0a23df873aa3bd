-- ===== src/Actions.antt =====
-- server/src/domain/actionLease.ts: the scheduled actions of runs, and which of them a worker may claim,
-- renew, settle or give up. A filter is a test on an action, an update a function on it.
pub mod Queue
pub mod Rows
pub mod Dispatcher
pub mod Sound
pub mod History
pub mod Exclusive
pub mod Claims
pub mod Attempts
pub mod Schedule
pub mod Dispatch
pub mod Passes
pub mod Held
mod Tests
use devnet_deftrack.Common.{
  ℕ, ◌+◌, String, Bool, true, false, not, ◌&&◌, ◌||◌, Option, none, some, leb, ltb, ◌==◌, ◌===◌,
}

-- `SimulationActionStatus`
pub data ActionStatus : Type 0 where
  pending claimed succeeded failed expired compensated : ActionStatus

-- `SimulationActionResult.code`, by the codes that the queue and the dispatcher write
pub data ResultCode : Type 0 where
  applied already_clear wrapper_failed : ResultCode

pub record ActionResult : Type 0 where
  pub code : ResultCode
  pub public_message : String
  pub private_detail : Option String
  pub wrapper_version : Option String
  pub finished_at_ms : ℕ

-- `SimulationActionDocument`; a payload is its JSON text.
pub record Action : Type 0 where
  pub action_id : String
  pub run_key : String
  pub sequence : ℕ
  pub target_id : String
  pub kind : String
  pub status : ActionStatus
  pub revision : ℕ
  pub payload : String
  pub payload_digest : String
  pub not_before_ms : Option ℕ
  pub expires_at_ms : ℕ
  pub attempts : ℕ
  pub max_attempts : ℕ
  pub claimed_by : Option String
  pub lease_until_ms : Option ℕ
  pub claimed_at_ms : Option ℕ
  pub executed_at_ms : Option ℕ
  pub result : Option ActionResult

abbrev pub is_pending : ActionStatus → Bool
is_pending ActionStatus.pending = true
is_pending _ = false

abbrev pub is_claimed : ActionStatus → Bool
is_claimed ActionStatus.claimed = true
is_claimed _ = false

-- `{ field: { $lte: now } }` and `{ field: { $gt: now } }` on a field that may be null
abbrev pub is_at_most : Option ℕ → ℕ → Bool
is_at_most none now = false
is_at_most (some t) now = leb t now

abbrev pub is_after : Option ℕ → ℕ → Bool
is_after none now = false
is_after (some t) now = ltb now t

-- `{ notBeforeMs: null }` or at most now
abbrev pub is_due : Option ℕ → ℕ → Bool
is_due none now = true
is_due (some t) now = leb t now

-- `{ claimedBy: worker }`
abbrev pub is_owner : Option String → String → Bool
is_owner none worker = false
is_owner (some owner) worker = owner === worker

-- `claimableActionFilter`
unfoldable pub is_claimable : (now_ms : ℕ) → Action → Bool
is_claimable now_ms a =
    ltb now_ms a.expires_at_ms
    && is_due a.not_before_ms now_ms
    && (is_pending a.status || (is_claimed a.status && is_at_most a.lease_until_ms now_ms))
    && ltb a.attempts a.max_attempts

-- `claimActionUpdate`
unfoldable pub claim_action : (claimed_by : String) → (now_ms lease_ms : ℕ) → Action → Action
claim_action claimed_by now_ms lease_ms a = record a {
  status = ActionStatus.claimed;
  claimed_by = some claimed_by;
  claimed_at_ms = some now_ms;
  lease_until_ms = some (now_ms + lease_ms);
  attempts = a.attempts + 1;
  revision = a.revision + 1;
}

-- `renewLeaseFilter`
unfoldable pub is_renewable : (action_id claimed_by : String) → (now_ms : ℕ) → Action → Bool
is_renewable action_id claimed_by now_ms a =
    a.action_id === action_id
    && is_claimed a.status
    && is_owner a.claimed_by claimed_by
    && is_after a.lease_until_ms now_ms

-- `renewLeaseUpdate`
unfoldable pub renew_action : (now_ms lease_ms : ℕ) → Action → Action
renew_action now_ms lease_ms a = record a {
  lease_until_ms = some (now_ms + lease_ms);
  revision = a.revision + 1;
}

-- `SettledActionStatus`
pub data SettledStatus : Type 0 where
  as_succeeded as_failed as_compensated : SettledStatus

abbrev pub status_of : SettledStatus → ActionStatus
status_of as_succeeded = ActionStatus.succeeded
status_of as_failed = ActionStatus.failed
status_of as_compensated = ActionStatus.compensated

-- `settleActionFilter`
unfoldable pub is_settleable : (action_id claimed_by : String) → Action → Bool
is_settleable action_id claimed_by a =
    a.action_id === action_id && is_claimed a.status && is_owner a.claimed_by claimed_by

-- `settleActionUpdate`
unfoldable pub settle_action : SettledStatus → ActionResult → (executed_at_ms : ℕ) → Action → Action
settle_action status result executed_at_ms a = record a {
  status = status_of status;
  result = some result;
  executed_at_ms = some executed_at_ms;
  lease_until_ms = none;
  revision = a.revision + 1;
}

-- `expireOverdueFilter`
unfoldable pub is_overdue : (now_ms : ℕ) → Action → Bool
is_overdue now_ms a =
    ((is_pending a.status || is_claimed a.status) && leb a.expires_at_ms now_ms)
    || (is_claimed a.status && is_at_most a.lease_until_ms now_ms && leb a.max_attempts a.attempts)

-- `expireOverdueUpdate`
unfoldable pub expire_action : Action → Action
expire_action a = record a {
  status = ActionStatus.expired;
  claimed_by = none;
  lease_until_ms = none;
  revision = a.revision + 1;
}
