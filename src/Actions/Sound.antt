-- ===== src/Actions/Sound.antt =====
-- What holds of every stored action, whatever calls of server/src/domain/actionLease.ts have been made.
use mathlib.Core.List.{Memᴰ}
use devnet_deftrack.Common.{
  ◌≤◌, ◌<◌, ◌≡◌, ◌≢◌, refl, Bool, true, false, none, List, [], ◌∷◌, arith, All, subst,
}
use devnet_deftrack.Actions.{
  Action, ActionStatus, is_claimed, is_pending, is_claimable, claim_action, is_renewable,
  renew_action, as_succeeded, as_failed, as_compensated, is_settleable, settle_action, is_overdue,
  expire_action,
}
use devnet_deftrack.Actions.Queue.{ActionRow, new_action, cancel_action}
use devnet_deftrack.Actions.History.{
  QueueCall, Move, kept, cancels, claims, renews, settles, expires, step_queue, run_queue,
  step_queue-Moved, Moved-All, Moved-member,
}

-- A status in which an action is never worked on again.
abbrev pub is_final : ActionStatus → Bool
is_final ActionStatus.pending = false
is_final ActionStatus.claimed = false
is_final _ = true

-- A status that says how the action ended.
abbrev pub is_reported : ActionStatus → Bool
is_reported ActionStatus.succeeded = true
is_reported ActionStatus.failed = true
is_reported ActionStatus.compensated = true
is_reported _ = false

pub record IsSound (a : Action) : Type 0 where
  pub owned : is_claimed a.status ≡ true → a.claimed_by ≢ none
  pub leased : is_claimed a.status ≡ true → a.lease_until_ms ≢ none
  pub unleased : is_claimed a.status ≡ false → a.lease_until_ms ≡ none
  pub unowned : is_pending a.status ≡ true → a.claimed_by ≡ none
  pub fresh : is_pending a.status ≡ true → a.attempts ≡ 0
  pub tried : is_claimed a.status ≡ true → 0 < a.attempts
  pub bounded : a.attempts ≤ a.max_attempts
  pub reported : is_reported a.status ≡ true → (a.result ≢ none) × (a.executed_at_ms ≢ none)
  pub unreported : is_reported a.status ≡ false → (a.result ≡ none) × (a.executed_at_ms ≡ none)

new_action-IsSound : (row : ActionRow) → IsSound (new_action row)
new_action-IsSound row = ground arith

Move-IsSound : (call : QueueCall) (a b : Action) → Move a call b → IsSound a → IsSound b
unfolding is_claimable claim_action is_renewable renew_action is_settleable settle_action is_overdue
    expire_action cancel_action
Move-IsSound _ a b (kept call) h = h
Move-IsSound _ a b (cancels run now hit) h = ground arith
Move-IsSound _ a b (claims input hit) h = ground arith
Move-IsSound _ a b (renews id worker now lease hit) h = ground arith
Move-IsSound _ a b (settles id worker as_succeeded result at hit) h = ground arith
Move-IsSound _ a b (settles id worker as_failed result at hit) h = ground arith
Move-IsSound _ a b (settles id worker as_compensated result at hit) h = ground arith
Move-IsSound _ a b (expires now hit) h = ground arith

-- Whatever calls are made by whichever workers, every stored action stays sound: exactly the claimed ones
-- have a lease, a claimed one has an owner and at least one attempt, a waiting one has neither owner nor
-- attempt, no action has more attempts than its ceiling, and the succeeded, failed and compensated ones,
-- and no others, have a result and an instant of execution.
pub run_queue-IsSound :
    (calls : List QueueCall) (actions : List Action)
    → All IsSound actions
    → All IsSound (run_queue calls actions)
unfolding run_queue
run_queue-IsSound [] actions h = h
run_queue-IsSound (call ∷ calls) actions h = run_queue-IsSound calls (step_queue call actions) (
    Moved-All IsSound IsSound call actions (step_queue call actions) new_action-IsSound
      (Move-IsSound call) (step_queue-Moved call actions) h)

Move-final : (call : QueueCall) (a b : Action) → Move a call b → is_final a.status ≡ true → b ≡ a
unfolding is_claimable is_renewable is_settleable is_overdue
Move-final _ a b (kept call) f = refl
Move-final _ a b (cancels run now hit) f = absurd (ground arith)
Move-final _ a b (claims input hit) f = absurd (ground arith)
Move-final _ a b (renews id worker now lease hit) f = absurd (ground arith)
Move-final _ a b (settles id worker status result at hit) f = absurd (ground arith)
Move-final _ a b (expires now hit) f = absurd (ground arith)

-- An action that has succeeded, failed, expired or been compensated is never changed again by any calls:
-- none can claim, renew, settle, cancel or expire it, so a failed one is not tried again.
pub final_stays :
    (calls : List QueueCall) (actions : List Action) (a : Action)
    → is_final a.status ≡ true
    → Memᴰ a actions
    → Memᴰ a (run_queue calls actions)
unfolding run_queue
final_stays [] actions a f m = m
final_stays (call ∷ calls) actions a f m =
    let (b, move, k) =
      Moved-member call actions (step_queue call actions) a (step_queue-Moved call actions) m in
    final_stays calls (step_queue call actions) a f
      (subst (λ x. Memᴰ x (step_queue call actions)) (Move-final call a b move f) k)
