-- ===== src/Actions/History.antt =====
-- Histories of calls on the collection of actions, by any workers in any order, and what one call does
-- to one action.
use mathlib.Core.List.Memᴰ
use mathlib.Core.List.{Memᴰ, append-nil, append_assoc, map-append}
use devnet_deftrack.Common.{
  ℕ, ◌≡◌, inl, inr, refl, String, Bool, true, List, [], ◌∷◌, ◌++◌, map, any, All, ap, arith,
  Bool-cases, Option-cases, sym, ◌∙◌, subst,
}
use devnet_deftrack.Actions.{
  Action, ActionResult, SettledStatus, claim_action, is_renewable, renew_action, is_settleable,
  settle_action, is_overdue, expire_action,
}
use devnet_deftrack.Actions.Queue.{
  ActionRow, new_action, has_action_id, upsert, enqueue, update_many, update_first, cancel_action,
  is_cancellable, cancel_pending, first_sorted, is_wanted, ClaimInput, claim_due, renew_lease,
  settle, expire_overdue,
}

pub data QueueCall : Type 0 where
  enqueuing : List ActionRow → QueueCall
  cancelling : (run_key : String) → (now_ms : ℕ) → QueueCall
  claiming : ClaimInput → QueueCall
  renewing : (action_id claimed_by : String) → (now_ms lease_ms : ℕ) → QueueCall
  settling :
      (action_id claimed_by : String)
      → SettledStatus
      → ActionResult
      → (executed_at_ms : ℕ) → QueueCall
  expiring : (now_ms : ℕ) → QueueCall

unfoldable pub step_queue : QueueCall → List Action → List Action
unfolding enqueue cancel_pending claim_due renew_lease settle expire_overdue
step_queue (enqueuing rows) actions = enqueue rows actions
step_queue (cancelling run_key now_ms) actions = cancel_pending run_key now_ms actions
step_queue (claiming input) actions = (claim_due input actions).0
step_queue (renewing action_id worker now_ms lease_ms) actions =
    (renew_lease action_id worker now_ms lease_ms actions).0
step_queue (settling action_id worker status result at) actions =
    (settle action_id worker status result at actions).0
step_queue (expiring now_ms) actions = expire_overdue now_ms actions

unfoldable pub run_queue : List QueueCall → List Action → List Action
unfolding step_queue
run_queue [] actions = actions
run_queue (call ∷ calls) actions = run_queue calls (step_queue call actions)

-- What a call may make of one stored action.
pub data Move (a : Action) : QueueCall → Action → Type 0 where
  kept : (call : QueueCall) → Move a call a
  cancels :
      (run_key : String) (now : ℕ)
      → is_cancellable run_key a ≡ true
      → Move a (cancelling run_key now) (cancel_action now a)
  claims :
      (input : ClaimInput)
      → is_wanted input.now_ms input.run_key a ≡ true
      → Move a (claiming input) (claim_action input.claimed_by input.now_ms input.lease_ms a)
  renews :
      (id worker : String) (now lease : ℕ)
      → is_renewable id worker now a ≡ true
      → Move a (renewing id worker now lease) (renew_action now lease a)
  settles :
      (id worker : String) (status : SettledStatus) (result : ActionResult) (at : ℕ)
      → is_settleable id worker a ≡ true
      → Move a (settling id worker status result at) (settle_action status result at a)
  expires : (now : ℕ) → is_overdue now a ≡ true → Move a (expiring now) (expire_action a)

-- A call moves every stored action on its own and may put new actions behind them.
pub data Moved (call : QueueCall) : List Action → List Action → Type 0 where
  done : Moved call [] []
  fresh :
      {xs : List Action} (row : ActionRow) → Moved call [] xs → Moved call [] (new_action row ∷ xs)
  next :
      {a b : Action} {xs ys : List Action}
      → Move a call b
      → Moved call xs ys
      → Moved call (a ∷ xs) (b ∷ ys)

all_kept : (call : QueueCall) (actions : List Action) → Moved call actions actions
all_kept call [] = done
all_kept call (a ∷ actions) = next (kept call) (all_kept call actions)

appended :
    (call : QueueCall) (actions : List Action) (rows : List ActionRow)
    → Moved call actions (actions ++ map new_action rows)
appended call [] [] = done
appended call [] (row ∷ rows) = fresh row (appended call [] rows)
appended call (a ∷ actions) rows = next (kept call) (appended call actions rows)

upsert_tail :
    (row : ActionRow) (actions : List Action)
    → (rows : List ActionRow) × (upsert row actions ≡ actions ++ map new_action rows)
upsert_tail row actions = elim (Bool-cases (any (has_action_id row.action_id) actions)) [
  | inl there ↦ ([], rw there (sym (append-nil actions)))
  | inr missing ↦ (row ∷ [], rw missing refl)
]

pub enqueue_tail :
    (rows : List ActionRow) (actions : List Action)
    → (added : List ActionRow) × (enqueue rows actions ≡ actions ++ map new_action added)
unfolding enqueue
enqueue_tail [] actions = ([], sym (append-nil actions))
enqueue_tail (row ∷ rows) actions =
    let (one, first) = upsert_tail row actions in
    let (more, rest) = enqueue_tail rows (upsert row actions) in
    (
      one ++ more,
      rest
          ∙ ap (λ xs. xs ++ map new_action more) first
          ∙ append_assoc actions (map new_action one) (map new_action more)
          ∙ ap (λ xs. actions ++ xs) (sym (map-append new_action one more)),
    )

many-Moved :
    (call : QueueCall) (test : Action → Bool) (update : Action → Action) (actions : List Action)
    → ((a : Action) → test a ≡ true → Move a call (update a))
    → Moved call actions (update_many test update actions)
many-Moved call test update [] k = done
many-Moved call test update (a ∷ actions) k = elim (Bool-cases (test a)) [
  | inl hit ↦ rw hit (next (k a hit) (many-Moved call test update actions k))
  | inr miss ↦ rw miss (next (kept call) (many-Moved call test update actions k))
]

first-Moved :
    (call : QueueCall) (test : Action → Bool) (update : Action → Action) (actions : List Action)
    → ((a : Action) → test a ≡ true → Move a call (update a))
    → Moved call actions (update_first test update actions)
first-Moved call test update [] k = done
first-Moved call test update (a ∷ actions) k = elim (Bool-cases (test a)) [
  | inl hit ↦ rw hit (next (k a hit) (all_kept call actions))
  | inr miss ↦ rw miss (next (kept call) (first-Moved call test update actions k))
]

claim_due-Moved :
    (input : ClaimInput) (actions : List Action)
    → Moved (claiming input) actions (claim_due input actions).0
unfolding claim_due
claim_due-Moved input actions =
    elim (Option-cases (first_sorted (is_wanted input.now_ms input.run_key) actions)) [
      | inl nothing ↦ rw (nothing, claim_due) (all_kept (claiming input) actions)
      | inr (best, found) ↦
          rw (found, claim_due)
            (first-Moved (claiming input) _ _ actions (λ a hit. claims input (ground arith)))
    ]

pub step_queue-Moved :
    (call : QueueCall) (actions : List Action) → Moved call actions (step_queue call actions)
unfolding step_queue cancel_pending renew_lease settle expire_overdue
step_queue-Moved (enqueuing rows) actions =
    let (added, tail) = enqueue_tail rows actions in
    subst (Moved (enqueuing rows) actions) (sym tail) (appended (enqueuing rows) actions added)
step_queue-Moved (cancelling run_key now) actions =
    many-Moved (cancelling run_key now) (is_cancellable run_key) (cancel_action now) actions
      (λ a hit. cancels run_key now hit)
step_queue-Moved (claiming input) actions = claim_due-Moved input actions
step_queue-Moved (renewing id worker now lease) actions =
    first-Moved (renewing id worker now lease) (is_renewable id worker now) (renew_action now lease)
      actions (λ a hit. renews id worker now lease hit)
step_queue-Moved (settling id worker status result at) actions =
    first-Moved (settling id worker status result at) (is_settleable id worker)
      (settle_action status result at) actions (λ a hit. settles id worker status result at hit)
step_queue-Moved (expiring now) actions =
    many-Moved (expiring now) (is_overdue now) expire_action actions (λ a hit. expires now hit)

-- What holds of every action that a call may leave, holds of all after it.
pub Moved-All {ℓ} :
    (Good Better : Action → Type ℓ) (call : QueueCall) (xs ys : List Action)
    → ((row : ActionRow) → Better (new_action row))
    → ((a b : Action) → Move a call b → Good a → Better b)
    → Moved call xs ys
    → All Good xs
    → All Better ys
Moved-All Good Better call xs ys new step done h = tt
Moved-All Good Better call xs ys new step (fresh row m) h =
    (new row, Moved-All Good Better call [] _ new step m tt)
Moved-All Good Better call xs ys new step (next {a} {b} {xs = rest} m ms) (h, hs) =
    (step a b m h, Moved-All Good Better call rest _ new step ms hs)

-- A stored action is after a call what the call made of it.
pub Moved-member :
    (call : QueueCall) (xs ys : List Action) (a : Action)
    → Moved call xs ys
    → Memᴰ a xs
    → (b : Action) × Move a call b × Memᴰ b ys
Moved-member call xs ys a done m = absurd (Memᴰ.not-nil m)
Moved-member call xs ys a (fresh row ms) m = absurd (Memᴰ.not-nil m)
Moved-member call xs ys a (next {a = x} {b = y} {xs = rest} {ys = after} move ms) m =
    elim (Memᴰ.cases_cons m) [
      | inl here ↦ (y, subst (λ z. Move z call y) (sym here) move, Memᴰ.head refl)
      | inr there ↦
          let (b, step, k) = Moved-member call rest after a ms there in (b, step, Memᴰ.tail k)
    ]
