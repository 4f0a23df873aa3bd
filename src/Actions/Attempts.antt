-- ===== src/Actions/Attempts.antt =====
-- server/src/domain/actionLease.ts: the attempts of an action and its claims.
use devnet_deftrack.Common.{
  ℕ, ◌+◌, ◌≤◌, ◌≡◌, inl, inr, refl, String, Bool, true, ◌&&◌, Option, none, some, List, [], ◌∷◌,
  ◌++◌, map, if◌then◌else◌, arith, All, Bool-cases, subst, eq_iff, eq_refl, ◌===◌,
}
use mathlib.Core.List.Memᴰ
use mathlib.Core.List.{Memᴰ}
use devnet_deftrack.Actions.{
  Action, claim_action, renew_action, settle_action, expire_action, is_renewable, is_settleable,
  is_overdue,
}
use devnet_deftrack.Actions.Queue.{
  ActionRow, new_action, has_action_id, update_many, update_first, cancel_action, is_cancellable,
  cancel_pending, ClaimInput, is_wanted, first_sorted, claim_due, renew_lease, settle,
  expire_overdue,
}
use devnet_deftrack.Actions.History.{
  QueueCall, enqueuing, cancelling, claiming, renewing, settling, expiring, step_queue, run_queue,
  enqueue_tail,
}
use devnet_deftrack.Actions.Sound.{IsSound, run_queue-IsSound}
use devnet_deftrack.Actions.Claims.{Found, first_sorted-Found}

-- The attempts, and the ceilings, of the stored actions with an id.
abbrev pub attempts_of : String → List Action → ℕ
attempts_of id [] = 0
attempts_of id (a ∷ actions) =
    (if has_action_id id a then a.attempts else 0) + attempts_of id actions

abbrev pub ceiling_of : String → List Action → ℕ
ceiling_of id [] = 0
ceiling_of id (a ∷ actions) =
    (if has_action_id id a then a.max_attempts else 0) + ceiling_of id actions

-- One for an answer with an id.
abbrev pub answers : String → Option Action → ℕ
answers id none = 0
answers id (some a) = if has_action_id id a then 1 else 0

abbrev pub claimed_by_call : String → QueueCall → List Action → ℕ
claimed_by_call id (claiming input) actions = answers id (claim_due input actions).1
claimed_by_call id call actions = 0

-- How often a history hands out an action with an id.
abbrev pub claims_of : String → List QueueCall → List Action → ℕ
claims_of id [] actions = 0
claims_of id (call ∷ calls) actions =
    claimed_by_call id call actions + claims_of id calls (step_queue call actions)

-- An update that leaves the id and the attempts alone.
Steady : (Action → Action) → Type 0
Steady update =
    (a : Action) → ((update a).action_id ≡ a.action_id) × ((update a).attempts ≡ a.attempts)

attempts_of-many :
    (id : String) (test : Action → Bool) (update : Action → Action) (actions : List Action)
    → Steady update
    → attempts_of id (update_many test update actions) ≡ attempts_of id actions
unfolding Steady
attempts_of-many id test update [] k = refl
attempts_of-many id test update (a ∷ actions) k =
    let rest = attempts_of-many id test update actions k in
    let (same_id, same) = k a in
    elim (Bool-cases (test a)) [
      | inl hit ↦ rw (hit, same_id, same, rest) refl
      | inr miss ↦ rw (miss, rest) refl
    ]

attempts_of-first :
    (id : String) (test : Action → Bool) (update : Action → Action) (actions : List Action)
    → Steady update
    → attempts_of id (update_first test update actions) ≡ attempts_of id actions
unfolding Steady
attempts_of-first id test update [] k = refl
attempts_of-first id test update (a ∷ actions) k =
    let (same_id, same) = k a in
    elim (Bool-cases (test a)) [
      | inl hit ↦ rw (hit, same_id, same) refl
      | inr miss ↦ rw (miss, attempts_of-first id test update actions k) refl
    ]

attempts_of-append :
    (id : String) (actions : List Action) (rows : List ActionRow)
    → attempts_of id (actions ++ map new_action rows) ≡ attempts_of id actions
attempts_of-append id [] [] = refl
attempts_of-append id [] (row ∷ rows) = let rest = attempts_of-append id [] rows in ground arith
attempts_of-append id (a ∷ actions) rows = rw (attempts_of-append id actions rows) refl

attempts_of-claim :
    (id best_id worker : String) (now lease : ℕ) (wanted : Action → Bool) (actions : List Action)
    (best : Action)
    → Memᴰ best actions
    → best.action_id ≡ best_id
    → wanted best ≡ true
    → attempts_of id (
        update_first
          (λ a. has_action_id best_id a && wanted a)
          (claim_action worker now lease)
          actions)
      ≡ (if best_id === id then 1 else 0) + attempts_of id actions
unfolding claim_action
attempts_of-claim id best_id worker now lease wanted [] best m same hit = absurd (Memᴰ.not-nil m)
attempts_of-claim id best_id worker now lease wanted (a ∷ actions) best m same hit =
    elim (Bool-cases (has_action_id best_id a && wanted a)) [
      | inl found ↦
          let e = (eq_iff a.action_id best_id).0 (ground arith) in rw (found, e) (ground arith)
      | inr miss ↦ elim (Memᴰ.cases_cons m) [
        | inl here ↦
            let own = eq_refl best_id in
            let a_id : a.action_id ≡ best_id = subst (λ x. x.action_id ≡ best_id) here same in
            let a_hit : wanted a ≡ true = subst (λ x. wanted x ≡ true) here hit in
            absurd (ground (arith, (eq_iff a.action_id best_id).1 a_id))
        | inr there ↦
            let rest =
              attempts_of-claim id best_id worker now lease wanted actions best there same hit in
            rw (miss, rest) (omega arith)
      ]
    ]

claim_due_attempts :
    (id : String) (input : ClaimInput) (actions : List Action)
    → attempts_of id (claim_due input actions).0
      ≡ answers id (claim_due input actions).1 + attempts_of id actions
unfolding claim_due claim_action
claim_due_attempts id input actions =
    go (first_sorted (is_wanted input.now_ms input.run_key) actions)
      (first_sorted-Found (is_wanted input.now_ms input.run_key) actions) refl
  where
    go :
        (r : Option Action)
        → Found (is_wanted input.now_ms input.run_key) actions r
        → first_sorted (is_wanted input.now_ms input.run_key) actions ≡ r
        → attempts_of id (claim_due input actions).0
          ≡ answers id (claim_due input actions).1 + attempts_of id actions
    go none k e = rw (e, claim_due) (omega arith)
    go (some best) k e =
        rw (e, claim_due)
          (attempts_of-claim id best.action_id input.claimed_by input.now_ms input.lease_ms
            (is_wanted input.now_ms input.run_key) actions best k.stored refl k.passes)

step_queue_attempts :
    (id : String) (call : QueueCall) (actions : List Action)
    → attempts_of id (step_queue call actions)
      ≡ claimed_by_call id call actions + attempts_of id actions
unfolding step_queue cancel_pending renew_lease settle expire_overdue Steady cancel_action
    renew_action settle_action expire_action
step_queue_attempts id (enqueuing rows) actions =
    let (added, tail) = enqueue_tail rows actions in
    rw tail (omega (arith, attempts_of-append id actions added))
step_queue_attempts id (cancelling run now) actions = omega (
  arith,
  attempts_of-many id (is_cancellable run) (cancel_action now) actions (λ a. (refl, refl)),
)
step_queue_attempts id (claiming input) actions = claim_due_attempts id input actions
step_queue_attempts id (renewing key worker now lease) actions = omega (
  arith,
  attempts_of-first id (is_renewable key worker now) (renew_action now lease) actions
      (λ a. (refl, refl)),
)
step_queue_attempts id (settling key worker status result at) actions = omega (
  arith,
  attempts_of-first id (is_settleable key worker) (settle_action status result at) actions
      (λ a. (refl, refl)),
)
step_queue_attempts id (expiring now) actions =
    omega (arith, attempts_of-many id (is_overdue now) expire_action actions (λ a. (refl, refl)))

attempts_within :
    (id : String) (actions : List Action)
    → All IsSound actions
    → attempts_of id actions ≤ ceiling_of id actions
attempts_within id [] h = omega arith
attempts_within id (a ∷ actions) (h, hs) =
    let rest = attempts_within id actions hs in let own = h.bounded in ground arith

-- The claims that a history answers with an id, and the attempts that its actions had before, are the
-- attempts that they have after it.
run_queue_attempts :
    (id : String) (calls : List QueueCall) (actions : List Action)
    → claims_of id calls actions + attempts_of id actions ≡ attempts_of id (run_queue calls actions)
unfolding run_queue
run_queue_attempts id [] actions = omega arith
run_queue_attempts id (call ∷ calls) actions =
    let rest = run_queue_attempts id calls (step_queue call actions) in
    let one = step_queue_attempts id call actions in omega arith

-- From a sound collection, no history hands an action out more often than the attempts that it had left:
-- the claims answered with its id, and the attempts before, are at most the ceiling in the end.
pub claims_bounded :
    (id : String) (calls : List QueueCall) (actions : List Action)
    → All IsSound actions
    → claims_of id calls actions + attempts_of id actions ≤ ceiling_of id (run_queue calls actions)
claims_bounded id calls actions h =
    rw (run_queue_attempts id calls actions)
      (attempts_within id (run_queue calls actions) (run_queue-IsSound calls actions h))
