-- ===== src/Actions/Held.antt =====
-- The actions that a pass of the dispatcher of server/src/services/simulationDispatcher.service.ts leaves
-- claimed by its worker.
use mathlib.Core.List.Memᴰ
use mathlib.Core.List.{Memᴰ}
use devnet_deftrack.Common.{
  ℕ, zero, suc, ◌+◌, ◌≤◌, ◌≡◌, ◌⊎◌, inl, inr, refl, String, Bool, true, false, ◌&&◌, Option, none,
  some, List, [], ◌∷◌, if◌then◌else◌, arith, Bool-cases, subst, ap, any, eq_refl, eq_iff,
}
use devnet_deftrack.Actions.{
  Action, ActionResult, SettledStatus, as_succeeded, as_failed, as_compensated, claim_action,
  settle_action, is_settleable, is_claimed, is_owner, is_overdue, expire_action, status_of,
}
use devnet_deftrack.Actions.Queue.{
  claim_due, settle, expire_overdue, has_action_id, update_first, update_many, is_wanted,
  first_sorted, ClaimInput,
}
use devnet_deftrack.Actions.Claims.{Found, first_sorted-Found}
use devnet_deftrack.Actions.Dispatcher.{
  Deps, Pass, settled_result, perform, claim_input, claim_loop, tick, max_per_tick,
}
use devnet_deftrack.Actions.Dispatch.{perform-Performed}

abbrev pub is_held_by : String → Action → Bool
is_held_by worker a = is_claimed a.status && is_owner a.claimed_by worker

-- How many actions a worker has claimed and not settled.
abbrev pub held : String → List Action → ℕ
held worker [] = 0
held worker (a ∷ actions) = (if is_held_by worker a then 1 else 0) + held worker actions

held-expire :
    (worker : String) (now : ℕ) (actions : List Action)
    → held worker (update_many (is_overdue now) expire_action actions) ≤ held worker actions
unfolding expire_action
held-expire worker now [] = omega arith
held-expire worker now (a ∷ actions) =
    let rest = held-expire worker now actions in
    elim (Bool-cases (is_overdue now a)) [
      | inl over ↦ rw over (omega arith)
      | inr miss ↦ rw miss (omega arith)
    ]

settled_over : (status : SettledStatus) → is_claimed (status_of status) ≡ false
settled_over as_succeeded = refl
settled_over as_failed = refl
settled_over as_compensated = refl

held-settle :
    (worker id : String) (status : SettledStatus) (result : ActionResult) (now : ℕ)
    (actions : List Action)
    → any (is_settleable id worker) actions ≡ true
    → suc (
        held worker
          (update_first (is_settleable id worker) (settle_action status result now) actions))
      ≡ held worker actions
unfolding is_settleable settle_action
held-settle worker id status result now [] h = absurd (ground arith)
held-settle worker id status result now (a ∷ actions) h =
    elim (Bool-cases (is_settleable id worker a)) [
      | inl hit ↦
          let mine : is_held_by worker a ≡ true = ground arith in
          let over = settled_over status in rw (hit, mine, over) (omega arith)
      | inr miss ↦
          let rest = held-settle worker id status result now actions (ground arith) in
          rw miss (omega arith)
    ]

claimed-IsSettleable :
    (worker : String) (now lease : ℕ) (a : Action)
    → is_settleable a.action_id worker (claim_action worker now lease a) ≡ true
unfolding is_settleable claim_action
claimed-IsSettleable worker now lease a = rw (eq_refl a.action_id, eq_refl worker) refl

-- A claim gives the worker at most one action more, and that one can be settled by it.
held-claim :
    (worker : String) (now lease : ℕ) (wanted : Action → Bool) (actions : List Action)
    (best : Action)
    → Memᴰ best actions
    → wanted best ≡ true
    → (held worker (
          update_first
            (λ a. has_action_id best.action_id a && wanted a)
            (claim_action worker now lease)
            actions)
        ≤ suc (held worker actions))
      × (any (is_settleable best.action_id worker) (
            update_first
              (λ a. has_action_id best.action_id a && wanted a)
              (claim_action worker now lease)
              actions)
          ≡ true)
held-claim worker now lease wanted [] best m hit = absurd (Memᴰ.not-nil m)
held-claim worker now lease wanted (a ∷ actions) best m hit =
    elim (Bool-cases (has_action_id best.action_id a && wanted a)) [
      | inl found ↦
          let same = (eq_iff a.action_id best.action_id).0 (ground arith) in
          let settleable = claimed-IsSettleable worker now lease a in
          let good =
            subst (λ id. is_settleable id worker (claim_action worker now lease a) ≡ true) same
              settleable in
          rw (found, good) (ground arith, refl)
      | inr miss ↦ elim (Memᴰ.cases_cons m) [
        | inl here ↦
            let id = eq_refl a.action_id in
            let own = subst (λ x. (has_action_id x.action_id a && wanted a) ≡ false) here miss in
            let wants = subst (λ x. wanted x ≡ true) here hit in absurd (ground arith)
        | inr there ↦
            let (few, able) = held-claim worker now lease wanted actions best there hit in
            rw miss (omega arith, ground (arith, able))
      ]
    ]

-- What a claim is in its two cases.
abbrev ClaimCases : ClaimInput → List Action → Type 0
ClaimCases input actions =
    (((claim_due input actions).1 ≡ none) × ((claim_due input actions).0 ≡ actions))
    ⊎ ((best : Action) × Memᴰ best actions
        × (is_wanted input.now_ms input.run_key best ≡ true)
        × ((claim_due input actions).1
            ≡ some (claim_action input.claimed_by input.now_ms input.lease_ms best))
        × ((claim_due input actions).0
            ≡ update_first
                (λ a. has_action_id best.action_id a && is_wanted input.now_ms input.run_key a)
                (claim_action input.claimed_by input.now_ms input.lease_ms) actions))

claim_due_cases : (input : ClaimInput) (actions : List Action) → ClaimCases input actions
unfolding claim_due
claim_due_cases input actions =
    go (first_sorted (is_wanted input.now_ms input.run_key) actions)
      (first_sorted-Found (is_wanted input.now_ms input.run_key) actions) refl
  where
    go :
        (r : Option Action)
        → Found (is_wanted input.now_ms input.run_key) actions r
        → first_sorted (is_wanted input.now_ms input.run_key) actions ≡ r
        → ClaimCases input actions
    go none k r = inl (rw (claim_due, r) (refl, refl))
    go (some best) k r =
        inr (best, k.stored, k.passes, rw (claim_due, r) refl, rw (claim_due, r) refl)

-- The claim that a pass makes: nothing changes, or the worker holds at most one action more, which it can settle.
held-claim_due :
    (input : ClaimInput) (actions : List Action)
    → (((claim_due input actions).1 ≡ none) × ((claim_due input actions).0 ≡ actions))
      ⊎ ((claimed : Action) × ((claim_due input actions).1 ≡ some claimed)
          × (held input.claimed_by (claim_due input actions).0
              ≤ suc (held input.claimed_by actions))
          × (any (is_settleable claimed.action_id input.claimed_by) (claim_due input actions).0
              ≡ true))
unfolding claim_action
held-claim_due input actions = elim (claim_due_cases input actions) [
  | inl nothing ↦ inl nothing
  | inr (best, m, hit, answer, after) ↦
      let (few, able) =
        held-claim input.claimed_by input.now_ms input.lease_ms
          (is_wanted input.now_ms input.run_key) actions best m hit in
      inr (
        claim_action input.claimed_by input.now_ms input.lease_ms best,
        answer,
        rw after few,
        rw after able,
      )
]

held-claim_loop :
    (deps : Deps) (left moment : ℕ) (pass : Pass)
    → held deps.worker_id (claim_loop deps left moment pass).actions
      ≤ held deps.worker_id pass.actions
unfolding claim_loop settle
held-claim_loop deps zero moment pass = omega arith
held-claim_loop deps (suc left) moment pass =
    elim (held-claim_due (claim_input deps moment) pass.actions) [
      | inl (nothing, same) ↦ rw (claim_loop, nothing, same) (omega arith)
      | inr (claimed, found, few, able) ↦
          rw (claim_loop, found)
            (let before : Pass = record pass {
              actions = (claim_due (claim_input deps moment) pass.actions).0;
            } in
              let done = perform-Performed deps (moment + 1) claimed before in
              let rest =
                held-claim_loop deps left (moment + 5) (perform deps (moment + 1) claimed before) in
              let settled =
                held-settle deps.worker_id claimed.action_id done.status
                  (settled_result done.status done.code done.now_ms done.detail) done.now_ms
                  before.actions able in
              let same = ap (held deps.worker_id) done.settles in omega arith)
    ]

-- A pass settles all that it claims, whatever the server answers or throws: it leaves its worker with no more
-- claimed actions than it had.
pub held-tick :
    (deps : Deps) (actions : List Action)
    → held deps.worker_id (tick deps actions).actions ≤ held deps.worker_id actions
unfolding tick expire_overdue
held-tick deps actions =
    let expired = held-expire deps.worker_id (deps.clock 0) actions in
    let rest =
      held-claim_loop deps max_per_tick 1
        (record { actions = expire_overdue (deps.clock 0) actions; effects = [] }) in
    omega arith
