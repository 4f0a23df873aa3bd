-- ===== src/Actions/Passes.antt =====
-- Whole passes of the dispatcher of server/src/services/simulationDispatcher.service.ts (`tick`): their effects,
-- their calls on the queue, and the actions that they leave claimed.
use devnet_deftrack.Common.{
  ℕ, zero, suc, ◌+◌, ◌*◌, ◌≤◌, ◌≡◌, inl, inr, refl, String, true, none, List, [], ◌∷◌, ok, arith,
  All, All-append, All-implies, Option-cases, subst, sym, ap, length, length-append,
}
use devnet_deftrack.RunState.{RunState}
use devnet_deftrack.RunState.WellFormed.{WellFormed}
use devnet_deftrack.Actions.{Action}
use devnet_deftrack.Actions.Queue.{claim_due, expire_overdue}
use devnet_deftrack.Actions.History.{QueueCall, claiming, settling, expiring, step_queue, run_queue}
use devnet_deftrack.Actions.Sound.{IsSound, run_queue-IsSound}
use devnet_deftrack.Actions.Dispatcher.{
  is_dispatchable_status, Effect, Deps, Pass, settled_result, perform, claim_input, claim_loop,
  tick, max_per_tick,
}
use devnet_deftrack.Actions.Dispatch.{run_of, IsJustified, perform-Performed}

-- The effects of the loop, and how many more claims than effects it may make.
claim_loop_effects :
    (deps : Deps) (left moment : ℕ) (pass : Pass)
    → All (IsJustified deps) pass.effects
    → All (IsJustified deps) (claim_loop deps left moment pass).effects
      × (length (claim_loop deps left moment pass).effects ≤ length pass.effects + left)
unfolding claim_loop
claim_loop_effects deps zero moment pass good = (good, omega arith)
claim_loop_effects deps (suc left) moment pass good =
    elim (Option-cases (claim_due (claim_input deps moment) pass.actions).1) [
      | inl nothing ↦ rw (claim_loop, nothing) (good, omega arith)
      | inr (claimed, found) ↦
          rw (claim_loop, found)
            (let before : Pass = record pass {
              actions = (claim_due (claim_input deps moment) pass.actions).0;
            } in
              let done = perform-Performed deps (moment + 1) claimed before in
              let after = perform deps (moment + 1) claimed before in
              let more = length-append pass.effects done.sent in
              let (rest, few) = claim_loop_effects deps left (moment + 5) after (
                subst (All (IsJustified deps)) (sym done.sends)
                  (All-append (IsJustified deps) pass.effects done.sent good done.good)) in
              let size = ap length done.sends in let one = done.one in (rest, omega arith))
    ]

-- Runs that are in order when they are loaded.
abbrev pub LoadsWellFormed : Deps → Type 0
LoadsWellFormed deps =
    (moment : ℕ) (run_key : String) (run : RunState)
    → (deps.server moment).load_run run_key ≡ ok run
    → WellFormed run

-- An effect on a run that the dispatcher had good reason to send.
abbrev pub IsRightful : Deps → Effect → Type 0
IsRightful deps e = IsJustified deps e × ((run_of e).fault_may_be_active ≡ true)

in_window_faulty :
    (run : RunState)
    → WellFormed run
    → is_dispatchable_status run.status ≡ true
    → run.fault_may_be_active ≡ true
in_window_faulty run well open_window = well.faulty (ground arith)

-- One pass sends at most twenty effects. Each is on a run that the server gave in its fault window, with a
-- lease that had not run out when the clock was read just before the run was asked for, and a step is
-- sent with that very lease as its own. Where the stored runs are well formed, each of these runs is one on
-- which a fault has to be assumed.
pub tick-IsRightful :
    (deps : Deps) (actions : List Action)
    → LoadsWellFormed deps
    → All (IsRightful deps) (tick deps actions).effects
      × (length (tick deps actions).effects ≤ max_per_tick)
unfolding tick
tick-IsRightful deps actions well =
    let (good, few) =
      claim_loop_effects deps max_per_tick 1
        (record { actions = expire_overdue (deps.clock 0) actions; effects = [] }) tt in
    (
      All-implies (IsJustified deps) (IsRightful deps)
          (λ e k. (
            k,
            in_window_faulty (run_of e) (well (k.moment + 1) k.run_key (run_of e) k.loaded)
                k.in_window,
          ))
          (tick deps actions).effects good,
      few,
    )

-- The calls on the queue that a pass of a worker makes.
abbrev pub IsOwnCall : Deps → QueueCall → Type 0
IsOwnCall deps (claiming input) =
    (input.claimed_by ≡ deps.worker_id) × (input.lease_ms ≡ deps.lease_ms) × (input.run_key ≡ none)
IsOwnCall deps (settling action_id claimed_by status result at) = claimed_by ≡ deps.worker_id
IsOwnCall deps (expiring now_ms) = Unit
IsOwnCall deps _ = ⊥

-- A history of own calls from one collection to another.
pub record OwnHistory (deps : Deps) (limit : ℕ) (before after : List Action) : Type 0 where
  pub calls : List QueueCall
  pub own : All (IsOwnCall deps) calls
  pub few : length calls ≤ limit
  pub leads : run_queue calls before ≡ after

prepend :
    (deps : Deps) (limit : ℕ) (before after : List Action) (call : QueueCall)
    → IsOwnCall deps call
    → OwnHistory deps limit (step_queue call before) after
    → OwnHistory deps (suc limit) before after
unfolding run_queue
prepend deps limit before after call own rest =
    let few = rest.few in
    record {
      calls = call ∷ rest.calls;
      own = (own, rest.own);
      few = omega arith;
      leads = rest.leads;
    }

claim_loop-OwnHistory :
    (deps : Deps) (left moment : ℕ) (pass : Pass)
    → OwnHistory deps (2 * left) pass.actions (claim_loop deps left moment pass).actions
unfolding claim_loop run_queue step_queue
claim_loop-OwnHistory deps zero moment pass = record {
  calls = [];
  own = tt;
  few = omega arith;
  leads = refl;
}
claim_loop-OwnHistory deps (suc left) moment pass =
    elim (Option-cases (claim_due (claim_input deps moment) pass.actions).1) [
      | inl nothing ↦
          rw (claim_loop, nothing)
            (record {
              calls = claiming (claim_input deps moment) ∷ [];
              own = ((refl, refl, refl), tt);
              few = omega arith;
              leads = refl;
            })
      | inr (claimed, found) ↦
          rw (claim_loop, found)
            (let claimed_in : List Action = (claim_due (claim_input deps moment) pass.actions).0 in
              let before : Pass = record pass { actions = claimed_in } in
              let done = perform-Performed deps (moment + 1) claimed before in
              let after = perform deps (moment + 1) claimed before in
              let rest = claim_loop-OwnHistory deps left (moment + 5) after in
              let settled =
                prepend deps (2 * left) claimed_in _
                  (settling claimed.action_id deps.worker_id done.status
                    (settled_result done.status done.code done.now_ms done.detail) done.now_ms)
                  refl
                  (subst
                    (λ xs.
                      OwnHistory deps (2 * left) xs
                        (claim_loop deps left (moment + 5) after).actions)
                    done.settles rest) in
              let all =
                prepend deps (suc (2 * left)) pass.actions _ (claiming (claim_input deps moment))
                  (refl, refl, refl) settled in
              let few = all.few in
              record { calls = all.calls; own = all.own; few = omega arith; leads = all.leads })
    ]

-- One pass does nothing to the queue but expire what is overdue, claim and settle, each as its own worker, in at
-- most forty-one calls. Hence all that holds of any history of calls holds of passes, as that sound
-- actions stay sound.
pub tick-OwnHistory :
    (deps : Deps) (actions : List Action)
    → OwnHistory deps 41 actions (tick deps actions).actions
      × (All IsSound actions → All IsSound (tick deps actions).actions)
unfolding tick step_queue
tick-OwnHistory deps actions =
    let history = prepend deps 40 actions (tick deps actions).actions (expiring (deps.clock 0)) tt (
      claim_loop-OwnHistory deps max_per_tick 1
        (record { actions = expire_overdue (deps.clock 0) actions; effects = [] })) in
    (
      history,
      λ sound. subst (All IsSound) history.leads (run_queue-IsSound history.calls actions sound),
    )
