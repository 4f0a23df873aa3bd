-- ===== src/Actions/Dispatch.antt =====
-- What one pass of the dispatcher (server/src/services/simulationDispatcher.service.ts) asks of the server and
-- of the queue.
use mathlib.Core.List.{append-nil}
use devnet_deftrack.Common.{
  ℕ, ◌+◌, ◌≤◌, ◌<◌, ◌≡◌, inl, inr, refl, String, true, Option, none, some, List, [], ◌∷◌, ◌++◌, leb,
  ◌===◌, ok, Result-cases, arith, All, Bool-cases, Option-cases, sym, ap, length, ◌∙◌,
}
use devnet_deftrack.RunState.{RunState}
use devnet_deftrack.Actions.{
  Action, SettledStatus, ResultCode, applied, already_clear, wrapper_failed, as_succeeded,
  as_failed, as_compensated,
}
use devnet_deftrack.Actions.Queue.{settle}
use devnet_deftrack.Actions.Rows.{planned_end_kind}
use devnet_deftrack.Actions.Dispatcher.{
  is_dispatchable_status, Effect, dispatched, ended, Server, Deps, Pass, settled_result,
  settle_claimed, with_effect, settle_outcome, perform_end, perform_step, perform_leased, perform,
}

-- The run that an effect is for.
abbrev pub run_of : Effect → RunState
run_of (dispatched run id lease) = run
run_of (ended run) = run

-- The lease that an effect is sent with, where it is sent with one, is the run's.
abbrev pub CarriesLease : Effect → ℕ → Type 0
CarriesLease (dispatched run id lease) held = lease ≡ held
CarriesLease (ended run) held = Unit

-- An effect on a run that the server gave, in its fault window, with a lease that had not run out at the
-- moment before, when the clock was read.
pub record IsJustified (deps : Deps) (e : Effect) : Type 0 where
  pub moment : ℕ
  pub run_key : String
  pub lease : ℕ
  pub loaded : (deps.server (moment + 1)).load_run run_key ≡ ok (run_of e)
  pub in_window : is_dispatchable_status (run_of e).status ≡ true
  pub leased : (run_of e).fault_lease_expires_at_ms ≡ some lease
  pub unexpired : deps.clock moment < lease
  pub carried : CarriesLease e lease

-- Performing an action settles it, after at most one effect, of which a predicate holds.
pub record Performed (deps : Deps) (claimed : Action) (Good : Effect → Type 0) (before after : Pass)
    : Type 0 where
  pub status : SettledStatus
  pub code : ResultCode
  pub now_ms : ℕ
  pub detail : Option String
  pub sent : List Effect
  pub settles :
      after.actions
      ≡ (settle claimed.action_id deps.worker_id status
          (settled_result status code now_ms detail)
          now_ms
          before.actions).0
  pub sends : after.effects ≡ before.effects ++ sent
  pub one : length sent ≤ 1
  pub good : All Good sent

module _ (deps : Deps) (claimed : Action) (Good : Effect → Type 0) where
  -- Settling alone
  settle_claimed-Performed :
      (status : SettledStatus) (code : ResultCode) (now_ms : ℕ) (detail : Option String)
      (pass : Pass)
      → Performed deps claimed Good pass
          (settle_claimed deps claimed status code now_ms detail pass)
  settle_claimed-Performed status code now_ms detail pass = record {
    status = status;
    code = code;
    now_ms = now_ms;
    detail = detail;
    sent = [];
    settles = refl;
    sends = sym (append-nil pass.effects);
    one = omega arith;
    good = tt;
  }

  -- Settling after a good effect
  settle_outcome-Performed :
      (e : Effect) (now_ms : ℕ) (failure : Option String) (pass : Pass)
      → Good e
      → Performed deps claimed Good pass
          (settle_outcome deps claimed now_ms failure (with_effect e pass))
  settle_outcome-Performed e now_ms none pass g = record {
    status = as_succeeded;
    code = applied;
    now_ms = now_ms;
    detail = none;
    sent = e ∷ [];
    settles = refl;
    sends = refl;
    one = omega arith;
    good = (g, tt);
  }
  settle_outcome-Performed e now_ms (some message) pass g = record {
    status = as_failed;
    code = wrapper_failed;
    now_ms = now_ms;
    detail = some message;
    sent = e ∷ [];
    settles = refl;
    sends = refl;
    one = omega arith;
    good = (g, tt);
  }

  perform_end-Performed :
      (server : Server) (now_ms : ℕ) (run : RunState) (pass : Pass)
      → Good (ended run)
      → Performed deps claimed Good pass (perform_end deps server claimed now_ms run pass)
  perform_end-Performed server now_ms run pass g = elim (Option-cases server.planned_end) [
    | inl missing ↦ rw missing (settle_claimed-Performed as_compensated already_clear now_ms _ pass)
    | inr (planned_end, set) ↦
        rw set (settle_outcome-Performed (ended run) now_ms (planned_end run) pass g)
  ]

  perform_step-Performed :
      (loading sending : Server) (now_ms lease : ℕ) (run : RunState) (pass : Pass)
      → Good (dispatched run claimed.action_id lease)
      → Performed deps claimed Good pass
          (perform_step deps loading sending claimed now_ms lease run pass)
  perform_step-Performed loading sending now_ms lease run pass g =
      elim (Result-cases (loading.load_plan run)) [
        | inr (plan, loaded) ↦
            rw (perform_step, loaded)
              (settle_outcome-Performed (dispatched run claimed.action_id lease) now_ms _ pass g)
        | inl (message, failed) ↦
            rw (perform_step, failed)
              (settle_claimed-Performed as_failed wrapper_failed now_ms (some message) pass)
      ]

  -- The effect of a run in its fault window is good where the lease has not run out.
  perform_leased-Performed :
      (loading sending : Server) (now_ms : ℕ) (run : RunState) (held : Option ℕ) (pass : Pass)
      → ((e : Effect) (lease : ℕ)
          → run_of e ≡ run
          → held ≡ some lease
          → now_ms < lease
          → CarriesLease e lease
          → Good e)
      → Performed deps claimed Good pass
          (perform_leased deps loading sending claimed now_ms run held pass)
  perform_leased-Performed loading sending now_ms run none pass good =
      settle_claimed-Performed as_compensated already_clear now_ms (some "the run lease has ended")
        pass
  perform_leased-Performed loading sending now_ms run (some lease) pass good =
      elim (Bool-cases (leb lease now_ms)) [
        | inl over ↦ rw over (
            settle_claimed-Performed as_compensated already_clear now_ms
              (some "the run lease has ended") pass)
        | inr running ↦ rw running (elim (Bool-cases (claimed.kind === planned_end_kind)) [
          | inl end ↦ rw end (
              perform_end-Performed sending now_ms run pass
                (good (ended run) lease refl refl (ground arith) tt))
          | inr step ↦ rw step (
              perform_step-Performed loading sending now_ms lease run pass
                (good (dispatched run claimed.action_id lease) lease refl refl (ground arith) refl))
        ])
      ]

pub perform-Performed :
    (deps : Deps) (moment : ℕ) (claimed : Action) (pass : Pass)
    → Performed deps claimed (IsJustified deps) pass (perform deps moment claimed pass)
unfolding perform
perform-Performed deps moment claimed pass =
    elim (Result-cases ((deps.server (moment + 1)).load_run claimed.run_key)) [
      | inl (message, failed) ↦
          rw (perform, failed)
            (settle_claimed-Performed deps claimed (IsJustified deps) as_failed wrapper_failed _
              (some message) pass)
      | inr (run, loaded) ↦ elim (Bool-cases (is_dispatchable_status run.status)) [
        | inr moved_on ↦
            rw (perform, loaded, moved_on)
              (settle_claimed-Performed deps claimed (IsJustified deps) as_compensated already_clear
                _ _ pass)
        | inl fits ↦
            rw (perform, loaded, fits)
              (perform_leased-Performed deps claimed (IsJustified deps) (deps.server (moment + 2))
                (deps.server (moment + 3)) (deps.clock moment) run run.fault_lease_expires_at_ms
                pass
                (λ e lease same held running carried. record {
                  moment = moment;
                  run_key = claimed.run_key;
                  lease = lease;
                  loaded = rw same loaded;
                  in_window = rw same fits;
                  leased = ap (λ r. r.fault_lease_expires_at_ms) same ∙ held;
                  unexpired = running;
                  carried = carried;
                }))
      ]
    ]
