-- ===== src/RunState/Accepts.antt =====
-- Which events a run accepts: `allowedSimulationEvents` and `transitionSimulationRun` of
-- server/src/domain/simulationRunState.ts.
use devnet_deftrack.Common.{
  ℕ, String, ◌≡◌, inl, inr, Bool, true, false, not, ◌&&◌, Result, ok, err, arith, is_safe_integer,
  leb, ltb, any, List, ◌==◌,
}
use devnet_deftrack.RunState.{
  RunState, Event, EventType, Payload, StateError, plain, activation, fault, recovered, event_index,
  is_terminal, invalid_transition,
}
use devnet_deftrack.RunState.Transition.{
  transition, type_of, apply_fresh, is_retry, allowed_events, assert_event,
}
use devnet_deftrack.RunState.Reconcile.{reconcile, ReconcileResult, unchanged}
use devnet_deftrack.RunState.WellFormed.{WellFormed, transition-cases}
use devnet_deftrack.RunState.Laws.{make_event}

-- Is the event type among the listed ones?
abbrev pub contains : List EventType → EventType → Bool
contains xs t = any (λ x. event_index x == event_index t) xs

-- What an event needs beside its status.
abbrev pub is_admissible : RunState → Event → Payload → Bool
is_admissible s e (activation lease) =
    s.live && is_safe_integer lease && ltb e.at_ms lease && leb lease s.run_expires_at_ms
is_admissible s e (fault lease _) =
    s.live && is_safe_integer lease && ltb e.at_ms lease && leb lease s.run_expires_at_ms
is_admissible s e (recovered _) = true
is_admissible s e (plain EventType.dry_run_completed) = not s.live
is_admissible s e (plain EventType.begin_activation) = false
is_admissible s e (plain EventType.activate_fault) = false
is_admissible s e (plain _) = true

abbrev pub is_ok : Result StateError RunState → Bool
is_ok (ok _) = true
is_ok (err _) = false

apply_fresh_accepts :
    (s : RunState) (id : String) (at : ℕ) (p : Payload)
    → WellFormed s
    → is_ok (apply_fresh s (make_event id at p))
      ≡ (contains (allowed_events s.status) (type_of p) && is_admissible s (make_event id at p) p)
unfolding apply_fresh allowed_events
apply_fresh_accepts s id at (plain EventType.begin_preflight) w = ground arith
apply_fresh_accepts s id at (plain x) w = ground arith
apply_fresh_accepts s id at p w = ground arith

-- Of a well-formed run, an event that is no retry, and that is neither malformed, stale nor barred
-- by the run's expiry, is accepted exactly when its type is among the allowed ones and what it
-- carries is admissible; it is never refused for want of a fault to recover from.
pub transition_accepts :
    (s : RunState) (e : Event)
    → WellFormed s
    → assert_event s e ≡ ok tt
    → is_retry s e ≡ false
    → is_ok (transition s e)
      ≡ (contains (allowed_events s.status) (type_of e.payload) && is_admissible s e e.payload)
unfolding transition
transition_accepts s e w passed fresh =
    rw (passed, transition)
      (rw (fresh, transition) (apply_fresh_accepts s e.event_id e.at_ms e.payload w))

apply_fresh_terminal :
    (s : RunState) (e : Event)
    → is_terminal s.status ≡ true
    → apply_fresh s e ≡ err invalid_transition
unfolding apply_fresh is_terminal
apply_fresh_terminal s e h = ground arith

-- A rejected, completed or aborted run is final: whatever event it accepts leaves it as it is, and
-- a reconcile at any time that it accepts changes nothing.
pub terminal_absorbs :
    (s : RunState)
    → is_terminal s.status ≡ true
    → ((e : Event) (t : RunState) → transition s e ≡ ok t → t ≡ s)
      × ((now : ℕ) (r : ReconcileResult) → reconcile s now ≡ ok r → r ≡ unchanged s)
unfolding reconcile is_terminal
terminal_absorbs s h = (events, λ now r k. ground arith)
  where
    events : (e : Event) (t : RunState) → transition s e ≡ ok t → t ≡ s
    events e t k = elim (transition-cases s t e k) [
      | inl (_, same) ↦ same
      | inr (_, _, fresh) ↦ let bad = apply_fresh_terminal s e h in cc
    ]
