-- ===== src/RunState/WellFormed.antt =====
-- What holds of a run between two transitions, and its preservation.
use devnet_deftrack.Common.{
  ℕ, ◌+◌, ◌≤◌, String, ◌≡◌, ◌≢◌, Bool, true, false, Option, none, some, ok, arith, Option-cases,
  inl, inr, ◌⊎◌,
}
use devnet_deftrack.RunState.{
  Status, RunState, Event, EventType, Payload, plain, activation, fault, recovered,
  cooldown_budget_ms, create_run,
}
use devnet_deftrack.RunState.{
  activation_pending, fault_active, observing, aborting, recovery, cooldown, aborted, failed,
}
use devnet_deftrack.RunState.Transition.{
  transition, request_abort, type_of, ordinary_transition, apply_plain, apply_payload,
  apply_ordinary, apply_fresh, is_retry,
}
use devnet_deftrack.RunState.Reconcile.{reconcile, ReconcileResult}

-- Statuses at which no remote fault can be on.
abbrev pub is_clean : Status → Bool
is_clean activation_pending = false
is_clean fault_active = false
is_clean observing = false
is_clean aborting = false
is_clean recovery = false
is_clean failed = false
is_clean _ = true

-- Statuses at which a remote fault has to be assumed.
abbrev pub is_faulty : Status → Bool
is_faulty activation_pending = true
is_faulty fault_active = true
is_faulty observing = true
is_faulty failed = true
is_faulty _ = false

-- Statuses at which a fault is held under a lease.
abbrev pub is_leased : Status → Bool
is_leased activation_pending = true
is_leased fault_active = true
is_leased observing = true
is_leased _ = false

-- Statuses that a run with a requested abort is never in, and those that only such a run is in.
abbrev pub is_unaborted : Status → Bool
is_unaborted aborting = false
is_unaborted recovery = false
is_unaborted aborted = false
is_unaborted failed = false
is_unaborted _ = true

abbrev pub is_aborted : Status → Bool
is_aborted aborting = true
is_aborted aborted = true
is_aborted _ = false

-- A lease, where there is one, ends no later than the run.
abbrev pub EndsBy : Option ℕ → ℕ → Type 0
EndsBy none deadline = Unit
EndsBy (some lease) deadline = lease ≤ deadline

pub record WellFormed (s : RunState) : Type 0 where
  pub entered : s.created_at_ms ≤ s.state_entered_at_ms
  pub updated : s.state_entered_at_ms ≤ s.updated_at_ms
  pub clean : is_clean s.status ≡ true → s.fault_may_be_active ≡ false
  pub unleased : is_clean s.status ≡ true → s.fault_lease_expires_at_ms ≡ none
  pub faulty : is_faulty s.status ≡ true → s.fault_may_be_active ≡ true
  pub live : is_leased s.status ≡ true → s.live ≡ true
  pub leased : is_leased s.status ≡ true → s.fault_lease_expires_at_ms ≢ none
  pub bounded : EndsBy s.fault_lease_expires_at_ms s.run_expires_at_ms
  pub unaborted : is_unaborted s.status ≡ true → s.abort_requested ≡ false
  pub aborted : is_aborted s.status ≡ true → s.abort_requested ≡ true
  pub resting :
      s.status ≡ cooldown
      → s.cooldown_expires_at_ms ≡ some (s.state_entered_at_ms + cooldown_budget_ms)

pub create_run-WellFormed :
    (key : String) (live : Bool) (now expiry : ℕ) (s : RunState)
    → create_run key live now expiry ≡ ok s
    → WellFormed s
unfolding create_run
create_run-WellFormed key live now expiry s h = ground arith

module _ (s t : RunState) (e : Event) (w : WellFormed s) (later : s.updated_at_ms ≤ e.at_ms) where
  request_abort-WellFormed : request_abort s e ≡ ok t → WellFormed t
  unfolding request_abort
  request_abort-WellFormed h = ground arith

  apply_plain-WellFormed :
      (x : EventType) (to : Status)
      → ordinary_transition s.status x ≡ some to
      → apply_plain s e x to ≡ ok t
      → WellFormed t
  unfolding apply_plain ordinary_transition
  apply_plain-WellFormed EventType.begin_preflight to g h = ground arith
  apply_plain-WellFormed x to g h = ground arith

  apply_payload-WellFormed :
      (p : Payload) (to : Status)
      → ordinary_transition s.status (type_of p) ≡ some to
      → apply_payload s e p to ≡ ok t
      → WellFormed t
  unfolding apply_payload ordinary_transition
  apply_payload-WellFormed (plain x) to g h = apply_plain-WellFormed x to g h
  apply_payload-WellFormed (activation lease) to g h = ground arith
  apply_payload-WellFormed (fault lease none) to g h = ground arith
  apply_payload-WellFormed (fault lease (some tip)) to g h = ground arith
  apply_payload-WellFormed (recovered none) to g h = ground arith
  apply_payload-WellFormed (recovered (some tip)) to g h = ground arith

  apply_ordinary-WellFormed : apply_ordinary s e ≡ ok t → WellFormed t
  unfolding apply_ordinary
  apply_ordinary-WellFormed h =
      elim (Option-cases (ordinary_transition s.status (type_of e.payload))) [
        | inl unknown ↦ cc (rw (unknown, apply_ordinary) at h)
        | inr (to, found) ↦
            apply_payload-WellFormed e.payload to found (rw (found, apply_ordinary) at h)
      ]

  apply_fresh-WellFormed : apply_fresh s e ≡ ok t → WellFormed t
  unfolding apply_fresh
  apply_fresh-WellFormed h = ground (arith, request_abort-WellFormed, apply_ordinary-WellFormed)

-- What an accepted event has passed: it repeats the last one, or it is applied as a fresh one.
pub transition-cases :
    (s t : RunState) (e : Event)
    → transition s e ≡ ok t
    → ((is_retry s e ≡ true) × (t ≡ s))
      ⊎ ((is_retry s e ≡ false) × (s.updated_at_ms ≤ e.at_ms) × (apply_fresh s e ≡ ok t))
unfolding transition is_retry
transition-cases s t e h = ground arith

-- Every accepted event keeps a run well-formed: its times in order, no fault and no lease while it
-- is clean, a leased fault of a live run within the run's expiry while it is leased, an abort
-- requested exactly where its status says so, and the stamped deadline while it rests.
pub transition-WellFormed :
    (s t : RunState) (e : Event) → WellFormed s → transition s e ≡ ok t → WellFormed t
transition-WellFormed s t e w h = elim (transition-cases s t e h) [
  | inl (_, same) ↦ rw same w
  | inr (_, later, fresh) ↦ apply_fresh-WellFormed s t e w later fresh
]

-- Every reconcile that does not throw keeps a well-formed run well-formed.
pub reconcile-WellFormed :
    (s : RunState) (now : ℕ) (r : ReconcileResult)
    → WellFormed s
    → reconcile s now ≡ ok r
    → WellFormed r.state
unfolding reconcile
reconcile-WellFormed s now r w h = ground arith
