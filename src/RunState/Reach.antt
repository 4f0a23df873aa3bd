-- ===== src/RunState/Reach.antt =====
-- The life of a run: any sequence of accepted events and reconciles from its creation.
use devnet_deftrack.Common.{
  ℕ, ◌≤◌, String, ◌≡◌, ◌≢◌, ◌⊎◌, inl, inr, refl, Bool, true, false, none, some, ok, arith,
  Bool-cases, eq_iff, is_blank, is_safe_integer, if◌then◌else◌,
}
use devnet_deftrack.RunState.{
  RunState, Event, plain, recovered, event, recovery, cooldown, aborted, begin_recovery,
  recovery_succeeded, create_run, same_status,
}
use devnet_deftrack.RunState.Transition.{transition, is_retry, apply_transition, no_changes}
use devnet_deftrack.RunState.Reconcile.{reconcile, ReconcileResult}
use devnet_deftrack.RunState.WellFormed.{
  WellFormed, is_clean, is_leased, create_run-WellFormed, transition-WellFormed,
  reconcile-WellFormed,
}
use devnet_deftrack.RunState.Laws.{make_event, transition_history}

pub data Step (s t : RunState) : Type 0 where
  take : (e : Event) → transition s e ≡ ok t → Step s t
  tick : (now : ℕ) (r : ReconcileResult) → reconcile s now ≡ ok r → t ≡ r.state → Step s t

pub data Reach (s : RunState) : RunState → Type 0 where
  here : Reach s s
  next : {t u : RunState} → Reach s t → Step t u → Reach s u

Step-WellFormed : {s t : RunState} → WellFormed s → Step s t → WellFormed t
Step-WellFormed {s} {t} w (take e h) = transition-WellFormed s t e w h
Step-WellFormed {s} w (tick now r h same) = rw same (reconcile-WellFormed s now r w h)

pub Reach-WellFormed : {s t : RunState} → WellFormed s → Reach s t → WellFormed t
Reach-WellFormed w here = w
Reach-WellFormed w (next r st) = Step-WellFormed (Reach-WellFormed w r) st

reconcile-same_live :
    (s : RunState) (now : ℕ) (r : ReconcileResult) → reconcile s now ≡ ok r → r.state.live ≡ s.live
unfolding reconcile
reconcile-same_live s now r h = ground arith

Step-same_live : {s t : RunState} → Step s t → t.live ≡ s.live
Step-same_live {s} {t} (take e h) = (transition_history s t e h).1
Step-same_live {s} (tick now r h same) = rw same (reconcile-same_live s now r h)

Reach-same_live : {s t : RunState} → Reach s t → t.live ≡ s.live
Reach-same_live here = refl
Reach-same_live (next r st) = let a = Reach-same_live r in let b = Step-same_live st in cc

-- Whatever happens to a run after its creation: while it is in a status before the activation,
-- rests in its cooldown or has ended, no fault may be on and none is leased; and a dry run never
-- stands at a status in which a fault is being activated, on or observed.
pub created_run_safe :
    (key : String) (live : Bool) (created expiry : ℕ) (s t : RunState)
    → create_run key live created expiry ≡ ok s
    → Reach s t
    → (is_clean t.status ≡ true
        → (t.fault_may_be_active ≡ false) × (t.fault_lease_expires_at_ms ≡ none))
      × (live ≡ false → is_leased t.status ≡ false)
unfolding create_run
created_run_safe key live created expiry s t h r =
    let w = Reach-WellFormed (create_run-WellFormed key live created expiry s h) r in
    let same = Reach-same_live r in ground arith

-- The run after the first of the two events of a recovery.
abbrev recovering : RunState → String → ℕ → RunState
recovering s id at = apply_transition s id (event begin_recovery) at recovery no_changes

-- The run after the second.
abbrev recovered_run : RunState → String → ℕ → RunState
recovered_run s id at =
    apply_transition s id (event recovery_succeeded) at
      (if s.abort_requested then aborted else cooldown)
      (record no_changes {
        fault_lease_expires_at_ms = some none;
        fault_may_be_active = some false;
      })

-- A run that is clean again, at rest or ended.
pub record Recovered (t : RunState) : Type 0 where
  pub unfaulted : t.fault_may_be_active ≡ false
  pub unleased : t.fault_lease_expires_at_ms ≡ none
  pub settled : (t.status ≡ cooldown) ⊎ (t.status ≡ aborted)

recovered_run-Recovered : (s : RunState) (id : String) (at : ℕ) → Recovered (recovered_run s id at)
unfolding apply_transition
recovered_run-Recovered s id at = ground arith

module _ (s : RunState) (id : String) (at : ℕ) (nonblank : is_blank id ≡ false)
    (safe : is_safe_integer at ≡ true) (later : s.updated_at_ms ≤ at) where
  begin_recovery_accepted :
      WellFormed s
      → s.fault_may_be_active ≡ true
      → same_status s.status recovery ≡ false
      → is_retry s (make_event id at (plain begin_recovery)) ≡ false
      → transition s (make_event id at (plain begin_recovery)) ≡ ok (recovering s id at)
  unfolding transition apply_transition
  begin_recovery_accepted w f n fresh = ground arith

  recovery_succeeded_accepted :
      same_status s.status recovery ≡ true
      → is_retry s (make_event id at (recovered none)) ≡ false
      → transition s (make_event id at (recovered none)) ≡ ok (recovered_run s id at)
  unfolding transition apply_transition
  recovery_succeeded_accepted r fresh = ground arith

recovering-is_retry :
    (s : RunState) (i j : String) (at : ℕ)
    → i ≢ j
    → is_retry (recovering s i at) (make_event j at (recovered none)) ≡ false
unfolding is_retry apply_transition
recovering-is_retry s i j at ne = ground (arith, eq_iff i j)

-- A recovery of a run in one event or two, by their ids and their time.
abbrev pub RecoversBy : RunState → (i j : String) → (at : ℕ) → RunState → Type 0
RecoversBy s i j at t =
    (transition s (make_event j at (recovered none)) ≡ ok t)
    ⊎ ((u : RunState) × (transition s (make_event i at (plain begin_recovery)) ≡ ok u)
        × (transition u (make_event j at (recovered none)) ≡ ok t))

-- From every well-formed run on which a fault may be active, the event that a recovery has succeeded, alone
-- or after the one that it begins, is accepted and leads to a run that is clean, and rests in its cooldown or is
-- aborted. The two events have ids that are different, not blank and not that of the last event, and the
-- same time, which is a safe integer and not before the last update.
pub recovery_reachable :
    (s : RunState) (i j : String) (at : ℕ)
    → WellFormed s
    → s.fault_may_be_active ≡ true
    → (is_blank i ≡ false) × (is_blank j ≡ false) × (i ≢ j)
    → (is_safe_integer at ≡ true) × (s.updated_at_ms ≤ at)
    → (is_retry s (make_event i at (plain begin_recovery)) ≡ false)
      × (is_retry s (make_event j at (recovered none)) ≡ false)
    → (t : RunState) × RecoversBy s i j at t × Recovered t
unfolding apply_transition
recovery_reachable s i j at w f (bi, bj, ne) (safe, later) (fi, fj) =
    elim (Bool-cases (same_status s.status recovery)) [
      | inl r ↦ (
        recovered_run s j at,
        inl (recovery_succeeded_accepted s j at bj safe later r fj),
        recovered_run-Recovered s j at,
      )
      | inr n ↦ (
        recovered_run (recovering s i at) j at,
        inr (
          recovering s i at,
          begin_recovery_accepted s i at bi safe later w f n fi,
          recovery_succeeded_accepted (recovering s i at) j at bj safe (omega arith) refl
              (recovering-is_retry s i j at ne),
        ),
        recovered_run-Recovered (recovering s i at) j at,
      )
    ]
