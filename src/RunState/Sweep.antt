-- ===== src/RunState/Sweep.antt =====
-- server/src/domain/reconcileSweep.ts and server/src/services/simulationReconcile.service.ts: which stored runs
-- the sweep looks at, and what one pass does to them.
use devnet_deftrack.Common.{
  String, ◌===◌, ltb, map, take, filter, sort_by, ℕ, ◌+◌, ◌≡◌, Bool, true, false, ◌&&◌, ◌||◌,
  Option, none, some, List, [], ◌∷◌, leb, if◌then◌else◌, ok, err, arith,
}
use devnet_deftrack.RunState.{
  RunState, aborting, cooldown, same_status, is_reconcilable, can_auto_recover,
}
use devnet_deftrack.RunState.Reconcile.{reconcile, ReconcileResult}

-- `{ field: { $lte: now } }` on a field that may be null
abbrev pub is_due : Option ℕ → ℕ → Bool
is_due none now_ms = false
is_due (some t) now_ms = leb t now_ms

-- `reconcilableRunFilter`
unfoldable pub reconcilable_run_filter : (now_ms : ℕ) → RunState → Bool
unfolding is_reconcilable
reconcilable_run_filter now_ms s =
    is_reconcilable s.status
    && (same_status s.status aborting
        || leb s.run_expires_at_ms now_ms
        || (s.fault_may_be_active && is_due s.fault_lease_expires_at_ms now_ms)
        || (same_status s.status cooldown && is_due s.cooldown_expires_at_ms now_ms))

-- How the persistence takes a `reconcileRun`: it decides, it loses the race for the run, or it throws for
-- another reason.
pub data Attempt : Type 0 where
  decides loses_race throws : Attempt

-- The stored runs, and the two counts that `tick` answers with
pub record Swept : Type 0 where
  pub runs : List RunState
  pub reconciled : ℕ
  pub skipped : ℕ

abbrev pub keep_run : RunState → Swept → Swept
keep_run s swept = record swept { runs = s ∷ swept.runs }

-- The body of the loop for a run that the filter found
unfoldable pub sweep_run : (now_ms : ℕ) → Attempt → RunState → Swept → Swept
unfolding reconcile
sweep_run now_ms loses_race s swept = record swept {
  runs = s ∷ swept.runs;
  skipped = swept.skipped + 1;
}
sweep_run now_ms throws s swept = keep_run s swept
sweep_run now_ms decides s swept = elim (reconcile s now_ms) [
  | ok r ↦ record swept { runs = r.state ∷ swept.runs; reconciled = swept.reconciled + 1 }
  | err e ↦ record swept { runs = s ∷ swept.runs; skipped = swept.skipped + 1 }
]

-- `findReconcilableRunKeys`, oldest update first, and not more than a limit of them
unfoldable pub find_reconcilable_run_keys : (now_ms limit : ℕ) → List RunState → List String
unfolding reconcilable_run_filter sort_by
find_reconcilable_run_keys now_ms limit runs =
    map (λ s. s.run_key)
      (take limit (
        sort_by (λ a b. ltb a.updated_at_ms b.updated_at_ms)
          (filter (reconcilable_run_filter now_ms) runs)))

-- The default of `limit`
abbrev pub max_swept : ℕ
max_swept = 200

-- The body of the loop for a key, over all stored runs, of which one has it
unfoldable pub sweep_key : (now_ms : ℕ) → Attempt → (run_key : String) → List RunState → Swept
unfolding sweep_run
sweep_key now_ms attempt run_key [] = record { runs = []; reconciled = 0; skipped = 0 }
sweep_key now_ms attempt run_key (s ∷ runs) =
    let rest = sweep_key now_ms attempt run_key runs in
    if s.run_key === run_key then sweep_run now_ms attempt s rest else keep_run s rest

-- The loop of `tick`
unfoldable pub sweep_keys :
    (now_ms : ℕ) → (attempt : String → Attempt) → (run_keys : List String) → Swept → Swept
unfolding sweep_key
sweep_keys now_ms attempt [] swept = swept
sweep_keys now_ms attempt (run_key ∷ run_keys) swept =
    let one = sweep_key now_ms (attempt run_key) run_key swept.runs in
    sweep_keys now_ms attempt run_keys (record {
      runs = one.runs;
      reconciled = swept.reconciled + one.reconciled;
      skipped = swept.skipped + one.skipped;
    })

-- `tick`, where the candidates can be found; the only error of a reconcile, a stale event, is one that is skipped.
unfoldable pub sweep : (now_ms : ℕ) → (attempt : String → Attempt) → List RunState → Swept
unfolding find_reconcilable_run_keys sweep_keys
sweep now_ms attempt runs =
    sweep_keys now_ms attempt (find_reconcilable_run_keys now_ms max_swept runs)
      (record { runs = runs; reconciled = 0; skipped = 0 })

-- The filter misses no run that a reconcile would change.
pub reconcilable_run_filter_complete :
    (s : RunState) (now : ℕ) (r : ReconcileResult)
    → reconcile s now ≡ ok r
    → r.changed ≡ true
    → reconcilable_run_filter now s ≡ true
unfolding reconcile reconcilable_run_filter is_reconcilable can_auto_recover
reconcilable_run_filter_complete s now r h c = ground arith
