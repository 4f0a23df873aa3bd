-- ===== src/RunState/OnTime.antt =====
-- One pass of server/src/services/simulationReconcile.service.ts, and the runs that are overdue.
use mathlib.Core.List.Memᴰ
use mathlib.Core.List.{Memᴰ}
use devnet_deftrack.Common.{
  String, ◌===◌, ℕ, ◌+◌, ◌<◌, ◌≤◌, ◌≡◌, ◌≢◌, ◌⊎◌, inl, inr, refl, ap, ◌∙◌, Bool, true, false, ◌||◌,
  List, [], ◌∷◌, map, take, take-all, filter, any, length, sort_by, any-sort_by, length-sort_by,
  ltb, ok, err, Result-cases, Bool-cases, arith, All, All-members, All-implies, subst,
  is_safe_integer, eq_refl,
}
use devnet_deftrack.RunState.{RunState, StateError, aborting, cooldown, can_auto_recover}
use devnet_deftrack.RunState.Reconcile.{
  reconcile, ReconcileResult, unchanged, lease_expired, cooldown_deadline,
}
use devnet_deftrack.RunState.Overdue.{reconcile_none_overdue}
use devnet_deftrack.RunState.Sweep.{
  reconcilable_run_filter, reconcilable_run_filter_complete, Attempt, decides, Swept, sweep_run,
  sweep_key, sweep_keys, find_reconcilable_run_keys, max_swept, sweep,
}

unchanged_same :
    (s : RunState) (now : ℕ) (r : ReconcileResult)
    → reconcile s now ≡ ok r
    → r.changed ≡ false
    → r ≡ unchanged s
unfolding reconcile
unchanged_same s now r h c = ground arith

-- A run on which nothing is overdue at an instant, or which was updated after it.
abbrev pub IsOnTime : ℕ → RunState → Type 0
IsOnTime now s =
    (now < s.updated_at_ms)
    ⊎ ((can_auto_recover s.status ≡ true
          → (lease_expired s now ≡ false) × (now < s.run_expires_at_ms))
        × (s.status ≢ aborting)
        × (s.status ≡ cooldown → now < cooldown_deadline s))

stale_only :
    (s : RunState) (now : ℕ) (e : StateError)
    → is_safe_integer now ≡ true
    → reconcile s now ≡ err e
    → now < s.updated_at_ms
unfolding reconcile
stale_only s now e safe h = ground arith

-- A run that the filter passes over is on time.
passed_over-IsOnTime :
    (s : RunState) (now : ℕ)
    → is_safe_integer now ≡ true
    → reconcilable_run_filter now s ≡ false
    → IsOnTime now s
passed_over-IsOnTime s now safe miss = elim (Result-cases (reconcile s now)) [
  | inl (e, stale) ↦ inl (stale_only s now e safe stale)
  | inr (r, done) ↦ elim (Bool-cases r.changed) [
    | inl changes ↦ let hit = reconcilable_run_filter_complete s now r done changes in absurd (cc)
    | inr stays ↦ inr (
        subst
          (λ x.
            (can_auto_recover x.state.status ≡ true
              → (lease_expired x.state now ≡ false) × (now < x.state.run_expires_at_ms))
            × (x.state.status ≢ aborting)
            × (x.state.status ≡ cooldown → now < cooldown_deadline x.state))
          (unchanged_same s now r done stays) (reconcile_none_overdue s now r done))
  ]
]

-- A run that was reconciled is on time.
sweep_run-All :
    (Good : RunState → Type 0) (s : RunState) (now : ℕ) (swept : Swept)
    → is_safe_integer now ≡ true
    → ((t : RunState) → IsOnTime now t → Good t)
    → All Good swept.runs
    → All Good (sweep_run now decides s swept).runs
unfolding sweep_run
sweep_run-All Good s now swept safe good h = elim (Result-cases (reconcile s now)) [
  | inl (e, stale) ↦ rw (sweep_run, stale) (good s (inl (stale_only s now e safe stale)), h)
  | inr (r, done) ↦
      rw (sweep_run, done) (good r.state (inr (reconcile_none_overdue s now r done)), h)
]

-- A run that is on time or whose turn comes with one of the keys.
abbrev IsServed : (now : ℕ) → (run_keys : List String) → RunState → Type 0
IsServed now run_keys s = IsOnTime now s ⊎ (any (λ key. s.run_key === key) run_keys ≡ true)

sweep_key-IsServed :
    (now : ℕ) (key : String) (keys : List String) (runs : List RunState)
    → is_safe_integer now ≡ true
    → All (IsServed now (key ∷ keys)) runs
    → All (IsServed now keys) (sweep_key now decides key runs).runs
unfolding sweep_key
sweep_key-IsServed now key keys [] safe h = tt
sweep_key-IsServed now key keys (s ∷ runs) safe (h, hs) =
    let rest = sweep_key-IsServed now key keys runs safe hs in
    elim (Bool-cases (s.run_key === key)) [
      | inl hit ↦
          rw (sweep_key, hit)
            (sweep_run-All (IsServed now keys) s now (sweep_key now decides key runs) safe
              (λ t good. inl good) rest)
      | inr miss ↦
          let later : IsServed now keys s = elim h [
            | inl good ↦ inl good
            | inr turn ↦ inr (rw miss at turn)
          ] in
          rw (sweep_key, miss) (later, rest)
    ]

sweep_keys-IsServed :
    (now : ℕ) (attempt : String → Attempt) (keys : List String) (swept : Swept)
    → is_safe_integer now ≡ true
    → ((key : String) → attempt key ≡ decides)
    → All (IsServed now keys) swept.runs
    → All (IsServed now []) (sweep_keys now attempt keys swept).runs
unfolding sweep_keys
sweep_keys-IsServed now attempt [] swept safe wins h = h
sweep_keys-IsServed now attempt (key ∷ keys) swept safe wins h =
    let one = sweep_key now (attempt key) key swept.runs in
    sweep_keys-IsServed now attempt keys
      (record {
        runs = one.runs;
        reconciled = swept.reconciled + one.reconciled;
        skipped = swept.skipped + one.skipped;
      })
      safe wins (rw (wins key) (sweep_key-IsServed now key keys swept.runs safe h))

any-map :
    {A B : Type 0} (test : B → Bool) (f : A → B) (xs : List A)
    → any test (map f xs) ≡ any (λ x. test (f x)) xs
any-map test f [] = refl
any-map test f (x ∷ xs) = ap (λ b. test (f x) || b) (any-map test f xs)

any-filter_member :
    {A : Type 0} (test keep : A → Bool) (a : A) (xs : List A)
    → Memᴰ a xs
    → keep a ≡ true
    → test a ≡ true
    → any test (filter keep xs) ≡ true
any-filter_member test keep a [] m k t = absurd (Memᴰ.not-nil m)
any-filter_member test keep a (x ∷ xs) m k t = elim (Memᴰ.cases_cons m) [
  | inl here ↦
      let kx : keep x ≡ true = subst (λ y. keep y ≡ true) here k in
      let tx : test x ≡ true = subst (λ y. test y ≡ true) here t in rw (kx, tx) refl
  | inr there ↦ let rest = any-filter_member test keep a xs there k t in ground arith
]

-- Where all that are due fit in a pass, every stored run is on time or has its turn.
found-IsServed :
    (now : ℕ) (runs : List RunState)
    → is_safe_integer now ≡ true
    → length (filter (reconcilable_run_filter now) runs) ≤ max_swept
    → All (IsServed now (find_reconcilable_run_keys now max_swept runs)) runs
unfolding find_reconcilable_run_keys
found-IsServed now runs safe few =
    let older = λ (a b : RunState). ltb a.updated_at_ms b.updated_at_ms in
    let due = filter (reconcilable_run_filter now) runs in
    let size = length-sort_by older due in
    let whole = take-all max_swept (sort_by older due) (omega (arith, size, few)) in
    All-members (IsServed now (find_reconcilable_run_keys now max_swept runs)) runs (λ s m.
      elim (Bool-cases (reconcilable_run_filter now s)) [
        | inr miss ↦ inl (passed_over-IsOnTime s now safe miss)
        | inl hit ↦ inr (
            any-map (λ key. s.run_key === key) (λ x. x.run_key) (take max_swept (sort_by older due))
            ∙ ap (any (λ x. s.run_key === x.run_key)) whole
            ∙ any-sort_by older (λ x. s.run_key === x.run_key) due
            ∙ any-filter_member (λ x. s.run_key === x.run_key) (reconcilable_run_filter now) s runs
                m hit (eq_refl s.run_key))
      ])

-- After a pass of the sweep over stored runs of which two hundred at most are due, and in which the persistence
-- lost no race and threw nothing, no stored run that was not updated after the pass began has an expired fault
-- lease or an expired deadline at a status that times out, is left aborting, or rests beyond its cooldown,
-- although the pass looked only at the runs of its filter.
pub sweep-IsOnTime :
    (now : ℕ) (attempt : String → Attempt) (runs : List RunState)
    → is_safe_integer now ≡ true
    → ((key : String) → attempt key ≡ decides)
    → length (filter (reconcilable_run_filter now) runs) ≤ max_swept
    → All (IsOnTime now) (sweep now attempt runs).runs
unfolding sweep
sweep-IsOnTime now attempt runs safe wins few =
    All-implies (IsServed now []) (IsOnTime now)
      (λ s k. elim k [ inl good ↦ good | inr none ↦ absurd (ground arith) ])
      (sweep now attempt runs).runs
      (sweep_keys-IsServed now attempt (find_reconcilable_run_keys now max_swept runs)
        (record { runs = runs; reconciled = 0; skipped = 0 }) safe wins
        (found-IsServed now runs safe few))
