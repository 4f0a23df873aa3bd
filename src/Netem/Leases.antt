-- ===== src/Netem/Leases.antt =====
-- The leases of records and the operations of server/src/simulator/netemRunner.ts.
use devnet_deftrack.Common.{
  if◌then◌else◌, ◌||◌, ℕ, suc, ◌≤◌, ◌≡◌, inl, inr, refl, String, not, Option, none, some, List, [],
  ◌∷◌, filter, ◌===◌, Result, ok, err, arith, All, All-append, All-filter, Bool-cases,
}
use devnet_deftrack.Netem.{FaultAction, DslFaultSpec, Plan, JobUndo, Preimage}
use devnet_deftrack.Netem.Args.{FaultError}
use devnet_deftrack.Netem.Plans.{plan_clear, plan_sweep, plan_boot_recovery, dsl_job_id, without_id}
use devnet_deftrack.Netem.Runner.{
  LabHost, World, Ran, Script, Outcome, landed, has, execute, save, run_actions, carry_out,
  if_acted, clear_locked, run_undos, tick_locked, recover_all, boot_cleanup_locked, apply_locked,
  stop_service_locked, save_fault_id, set_dsl_fault_locked, Operation, applying, stopping,
  setting_dsl, clearing, ticking, booting, run_loaded, is_boot, run_operation,
}
use devnet_deftrack.Netem.Ceiling.{
  EndsBy, PlanEndsBy, with_dsl_fault_id-EndsBy, plan_apply-EndsBy, plan_service_stop-EndsBy,
  plan_dsl_set-EndsBy, RunsEndBy, execute-EndsBy, save-RunsEndBy, and_then-RunsEndBy,
  run_actions-RunsEndBy,
}

module _ (host : LabHost) (limit : ℕ) where
  carry_out-RunsEndBy :
      (r : Result FaultError Plan) (script : Script) (w : World host)
      → PlanEndsBy limit r
      → EndsBy limit w.jobs
      → RunsEndBy host limit (carry_out host r script w)
  carry_out-RunsEndBy (err e) script w p h = (tt, h)
  carry_out-RunsEndBy (ok plan) script w p h = go plan.actions
    where
      go :
          (actions : List FaultAction)
          → RunsEndBy host limit (carry_out host (ok (record plan { actions = actions })) script w)
      go [] = (tt, h)
      go (a ∷ actions) =
          and_then-RunsEndBy host limit (save host script.first_save plan.jobs w)
            (run_actions host (a ∷ actions) script.outcome)
            (save-RunsEndBy host limit script.first_save plan.jobs w p h)
            (λ v k. run_actions-RunsEndBy host limit (a ∷ actions) script.outcome v k)

  if_acted-RunsEndBy :
      (r : Result FaultError Plan) (rest : World host → Ran host) (ran : Ran host)
      → RunsEndBy host limit ran
      → ((w : World host) → EndsBy limit w.jobs → RunsEndBy host limit (rest w))
      → RunsEndBy host limit (if_acted host r rest ran)
  if_acted-RunsEndBy (err e) rest ran h k = h
  if_acted-RunsEndBy (ok plan) rest ran h k = go plan.actions
    where
      go :
          (actions : List FaultAction)
          → RunsEndBy host limit (if_acted host (ok (record plan { actions = actions })) rest ran)
      go [] = h
      go (a ∷ actions) = and_then-RunsEndBy host limit ran rest h k

  clear_locked-RunsEndBy :
      (id : String) (script : Script) (w : World host)
      → EndsBy limit w.jobs
      → RunsEndBy host limit (clear_locked host id script w)
  unfolding clear_locked
  clear_locked-RunsEndBy id script w h = go (plan_clear w.jobs id).actions refl
    where
      go :
          (actions : List FaultAction)
          → (plan_clear w.jobs id).actions ≡ actions
          → RunsEndBy host limit (clear_locked host id script w)
      go [] e = rw (clear_locked, e) (tt, h)
      go (a ∷ actions) e =
          rw (clear_locked, e)
            (and_then-RunsEndBy host limit (run_actions host (a ∷ actions) script.outcome w)
              (λ fresh. save host script.first_save (without_id id fresh.jobs) fresh)
              (run_actions-RunsEndBy host limit (a ∷ actions) script.outcome w h)
              (λ v k.
                save-RunsEndBy host limit script.first_save (without_id id v.jobs) v
                  (All-filter (λ j. j.expires_at_ms ≤ limit) _ v.jobs k) k))

  run_undos-EndsBy :
      (undos : List JobUndo) (outcome : ℕ → Outcome) (w : World host)
      → EndsBy limit w.jobs
      → All (λ v. EndsBy limit v.jobs) (run_undos host undos outcome w).visited
        × EndsBy limit (run_undos host undos outcome w).world.jobs
  unfolding run_undos
  run_undos-EndsBy [] outcome w h = (tt, h)
  run_undos-EndsBy (u ∷ undos) outcome w h =
      let next = execute-EndsBy host limit u.action (outcome 0) w h in
      let (rest, last) =
        run_undos-EndsBy undos (λ k. outcome (suc k)) (execute host u.action (outcome 0) w) next in
      elim (Bool-cases (landed (outcome 0))) [
        | inl fine ↦ rw (run_undos, fine) ((next, rest), last)
        | inr bad ↦ rw (run_undos, bad) ((next, rest), last)
      ]

  tick_locked-RunsEndBy :
      (now : ℕ) (script : Script) (w : World host)
      → EndsBy limit w.jobs
      → RunsEndBy host limit (tick_locked host now script w)
  unfolding tick_locked
  tick_locked-RunsEndBy now script w h = go (plan_sweep w.jobs now) refl
    where
      go :
          (undos : List JobUndo)
          → plan_sweep w.jobs now ≡ undos
          → RunsEndBy host limit (tick_locked host now script w)
      go [] e = rw (tick_locked, e) (tt, h)
      go (u ∷ undos) e =
          let undone = run_undos host (u ∷ undos) script.outcome w in
          let (all, last) = run_undos-EndsBy (u ∷ undos) script.outcome w h in
          let kept = filter (λ job. not (has undone.succeeded job.job_id)) undone.world.jobs in
          let (more, end) =
            save-RunsEndBy host limit script.first_save kept undone.world
              (All-filter (λ j. j.expires_at_ms ≤ limit) _ undone.world.jobs last) last in
          rw (tick_locked, e) (All-append (λ v. EndsBy limit v.jobs) undone.visited _ all more, end)

  recover_all-EndsBy :
      (undos : List JobUndo) (outcome : ℕ → Outcome) (w : World host)
      → EndsBy limit w.jobs
      → All (λ v. EndsBy limit v.jobs) (recover_all host undos outcome w).visited
        × EndsBy limit (recover_all host undos outcome w).world.jobs
        × EndsBy limit (recover_all host undos outcome w).retained
  unfolding recover_all
  recover_all-EndsBy [] outcome w h = (tt, h, tt)
  recover_all-EndsBy (u ∷ undos) outcome w h =
      let next = execute-EndsBy host limit u.action (outcome 0) w h in
      let (rest, last, kept) =
        recover_all-EndsBy undos (λ k. outcome (suc k)) (execute host u.action (outcome 0) w)
          next in
      elim (Bool-cases (landed (outcome 0))) [
        | inl fine ↦ rw (recover_all, fine) ((next, rest), last, kept)
        | inr bad ↦ rw (recover_all, bad) ((next, rest), last, (omega arith, kept))
      ]

  boot_cleanup_locked-RunsEndBy :
      (script : Script) (w : World host)
      → EndsBy limit w.jobs
      → RunsEndBy host limit (boot_cleanup_locked host script w)
  unfolding boot_cleanup_locked
  boot_cleanup_locked-RunsEndBy script w h =
      let undos = plan_boot_recovery (if script.loads then w.jobs else []) in
      let recovering = recover_all host undos script.outcome w in
      let (all, last, kept) = recover_all-EndsBy undos script.outcome w h in
      let (more, end) =
        save-RunsEndBy host limit script.first_save recovering.retained recovering.world kept
          last in
      (All-append (λ v. EndsBy limit v.jobs) recovering.visited _ all more, end)

  module _ (short : Preimage → String) where
    -- The lease that an operation is asked for ends by the limit.
    abbrev pub AsksBy : Operation host short → Type 0
    AsksBy (applying spec tag lease) = lease ≤ limit
    AsksBy (stopping container tag lease) = lease ≤ limit
    AsksBy (setting_dsl spec tag lease) = lease ≤ limit
    AsksBy (clearing id) = Unit
    AsksBy ticking = Unit
    AsksBy booting = Unit

    save_fault_id-RunsEndBy :
        (spec : DslFaultSpec) (tag : String) (script : Script) (w : World host)
        → EndsBy limit w.jobs
        → RunsEndBy host limit (save_fault_id host short spec tag script w)
    save_fault_id-RunsEndBy spec tag script w h = go script.fault_id
      where
        go :
            (answer : Option String)
            → RunsEndBy host limit
                (save_fault_id host short spec tag (record script { fault_id = answer }) w)
        go none = (tt, h)
        go (some id) = elim (Bool-cases (id === "")) [
          | inl blank ↦ rw blank (tt, h)
          | inr named ↦ rw named (
              save-RunsEndBy host limit script.second_save _ w
                (with_dsl_fault_id-EndsBy limit w.jobs
                  (dsl_job_id short tag spec.container spec.fault_kind) id h)
                h)
        ]

    run_loaded-RunsEndBy :
        (now : ℕ) (script : Script) (op : Operation host short) (w : World host)
        → AsksBy op
        → EndsBy limit w.jobs
        → RunsEndBy host limit (run_loaded host short now script op w)
    unfolding run_loaded apply_locked stop_service_locked set_dsl_fault_locked
    run_loaded-RunsEndBy now script (applying spec tag lease) w a h =
        carry_out-RunsEndBy _ script w (plan_apply-EndsBy limit short w.jobs h spec tag now lease a)
          h
    run_loaded-RunsEndBy now script (stopping container tag lease) w a h =
        carry_out-RunsEndBy _ script w
          (plan_service_stop-EndsBy limit short w.jobs h container tag now lease a) h
    run_loaded-RunsEndBy now script (setting_dsl spec tag lease) w a h =
        if_acted-RunsEndBy _ _ _
          (carry_out-RunsEndBy _ script w
            (plan_dsl_set-EndsBy limit short w.jobs h spec tag now lease a) h)
          (λ v k. save_fault_id-RunsEndBy spec tag script v k)
    run_loaded-RunsEndBy now script (clearing id) w a h = clear_locked-RunsEndBy id script w h
    run_loaded-RunsEndBy now script ticking w a h = tick_locked-RunsEndBy now script w h
    run_loaded-RunsEndBy now script booting w a h = boot_cleanup_locked-RunsEndBy script w h

    pub run_operation-RunsEndBy :
        (now : ℕ) (script : Script) (op : Operation host short) (w : World host)
        → AsksBy op
        → EndsBy limit w.jobs
        → RunsEndBy host limit (run_operation host short now script op w)
    unfolding run_operation
    run_operation-RunsEndBy now script op w a h =
        elim (Bool-cases (script.loads || is_boot host short op)) [
          | inl on ↦ rw (run_operation, on) (run_loaded-RunsEndBy now script op w a h)
          | inr off ↦ rw (run_operation, off) (tt, h)
        ]
