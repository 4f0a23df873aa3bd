-- ===== src/Netem/Restores.antt =====
-- `tickLocked` and `bootCleanupLocked` of server/src/simulator/netemRunner.ts when the host answers:
-- what they restore.
use mathlib.Core.List.Memᴰ
use mathlib.Core.List.{Memᴰ}
use devnet_deftrack.Common.{
  ℕ, suc, ◌≡◌, inl, inr, refl, String, Bool, true, false, not, ◌&&◌, List, [], ◌∷◌, arith, All,
  All-member, Bool-cases, filter, any, All-filter, subst, sym, ◌∙◌, eq_iff, eq_refl,
}
use devnet_deftrack.Netem.{FaultClass, FaultJob, Preimage, fault_class_of, undo_for}
use devnet_deftrack.Netem.Slots.{IsMinted, IsFaithful}
use devnet_deftrack.Netem.Plans.{
  is_slot, has_id, sort_jobs, is_expired, plan_sweep, plan_boot_recovery,
}
use devnet_deftrack.Netem.Runner.{
  LabHost, World, Script, Outcome, landed, execute, run_undos, recover_all, has, tick_locked,
  boot_cleanup_locked,
}
use devnet_deftrack.Netem.Superset.{afflicted, IsSafe}
use devnet_deftrack.Netem.Sorting.{any-sort_jobs, All-sort_jobs}
use devnet_deftrack.Netem.Undo.{undos_of, run_undos_cleared}
use devnet_deftrack.Netem.Boot.{recover_all-retained, recover_all_shrinks}

-- Every action lands.
abbrev pub AllLand : (ℕ → Outcome) → Type 0
AllLand outcome = (k : ℕ) → landed (outcome k) ≡ true

any-member :
    (test : FaultJob → Bool) (j : FaultJob) (jobs : List FaultJob)
    → Memᴰ j jobs
    → test j ≡ true
    → any test jobs ≡ true
any-member test j [] m h = absurd (Memᴰ.not-nil m)
any-member test j (job ∷ jobs) m h = elim (Memᴰ.cases_cons m) [
  | inl same ↦ let k = subst (λ x. test x ≡ true) same h in ground arith
  | inr later ↦ let k = any-member test j jobs later h in ground arith
]

any-both :
    (p q : FaultJob → Bool) (jobs : List FaultJob)
    → any (λ j. p j && q j) jobs ≡ true
    → any p (filter q jobs) ≡ true
any-both p q [] h = h
any-both p q (job ∷ jobs) h = let rest = any-both p q jobs in ground arith

-- Nothing with a dropped id is left.
any-dropped :
    (ids : List String) (id : String) (jobs : List FaultJob)
    → has ids id ≡ true
    → any (has_id id) (filter (λ job. not (has ids job.job_id)) jobs) ≡ false
any-dropped ids id [] h = refl
any-dropped ids id (job ∷ jobs) h = elim (Bool-cases (has_id id job)) [
  | inl same ↦
      let e = (eq_iff job.job_id id).0 same in
      let dropped : has ids job.job_id ≡ true = subst (λ x. has ids x ≡ true) (sym e) h in
      rw dropped (any-dropped ids id jobs h)
  | inr other ↦ elim (Bool-cases (has ids job.job_id)) [
    | inl dropped ↦ rw dropped (any-dropped ids id jobs h)
    | inr kept ↦ rw (kept, other) (any-dropped ids id jobs h)
  ]
]

module _ (host : LabHost) (short : Preimage → String) where
  run_undos_all :
      (jobs : List FaultJob) (outcome : ℕ → Outcome) (w : World host) (id : String)
      → AllLand outcome
      → any (has_id id) jobs ≡ true
      → has (run_undos host (undos_of jobs) outcome w).succeeded id ≡ true
  unfolding run_undos
  run_undos_all [] outcome w id h p = p
  run_undos_all (job ∷ jobs) outcome w id h p =
      let rest =
        run_undos_all jobs (λ k. outcome (suc k)) (execute host (undo_for job) (outcome 0) w) id
          (λ k. h (suc k)) in
      rw (h 0, run_undos)
        (elim (Bool-cases (has_id id job)) [
          | inl same ↦ rw same refl
          | inr other ↦ rw other (rest (rw other at p))
        ])

  recover_all_all :
      (jobs : List FaultJob) (outcome : ℕ → Outcome) (w : World host)
      → AllLand outcome
      → (recover_all host (undos_of jobs) outcome w).retained ≡ []
  unfolding recover_all
  recover_all_all [] outcome w h = refl
  recover_all_all (job ∷ jobs) outcome w h =
      rw (h 0, recover_all)
        (recover_all_all jobs (λ k. outcome (suc k)) (execute host (undo_for job) (outcome 0) w)
          (λ k. h (suc k)))

  -- After a boot over a record that covers the lab, if it can be read, every undo lands and it can be saved,
  -- no fault is on anywhere and the record is empty.
  pub boot_restores :
      (script : Script) (w : World host)
      → IsSafe host short w
      → script.loads ≡ true
      → AllLand script.outcome
      → script.first_save ≡ true
      → let after = (boot_cleanup_locked host script w).world in
        (after.jobs ≡ [])
        × ((c : String) (cls : FaultClass) → afflicted host short cls after.lab c ≡ false)
  unfolding boot_cleanup_locked plan_boot_recovery
  boot_restores script w h loads land saves = rw (boot_cleanup_locked, loads, saves) (done, off)
    where
      order : List FaultJob
      order = sort_jobs w.jobs

      done : (recover_all host (undos_of (sort_jobs w.jobs)) script.outcome w).retained ≡ []
      done = recover_all_all order script.outcome w land

      off :
          (c : String) (cls : FaultClass)
          → afflicted host short cls
              (recover_all host (undos_of (sort_jobs w.jobs)) script.outcome w).world.lab
              c
            ≡ false
      off c cls =
          elim (Bool-cases (
            afflicted host short cls
              (recover_all host (undos_of (sort_jobs w.jobs)) script.outcome w).world.lab c)) [
                | inr is_off ↦ is_off
                | inl on ↦
                    let covered =
                      any-sort_jobs (is_slot c cls) w.jobs
                      ∙ h.covers c cls
                          (recover_all_shrinks host short order script.outcome w c cls on) in
                    let kept =
                      recover_all-retained host short order script.outcome w c cls covered on in
                    absurd (cc (rw done at kept))
              ]

  -- A tick over a record that can be read ends the fault of every expired job and drops the job, if every
  -- undo lands and the record can be saved, under the hypotheses that the ids in the record were made by the wrapper and that
  -- the digest in them does not confuse containers.
  pub tick_restores :
      IsFaithful short
      → (now : ℕ) (script : Script) (w : World host) (j : FaultJob) → All (IsMinted short) w.jobs
      → AllLand script.outcome
      → script.first_save ≡ true
      → Memᴰ j w.jobs
      → is_expired now j ≡ true
      → let after = (tick_locked host now script w).world in
        (afflicted host short (fault_class_of j) after.lab j.container ≡ false)
        × (any (has_id j.job_id) after.jobs ≡ false)
  unfolding tick_locked plan_sweep
  tick_restores faithful now script w j ms land saves member expired =
      go (sort_jobs (filter (is_expired now) w.jobs)) refl
    where
      due : any (has_id j.job_id) (sort_jobs (filter (is_expired now) w.jobs)) ≡ true
      due =
          any-sort_jobs (has_id j.job_id) (filter (is_expired now) w.jobs)
          ∙ any-both (has_id j.job_id) (is_expired now) w.jobs (
              any-member (λ i. has_id j.job_id i && is_expired now i) j w.jobs member
                (let e = eq_refl j.job_id in ground arith))

      minted : All (IsMinted short) (sort_jobs (filter (is_expired now) w.jobs))
      minted =
          All-sort_jobs (IsMinted short) (filter (is_expired now) w.jobs)
            (All-filter (IsMinted short) (is_expired now) w.jobs ms)

      go :
          (jobs : List FaultJob)
          → sort_jobs (filter (is_expired now) w.jobs) ≡ jobs
          → let after = (tick_locked host now script w).world in
            (afflicted host short (fault_class_of j) after.lab j.container ≡ false)
            × (any (has_id j.job_id) after.jobs ≡ false)
      go [] e = absurd (cc (rw e at due))
      go (job ∷ jobs) e =
          let undone = run_undos_all (job ∷ jobs) script.outcome w j.job_id land (rw e at due) in
          let m : IsMinted short j = All-member (IsMinted short) w.jobs ms member in
          rw (e, saves, tick_locked)
            (
              run_undos_cleared host short faithful j m (job ∷ jobs) (rw e at minted) script.outcome
                  w undone,
              any-dropped (run_undos host (undos_of (job ∷ jobs)) script.outcome w).succeeded
                  j.job_id (run_undos host (undos_of (job ∷ jobs)) script.outcome w).world.jobs
                  undone,
            )
