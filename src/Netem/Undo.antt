-- ===== src/Netem/Undo.antt =====
-- What the undo of jobs (server/src/simulator/netemRunner.ts) does to the lab and to its cover.
use mathlib.Core.Path.{subst₂}
use devnet_deftrack.Common.{
  ℕ, suc, ◌≡◌, inl, inr, refl, String, Bool, true, false, none, List, [], ◌∷◌, map, arith, All,
  eq_iff, Bool-cases, ◌∙◌,
}
use devnet_deftrack.Netem.{
  FaultClass, FaultJob, JobUndo, Preimage, fault_class_of, undo_for, tc_clear_args,
}
use devnet_deftrack.Netem.Slots.{IsMinted, IsFaithful, id-slot}
use devnet_deftrack.Netem.Plans.{has_id, undo_job}
use devnet_deftrack.Netem.Runner.{
  LabHost, World, Outcome, lands, fails, fails_late, landed, execute, run_undos, has,
}
use devnet_deftrack.Netem.Superset.{
  afflicted, afflicts, afflicted_by, IsSafe, IsRecorded, execute-IsSafe, execute-same_jobs,
}

-- An undo puts nothing on.
pub undo_for-afflicts :
    (host : LabHost) (short : Preimage → String) (job : FaultJob) (cls : FaultClass)
    → afflicts host short (undo_for job) cls ≡ none
unfolding undo_for
undo_for-afflicts host short job FaultClass.netem = ground arith
undo_for-afflicts host short job FaultClass.service = ground arith
undo_for-afflicts host short job FaultClass.dsl = refl

-- The undos of a list of jobs, with the jobs at hand.
abbrev pub undos_of : List FaultJob → List JobUndo
undos_of jobs = map undo_job jobs

pub false_of_shrinks : {a b : Bool} → (b ≡ true → a ≡ true) → a ≡ false → b ≡ false
false_of_shrinks {a} {b} f h = elim (Bool-cases b) [ inl on ↦ let k = f on in cc | inr off ↦ off ]

module _ (host : LabHost) (short : Preimage → String) where
  open host use {Lab, perform}

  pub undo-IsRecorded :
      (jobs : List FaultJob) (job : FaultJob) → IsRecorded host short jobs (undo_for job)
  undo-IsRecorded jobs job c cls e = let n = undo_for-afflicts host short job cls in cc

  -- What is on after an undo was on before.
  pub undo_shrinks :
      (job : FaultJob) (o : Outcome) (w : World host) (c : String) (cls : FaultClass)
      → afflicted host short cls (execute host (undo_for job) o w).lab c ≡ true
      → afflicted host short cls w.lab c ≡ true
  undo_shrinks job lands w c cls on = elim (afflicted_by host short cls (undo_for job) w.lab c on) [
    | inl before ↦ before
    | inr now ↦ let n = undo_for-afflicts host short job cls in cc
  ]
  undo_shrinks job fails w c cls on = on
  undo_shrinks job fails_late w c cls on =
      elim (afflicted_by host short cls (undo_for job) w.lab c on) [
        | inl before ↦ before
        | inr now ↦ let n = undo_for-afflicts host short job cls in cc
      ]

  -- The undo of a job turns its fault off.
  undo_clears :
      (job : FaultJob) (cls : FaultClass) (l : Lab)
      → fault_class_of job ≡ cls
      → afflicted host short cls (perform (undo_for job) l) job.container ≡ false
  unfolding undo_for
  undo_clears job FaultClass.netem l e =
      rw (e, undo_for) (host.clear_undoes job.container tc_clear_args l)
  undo_clears job FaultClass.service l e = rw (e, undo_for) (host.start_undoes job.container l)
  undo_clears job FaultClass.dsl l e = refl

  pub run_undos_shrinks :
      (jobs : List FaultJob) (outcome : ℕ → Outcome) (w : World host) (c : String)
      (cls : FaultClass)
      → afflicted host short cls (run_undos host (undos_of jobs) outcome w).world.lab c ≡ true
      → afflicted host short cls w.lab c ≡ true
  unfolding run_undos
  run_undos_shrinks [] outcome w c cls on = on
  run_undos_shrinks (job ∷ jobs) outcome w c cls on = undo_shrinks job (outcome 0) w c cls (
      run_undos_shrinks jobs (λ k. outcome (suc k)) (execute host (undo_for job) (outcome 0) w) c
        cls
        (elim (Bool-cases (landed (outcome 0))) [
          | inl done ↦ rw (done, run_undos) at on
          | inr failed ↦ rw (failed, run_undos) at on
        ]))

  pub run_undos-same_jobs :
      (jobs : List FaultJob) (outcome : ℕ → Outcome) (w : World host)
      → (run_undos host (undos_of jobs) outcome w).world.jobs ≡ w.jobs
  unfolding run_undos
  run_undos-same_jobs [] outcome w = refl
  run_undos-same_jobs (job ∷ jobs) outcome w =
      let rest =
        run_undos-same_jobs jobs (λ k. outcome (suc k))
          (execute host (undo_for job) (outcome 0) w) in
      let same = execute-same_jobs host short (undo_for job) (outcome 0) w in
      elim (Bool-cases (landed (outcome 0))) [
        | inl done ↦ rw (done, run_undos) (rest ∙ same)
        | inr failed ↦ rw (failed, run_undos) (rest ∙ same)
      ]

  pub run_undos-visited :
      (jobs : List FaultJob) (outcome : ℕ → Outcome) (w : World host)
      → IsSafe host short w
      → All (IsSafe host short) (run_undos host (undos_of jobs) outcome w).visited
        × IsSafe host short (run_undos host (undos_of jobs) outcome w).world
  unfolding run_undos
  run_undos-visited [] outcome w h = (tt, h)
  run_undos-visited (job ∷ jobs) outcome w h =
      let next = execute host (undo_for job) (outcome 0) w in
      let safe =
        execute-IsSafe host short (undo_for job) (outcome 0) w h (undo-IsRecorded w.jobs job) in
      let (seen, last) = run_undos-visited jobs (λ k. outcome (suc k)) next safe in
      elim (Bool-cases (landed (outcome 0))) [
        | inl done ↦ rw (done, run_undos) ((safe, seen), last)
        | inr failed ↦ rw (failed, run_undos) ((safe, seen), last)
      ]

  pub landed_clears :
      (job : FaultJob) (o : Outcome) (w : World host)
      → landed o ≡ true
      → afflicted host short
          (fault_class_of job)
          (execute host (undo_for job) o w).lab
          job.container
        ≡ false
  landed_clears job lands w h = undo_clears job (fault_class_of job) w.lab refl
  landed_clears job fails w h = cc
  landed_clears job fails_late w h = cc

  -- A fault is off in the end if the undo of a job of the same id has landed.
  pub run_undos_cleared :
      IsFaithful short
      → (j : FaultJob) → IsMinted short j
      → (jobs : List FaultJob) → All (IsMinted short) jobs
      → (outcome : ℕ → Outcome) (w : World host)
      → has (run_undos host (undos_of jobs) outcome w).succeeded j.job_id ≡ true
      → afflicted host short
          (fault_class_of j)
          (run_undos host (undos_of jobs) outcome w).world.lab
          j.container
        ≡ false
  unfolding run_undos
  run_undos_cleared faithful j m [] ms outcome w p = cc
  run_undos_cleared faithful j m (job ∷ jobs) (n, ns) outcome w p =
      let next = execute host (undo_for job) (outcome 0) w in
      let rest = run_undos_cleared faithful j m jobs ns (λ k. outcome (suc k)) next in
      elim (Bool-cases (landed (outcome 0))) [
        | inr failed ↦ rw (failed, run_undos) (rest (rw (failed, run_undos) at p))
        | inl done ↦
            rw (done, run_undos)
              (elim (Bool-cases (has_id j.job_id job)) [
                | inl same ↦
                    let (c, cls) =
                      id-slot short faithful job j n m ((eq_iff job.job_id j.job_id).0 same) in
                    false_of_shrinks
                      (run_undos_shrinks jobs (λ k. outcome (suc k)) next j.container
                        (fault_class_of j))
                      (subst₂ (λ x y. afflicted host short y next.lab x ≡ false) c cls
                        (landed_clears job (outcome 0) w done))
                | inr other ↦ let q = rw (done, run_undos) at p in rest (ground arith)
              ])
      ]
