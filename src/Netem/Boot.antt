-- ===== src/Netem/Boot.antt =====
-- `bootCleanupLocked` of server/src/simulator/netemRunner.ts: what it retains, over a record that can be read or not.
use mathlib.Core.Path.{subst₂}
use devnet_deftrack.Common.{
  ℕ, suc, ◌≡◌, inl, inr, refl, String, true, false, List, [], ◌∷◌, All, Bool-cases, ◌∙◌,
}
use devnet_deftrack.Netem.{FaultClass, FaultJob, Preimage, undo_for}
use devnet_deftrack.Netem.Slots.{IsMinted}
use devnet_deftrack.Netem.Plans.{is_slot, sort_jobs, plan_boot_recovery}
use devnet_deftrack.Netem.Runner.{
  LabHost, World, Outcome, Script, landed, execute, recover_all, boot_cleanup_locked,
}
use devnet_deftrack.Netem.Superset.{
  is_covered, is_slot_iff, afflicted, IsSafe, RunsSafe, saved-RunsSafe, execute-IsSafe,
}
use devnet_deftrack.Netem.Sorting.{any-sort_jobs, All-sort_jobs}
use devnet_deftrack.Netem.Undo.{undo-IsRecorded, undos_of, landed_clears, undo_shrinks}

module _ (host : LabHost) (short : Preimage → String) where
  recover_all-visited :
      (jobs : List FaultJob) (outcome : ℕ → Outcome) (w : World host)
      → IsSafe host short w
      → let r = recover_all host (undos_of jobs) outcome w in
        All (IsSafe host short) r.visited × IsSafe host short r.world
  unfolding recover_all
  recover_all-visited [] outcome w h = (tt, h)
  recover_all-visited (job ∷ jobs) outcome w h =
      let next = execute host (undo_for job) (outcome 0) w in
      let safe =
        execute-IsSafe host short (undo_for job) (outcome 0) w h
          (undo-IsRecorded host short w.jobs job) in
      let (seen, last) = recover_all-visited jobs (λ k. outcome (suc k)) next safe in
      elim (Bool-cases (landed (outcome 0))) [
        | inl done ↦ rw (done, recover_all) ((safe, seen), last)
        | inr failed ↦ rw (failed, recover_all) ((safe, seen), last)
      ]

  pub recover_all_shrinks :
      (jobs : List FaultJob) (outcome : ℕ → Outcome) (w : World host) (c : String)
      (cls : FaultClass)
      → afflicted host short cls (recover_all host (undos_of jobs) outcome w).world.lab c ≡ true
      → afflicted host short cls w.lab c ≡ true
  unfolding recover_all
  recover_all_shrinks [] outcome w c cls on = on
  recover_all_shrinks (job ∷ jobs) outcome w c cls on =
      undo_shrinks host short job (outcome 0) w c cls (
        recover_all_shrinks jobs (λ k. outcome (suc k)) (execute host (undo_for job) (outcome 0) w)
          c cls
          (elim (Bool-cases (landed (outcome 0))) [
            | inl done ↦ rw (done, recover_all) at on
            | inr failed ↦ rw (failed, recover_all) at on
          ]))

  -- What is still on after the recovery and had a job has a retained one.
  pub recover_all-retained :
      (jobs : List FaultJob) (outcome : ℕ → Outcome) (w : World host) (c : String)
      (cls : FaultClass)
      → is_covered jobs c cls ≡ true
      → let r = recover_all host (undos_of jobs) outcome w in
        afflicted host short cls r.world.lab c ≡ true → is_covered r.retained c cls ≡ true
  unfolding recover_all
  recover_all-retained [] outcome w c cls covered on = covered
  recover_all-retained (job ∷ jobs) outcome w c cls covered on =
      let next = execute host (undo_for job) (outcome 0) w in
      let rest = recover_all-retained jobs (λ k. outcome (suc k)) next c cls in
      let shrinks = recover_all_shrinks jobs (λ k. outcome (suc k)) next c cls in
      elim (Bool-cases (landed (outcome 0))) [
        | inl done ↦
            let still = rw (done, recover_all) at on in
            rw (done, recover_all)
              (elim (Bool-cases (is_slot c cls job)) [
                | inr other ↦ rest (rw other at covered) still
                | inl slot ↦
                    let (a, b) = (is_slot_iff c cls job).0 slot in
                    let off =
                      subst₂ (λ x y. afflicted host short y next.lab x ≡ false) a b
                        (landed_clears host short job (outcome 0) w done) in
                    let on' = shrinks still in absurd (cc)
              ])
        | inr failed ↦
            let still = rw (failed, recover_all) at on in
            rw (failed, recover_all)
              (elim (Bool-cases (is_slot c cls job)) [
                | inl slot ↦ rw slot refl
                | inr other ↦ rw other (rest (rw other at covered) still)
              ])
      ]

  recover_all-IsMinted :
      (jobs : List FaultJob) (outcome : ℕ → Outcome) (w : World host)
      → All (IsMinted short) jobs
      → All (IsMinted short) (recover_all host (undos_of jobs) outcome w).retained
  unfolding recover_all
  recover_all-IsMinted [] outcome w ms = tt
  recover_all-IsMinted (job ∷ jobs) outcome w (m, ms) =
      let rest =
        recover_all-IsMinted jobs (λ k. outcome (suc k)) (execute host (undo_for job) (outcome 0) w)
          ms in
      elim (Bool-cases (landed (outcome 0))) [
        | inl done ↦ rw (done, recover_all) rest
        | inr failed ↦
            rw (failed, recover_all)
              (record { preimage = m.preimage; job_id = m.job_id; container = m.container }, rest)
      ]

  pub boot_cleanup_locked-RunsSafe :
      (script : Script) (w : World host)
      → script.loads ≡ true
      → IsSafe host short w
      → RunsSafe host short (boot_cleanup_locked host script w)
  unfolding boot_cleanup_locked plan_boot_recovery
  boot_cleanup_locked-RunsSafe script w loads h =
      rw (boot_cleanup_locked, loads)
        (let order = sort_jobs w.jobs in
          let r = recover_all host (undos_of order) script.outcome w in
          let (seen, last) = recover_all-visited order script.outcome w h in
          saved-RunsSafe host short r.visited script.first_save r.retained r.world seen last
            (record {
              covers = λ c cls on.
                  recover_all-retained order script.outcome w c cls
                    (any-sort_jobs (is_slot c cls) w.jobs
                      ∙ h.covers c cls (recover_all_shrinks order script.outcome w c cls on))
                    on;
              minted =
                  recover_all-IsMinted order script.outcome w
                    (All-sort_jobs (IsMinted short) w.jobs h.minted);
            }))

  -- A boot whose record cannot be read, but can be saved, leaves an empty record over a lab in which every fault
  -- that was on is still on.
  pub boot_unreadable :
      (script : Script) (w : World host)
      → script.loads ≡ false
      → script.first_save ≡ true
      → let after = (boot_cleanup_locked host script w).world in
        (after.jobs ≡ [])
        × ((c : String) (cls : FaultClass)
            → afflicted host short cls after.lab c ≡ afflicted host short cls w.lab c)
  unfolding boot_cleanup_locked plan_boot_recovery recover_all
  boot_unreadable script w fails saves =
      rw (boot_cleanup_locked, fails, saves) (refl, λ c cls. refl)
