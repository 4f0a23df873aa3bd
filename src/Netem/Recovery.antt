-- ===== src/Netem/Recovery.antt =====
-- `tickLocked` and `clearLocked` of server/src/simulator/netemRunner.ts: the record without the jobs whose undo
-- has landed.
use mathlib.Core.Path.{subst₂}
use devnet_deftrack.Common.{
  ℕ, ◌≡◌, inl, inr, refl, String, true, false, not, some, List, [], ◌∷◌, arith, All, eq_iff, filter,
  find, Bool-cases, All-filter, All-implies, subst, any-filter, sym, ◌∙◌, Option-cases,
}
use devnet_deftrack.Netem.{FaultClass, FaultJob, Preimage, undo_for}
use devnet_deftrack.Netem.Slots.{IsMinted, IsFaithful, id-slot}
use devnet_deftrack.Netem.Plans.{
  is_slot, without_id, has_id, sort_jobs, is_expired, plan_sweep, plan_clear,
}
use devnet_deftrack.Netem.Runner.{
  LabHost, World, Outcome, Script, landed, execute, and_then, run_actions, run_undos, has, save,
  tick_locked, clear_locked,
}
use devnet_deftrack.Netem.Superset.{
  is_slot_iff, afflicted, IsSafe, RunsSafe, saved-RunsSafe, execute-IsSafe, execute-same_jobs,
}
use devnet_deftrack.Netem.Sorting.{All-sort_jobs}
use devnet_deftrack.Netem.Undo.{
  undo-IsRecorded, undos_of, run_undos_shrinks, run_undos-same_jobs, run_undos-visited,
  run_undos_cleared, landed_clears, undo_shrinks,
}

module _ (host : LabHost) (short : Preimage → String) (faithful : IsFaithful short) where
  -- Dropping the jobs whose undo has landed leaves a record that covers the lab.
  undone-IsSafe :
      (jobs : List FaultJob) (outcome : ℕ → Outcome) (w : World host)
      → IsSafe host short w
      → All (IsMinted short) jobs
      → let undone = run_undos host (undos_of jobs) outcome w in
        IsSafe host short (record (undone.world) {
          jobs = filter (λ job. not (has undone.succeeded job.job_id)) w.jobs;
        })
  undone-IsSafe jobs outcome w h ms =
      let undone = run_undos host (undos_of jobs) outcome w in
      record {
        covers = λ c cls on.
            any-filter (is_slot c cls) (λ j. has undone.succeeded j.job_id) w.jobs
              (All-implies (IsMinted short) _ (λ j m. still_on c cls on j m) w.jobs h.minted)
              (h.covers c cls (run_undos_shrinks host short jobs outcome w c cls on));
        minted =
            All-filter (IsMinted short) (λ j. not (has undone.succeeded j.job_id)) w.jobs h.minted;
      }
    where
      last : host.Lab
      last = (run_undos host (undos_of jobs) outcome w).world.lab

      still_on :
          (c : String) (cls : FaultClass)
          → afflicted host short cls (run_undos host (undos_of jobs) outcome w).world.lab c ≡ true
          → (j : FaultJob) → IsMinted short j
          → is_slot c cls j ≡ true
          → has (run_undos host (undos_of jobs) outcome w).succeeded j.job_id ≡ false
      still_on c cls on j m slot =
          elim (Bool-cases (has (run_undos host (undos_of jobs) outcome w).succeeded j.job_id)) [
            | inl undone ↦
                let off = run_undos_cleared host short faithful j m jobs ms outcome w undone in
                let (a, b) = (is_slot_iff c cls j).0 slot in
                let off' = subst₂ (λ x y. afflicted host short y last x ≡ false) a b off in
                absurd (cc)
            | inr kept ↦ kept
          ]

  pub tick_locked-RunsSafe :
      (now : ℕ) (script : Script) (w : World host)
      → IsSafe host short w
      → RunsSafe host short (tick_locked host now script w)
  unfolding tick_locked plan_sweep
  tick_locked-RunsSafe now script w h = go (sort_jobs (filter (is_expired now) w.jobs)) minted refl
    where
      minted : All (IsMinted short) (sort_jobs (filter (is_expired now) w.jobs))
      minted =
          All-sort_jobs (IsMinted short) (filter (is_expired now) w.jobs)
            (All-filter (IsMinted short) (is_expired now) w.jobs h.minted)

      go :
          (due : List FaultJob)
          → All (IsMinted short) due
          → sort_jobs (filter (is_expired now) w.jobs) ≡ due
          → RunsSafe host short (tick_locked host now script w)
      go [] ms e = rw (e, tick_locked) (tt, h)
      go (job ∷ jobs) ms e =
          let undone = run_undos host (undos_of (job ∷ jobs)) script.outcome w in
          let (seen, last) = run_undos-visited host short (job ∷ jobs) script.outcome w h in
          let kept = filter (λ j. not (has undone.succeeded j.job_id)) undone.world.jobs in
          rw (e, tick_locked)
            (saved-RunsSafe host short undone.visited script.first_save kept undone.world seen last
              (subst
                (λ js. IsSafe host short (record (undone.world) {
                  jobs = filter (λ j. not (has undone.succeeded j.job_id)) js;
                }))
                (sym (run_undos-same_jobs host short (job ∷ jobs) script.outcome w))
                (undone-IsSafe (job ∷ jobs) script.outcome w h ms)))

  -- Dropping a job whose undo has landed leaves a record that covers the lab.
  dropped-IsSafe :
      (job : FaultJob) (o : Outcome) (w : World host)
      → IsSafe host short w
      → IsMinted short job
      → landed o ≡ true
      → let next = execute host (undo_for job) o w in
        IsSafe host short (record next { jobs = without_id job.job_id w.jobs })
  dropped-IsSafe job o w h m done = record {
    covers = λ c cls on.
        any-filter (is_slot c cls) (has_id job.job_id) w.jobs
          (All-implies (IsMinted short) _ (λ j n. other_job c cls on j n) w.jobs h.minted)
          (h.covers c cls (undo_shrinks host short job o w c cls on));
    minted = All-filter (IsMinted short) (λ j. not (has_id job.job_id j)) w.jobs h.minted;
  }
    where
      other_job :
          (c : String) (cls : FaultClass)
          → afflicted host short cls (execute host (undo_for job) o w).lab c ≡ true
          → (j : FaultJob) → IsMinted short j
          → is_slot c cls j ≡ true
          → has_id job.job_id j ≡ false
      other_job c cls on j n slot = elim (Bool-cases (has_id job.job_id j)) [
        | inr other ↦ other
        | inl same ↦
            let (a, b) = (is_slot_iff c cls j).0 slot in
            let (a', b') =
              id-slot short faithful job j m n (sym ((eq_iff j.job_id job.job_id).0 same)) in
            let off =
              subst₂ (λ x y. afflicted host short y (execute host (undo_for job) o w).lab x ≡ false)
                (a' ∙ a) (b' ∙ b) (landed_clears host short job o w done) in
            absurd (cc)
      ]

  cleared-RunsSafe :
      (job : FaultJob) (script : Script) (w : World host)
      → IsSafe host short w
      → IsMinted short job
      → RunsSafe host short (
          and_then host
            (run_actions host (undo_for job ∷ []) script.outcome w)
            (λ fresh. save host script.first_save (without_id job.job_id fresh.jobs) fresh))
  unfolding run_actions
  cleared-RunsSafe job script w h m =
      let next = execute host (undo_for job) (script.outcome 0) w in
      let safe =
        execute-IsSafe host short (undo_for job) (script.outcome 0) w h
          (undo-IsRecorded host short w.jobs job) in
      let same = execute-same_jobs host short (undo_for job) (script.outcome 0) w in
      elim (Bool-cases (landed (script.outcome 0))) [
        | inr failed ↦ rw failed ((safe, tt), safe)
        | inl done ↦ rw done (
            saved-RunsSafe host short (next ∷ []) script.first_save
              (without_id job.job_id next.jobs) next (safe, tt) safe
              (subst (λ js. IsSafe host short (record next { jobs = without_id job.job_id js }))
                (sym same) (dropped-IsSafe job (script.outcome 0) w h m done)))
      ]

  find-same :
      (id : String) (jobs : List FaultJob) (job : FaultJob)
      → find (has_id id) jobs ≡ some job
      → All (IsMinted short) jobs
      → (job.job_id ≡ id) × IsMinted short job
  find-same id [] job e ms = cc
  find-same id (first ∷ jobs) job e (m, ms) = elim (Bool-cases (has_id id first)) [
    | inl same ↦
        let is_first : first ≡ job = ground arith in
        subst (λ j. (j.job_id ≡ id) × IsMinted short j) is_first
          ((eq_iff first.job_id id).0 same, m)
    | inr other ↦ find-same id jobs job (rw other at e) ms
  ]

  pub clear_locked-RunsSafe :
      (id : String) (script : Script) (w : World host)
      → IsSafe host short w
      → RunsSafe host short (clear_locked host id script w)
  unfolding clear_locked plan_clear
  clear_locked-RunsSafe id script w h = elim (Option-cases (find (has_id id) w.jobs)) [
    | inl missing ↦ rw (missing, clear_locked) (tt, h)
    | inr (job, found) ↦
        let (same, m) = find-same id w.jobs job found h.minted in
        rw (found, clear_locked)
          (subst
            (λ x. RunsSafe host short (
              and_then host (run_actions host (undo_for job ∷ []) script.outcome w)
                (λ fresh. save host script.first_save (without_id x fresh.jobs) fresh)))
            same (cleared-RunsSafe job script w h m))
  ]
