-- ===== src/Netem/Sorting.antt =====
-- `byUndoRank` of server/src/simulator/netemLease.ts: the order in which jobs are undone.
use devnet_deftrack.Common.{
  ◌≡◌, inl, inr, refl, Bool, ◌||◌, List, [], ◌∷◌, arith, All, any, Bool-cases, leb,
}
use devnet_deftrack.Netem.{FaultJob, fault_class_of, undo_rank}
use devnet_deftrack.Netem.Plans.{sort_jobs, insert_job}

any-insert_job :
    (test : FaultJob → Bool) (job : FaultJob) (jobs : List FaultJob)
    → any test (insert_job job jobs) ≡ (test job || any test jobs)
unfolding insert_job
any-insert_job test job [] = refl
any-insert_job test job (other ∷ jobs) = ground (arith, any-insert_job test job jobs)

-- Sorting neither loses nor adds a job.
pub any-sort_jobs :
    (test : FaultJob → Bool) (jobs : List FaultJob) → any test (sort_jobs jobs) ≡ any test jobs
unfolding sort_jobs
any-sort_jobs test [] = refl
any-sort_jobs test (job ∷ jobs) =
    let a = any-insert_job test job (sort_jobs jobs) in
    let b = any-sort_jobs test jobs in rw a (rw b)

module _ {κ} (Good : FaultJob → Type κ) where
  pub All-insert_job :
      (job : FaultJob) (jobs : List FaultJob)
      → Good job
      → All Good jobs
      → All Good (insert_job job jobs)
  unfolding insert_job
  All-insert_job job [] g h = (g, tt)
  All-insert_job job (other ∷ jobs) g (k, h) =
      elim (Bool-cases (leb (undo_rank (fault_class_of job)) (undo_rank (fault_class_of other)))) [
        | inl first ↦ rw first (g, (k, h))
        | inr later ↦ rw later (k, All-insert_job job jobs g h)
      ]

  pub All-sort_jobs : (jobs : List FaultJob) → All Good jobs → All Good (sort_jobs jobs)
  unfolding sort_jobs
  All-sort_jobs [] h = tt
  All-sort_jobs (job ∷ jobs) (g, h) = All-insert_job job (sort_jobs jobs) g (All-sort_jobs jobs h)
