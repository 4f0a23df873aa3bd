-- ===== src/Netem/Repeats.antt =====
-- server/src/simulator/netemLease.ts: a plan carried out twice, and the order of a sweep.
use mathlib.Core.List.Perm
use mathlib.Core.List.{Perm}
use devnet_deftrack.Common.{
  ℕ, ◌≡◌, ◌≤◌, inl, inr, refl, String, true, some, List, [], ◌∷◌, ◌++◌, map, arith, All,
  All-implies, Bool-cases, filter, find, leb, eq_refl, ok, Result-cases, subst, sym, ap,
}
use devnet_deftrack.Netem.{
  NetemSpec, FaultClass, FaultJob, Plan, Preimage, fault_class_of, undo_rank,
}
use devnet_deftrack.Netem.Plans.{
  is_slot, without_slot, is_current, netem_job, netem_job_id, service_job, service_job_id,
  plan_apply, plan_service_stop, nothing_to_do, tc_vectors, sort_jobs, insert_job, undo_job,
  is_expired, plan_sweep,
}
use devnet_deftrack.Netem.Sorting.{All-insert_job}
use devnet_deftrack.Netem.Superset.{is_slot_iff}

find-replaced :
    (c : String) (cls : FaultClass) (job : FaultJob) (jobs : List FaultJob)
    → is_slot c cls job ≡ true
    → find (is_slot c cls) (without_slot c cls jobs ++ job ∷ []) ≡ some job
find-replaced c cls job [] own = rw own refl
find-replaced c cls job (other ∷ jobs) own = elim (Bool-cases (is_slot c cls other)) [
  | inl same ↦ rw same (find-replaced c cls job jobs own)
  | inr apart ↦ rw (apart, apart) (find-replaced c cls job jobs own)
]

module _ (short : Preimage → String) where
  -- A composed fault that was planned is not applied again while its lease runs.
  pub plan_apply_twice :
      (jobs : List FaultJob) (spec : NetemSpec) (tag : String) (now expires : ℕ) (p : Plan)
      → plan_apply short jobs spec tag now expires ≡ ok p
      → plan_apply short p.jobs spec tag now expires ≡ ok (nothing_to_do p.jobs)
  unfolding plan_apply
  plan_apply_twice jobs spec tag now expires p e = elim (Bool-cases (leb expires now)) [
    | inl spent ↦ absurd (cc (rw (spent, plan_apply) at e))
    | inr open_lease ↦
        elim (Bool-cases (
          is_current (find (is_slot spec.container FaultClass.netem) jobs)
            (netem_job_id short tag spec) now)) [
              | inl current ↦
                  let q : p ≡ nothing_to_do jobs = ground arith in
                  subst
                    (λ r. plan_apply short r.jobs spec tag now expires ≡ ok (nothing_to_do r.jobs))
                    (sym q) (rw (open_lease, current, plan_apply) refl)
              | inr other ↦ elim (Result-cases (tc_vectors spec.kind spec)) [
                | inl (bad, q) ↦ absurd (ground arith)
                | inr (vectors, q) ↦
                    let job = netem_job short spec tag now expires in
                    let kept = without_slot spec.container FaultClass.netem jobs in
                    let same : p.jobs ≡ kept ++ job ∷ [] = ground arith in
                    let own = (is_slot_iff spec.container FaultClass.netem job).1 (refl, refl) in
                    let found = find-replaced spec.container FaultClass.netem job jobs own in
                    let id = eq_refl job.job_id in
                    subst (λ js. plan_apply short js spec tag now expires ≡ ok (nothing_to_do js))
                      (sym same) (rw (open_lease, found, plan_apply) (ground arith))
              ]
            ]
  ]

  pub plan_service_stop_twice :
      (jobs : List FaultJob) (c tag : String) (now expires : ℕ) (p : Plan)
      → plan_service_stop short jobs c tag now expires ≡ ok p
      → plan_service_stop short p.jobs c tag now expires ≡ ok (nothing_to_do p.jobs)
  unfolding plan_service_stop
  plan_service_stop_twice jobs c tag now expires p e = elim (Bool-cases (leb expires now)) [
    | inl spent ↦ absurd (ground arith)
    | inr open_lease ↦
        elim (Bool-cases (
          is_current (find (is_slot c FaultClass.service) jobs) (service_job_id short tag c) now)) [
            | inl current ↦
                let q : p ≡ nothing_to_do jobs = ground arith in
                subst
                  (λ r.
                    plan_service_stop short r.jobs c tag now expires ≡ ok (nothing_to_do r.jobs))
                  (sym q) (rw (open_lease, current, plan_service_stop) refl)
            | inr other ↦
                let job = service_job short c tag now expires in
                let kept = without_slot c FaultClass.service jobs in
                let same : p.jobs ≡ kept ++ job ∷ [] = ground arith in
                let own = (is_slot_iff c FaultClass.service job).1 (refl, refl) in
                let found = find-replaced c FaultClass.service job jobs own in
                let id = eq_refl job.job_id in
                subst (λ js. plan_service_stop short js c tag now expires ≡ ok (nothing_to_do js))
                  (sym same) (rw (open_lease, found, plan_service_stop) (ground arith))
          ]
  ]

-- The ranks go up along a list of jobs.
abbrev pub IsRanked : List FaultJob → Type 0
IsRanked [] = Unit
IsRanked (job ∷ jobs) =
    All (λ other. undo_rank (fault_class_of job) ≤ undo_rank (fault_class_of other)) jobs
    × IsRanked jobs

insert_job-IsRanked :
    (job : FaultJob) (jobs : List FaultJob) → IsRanked jobs → IsRanked (insert_job job jobs)
unfolding insert_job
insert_job-IsRanked job [] h = (tt, tt)
insert_job-IsRanked job (other ∷ jobs) (a, h) =
    elim (Bool-cases (leb (undo_rank (fault_class_of job)) (undo_rank (fault_class_of other)))) [
      | inl first ↦ rw first (
        (
          ground arith,
          All-implies (λ k. undo_rank (fault_class_of other) ≤ undo_rank (fault_class_of k)) _
              (λ k le. ground arith) jobs a,
        ),
        (a, h),
      )
      | inr later ↦
          rw later (All-insert_job _ job jobs (ground arith) a, insert_job-IsRanked job jobs h)
    ]

insert_job-Perm : (job : FaultJob) (jobs : List FaultJob) → Perm (insert_job job jobs) (job ∷ jobs)
unfolding insert_job
insert_job-Perm job [] = Perm.refl (job ∷ [])
insert_job-Perm job (other ∷ jobs) =
    elim (Bool-cases (leb (undo_rank (fault_class_of job)) (undo_rank (fault_class_of other)))) [
      | inl first ↦ rw first (Perm.refl (job ∷ other ∷ jobs))
      | inr later ↦
          rw later
            (Perm.trans (Perm.cons other (insert_job-Perm job jobs)) (Perm.swap job other jobs))
    ]

sort_jobs-IsRanked : (jobs : List FaultJob) → IsRanked (sort_jobs jobs)
unfolding sort_jobs
sort_jobs-IsRanked [] = tt
sort_jobs-IsRanked (job ∷ jobs) = insert_job-IsRanked job (sort_jobs jobs) (sort_jobs-IsRanked jobs)

sort_jobs-Perm : (jobs : List FaultJob) → Perm (sort_jobs jobs) jobs
unfolding sort_jobs
sort_jobs-Perm [] = Perm.refl []
sort_jobs-Perm (job ∷ jobs) =
    Perm.trans (insert_job-Perm job (sort_jobs jobs)) (Perm.cons job (sort_jobs-Perm jobs))

jobs_of_undos : (jobs : List FaultJob) → map (λ u. u.job) (map undo_job jobs) ≡ jobs
jobs_of_undos [] = refl
jobs_of_undos (job ∷ jobs) = ap (◌∷◌ job) (jobs_of_undos jobs)

-- A sweep undoes exactly the jobs whose lease has run out, those of the daemon's faults first, then
-- the stopped containers, then the impaired interfaces.
pub plan_sweep-IsRanked :
    (jobs : List FaultJob) (now : ℕ)
    → let swept = map (λ u. u.job) (plan_sweep jobs now) in
      Perm swept (filter (is_expired now) jobs) × IsRanked swept
unfolding plan_sweep
plan_sweep-IsRanked jobs now =
    let due = filter (is_expired now) jobs in
    rw (jobs_of_undos (sort_jobs due)) (sort_jobs-Perm due, sort_jobs-IsRanked due)
