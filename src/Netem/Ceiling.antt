-- ===== src/Netem/Ceiling.antt =====
-- The leases of records and the plans of server/src/simulator/netemLease.ts.
use devnet_deftrack.Common.{
  ℕ, suc, ◌≤◌, ◌≡◌, inl, inr, refl, String, Bool, true, false, List, [], ◌∷◌, ◌++◌, filter, leb,
  Result, ok, err, Result-cases, arith, All, All-append, All-filter, Bool-cases, sym, subst, find,
}
use devnet_deftrack.Netem.{
  FaultJob, FaultAction, NetemSpec, DslFaultSpec, Plan, Preimage, FaultClass,
}
use devnet_deftrack.Netem.Args.{FaultError, assert_dsl_fault_spec}
use devnet_deftrack.Netem.Plans.{
  plan_apply, plan_service_stop, plan_dsl_set, with_dsl_fault_id, with_id, dsl_job_id, tc_vectors,
  is_slot, is_current, is_armed, has_id, netem_job_id, service_job_id,
}
use devnet_deftrack.Netem.Runner.{
  LabHost, World, Ran, Outcome, lands, fails, fails_late, landed, execute, save, and_then,
  run_actions,
}

-- Every lease of a record ends by an instant.
abbrev pub EndsBy : ℕ → List FaultJob → Type 0
EndsBy limit jobs = All (λ job. job.expires_at_ms ≤ limit) jobs

module _ (limit : ℕ) where
  added-EndsBy :
      (keep : FaultJob → Bool) (jobs : List FaultJob) (job : FaultJob)
      → EndsBy limit jobs
      → job.expires_at_ms ≤ limit
      → EndsBy limit (filter keep jobs ++ job ∷ [])
  added-EndsBy keep jobs job h l =
      All-append (λ j. j.expires_at_ms ≤ limit) (filter keep jobs) (job ∷ [])
        (All-filter (λ j. j.expires_at_ms ≤ limit) keep jobs h) (l, tt)

  pub with_dsl_fault_id-EndsBy :
      (jobs : List FaultJob) (id fault_id : String)
      → EndsBy limit jobs
      → EndsBy limit (with_dsl_fault_id jobs id fault_id)
  unfolding with_dsl_fault_id with_id
  with_dsl_fault_id-EndsBy [] id fault_id h = tt
  with_dsl_fault_id-EndsBy (job ∷ jobs) id fault_id (h, hs) =
      (ground arith, with_dsl_fault_id-EndsBy jobs id fault_id hs)

  -- What a plan that is not refused would store.
  abbrev pub PlanEndsBy : Result FaultError Plan → Type 0
  PlanEndsBy (err e) = Unit
  PlanEndsBy (ok plan) = EndsBy limit plan.jobs

  module _ (short : Preimage → String) (jobs : List FaultJob) (h : EndsBy limit jobs) where
    pub plan_apply-EndsBy :
        (spec : NetemSpec) (tag : String) (now lease : ℕ)
        → lease ≤ limit
        → PlanEndsBy (plan_apply short jobs spec tag now lease)
    unfolding plan_apply
    plan_apply-EndsBy spec tag now lease l = elim (Bool-cases (leb lease now)) [
      | inl spent ↦ rw (plan_apply, spent) tt
      | inr fresh ↦
          elim (Bool-cases (
            is_current (find (is_slot spec.container FaultClass.netem) jobs)
              (netem_job_id short tag spec) now)) [
                | inl current ↦ rw (plan_apply, fresh, current) h
                | inr other ↦ elim (Result-cases (tc_vectors spec.kind spec)) [
                  | inl (e, bad) ↦ rw (plan_apply, fresh, other, bad) tt
                  | inr (vectors, good) ↦
                      rw (plan_apply, fresh, other, good) (added-EndsBy _ jobs _ h l)
                ]
              ]
    ]

    pub plan_service_stop-EndsBy :
        (container tag : String) (now lease : ℕ)
        → lease ≤ limit
        → PlanEndsBy (plan_service_stop short jobs container tag now lease)
    unfolding plan_service_stop
    plan_service_stop-EndsBy container tag now lease l = elim (Bool-cases (leb lease now)) [
      | inl spent ↦ rw (plan_service_stop, spent) tt
      | inr fresh ↦
          elim (Bool-cases (
            is_current (find (is_slot container FaultClass.service) jobs)
              (service_job_id short tag container) now)) [
                | inl current ↦ rw (plan_service_stop, fresh, current) h
                | inr other ↦ rw (plan_service_stop, fresh, other) (added-EndsBy _ jobs _ h l)
              ]
    ]

    pub plan_dsl_set-EndsBy :
        (spec : DslFaultSpec) (tag : String) (now lease : ℕ)
        → lease ≤ limit
        → PlanEndsBy (plan_dsl_set short jobs spec tag now lease)
    unfolding plan_dsl_set
    plan_dsl_set-EndsBy spec tag now lease l = elim (Result-cases (assert_dsl_fault_spec spec)) [
      | inl (e, bad) ↦ rw (plan_dsl_set, bad) tt
      | inr (fine, good) ↦ elim (Bool-cases (leb lease now)) [
        | inl spent ↦ rw (plan_dsl_set, good, spent) tt
        | inr fresh ↦
            elim (Bool-cases (
              is_armed (find (has_id (dsl_job_id short tag spec.container spec.fault_kind)) jobs)
                now)) [
                  | inl armed ↦ rw (plan_dsl_set, good, fresh, armed) h
                  | inr other ↦ rw (plan_dsl_set, good, fresh, other) (added-EndsBy _ jobs _ h l)
                ]
      ]
    ]

module _ (host : LabHost) (limit : ℕ) where
  -- Every world that is passed through, and the last, has a record whose leases end by the limit.
  abbrev pub RunsEndBy : Ran host → Type 0
  RunsEndBy ran = All (λ w. EndsBy limit w.jobs) ran.visited × EndsBy limit ran.world.jobs

  execute_jobs :
      (a : FaultAction) (o : Outcome) (w : World host) → (execute host a o w).jobs ≡ w.jobs
  execute_jobs a lands w = refl
  execute_jobs a fails w = refl
  execute_jobs a fails_late w = refl

  pub execute-EndsBy :
      (a : FaultAction) (o : Outcome) (w : World host)
      → EndsBy limit w.jobs
      → EndsBy limit (execute host a o w).jobs
  execute-EndsBy a o w h = subst (EndsBy limit) (sym (execute_jobs a o w)) h

  pub save-RunsEndBy :
      (saves : Bool) (jobs : List FaultJob) (w : World host)
      → EndsBy limit jobs
      → EndsBy limit w.jobs
      → RunsEndBy (save host saves jobs w)
  save-RunsEndBy true jobs w h k = ((h, tt), h)
  save-RunsEndBy false jobs w h k = (tt, k)

  pub and_then-RunsEndBy :
      (ran : Ran host) (rest : World host → Ran host)
      → RunsEndBy ran
      → ((w : World host) → EndsBy limit w.jobs → RunsEndBy (rest w))
      → RunsEndBy (and_then host ran rest)
  and_then-RunsEndBy ran rest (h, k) next = elim (Bool-cases ran.threw) [
    | inl threw ↦ rw threw (h, k)
    | inr going ↦
        let (more, last) = next ran.world k in
        rw going
          (All-append (λ w. EndsBy limit w.jobs) ran.visited (rest ran.world).visited h more, last)
  ]

  pub run_actions-RunsEndBy :
      (actions : List FaultAction) (outcome : ℕ → Outcome) (w : World host)
      → EndsBy limit w.jobs
      → RunsEndBy (run_actions host actions outcome w)
  unfolding run_actions
  run_actions-RunsEndBy [] outcome w h = (tt, h)
  run_actions-RunsEndBy (a ∷ actions) outcome w h =
      let next = execute-EndsBy a (outcome 0) w h in
      let (rest, last) =
        run_actions-RunsEndBy actions (λ k. outcome (suc k)) (execute host a (outcome 0) w) next in
      elim (Bool-cases (landed (outcome 0))) [
        | inl fine ↦ rw (run_actions, fine) ((next, rest), last)
        | inr bad ↦ rw (run_actions, bad) ((next, tt), next)
      ]
