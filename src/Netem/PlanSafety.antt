-- ===== src/Netem/PlanSafety.antt =====
-- The plans of server/src/simulator/netemLease.ts that put a fault on, and what their records cover.
use devnet_deftrack.Common.{
  ℕ, ◌≡◌, inl, inr, refl, String, true, not, Option, List, [], ◌∷◌, ◌++◌, map, arith, All, eq_iff,
  Bool-cases, All-append, All-filter, All-implies, ok, subst, any-append, any-replaced, sym, ◌∙◌,
  find, leb, Result-cases,
}
use devnet_deftrack.Netem.{
  NetemSpec, FaultClass, DslFaultSpec, FaultJob, apply, stop, dsl_set, Plan, Preimage, netem_of,
  service_of, dsl_of, fault_class_of,
}
use devnet_deftrack.Netem.Args.{assert_dsl_fault_spec}
use devnet_deftrack.Netem.Slots.{IsMinted, IsFaithful, id-slot}
use devnet_deftrack.Netem.Plans.{
  is_slot, without_slot, without_id, has_id, is_current, is_armed, tc_vectors, netem_job_id,
  service_job_id, dsl_job_id, netem_job, service_job, dsl_job, plan_apply, plan_service_stop,
  plan_dsl_set, with_dsl_fault_id, with_id, nothing_to_do,
}
use devnet_deftrack.Netem.Runner.{LabHost, World}
use devnet_deftrack.Netem.Superset.{
  is_covered, is_slot_iff, is_covered-replaced, IsSafe, IsRecorded, IsSafePlan,
}

is_covered-last :
    (jobs : List FaultJob) (job : FaultJob)
    → is_covered (jobs ++ job ∷ []) job.container (fault_class_of job) ≡ true
is_covered-last jobs job =
    let own = (is_slot_iff job.container (fault_class_of job) job).1 (refl, refl) in
    rw (any-append (is_slot job.container (fault_class_of job)) jobs (job ∷ [])) (ground arith)

module _ (host : LabHost) (short : Preimage → String) (w : World host)
    (h : IsSafe host short w) where
  IsSafePlan-nothing : IsSafePlan host short w (nothing_to_do w.jobs)
  IsSafePlan-nothing = record { saved = h; recorded = tt }

  -- Replacing the job of a slot is safe.
  replaced-IsSafe :
      (job : FaultJob)
      → IsMinted short job
      → IsSafe host short
          (record w { jobs = without_slot job.container (fault_class_of job) w.jobs ++ job ∷ [] })
  replaced-IsSafe job m = record {
    covers = λ c cls on. is_covered-replaced w.jobs job c cls (h.covers c cls on);
    minted =
        All-append (IsMinted short) (without_slot job.container (fault_class_of job) w.jobs)
          (job ∷ [])
          (All-filter (IsMinted short) (λ j. not (is_slot job.container (fault_class_of job) j))
            w.jobs h.minted)
          (m, tt);
  }

  -- So is replacing the job of an id.
  replaced_id-IsSafe :
      IsFaithful short
      → (job : FaultJob) → IsMinted short job
      → IsSafe host short (record w { jobs = without_id job.job_id w.jobs ++ job ∷ [] })
  replaced_id-IsSafe faithful job m = record {
    covers = λ c cls on.
        any-replaced (is_slot c cls) (has_id job.job_id) w.jobs job
          (All-implies (IsMinted short) _ (λ j n. stands_in c cls j n) w.jobs h.minted)
          (h.covers c cls on);
    minted =
        All-append (IsMinted short) (without_id job.job_id w.jobs) (job ∷ [])
          (All-filter (IsMinted short) (λ j. not (has_id job.job_id j)) w.jobs h.minted) (m, tt);
  }
    where
      stands_in :
          (c : String) (cls : FaultClass) (j : FaultJob)
          → IsMinted short j
          → is_slot c cls j ≡ true
          → has_id job.job_id j ≡ true
          → is_slot c cls job ≡ true
      stands_in c cls j n p q =
          let a = (is_slot_iff c cls j).0 p in
          let b = id-slot short faithful j job n m ((eq_iff j.job_id job.job_id).0 q) in
          (is_slot_iff c cls job).1 (sym b.0 ∙ a.0, sym b.1 ∙ a.1)

  netem_job-IsMinted :
      (spec : NetemSpec) (tag : String) (now expires : ℕ)
      → IsMinted short (netem_job short spec tag now expires)
  unfolding netem_job_id
  netem_job-IsMinted spec tag now expires = record {
    preimage = netem_of tag spec.container spec.kind spec.args;
    job_id = refl;
    container = refl;
  }

  service_job-IsMinted :
      (container tag : String) (now expires : ℕ)
      → IsMinted short (service_job short container tag now expires)
  unfolding service_job_id
  service_job-IsMinted container tag now expires = record {
    preimage = service_of tag container;
    job_id = refl;
    container = refl;
  }

  dsl_job-IsMinted :
      (spec : DslFaultSpec) (tag : String) (now expires : ℕ)
      → IsMinted short (dsl_job short spec tag now expires)
  unfolding dsl_job_id
  dsl_job-IsMinted spec tag now expires = record {
    preimage = dsl_of tag spec.container spec.fault_kind;
    job_id = refl;
    container = refl;
  }

  applies-IsRecorded :
      (jobs : List FaultJob) (c : String) (vectors : List (List String))
      → is_covered jobs c FaultClass.netem ≡ true
      → All (IsRecorded host short jobs) (map (λ args. apply c args) vectors)
  applies-IsRecorded jobs c [] k = tt
  applies-IsRecorded jobs c (v ∷ vectors) k = (recorded, applies-IsRecorded jobs c vectors k)
    where
      recorded : IsRecorded host short jobs (apply c v)
      recorded d FaultClass.netem e =
          let same : c ≡ d = cc in subst (λ x. is_covered jobs x FaultClass.netem ≡ true) same k
      recorded d FaultClass.service e = cc
      recorded d FaultClass.dsl e = cc

  stop-IsRecorded :
      (jobs : List FaultJob) (c : String)
      → is_covered jobs c FaultClass.service ≡ true
      → IsRecorded host short jobs (stop c)
  stop-IsRecorded jobs c k d FaultClass.netem e = cc
  stop-IsRecorded jobs c k d FaultClass.service e =
      let same : c ≡ d = cc in subst (λ x. is_covered jobs x FaultClass.service ≡ true) same k
  stop-IsRecorded jobs c k d FaultClass.dsl e = cc

  dsl_set-IsRecorded :
      (jobs : List FaultJob) (spec : DslFaultSpec) → IsRecorded host short jobs (dsl_set spec)
  dsl_set-IsRecorded jobs spec d FaultClass.netem e = cc
  dsl_set-IsRecorded jobs spec d FaultClass.service e = cc
  dsl_set-IsRecorded jobs spec d FaultClass.dsl e = cc

  -- The plan that puts a composed fault on, for the `tc` vectors that it needs.
  abbrev applied_plan : NetemSpec → String → ℕ → ℕ → List (List String) → Plan
  applied_plan spec tag now expires vectors = record {
    jobs =
        without_slot spec.container FaultClass.netem w.jobs
        ++ netem_job short spec tag now expires ∷ [];
    actions = map (λ args. apply spec.container args) vectors;
  }

  applied_plan-IsSafePlan :
      (spec : NetemSpec) (tag : String) (now expires : ℕ) (vectors : List (List String))
      → IsSafePlan host short w (applied_plan spec tag now expires vectors)
  applied_plan-IsSafePlan spec tag now expires vectors =
      let job = netem_job short spec tag now expires in
      let kept = without_slot spec.container FaultClass.netem w.jobs in
      record {
        saved = replaced-IsSafe job (netem_job-IsMinted spec tag now expires);
        recorded =
            applies-IsRecorded (kept ++ job ∷ []) spec.container vectors (is_covered-last kept job);
      }

  pub plan_apply-IsSafePlan :
      (spec : NetemSpec) (tag : String) (now expires : ℕ) (p : Plan)
      → plan_apply short w.jobs spec tag now expires ≡ ok p
      → IsSafePlan host short w p
  unfolding plan_apply
  plan_apply-IsSafePlan spec tag now expires p e = elim (Bool-cases (leb expires now)) [
    | inl spent ↦ cc (rw (spent, plan_apply) at e)
    | inr open_lease ↦ elim (Bool-cases (is_current found (netem_job_id short tag spec) now)) [
      | inl current ↦ let q : p ≡ nothing_to_do w.jobs = ground arith in rw q IsSafePlan-nothing
      | inr other ↦ elim (Result-cases (tc_vectors spec.kind spec)) [
        | inl (bad, q) ↦ absurd (ground arith)
        | inr (vectors, q) ↦
            let r : p ≡ applied_plan spec tag now expires vectors = ground arith in
            rw r (applied_plan-IsSafePlan spec tag now expires vectors)
      ]
    ]
  ]
    where
      found : Option FaultJob
      found = find (is_slot spec.container FaultClass.netem) w.jobs

  -- The plan that stops a container.
  abbrev stopped_plan : String → String → ℕ → ℕ → Plan
  stopped_plan c tag now expires = record {
    jobs = without_slot c FaultClass.service w.jobs ++ service_job short c tag now expires ∷ [];
    actions = stop c ∷ [];
  }

  stopped_plan-IsSafePlan :
      (c tag : String) (now expires : ℕ) → IsSafePlan host short w (stopped_plan c tag now expires)
  stopped_plan-IsSafePlan c tag now expires =
      let job = service_job short c tag now expires in
      let kept = without_slot c FaultClass.service w.jobs in
      record {
        saved = replaced-IsSafe job (service_job-IsMinted c tag now expires);
        recorded = (stop-IsRecorded (kept ++ job ∷ []) c (is_covered-last kept job), tt);
      }

  pub plan_service_stop-IsSafePlan :
      (c tag : String) (now expires : ℕ) (p : Plan)
      → plan_service_stop short w.jobs c tag now expires ≡ ok p
      → IsSafePlan host short w p
  unfolding plan_service_stop
  plan_service_stop-IsSafePlan c tag now expires p e = elim (Bool-cases (leb expires now)) [
    | inl spent ↦ absurd (ground arith)
    | inr open_lease ↦ elim (Bool-cases (is_current found (service_job_id short tag c) now)) [
      | inl current ↦ let q : p ≡ nothing_to_do w.jobs = ground arith in rw q IsSafePlan-nothing
      | inr other ↦
          let r : p ≡ stopped_plan c tag now expires = ground arith in
          rw r (stopped_plan-IsSafePlan c tag now expires)
    ]
  ]
    where
      found : Option FaultJob
      found = find (is_slot c FaultClass.service) w.jobs

  -- The plan that arms a fault of the daemon.
  abbrev armed_plan : DslFaultSpec → String → ℕ → ℕ → Plan
  armed_plan spec tag now expires = record {
    jobs =
        without_id (dsl_job_id short tag spec.container spec.fault_kind) w.jobs
        ++ dsl_job short spec tag now expires ∷ [];
    actions = dsl_set spec ∷ [];
  }

  pub plan_dsl_set-IsSafePlan :
      IsFaithful short
      → (spec : DslFaultSpec) (tag : String) (now expires : ℕ) (p : Plan)
      → plan_dsl_set short w.jobs spec tag now expires ≡ ok p
      → IsSafePlan host short w p
  unfolding plan_dsl_set
  plan_dsl_set-IsSafePlan faithful spec tag now expires p e =
      elim (Result-cases (assert_dsl_fault_spec spec)) [
        | inl (bad, q) ↦ absurd (ground arith)
        | inr (fine, q) ↦ elim (Bool-cases (leb expires now)) [
          | inl spent ↦ absurd (ground arith)
          | inr open_lease ↦ elim (Bool-cases (is_armed found now)) [
            | inl armed ↦ let r : p ≡ nothing_to_do w.jobs = ground arith in rw r IsSafePlan-nothing
            | inr other ↦
                let r : p ≡ armed_plan spec tag now expires = ground arith in
                rw r (record {
                  saved =
                      replaced_id-IsSafe faithful (dsl_job short spec tag now expires)
                        (dsl_job-IsMinted spec tag now expires);
                  recorded = (dsl_set-IsRecorded (armed_plan spec tag now expires).jobs spec, tt);
                })
          ]
        ]
      ]
    where
      found : Option FaultJob
      found = find (has_id (dsl_job_id short tag spec.container spec.fault_kind)) w.jobs

-- Recording the fault id on its job leaves the slots and the ids as they are.
pub with_id-same :
    (id fault_id : String) (job : FaultJob)
    → let job' = with_id id fault_id job in
      (job'.job_id ≡ job.job_id)
      × (job'.container ≡ job.container)
      × (job'.fault_class ≡ job.fault_class)
unfolding with_id
with_id-same id fault_id job = ground arith

pub is_covered-with_dsl_fault_id :
    (jobs : List FaultJob) (id fault_id c : String) (cls : FaultClass)
    → is_covered (with_dsl_fault_id jobs id fault_id) c cls ≡ is_covered jobs c cls
unfolding with_dsl_fault_id
is_covered-with_dsl_fault_id [] id fault_id c cls = refl
is_covered-with_dsl_fault_id (job ∷ jobs) id fault_id c cls =
    let (_, same_container, same_cls) = with_id-same id fault_id job in
    let rest = is_covered-with_dsl_fault_id jobs id fault_id c cls in ground arith

pub with_dsl_fault_id-IsMinted :
    (short : Preimage → String) (jobs : List FaultJob) (id fault_id : String)
    → All (IsMinted short) jobs
    → All (IsMinted short) (with_dsl_fault_id jobs id fault_id)
unfolding with_dsl_fault_id
with_dsl_fault_id-IsMinted short [] id fault_id m = tt
with_dsl_fault_id-IsMinted short (job ∷ jobs) id fault_id (m, ms) =
    let (same_id, same_container, same_cls) = with_id-same id fault_id job in
    (
      record {
        preimage = m.preimage;
        job_id = ground arith;
        container = same_container ∙ m.container;
      },
      with_dsl_fault_id-IsMinted short jobs id fault_id ms,
    )
