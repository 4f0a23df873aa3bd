-- ===== src/Netem/Superset.antt =====
-- The invariant of server/src/simulator/netemRunner.ts: the stored jobs cover whatever is applied to the lab.
use devnet_deftrack.Common.{
  ℕ, suc, ◌≡◌, ◌⊎◌, inl, inr, refl, String, Bool, true, false, Option, none, some, List, [], ◌∷◌,
  ◌++◌, arith, All, eq_iff, any, Bool-cases, All-append, Result, ok, err, subst, any-replaced,
  All-All, sym, ◌∙◌, ◌↔◌,
}
use devnet_deftrack.Netem.{
  FaultClass, FaultJob, FaultAction, Plan, Preimage, fault_class_of, same_class,
}
use devnet_deftrack.Netem.Args.{FaultError}
use devnet_deftrack.Netem.Slots.{IsMinted}
use devnet_deftrack.Netem.Plans.{is_slot, without_slot}
use devnet_deftrack.Netem.Runner.{
  Script, LabHost, World, Ran, run_actions, save, and_then, carry_out, impairs, stops, Outcome,
  lands, fails, fails_late, execute, landed,
}

pub same_class_iff : (a b : FaultClass) → (same_class a b ≡ true) ↔ (a ≡ b)
same_class_iff a b = ground arith

-- Some stored job holds the container in the class.
abbrev pub is_covered : List FaultJob → String → FaultClass → Bool
is_covered jobs c fault_class = any (is_slot c fault_class) jobs

pub is_slot_iff :
    (c : String) (cls : FaultClass) (job : FaultJob)
    → (is_slot c cls job ≡ true) ↔ ((job.container ≡ c) × (fault_class_of job ≡ cls))
is_slot_iff c cls job =
    let a = eq_iff job.container c in
    let same = same_class_iff (fault_class_of job) cls in
    (
      λ h. (a.0 (ground arith), same.0 (ground arith)),
      λ (p, q). let x = a.1 p in let y = same.1 q in ground arith,
    )

-- A record still covers a slot after the job of another slot, or its own, was replaced.
pub is_covered-replaced :
    (jobs : List FaultJob) (job : FaultJob) (c : String) (cls : FaultClass)
    → is_covered jobs c cls ≡ true
    → is_covered (without_slot job.container (fault_class_of job) jobs ++ job ∷ []) c cls ≡ true
is_covered-replaced jobs job c cls h =
    any-replaced (is_slot c cls) (is_slot job.container (fault_class_of job)) jobs job
      (All-All _ stands_in jobs) h
  where
    stands_in :
        (j : FaultJob)
        → is_slot c cls j ≡ true
        → is_slot job.container (fault_class_of job) j ≡ true
        → is_slot c cls job ≡ true
    stands_in j p q =
        let a = (is_slot_iff c cls j).0 p in
        let b = (is_slot_iff job.container (fault_class_of job) j).0 q in
        (is_slot_iff c cls job).1 (sym b.0 ∙ a.0, sym b.1 ∙ a.1)

module _ (host : LabHost) (short : Preimage → String) where
  open host use {Lab, perform, impaired, stopped}

  -- A fault of a class that leaves its mark outside the daemon is on in a container.
  abbrev pub afflicted : FaultClass → Lab → String → Bool
  afflicted FaultClass.netem l c = impaired l c
  afflicted FaultClass.service l c = stopped l c
  afflicted FaultClass.dsl l c = false

  -- The container in which an action may put a fault of a class on.
  abbrev pub afflicts : FaultAction → FaultClass → Option String
  afflicts a FaultClass.netem = impairs a
  afflicts a FaultClass.service = stops a
  afflicts a FaultClass.dsl = none

  pub afflicted_by :
      (cls : FaultClass) (a : FaultAction) (l : Lab) (c : String)
      → afflicted cls (perform a l) c ≡ true
      → (afflicted cls l c ≡ true) ⊎ (afflicts a cls ≡ some c)
  afflicted_by FaultClass.netem a l c h = host.impaired_by a l c h
  afflicted_by FaultClass.service a l c h = host.stopped_by a l c h
  afflicted_by FaultClass.dsl a l c h = cc

  -- The job of every fault that is on is in the record.
  abbrev pub Covers : List FaultJob → Lab → Type 0
  Covers jobs l =
      (c : String) (cls : FaultClass) → afflicted cls l c ≡ true → is_covered jobs c cls ≡ true

  -- The record covers all faults that are on, and its ids were made for its jobs.
  pub record IsSafe (w : World host) : Type 0 where
    pub covers : Covers w.jobs w.lab
    pub minted : All (IsMinted short) w.jobs

  -- The record covers what an action may put on.
  abbrev pub IsRecorded : List FaultJob → FaultAction → Type 0
  IsRecorded jobs a =
      (c : String) (cls : FaultClass) → afflicts a cls ≡ some c → is_covered jobs c cls ≡ true

  -- All that an operation passes through is safe.
  abbrev pub RunsSafe : Ran host → Type 0
  RunsSafe r = All IsSafe r.visited × IsSafe r.world

  perform-Covers :
      (jobs : List FaultJob) (a : FaultAction) (l : Lab)
      → Covers jobs l
      → IsRecorded jobs a
      → Covers jobs (perform a l)
  perform-Covers jobs a l h k c cls on = elim (afflicted_by cls a l c on) [
    | inl before ↦ h c cls before
    | inr now ↦ k c cls now
  ]

  pub execute-IsSafe :
      (a : FaultAction) (o : Outcome) (w : World host)
      → IsSafe w
      → IsRecorded w.jobs a
      → IsSafe (execute host a o w)
  execute-IsSafe a lands w h k = record {
    covers = perform-Covers w.jobs a w.lab h.covers k;
    minted = h.minted;
  }
  execute-IsSafe a fails w h k = h
  execute-IsSafe a fails_late w h k = record {
    covers = perform-Covers w.jobs a w.lab h.covers k;
    minted = h.minted;
  }

  pub execute-same_jobs :
      (a : FaultAction) (o : Outcome) (w : World host) → (execute host a o w).jobs ≡ w.jobs
  execute-same_jobs a lands w = refl
  execute-same_jobs a fails w = refl
  execute-same_jobs a fails_late w = refl

  pub run_actions-RunsSafe :
      (actions : List FaultAction) (outcome : ℕ → Outcome) (w : World host)
      → IsSafe w
      → All (IsRecorded w.jobs) actions
      → RunsSafe (run_actions host actions outcome w)
  unfolding run_actions
  run_actions-RunsSafe [] outcome w h k = (tt, h)
  run_actions-RunsSafe (a ∷ actions) outcome w h (k, ks) =
      let next = execute host a (outcome 0) w in
      let safe = execute-IsSafe a (outcome 0) w h k in
      let same = execute-same_jobs a (outcome 0) w in
      let (seen, last) =
        run_actions-RunsSafe actions (λ n. outcome (suc n)) next safe
          (subst (λ jobs. All (IsRecorded jobs) actions) (sym same) ks) in
      elim (Bool-cases (landed (outcome 0))) [
        | inl done ↦ rw done ((safe, seen), last)
        | inr failed ↦ rw failed ((safe, tt), safe)
      ]

  pub save-RunsSafe :
      (saved : Bool) (jobs : List FaultJob) (w : World host)
      → IsSafe w
      → IsSafe (record w { jobs = jobs })
      → RunsSafe (save host saved jobs w)
  save-RunsSafe true jobs w h k = ((k, tt), k)
  save-RunsSafe false jobs w h k = (tt, h)

  -- What a saved record and the worlds before it come to.
  pub saved-RunsSafe :
      (seen : List (World host)) (saved : Bool) (jobs : List FaultJob) (w : World host)
      → All (IsSafe) seen
      → IsSafe w
      → IsSafe (record w { jobs = jobs })
      → let r = save host saved jobs w in All (IsSafe) (seen ++ r.visited) × IsSafe r.world
  saved-RunsSafe seen saved jobs w hs h k =
      let (after, last) = save-RunsSafe saved jobs w h k in
      (All-append (IsSafe) seen (save host saved jobs w).visited hs after, last)

  pub and_then-RunsSafe :
      (r : Ran host) (rest : World host → Ran host)
      → RunsSafe r
      → (r.threw ≡ false → RunsSafe (rest r.world))
      → RunsSafe (and_then host r rest)
  and_then-RunsSafe r rest (seen, last) k = elim (Bool-cases r.threw) [
    | inl threw ↦ rw threw (seen, last)
    | inr fine ↦
        rw fine (All-append IsSafe r.visited (rest r.world).visited seen (k fine).0, (k fine).1)
  ]

  -- A plan whose record is safe to save and covers its own actions.
  pub record IsSafePlan (w : World host) (p : Plan) : Type 0 where
    pub saved : IsSafe (record w { jobs = p.jobs })
    pub recorded : All (IsRecorded p.jobs) p.actions

  saved_world :
      (saved : Bool) (jobs : List FaultJob) (w : World host)
      → (save host saved jobs w).threw ≡ false
      → (save host saved jobs w).world ≡ record w { jobs = jobs }
  saved_world true jobs w h = refl
  saved_world false jobs w h = cc

  pub carry_out-RunsSafe :
      (r : Result FaultError Plan) (script : Script) (w : World host)
      → IsSafe w
      → ((p : Plan) → r ≡ ok p → IsSafePlan w p)
      → RunsSafe (carry_out host r script w)
  carry_out-RunsSafe (err e) script w h k = (tt, h)
  carry_out-RunsSafe (ok p) script w h k = go p.actions refl
    where
      go :
          (actions : List FaultAction)
          → p.actions ≡ actions
          → RunsSafe (carry_out host (ok p) script w)
      go [] q = rw q (tt, h)
      go (a ∷ actions) q =
          let plan = k p refl in
          rw q (
            and_then-RunsSafe (save host script.first_save p.jobs w)
              (run_actions host (a ∷ actions) script.outcome)
              (save-RunsSafe script.first_save p.jobs w h plan.saved)
              (λ fine. rw (saved_world script.first_save p.jobs w fine) (
                run_actions-RunsSafe (a ∷ actions) script.outcome (record w { jobs = p.jobs })
                  plan.saved (rw q at plan.recorded))))
