-- ===== src/Netem/Life.antt =====
-- `LabFaultRunner` of server/src/simulator/netemRunner.ts over its lives: the operations run one at a
-- time, and the process may die between any two steps of one.
use mathlib.Core.List.{Memᴰ}
use devnet_deftrack.Common.{
  ℕ, ◌≡◌, inl, inr, refl, String, true, ◌||◌, Option, none, some, List, [], ◌∷◌, All-member,
  Bool-cases, Result, ok, err, ◌===◌, ◌∙◌,
}
use devnet_deftrack.Netem.{DslFaultSpec, FaultClass, FaultAction, Plan, Preimage}
use devnet_deftrack.Netem.Args.{FaultError}
use devnet_deftrack.Netem.Slots.{IsFaithful}
use devnet_deftrack.Netem.Plans.{plan_dsl_set, with_dsl_fault_id, dsl_job_id}
use devnet_deftrack.Netem.Runner.{
  LabHost, World, Ran, Script, carry_out, apply_locked, stop_service_locked, set_dsl_fault_locked,
  if_acted, save_fault_id, Operation, applying, stopping, setting_dsl, clearing, ticking, booting,
  run_loaded, is_boot, run_operation,
}
use devnet_deftrack.Netem.Superset.{
  is_covered, afflicted, IsSafe, RunsSafe, save-RunsSafe, and_then-RunsSafe, carry_out-RunsSafe,
}
use devnet_deftrack.Netem.PlanSafety.{
  plan_apply-IsSafePlan, plan_service_stop-IsSafePlan, plan_dsl_set-IsSafePlan,
  is_covered-with_dsl_fault_id, with_dsl_fault_id-IsMinted,
}
use devnet_deftrack.Netem.Recovery.{tick_locked-RunsSafe, clear_locked-RunsSafe}
use devnet_deftrack.Netem.Boot.{boot_cleanup_locked-RunsSafe}

module _ (host : LabHost) (short : Preimage → String) where
  save_fault_id-RunsSafe :
      (spec : DslFaultSpec) (tag : String) (script : Script) (w : World host)
      → IsSafe host short w
      → RunsSafe host short (save_fault_id host short spec tag script w)
  unfolding with_dsl_fault_id
  save_fault_id-RunsSafe spec tag script w h = go script.fault_id refl
    where
      id : String
      id = dsl_job_id short tag spec.container spec.fault_kind

      go :
          (answer : Option String)
          → script.fault_id ≡ answer
          → RunsSafe host short (save_fault_id host short spec tag script w)
      go none e = rw e (tt, h)
      go (some fault) e = elim (Bool-cases (fault === "")) [
        | inl empty ↦ rw (e, empty) (tt, h)
        | inr given ↦
            rw (e, given)
              (save-RunsSafe host short script.second_save (with_dsl_fault_id w.jobs id fault) w h
                (record {
                  covers = λ c cls on.
                      is_covered-with_dsl_fault_id w.jobs id fault c cls ∙ h.covers c cls on;
                  minted = with_dsl_fault_id-IsMinted short w.jobs id fault h.minted;
                }))
      ]

  if_acted-RunsSafe :
      (r : Result FaultError Plan) (rest : World host → Ran host) (first : Ran host)
      → RunsSafe host short first
      → ((w : World host) → IsSafe host short w → RunsSafe host short (rest w))
      → RunsSafe host short (if_acted host r rest first)
  if_acted-RunsSafe (err e) rest first h k = h
  if_acted-RunsSafe (ok p) rest first h k = go p.actions refl
    where
      go :
          (actions : List FaultAction)
          → p.actions ≡ actions
          → RunsSafe host short (if_acted host (ok p) rest first)
      go [] e = rw e h
      go (a ∷ actions) e =
          rw e (and_then-RunsSafe host short first rest h (λ fine. k first.world h.1))

  -- A set of a daemon's fault, for what its plan comes to.
  set_dsl-RunsSafe :
      (faithful : IsFaithful short) (spec : DslFaultSpec) (tag : String) (now expires : ℕ)
      (script : Script) (w : World host)
      → IsSafe host short w
      → RunsSafe host short (set_dsl_fault_locked host short spec tag now expires script w)
  unfolding set_dsl_fault_locked
  set_dsl-RunsSafe faithful spec tag now expires script w h =
      let plan = plan_dsl_set short w.jobs spec tag now expires in
      if_acted-RunsSafe plan (save_fault_id host short spec tag script)
        (carry_out host plan script w)
        (carry_out-RunsSafe host short plan script w h
          (plan_dsl_set-IsSafePlan host short w h faithful spec tag now expires))
        (save_fault_id-RunsSafe spec tag script)

  -- A boot can read its record; the other operations need not.
  abbrev pub IsReadable : Script → Operation host short → Type 0
  IsReadable script booting = script.loads ≡ true
  IsReadable script _ = Unit

  run_loaded-RunsSafe :
      (faithful : IsFaithful short) (now : ℕ) (script : Script) (op : Operation host short)
      (w : World host)
      → IsReadable script op
      → IsSafe host short w
      → RunsSafe host short (run_loaded host short now script op w)
  unfolding run_loaded apply_locked stop_service_locked
  run_loaded-RunsSafe faithful now script (applying spec tag expires) w readable h =
      carry_out-RunsSafe host short _ script w h
        (plan_apply-IsSafePlan host short w h spec tag now expires)
  run_loaded-RunsSafe faithful now script (stopping c tag expires) w readable h =
      carry_out-RunsSafe host short _ script w h
        (plan_service_stop-IsSafePlan host short w h c tag now expires)
  run_loaded-RunsSafe faithful now script (setting_dsl spec tag expires) w readable h =
      set_dsl-RunsSafe faithful spec tag now expires script w h
  run_loaded-RunsSafe faithful now script (clearing id) w readable h =
      clear_locked-RunsSafe host short faithful id script w h
  run_loaded-RunsSafe faithful now script ticking w readable h =
      tick_locked-RunsSafe host short faithful now script w h
  run_loaded-RunsSafe faithful now script booting w readable h =
      boot_cleanup_locked-RunsSafe host short script w readable h

  -- Every operation passes through safe worlds only.
  run_operation-RunsSafe :
      (faithful : IsFaithful short) (now : ℕ) (script : Script) (op : Operation host short)
      (w : World host)
      → IsReadable script op
      → IsSafe host short w
      → RunsSafe host short (run_operation host short now script op w)
  unfolding run_operation
  run_operation-RunsSafe faithful now script op w readable h =
      elim (Bool-cases (script.loads || is_boot host short op)) [
        | inl on ↦ rw (run_operation, on) (run_loaded-RunsSafe faithful now script op w readable h)
        | inr off ↦ rw (run_operation, off) (tt, h)
      ]

  -- What the lives of the process lead to from a world: whole operations, and operations cut off at
  -- any world that they pass through, which is where the next life finds the record and the lab.
  pub data Reaches (w : World host) : World host → Type 0 where
    here : Reaches w w
    ran :
        {u : World host}
        → Reaches w u
        → (now : ℕ) (script : Script) (op : Operation host short) → IsReadable script op
        → Reaches w (run_operation host short now script op u).world
    died :
        {u v : World host}
        → Reaches w u
        → (now : ℕ) (script : Script) (op : Operation host short) → IsReadable script op
        → Memᴰ v (run_operation host short now script op u).visited
        → Reaches w v

  pub reached-IsSafe :
      {w v : World host}
      → IsFaithful short
      → IsSafe host short w
      → Reaches w v
      → IsSafe host short v
  reached-IsSafe faithful h here = h
  reached-IsSafe faithful h (ran {u} r now script op readable) =
      (run_operation-RunsSafe faithful now script op u readable (reached-IsSafe faithful h r)).1
  reached-IsSafe faithful h (died {u} {v} r now script op readable m) =
      All-member (IsSafe host short) (run_operation host short now script op u).visited
        (run_operation-RunsSafe faithful now script op u readable (reached-IsSafe faithful h r)).0 m

  -- Whatever the plans, failing actions, failing saves and deaths of the process at any point, from a
  -- record that covers the lab and whose job ids were made by the wrapper, every fault that is on in
  -- a container has a job of its class for that container in the record, under the hypotheses that
  -- the digest in a job id does not confuse containers and that no boot fails to read its record.
  pub record_covers_lab :
      {w v : World host}
      → IsFaithful short
      → IsSafe host short w
      → Reaches w v
      → (c : String) (cls : FaultClass) → afflicted host short cls v.lab c ≡ true
      → is_covered v.jobs c cls ≡ true
  record_covers_lab faithful h r c cls on = (reached-IsSafe faithful h r).covers c cls on
