-- ===== src/RunLock/Exclusion.antt =====
-- The live-run lock service (server/src/services/simulationLiveRunLock.service.ts) among other processes.
use devnet_deftrack.Common.{
  ℕ, suc, ◌-◌, ◌<◌, ap, ◌∙◌, ◌≡◌, ◌≢◌, inl, inr, refl, String, false, Option, none, some, ok, err,
  arith, List, [], ◌∷◌, All, eq_iff, Bool-cases,
}
use devnet_deftrack.RunLock.{
  Lock, held, released, Held, Released, AcquireResult, acquired, LeaseInput, ReleaseInput,
  revision_of, is_owner, acquire_lock, renew_lock, release_lock, release_for_run,
}
use devnet_deftrack.RunLock.Laws.{IsHeldBy, is_owner_iff}
use devnet_deftrack.RunLock.Service.{
  changed_repeatedly, returning, swapping, acquire_round, renew_round, release_round,
  release_run_round, acquire, renew, release, release_run, max_lock_cas_attempts,
}
use devnet_deftrack.RunLock.Linear.{
  IsOlder, Advances, read_after, cas_loop-Linearized, cas_loop-Advances, cas_loop_settles,
  cas_loop_idle,
}

acquire_round-acquired :
    (i : LeaseInput) (c : Option Lock) (next : Lock) (h : Held)
    → acquire_round i c ≡ ok (swapping next (acquired h))
    → (acquire_lock c i ≡ ok (acquired h)) × (next ≡ held h)
unfolding acquire_round
acquire_round-acquired i c next h e = ground arith

acquire_round-returning :
    (i : LeaseInput) (c : Option Lock) (h : Held) → acquire_round i c ≢ ok (returning (acquired h))
unfolding acquire_round
acquire_round-returning i c h = ground arith

acquire_round-IsOlder :
    (i : LeaseInput) (c : Option Lock) (next : Lock) (a : AcquireResult)
    → acquire_round i c ≡ ok (swapping next a)
    → IsOlder (revision_of c) (revision_of (some next))
unfolding acquire_round acquire_lock
acquire_round-IsOlder i none next a e = ground arith
acquire_round-IsOlder i (some (released r)) next a e = ground arith
acquire_round-IsOlder i (some (held h)) next a e = ground arith

renew_round-IsOlder :
    (i : LeaseInput) (c : Option Lock) (next : Lock) (a : Held)
    → renew_round i c ≡ ok (swapping next a)
    → IsOlder (revision_of c) (revision_of (some next))
unfolding renew_round renew_lock
renew_round-IsOlder i none next a e = cc
renew_round-IsOlder i (some (released r)) next a e = ground arith
renew_round-IsOlder i (some (held h)) next a e = ground arith

release_round-IsOlder :
    (i : ReleaseInput) (c : Option Lock) (next : Lock) (a : Option Released)
    → release_round i c ≡ ok (swapping next a)
    → IsOlder (revision_of c) (revision_of (some next))
unfolding release_round release_lock
release_round-IsOlder i none next a e = cc
release_round-IsOlder i (some (released r)) next a e = cc
release_round-IsOlder i (some (held h)) next a e = ground arith

release_run_round-IsOlder :
    (key : String) (now : ℕ) (c : Option Lock) (next : Lock) (a : Option Released)
    → release_run_round key now c ≡ ok (swapping next a)
    → IsOlder (revision_of c) (revision_of (some next))
unfolding release_run_round release_for_run
release_run_round-IsOlder key now none next a e = cc
release_run_round-IsOlder key now (some (released r)) next a e = cc
release_run_round-IsOlder key now (some (held h)) next a e = ground arith

module _ (others : ℕ → Option Lock → Option Lock)
    (adv : (k : ℕ) (c : Option Lock) → Advances c (others k c)) where
  -- Among other processes that, where they change the lock document, move its revision on: an
  -- acquire that is told that it has taken the lock decided so on the document that it read in one of
  -- its five attempts, and the other processes left that document in the store up to the write, so
  -- it never overwrites a lock that another process took meanwhile.
  pub acquire_atomic :
      (i : LeaseInput) (store : Option Lock) (h : Held)
      → (acquire others i store).result ≡ ok (acquired h)
      → (failed : ℕ) × (failed < max_lock_cas_attempts)
        × (let read = read_after others max_lock_cas_attempts failed store in
            (others (max_lock_cas_attempts - suc failed) read ≡ read)
            × (acquire_lock read i ≡ ok (acquired h))
            × ((acquire others i store).store ≡ some (held h)))
  unfolding acquire
  acquire_atomic i store h e =
      let l = cas_loop-Linearized others adv (acquire_round i) 5 store (acquired h) e in
      let read = read_after others 5 l.failed store in
      elim l.effect [
        | inl (told, _) ↦ absurd (acquire_round-returning i read h told)
        | inr (next, won, final, left_alone) ↦
            let (taken, same) = acquire_round-acquired i read next h won in
            (l.failed, l.in_time, (left_alone, taken, final ∙ ap (λ x. some x) same))
      ]

  -- Every call of the service moves the revision on where it changes the document, so the calls of
  -- several processes meet the condition on the others.
  pub service-Advances :
      (store : Option Lock)
      → ((i : LeaseInput) → Advances store (acquire others i store).store)
        × ((i : LeaseInput) → Advances store (renew others i store).store)
        × ((i : ReleaseInput) → Advances store (release others i store).store)
        × ((key : String) (now : ℕ) → Advances store (release_run others key now store).store)
  unfolding acquire renew release release_run
  service-Advances store = (
    λ i. cas_loop-Advances others adv (acquire_round i) (acquire_round-IsOlder i) 5 store,
    λ i. cas_loop-Advances others adv (renew_round i) (renew_round-IsOlder i) 5 store,
    λ i. cas_loop-Advances others adv (release_round i) (release_round-IsOlder i) 5 store,
    λ key now.
        cas_loop-Advances others adv (release_run_round key now) (release_run_round-IsOlder key now)
          5 store,
  )

acquire_round-plain :
    (i : LeaseInput) (c : Option Lock) → acquire_round i c ≢ err changed_repeatedly
unfolding acquire_round
acquire_round-plain i c = ground arith

-- An acquire gives up for repeated changes only if the others write in each of its five attempts:
-- where they leave the document alone during one attempt, it returns or throws its own error.
pub acquire_settles :
    (others : ℕ → Option Lock → Option Lock)
    → ((k : ℕ) (c : Option Lock) → Advances c (others k c))
    → (k : ℕ) → k < max_lock_cas_attempts
    → ((c : Option Lock) → others k c ≡ c)
    → (i : LeaseInput) (store : Option Lock)
    → (acquire others i store).result ≢ err changed_repeatedly
unfolding acquire
acquire_settles others adv k h alone i store =
    cas_loop_settles others adv (acquire_round i) (acquire_round-plain i) k 5 h alone store

-- A call of the service, by whom and when.
pub data Call : Type 0 where
  acquiring : LeaseInput → Call
  renewing : LeaseInput → Call
  releasing : ReleaseInput → Call
  releasing_run : String → ℕ → Call

-- The document after a call that no other process disturbs.
unfoldable pub call_lock : Option Lock → Call → Option Lock
unfolding acquire renew release release_run
call_lock store (acquiring i) = (acquire (λ k c. c) i store).store
call_lock store (renewing i) = (renew (λ k c. c) i store).store
call_lock store (releasing i) = (release (λ k c. c) i store).store
call_lock store (releasing_run key now) = (release_run (λ k c. c) key now store).store

unfoldable pub call_all : Option Lock → List Call → Option Lock
call_all store [] = store
call_all store (x ∷ xs) = call_all (call_lock store x) xs

-- A call of another run or owner than the holder; an acquire comes while the lease lasts, and a
-- release for a run names another run.
abbrev pub IsForeign : Held → Call → Type 0
IsForeign h (acquiring i) = ¬ (IsHeldBy h i.run_key i.owner_id) × (i.now_ms < h.lease_until_ms)
IsForeign h (renewing i) = ¬ (IsHeldBy h i.run_key i.owner_id)
IsForeign h (releasing i) = ¬ (IsHeldBy h i.run_key i.owner_id)
IsForeign h (releasing_run key now) = h.run_key ≢ key

not-is_owner :
    (h : Held) (run owner : String) → ¬ (IsHeldBy h run owner) → is_owner h run owner ≡ false
not-is_owner h run owner n = elim (Bool-cases (is_owner h run owner)) [
  | inl own ↦ absurd (n ((is_owner_iff h run owner).0 own))
  | inr other ↦ other
]

call_lock-foreign :
    (h : Held) (x : Call) → IsForeign h x → call_lock (some (held h)) x ≡ some (held h)
unfolding call_lock acquire_round renew_round release_round release_run_round
call_lock-foreign h (acquiring i) (n, live) =
    cas_loop_idle (λ k c. c) (acquire_round i) 5 (some (held h))
      (λ next a e.
        unfold acquire_lock in (let o = not-is_owner h i.run_key i.owner_id n in ground arith))
call_lock-foreign h (renewing i) n =
    cas_loop_idle (λ k c. c) (renew_round i) 5 (some (held h))
      (λ next a e.
        unfold renew_lock in (let o = not-is_owner h i.run_key i.owner_id n in ground arith))
call_lock-foreign h (releasing i) n =
    cas_loop_idle (λ k c. c) (release_round i) 5 (some (held h))
      (λ next a e.
        unfold release_lock in (let o = not-is_owner h i.run_key i.owner_id n in ground arith))
call_lock-foreign h (releasing_run key now) n =
    cas_loop_idle (λ k c. c) (release_run_round key now) 5 (some (held h))
      (λ next a e. unfold release_for_run in (ground (arith, eq_iff h.run_key key)))

-- While the lease of the holder lasts no sequence of calls by others, be they acquires, renewals or
-- releases, takes or changes the lock.
pub lock_exclusive :
    (h : Held) (xs : List Call) → All (IsForeign h) xs → call_all (some (held h)) xs ≡ some (held h)
unfolding call_all
lock_exclusive h [] f = refl
lock_exclusive h (x ∷ xs) (f, fs) = rw (call_lock-foreign h x f) (lock_exclusive h xs fs)
