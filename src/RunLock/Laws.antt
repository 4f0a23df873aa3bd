-- ===== src/RunLock/Laws.antt =====
-- What each decision on the live-run lock does on every branch.
use devnet_deftrack.Common.{
  ℕ, ◌+◌, ◌<◌, ◌≤◌, ◌≡◌, ◌↔◌, inl, inr, refl, String, true, Option, none, some, ok, arith, eq_iff,
  Bool-cases, ltb,
}
use devnet_deftrack.RunLock.{
  Lock, held, released, Held, Released, AcquireResult, acquired, already_held, held_by_other, freed,
  LeaseInput, ReleaseInput, next_revision, is_owner, acquire_lock, renew_lock, release_lock,
  release_for_run,
}

-- The lock is held at a time by a lease that has not run out.
abbrev pub IsLive : Option Lock → ℕ → Type 0
IsLive none now = ⊥
IsLive (some (released _)) now = ⊥
IsLive (some (held h)) now = now < h.lease_until_ms

-- The run and the owner that a held lock names.
abbrev pub IsHeldBy : Held → String → String → Type 0
IsHeldBy h run owner = (h.run_key ≡ run) × (h.owner_id ≡ owner)

pub is_owner_iff :
    (h : Held) (run owner : String) → (is_owner h run owner ≡ true) ↔ IsHeldBy h run owner
is_owner_iff h run owner = ground (arith, eq_iff h.run_key run, eq_iff h.owner_id owner)

-- The lock that an acquire makes of a document that it may take.
abbrev pub taken_by : Option Lock → LeaseInput → Held
taken_by current i = record {
  run_key = i.run_key;
  owner_id = i.owner_id;
  acquired_at_ms = i.now_ms;
  lease_until_ms = i.lease_until_ms;
  revision = next_revision current;
}

-- The three answers to an acquire, by who holds the lock at the time.
pub data Acquires (current : Option Lock) (i : LeaseInput) (r : AcquireResult) : Type 0 where
  mine :
      (h : Held)
      → current ≡ some (held h)
      → i.now_ms < h.lease_until_ms
      → IsHeldBy h i.run_key i.owner_id
      → r ≡ already_held h
      → Acquires current i r
  theirs :
      (h : Held)
      → current ≡ some (held h)
      → i.now_ms < h.lease_until_ms
      → ¬ (IsHeldBy h i.run_key i.owner_id)
      → r ≡ held_by_other h
      → Acquires current i r
  taken : ¬ (IsLive current i.now_ms) → r ≡ acquired (taken_by current i) → Acquires current i r

held_live :
    (h : Held) (i : LeaseInput) (r : AcquireResult)
    → acquire_lock (some (held h)) i ≡ ok r
    → i.now_ms < h.lease_until_ms
    → Acquires (some (held h)) i r
unfolding acquire_lock
held_live h i r e live = elim (Bool-cases (is_owner h i.run_key i.owner_id)) [
  | inl own ↦ mine h refl live ((is_owner_iff h i.run_key i.owner_id).0 own) (ground arith)
  | inr other ↦
      theirs h refl live (λ by. let own = (is_owner_iff h i.run_key i.owner_id).1 by in cc)
        (ground arith)
]

-- An acquire that does not throw asked for a lease beyond its own time, and answers by who holds
-- the lock: a live lock is returned as it stands, to its holder as already held and to any other
-- as held by another; any other document is taken, under the next revision.
pub acquire_lock-Acquires :
    (current : Option Lock) (i : LeaseInput) (r : AcquireResult)
    → acquire_lock current i ≡ ok r
    → (i.now_ms < i.lease_until_ms) × Acquires current i r
unfolding acquire_lock
acquire_lock-Acquires none i r e = (ground arith, taken (λ x. x) (ground arith))
acquire_lock-Acquires (some (released l)) i r e = (ground arith, taken (λ x. x) (ground arith))
acquire_lock-Acquires (some (held h)) i r e = elim (Bool-cases (ltb i.now_ms h.lease_until_ms)) [
  | inl live ↦ (ground arith, held_live h i r e (ground arith))
  | inr dead ↦ (ground arith, taken (λ x. ground arith) (ground arith))
]

-- A renewal that is granted goes to the holder of a live lease, keeps who holds the lock and since
-- when, and makes the lease longer.
pub renew_lock_outcome :
    (current : Lock) (i : LeaseInput) (n : Held)
    → renew_lock current i ≡ ok n
    → (h : Held) × (current ≡ held h)
      × IsHeldBy h i.run_key i.owner_id
      × (i.now_ms < h.lease_until_ms)
      × (h.lease_until_ms < i.lease_until_ms)
      × (n ≡ record h { lease_until_ms = i.lease_until_ms; revision = h.revision + 1 })
unfolding renew_lock
renew_lock_outcome (released r) i n e = ground arith
renew_lock_outcome (held h) i n e =
    let own = is_owner_iff h i.run_key i.owner_id in
    (h, refl, ground arith, ground arith, ground arith, ground arith)

-- A release that frees the lock is the holder's, and a release for a run that frees it names the
-- run that holds it: neither can free the lock of another run.
pub release_outcome :
    (current : Option Lock) (i : ReleaseInput) (r : Released)
    → (release_lock current i ≡ ok (freed r)
        → (h : Held) × (current ≡ some (held h))
          × IsHeldBy h i.run_key i.owner_id
          × (h.acquired_at_ms ≤ i.now_ms)
          × (r.revision ≡ h.revision + 1))
      × (release_for_run current i.run_key i.now_ms ≡ ok (freed r)
          → (h : Held) × (current ≡ some (held h))
            × (h.run_key ≡ i.run_key)
            × (h.acquired_at_ms ≤ i.now_ms)
            × (r.revision ≡ h.revision + 1))
unfolding release_lock release_for_run
release_outcome none i r = (λ e. cc, λ e. cc)
release_outcome (some (released l)) i r = (λ e. cc, λ e. cc)
release_outcome (some (held h)) i r =
    let own = is_owner_iff h i.run_key i.owner_id in
    (
      λ e. (h, refl, ground arith, ground arith, ground arith),
      λ e. (h, refl, ground (arith, eq_iff h.run_key i.run_key), ground arith, ground arith),
    )
