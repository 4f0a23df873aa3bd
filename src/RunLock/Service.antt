-- ===== src/RunLock/Service.antt =====
-- server/src/services/simulationLiveRunLock.service.ts over the lock document of
-- server/src/services/simulationMongo.repository.ts: every operation reads the document, decides,
-- and writes by compare-and-swap on the revision, five times at most. Other processes may write
-- between the read and the swap of attempt `k`: `others k` is what they make of the document.
use devnet_deftrack.Common.{
  ℕ, zero, suc, String, Option, none, some, ◌==◌, if◌then◌else◌, Result, ok, err,
}
use devnet_deftrack.RunLock.{
  Lock, held, released, Held, Released, AcquireResult, acquired, already_held, held_by_other,
  ReleaseResult, nothing, unchanged, freed, LockError, LeaseInput, ReleaseInput, revision_of,
  acquire_lock, renew_lock, release_lock, release_for_run,
}

-- `MongoSimulationLiveRunLockRepository.compareAndSwap`: the document after a swap, or `none` where
-- it was not swapped. A null revision inserts where there is no document.
unfoldable pub compare_and_swap : Option ℕ → Lock → Option Lock → Option (Option Lock)
compare_and_swap none next none = some (some next)
compare_and_swap none next (some lock) = none
compare_and_swap (some n) next none = none
compare_and_swap (some n) next (some lock) = elim (revision_of (some lock)) [
  | none ↦ none
  | some m ↦ if m == n then some (some next) else none
]

pub data ServiceError : Type 0 where
  lock_error : LockError → ServiceError
  missing : ServiceError
  changed_repeatedly : ServiceError

-- `MAX_LOCK_CAS_ATTEMPTS`
abbrev pub max_lock_cas_attempts : ℕ
max_lock_cas_attempts = 5

-- What a call returns or throws, and the document that it leaves.
pub record Outcome {ℓ} (A : Type ℓ) : Type ℓ where
  pub result : Result ServiceError A
  pub store : Option Lock

abbrev pub returns {ℓ} : {A : Type ℓ} → A → Option Lock → Outcome A
returns a store = record { result = ok a; store = store }

abbrev pub throws {ℓ} : {A : Type ℓ} → ServiceError → Option Lock → Outcome A
throws e store = record { result = err e; store = store }

-- What one round of a loop comes to: it returns, or swaps the document and returns if that succeeds.
pub data Round {ℓ} (A : Type ℓ) : Type ℓ where
  returning : A → Round A
  swapping : Lock → A → Round A

-- The loop that the operations share: `find`, decide, return or swap, and try again, with `n`
-- attempts left.
module _ {ℓ} {A : Type ℓ} (others : ℕ → Option Lock → Option Lock)
    (decide : Option Lock → Result ServiceError (Round A)) where
  unfoldable pub cas_loop : ℕ → Option Lock → Outcome A
  cas_loop zero store = throws changed_repeatedly store
  cas_loop (suc n) store = elim (decide store) [
    | err e ↦ throws e store
    | ok (returning a) ↦ returns a store
    | ok (swapping next a) ↦ elim (compare_and_swap (revision_of store) next (others n store)) [
      | some swapped ↦ returns a swapped
      | none ↦ cas_loop n (others n store)
    ]
  ]

acquired_round : Result LockError AcquireResult → Result ServiceError (Round AcquireResult)
acquired_round (err e) = err (lock_error e)
acquired_round (ok (acquired h)) = ok (swapping (held h) (acquired h))
acquired_round (ok (already_held h)) = ok (returning (already_held h))
acquired_round (ok (held_by_other h)) = ok (returning (held_by_other h))

-- The body of the loop of `acquire`.
unfoldable pub acquire_round : LeaseInput → Option Lock → Result ServiceError (Round AcquireResult)
unfolding acquired_round
acquire_round i current = acquired_round (acquire_lock current i)

renewed_round : Result LockError Held → Result ServiceError (Round Held)
renewed_round (err e) = err (lock_error e)
renewed_round (ok h) = ok (swapping (held h) h)

-- The body of the loop of `renew`.
unfoldable pub renew_round : LeaseInput → Option Lock → Result ServiceError (Round Held)
unfolding renewed_round
renew_round i none = err missing
renew_round i (some lock) = renewed_round (renew_lock lock i)

released_round : Result LockError ReleaseResult → Result ServiceError (Round (Option Released))
released_round (err e) = err (lock_error e)
released_round (ok nothing) = ok (returning none)
released_round (ok (unchanged r)) = ok (returning (some r))
released_round (ok (freed r)) = ok (swapping (released r) (some r))

-- The body of the loop of `release`.
unfoldable pub release_round :
    ReleaseInput → Option Lock → Result ServiceError (Round (Option Released))
unfolding released_round
release_round i current = released_round (release_lock current i)

-- The body of the loop of `releaseForRun`.
unfoldable pub release_run_round :
    String → ℕ → Option Lock → Result ServiceError (Round (Option Released))
unfolding released_round
release_run_round run_key now_ms current = released_round (release_for_run current run_key now_ms)

module _ (others : ℕ → Option Lock → Option Lock) where
  -- `SimulationLiveRunLockService.acquire`
  unfoldable pub acquire : LeaseInput → Option Lock → Outcome AcquireResult
  unfolding cas_loop acquire_round
  acquire i store = cas_loop others (acquire_round i) max_lock_cas_attempts store

  -- `SimulationLiveRunLockService.renew`
  unfoldable pub renew : LeaseInput → Option Lock → Outcome Held
  unfolding cas_loop renew_round
  renew i store = cas_loop others (renew_round i) max_lock_cas_attempts store

  -- `SimulationLiveRunLockService.release`
  unfoldable pub release : ReleaseInput → Option Lock → Outcome (Option Released)
  unfolding cas_loop release_round
  release i store = cas_loop others (release_round i) max_lock_cas_attempts store

  -- `SimulationLiveRunLockService.releaseForRun`
  unfoldable pub release_run : String → ℕ → Option Lock → Outcome (Option Released)
  unfolding cas_loop release_run_round
  release_run run_key now_ms store =
      cas_loop others (release_run_round run_key now_ms) max_lock_cas_attempts store
