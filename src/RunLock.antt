-- ===== src/RunLock.antt =====
-- server/src/domain/liveRunLock.ts: the lock of the single live run, as compare-and-decide functions.
pub mod Service
pub mod Laws
pub mod Exclusion
pub mod Linear
mod Tests
use devnet_deftrack.Common.{
  ℕ, ◌+◌, String, Bool, true, false, not, ◌&&◌, ◌||◌, Option, none, some, leb, ltb, if◌then◌else◌,
  ◌===◌, Result, ok, err, ◌>>◌, throw_if, is_blank, is_safe_integer,
}

pub record Held : Type 0 where
  pub run_key : String
  pub owner_id : String
  pub acquired_at_ms : ℕ
  pub lease_until_ms : ℕ
  pub revision : ℕ

pub record Released : Type 0 where
  pub released_at_ms : ℕ
  pub revision : ℕ

-- `LiveRunLock`; the one scope is left out.
pub data Lock : Type 0 where
  held : Held → Lock
  released : Released → Lock

pub data AcquireResult : Type 0 where
  acquired : Held → AcquireResult
  already_held : Held → AcquireResult
  held_by_other : Held → AcquireResult

-- What a release returns: null, the lock that was released before, or a new tombstone.
pub data ReleaseResult : Type 0 where
  nothing : ReleaseResult
  unchanged : Released → ReleaseResult
  freed : Released → ReleaseResult

pub data LockError : Type 0 where
  invalid_identity invalid_lease not_owner : LockError

pub record LeaseInput : Type 0 where
  pub run_key : String
  pub owner_id : String
  pub now_ms : ℕ
  pub lease_until_ms : ℕ

pub record ReleaseInput : Type 0 where
  pub run_key : String
  pub owner_id : String
  pub now_ms : ℕ

validate_lease : ℕ → ℕ → Result LockError (Unit {0})
validate_lease now_ms lease_until_ms =
    throw_if
      (not (is_safe_integer now_ms)
        || not (is_safe_integer lease_until_ms)
        || leb lease_until_ms now_ms)
      invalid_lease

validate_identity : String → String → Result LockError (Unit {0})
validate_identity run_key owner_id =
    throw_if (is_blank run_key || is_blank owner_id) invalid_identity

abbrev pub is_owner : Held → String → String → Bool
is_owner h run_key owner_id = h.run_key === run_key && h.owner_id === owner_id

-- `current?.revision`
abbrev pub revision_of : Option Lock → Option ℕ
revision_of none = none
revision_of (some (held h)) = some h.revision
revision_of (some (released r)) = some r.revision

-- `(current?.revision ?? -1) + 1`
abbrev pub next_revision : Option Lock → ℕ
next_revision current = elim (revision_of current) [ none ↦ 0 | some n ↦ n + 1 ]

take_lock : Option Lock → LeaseInput → AcquireResult
take_lock current i = acquired (record {
  run_key = i.run_key;
  owner_id = i.owner_id;
  acquired_at_ms = i.now_ms;
  lease_until_ms = i.lease_until_ms;
  revision = next_revision current;
})

-- The decision of an acquire whose input is valid.
decide_acquire : Option Lock → LeaseInput → AcquireResult
unfolding take_lock
decide_acquire none i = take_lock none i
decide_acquire (some (released r)) i = take_lock (some (released r)) i
decide_acquire (some (held h)) i =
    if ltb i.now_ms h.lease_until_ms
    then if is_owner h i.run_key i.owner_id then already_held h else held_by_other h
    else take_lock (some (held h)) i

-- `acquireLiveRunLock`
unfoldable pub acquire_lock : Option Lock → LeaseInput → Result LockError AcquireResult
unfolding validate_identity validate_lease decide_acquire
acquire_lock current i = do
  validate_identity i.run_key i.owner_id
  validate_lease i.now_ms i.lease_until_ms
  ok (decide_acquire current i)

decide_renew : Lock → LeaseInput → Result LockError Held
decide_renew (released r) i = err not_owner
decide_renew (held h) i =
    if not (is_owner h i.run_key i.owner_id) || leb h.lease_until_ms i.now_ms
    then err not_owner
    else if leb i.lease_until_ms h.lease_until_ms
    then err invalid_lease
    else ok (record h { lease_until_ms = i.lease_until_ms; revision = h.revision + 1 })

-- `renewLiveRunLock`
unfoldable pub renew_lock : Lock → LeaseInput → Result LockError Held
unfolding validate_identity validate_lease decide_renew
renew_lock current i = do
  validate_identity i.run_key i.owner_id
  validate_lease i.now_ms i.lease_until_ms
  decide_renew current i

abbrev free : Held → ℕ → ReleaseResult
free h now_ms = freed (record { released_at_ms = now_ms; revision = h.revision + 1 })

-- `releaseLiveRunLock`
unfoldable pub release_lock : Option Lock → ReleaseInput → Result LockError ReleaseResult
unfolding validate_identity
release_lock none i = ok nothing
release_lock (some (released r)) i = ok (unchanged r)
release_lock (some (held h)) i = do
  validate_identity i.run_key i.owner_id
  throw_if (not (is_safe_integer i.now_ms) || ltb i.now_ms h.acquired_at_ms) invalid_lease
  throw_if (not (is_owner h i.run_key i.owner_id)) not_owner
  ok (free h i.now_ms)

-- `releaseLiveRunLockForRun`
unfoldable pub release_for_run : Option Lock → String → ℕ → Result LockError ReleaseResult
release_for_run none run_key now_ms = ok nothing
release_for_run (some (released r)) run_key now_ms = ok (unchanged r)
release_for_run (some (held h)) run_key now_ms = do
  throw_if (is_blank run_key) invalid_identity
  throw_if (not (is_safe_integer now_ms) || ltb now_ms h.acquired_at_ms) invalid_lease
  ok (if h.run_key === run_key then free h now_ms else nothing)
