-- ===== src/RunLock/Tests.antt =====
-- The lock at concrete runs.
use devnet_deftrack.Common.{
  ℕ, suc, ◌-◌, ◌<◌, ◌≡◌, ◌≢◌, inl, refl, String, Option, none, some, ok, err, arith, List, [], ◌∷◌,
  eq_iff, is_blank,
}
use devnet_deftrack.RunLock.{
  Lock, held, Held, Released, acquired, LeaseInput, ReleaseInput, acquire_lock, renew_lock,
  release_lock, release_for_run,
}
use devnet_deftrack.RunLock.Service.{
  max_lock_cas_attempts, acquire, changed_repeatedly, compare_and_swap,
}
use devnet_deftrack.RunLock.Linear.{Advances, read_after}
use devnet_deftrack.RunLock.Exclusion.{
  Call, acquiring, renewing, releasing_run, call_all, acquire_atomic, service-Advances,
  acquire_settles, lock_exclusive,
}

lock_code : Unit {0}
unfolding acquire_lock renew_lock release_lock release_for_run acquire compare_and_swap is_blank
lock_code = tt

abbrev first : LeaseInput
first = record { run_key = "a"; owner_id = "ann"; now_ms = 10; lease_until_ms = 100 }

abbrev longer : LeaseInput
longer = record first { now_ms = 50; lease_until_ms = 200 }

abbrev second : LeaseInput
second = record { run_key = "b"; owner_id = "bob"; now_ms = 20; lease_until_ms = 300 }

abbrev first_held : Held
first_held = record {
  run_key = "a";
  owner_id = "ann";
  acquired_at_ms = 10;
  lease_until_ms = 100;
  revision = 0;
}

abbrev tombstone : Released
tombstone = record { released_at_ms = 60; revision = 1 }

abbrev leave : ReleaseInput
leave = record { run_key = "a"; owner_id = "ann"; now_ms = 60 }

-- Another process takes the lock between the read and the swap of the first attempt.
abbrev overtaken : ℕ → Option Lock → Option Lock
overtaken k c = (acquire (λ n d. d) second c).store

overtaken-Advances : (k : ℕ) (c : Option Lock) → Advances c (overtaken k c)
overtaken-Advances k c = (service-Advances (λ n d. d) (λ n d. inl refl) c).0 second

alone_acquires : (acquire (λ k c. c) first none).result ≡ ok (acquired first_held)
unfolding lock_code
alone_acquires = refl

acquire_atomic_example :
    (failed : ℕ) × (failed < max_lock_cas_attempts)
    × (let read = read_after (λ k c. c) max_lock_cas_attempts failed none in
        ((λ (k : ℕ) (c : Option Lock). c) (max_lock_cas_attempts - suc failed) read ≡ read)
        × (acquire_lock read first ≡ ok (acquired first_held))
        × ((acquire (λ k c. c) first none).store ≡ some (held first_held)))
acquire_atomic_example =
    acquire_atomic (λ k c. c) (λ k c. inl refl) first none first_held alone_acquires

acquire_settles_example : (acquire (λ k c. c) first none).result ≢ err changed_repeatedly
acquire_settles_example =
    acquire_settles (λ k c. c) (λ k c. inl refl) 4 (omega arith) (λ c. refl) first none

abbrev intruders : List Call
intruders = acquiring second ∷ renewing second ∷ releasing_run "b" 30 ∷ []

a_is_not_b : ◌≢◌ {A = String} "a" "b"
a_is_not_b e = cc ((eq_iff "a" "b").1 e)

lock_exclusive_example : call_all (some (held first_held)) intruders ≡ some (held first_held)
lock_exclusive_example =
    lock_exclusive first_held intruders
      ((λ by. a_is_not_b by.0, omega arith), (λ by. a_is_not_b by.0, (a_is_not_b, tt)))
