-- ===== src/Actions/Exclusive.antt =====
-- server/src/domain/actionLease.ts: an action under a lease, and the calls of other workers.
use mathlib.Core.List.{Memᴰ}
use devnet_deftrack.Common.{
  ℕ, ◌≤◌, ◌<◌, ◌≡◌, ◌≢◌, refl, String, some, List, [], ◌∷◌, arith, All, subst, sym, eq_iff,
}
use devnet_deftrack.Actions.{
  Action, ActionStatus, is_claimable, is_renewable, is_settleable, is_overdue,
}
use devnet_deftrack.Actions.History.{
  QueueCall, enqueuing, cancelling, claiming, renewing, settling, expiring, Move, kept, cancels,
  claims, renews, settles, expires, step_queue, run_queue, step_queue-Moved, Moved-member,
}

-- An action that a worker holds until an instant.
pub record IsHeld (worker : String) (until : ℕ) (a : Action) : Type 0 where
  pub claimed : a.status ≡ ActionStatus.claimed
  pub owner : a.claimed_by ≡ some worker
  pub lease : a.lease_until_ms ≡ some until

-- A call of another worker, or of none, before an instant.
abbrev pub IsOutside : String → ℕ → QueueCall → Type 0
IsOutside worker until (enqueuing rows) = Unit
IsOutside worker until (cancelling run_key now) = Unit
IsOutside worker until (claiming input) = input.now_ms < until
IsOutside worker until (renewing id other now lease) = other ≢ worker
IsOutside worker until (settling id other status result at) = other ≢ worker
IsOutside worker until (expiring now) = now < until

Move-outside :
    (worker : String) (until : ℕ) (call : QueueCall) (a b : Action)
    → IsHeld worker until a
    → until ≤ a.expires_at_ms
    → IsOutside worker until call
    → Move a call b
    → b ≡ a
unfolding is_claimable is_renewable is_settleable is_overdue
Move-outside worker until _ a b h le o (kept call) = refl
Move-outside worker until _ a b h le o (cancels run now hit) = absurd (ground arith)
Move-outside worker until _ a b h le o (claims input hit) = absurd (ground arith)
Move-outside worker until _ a b h le o (renews id other now lease hit) =
    let same = (eq_iff worker other).0 (ground arith) in absurd (o (sym same))
Move-outside worker until _ a b h le o (settles id other status result at hit) =
    let same = (eq_iff worker other).0 (ground arith) in absurd (o (sym same))
Move-outside worker until _ a b h le o (expires now hit) = absurd (ground arith)

-- An action that a worker holds under a lease that ends no later than the action itself stays as it is,
-- whatever other workers call on the collection before the lease runs out.
pub lease_exclusive :
    (worker : String) (until : ℕ) (calls : List QueueCall) (actions : List Action) (a : Action)
    → IsHeld worker until a
    → until ≤ a.expires_at_ms
    → All (IsOutside worker until) calls
    → Memᴰ a actions
    → Memᴰ a (run_queue calls actions)
unfolding run_queue
lease_exclusive worker until [] actions a h le o m = m
lease_exclusive worker until (call ∷ calls) actions a h le (o, os) m =
    let (b, move, k) =
      Moved-member call actions (step_queue call actions) a (step_queue-Moved call actions) m in
    lease_exclusive worker until calls (step_queue call actions) a h le os (
      subst (λ x. Memᴰ x (step_queue call actions)) (Move-outside worker until call a b h le o move)
        k)
