-- ===== src/Reorg/Operator.antt =====
-- `confirmRewind` of server/src/services/sync.service.ts: what an operator can confirm.
use devnet_deftrack.Common.{
  ℕ, suc, ◌+◌, ◌-◌, ◌<◌, ◌≡◌, ◌≢◌, ◌⊎◌, inl, inr, refl, String, Bool, true, false, ◌&&◌, Option,
  none, some, leb, ◌==◌, ◌===◌, ok, arith, Bool-cases, Option-cases, sym, ◌∙◌, ap, subst, eq_iff,
}
use devnet_deftrack.Reorg.{max_rollback_depth, ReorgVerdict, proceed, rewind, wait, reorg_verdict}
use devnet_deftrack.Reorg.Search.{
  ForkPointProbe, agrees, undecidable, ForkPointSearch, found, no_common_history, unknown,
  find_fork_point,
}
use devnet_deftrack.Reorg.Bisection.{RestsOn, find_fork_point-RestsOn}
use devnet_deftrack.Reorg.Index.{Index}
use devnet_deftrack.Reorg.Rollback.{
  Node, stored_hash, hash_below_tip, ForkPoint, RewindInspection, in_sync, undecidable_now,
  different_chain, automatic, operator, compare_at, fork_point_at, judge, inspect_rewind,
  Confirmation, confirmed, confirm_rewind, inspect_at, confirm_inspected,
}
use devnet_deftrack.Reorg.Walk.{ok_inj, Disagreed}

-- The answer of a comparison, from what the node and the index say.
compared : (node_hash stored : Option String) → ForkPointProbe
compared none stored = undecidable "the node did not answer"
compared (some node_hash) none = undecidable "nothing is stored at this height"
compared (some node_hash) (some hash) = agrees (hash === node_hash)

compare_at-compared :
    (node : Node) (index : Index) (t h : ℕ)
    → compare_at node index t h ≡ compared (node (suc t) h) (stored_hash index h)
unfolding compare_at compared
compare_at-compared node index t h = go (node (suc t) h) (stored_hash index h) refl refl
  where
    go :
        (a s : Option String)
        → node (suc t) h ≡ a
        → stored_hash index h ≡ s
        → compare_at node index t h ≡ compared (node (suc t) h) (stored_hash index h)
    go none s p q = rw (p, compare_at) refl
    go (some x) none p q = rw (p, q, compare_at) refl
    go (some x) (some y) p q = rw (p, q, compare_at) refl

compared-true :
    (node_hash stored : Option String)
    → compared node_hash stored ≡ agrees true
    → (hash : String) × (node_hash ≡ some hash) × (stored ≡ some hash)
unfolding compared
compared-true none stored e = cc
compared-true (some x) none e = cc
compared-true (some x) (some y) e =
    let same = (eq_iff y x).0 (ground arith) in (x, refl, ap some same)

compared-false :
    (node_hash stored : Option String)
    → compared node_hash stored ≡ agrees false
    → (hash : String) × (node_hash ≡ some hash) × (stored ≢ some hash)
unfolding compared
compared-false none stored e = cc
compared-false (some x) none e = cc
compared-false (some x) (some y) e =
    (x, refl, λ q. let same : y ≡ x = cc in let k = (eq_iff y x).1 same in ground arith)

-- The node and the index have the hash of a fork point at its height, at some call.
abbrev pub AgreedOn : Node → Index → ForkPoint → Type 0
AgreedOn node index fork =
    (call : ℕ) × (node call fork.height ≡ some fork.hash)
    × (stored_hash index fork.height ≡ some fork.hash)

-- What an inspection that leaves the rewind to an operator rests on.
abbrev pub IsOperatorFork : Node → Index → (top : ℕ) → ForkPoint → Type 0
IsOperatorFork node index top fork =
    (max_rollback_depth < fork.depth)
    × (fork.depth ≡ top - fork.height)
    × AgreedOn node index fork
    × ((suc fork.height ≡ top) ⊎ Disagreed node index (suc fork.height))

operator_inj : {a b : ForkPoint} {m n : ℕ} → operator a m ≡ operator b n → a ≡ b
operator_inj h = cc

fork_point_at-AgreedOn :
    (node : Node) (index : Index) (top h call : ℕ) (hash : String)
    → node call h ≡ some hash
    → stored_hash index h ≡ some hash
    → AgreedOn node index (fork_point_at index top h)
fork_point_at-AgreedOn node index top h call hash a b =
    let same : (fork_point_at index top h).hash ≡ hash = rw (fork_point_at, b) refl in
    (call, a ∙ ap (λ x. some x) (sym same), b ∙ ap (λ x. some x) (sym same))

judge-IsOperatorFork :
    (node : Node) (index : Index) (top : ℕ) (fork : ForkPoint) (probes : ℕ)
    → judge index top (find_fork_point top (compare_at node index)) ≡ operator fork probes
    → IsOperatorFork node index top fork
judge-IsOperatorFork node index top fork probes e =
    elim (Option-cases (find_fork_point top (compare_at node index))) [
      | inl out ↦ absurd (cc (rw out at e))
      | inr (r, done) ↦
          go r (find_fork_point-RestsOn top (compare_at node index) r done) (rw done at e)
    ]
  where
    go :
        (r : ForkPointSearch)
        → RestsOn top (compare_at node index) r
        → judge index top (some r) ≡ operator fork probes
        → IsOperatorFork node index top fork
    go (unknown h reason p) rests q = cc
    go (no_common_history p) rests q = cc
    go (found h p) (lt, (t, on), side) q = elim (Bool-cases (leb (top - h) max_rollback_depth)) [
      | inl shallow ↦ absurd (cc (rw shallow at q))
      | inr deep ↦
          let is_fork : fork_point_at index top h ≡ fork = operator_inj (rw deep at q) in
          let (x, a, b) =
            compared-true (node (suc t) h) (stored_hash index h)
              (sym (compare_at-compared node index t h) ∙ on) in
          subst (IsOperatorFork node index top) is_fork (
            ground arith,
            refl,
            fork_point_at-AgreedOn node index top h (suc t) x a b,
            elim side [
              | inl last ↦ inl last
              | inr (u, off) ↦
                  let (y, c, d) =
                    compared-false (node (suc u) (suc h)) (stored_hash index (suc h))
                      (sym (compare_at-compared node index u (suc h)) ∙ off) in
                  inr (suc u, y, c, d)
            ],
          )
    ]

inspect_rewind-IsOperatorFork :
    (tip : ℕ) (node : Node) (index : Index) (fork : ForkPoint) (probes : ℕ)
    → inspect_rewind tip node index ≡ operator fork probes
    → (top : ℕ) × (index.last_synced_height ≡ some top) × IsOperatorFork node index top fork
unfolding inspect_rewind
inspect_rewind-IsOperatorFork tip node index fork probes e =
    elim (Option-cases index.last_synced_height) [
      | inl fresh ↦ absurd (cc (rw (fresh, inspect_rewind) at e))
      | inr (top, synced) ↦ (
        top,
        synced,
        verdict top (reorg_verdict top index.last_synced_hash tip (hash_below_tip node tip top))
            refl (rw (synced, inspect_rewind) at e),
      )
    ]
  where
    verdict :
        (top : ℕ) (v : ReorgVerdict)
        → reorg_verdict top index.last_synced_hash tip (hash_below_tip node tip top) ≡ v
        → inspect_at top tip node index ≡ operator fork probes
        → IsOperatorFork node index top fork
    verdict top proceed q k = absurd (cc (rw (q, inspect_at) at k))
    verdict top (wait reason) q k = absurd (cc (rw (q, inspect_at) at k))
    verdict top rewind q k =
        judge-IsOperatorFork node index top fork probes (rw (q, inspect_at) at k)

-- A rewind that an operator confirms goes to the height that was confirmed, and only if it is the fork
-- point that the node and the index have now: both have the confirmed hash there, they disagree one
-- block above it or it is the last below the indexed one, and it is more than two hundred blocks down.
pub confirm_rewind_outcome :
    (is_running : Bool) (input : Confirmation) (tip : ℕ) (node : Node) (index index' : Index)
    (fork : ForkPoint)
    → confirm_rewind is_running input tip node index ≡ ok (fork, index')
    → (is_running ≡ false)
      × (fork.height ≡ input.height)
      × (fork.hash ≡ input.hash)
      × ((top : ℕ) × (index.last_synced_height ≡ some top) × IsOperatorFork node index top fork)
      × ((survivor : Option String) × (index' ≡ confirmed input fork survivor index))
unfolding confirm_rewind
confirm_rewind_outcome is_running input tip node index index' fork e =
    elim (Bool-cases is_running) [
      | inl busy ↦ absurd (cc (rw (busy, confirm_rewind) at e))
      | inr idle ↦
          let (a, b, top, done) =
            go (inspect_rewind tip node index) refl (rw (idle, confirm_rewind) at e) in
          (idle, a, b, top, done)
    ]
  where
    go :
        (i : RewindInspection)
        → inspect_rewind tip node index ≡ i
        → confirm_inspected input node index i ≡ ok (fork, index')
        → (fork.height ≡ input.height)
          × (fork.hash ≡ input.hash)
          × ((top : ℕ) × (index.last_synced_height ≡ some top) × IsOperatorFork node index top fork)
          × ((survivor : Option String) × (index' ≡ confirmed input fork survivor index))
    go in_sync q k = cc
    go undecidable_now q k = cc
    go different_chain q k = cc
    go (automatic f) q k = cc
    go (operator f probes) q k =
        elim (Bool-cases (f.height == input.height && f.hash === input.hash)) [
          | inr other ↦ absurd (cc (rw other at k))
          | inl same ↦
              let pair = ok_inj (rw same at k) in
              let is_fork : f ≡ fork = ap (λ r. r.0) pair in
              let a : f.height ≡ input.height = ground arith in
              let b : f.hash ≡ input.hash = (eq_iff f.hash input.hash).0 (ground arith) in
              subst
                (λ x.
                  (x.height ≡ input.height)
                  × (x.hash ≡ input.hash)
                  × ((top : ℕ) × (index.last_synced_height ≡ some top)
                      × IsOperatorFork node index top x)
                  × ((s : Option String) × (index' ≡ confirmed input x s index)))
                is_fork
                (
                  a,
                  b,
                  inspect_rewind-IsOperatorFork tip node index f probes q,
                  (node (probes + 1) f.height, sym (ap (λ r. r.1) pair)),
                )
        ]
