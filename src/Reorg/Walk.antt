-- ===== src/Reorg/Walk.antt =====
-- The rollbacks of server/src/services/sync.service.ts and the fork point.
use devnet_deftrack.Common.{
  ℕ, zero, suc, ◌+◌, ◌-◌, ◌≤◌, ◌<◌, ◌≡◌, ◌≢◌, inl, inr, refl, String, true, false, Option, none,
  some, ltb, leb, Result, ok, arith, Bool-cases, Result-cases, ap, subst, eq_iff, ltb→lt, leb→le,
}
use devnet_deftrack.Reorg.{
  max_rollback_depth, ReorgVerdict, proceed, rewind, wait, reorg_verdict, RewindStep, settle, step,
  halt, rewind_step, is_stored,
}
use devnet_deftrack.Reorg.Index.{Index, rewind_to}
use devnet_deftrack.Reorg.Rollback.{Node, stored_hash, walk, hash_below_tip, rollback_if_reorged}

-- At a call the node gave the hash that is stored at a height.
abbrev pub Agreed : Node → Index → ℕ → Type 0
Agreed node index h =
    (call : ℕ) × (hash : String) × (node call h ≡ some hash) × (stored_hash index h ≡ some hash)

-- At a call the node gave a hash that is not the stored one.
abbrev pub Disagreed : Node → Index → ℕ → Type 0
Disagreed node index h =
    (call : ℕ) × (hash : String) × (node call h ≡ some hash) × (stored_hash index h ≢ some hash)

-- A height below which nothing was compared, that agreed, and above which every height disagreed.
pub record IsFork (node : Node) (index : Index) (top : ℕ) (h : ℕ) : Type 0 where
  pub below : h ≤ top
  pub agreed : Agreed node index h
  pub disagreed : (k : ℕ) → h < k → k ≤ top → Disagreed node index k

pub ok_inj : {E A : Type 0} {a b : A} → ◌≡◌ {A = Result E A} (ok a) (ok b) → a ≡ b
ok_inj h = cc

not_stored :
    (stored : Option String) (hash : String) → is_stored stored hash ≡ false → stored ≢ some hash
not_stored none hash h e = cc
not_stored (some other) hash h e =
    let same : other ≡ hash = cc in let k = (eq_iff other hash).1 same in cc

is_stored_same :
    (stored : Option String) (hash : String) → is_stored stored hash ≡ true → stored ≡ some hash
is_stored_same none hash h = cc
is_stored_same (some other) hash h = let same = (eq_iff other hash).0 h in cc

-- What a step of the walk rests on.
abbrev StepCases : (cursor floor : ℕ) → (stored answer : Option String) → RewindStep → Type 0
StepCases cursor floor stored answer settle =
    (hash : String) × (answer ≡ some hash) × (stored ≡ some hash)
StepCases cursor floor stored answer step =
    (floor < cursor) × ((hash : String) × (answer ≡ some hash) × (stored ≢ some hash))
StepCases cursor floor stored answer (halt reason) = Unit

rewind_step-StepCases :
    (cursor floor : ℕ) (stored answer : Option String) (s : RewindStep)
    → rewind_step cursor floor stored answer ≡ s
    → StepCases cursor floor stored answer s
unfolding rewind_step
rewind_step-StepCases cursor floor stored answer s e =
    subst (StepCases cursor floor stored answer) e (go answer)
  where
    go :
        (answer : Option String)
        → StepCases cursor floor stored answer (rewind_step cursor floor stored answer)
    go none = tt
    go (some hash) = elim (Bool-cases (is_stored stored hash)) [
      | inl same ↦ rw (same, rewind_step) (hash, refl, is_stored_same stored hash same)
      | inr other ↦ elim (Bool-cases (ltb floor cursor)) [
        | inl deeper ↦
            rw (other, deeper, rewind_step)
              (ltb→lt floor cursor deeper, (hash, refl, not_stored stored hash other))
        | inr at_floor ↦ rw (other, at_floor, rewind_step) tt
      ]
    ]

-- Where the walk ends is at or above the floor, agreed, and everything above it disagreed.
walk-IsFork :
    (floor call cursor : ℕ) (node : Node) (index : Index) (c : Option ℕ) (survivor : Option String)
    → floor ≤ cursor
    → walk floor call cursor node index ≡ ok (c, survivor)
    → (h : ℕ) × (c ≡ some h) × (floor ≤ h) × IsFork node index cursor h
unfolding walk
walk-IsFork floor call zero node index c survivor le e =
    go (rewind_step zero floor (stored_hash index zero) (node call zero)) refl
  where
    go :
        (s : RewindStep)
        → rewind_step zero floor (stored_hash index zero) (node call zero) ≡ s
        → (h : ℕ) × (c ≡ some h) × (floor ≤ h) × IsFork node index zero h
    go settle q =
        let (hash, a, b) =
          rewind_step-StepCases zero floor (stored_hash index zero) (node call zero) settle q in
        let same : c ≡ some zero = cc (rw (q, walk) at e) in
        (
          zero,
          same,
          le,
          record {
            below = omega arith;
            agreed = (call, hash, a, b);
            disagreed = λ k p r. absurd (omega arith);
          },
        )
    go step q =
        let (lt, _) =
          rewind_step-StepCases zero floor (stored_hash index zero) (node call zero) step q in
        absurd (omega arith)
    go (halt reason) q = absurd (cc (rw (q, walk) at e))
walk-IsFork floor call (suc cursor) node index c survivor le e =
    go (rewind_step (suc cursor) floor (stored_hash index (suc cursor)) (node call (suc cursor)))
      refl (λ le' e'. walk-IsFork floor (suc call) cursor node index c survivor le' e')
  where
    go :
        (s : RewindStep)
        → rewind_step (suc cursor) floor (stored_hash index (suc cursor)) (node call (suc cursor))
          ≡ s
        → (floor ≤ cursor
            → walk floor (suc call) cursor node index ≡ ok (c, survivor)
            → (h : ℕ) × (c ≡ some h) × (floor ≤ h) × IsFork node index cursor h)
        → (h : ℕ) × (c ≡ some h) × (floor ≤ h) × IsFork node index (suc cursor) h
    go settle q rest =
        let (hash, a, b) =
          rewind_step-StepCases (suc cursor) floor (stored_hash index (suc cursor))
            (node call (suc cursor)) settle q in
        let same : c ≡ some (suc cursor) = cc (rw (q, walk) at e) in
        (
          suc cursor,
          same,
          le,
          record {
            below = omega arith;
            agreed = (call, hash, a, b);
            disagreed = λ k p r. absurd (omega arith);
          },
        )
    go step q rest =
        let (lt, (hash, a, b)) =
          rewind_step-StepCases (suc cursor) floor (stored_hash index (suc cursor))
            (node call (suc cursor)) step q in
        let (h, same, above, fork) = rest (omega arith) (rw (q, walk) at e) in
        (
          h,
          same,
          above,
          record {
            below = omega (arith, fork.below);
            agreed = fork.agreed;
            disagreed = λ k p r. elim (Bool-cases (leb k cursor)) [
              | inl lower ↦ fork.disagreed k p (leb→le k cursor lower)
              | inr top ↦
                  let is_top : suc cursor ≡ k = ground arith in
                  subst (Disagreed node index) is_top (call, hash, a, b)
            ];
          },
        )
    go (halt reason) q rest = absurd (cc (rw (q, walk) at e))

-- What a rollback that did not throw has done.
abbrev pub RollbackOutcome : (height : ℕ) → Node → Index → Option (Option ℕ) → Index → Type 0
RollbackOutcome height node index none index' = index' ≡ index
RollbackOutcome height node index (some c) index' =
    (h : ℕ) × (c ≡ some h)
    × (height ≤ h + max_rollback_depth)
    × IsFork node index height h
    × ((survivor : Option String) × (index' ≡ rewind_to (some h) survivor index))

-- A rollback leaves the index as it is, or rewinds it to the fork point: the node gave the stored hash
-- there, gave another hash than the stored one for every height above it up to the indexed one, and
-- it is at most two hundred blocks down.
pub rollback_outcome :
    (height : ℕ) (hash : String) (tip : ℕ) (node : Node) (index index' : Index)
    (c : Option (Option ℕ))
    → rollback_if_reorged height hash tip node index ≡ ok (c, index')
    → RollbackOutcome height node index c index'
unfolding rollback_if_reorged
rollback_outcome height hash tip node index index' c e =
    go (reorg_verdict height hash tip (hash_below_tip node tip height)) refl
  where
    go :
        (v : ReorgVerdict)
        → reorg_verdict height hash tip (hash_below_tip node tip height) ≡ v
        → RollbackOutcome height node index c index'
    go proceed q =
        let same : (none, index) ≡ (c, index') = ok_inj (rw (q, rollback_if_reorged) at e) in
        subst (λ r. RollbackOutcome height node index r.0 r.1) same refl
    go (wait reason) q = absurd (cc (rw (q, rollback_if_reorged) at e))
    go rewind q =
        let e' = rw (q, rollback_if_reorged) at e in
        elim (Result-cases (walk (height - max_rollback_depth) 1 height node index)) [
          | inl (bad, w) ↦ absurd (cc (rw w at e'))
          | inr ((cursor, survivor), w) ↦
              let (h, same, floor, fork) =
                walk-IsFork (height - max_rollback_depth) 1 height node index cursor survivor
                  (omega arith) w in
              let done : (some cursor, rewind_to cursor survivor index) ≡ (c, index') =
                ok_inj (rw w at e') in
              subst (λ r. RollbackOutcome height node index r.0 r.1) done
                (h, same, omega arith, fork, (survivor, ap (λ x. rewind_to x survivor index) same))
        ]
