-- ===== src/RunLock/Linear.antt =====
-- The compare-and-swap loops of server/src/services/simulationLiveRunLock.service.ts against other processes.
use native.Mathlib.Decide.{dec_lt}
use devnet_deftrack.Common.{
  ℕ, zero, suc, ◌-◌, ◌<◌, ◌≡◌, ◌≢◌, ◌⊎◌, inl, inr, refl, Option, none, some, Result, ok, err, arith,
  Option-cases, ap, ◌∙◌,
}
use devnet_deftrack.RunLock.{Lock, held, released, revision_of}
use devnet_deftrack.RunLock.Service.{
  compare_and_swap, ServiceError, changed_repeatedly, returns, throws, cas_loop, Round, returning,
  swapping,
}

-- A revision is older than another; no document is older than any.
abbrev pub IsOlder : Option ℕ → Option ℕ → Type 0
IsOlder none none = ⊥
IsOlder none (some n) = Unit
IsOlder (some m) none = ⊥
IsOlder (some m) (some n) = m < n

-- The document has stayed as it was, or has moved on to a later revision.
abbrev pub Advances : Option Lock → Option Lock → Type 0
Advances c d = (d ≡ c) ⊎ IsOlder (revision_of c) (revision_of d)

IsOlder-trans : (a b c : Option ℕ) → IsOlder a b → IsOlder b c → IsOlder a c
IsOlder-trans none none c h k = elim h [ ]
IsOlder-trans none (some b) none h k = elim k [ ]
IsOlder-trans none (some b) (some c) h k = tt
IsOlder-trans (some a) none c h k = elim h [ ]
IsOlder-trans (some a) (some b) none h k = elim k [ ]
IsOlder-trans (some a) (some b) (some c) h k = omega arith

Advances-trans : (a b c : Option Lock) → Advances a b → Advances b c → Advances a c
Advances-trans a b c (inl p) k = rw (← p) k
Advances-trans a b c (inr h) (inl q) = rw q (inr h)
Advances-trans a b c (inr h) (inr k) =
    inr (IsOlder-trans (revision_of a) (revision_of b) (revision_of c) h k)

-- A swap against the revision of an earlier read replaces the document that was read.
swap_same :
    (c d e : Option Lock) (next : Lock)
    → Advances c d
    → compare_and_swap (revision_of c) next d ≡ some e
    → (d ≡ c) × (e ≡ some next)
unfolding compare_and_swap
swap_same none none e next a h = ground arith
swap_same none (some d) e next a h = cc
swap_same (some (held c)) none e next a h = cc
swap_same (some (released c)) none e next a h = cc
swap_same (some (held c)) (some (held d)) e next a h = ground arith
swap_same (some (held c)) (some (released d)) e next a h = ground arith
swap_same (some (released c)) (some (held d)) e next a h = ground arith
swap_same (some (released c)) (some (released d)) e next a h = ground arith

-- A swap against the revision of the document as it is succeeds.
swap_unchanged :
    (c : Option Lock) (next : Lock) → compare_and_swap (revision_of c) next c ≡ some (some next)
unfolding compare_and_swap
swap_unchanged none next = refl
swap_unchanged (some (held c)) next = ground arith
swap_unchanged (some (released c)) next = ground arith

-- Either a swap finds the document changed, or it replaces the one that was read.
swap_cases :
    (c d : Option Lock) (next : Lock)
    → Advances c d
    → (compare_and_swap (revision_of c) next d ≡ none)
      ⊎ ((d ≡ c) × (compare_and_swap (revision_of c) next d ≡ some (some next)))
swap_cases c d next a = elim (Option-cases (compare_and_swap (revision_of c) next d)) [
  | inl lost ↦ inl lost
  | inr (e, won) ↦
      let (same, written) = swap_same c d e next a won in inr (same, won ∙ ap some written)
]

-- The document that a call reads in its next attempts, with so many attempts left of which so many fail.
abbrev pub read_after :
    (others : ℕ → Option Lock → Option Lock) → (attempts failed : ℕ) → Option Lock → Option Lock
read_after others attempts zero store = store
read_after others zero (suc failed) store = store
read_after others (suc n) (suc failed) store = read_after others n failed (others n store)

-- What a call did at once: it decided on the document that it read in an attempt, and where it wrote, the other
-- processes had left that document in the store up to the write.
pub record Linearized {ℓ} {A : Type ℓ} (others : ℕ → Option Lock → Option Lock)
    (decide : Option Lock → Result ServiceError (Round A)) (attempts : ℕ) (a : A)
    (start final : Option Lock) : Type ℓ where
  pub failed : ℕ
  pub in_time : failed < attempts
  pub effect :
      let read = read_after others attempts failed start in
      ((decide read ≡ ok (returning a)) × (final ≡ read))
      ⊎ ((next : Lock) × (decide read ≡ ok (swapping next a))
          × (final ≡ some next)
          × (others (attempts - suc failed) read ≡ read))

Linearized-later {ℓ} :
    {A : Type ℓ} (others : ℕ → Option Lock → Option Lock)
    (decide : Option Lock → Result ServiceError (Round A)) (n : ℕ) (a : A)
    (start final : Option Lock)
    → Linearized others decide n a (others n start) final
    → Linearized others decide (suc n) a start final
Linearized-later others decide n a start final l =
    let left : suc n - suc (suc l.failed) ≡ n - suc l.failed = omega arith in
    let early = l.in_time in
    record {
      failed = suc l.failed;
      in_time = omega arith;
      effect = elim l.effect [
        | inl told ↦ inl told
        | inr (next, won, written, left_alone) ↦ inr (
          next,
          won,
          written,
          ap (λ k. others k (read_after others n l.failed (others n start))) left ∙ left_alone,
        )
      ];
    }

Round-cases {ℓ} :
    {A : Type ℓ} (r : Result ServiceError (Round A))
    → ((e : ServiceError) × (r ≡ err e))
      ⊎ (((a : A) × (r ≡ ok (returning a)))
          ⊎ ((next : Lock) × (a : A) × (r ≡ ok (swapping next a))))
Round-cases (err e) = inl (e, refl)
Round-cases (ok (returning a)) = inr (inl (a, refl))
Round-cases (ok (swapping next a)) = inr (inr (next, a, refl))

-- The four ways a round of the loop goes.
module _ {ℓ} {A : Type ℓ} (others : ℕ → Option Lock → Option Lock)
    (decide : Option Lock → Result ServiceError (Round A)) (n : ℕ) (store : Option Lock) where
  cas_loop-throws :
      (e : ServiceError)
      → decide store ≡ err e
      → cas_loop others decide (suc n) store ≡ throws e store
  unfolding cas_loop
  cas_loop-throws e q = rw (q, cas_loop)

  cas_loop-returns :
      (a : A)
      → decide store ≡ ok (returning a)
      → cas_loop others decide (suc n) store ≡ returns a store
  unfolding cas_loop
  cas_loop-returns a q = rw (q, cas_loop)

  module _ (next : Lock) (a : A) (q : decide store ≡ ok (swapping next a)) where
    cas_loop_swaps :
        (d : Option Lock)
        → compare_and_swap (revision_of store) next (others n store) ≡ some d
        → cas_loop others decide (suc n) store ≡ returns a d
    unfolding cas_loop
    cas_loop_swaps d won = rw (q, cas_loop) (rw (won, cas_loop))

    cas_loop_retries :
        compare_and_swap (revision_of store) next (others n store) ≡ none
        → cas_loop others decide (suc n) store ≡ cas_loop others decide n (others n store)
    unfolding cas_loop
    cas_loop_retries lost = rw (q, cas_loop) (rw (lost, cas_loop))

-- A call that decides on no swap leaves the document as it is.
pub cas_loop_idle {ℓ} :
    {A : Type ℓ} (others : ℕ → Option Lock → Option Lock)
    (decide : Option Lock → Result ServiceError (Round A)) (n : ℕ) (store : Option Lock)
    → ((next : Lock) (a : A) → decide store ≢ ok (swapping next a))
    → (cas_loop others decide n store).store ≡ store
unfolding cas_loop
cas_loop_idle others decide zero store idle = refl
cas_loop_idle others decide (suc n) store idle = elim (Round-cases (decide store)) [
  | inl (e, q) ↦ rw (cas_loop-throws others decide n store e q)
  | inr (inl (b, q)) ↦ rw (cas_loop-returns others decide n store b q)
  | inr (inr (next, b, q)) ↦ absurd (idle next b q)
]

module _ {ℓ} {A : Type ℓ} (others : ℕ → Option Lock → Option Lock)
    (adv : (k : ℕ) (c : Option Lock) → Advances c (others k c))
    (decide : Option Lock → Result ServiceError (Round A)) where
  pub cas_loop-Linearized :
      (n : ℕ) (store : Option Lock) (a : A)
      → (cas_loop others decide n store).result ≡ ok a
      → Linearized others decide n a store (cas_loop others decide n store).store
  unfolding cas_loop
  cas_loop-Linearized zero store a p = cc
  cas_loop-Linearized (suc n) store a p = elim (Round-cases (decide store)) [
    | inl (e, q) ↦ let o = cas_loop-throws others decide n store e q in cc
    | inr (inl (b, q)) ↦
        let o = cas_loop-returns others decide n store b q in
        record { failed = 0; in_time = omega arith; effect = inl (cc, cc) }
    | inr (inr (next, b, q)) ↦ elim (swap_cases store (others n store) next (adv n store)) [
      | inl lost ↦
          let o = cas_loop_retries others decide n store next b q lost in
          rw o (
            Linearized-later others decide n a store _
              (cas_loop-Linearized n (others n store) a (rw o at p)))
      | inr (same, won) ↦
          let o = cas_loop_swaps others decide n store next b q (some next) won in
          let last : suc n - 1 ≡ n = omega arith in
          record {
            failed = 0;
            in_time = omega arith;
            effect = inr (next, cc, cc, ap (λ k. others k store) last ∙ same);
          }
    ]
  ]

  -- Provided that every swap that is decided moves the revision on, so does the whole call.
  pub cas_loop-Advances :
      ((c : Option Lock) (next : Lock) (a : A)
        → decide c ≡ ok (swapping next a)
        → IsOlder (revision_of c) (revision_of (some next)))
      → (n : ℕ) (store : Option Lock) → Advances store (cas_loop others decide n store).store
  unfolding cas_loop
  cas_loop-Advances grows zero store = inl refl
  cas_loop-Advances grows (suc n) store = elim (Round-cases (decide store)) [
    | inl (e, q) ↦ rw (cas_loop-throws others decide n store e q) (inl refl)
    | inr (inl (b, q)) ↦ rw (cas_loop-returns others decide n store b q) (inl refl)
    | inr (inr (next, b, q)) ↦ elim (swap_cases store (others n store) next (adv n store)) [
      | inl lost ↦ rw (cas_loop_retries others decide n store next b q lost) (
          Advances-trans store (others n store) (cas_loop others decide n (others n store)).store
            (adv n store) (cas_loop-Advances grows n (others n store)))
      | inr (same, won) ↦
          rw (cas_loop_swaps others decide n store next b q (some next) won)
            (inr (grows store next b q))
    ]
  ]

  -- If the document is left alone during one of the attempts, the call does not give up.
  pub cas_loop_settles :
      ((c : Option Lock) → decide c ≢ err changed_repeatedly)
      → (k n : ℕ) → k < n
      → ((c : Option Lock) → others k c ≡ c)
      → (store : Option Lock) → (cas_loop others decide n store).result ≢ err changed_repeatedly
  unfolding cas_loop
  cas_loop_settles plain k zero h alone store = elim h [ ]
  cas_loop_settles plain k (suc n) h alone store = elim (Round-cases (decide store)) [
    | inl (e, q) ↦
        let o = cas_loop-throws others decide n store e q in let p = plain store in λ x. p (cc)
    | inr (inl (b, q)) ↦ let o = cas_loop-returns others decide n store b q in λ x. cc
    | inr (inr (next, b, q)) ↦ elim (swap_cases store (others n store) next (adv n store)) [
      | inl lost ↦ rw (cas_loop_retries others decide n store next b q lost) (elim (dec_lt k n) [
        | yes below ↦ cas_loop_settles plain k n below alone (others n store)
        | no here ↦ absurd (
            let same_round : n ≡ k = omega arith in
            let same : others n store ≡ store = rw same_round (alone store) in
            let won = swap_unchanged store next in let lost' = rw same at lost in cc)
      ])
      | inr (same, won) ↦
          let o = cas_loop_swaps others decide n store next b q (some next) won in λ x. cc
    ]
  ]
