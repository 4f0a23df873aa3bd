-- ===== src/RunState/Laws.antt =====
-- What the transition and the reconcile of a run do on every branch.
use devnet_deftrack.Common.{
  ℕ, ◌+◌, ◌≤◌, String, ◌≡◌, ◌⊎◌, inl, inr, true, false, ok, arith, Option-cases, is_blank,
  is_safe_integer, eq_refl,
}
use devnet_deftrack.RunState.{
  Status, RunState, Event, EventType, Payload, plain, activation, fault, recovered,
}
use devnet_deftrack.RunState.Transition.{
  transition, request_abort, type_of, ordinary_transition, apply_plain, apply_payload,
  apply_ordinary, apply_fresh, is_abort, is_retry, is_changed_retry,
}
use devnet_deftrack.RunState.WellFormed.{transition-cases}

-- What an applied event records on the new state.
record Applied (s t : RunState) (e : Event) : Type 0 where
  revision : t.revision ≡ s.revision + 1
  updated : t.updated_at_ms ≡ e.at_ms
  same_key : t.run_key ≡ s.run_key
  same_live : t.live ≡ s.live
  same_created : t.created_at_ms ≡ s.created_at_ms
  same_expiry : t.run_expires_at_ms ≡ s.run_expires_at_ms
  kept_abort : s.abort_requested ≡ true → t.abort_requested ≡ true
  retry : is_retry t e ≡ true
  unchanged_retry : is_changed_retry t e ≡ false

abbrev pub make_event : String → ℕ → Payload → Event
make_event id at p = record { event_id = id; at_ms = at; payload = p }

module _ (s t : RunState) (id : String) (at : ℕ) where
  request_abort-Applied :
      (p : Payload)
      → is_abort (type_of p) ≡ true
      → request_abort s (make_event id at p) ≡ ok t
      → Applied s t (make_event id at p)
  unfolding request_abort is_retry is_changed_retry is_abort
  request_abort-Applied (plain EventType.abort_requested) a h = ground (arith, eq_refl id)
  request_abort-Applied p a h = cc

  apply_plain-Applied :
      (x : EventType) (to : Status)
      → apply_plain s (make_event id at (plain x)) x to ≡ ok t
      → Applied s t (make_event id at (plain x))
  unfolding apply_plain is_retry is_changed_retry
  apply_plain-Applied EventType.begin_preflight to h = ground (arith, eq_refl id)
  apply_plain-Applied x to h = ground (arith, eq_refl id)

  apply_payload-Applied :
      (p : Payload) (to : Status)
      → apply_payload s (make_event id at p) p to ≡ ok t
      → Applied s t (make_event id at p)
  unfolding apply_payload is_retry is_changed_retry
  apply_payload-Applied (plain x) to h = apply_plain-Applied x to h
  apply_payload-Applied (activation lease) to h = ground (arith, eq_refl id)
  apply_payload-Applied (fault lease tip) to h = ground (arith, eq_refl id)
  apply_payload-Applied (recovered tip) to h = ground (arith, eq_refl id)

module _ (s t : RunState) (e : Event) where
  apply_ordinary-Applied : apply_ordinary s e ≡ ok t → Applied s t e
  unfolding apply_ordinary
  apply_ordinary-Applied h =
      elim (Option-cases (ordinary_transition s.status (type_of e.payload))) [
        | inl unknown ↦ cc (rw (unknown, apply_ordinary) at h)
        | inr (to, found) ↦
            apply_payload-Applied s t e.event_id e.at_ms e.payload to
              (rw (found, apply_ordinary) at h)
      ]

  apply_fresh-Applied : apply_fresh s e ≡ ok t → Applied s t e
  unfolding apply_fresh
  apply_fresh-Applied h =
      ground (arith, request_abort-Applied s t e.event_id e.at_ms e.payload, apply_ordinary-Applied)

  -- An accepted event leaves the run as it is, or applies as a fresh event to it.
  transition-Applied : transition s e ≡ ok t → (t ≡ s) ⊎ Applied s t e
  transition-Applied h = elim (transition-cases s t e h) [
    | inl (_, same) ↦ inl same
    | inr (_, _, fresh) ↦ inr (apply_fresh-Applied fresh)
  ]

  transition-IsValid :
      transition s e ≡ ok t → (is_blank e.event_id ≡ false) × (is_safe_integer e.at_ms ≡ true)
  unfolding transition
  transition-IsValid h = ground arith

  transition_retried :
      is_blank e.event_id ≡ false
      → is_safe_integer e.at_ms ≡ true
      → is_retry s e ≡ true
      → is_changed_retry s e ≡ false
      → transition s e ≡ ok s
  unfolding transition is_retry
  transition_retried b i r c = ground arith

-- Delivering an accepted event a second time, at once, changes nothing.
pub transition_idempotent :
    (s t : RunState) (e : Event) → transition s e ≡ ok t → transition t e ≡ ok t
transition_idempotent s t e h = elim (transition-Applied s t e h) [
  | inl same ↦ rw same (rw same at h)
  | inr a ↦
      let (nonblank, safe) = transition-IsValid s t e h in
      transition_retried t t e nonblank safe a.retry a.unchanged_retry
]

-- Every accepted event keeps the identity of a run and its deadline, and a change moves the revision
-- on by one and the time to that of the event.
pub transition_history :
    (s t : RunState) (e : Event)
    → transition s e ≡ ok t
    → (t.run_key ≡ s.run_key)
      × (t.live ≡ s.live)
      × (t.run_expires_at_ms ≡ s.run_expires_at_ms)
      × (s.updated_at_ms ≤ t.updated_at_ms)
      × (s.abort_requested ≡ true → t.abort_requested ≡ true)
      × ((t ≡ s) ⊎ ((t.revision ≡ s.revision + 1) × (t.updated_at_ms ≡ e.at_ms)))
transition_history s t e h = elim (transition-cases s t e h) [
  | inl (_, same) ↦ ground arith
  | inr (_, later, fresh) ↦ let a = apply_fresh-Applied s t e fresh in ground arith
]
