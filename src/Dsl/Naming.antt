-- ===== src/Dsl/Naming.antt =====
-- server/src/domain/dslCanonicalOrder.ts: the members that a commitment names, and the order of the list.
use mathlib.Core.List.{Permᴰ}
use mathlib.Core.List.Permᴰ
use devnet_deftrack.Common.{
  ℕ, zero, suc, ◌%◌, ◌≡◌, ◌↔◌, inl, inr, refl, sym, ap, ◌∙◌, true, false, none, some, List, [], ◌∷◌,
  map, length, get_elem?, any, leb, ◌==◌, arith, Bool-cases, Option-cases, subst, All, All-member,
  NoTies, sort_by-Perm,
}
use devnet_deftrack.Dsl.Order.{
  Hash, internal_byte_order, to_lower_case, Entry, entry_of, entry_before, canonical_dsl_order,
  members_at, resolve_missed_members,
}
use devnet_deftrack.Dsl.Texts.{
  text_before-total, entry_before-IsWeakOrder, internal_byte_order-injective,
}

-- A hash of 32 bytes, printed in lower case.
pub record IsProTxHash (hash : Hash) : Type 0 where
  pub long : length hash ≡ 64
  pub lower : to_lower_case hash ≡ hash

record IsEntry (e : Entry) : Type 0 where
  valid : IsProTxHash e.hash
  made : e ≡ entry_of e.hash

entries-IsEntry : (hashes : List Hash) → All IsProTxHash hashes → All IsEntry (map entry_of hashes)
unfolding entry_of
entries-IsEntry [] _ = tt
entries-IsEntry (hash ∷ hashes) (v, vs) =
    (record { valid = v; made = refl }, entries-IsEntry hashes vs)

entries-NoTies :
    (hashes : List Hash) → All IsProTxHash hashes → NoTies entry_before (map entry_of hashes)
unfolding entry_before entry_of internal_byte_order
entries-NoTies hashes valid a b m n h k =
    let all = entries-IsEntry hashes valid in
    let p = All-member IsEntry (map entry_of hashes) all m in
    let q = All-member IsEntry (map entry_of hashes) all n in
    let keys : a.key ≡ b.key = text_before-total a.key b.key h k in
    let key_of : (e : Entry) → IsEntry e → e.key ≡ internal_byte_order e.hash =
      λ e r. ap (λ x. x.key) r.made ∙ ap internal_byte_order r.valid.lower in
    let even : (c : Hash) → IsProTxHash c → length c % 2 ≡ 0 = λ c r. ap (λ x. x % 2) r.long in
    let same : a.hash ≡ b.hash =
      internal_byte_order-injective a.hash b.hash (even a.hash p.valid) (even b.hash q.valid)
        (sym (key_of a p) ∙ keys ∙ key_of b q) in
    p.made ∙ ap entry_of same ∙ sym q.made

-- In whatever order a node lists the same masternodes, under hashes of 32 bytes printed in lower case, a
-- commitment's indices name the same members, or none in both.
pub resolve_missed_members-Perm :
    {listed relisted : List Hash} (missed_indices : List ℕ) (list_size : ℕ)
    → All IsProTxHash listed
    → Permᴰ listed relisted
    → resolve_missed_members (canonical_dsl_order listed) missed_indices list_size
      ≡ resolve_missed_members (canonical_dsl_order relisted) missed_indices list_size
unfolding canonical_dsl_order
resolve_missed_members-Perm {listed} missed_indices list_size valid same =
    let sorted =
      sort_by-Perm entry_before entry_before-IsWeakOrder (entries-NoTies listed valid)
        (Permᴰ.map entry_of same) in
    ap (λ es. resolve_missed_members (map (λ e. e.hash) es) missed_indices list_size) sorted

-- What the indices name, one for one.
unfoldable pub Named :
    (order : List Hash) → (missed_indices : List ℕ) → (names : List Hash) → Type 0
Named order [] [] = Unit
Named order (index ∷ indices) (name ∷ names) =
    (get_elem? order index ≡ some name) × Named order indices names
Named order _ _ = ⊥

get_elem?-range :
    {A : Type 0} (xs : List A) (i : ℕ) → (leb (length xs) i ≡ true) ↔ (get_elem? xs i ≡ none)
get_elem?-range [] i = (λ _. refl, λ _. ground arith)
get_elem?-range (x ∷ xs) zero = (λ h. absurd (ground arith), λ h. absurd (ground arith))
get_elem?-range (x ∷ xs) (suc i) = ground (arith, get_elem?-range xs i)

members_at-Named :
    (order : List Hash) (indices : List ℕ)
    → any (λ index. leb (length order) index) indices ≡ false
    → Named order indices (members_at order indices)
unfolding Named members_at
members_at-Named order [] _ = tt
members_at-Named order (index ∷ indices) h =
    let inside : leb (length order) index ≡ false = ground arith in
    let others : any (λ index. leb (length order) index) indices ≡ false = ground arith in
    let rest = members_at-Named order indices others in
    elim (Option-cases (get_elem? order index)) [
      | inl missing ↦ let out = (get_elem?-range order index).1 missing in absurd (ground arith)
      | inr (name, found) ↦ rw found (found, rest)
    ]

Named-inside :
    (order : List Hash) (indices : List ℕ) (names : List Hash)
    → Named order indices names
    → (any (λ index. leb (length order) index) indices ≡ false) × (members_at order indices ≡ names)
unfolding Named members_at
Named-inside order [] [] _ = (refl, refl)
Named-inside order [] (name ∷ names) n = absurd n
Named-inside order (index ∷ indices) [] n = absurd n
Named-inside order (index ∷ indices) (name ∷ names) (found, n) =
    let rest = Named-inside order indices names n in
    let range = get_elem?-range order index in
    (ground (arith, rest, range, found), rw found (ap (λ ns. name ∷ ns) rest.1))

-- Members are named exactly if the list has the length that the commitment counted and holds every index, and then
-- they are what stands at the indices, one for one.
pub resolve_missed_members_iff :
    (order : List Hash) (missed_indices : List ℕ) (list_size : ℕ) (names : List Hash)
    → (resolve_missed_members order missed_indices list_size ≡ some names)
      ↔ ((length order ≡ list_size) × Named order missed_indices names)
unfolding resolve_missed_members
resolve_missed_members_iff order missed_indices list_size names = (
  (λ h. elim (Bool-cases (any (λ index. leb (length order) index) missed_indices)) [
    | inl out ↦ absurd (ground arith)
    | inr inside ↦
        let both : (length order ≡ list_size) × (members_at order missed_indices ≡ names) =
          ground arith in
        (
          both.0,
          subst (λ ns. Named order missed_indices ns) both.1
              (members_at-Named order missed_indices inside),
        )
  ]),
  (λ h.
      let (size, named) = h in
      let inside = Named-inside order missed_indices names named in
      let counted : (length order == list_size) ≡ true = ground arith in
      rw (counted, inside.0) (ap (λ ns. some ns) inside.1)),
)
