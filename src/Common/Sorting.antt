-- ===== src/Common/Sorting.antt =====
-- `xs.sort(compare)`, which is stable, and when its outcome does not depend on the order of `xs`.
use mathlib.Core.Path.{◌≡◌, refl, sym, ap, ◌∙◌}
use mathlib.Core.Logic.{◌⊎◌, inl, inr}
use mathlib.Core.Bool.{Bool, true, false, ◌||◌}
use mathlib.Core.List.{List, [], ◌∷◌, Permᴰ, Memᴰ}
use mathlib.Core.List.Memᴰ
use Prim.Native.Nat.{suc}
use native.Mathlib.Omega.{arith}
use devnet_deftrack.Common.Lists.{any, length}
use devnet_deftrack.Common.Tests.{if◌then◌else◌, Bool-cases}

module _ {A : Type 0} (before : A → A → Bool) where
  -- An element goes in front of those that it does not stand behind.
  unfoldable pub insert_sorted : A → List A → List A
  insert_sorted a [] = a ∷ []
  insert_sorted a (b ∷ rest) = if before b a then b ∷ insert_sorted a rest else a ∷ b ∷ rest

  unfoldable pub sort_by : List A → List A
  unfolding insert_sorted
  sort_by [] = []
  sort_by (a ∷ xs) = insert_sorted a (sort_by xs)

  any-insert_sorted :
      (test : A → Bool) (a : A) (xs : List A)
      → any test (insert_sorted a xs) ≡ (test a || any test xs)
  unfolding insert_sorted
  any-insert_sorted test a [] = refl
  any-insert_sorted test a (b ∷ xs) =
      let rest = any-insert_sorted test a xs in
      elim (Bool-cases (before b a)) [
        | inl behind ↦ rw behind (ground arith)
        | inr front ↦ rw front refl
      ]

  -- Sorting keeps what a list has.
  pub any-sort_by : (test : A → Bool) (xs : List A) → any test (sort_by xs) ≡ any test xs
  unfolding sort_by
  any-sort_by test [] = refl
  any-sort_by test (a ∷ xs) =
      any-insert_sorted test a (sort_by xs) ∙ ap (λ b. test a || b) (any-sort_by test xs)

  length-insert_sorted : (a : A) (xs : List A) → length (insert_sorted a xs) ≡ suc (length xs)
  unfolding insert_sorted
  length-insert_sorted a [] = refl
  length-insert_sorted a (b ∷ xs) =
      let rest = length-insert_sorted a xs in
      elim (Bool-cases (before b a)) [
        | inl behind ↦ rw behind (ap suc rest)
        | inr front ↦ rw front refl
      ]

  pub length-sort_by : (xs : List A) → length (sort_by xs) ≡ length xs
  unfolding sort_by
  length-sort_by [] = refl
  length-sort_by (a ∷ xs) = length-insert_sorted a (sort_by xs) ∙ ap suc (length-sort_by xs)

  -- An order in which what stands before a second stands before a third or has it before the second.
  pub record IsWeakOrder : Type 0 where
    pub asym : (a b : A) → before a b ≡ true → before b a ≡ false
    pub cotrans : (a b c : A) → before a c ≡ true → (before a b ≡ true) ⊎ (before b c ≡ true)

  -- Elements of a list that the order does not tell apart are equal.
  abbrev pub NoTies : List A → Type 0
  NoTies xs = (a b : A) → Memᴰ a xs → Memᴰ b xs → before a b ≡ false → before b a ≡ false → a ≡ b

  insert_front :
      (a c : A) (xs : List A)
      → before c a ≡ true
      → insert_sorted a (c ∷ xs) ≡ c ∷ insert_sorted a xs
  unfolding insert_sorted
  insert_front a c xs h = rw h refl

  insert_back : (a c : A) (xs : List A) → before c a ≡ false → insert_sorted a (c ∷ xs) ≡ a ∷ c ∷ xs
  unfolding insert_sorted
  insert_back a c xs h = rw h refl

  module _ (w : IsWeakOrder) where
    insert_twice :
        (a b : A) (xs : List A)
        → before a b ≡ true
        → insert_sorted a (insert_sorted b xs) ≡ insert_sorted b (insert_sorted a xs)
    unfolding insert_sorted
    insert_twice a b [] h = let back = w.asym a b h in rw (h, back) refl
    insert_twice a b (c ∷ xs) h =
        let back = w.asym a b h in
        elim (Bool-cases (before c a)) [
          | inl front ↦ elim (w.cotrans c b a front) [
            | inr bad ↦ absurd (cc)
            | inl also ↦
                ap (insert_sorted a) (insert_front b c xs also)
                ∙ insert_front a c (insert_sorted b xs) front
                ∙ ap (λ ys. c ∷ ys) (insert_twice a b xs h)
                ∙ sym (insert_front b c (insert_sorted a xs) also)
                ∙ sym (ap (insert_sorted b) (insert_front a c xs front))
          ]
          | inr behind ↦ elim (Bool-cases (before c b)) [
            | inl between ↦
                ap (insert_sorted a) (insert_front b c xs between)
                ∙ insert_back a c (insert_sorted b xs) behind
                ∙ sym (ap (λ ys. a ∷ ys) (insert_front b c xs between))
                ∙ sym (insert_front b a (c ∷ xs) h)
                ∙ sym (ap (insert_sorted b) (insert_back a c xs behind))
            | inr last ↦
                ap (insert_sorted a) (insert_back b c xs last)
                ∙ insert_back a b (c ∷ xs) back
                ∙ sym (ap (λ ys. a ∷ ys) (insert_back b c xs last))
                ∙ sym (insert_front b a (c ∷ xs) h)
                ∙ sym (ap (insert_sorted b) (insert_back a c xs behind))
          ]
        ]

    insert_either :
        (a b : A) (xs : List A)
        → (before a b ≡ false → before b a ≡ false → a ≡ b)
        → insert_sorted a (insert_sorted b xs) ≡ insert_sorted b (insert_sorted a xs)
    insert_either a b xs k = elim (Bool-cases (before a b)) [
      | inl front ↦ insert_twice a b xs front
      | inr p ↦ elim (Bool-cases (before b a)) [
        | inl behind ↦ sym (insert_twice b a xs behind)
        | inr q ↦ let same = k p q in rw same refl
      ]
    ]

    perm_member : {xs ys : List A} (a : A) → Permᴰ xs ys → Memᴰ a ys → Memᴰ a xs
    perm_member a Permᴰ.nil m = m
    perm_member a (Permᴰ.cons e d) m = elim (Memᴰ.cases_cons m) [
      | inl here ↦ Memᴰ.head (here ∙ sym e)
      | inr there ↦ Memᴰ.tail (perm_member a d there)
    ]
    perm_member a (Permᴰ.swap e f) m = elim (Memᴰ.cases_cons m) [
      | inl here ↦ Memᴰ.tail (Memᴰ.head (here ∙ sym f))
      | inr there ↦ elim (Memᴰ.cases_cons there) [
        | inl second ↦ Memᴰ.head (second ∙ sym e)
        | inr later ↦ Memᴰ.tail (Memᴰ.tail later)
      ]
    ]
    perm_member a (Permᴰ.trans d e) m = perm_member a d (perm_member a e m)

    -- The order in which the elements come does not matter where no two of them are tied.
    pub sort_by-Perm : {xs ys : List A} → NoTies xs → Permᴰ xs ys → sort_by xs ≡ sort_by ys
    unfolding sort_by
    sort_by-Perm k Permᴰ.nil = refl
    sort_by-Perm k (Permᴰ.cons {b = b} {l₁ = l₁} e d) =
        let rest = sort_by-Perm (λ a c m n. k a c (Memᴰ.tail m) (Memᴰ.tail n)) d in
        rw (e, rest) refl
    sort_by-Perm k (Permᴰ.swap {a} {b} {l = l} e f) =
        insert_either a b (sort_by l) (k a b (Memᴰ.head refl) (Memᴰ.tail (Memᴰ.head refl)))
        ∙ (λ i. insert_sorted (f i) (insert_sorted (e i) (sort_by l)))
    sort_by-Perm k (Permᴰ.trans d e) =
        sort_by-Perm k d ∙ sort_by-Perm (λ a b m n. k a b (perm_member a d m) (perm_member b d n)) e
