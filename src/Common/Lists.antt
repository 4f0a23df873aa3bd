-- ===== src/Common/Lists.antt =====
-- Lists measured and searched with native numbers and Boolean tests, under the library's names.
use Prim.Native.Nat.{ℕ, zero, suc, ◌+◌, ◌≤◌}
use mathlib.Core.Path.{ap, refl, ◌≡◌, subst, sym}
use mathlib.Core.Logic.{inl, inr}
use mathlib.Core.List.Memᴰ
use mathlib.Core.List.{Memᴰ}
use mathlib.Core.Bool.{not, ◌&&◌, true, Bool, false, ◌||◌}
use mathlib.Core.List.{List, [], ◌∷◌, ◌++◌}
use mathlib.Core.Option.{Option, none, some}
use native.Mathlib.Omega.{arith}
use devnet_deftrack.Common.Tests.{if◌then◌else◌}

module _ {ℓ} {A : Type ℓ} where
  abbrev pub length : List A → ℕ
  length [] = 0
  length (x ∷ xs) = suc (length xs)

  abbrev pub get_elem? : List A → ℕ → Option A
  get_elem? [] i = none
  get_elem? (x ∷ xs) zero = some x
  get_elem? (x ∷ xs) (suc i) = get_elem? xs i

  abbrev pub take : ℕ → List A → List A
  take zero xs = []
  take (suc n) [] = []
  take (suc n) (x ∷ xs) = x ∷ take n xs

  -- A predicate on every element.
  abbrev pub All {κ} : (A → Type κ) → List A → Type κ
  All P [] = Unit
  All P (x ∷ xs) = P x × All P xs

  -- `xs.filter(p)`
  abbrev pub filter : (A → Bool) → List A → List A
  filter p [] = []
  filter p (x ∷ xs) = if p x then x ∷ filter p xs else filter p xs

  -- `xs.find(p)`
  abbrev pub find : (A → Bool) → List A → Option A
  find p [] = none
  find p (x ∷ xs) = if p x then some x else find p xs

  -- `xs.some(p)`
  abbrev pub any : (A → Bool) → List A → Bool
  any p [] = false
  any p (x ∷ xs) = p x || any p xs

  -- `xs.every(p)`
  abbrev pub all : (A → Bool) → List A → Bool
  all p [] = true
  all p (x ∷ xs) = p x && all p xs

  pub take-all : (n : ℕ) (xs : List A) → length xs ≤ n → take n xs ≡ xs
  take-all zero [] h = refl
  take-all zero (x ∷ xs) h = absurd (omega (arith, h))
  take-all (suc n) [] h = refl
  take-all (suc n) (x ∷ xs) h = ap (λ ys. x ∷ ys) (take-all n xs (omega (arith, h)))

  pub length-append : (xs ys : List A) → length (xs ++ ys) ≡ length xs + length ys
  length-append [] ys = omega arith
  length-append (x ∷ xs) ys = omega (arith, length-append xs ys)

-- What holds of every element survives in lists made of them.
module _ {ℓ κ} {A : Type ℓ} (Good : A → Type κ) where
  pub All-members : (xs : List A) → ((x : A) → Memᴰ x xs → Good x) → All Good xs
  All-members [] h = tt
  All-members (x ∷ xs) h = (h x (Memᴰ.head refl), All-members xs (λ y m. h y (Memᴰ.tail m)))

  pub All-member : {x : A} (xs : List A) → All Good xs → Memᴰ x xs → Good x
  All-member [] h m = absurd (Memᴰ.not-nil m)
  All-member (y ∷ ys) (h, hs) m = elim (Memᴰ.cases_cons m) [
    | inl same ↦ subst Good (sym same) h
    | inr later ↦ All-member ys hs later
  ]

  pub All-append : (front back : List A) → All Good front → All Good back → All Good (front ++ back)
  All-append [] back _ b = b
  All-append (a ∷ front) back (g, f) b = (g, All-append front back f b)

  pub All-filter : (keep : A → Bool) (xs : List A) → All Good xs → All Good (filter keep xs)
  All-filter keep [] _ = tt
  All-filter keep (a ∷ xs) (g, h) = ground (arith, All-filter keep xs h)

module _ {ℓ} {A : Type ℓ} (test : A → Bool) where
  pub any-append : (xs ys : List A) → any test (xs ++ ys) ≡ (any test xs || any test ys)
  any-append [] ys = refl
  any-append (a ∷ xs) ys = ground (arith, any-append xs ys)

module _ {ℓ} {A : Type ℓ} (test drop : A → Bool) where
  -- An element that passes a test is still there after a filter that takes out none such.
  pub any-filter :
      (xs : List A)
      → All (λ a. test a ≡ true → drop a ≡ false) xs
      → any test xs ≡ true
      → any test (filter (λ a. not (drop a)) xs) ≡ true
  any-filter [] _ h = h
  any-filter (a ∷ xs) (k, ks) h = ground (arith, any-filter xs ks, k)

  any-filter_or :
      (xs : List A) (new : A)
      → All (λ a. test a ≡ true → drop a ≡ true → test new ≡ true) xs
      → any test xs ≡ true
      → (any test (filter (λ a. not (drop a)) xs) || test new) ≡ true
  any-filter_or [] new _ h = cc
  any-filter_or (a ∷ xs) new (k, ks) h = ground (arith, any-filter_or xs new ks, k)

  -- The same where an element that is put behind the list stands in for those taken out.
  pub any-replaced :
      (xs : List A) (new : A)
      → All (λ a. test a ≡ true → drop a ≡ true → test new ≡ true) xs
      → any test xs ≡ true
      → any test (filter (λ a. not (drop a)) xs ++ new ∷ []) ≡ true
  any-replaced xs new k h =
      let e = any-filter_or xs new k h in
      rw (any-append test (filter (λ a. not (drop a)) xs) (new ∷ [])) (ground arith)

module _ {ℓ κ} {A : Type ℓ} (Good : A → Type κ) where
  pub All-All : ((a : A) → Good a) → (xs : List A) → All Good xs
  All-All every [] = tt
  All-All every (a ∷ xs) = (every a, All-All every xs)

module _ {ℓ κ ι} {A : Type ℓ} (Good : A → Type κ) (Better : A → Type ι) where
  pub All-implies : ((a : A) → Good a → Better a) → (xs : List A) → All Good xs → All Better xs
  All-implies step [] _ = tt
  All-implies step (a ∷ xs) (g, h) = (step a g, All-implies step xs h)
