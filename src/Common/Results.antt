-- ===== src/Common/Results.antt =====
-- What a call of code that may throw comes to.
use mathlib.Core.Path.{◌≡◌, refl}
use mathlib.Core.Logic.{◌⊎◌, inl, inr}
use mathlib.Core.Bool.{Bool, true, false}

pub data Result {ℓ κ} (E : Type κ) (A : Type ℓ) : Type (ℓ ⊔ κ) where
  ok : A → Result E A
  err : E → Result E A

module _ {κ} {E : Type κ} where
  infixl 5 ◌>>=◌ ◌>>◌
  -- The rest of a body runs on the value, and a thrown error leaves the body.
  abbrev pub ◌>>=◌ {ℓ ι} : {A : Type ℓ} {B : Type ι} → Result E A → (A → Result E B) → Result E B
  ◌>>=◌ (ok value) rest = rest value
  ◌>>=◌ (err thrown) rest = err thrown

  abbrev pub ◌>>◌ {ℓ} : {B : Type ℓ} → Result E (Unit {0}) → Result E B → Result E B
  ◌>>◌ check rest = check >>= (λ done. rest)

  -- `if (c) throw e;`
  abbrev pub throw_if : Bool → E → Result E (Unit {0})
  throw_if true e = err e
  throw_if false e = ok tt

pub Result-cases {ℓ κ} :
    {E : Type κ} {A : Type ℓ} (r : Result E A) → ((e : E) × (r ≡ err e)) ⊎ ((a : A) × (r ≡ ok a))
Result-cases (ok a) = inr (a, refl)
Result-cases (err e) = inl (e, refl)

-- A body that returns went through its first part.
pub bind-ok {ℓ κ ι} :
    {E : Type κ} {A : Type ℓ} {B : Type ι} (first : Result E A) (rest : A → Result E B) (b : B)
    → first >>= rest ≡ ok b
    → (a : A) × (first ≡ ok a) × (rest a ≡ ok b)
bind-ok (ok a) rest b h = (a, refl, h)
bind-ok (err e) rest b h = absurd (cc)

-- A body whose parts return, returns.
pub ok-bind {ℓ κ ι} :
    {E : Type κ} {A : Type ℓ} {B : Type ι} (first : Result E A) (rest : A → Result E B) (a : A)
    (b : B)
    → first ≡ ok a
    → rest a ≡ ok b
    → first >>= rest ≡ ok b
ok-bind first rest a b e h = rw e h
