-- ===== src/Prelude/Results.antt =====
-- Results of code that may run into undefined behaviour or throw.

pub data Result {ℓ} (A : Type ℓ) : Type ℓ where
  ok : A → Result A
  fault : Result A

infixl 5 ◌>>=◌
abbrev pub ◌>>=◌ {ℓ κ} : {A : Type ℓ} {B : Type κ} → Result A → (A → Result B) → Result B
ok a >>= f = f a
fault >>= f = fault

-- A property of what comes back, where something does.
abbrev pub Ensures {ℓ κ} : {A : Type ℓ} → (A → Type κ) → Result A → Type κ
Ensures Q (ok a) = Q a
Ensures Q fault = Unit

pub Ensures-bind {ℓ κ ℓ' κ'} :
    {A : Type ℓ} {B : Type ℓ'} (Q : A → Type κ) (R : B → Type κ') (r : Result A) (f : A → Result B)
    → Ensures Q r
    → ((a : A) → Q a → Ensures R (f a))
    → Ensures R (r >>= f)
Ensures-bind Q R (ok a) f q h = h a q
Ensures-bind Q R fault f q h = tt

-- The code comes back, and with a result as described.
abbrev pub Returns {ℓ} : {A : Type ℓ} → (A → Type 0) → Result A → Type 0
Returns Q (ok a) = Q a
Returns Q fault = ⊥

pub Returns-bind {ℓ κ} :
    {A : Type ℓ} {B : Type κ} (Q : A → Type 0) (R : B → Type 0) (r : Result A) (f : A → Result B)
    → Returns Q r
    → ((a : A) → Q a → Returns R (f a))
    → Returns R (r >>= f)
Returns-bind Q R (ok a) f q h = h a q
Returns-bind Q R fault f q h = absurd q

pub Returns-map {ℓ} :
    {A : Type ℓ} (Q R : A → Type 0) (r : Result A)
    → Returns Q r
    → ((a : A) → Q a → R a)
    → Returns R r
Returns-map Q R (ok a) q h = h a q
Returns-map Q R fault q h = absurd q
