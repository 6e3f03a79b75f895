-- ===== src/Direct/Lookup.antt =====
-- What the searches of components/meshmesh_direct/meshmesh_direct.cpp find.
use esphome_meshmesh.Prelude.{
  ℕ, zero, suc, ◌≡◌, refl, ap, ◌∙◌, inl, inr, Bool, true, false, Option, none, some, List, [], ◌∷◌,
  ◌++◌, Bool-cases, get_elem?, take, ◌==◌,
}
use esphome_meshmesh.Direct.State.{Sensor, App, sensor_entity}
use esphome_meshmesh.Direct.Find.{
  low16, find_first, find_assigning, find_sensor, find_entity_type_by_hash,
}

module _ {ℓ} {A : Type ℓ} (test : A → Bool) where
  -- No element passes the test.
  abbrev pub NoneOf : List A → Type ℓ
  NoneOf [] = Unit {ℓ}
  NoneOf (x ∷ xs) = (test x ≡ false) × NoneOf xs

  -- The first element that passes the test, between those before and those behind it.
  pub record FirstOf (xs : List A) (a : A) : Type ℓ where
    pub before : List A
    pub behind : List A
    pub split : xs ≡ before ++ a ∷ behind
    pub missed : NoneOf before
    pub hit : test a ≡ true

  abbrev pub Finds : List A → Option A → Type ℓ
  Finds xs (some a) = FirstOf xs a
  Finds xs none = NoneOf xs

  Finds-cons : (x : A) (xs : List A) (r : Option A) → test x ≡ false → Finds xs r → Finds (x ∷ xs) r
  Finds-cons x xs (some a) e f = record {
    before = x ∷ f.before;
    behind = f.behind;
    split = ap (λ t. x ∷ t) f.split;
    missed = (e, f.missed);
    hit = f.hit;
  }
  Finds-cons x xs none e f = (e, f)

  -- The search ends at the first element that passes the test, and finds nothing only where none
  -- does.
  pub find_first_lem : (xs : List A) → Finds xs (find_first test xs)
  unfolding find_first
  find_first_lem [] = tt
  find_first_lem (x ∷ xs) = elim (Bool-cases (test x)) [
    | inl e ↦ rw e (record { before = []; behind = xs; split = refl; missed = tt; hit = e })
    | inr e ↦ rw e (Finds-cons x xs (find_first test xs) e (find_first_lem xs))
  ]

  -- An element that passes the test, with none before it that does, is what the search finds.
  pub find_first_at :
      (xs : List A) (i : ℕ) (a : A)
      → get_elem? xs i ≡ some a
      → NoneOf (take i xs)
      → test a ≡ true
      → find_first test xs ≡ some a
  unfolding find_first
  find_first_at [] i a g m h = cc
  find_first_at (x ∷ xs) zero a g m h = let e : x ≡ a = cc in rw (ap test e ∙ h) g
  find_first_at (x ∷ xs) (suc i) a g m h = rw (m.0) (find_first_at xs i a g m.1 h)

  -- The last element, or `r` where there is none.
  abbrev pub last_or : Option A → List A → Option A
  last_or r [] = r
  last_or r (x ∷ xs) = last_or (some x) xs

  -- The search that assigns before it tests finds the first element that passes, and the last
  -- element where none does.
  find_assigning_lem :
      (r : Option A) (xs : List A)
      → find_assigning test r xs
        ≡ elim (find_first test xs) as (λ z. Option A) [ some a ↦ some a | none ↦ last_or r xs ]
  unfolding find_assigning find_first
  find_assigning_lem r [] = refl
  find_assigning_lem r (x ∷ xs) = elim (Bool-cases (test x)) [
    | inl e ↦ rw e refl
    | inr e ↦ rw e (find_assigning_lem (some x) xs)
  ]

  found : (a : A) (xs : List A) → (b : A) × (find_assigning test (some a) xs ≡ some b)
  unfolding find_assigning
  found a [] = (a, refl)
  found a (x ∷ xs) = elim (Bool-cases (test x)) [
    | inl e ↦ (x, rw e refl)
    | inr e ↦ let (b, f) = found x xs in (b, rw (e, f) refl)
  ]

  found_some : (x : A) (xs : List A) → (b : A) × (find_assigning test none (x ∷ xs) ≡ some b)
  unfolding find_assigning
  found_some x xs = elim (Bool-cases (test x)) [
    | inl e ↦ (x, rw e refl)
    | inr e ↦ let (b, f) = found x xs in (b, rw (e, f) refl)
  ]

-- A search for a sensor finds the first whose hash ends in the 16 bits asked for. Where none does,
-- it finds the last sensor of the list, and nothing only if there are no sensors.
pub find_sensor_lem :
    (hash : ℕ) (app : App)
    → find_sensor hash app
      ≡ elim (find_first (λ (x : Sensor). hash == low16 x.hash) app.sensors)
          as (λ z. Option Sensor) [
            | some a ↦ some a
            | none ↦ last_or (λ (x : Sensor). hash == low16 x.hash) none app.sensors
          ]
unfolding find_sensor
find_sensor_lem hash app =
    find_assigning_lem (λ (x : Sensor). hash == low16 x.hash) none app.sensors

found-sensor :
    (hash : ℕ) (app : App) (a : Sensor)
    → find_sensor hash app ≡ some a
    → find_entity_type_by_hash hash app ≡ sensor_entity
unfolding find_entity_type_by_hash
found-sensor hash app a e = rw (e, find_entity_type_by_hash) refl

-- On a node that has a sensor, every hash is answered to be that of a sensor.
pub find_entity_type_by_hash-sensor :
    (hash : ℕ) (app : App) (x : Sensor) (xs : List Sensor)
    → app.sensors ≡ x ∷ xs
    → find_entity_type_by_hash hash app ≡ sensor_entity
unfolding find_sensor
find_entity_type_by_hash-sensor hash app x xs e =
    let test = λ (y : Sensor). hash == low16 y.hash in
    let (b, f) = found_some test x xs in
    found-sensor hash app b (ap (find_assigning test none) e ∙ f)
