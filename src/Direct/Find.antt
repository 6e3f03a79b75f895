-- ===== src/Direct/Find.antt =====
-- The searches of components/meshmesh_direct/meshmesh_direct.cpp through the entity lists.
use esphome_meshmesh.Prelude.{
  ℕ, ◌%◌, ◌^◌, Bool, Option, none, some, List, [], ◌∷◌, ◌==◌, bytes_eq, if◌then◌else◌,
}
use esphome_meshmesh.Direct.State.{
  Sensor, BinarySensor, Switch, Light, TextSensor, App, all_entities, sensor_entity,
  binary_sensor_entity, light_entity,
}

-- `hash & 0xFFFF`.
abbrev pub low16 : ℕ → ℕ
low16 hash = hash % 2 ^ 16

-- A loop that starts from a null result and breaks at the first entity that passes the test.
unfoldable pub find_first {ℓ} : {A : Type ℓ} → (A → Bool) → List A → Option A
find_first test [] = none
find_first test (x ∷ xs) = let rest = find_first test xs in if test x then some x else rest

-- The loop of the sensors, which assigns its result before the test as well.
unfoldable pub find_assigning {ℓ} : {A : Type ℓ} → (A → Bool) → Option A → List A → Option A
find_assigning test result [] = result
find_assigning test result (x ∷ xs) =
    let rest = find_assigning test (some x) xs in if test x then some x else rest

unfoldable pub find_sensor_by_unit : List ℕ → App → Option Sensor
find_sensor_by_unit unit app =
    find_assigning (λ (x : Sensor). bytes_eq unit x.unit) none app.sensors

unfoldable pub find_sensor : ℕ → App → Option Sensor
find_sensor hash app = find_assigning (λ (x : Sensor). hash == low16 x.hash) none app.sensors

unfoldable pub find_binary_sensor : ℕ → App → Option BinarySensor
find_binary_sensor hash app =
    find_first (λ (x : BinarySensor). hash == low16 x.hash) app.binary_sensors

unfoldable pub find_light_state : ℕ → App → Option Light
find_light_state hash app = find_first (λ (x : Light). hash == low16 x.hash) app.lights

unfoldable pub find_text_sensor : ℕ → App → Option TextSensor
find_text_sensor hash app = find_first (λ (x : TextSensor). hash == low16 x.hash) app.text_sensors

unfoldable pub find_switch : ℕ → App → Option Switch
find_switch hash app = find_first (λ (x : Switch). hash == low16 x.hash) app.switches

unfoldable pub find_entity_type_by_hash : ℕ → App → ℕ
find_entity_type_by_hash hash app = elim (find_sensor hash app) [
  | some x ↦ sensor_entity
  | none ↦ elim (find_binary_sensor hash app) [
    | some x ↦ binary_sensor_entity
    | none ↦ elim (find_light_state hash app) [ some x ↦ light_entity | none ↦ all_entities ]
  ]
]
