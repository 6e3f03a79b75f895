-- ===== src/Direct/State.antt =====
-- The state of `MeshMeshDirectComponent` and of the remote switches registered with it
-- (components/meshmesh_direct/meshmesh_direct.h, switch/meshmesh_switch.h), the command codes
-- (commands.h), and the entities of the node, as far as the component reads them.
use esphome_meshmesh.Prelude.{ℕ, ◌<◌, ◌^◌, ◌≡◌, Bool, false, Option, List, [], ◌∷◌}
use esphome_meshmesh.Mesh.{MeshAddress}

-- `(int16_t) (state * 10.0)` as 16 bits stands for the state, a `float`.
pub record Sensor : Type 0 where
  pub hash : ℕ
  pub name : List ℕ
  pub unit : List ℕ
  pub tenths : ℕ

pub record BinarySensor : Type 0 where
  pub hash : ℕ
  pub name : List ℕ
  pub state : Bool

-- A switch of the class `MeshMeshSwitch` is `remote`: its place among the command reply handlers, where
-- the rest of the object is.
pub record Switch : Type 0 where
  pub hash : ℕ
  pub name : List ℕ
  pub state : Bool
  pub inverted : Bool
  pub remote : Option ℕ

-- Whether `get_state()` is not 0, and `(uint16_t) (get_brightness() * 1024.0)`.
pub record Light : Type 0 where
  pub hash : ℕ
  pub name : List ℕ
  pub lit : Bool
  pub brightness : ℕ

pub record TextSensor : Type 0 where
  pub hash : ℕ
  pub name : List ℕ
  pub state : List ℕ

-- The entity lists of the application.
pub record App : Type 0 where
  pub sensors : List Sensor
  pub binary_sensors : List BinarySensor
  pub switches : List Switch
  pub lights : List Light
  pub text_sensors : List TextSensor

-- What the component does to the world, newest first. A light call carries the state it asks for
-- and the 16 bits whose value over 1024 is the brightness. A heap overflow is a copy past the end of
-- its block; what it destroys is not modelled.
pub data Effect : Type 0 where
  datagram : MeshAddress → List ℕ → Effect
  turn_on turn_off : Switch → Effect
  publish_switch : Switch → Bool → Effect
  light_call : Light → Bool → ℕ → Effect
  on_received : ℕ → ℕ → List ℕ → ℕ → Effect
  heap_overflow : Effect

-- The mesh library: `uint16toBuffer` and `uint16FromBuffer` on two bytes, which are inverse, and
-- the address of a node.
pub record Library : Type 0 where
  pub put16 : ℕ → ℕ × ℕ
  pub get16 : ℕ → ℕ → ℕ
  pub get16-put16 : (n : ℕ) → n < 2 ^ 16 → get16 (put16 n).0 (put16 n).1 ≡ n
  pub mesh_address : ℕ → ℕ → MeshAddress
  pub broadcast_address : ℕ

-- A switch that stands for one of another node, with the states it has published, newest first.
pub record MeshSwitch : Type 0 where
  pub request_update : Bool
  pub request_time : ℕ
  pub last_query_time : ℕ
  pub hash : ℕ
  pub address : ℕ
  pub published : List Bool

-- `received_handlers` holds the handlers' identities, `command_reply_handlers` the handlers, which
-- are remote switches.
pub record Direct : Type 0 where
  pub socket : Bool
  pub received_handlers : List ℕ
  pub command_reply_handlers : List MeshSwitch
  pub trace : List Effect

abbrev pub act : Effect → Direct → Direct
act e s = record s { trace = e ∷ s.trace }

unfoldable pub fresh : Direct
fresh = record { socket = false; received_handlers = []; command_reply_handlers = []; trace = [] }

abbrev pub meshmesh_direct_port : ℕ
meshmesh_direct_port = 0xA6

abbrev pub cmd_entity_req : ℕ
cmd_entity_req = 0x30

abbrev pub custom_data_req : ℕ
custom_data_req = 0x10

abbrev pub entities_count_req : ℕ
entities_count_req = 0x26

abbrev pub entities_count_rep : ℕ
entities_count_rep = 0x27

abbrev pub get_entity_hash_req : ℕ
get_entity_hash_req = 0x28

abbrev pub get_entity_hash_rep : ℕ
get_entity_hash_rep = 0x29

abbrev pub get_entity_state_req : ℕ
get_entity_state_req = 0x2A

abbrev pub get_entity_state_rep : ℕ
get_entity_state_rep = 0x2B

abbrev pub set_entity_state_req : ℕ
set_entity_state_req = 0x2C

abbrev pub pub_entity_state_req : ℕ
pub_entity_state_req = 0x2E

abbrev pub pub_entity_state_rep : ℕ
pub_entity_state_rep = 0x2F

abbrev pub all_entities : ℕ
all_entities = 0

abbrev pub sensor_entity : ℕ
sensor_entity = 1

abbrev pub binary_sensor_entity : ℕ
binary_sensor_entity = 2

abbrev pub switch_entity : ℕ
switch_entity = 3

abbrev pub light_entity : ℕ
light_entity = 4

abbrev pub text_sensor_entity : ℕ
text_sensor_entity = 5
