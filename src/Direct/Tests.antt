-- ===== src/Direct/Tests.antt =====
-- Two sample nodes (components/meshmesh_direct), and the theorems about them at concrete inputs.
use esphome_meshmesh.Prelude.{
  ℕ, ◌+◌, ◌*◌, ◌/◌, ◌%◌, ◌^◌, ◌<◌, ◌≡◌, refl, true, false, none, some, List, [], ◌∷◌, arith,
}
use esphome_meshmesh.Mesh.{MeshAddress}
use esphome_meshmesh.Direct.Sends.{
  unicast_send, write_remote, turn, perform, word, publish_remote_switch_state, publish_state,
  write_state,
}
use esphome_meshmesh.Direct.State.{
  Sensor, Switch, App, Effect, Library, MeshSwitch, Direct, act, cmd_entity_req,
  get_entity_hash_req, get_entity_hash_rep, set_entity_state_req, get_entity_state_req,
  get_entity_state_rep, pub_entity_state_req, switch_entity, custom_data_req,
}
use esphome_meshmesh.Direct.Find.{find_first, find_sensor, find_switch}
use esphome_meshmesh.Direct.Handlers.{
  set_reply, switch_effect, set_effect, handle_set_entity_state_frame, reply, deliver,
  handle_custom_data_frame,
}
use esphome_meshmesh.Direct.Remote.{
  query_remote_state, handle_request, handle_entity_frame, handle_frame,
}
use esphome_meshmesh.Direct.Lookup.{find_sensor_lem}
use esphome_meshmesh.Direct.Forwarding.{outgoing}
use esphome_meshmesh.Direct.Replies.{Sends, handle_frame-Sends}
use esphome_meshmesh.Direct.Discovery.{handle_frame-switch}
use esphome_meshmesh.Direct.EndToEnd.{
  obey, note, told, state_payload, write_state-handle_frame, query_remote_state-handle_frame,
  publish_remote_switch_state-handle_frame,
}

-- Numbers in two bytes, the first the lower one.
abbrev low_first : ℕ → ℕ × ℕ
low_first n = (n % 256, n / 256)

abbrev from_low_first : ℕ → ℕ → ℕ
from_low_first a b = a + 256 * b

from_low_first-low_first : (n : ℕ) → n < 2 ^ 16 → from_low_first (low_first n).0 (low_first n).1 ≡ n
from_low_first-low_first n h = omega arith

abbrev library : Library
library = record {
  put16 = low_first;
  get16 = from_low_first;
  get16-put16 = from_low_first-low_first;
  mesh_address = λ port address. record {
    port = port;
    address = address;
    repeaters = [];
    source_protocol = 0;
  };
  broadcast_address = 0xFFFFFFFF;
}

abbrev hub : MeshAddress
hub = record { port = 0xA6; address = 0x112233; repeaters = []; source_protocol = 0 }

abbrev leaf : MeshAddress
leaf = record { port = 0xA6; address = 0x445566; repeaters = []; source_protocol = 0 }

abbrev thermometer : Sensor
thermometer = record { hash = 0x10203; name = b'T' ∷ []; unit = b'C' ∷ []; tenths = 215 }

abbrev hygrometer : Sensor
hygrometer = record { hash = 0x20405; name = b'H' ∷ []; unit = b'%' ∷ []; tenths = 480 }

abbrev pump : Switch
pump = record { hash = 0x51111; name = b'P' ∷ []; state = true; inverted = false; remote = none }

abbrev fan : Switch
fan = record { hash = 0x52222; name = b'F' ∷ []; state = false; inverted = false; remote = none }

abbrev app : App
app = record {
  sensors = thermometer ∷ hygrometer ∷ [];
  binary_sensors = [];
  switches = pump ∷ fan ∷ [];
  lights = [];
  text_sensors = [];
}

abbrev remote_fan : MeshSwitch
remote_fan = record {
  request_update = false;
  request_time = 0;
  last_query_time = 7000;
  hash = 0x2222;
  address = 0x445566;
  published = [];
}

abbrev remote_pump : MeshSwitch
remote_pump = record remote_fan { hash = 0x1111 }

abbrev node : Direct
node = record {
  socket = true;
  received_handlers = 1 ∷ 2 ∷ [];
  command_reply_handlers = remote_pump ∷ remote_fan ∷ [];
  trace = [];
}

-- Custom data come to all handlers in the order of their registration.
handle_frame_custom :
    (handle_frame library app (cmd_entity_req ∷ custom_data_req ∷ 7 ∷ 8 ∷ []) hub node).trace
    ≡ Effect.on_received 2 0x112233 (7 ∷ 8 ∷ []) 2
      ∷ Effect.on_received 1 0x112233 (7 ∷ 8 ∷ []) 2
      ∷ []
unfolding handle_frame handle_entity_frame handle_request handle_custom_data_frame deliver
handle_frame_custom = refl

find_sensor_lem_example : find_sensor 0x9999 app ≡ some hygrometer
unfolding find_first
find_sensor_lem_example = find_sensor_lem 0x9999 app

handle_frame-switch_example :
    (handle_frame library app
        (cmd_entity_req ∷ get_entity_hash_req ∷ switch_entity ∷ 1 ∷ [])
        hub
        node
      ≡ reply hub (cmd_entity_req ∷ get_entity_hash_rep ∷ word library 0x2222 (b'F' ∷ [])) node)
    × (handle_frame library app
          (cmd_entity_req ∷ get_entity_state_req ∷ switch_entity ∷ word library 0x2222 [])
          hub
          node
        ≡ reply hub
            (cmd_entity_req ∷ get_entity_state_rep ∷ 1 ∷ word library 0x2222 (word library 0 []))
            node)
handle_frame-switch_example = handle_frame-switch library app 1 fan hub node refl (refl, tt)

abbrev on_frame : List ℕ
on_frame =
    cmd_entity_req
    ∷ set_entity_state_req
    ∷ 1
    ∷ switch_entity
    ∷ word library 0x2222 (word library 10 [])

write_state-handle_frame_example :
    (write_state library true remote_fan node
      ≡ (publish_state true remote_fan, act (Effect.datagram leaf on_frame) node))
    × (handle_frame library app on_frame hub node ≡ obey library (some fan) true hub node)
unfolding find_switch find_first
write_state-handle_frame_example =
    write_state-handle_frame library true remote_fan node node app hub refl (omega arith)

abbrev publish_frame : List ℕ
publish_frame =
    cmd_entity_req ∷ pub_entity_state_req ∷ switch_entity ∷ word library 0x2222 (word library 10 [])

publish_remote_switch_state-handle_frame_example :
    (publish_remote_switch_state library 0x445566 0x2222 true node
      ≡ some (act (Effect.datagram leaf publish_frame) node))
    × (handle_frame library app publish_frame hub node ≡ note (some fan) true hub node)
unfolding find_switch find_first
publish_remote_switch_state-handle_frame_example =
    publish_remote_switch_state-handle_frame library 0x445566 0x2222 true node node app hub refl
      (omega arith)

-- A node whose fan is a remote switch, the second of the handlers.
abbrev relay : App
relay = record app { switches = pump ∷ record fan { remote = some 1 } ∷ [] }

handle_frame-Sends_example :
    Sends library hub set_entity_state_req node (handle_frame library relay on_frame hub node)
handle_frame-Sends_example = handle_frame-Sends library relay on_frame hub node

-- The answer goes out behind the request to the remote switch's own node.
relayed :
    outgoing (handle_frame library relay on_frame hub node).trace
    ≡ (hub, cmd_entity_req ∷ get_entity_state_rep ∷ []) ∷ (leaf, on_frame) ∷ []
unfolding handle_frame handle_entity_frame handle_request handle_set_entity_state_frame set_effect
    switch_effect find_switch find_first set_reply perform turn write_remote write_state
    unicast_send
relayed = refl

abbrev query_frame : List ℕ
query_frame = cmd_entity_req ∷ get_entity_state_req ∷ switch_entity ∷ word library 0x2222 []

abbrev query_answer : List ℕ
query_answer = cmd_entity_req ∷ get_entity_state_rep ∷ state_payload library 0x2222 false

query_remote_state-handle_frame_example :
    (query_remote_state library remote_fan node ≡ act (Effect.datagram leaf query_frame) node)
    × (handle_frame library app query_frame hub node ≡ reply hub query_answer node)
    × (handle_frame library app query_answer leaf node
        ≡ record node { command_reply_handlers = remote_pump ∷ told library false remote_fan ∷ [] })
unfolding find_switch find_first
query_remote_state-handle_frame_example =
    query_remote_state-handle_frame library remote_fan (remote_pump ∷ []) [] fan node node node app
      app hub leaf refl (omega arith) refl refl (refl, tt)
