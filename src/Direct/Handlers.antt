-- ===== src/Direct/Handlers.antt =====
-- The frame handlers of components/meshmesh_direct/meshmesh_direct.cpp, all entity
-- kinds compiled in. `buf` and `len` of a handler are the list of the bytes. The handlers run from
-- the socket's callback, so that the socket is there. A 16-bit number stands for an `int16_t`.
use esphome_meshmesh.Prelude.{
  ℕ, ◌+◌, ◌%◌, ◌^◌, Bool, true, ◌&&◌, Option, none, some, List, [], ◌∷◌, ◌++◌, length, get_elem?,
  get_or, take, drop, ltb, leb, ◌==◌, if◌then◌else◌,
}
use esphome_meshmesh.Mesh.{MeshAddress}
use esphome_meshmesh.Direct.State.{
  Switch, Light, App, Effect, Library, MeshSwitch, Direct, act, cmd_entity_req, entities_count_rep,
  get_entity_hash_rep, get_entity_state_rep, pub_entity_state_rep, sensor_entity,
  binary_sensor_entity, switch_entity, light_entity, text_sensor_entity,
}
use esphome_meshmesh.Direct.Sends.{word_at, word, perform}
use esphome_meshmesh.Direct.Find.{
  low16, find_sensor, find_binary_sensor, find_light_state, find_text_sensor, find_switch,
}

-- The 16 bits of an `int16_t` greater than 0.
abbrev pub positive16 : ℕ → Bool
positive16 value = ltb 0 value && ltb value (2 ^ 15)

unfoldable pub setup : Direct → Direct
setup s = record s { socket = true }

unfoldable pub register_received_handler : ℕ → Direct → Direct
register_received_handler handler s = record s {
  received_handlers = s.received_handlers ++ handler ∷ [];
}

unfoldable pub register_command_reply_handler : MeshSwitch → Direct → Direct
register_command_reply_handler handler s = record s {
  command_reply_handlers = s.command_reply_handlers ++ handler ∷ [];
}

-- `sendDatagram` to the sender of a frame.
abbrev pub reply : MeshAddress → List ℕ → Direct → Direct
reply from bytes s = act (Effect.datagram from bytes) s

-- The number of entities of a kind, as a byte.
unfoldable pub count {ℓ} : {A : Type ℓ} → List A → ℕ
count xs = length xs % 2 ^ 8

unfoldable pub handle_entities_count_frame : App → List ℕ → MeshAddress → Direct → Direct
handle_entities_count_frame app buf from s =
    let sensors = count app.sensors in
    let binaries = count app.binary_sensors in
    let switches = count app.switches in
    let lights = count app.lights in
    let texts = count app.text_sensors in
    let all = sensors in
    let all = (all + binaries) % 2 ^ 8 in
    let all = (all + switches) % 2 ^ 8 in
    let all = (all + lights) % 2 ^ 8 in
    let all = (all + texts) % 2 ^ 8 in
    if length buf == 1
    then reply from
        (cmd_entity_req ∷ entities_count_rep ∷ all ∷ sensors ∷ binaries ∷ switches ∷ lights ∷ texts
          ∷ [])
        s
    else s

-- The hash and the description of an entity.
unfoldable pub hash_info : App → ℕ → ℕ → Option (ℕ × List ℕ)
hash_info app service index =
    if service == sensor_entity
    then elim (get_elem? app.sensors index) [
      | some x ↦ some (low16 x.hash, x.name ++ b',' ∷ x.name ++ b',' ∷ x.unit)
      | none ↦ none
    ]
    else if service == binary_sensor_entity
    then elim (get_elem? app.binary_sensors index) [
      | some x ↦ some (low16 x.hash, x.name)
      | none ↦ none
    ]
    else if service == switch_entity
    then elim (get_elem? app.switches index) [ some x ↦ some (low16 x.hash, x.name) | none ↦ none ]
    else if service == light_entity
    then elim (get_elem? app.lights index) [ some x ↦ some (low16 x.hash, x.name) | none ↦ none ]
    else if service == text_sensor_entity
    then elim (get_elem? app.text_sensors index) [
      | some x ↦ some (low16 x.hash, x.name)
      | none ↦ none
    ]
    else none

-- What a request for a state finds: nothing, a 16-bit value, or a text.
pub data Found : Type 0 where
  unknown : Found
  number : ℕ → Found
  text : List ℕ → Found

unfoldable pub find_state : App → ℕ → ℕ → Found
find_state app type hash =
    if type == sensor_entity
    then elim (find_sensor hash app) [ some x ↦ Found.number x.tenths | none ↦ Found.unknown ]
    else if type == binary_sensor_entity
    then elim (find_binary_sensor hash app) [
      | some x ↦ Found.number (if x.state then 10 else 0)
      | none ↦ Found.unknown
    ]
    else if type == switch_entity
    then elim (find_switch hash app) [
      | some x ↦ Found.number (if x.state then 1 else 0)
      | none ↦ Found.unknown
    ]
    else if type == light_entity
    then elim (find_light_state hash app) [
      | some x ↦ Found.number (if x.lit then x.brightness else 0)
      | none ↦ Found.unknown
    ]
    else if type == text_sensor_entity
    then elim (find_text_sensor hash app) [ some x ↦ Found.text x.state | none ↦ Found.unknown ]
    else Found.unknown

-- The two cases of a request to set a state, and the effect where there is an entity that takes it.
unfoldable pub switch_effect : Option Switch → ℕ → ℕ → Option Effect
switch_effect (some x) value_type v =
    if value_type == 1
    then some (if positive16 v then Effect.turn_on x else Effect.turn_off x)
    else none
switch_effect none value_type v = none

unfoldable pub light_effect : Option Light → ℕ → ℕ → Option Effect
light_effect (some x) value_type v =
    if value_type == 1 then some (Effect.light_call x (positive16 v) v) else none
light_effect none value_type v = none

unfoldable pub set_effect : App → ℕ → ℕ → ℕ → ℕ → Option Effect
set_effect app value_type entity_type hash v =
    if entity_type == switch_entity
    then switch_effect (find_switch hash app) value_type v
    else if entity_type == light_entity
    then light_effect (find_light_state hash app) value_type v
    else none

-- The effects on every handler of custom data. The size is passed on as a byte.
unfoldable pub deliver : List ℕ → ℕ → List ℕ → Direct → Direct
deliver [] address payload s = s
deliver (h ∷ hs) address payload s =
    deliver hs address payload
      (act (Effect.on_received h address payload (length payload % 2 ^ 8)) s)

unfoldable pub handle_custom_data_frame : List ℕ → MeshAddress → Direct → Direct
handle_custom_data_frame buf from s =
    if ltb 1 (length buf) then deliver s.received_handlers from.address (drop 1 buf) s else s

unfoldable pub publish_to : Option Switch → Bool → Direct → Direct
publish_to (some x) state s = act (Effect.publish_switch x state) s
publish_to none state s = s

module _ (L : Library) where
  unfoldable pub set_reply : Option Effect → MeshAddress → Direct → Direct
  set_reply (some e) from s =
      reply from (cmd_entity_req ∷ get_entity_state_rep ∷ []) (perform L e s)
  set_reply none from s = s

  -- The answers, each with the case that nothing was found.
  unfoldable pub hash_reply : Option (ℕ × List ℕ) → MeshAddress → Direct → Direct
  hash_reply (some (hash, info)) from s =
      reply from (cmd_entity_req ∷ get_entity_hash_rep ∷ word L hash info) s
  hash_reply none from s =
      reply from (cmd_entity_req ∷ get_entity_hash_rep ∷ 0 ∷ 0 ∷ b'E' ∷ b'!' ∷ []) s

  unfoldable pub handle_get_entity_hash_frame : App → List ℕ → MeshAddress → Direct → Direct
  handle_get_entity_hash_frame app buf from s =
      if length buf == 3
      then hash_reply (hash_info app (get_or buf 1 0) (get_or buf 2 0)) from s
      else s

  -- The size of a text's reply is taken modulo 2^16, and the whole text copied into a block of it.
  unfoldable pub state_reply : Found → ℕ → MeshAddress → Direct → Direct
  state_reply (Found.number v) hash from s =
      reply from (cmd_entity_req ∷ get_entity_state_rep ∷ 1 ∷ word L hash (word L v [])) s
  state_reply (Found.text t) hash from s =
      let bytes = cmd_entity_req ∷ get_entity_state_rep ∷ 2 ∷ word L hash t in
      let size = (5 + length t) % 2 ^ 16 in
      reply from (take size bytes)
        (if ltb size (5 + length t) then act Effect.heap_overflow s else s)
  state_reply Found.unknown hash from s = s

  unfoldable pub handle_get_entity_state_frame : App → List ℕ → MeshAddress → Direct → Direct
  handle_get_entity_state_frame app buf from s =
      let hash = word_at L buf 2 in
      if length buf == 4 then state_reply (find_state app (get_or buf 1 0) hash) hash from s else s

  unfoldable pub handle_set_entity_state_frame : App → List ℕ → MeshAddress → Direct → Direct
  handle_set_entity_state_frame app buf from s =
      if leb 7 (length buf)
      then set_reply
          (set_effect app (get_or buf 1 0) (get_or buf 2 0) (word_at L buf 3) (word_at L buf 5))
          from s
      else s

  unfoldable pub handle_publish_entity_state_frame : App → List ℕ → MeshAddress → Direct → Direct
  handle_publish_entity_state_frame app buf from s =
      let told = publish_to (find_switch (word_at L buf 2) app) (ltb 0 (word_at L buf 4)) s in
      if length buf == 6
      then reply from (cmd_entity_req ∷ pub_entity_state_rep ∷ [])
          (if get_or buf 1 0 == switch_entity then told else s)
      else s
