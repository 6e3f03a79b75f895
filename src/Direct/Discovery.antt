-- ===== src/Direct/Discovery.antt =====
-- Discovery of the switches and sensors of a node by index, and requests for their state by the
-- hash found (components/meshmesh_direct/meshmesh_direct.cpp).
use esphome_meshmesh.Prelude.{
  ℕ, ◌^◌, ◌<◌, ◌≡◌, refl, ap, ◌∙◌, some, [], ◌∷◌, ◌++◌, arith, get_elem?, take, ◌==◌, if◌then◌else◌,
}
use esphome_meshmesh.Mesh.{MeshAddress}
use esphome_meshmesh.Direct.Sends.{word}
use esphome_meshmesh.Direct.State.{
  Sensor, Switch, App, Library, Direct, cmd_entity_req, get_entity_hash_req, get_entity_hash_rep,
  get_entity_state_req, get_entity_state_rep, sensor_entity, switch_entity,
}
use esphome_meshmesh.Direct.Find.{low16, find_first, find_switch, find_sensor}
use esphome_meshmesh.Direct.Handlers.{
  reply, Found, hash_info, find_state, hash_reply, state_reply, handle_get_entity_hash_frame,
  handle_get_entity_state_frame,
}
use esphome_meshmesh.Direct.Remote.{handle_request, handle_entity_frame, handle_frame}
use esphome_meshmesh.Direct.Lookup.{NoneOf, find_first_at, find_sensor_lem}

module _ (L : Library) where
  -- A frame with the hash request, then one with the state request, from the outside.
  handle_frame-hash :
      (app : App) (service index : ℕ) (from : MeshAddress) (s : Direct)
      → handle_frame L app (cmd_entity_req ∷ get_entity_hash_req ∷ service ∷ index ∷ []) from s
        ≡ hash_reply L (hash_info app service index) from s
  unfolding handle_frame handle_entity_frame handle_request handle_get_entity_hash_frame
  handle_frame-hash app service index from s = refl

  pub handle_frame-state :
      (app : App) (type hash : ℕ) (from : MeshAddress) (s : Direct)
      → hash < 2 ^ 16
      → handle_frame L app (cmd_entity_req ∷ get_entity_state_req ∷ type ∷ word L hash []) from s
        ≡ state_reply L (find_state app type hash) hash from s
  unfolding handle_frame handle_entity_frame handle_request handle_get_entity_state_frame
  handle_frame-state app type hash from s h = rw (L.get16-put16 hash h) refl

  pub found_switch :
      (app : App) (hash : ℕ) (x : Switch)
      → find_switch hash app ≡ some x
      → find_state app switch_entity hash ≡ Found.number (if x.state then 1 else 0)
  unfolding find_state
  found_switch app hash x e = rw (e, find_state) refl

  listed_switch :
      (app : App) (index : ℕ) (x : Switch)
      → get_elem? app.switches index ≡ some x
      → hash_info app switch_entity index ≡ some (low16 x.hash, x.name)
  unfolding hash_info
  listed_switch app index x e = rw (e, hash_info) refl

  found_sensor :
      (app : App) (hash : ℕ) (x : Sensor)
      → find_sensor hash app ≡ some x
      → find_state app sensor_entity hash ≡ Found.number x.tenths
  unfolding find_state
  found_sensor app hash x e = rw (e, find_state) refl

  listed_sensor :
      (app : App) (index : ℕ) (x : Sensor)
      → get_elem? app.sensors index ≡ some x
      → hash_info app sensor_entity index
        ≡ some (low16 x.hash, x.name ++ b',' ∷ x.name ++ b',' ∷ x.unit)
  unfolding hash_info
  listed_sensor app index x e = rw (e, hash_info) refl

  -- If the hashes of the switches before the one at an index differ from its hash in the lower 16
  -- bits, then a request for the hash at that index is answered with those bits and the name, and a
  -- request for the state of the hash so answered, with the state of that very switch.
  pub handle_frame-switch :
      (app : App) (index : ℕ) (x : Switch) (from : MeshAddress) (s : Direct)
      → get_elem? app.switches index ≡ some x
      → NoneOf (λ (y : Switch). low16 x.hash == low16 y.hash) (take index app.switches)
      → (handle_frame L app
            (cmd_entity_req ∷ get_entity_hash_req ∷ switch_entity ∷ index ∷ [])
            from
            s
          ≡ reply from (cmd_entity_req ∷ get_entity_hash_rep ∷ word L (low16 x.hash) x.name) s)
        × (handle_frame L app
              (cmd_entity_req ∷ get_entity_state_req ∷ switch_entity ∷ word L (low16 x.hash) [])
              from
              s
            ≡ reply from
                (cmd_entity_req
                  ∷ get_entity_state_rep
                  ∷ 1
                  ∷ word L (low16 x.hash) (word L (if x.state then 1 else 0) []))
                s)
  unfolding find_switch hash_reply state_reply
  handle_frame-switch app index x from s g m =
      let hash = low16 x.hash in
      let test = λ (y : Switch). hash == low16 y.hash in
      let f : find_switch hash app ≡ some x =
        find_first_at test app.switches index x g m (ground arith) in
      (
        handle_frame-hash app switch_entity index from s
            ∙ ap (λ o. hash_reply L o from s) (listed_switch app index x g),
        handle_frame-state app switch_entity hash from s (omega arith)
            ∙ ap (λ o. state_reply L o hash from s) (found_switch app hash x f),
      )

  -- The same for sensors, whose description also carries the unit and whose state is ten times the
  -- measured value.
  pub handle_frame-sensor :
      (app : App) (index : ℕ) (x : Sensor) (from : MeshAddress) (s : Direct)
      → get_elem? app.sensors index ≡ some x
      → NoneOf (λ (y : Sensor). low16 x.hash == low16 y.hash) (take index app.sensors)
      → (handle_frame L app
            (cmd_entity_req ∷ get_entity_hash_req ∷ sensor_entity ∷ index ∷ [])
            from
            s
          ≡ reply from
              (cmd_entity_req
                ∷ get_entity_hash_rep
                ∷ word L (low16 x.hash) (x.name ++ b',' ∷ x.name ++ b',' ∷ x.unit))
              s)
        × (handle_frame L app
              (cmd_entity_req ∷ get_entity_state_req ∷ sensor_entity ∷ word L (low16 x.hash) [])
              from
              s
            ≡ reply from
                (cmd_entity_req
                  ∷ get_entity_state_rep
                  ∷ 1
                  ∷ word L (low16 x.hash) (word L x.tenths []))
                s)
  unfolding hash_reply state_reply
  handle_frame-sensor app index x from s g m =
      let hash = low16 x.hash in
      let test = λ (y : Sensor). hash == low16 y.hash in
      let e : find_first test app.sensors ≡ some x =
        find_first_at test app.sensors index x g m (ground arith) in
      let f : find_sensor hash app ≡ some x = find_sensor_lem hash app ∙ rw e refl in
      (
        handle_frame-hash app sensor_entity index from s
            ∙ ap (λ o. hash_reply L o from s) (listed_sensor app index x g),
        handle_frame-state app sensor_entity hash from s (omega arith)
            ∙ ap (λ o. state_reply L o hash from s) (found_sensor app hash x f),
      )
