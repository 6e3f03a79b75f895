-- ===== src/Direct/Remote.antt =====
-- The remote switch (components/meshmesh_direct/switch/meshmesh_switch.cpp), and how
-- components/meshmesh_direct/meshmesh_direct.cpp hands frames to handlers. Each reading of the clock
-- is an argument.
use esphome_meshmesh.Prelude.{
  ℕ, Bool, true, false, not, ◌&&◌, ◌||◌, List, [], ◌∷◌, bit_and, length, get_or, drop, ltb, leb,
  ◌==◌, if◌then◌else◌,
}
use esphome_meshmesh.Mesh.{MeshAddress, sub32}
use esphome_meshmesh.Direct.State.{
  App, Library, MeshSwitch, Direct, cmd_entity_req, custom_data_req, entities_count_req,
  get_entity_hash_req, get_entity_state_req, get_entity_state_rep, set_entity_state_req,
  pub_entity_state_req, switch_entity,
}
use esphome_meshmesh.Direct.Sends.{word_at, word, unicast_send}
use esphome_meshmesh.Direct.Handlers.{
  positive16, handle_entities_count_frame, handle_get_entity_hash_frame,
  handle_get_entity_state_frame, handle_set_entity_state_frame, handle_publish_entity_state_frame,
  handle_custom_data_frame, register_command_reply_handler,
}

unfoldable pub set_target : ℕ → ℕ → MeshSwitch → MeshSwitch
set_target hash address w = record w { hash = hash; address = address }

unfoldable pub set_parent : MeshSwitch → Direct → Direct
set_parent w s = register_command_reply_handler w s

unfoldable pub setup : ℕ → MeshSwitch → MeshSwitch
setup now w = record w { request_update = true; request_time = now }

module _ (L : Library) where
  -- The switch's parent is set.
  unfoldable pub query_remote_state : MeshSwitch → Direct → Direct
  query_remote_state w s =
      if s.socket
      then unicast_send L get_entity_state_req (switch_entity ∷ word L w.hash []) w.address s
      else s

  -- The first, second and third readings of the clock.
  unfoldable pub loop : ℕ → ℕ → ℕ → MeshSwitch → Direct → MeshSwitch × Direct
  loop t0 t1 t2 w s =
      let due = w.request_update && ltb 500 (sub32 t0 w.request_time) in
      let w' =
        if due
        then record w { last_query_time = t1; request_update = false; request_time = 0 }
        else w in
      let s' = if due then query_remote_state w s else s in
      let w'' =
        if ltb 0 w'.last_query_time && ltb 1000 (sub32 t2 w'.last_query_time)
        then record w' { last_query_time = 0 }
        else w' in
      (w'', s')

  unfoldable pub on_command_reply : ℕ → List ℕ → MeshSwitch → Bool × MeshSwitch
  on_command_reply cmd payload w =
      let value = word_at L payload 3 in
      let taken = record w { published = positive16 value ∷ w.published; last_query_time = 0 } in
      if cmd == get_entity_state_rep
      then (if leb 5 (length payload)
          then (if get_or payload 0 0 == 1 && word_at L payload 1 == w.hash
              then (true, taken)
              else (false, w))
          else (false, w))
      else (false, w)

  -- The loop of `handleCommandReply`, which ends at the first handler that takes the reply.
  unfoldable pub offer : ℕ → List ℕ → List MeshSwitch → List MeshSwitch
  offer cmd payload [] = []
  offer cmd payload (w ∷ ws) =
      let (taken, w') = on_command_reply cmd payload w in
      let rest = offer cmd payload ws in if taken then w' ∷ ws else w' ∷ rest

  unfoldable pub handle_command_reply : List ℕ → Direct → Direct
  handle_command_reply buf s =
      if leb 1 (length buf)
      then record s {
        command_reply_handlers = offer (get_or buf 0 0) (drop 1 buf) s.command_reply_handlers;
      }
      else s

  -- The switch on the command.
  unfoldable pub handle_request : App → List ℕ → MeshAddress → Direct → Direct
  handle_request app buf from s =
      let cmd = get_or buf 0 0 in
      if cmd == entities_count_req
      then handle_entities_count_frame app buf from s
      else if cmd == get_entity_hash_req
      then handle_get_entity_hash_frame L app buf from s
      else if cmd == get_entity_state_req
      then handle_get_entity_state_frame L app buf from s
      else if cmd == set_entity_state_req
      then handle_set_entity_state_frame L app buf from s
      else if cmd == pub_entity_state_req
      then handle_publish_entity_state_frame L app buf from s
      else if cmd == custom_data_req
      then handle_custom_data_frame buf from s
      else s

  unfoldable pub handle_entity_frame : App → List ℕ → MeshAddress → Direct → Direct
  handle_entity_frame app buf from s =
      let s' = if not (bit_and (get_or buf 0 0) 0x01 == 0) then handle_command_reply buf s else s in
      if ltb (length buf) 1 then s else handle_request app buf from s'

  unfoldable pub handle_frame : App → List ℕ → MeshAddress → Direct → Direct
  handle_frame app frame from s =
      if ltb (length frame) 1 || not (get_or frame 0 0 == cmd_entity_req)
      then s
      else handle_entity_frame app (drop 1 frame) from s
