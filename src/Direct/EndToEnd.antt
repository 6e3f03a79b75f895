-- ===== src/Direct/EndToEnd.antt =====
-- A remote switch (components/meshmesh_direct/switch/meshmesh_switch.cpp) and the node that it
-- stands for (components/meshmesh_direct/meshmesh_direct.cpp): what is asked, done and answered.
use esphome_meshmesh.Prelude.{
  ℕ, ◌^◌, ◌<◌, ◌≡◌, refl, ap, ◌∙◌, Bool, Bool-cases, inl, inr, blit, not, true, false, Option, none,
  some, List, [], ◌∷◌, ◌++◌, arith, ltb, ◌==◌, if◌then◌else◌,
}
use esphome_meshmesh.Mesh.{MeshAddress}
use esphome_meshmesh.Direct.Sends.{
  remote_of, driven, write_remote, turn, perform, word, unicast_send, publish_remote_switch_state,
  publish_state, write_state,
}
use esphome_meshmesh.Direct.State.{
  Switch, App, Effect, Library, MeshSwitch, Direct, act, meshmesh_direct_port, cmd_entity_req,
  get_entity_state_req, get_entity_state_rep, set_entity_state_req, pub_entity_state_req,
  pub_entity_state_rep, switch_entity,
}
use esphome_meshmesh.Direct.Find.{find_switch}
use esphome_meshmesh.Direct.Handlers.{
  reply, switch_effect, set_effect, set_reply, publish_to, state_reply,
  handle_set_entity_state_frame, handle_publish_entity_state_frame,
}
use esphome_meshmesh.Direct.Remote.{
  query_remote_state, on_command_reply, offer, handle_command_reply, handle_request,
  handle_entity_frame, handle_frame,
}
use esphome_meshmesh.Direct.Lookup.{NoneOf}
use esphome_meshmesh.Direct.Discovery.{handle_frame-state, found_switch}

-- The request that a remote switch sends to the node of the switch that it stands for.
abbrev pub set_request : Library → MeshSwitch → Bool → List ℕ
set_request L w b =
    cmd_entity_req
    ∷ set_entity_state_req
    ∷ 1
    ∷ switch_entity
    ∷ word L w.hash (word L (if b then 10 else 0) [])

-- What comes of a state written to a switch: nothing more, or, where it is remote, a request to the
-- other node, if the socket is open, and a state published.
abbrev pub passed_on : Library → Option (ℕ × MeshSwitch) → Bool → Direct → Direct
passed_on L none b t = t
passed_on L (some (i, w)) b t =
    record (if t.socket
      then act (Effect.datagram (L.mesh_address meshmesh_direct_port w.address) (set_request L w b))
          t
      else t) {
        command_reply_handlers =
            blit t.command_reply_handlers i (record w { published = b ∷ w.published } ∷ []);
      }

-- What a node does that is told to turn a switch on or off, and has the switch or not.
abbrev pub obey : Library → Option Switch → Bool → MeshAddress → Direct → Direct
obey L none b from r = r
obey L (some x) b from r = reply from (cmd_entity_req ∷ get_entity_state_rep ∷ []) (
    passed_on L (remote_of x r) (if x.inverted then not b else b)
      (act (if b then Effect.turn_on x else Effect.turn_off x) r))

-- What a node does that is told the state of a remote switch.
abbrev pub note : Option Switch → Bool → MeshAddress → Direct → Direct
note o b from r =
    reply from (cmd_entity_req ∷ pub_entity_state_rep ∷ [])
      (elim o as (λ z. Direct) [ some x ↦ act (Effect.publish_switch x b) r | none ↦ r ])

pub write_remote-passed_on :
    (L : Library) (o : Option (ℕ × MeshSwitch)) (b : Bool) (t : Direct)
    → write_remote L o b t ≡ passed_on L o b t
unfolding write_remote write_state unicast_send
write_remote-passed_on L none b t = refl
write_remote-passed_on L (some (i, w)) b t = elim (Bool-cases t.socket) [
  | inl e ↦ rw e refl
  | inr e ↦ rw e refl
]

set_reply-obey :
    (L : Library) (o : Option Switch) (b : Bool) (from : MeshAddress) (r : Direct)
    → set_reply L (switch_effect o 1 (if b then 10 else 0)) from r ≡ obey L o b from r
unfolding set_reply switch_effect perform turn
set_reply-obey L none b from r = refl
set_reply-obey L (some x) true from r =
    ap (reply from (cmd_entity_req ∷ get_entity_state_rep ∷ []))
      (write_remote-passed_on L (remote_of x r) (driven x true) (act (Effect.turn_on x) r))
set_reply-obey L (some x) false from r =
    ap (reply from (cmd_entity_req ∷ get_entity_state_rep ∷ []))
      (write_remote-passed_on L (remote_of x r) (driven x false) (act (Effect.turn_off x) r))

same : (n : ℕ) → (n == n) ≡ true
same n = ground arith

publish_to-note :
    (o : Option Switch) (b : Bool) (r : Direct)
    → publish_to o (ltb 0 (if b then 10 else 0)) r
      ≡ elim o as (λ z. Direct) [ some x ↦ act (Effect.publish_switch x b) r | none ↦ r ]
unfolding publish_to
publish_to-note none b r = refl
publish_to-note (some x) true r = refl
publish_to-note (some x) false r = refl

module _ (L : Library) where
  small : (b : Bool) → (if b then 10 else 0) < 2 ^ 16
  small true = omega arith
  small false = omega arith

  -- Writing a state to a remote switch whose hash is a 16-bit number, on a node with its socket
  -- open, publishes the state at once and sends one frame to the other node. There the frame turns
  -- the first switch with that hash on or off as asked and is acknowledged; where that switch is a
  -- remote one itself, the state, negated if it is inverted, is published and passed on to its node in
  -- between. A node without such a switch does nothing and does not answer.
  pub write_state-handle_frame :
      (b : Bool) (w : MeshSwitch) (s r : Direct) (app : App) (from : MeshAddress)
      → s.socket ≡ true
      → w.hash < 2 ^ 16
      → let frame =
          cmd_entity_req
          ∷ set_entity_state_req
          ∷ 1
          ∷ switch_entity
          ∷ word L w.hash (word L (if b then 10 else 0) []) in
        (write_state L b w s ≡ (
          publish_state b w,
          act (Effect.datagram (L.mesh_address meshmesh_direct_port w.address) frame) s,
        ))
        × (handle_frame L app frame from r ≡ obey L (find_switch w.hash app) b from r)
  unfolding write_state unicast_send handle_frame handle_entity_frame handle_request
      handle_set_entity_state_frame set_effect
  write_state-handle_frame b w s r app from o h = (
    rw (o) refl,
    rw (L.get16-put16 w.hash h, L.get16-put16 _ (small b))
        (set_reply-obey L (find_switch w.hash app) b from r),
  )

  -- Publishing the state of a switch to another node, with the socket open and a 16-bit hash, sends
  -- one frame; there the first switch with that hash, if there is one, takes on the state, and the
  -- frame is acknowledged in any case.
  pub publish_remote_switch_state-handle_frame :
      (address hash : ℕ) (b : Bool) (s r : Direct) (app : App) (from : MeshAddress)
      → s.socket ≡ true
      → hash < 2 ^ 16
      → let frame =
          cmd_entity_req
          ∷ pub_entity_state_req
          ∷ switch_entity
          ∷ word L hash (word L (if b then 10 else 0) []) in
        (publish_remote_switch_state L address hash b s
          ≡ some (act (Effect.datagram (L.mesh_address meshmesh_direct_port address) frame) s))
        × (handle_frame L app frame from r ≡ note (find_switch hash app) b from r)
  unfolding publish_remote_switch_state handle_frame handle_entity_frame handle_request
      handle_publish_entity_state_frame
  publish_remote_switch_state-handle_frame address hash b s r app from o h = (
    rw (o) refl,
    rw (L.get16-put16 hash h, L.get16-put16 _ (small b))
        (ap (reply from (cmd_entity_req ∷ pub_entity_state_rep ∷ []))
          (publish_to-note (find_switch hash app) b r)),
  )

  -- The answer that carries a switch's state.
  abbrev pub state_payload : ℕ → Bool → List ℕ
  state_payload hash b = 1 ∷ word L hash (word L (if b then 1 else 0) [])

  -- A remote switch that has been told the state.
  abbrev pub told : Bool → MeshSwitch → MeshSwitch
  told b w = record w { published = b ∷ w.published; last_query_time = 0 }

  on_command_reply-other :
      (hash : ℕ) (b : Bool) (w : MeshSwitch)
      → hash < 2 ^ 16
      → (hash == w.hash) ≡ false
      → on_command_reply L get_entity_state_rep (state_payload hash b) w ≡ (false, w)
  unfolding on_command_reply
  on_command_reply-other hash b w h e = rw (L.get16-put16 hash h, e) refl

  on_command_reply-own :
      (b : Bool) (w : MeshSwitch)
      → w.hash < 2 ^ 16
      → on_command_reply L get_entity_state_rep (state_payload w.hash b) w ≡ (true, told b w)
  unfolding on_command_reply
  on_command_reply-own true w h =
      rw (L.get16-put16 w.hash h, L.get16-put16 1 (omega arith)) (rw (same w.hash) refl)
  on_command_reply-own false w h =
      rw (L.get16-put16 w.hash h, L.get16-put16 0 (omega arith)) (rw (same w.hash) refl)

  offer_first :
      (b : Bool) (before behind : List MeshSwitch) (w : MeshSwitch)
      → w.hash < 2 ^ 16
      → NoneOf (λ (y : MeshSwitch). w.hash == y.hash) before
      → offer L get_entity_state_rep (state_payload w.hash b) (before ++ w ∷ behind)
        ≡ before ++ told b w ∷ behind
  unfolding offer
  offer_first b [] behind w h m = rw (on_command_reply-own b w h) refl
  offer_first b (y ∷ ys) behind w h m =
      rw (on_command_reply-other w.hash b y h m.0)
        (ap (λ t. y ∷ t) (offer_first b ys behind w h m.1))

  -- A remote switch w with a 16-bit hash asks for its state, its node's socket being open: one
  -- frame goes to the other node. That node, if it has a switch x for the hash, answers the sender
  -- with x's state. The answer, from whatever address it comes, reaches the first of the registered
  -- remote switches with that hash: it publishes the state and waits no more, and nothing else
  -- changes.
  pub query_remote_state-handle_frame :
      (w : MeshSwitch) (before behind : List MeshSwitch) (x : Switch) (s t r : Direct)
      (app app' : App) (from from' : MeshAddress)
      → s.socket ≡ true
      → w.hash < 2 ^ 16
      → find_switch w.hash app ≡ some x
      → t.command_reply_handlers ≡ before ++ w ∷ behind
      → NoneOf (λ (y : MeshSwitch). w.hash == y.hash) before
      → let frame = cmd_entity_req ∷ get_entity_state_req ∷ switch_entity ∷ word L w.hash [] in
        let answer = cmd_entity_req ∷ get_entity_state_rep ∷ state_payload w.hash x.state in
        (query_remote_state L w s
          ≡ act (Effect.datagram (L.mesh_address meshmesh_direct_port w.address) frame) s)
        × (handle_frame L app frame from r ≡ reply from answer r)
        × (handle_frame L app' answer from' t
            ≡ record t { command_reply_handlers = before ++ told x.state w ∷ behind })
  unfolding query_remote_state unicast_send state_reply handle_frame handle_entity_frame
      handle_request handle_command_reply
  query_remote_state-handle_frame w before behind x s t r app app' from from' o h f e m = (
    rw (o, unicast_send) refl,
    handle_frame-state L app switch_entity w.hash from r h
        ∙ ap (λ z. state_reply L z w.hash from r) (found_switch L app w.hash x f),
    ap (λ (ws : List MeshSwitch). record t { command_reply_handlers = ws })
        (ap (offer L get_entity_state_rep (state_payload w.hash x.state)) e
          ∙ offer_first x.state before behind w h m),
  )
