-- ===== src/Direct/Sends.antt =====
-- What components/meshmesh_direct/meshmesh_direct.cpp sends on its own account, and the state written
-- to a remote switch (components/meshmesh_direct/switch/meshmesh_switch.cpp), which a frame may bring
-- about too. A 16-bit number stands for an `int16_t`.
use esphome_meshmesh.Prelude.{
  ℕ, ◌+◌, Bool, true, false, not, Option, none, some, List, [], ◌∷◌, get_elem?, get_or, blit,
  if◌then◌else◌,
}
use esphome_meshmesh.Direct.State.{
  Switch, Effect, Library, MeshSwitch, Direct, act, meshmesh_direct_port, cmd_entity_req,
  custom_data_req, set_entity_state_req, pub_entity_state_req, switch_entity,
}

abbrev pub publish_state : Bool → MeshSwitch → MeshSwitch
publish_state state w = record w { published = state ∷ w.published }

-- The object of a remote switch, with its place.
abbrev pub remote_of : Switch → Direct → Option (ℕ × MeshSwitch)
remote_of x s = elim x.remote [
  | none ↦ none
  | some i ↦ elim (get_elem? s.command_reply_handlers i) [ none ↦ none | some w ↦ some (i, w) ]
]

-- The call of `turn_on` or `turn_off`.
abbrev pub called : Switch → Bool → Effect
called x state = if state then Effect.turn_on x else Effect.turn_off x

-- What ESPHome's `turn_on` and `turn_off` hand to `write_state`.
abbrev pub driven : Switch → Bool → Bool
driven x state = if x.inverted then not state else state

module _ (L : Library) where
  -- The 16-bit number at an offset.
  abbrev pub word_at : List ℕ → ℕ → ℕ
  word_at buf i = L.get16 (get_or buf i 0) (get_or buf (i + 1) 0)

  -- The two bytes of a 16-bit number, before what follows them.
  abbrev pub word : ℕ → List ℕ → List ℕ
  word n rest = (L.put16 n).0 ∷ (L.put16 n).1 ∷ rest

  unfoldable pub broadcast_send : ℕ → List ℕ → Direct → Direct
  broadcast_send cmd payload s =
      if s.socket
      then act
          (Effect.datagram (L.mesh_address meshmesh_direct_port L.broadcast_address)
            (cmd_entity_req ∷ cmd ∷ payload))
          s
      else s

  unfoldable pub broadcast_send_custom : List ℕ → Direct → Direct
  broadcast_send_custom payload s = broadcast_send custom_data_req payload s

  unfoldable pub unicast_send : ℕ → List ℕ → ℕ → Direct → Direct
  unicast_send cmd payload address s =
      if s.socket
      then act
          (Effect.datagram (L.mesh_address meshmesh_direct_port address)
            (cmd_entity_req ∷ cmd ∷ payload))
          s
      else s

  unfoldable pub unicast_send_custom : List ℕ → ℕ → Direct → Direct
  unicast_send_custom payload address s = unicast_send custom_data_req payload address s

  -- `none` is the null pointer dereferenced before `setup`.
  unfoldable pub publish_remote_switch_state : ℕ → ℕ → Bool → Direct → Option Direct
  publish_remote_switch_state address hash state s =
      if s.socket
      then some (
          act
            (Effect.datagram (L.mesh_address meshmesh_direct_port address) (
              cmd_entity_req
              ∷ pub_entity_state_req
              ∷ switch_entity
              ∷ word hash (word (if state then 10 else 0) [])))
            s)
      else none

  unfoldable pub write_state : Bool → MeshSwitch → Direct → MeshSwitch × Direct
  write_state state w s =
      let request = 1 ∷ switch_entity ∷ word w.hash (word (if state then 10 else 0) []) in
      let s' = if s.socket then unicast_send set_entity_state_req request w.address s else s in
      (publish_state state w, s')

  unfoldable pub write_remote : Option (ℕ × MeshSwitch) → Bool → Direct → Direct
  write_remote none state s = s
  write_remote (some (i, w)) state s =
      let (w', s') = write_state state w s in
      record s' { command_reply_handlers = blit s'.command_reply_handlers i (w' ∷ []) }

  -- `turn_on` or `turn_off`: the `write_state` of a switch that is not remote is code outside.
  unfoldable pub turn : Switch → Bool → Direct → Direct
  turn x state s = write_remote (remote_of x s) (driven x state) (act (called x state) s)

  -- What a request asks of an entity.
  unfoldable pub perform : Effect → Direct → Direct
  perform (Effect.turn_on x) s = turn x true s
  perform (Effect.turn_off x) s = turn x false s
  perform e s = act e s
