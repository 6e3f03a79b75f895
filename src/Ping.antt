-- ===== src/Ping.antt =====
-- The reachability probe (components/ping/ping.cpp, ping.h): PING and PONG datagrams, and what the
-- presence and latency sensors are told. Each handler takes the clock's value that it reads.
use esphome_meshmesh.Prelude.{
  ℕ, zero, suc, Bool, true, false, not, ◌&&◌, List, [], ◌∷◌, drop, get_or, ltb, leb, ◌==◌,
  if◌then◌else◌,
}
use esphome_meshmesh.Mesh.{MeshAddress, sub32, add32}
pub mod Rounds
pub mod Runs
mod Tests

-- What the component has done, newest first.
pub data Effect : Type 0 where
  datagram : MeshAddress → List ℕ → Effect
  publish_presence : Bool → Effect
  publish_latency : ℕ → Effect

-- The mesh library's constants and `reverse`, the state that the presence sensor shows after what
-- was published, and the byte that lies behind a datagram in memory.
pub record Platform : Type 0 where
  pub no_address : ℕ
  pub coordinator_address : ℕ
  pub reverse : MeshAddress → MeshAddress
  pub presence_state : List Effect → Bool
  pub past_end : ℕ

pub record Ping : Type 0 where
  pub socket : Bool
  pub presence_sensor : Bool
  pub latency_sensor : Bool
  pub target_address : MeshAddress
  pub last_ping_time : ℕ
  pub trace : List Effect

abbrev pub meshmesh_ping_port : ℕ
meshmesh_ping_port = 0xA4

abbrev pub ping_code : ℕ
ping_code = 1

abbrev pub pong_code : ℕ
pong_code = 2

abbrev pub ping_text : List ℕ
ping_text = b'P' ∷ b'I' ∷ b'N' ∷ b'G' ∷ []

abbrev pub pong_text : List ℕ
pong_text = b'P' ∷ b'O' ∷ b'N' ∷ b'G' ∷ []

abbrev pub act : Effect → Ping → Ping
act e s = record s { trace = e ∷ s.trace }

-- The object as constructed for a target without an address yet.
unfoldable pub fresh : MeshAddress → Ping
fresh target = record {
  socket = false;
  presence_sensor = false;
  latency_sensor = false;
  target_address = record target { port = meshmesh_ping_port };
  last_ping_time = 0;
  trace = [];
}

unfoldable pub set_prefered_protocol : ℕ → Ping → Ping
set_prefered_protocol protocol s = record s {
  target_address = record s.target_address { source_protocol = protocol };
}

unfoldable pub set_target_address : ℕ → Ping → Ping
set_target_address address s = record s {
  target_address = record s.target_address { address = address };
}

unfoldable pub set_repeaters : List ℕ → Ping → Ping
set_repeaters value s = record s { target_address = record s.target_address { repeaters = value } }

unfoldable pub set_presence_sensor : Bool → Ping → Ping
set_presence_sensor present s = record s { presence_sensor = present }

unfoldable pub set_latency_sensor : Bool → Ping → Ping
set_latency_sensor present s = record s { latency_sensor = present }

unfoldable pub tell_presence : Bool → Ping → Ping
tell_presence b s = if s.presence_sensor then act (Effect.publish_presence b) s else s

unfoldable pub tell_latency : ℕ → Ping → Ping
tell_latency n s = if s.latency_sensor then act (Effect.publish_latency n) s else s

-- `strncmp` of at most `n` characters answers 0. Behind the datagram stands `past_end`, behind the
-- literal its terminator.
unfoldable pub strncmp_same : ℕ → ℕ → List ℕ → List ℕ → Bool
strncmp_same past_end zero buf text = true
strncmp_same past_end (suc n) buf text =
    let a = get_or buf 0 past_end in
    let rest = strncmp_same past_end n (drop 1 buf) (drop 1 text) in
    if a == get_or text 0 0 then (if a == 0 then true else rest) else false

module _ (P : Platform) where
  -- A failure to open is logged, and the pointer stays.
  unfoldable pub open_socket : Ping → Ping
  open_socket s = if s.target_address.address == P.no_address then s else record s { socket = true }

  -- A coordinator that targets the coordinator acts as a server.
  unfoldable pub setup : Bool → Ping → Ping
  setup is_coordinator s =
      let s' =
        if s.target_address.address == P.coordinator_address && is_coordinator
        then set_target_address 1 s
        else s in
      if not s'.socket then open_socket s' else s'

  unfoldable pub loop : ℕ → Ping → Ping
  loop now s =
      if s.last_ping_time == 0
      then s
      else if ltb 1000 (sub32 now s.last_ping_time)
      then tell_presence false (record s { last_ping_time = 0 })
      else s

  unfoldable pub send_failed : Ping → Ping
  send_failed s =
      let s' =
        if s.presence_sensor && P.presence_state s.trace
        then act (Effect.publish_presence false) s
        else s in
      tell_latency 0 s'

  -- `sent`: the socket answers `errSuccess`.
  unfoldable pub update : ℕ → Bool → Ping → Ping
  update now sent s =
      if leb s.target_address.address (add32 P.no_address 1)
      then s
      else let s' = record s { last_ping_time = now } in
        if not s'.socket
        then s'
        else let s'' = act (Effect.datagram s'.target_address (ping_code ∷ ping_text)) s' in
          if sent then s'' else send_failed s''

  -- The answer to a PING.
  unfoldable pub pong : MeshAddress → Ping → Ping
  pong from s =
      if s.socket then act (Effect.datagram (P.reverse from) (pong_code ∷ pong_text)) s else s

  -- What a PONG leads to.
  unfoldable pub reached : ℕ → Ping → Ping
  reached now s =
      let elapsed = sub32 now s.last_ping_time in
      record (tell_latency elapsed (tell_presence (ltb elapsed 1000) s)) { last_ping_time = 0 }

  unfoldable pub recv_datagram : ℕ → MeshAddress → List ℕ → Ping → Ping
  recv_datagram now from buf s =
      let first = get_or buf 0 P.past_end in
      if first == ping_code && not (strncmp_same P.past_end 4 buf ping_text)
      then pong from s
      else if first == pong_code && not (strncmp_same P.past_end 4 buf pong_text)
      then reached now s
      else s
