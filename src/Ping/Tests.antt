-- ===== src/Ping/Tests.antt =====
-- A sample round of the probe (components/ping/ping.cpp), and the theorems about it at concrete
-- inputs.
use esphome_meshmesh.Prelude.{◌≡◌, refl, true, false, some, List, [], ◌∷◌, arith}
use esphome_meshmesh.Mesh.{MeshAddress}
use esphome_meshmesh.Ping.{
  Effect, Platform, Ping, act, ping_code, pong_code, fresh, set_target_address, tell_presence,
  tell_latency, strncmp_same, setup, loop, update, pong, reached, recv_datagram,
}
use esphome_meshmesh.Ping.Rounds.{
  update-recv_datagram, passes-away, passes, outbox, ping_packet, pong_packet,
}
use esphome_meshmesh.Ping.Runs.{Event, pass, poll, receive, sent, run, step, run-sent, setup-Silent}

abbrev platform : Platform
platform = record {
  no_address = 0;
  coordinator_address = 0x111111;
  reverse = λ a. record a { port = 0xA4 };
  presence_state = λ t. false;
  past_end = 0;
}

abbrev blank : MeshAddress
blank = record { port = 0; address = 0; repeaters = []; source_protocol = 0 }

abbrev hub : MeshAddress
hub = record { port = 0xA4; address = 0x111111; repeaters = []; source_protocol = 0 }

abbrev leaf : MeshAddress
leaf = record { port = 0xA4; address = 0x222222; repeaters = 0x333333 ∷ []; source_protocol = 0 }

-- A node that probes the coordinator, with both sensors, and the coordinator.
abbrev node : Ping
node = record {
  socket = true;
  presence_sensor = true;
  latency_sensor = true;
  target_address = hub;
  last_ping_time = 0;
  trace = [];
}

unfoldable coordinator : Ping
coordinator = set_target_address 0x111111 (fresh blank)

abbrev waiting : Ping
waiting = record node { last_ping_time = 5000 }

abbrev round : List Event
round =
    poll 5000 true
    ∷ pass 5100
    ∷ receive 5200 hub pong_packet
    ∷ receive 5300 leaf ping_packet
    ∷ poll 6000 true
    ∷ pass 7001
    ∷ []

run-round : run platform round node ≡ record node {
  trace =
      Effect.publish_presence false
      ∷ Effect.datagram hub ping_packet
      ∷ Effect.datagram leaf pong_packet
      ∷ Effect.publish_latency 200
      ∷ Effect.publish_presence true
      ∷ Effect.datagram hub ping_packet
      ∷ [];
}
unfolding run step update recv_datagram strncmp_same pong reached loop tell_presence tell_latency
run-round = refl

update-recv_datagram_example :
    (outbox (update platform 5000 true node).trace ≡ some (hub, ping_packet))
    × (recv_datagram platform 5100 leaf ping_packet node
        ≡ act (Effect.datagram leaf pong_packet) node)
    × (recv_datagram platform 5200 hub pong_packet (update platform 5000 true node) ≡ record node {
      trace =
          Effect.publish_latency 200
          ∷ Effect.publish_presence true
          ∷ Effect.datagram hub ping_packet
          ∷ [];
    })
update-recv_datagram_example =
    update-recv_datagram platform 5000 5100 5200 leaf hub node node
      (record { socket_open = refl; targeted = refl }) refl refl refl

passes-away_example :
    passes platform (5000 ∷ 6000 ∷ 6001 ∷ 6002 ∷ []) waiting
    ≡ record node { trace = Effect.publish_presence false ∷ [] }
passes-away_example =
    passes-away platform 5000 6001 (5000 ∷ 6000 ∷ []) (6002 ∷ []) waiting refl
      (λ e. omega (arith, e)) refl (omega arith, (omega arith, tt)) (omega arith)

run-sent_example :
    (sent pong_code (run platform round node).trace ≡ 1)
    × (sent ping_code (run platform round node).trace ≡ 2)
run-sent_example = run-sent platform round node refl

setup-Silent_example :
    ((setup platform true coordinator).socket ≡ true)
    × (sent ping_code (run platform round (setup platform true coordinator)).trace ≡ 0)
unfolding coordinator fresh set_target_address
setup-Silent_example = setup-Silent platform round coordinator refl refl
