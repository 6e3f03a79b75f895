-- ===== src/Transport/Tests.antt =====
-- A sample packet (components/meshmesh/packet_transport/meshmesh_transport.cpp), and the theorem
-- about it at concrete inputs.
use esphome_meshmesh.Prelude.{◌==◌, ok, ◌≡◌, refl, false, [], ◌∷◌}
use esphome_meshmesh.Mesh.{MeshAddress}
use esphome_meshmesh.Transport.{
  Effect, Library, Transport, act, open_socket, setup, send_packet, handle_frame, set_address,
  recv_datagram,
}
use esphome_meshmesh.Transport.Packets.{send_packet-recv_datagram}

abbrev library : Library
library = record {
  broadcast_address = 0xFFFFFFFF;
  is_broadcast = λ a. a.address == 0xFFFFFFFF;
  is_broadcast_lem = λ a. refl;
}

abbrev hub : MeshAddress
hub = record { port = 0; address = 0x111111; repeaters = []; source_protocol = 0 }

abbrev leaf : MeshAddress
leaf = record { port = 0xA2; address = 0x222222; repeaters = []; source_protocol = 0 }

abbrev transport : Transport
transport = record { socket = false; target_address = hub; trace = [] }

run-recv_datagram :
    recv_datagram library (1 ∷ 2 ∷ 3 ∷ []) hub (setup transport)
    ≡ ok (act (Effect.process (1 ∷ 2 ∷ [])) (setup transport))
unfolding recv_datagram handle_frame setup open_socket
run-recv_datagram = refl

send_packet-recv_datagram_example :
    (send_packet (1 ∷ 2 ∷ 3 ∷ []) (setup transport)
      ≡ act (Effect.datagram (record hub { port = 0xA2 }) (1 ∷ 2 ∷ 3 ∷ [])) (setup transport))
    × (recv_datagram library (1 ∷ 2 ∷ 3 ∷ []) leaf (set_address library 0x222222 transport)
        ≡ ok (act (Effect.process (1 ∷ 2 ∷ [])) (set_address library 0x222222 transport)))
send_packet-recv_datagram_example =
    send_packet-recv_datagram library (1 ∷ 2 ∷ []) 3 0x222222 leaf transport transport
