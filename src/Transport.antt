-- ===== src/Transport.antt =====
-- ESPHome's packet transport over a mesh socket
-- (components/meshmesh/packet_transport/meshmesh_transport.cpp, meshmesh_transport.h).
use esphome_meshmesh.Prelude.{
  ◌==◌, if◌then◌else◌, length, take, Result, ok, fault, ℕ, ◌-◌, ◌≡◌, Bool, true, not, ◌&&◌, List,
  [], ◌∷◌,
}
use esphome_meshmesh.Mesh.{MeshAddress}
pub mod Packets
mod Tests

-- What the component does, newest first; `process` is `PacketTransport::process_`.
pub data Effect : Type 0 where
  parent_setup : Effect
  datagram : MeshAddress → List ℕ → Effect
  process : List ℕ → Effect

-- The mesh library's broadcast address, and its test.
pub record Library : Type 0 where
  pub broadcast_address : ℕ
  pub is_broadcast : MeshAddress → Bool
  pub is_broadcast_lem : (a : MeshAddress) → is_broadcast a ≡ (a.address == broadcast_address)

pub record Transport : Type 0 where
  pub socket : Bool
  pub target_address : MeshAddress
  pub trace : List Effect

abbrev pub act : Effect → Transport → Transport
act e s = record s { trace = e ∷ s.trace }

abbrev pub packet_transport_port : ℕ
packet_transport_port = 0xA2

abbrev pub get_max_packet_size : ℕ
get_max_packet_size = 999

unfoldable pub set_prefered_protocol : ℕ → Transport → Transport
set_prefered_protocol protocol s = record s {
  target_address = record s.target_address { source_protocol = protocol };
}

unfoldable pub set_repeaters : List ℕ → Transport → Transport
set_repeaters repeaters s = record s {
  target_address = record s.target_address { repeaters = repeaters };
}

-- A failure to open is logged, and the pointer stays.
unfoldable pub open_socket : Transport → Transport
open_socket s = record s { socket = true }

unfoldable pub setup : Transport → Transport
setup s =
    let s' =
      act Effect.parent_setup
        (record s { target_address = record s.target_address { port = packet_transport_port } }) in
    if not s'.socket then open_socket s' else s'

-- A failure to send is logged.
unfoldable pub send_packet : List ℕ → Transport → Transport
send_packet buf s = if not s.socket then s else act (Effect.datagram s.target_address buf) s

-- The vector runs from the first byte to the one before the last; without a first byte its end lies
-- before its start.
unfoldable pub handle_frame : List ℕ → Transport → Result Transport
handle_frame [] s = fault
handle_frame (x ∷ xs) s = ok (act (Effect.process (take (length (x ∷ xs) - 1) (x ∷ xs))) s)

module _ (L : Library) where
  unfoldable pub set_address : ℕ → Transport → Transport
  set_address address s = record s {
    target_address = record s.target_address {
      address = if address == 0 then L.broadcast_address else address;
    };
  }

  -- What follows the test is what `handle_frame` does, too.
  unfoldable pub recv_datagram : List ℕ → MeshAddress → Transport → Result Transport
  recv_datagram buf from s =
      if not (L.is_broadcast s.target_address) && not (from.address == s.target_address.address)
      then ok s
      else handle_frame buf s
