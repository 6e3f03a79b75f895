-- ===== src/Transport/Packets.antt =====
-- What of a packet arrives (components/meshmesh/packet_transport/meshmesh_transport.cpp).
use esphome_meshmesh.Prelude.{
  ◌==◌, if◌then◌else◌, Bool-cases, length, take, length-append, take-append, take_all, ok, ℕ, ◌≡◌,
  refl, ap, ◌∙◌, inl, inr, Bool, true, false, not, ◌||◌, List, [], ◌∷◌, ◌++◌, arith,
}
use esphome_meshmesh.Mesh.{MeshAddress}
use esphome_meshmesh.Transport.{
  Effect, Library, Transport, act, packet_transport_port, open_socket, setup, send_packet,
  handle_frame, set_address, recv_datagram,
}

take_init :
    (n : ℕ) (bytes : List ℕ) (last : ℕ) → n ≡ length bytes → take n (bytes ++ last ∷ []) ≡ bytes
take_init n bytes last e =
    take-append n bytes (last ∷ []) (omega arith) ∙ take_all n bytes (omega arith)

-- The packet that a datagram is turned into.
handle_frame-init :
    (bytes : List ℕ) (last : ℕ) (s : Transport)
    → handle_frame (bytes ++ last ∷ []) s ≡ ok (act (Effect.process bytes) s)
unfolding handle_frame
handle_frame-init [] last s = refl
handle_frame-init (x ∷ xs) last s =
    ap (λ k. ok (act (Effect.process k) s))
      (take_init _ (x ∷ xs) last (omega (arith, length-append xs (last ∷ []))))

-- A transport that is set up.
abbrev up : Bool → Transport → Transport
up b s = record {
  socket = b;
  target_address = record s.target_address { port = packet_transport_port };
  trace = Effect.parent_setup ∷ s.trace;
}

setup_lem : (s : Transport) → setup s ≡ up true s
unfolding setup open_socket
setup_lem s = elim (Bool-cases s.socket) [
  | inl e ↦ rw (ap not e) (ap (λ b. up b s) e)
  | inr e ↦ rw (ap not e) refl
]

send_packet_lem :
    (buf : List ℕ) (s : Transport)
    → send_packet buf (setup s)
      ≡ act
          (Effect.datagram (record s.target_address { port = packet_transport_port }) buf)
          (setup s)
unfolding send_packet
send_packet_lem buf s = rw (setup_lem s) refl

handed :
    (admitted : Bool) (bytes : List ℕ) (last : ℕ) (t : Transport)
    → (if admitted then handle_frame (bytes ++ last ∷ []) t else ok t)
      ≡ ok (if admitted then act (Effect.process bytes) t else t)
handed true bytes last t = handle_frame-init bytes last t
handed false bytes last t = refl

module _ (L : Library) where
  -- The nodes that a target admits as senders.
  abbrev pub admits : ℕ → ℕ → Bool
  admits target sender = target == 0 || (target == L.broadcast_address || sender == target)

  recv_datagram-admitted :
      (buf : List ℕ) (from : MeshAddress) (t : Transport)
      → recv_datagram L buf from t ≡ (
          if t.target_address.address == L.broadcast_address
            || from.address == t.target_address.address
          then handle_frame buf t
          else ok t)
  unfolding recv_datagram
  recv_datagram-admitted buf from t =
      elim (Bool-cases (t.target_address.address == L.broadcast_address)) [
        | inl a ↦ rw (L.is_broadcast_lem t.target_address, a) refl
        | inr a ↦
            rw (L.is_broadcast_lem t.target_address, a)
              (elim (Bool-cases (from.address == t.target_address.address)) [
                | inl b ↦ rw b refl
                | inr b ↦ rw b refl
              ])
      ]

  set_address-admits :
      (target sender : ℕ) (r : Transport)
      → let address = (set_address L target r).target_address.address in
        (address == L.broadcast_address || sender == address) ≡ admits target sender
  unfolding set_address
  set_address-admits target sender r = ground arith

  -- A packet with at least one byte that a set-up transport sends goes out whole to its target. A
  -- transport told a target hands what comes in to the application if the target is 0, the broadcast
  -- address or the sender, and without its last byte; else it drops the packet.
  pub send_packet-recv_datagram :
      (bytes : List ℕ) (last target : ℕ) (from : MeshAddress) (s r : Transport)
      → let sender = setup s in
        (send_packet (bytes ++ last ∷ []) sender
          ≡ act
              (Effect.datagram
                (record s.target_address { port = packet_transport_port })
                (bytes ++ last ∷ []))
              sender)
        × (recv_datagram L (bytes ++ last ∷ []) from (set_address L target r)
            ≡ ok (
                if admits target from.address
                then act (Effect.process bytes) (set_address L target r)
                else set_address L target r))
  send_packet-recv_datagram bytes last target from s r = (
    send_packet_lem (bytes ++ last ∷ []) s,
    recv_datagram-admitted (bytes ++ last ∷ []) from (set_address L target r)
        ∙ handed _ bytes last (set_address L target r)
        ∙ ap
            (λ b. ok (
              if b
              then act (Effect.process bytes) (set_address L target r)
              else set_address L target r))
            (set_address-admits target from.address r),
  )
