-- ===== src/Ota/Upload/Update.antt =====
-- A whole update of components/meshmesh/ota/ota_meshmesh.cpp, from the end of the handshake to the
-- reboot.
use esphome_meshmesh.Prelude.{
  ℕ, suc, ◌+◌, ◌*◌, ◌^◌, ◌≤◌, ◌<◌, ◌≡◌, ap, sym, ◌∙◌, subst, List, [], ◌∷◌, ◌++◌, arith, length,
  length-drop, length_zero, drop,
}
use esphome_meshmesh.Mesh.{MeshAddress}
use esphome_meshmesh.Ota.State.{OtaState, Effect, Frame, Platform, Ota, done, rx_ring_max, ota_port}
use esphome_meshmesh.Ota.Data.{size_of_bytes, data_case}
use esphome_meshmesh.Ota.Loop.{tick, loop, Event, pass, step, run}
use esphome_meshmesh.Ota.Queue.{contents}
use esphome_meshmesh.Ota.Invariant.{IsValid, Safe, written}
use esphome_meshmesh.Ota.Safety.{tick-IsValid, loop-Safe}
use esphome_meshmesh.Ota.Upload.Setting.{Succeeds, InTime, Online, reply, loop-Online}
use esphome_meshmesh.Ota.Upload.Pass.{Uploading, Succeeds-Calm}
use esphome_meshmesh.Ota.Upload.Schedule.{payloads, Fits, calls}
use esphome_meshmesh.Ota.Upload.Finish.{ending}
use esphome_meshmesh.Ota.Upload.Header.{Opens, data_auth_ok-Opens}
use esphome_meshmesh.Ota.Upload.Whole.{Rebooted, run-Rebooted}

module _ (P : Platform) (ok : Succeeds P) (f : ℕ) where
  -- The session that the pass over size and checksum opens takes firmware.
  Opens-Uploading :
      (s t : Ota)
      → Online OtaState.data_auth_ok s
      → IsValid t
      → size_of_bytes (contents s) + 16384 ≤ 2 ^ 32
      → size_of_bytes (contents s) ≤ 8192 * suc f
      → Opens P ok f s t
      → Uploading (suc f) s.data_phase_start_ms t
  Opens-Uploading s t o v w h q =
      let e = q.same in
      let size = ap (λ x. x.ota_size) e in
      let total = ap (λ x. x.firmware_total) e in
      let acked = ap (λ x. x.size_acknowledged) e in
      record {
        online = record {
          state = ap (λ x. x.ota_state) e;
          socket = ap (λ x. x.socket_open) e ∙ o.socket;
          peer_set = ap (λ x. x.has_peer) e ∙ o.peer_set;
          backend_set = ap (λ x. x.backend) e ∙ o.backend_set;
        };
        valid = v;
        paced = record {
          settled = ground (arith, total, acked);
          within = omega (arith, total);
          no_wrap = omega (arith, size, w);
          blocks_in = omega (arith, size, h);
        };
        started = ap (λ x. x.data_phase_start_ms) e;
      }

  Online-tick : (s : Ota) → Online OtaState.data_auth_ok s → Online OtaState.data_auth_ok (tick s)
  Online-tick s o = record {
    state = o.state;
    socket = o.socket;
    peer_set = o.peer_set;
    backend_set = o.backend_set;
  }

  loop-Opens :
      (s : Ota)
      → IsValid s
      → Online OtaState.data_auth_ok s
      → 36 ≤ length (contents s)
      → InTime P s.data_phase_start_ms (suc s.turn)
      → (t : Ota) × (loop P (suc (suc f)) s ≡ done t) × IsValid t × Opens P ok f s t
  unfolding data_case
  loop-Opens s v o h time =
      let b = v.buffers in
      let (t, e, q) =
        data_auth_ok-Opens P ok f s o.socket o.peer_set o.backend_set b.rx
          (omega (arith, b.data_len)) h in
      let l : loop P (suc (suc f)) s ≡ done t =
        loop-Online P (suc (suc f)) OtaState.data_auth_ok s (omega arith) o
          (time s.turn (omega arith))
        ∙ e in
      (t, l, subst Safe l (loop-Safe P (Succeeds-Calm P ok) (suc (suc f)) s v), q)

  -- The same for the event.
  pass-Opens :
      (s : Ota)
      → IsValid s
      → Online OtaState.data_auth_ok s
      → 36 ≤ length (contents s)
      → InTime P s.data_phase_start_ms (s.turn + 2)
      → (t : Ota) × (step P (suc (suc f)) s pass ≡ done t) × IsValid t × Opens P ok f (tick s) t
  unfolding step
  pass-Opens s v o h time =
      loop-Opens (tick s) (tick-IsValid s v) (Online-tick s o) h (λ k c. time k (omega (arith, c)))

  Rebooted-from :
      (s u t : Ota) (image : List ℕ) → u.peer ≡ s.peer → Rebooted P u image t → Rebooted P s image t
  Rebooted-from s u t image p r =
      let to : (b : ℕ) → reply P u b ≡ reply P s b =
        λ b i. Effect.datagram (record (p i) { port = ota_port }) (b ∷ []) in
      record {
        closed = r.closed;
        log = r.log;
        flashed = r.flashed;
        trace = r.trace ∙ (λ i.
            Effect.reboot
            ∷ to P.response.update_end_ok i
            ∷ Effect.end_update
            ∷ to P.response.receive_ok i
            ∷ r.log);
      }

  -- Where no datagram is refused, no backend call fails and nothing comes in during a pass: from
  -- a valid session at the end of the handshake, with the four bytes of the size and the 32 of
  -- the checksum waiting, run a pass; then datagrams of the peer's that bring exactly as many
  -- bytes as the size says and never let more than 8192 wait, with passes between them in any
  -- order while bytes are missing and enough of them to take all; then two passes, a datagram as
  -- the last acknowledgement, and a pass. If the size does not come within 16384 of 2^32, there
  -- is fuel for each block, and all is within 90 seconds of the data phase's start, then the run
  -- returns, the session is closed, and flash holds the bytes of the datagrams in their order,
  -- and nothing else, since the update began; after that the receipt is sent, the backend ends
  -- the update, this is sent too, and the device reboots, in this order.
  pub run-Updated :
      (s : Ota) (es : List Event) (ack : Frame)
      → IsValid s
      → Online OtaState.data_auth_ok s
      → length (contents s) ≡ 36
      → size_of_bytes (contents s) + 16384 ≤ 2 ^ 32
      → size_of_bytes (contents s) ≤ 8192 * suc f
      → Fits s.peer.address 0 (size_of_bytes (contents s)) es
      → ack.from.address ≡ s.peer.address
      → 0 < length ack.payload
      → length ack.payload ≤ rx_ring_max
      → InTime P s.data_phase_start_ms (s.turn + calls (suc f) es + 13)
      → (t : Ota) × (run P (suc (suc f)) s (pass ∷ es ++ ending ack) ≡ done t)
        × Rebooted P s (payloads es) t
  unfolding run
  run-Updated s es ack v o h w b g a n l time =
      let (u, e, uv, q) = pass-Opens s v o (omega (arith, h)) (λ k c. time k (omega (arith, c))) in
      let m = q.same in
      let image_size = size_of_bytes (contents s) in
      let up = Opens-Uploading (tick s) u (Online-tick s o) uv w b q in
      let size = ap (λ x. x.ota_size) m in
      let total = ap (λ x. x.firmware_total) m in
      let turn = ap (λ x. x.turn) m in
      let peer : u.peer ≡ s.peer = ap (λ x. x.peer) m in
      let empty : contents u ≡ [] = length_zero (contents u) (
        omega (
          arith,
          h,
          ap length q.rest,
          length-drop 4 (contents s),
          length-drop 32 (drop 4 (contents s)),
        )) in
      let fits : Fits u.peer.address (length (contents u)) image_size es =
        subst (λ (p : MeshAddress). Fits p.address (length (contents u)) image_size es) (sym peer)
          (subst (λ (c : List ℕ). Fits s.peer.address (length c) image_size es) (sym empty) g) in
      let (t, d, r) =
        run-Rebooted P ok (suc f) s.data_phase_start_ms image_size u es ack up
          (omega (arith, size, total, ap length empty)) fits
          (a ∙ ap (λ (p : MeshAddress). p.address) (sym peer)) n l
          (λ k c. time k (omega (arith, c, turn))) in
      let image : written u.trace ++ (contents u ++ payloads es) ≡ payloads es =
        λ i. written (m i).trace ++ (empty i ++ payloads es) in
      (t, rw e d, Rebooted-from s u t (payloads es) peer (subst (λ x. Rebooted P u x t) image r))
