-- ===== src/Ota/Upload/Finish.antt =====
-- The end of an upload to components/meshmesh/ota/ota_meshmesh.cpp: the states from DATA_RECEIVE_OK to
-- the reboot.
use esphome_meshmesh.Prelude.{
  ℕ, suc, ◌+◌, ◌≤◌, ◌<◌, ◌≡◌, refl, ap, ◌∙◌, inr, true, false, not, List, [], ◌∷◌, arith, length,
  blit, ltb, leb, ◌==◌, length-take, length-append,
}
use esphome_meshmesh.Mesh.{sub32}
use esphome_meshmesh.Ota.State.{
  OtaState, Effect, Frame, Platform, Ota, act, done, rx_ring_max, data_timeout_ms,
}
use esphome_meshmesh.Ota.Rx.{
  rx_available, rx_read, rx_append, transition_ota_state, handle_frame, cleanup_auth,
  cleanup_session,
}
use esphome_meshmesh.Ota.Data.{
  data_reboot, data_final_ack, data_end_ok, data_end, data_receive_ok, data_firmware, data_case,
}
use esphome_meshmesh.Ota.Loop.{tick, loop, Event, receive, pass, step, run}
use esphome_meshmesh.Ota.Queue.{contents, RxValid, rx_append_lem, rx_available-length, rx_read_lem}
use esphome_meshmesh.Ota.Frames.{Closed, handle_frame_fits, cleanup_session-Closed}
use esphome_meshmesh.Ota.Upload.Setting.{
  Succeeds, InTime, Online, reply, write_byte-Succeeds, loop-Online,
}
use esphome_meshmesh.Ota.Upload.Pass.{missing}

-- The events that end an upload: two passes, the last acknowledgement, and one pass more.
abbrev pub ending : Frame → List Event
ending ack = pass ∷ pass ∷ receive ack ∷ pass ∷ []

module _ (P : Platform) (ok : Succeeds P) where
  -- Everything is in flash: the state changes, and nothing else.
  abbrev received : Ota → Ota
  received s = record s { ota_state = OtaState.data_receive_ok; handshake_buf_pos = 0 }

  pass-received :
      (fuel : ℕ) (s : Ota)
      → Online OtaState.data_firmware s
      → missing s ≡ 0
      → sub32 (P.millis s.turn) s.data_phase_start_ms ≤ data_timeout_ms
      → loop P fuel s ≡ done (received s)
  unfolding data_case data_firmware transition_ota_state
  pass-received fuel s o m time =
      let full : leb s.ota_size s.firmware_total ≡ true = ground (arith, m) in
      loop-Online P fuel OtaState.data_firmware s (omega arith) o time ∙ rw full refl

  -- The receipt is out, the backend has ended the update, and that is out too.
  abbrev pub finished : Ota → Ota
  finished s = record s {
    ota_state = OtaState.data_final_ack;
    handshake_buf_pos = 0;
    turn = suc (suc (suc s.turn));
    trace =
        reply P s P.response.update_end_ok
        ∷ Effect.end_update
        ∷ reply P s P.response.receive_ok
        ∷ s.trace;
  }

  pass-finished :
      (fuel : ℕ) (s : Ota)
      → Online OtaState.data_receive_ok s
      → sub32 (P.millis s.turn) s.data_phase_start_ms ≤ data_timeout_ms
      → loop P fuel s ≡ done (finished s)
  unfolding data_case data_receive_ok data_end data_end_ok transition_ota_state
  pass-finished fuel s o time =
      let sent = write_byte-Succeeds P s P.response.receive_ok ok o.socket o.peer_set in
      let ended : P.end_code (suc s.turn) == P.response.ok ≡ true =
        ground (arith, ok.ended_ok (suc s.turn)) in
      let ending : Ota = record s {
        ota_state = OtaState.data_end_ok;
        handshake_buf_pos = 0;
        turn = suc (suc s.turn);
        trace = Effect.end_update ∷ reply P s P.response.receive_ok ∷ s.trace;
      } in
      let sent_end = write_byte-Succeeds P ending P.response.update_end_ok ok o.socket o.peer_set in
      loop-Online P fuel OtaState.data_receive_ok s (omega arith) o time
      ∙ rw (sent, ap not o.backend_set, ended, sent_end) refl

  data_reboot-Closed :
      (s : Ota)
      → (t : Ota) × (data_reboot P s ≡ done t) × Closed t × (t.trace ≡ Effect.reboot ∷ s.trace)
  unfolding data_reboot cleanup_session cleanup_auth
  data_reboot-Closed s =
      let c = cleanup_session-Closed P s in
      (
        act Effect.reboot (cleanup_session P s),
        refl,
        record {
          no_peer = c.no_peer;
          is_idle = c.is_idle;
          emptied = c.emptied;
          no_backend = c.no_backend;
          not_started = c.not_started;
          no_auth = c.no_auth;
        },
        refl,
      )

  -- Any byte of the peer's is the last acknowledgement: the session is closed and the device reboots.
  pass-rebooted :
      (fuel : ℕ) (s : Ota)
      → Online OtaState.data_final_ack s
      → RxValid s
      → 0 < length (contents s)
      → sub32 (P.millis s.turn) s.data_phase_start_ms ≤ data_timeout_ms
      → (t : Ota) × (loop P fuel s ≡ done t) × Closed t × (t.trace ≡ Effect.reboot ∷ s.trace)
  unfolding data_case data_final_ack transition_ota_state
  pass-rebooted fuel s o v n time =
      let r = rx_read_lem s 1 v in
      let got = (rx_read s 1).0 in
      let s' = (rx_read s 1).1 in
      let waits : rx_available s == 0 ≡ false = ground (arith, rx_available-length s, n) in
      let one : ltb (length got) 1 ≡ false =
        ground (arith, ap length r.got_oldest, length-take 1 (contents s), n) in
      let (t, e, c, d) = data_reboot-Closed (record s' {
        data_buf = blit s'.data_buf 0 got;
        ota_state = OtaState.data_reboot;
        handshake_buf_pos = 0;
      }) in
      (
        t,
        loop-Online P fuel OtaState.data_final_ack s (omega arith) o time ∙ rw (waits, one) e,
        c,
        d ∙ ap (λ (x : Ota). Effect.reboot ∷ x.trace) r.frame,
      )

  pub run-ending :
      (fuel : ℕ) (s : Ota) (ack : Frame)
      → Online OtaState.data_firmware s
      → RxValid s
      → missing s ≡ 0
      → contents s ≡ []
      → ack.from.address ≡ s.peer.address
      → 0 < length ack.payload
      → length ack.payload ≤ rx_ring_max
      → InTime P s.data_phase_start_ms (s.turn + 7)
      → (t : Ota) × (run P fuel s (ending ack) ≡ done t)
        × Closed t
        × (t.trace ≡ Effect.reboot ∷ (finished s).trace)
  unfolding run step rx_append
  run-ending fuel s ack o v m c a n l time =
      let r = received (tick s) in
      let f = finished (tick r) in
      let w = rx_append f ack.payload in
      let online_s : Online OtaState.data_firmware (tick s) = record {
        state = o.state;
        socket = o.socket;
        peer_set = o.peer_set;
        backend_set = o.backend_set;
      } in
      let online_r : Online OtaState.data_receive_ok (tick r) = record {
        state = refl;
        socket = o.socket;
        peer_set = o.peer_set;
        backend_set = o.backend_set;
      } in
      let online_w : Online OtaState.data_final_ack (tick w) = record {
        state = refl;
        socket = o.socket;
        peer_set = o.peer_set;
        backend_set = o.backend_set;
      } in
      let heard : handle_frame P f ack ≡ w =
        handle_frame_fits P f ack (n, inr a) (omega (arith, ap length c, l)) ∙ rw o.peer_set refl in
      let (wv, wc) =
        rx_append_lem f ack.payload (record { pos_in = v.pos_in; pos_small = v.pos_small }) in
      let (t, e, d, g) =
        pass-rebooted fuel (tick w) online_w
          (record { pos_in = wv.pos_in; pos_small = wv.pos_small })
          (omega (arith, ap length wc, length-append (contents s) ack.payload, n))
          (time (suc (suc (suc (suc (suc (suc s.turn)))))) (omega arith)) in
      (
        t,
        rw
            (
              pass-received fuel (tick s) online_s m (time (suc s.turn) (omega arith)),
              pass-finished fuel (tick r) online_r (time (suc (suc s.turn)) (omega arith)),
              heard,
              e,
            )
            refl,
        d,
        g,
      )
