-- ===== src/Ota/DataSafe.antt =====
-- The invariant through the cases of `handle_data_step_`
-- (components/meshmesh/ota/ota_meshmesh.cpp).
use esphome_meshmesh.Prelude.{
  ℕ, zero, suc, ◌+◌, ◌≤◌, ◌<◌, ◌≡◌, refl, ap, inl, inr, Bool, true, false, List, [], ◌∷◌, arith,
  length, length-append, length-blit, length-take, blit, Bool-cases, ltb, leb, ◌==◌, if◌then◌else◌,
}
use esphome_meshmesh.Mesh.{sub32, add32}
use esphome_meshmesh.Ota.State.{
  OtaState, Effect, Platform, Ota, Run, done, blocked, fault, ◌>>=◌, ota_block_size,
}
use esphome_meshmesh.Ota.Rx.{
  rx_available, rx_read, transition_ota_state, cleanup_auth, cleanup_session,
}
use esphome_meshmesh.Ota.Data.{
  write_byte, data_reboot, data_final_ack, data_end_ok, data_end, data_receive_ok, chunk_due,
  acknowledge_chunks, report_progress, flash, requested, data_firmware, data_md5_ok, read_failed,
  md5_received, data_md5, data_prepare_ok, data_begin, size_of_bytes, size_received, data_size,
  data_auth_ok, data_case, handle_data_step,
}
use esphome_meshmesh.Ota.Queue.{contents, rx_read_lem}
use esphome_meshmesh.Ota.Invariant.{Begun, Buffers, IsValid, Safe, written, ended}
use esphome_meshmesh.Ota.Keep.{send_error_and_cleanup-IsValid, yield_and_feed_watchdog-IsValid}
use esphome_meshmesh.Ota.Waiting.{Calm, Waits, rx_read-Buffers, blit-Buffers, readall-Waits}
use esphome_meshmesh.Ota.HandshakeSafe.{At, At-IsValid, At-same, send_to_peer-At}

module _ (P : Platform) where
  -- A step that sends a byte first and goes on only if it is sent.
  write_byte-At : (st : OtaState) (s : Ota) (byte : ℕ) → At st s → At st (write_byte P s byte).1
  unfolding write_byte
  write_byte-At st s byte a = send_to_peer-At P st s (byte ∷ []) a

  data_end_ok-Safe : (s : Ota) → At OtaState.data_end_ok s → Safe (data_end_ok P s)
  unfolding data_end_ok transition_ota_state
  data_end_ok-Safe s a =
      let b = write_byte-At OtaState.data_end_ok s P.response.update_end_ok a in
      elim (Bool-cases (write_byte P s P.response.update_end_ok).0) [
        | inl e ↦ rw e (ground arith)
        | inr e ↦ rw e (At-IsValid _ _ b)
      ]

  data_end-Safe : (s : Ota) → At OtaState.data_end s → Safe (data_end P s)
  unfolding data_end transition_ota_state
  data_end-Safe s a = rw a.phase.0.1 (elim (Bool-cases (P.end_code s.turn == P.response.ok)) [
    | inl e ↦ rw e (data_end_ok-Safe _ (ground arith))
    | inr e ↦ rw e (send_error_and_cleanup-IsValid P _ _ (ground arith))
  ])

  data_receive_ok-Safe : (s : Ota) → At OtaState.data_receive_ok s → Safe (data_receive_ok P s)
  unfolding data_receive_ok transition_ota_state
  data_receive_ok-Safe s a =
      let b = write_byte-At OtaState.data_receive_ok s P.response.receive_ok a in
      elim (Bool-cases (write_byte P s P.response.receive_ok).0) [
        | inl e ↦ rw e (data_end-Safe _ (ground arith))
        | inr e ↦ rw e (At-IsValid _ _ b)
      ]

  data_reboot-Safe : (s : Ota) → Buffers s → ended s.trace ≡ true → Safe (data_reboot P s)
  unfolding data_reboot cleanup_session cleanup_auth
  data_reboot-Safe s b e = ground arith

  data_final_ack-Safe : (s : Ota) → At OtaState.data_final_ack s → Safe (data_final_ack P s)
  unfolding data_final_ack transition_ota_state
  data_final_ack-Safe s a =
      let r = rx_read-Buffers s 1 a.buffers in
      let s' = (rx_read s 1).1 in
      let b = At-same OtaState.data_final_ack s s' r.0 r.1 a in
      elim (Bool-cases (rx_available s == 0)) [
        | inl e ↦ rw e (yield_and_feed_watchdog-IsValid P s (At-IsValid _ s a))
        | inr e ↦ rw e (elim (Bool-cases (ltb (length (rx_read s 1).0) 1)) [
          | inl z ↦ rw z (At-IsValid _ s' b)
          | inr z ↦ rw z (
              data_reboot-Safe _ (ground (arith, length-blit s'.data_buf 0 (rx_read s 1).0))
                b.phase.1)
        ])
      ]

  -- The acknowledgements leave the session where it is.
  abbrev pub Acknowledges : Run (Bool × Ota) → Type 0
  Acknowledges (done (b, t)) = At OtaState.data_firmware t
  Acknowledges blocked = Unit {0}
  Acknowledges fault = ⊥

  acknowledge_chunks-Acknowledges :
      (fuel : ℕ) (s : Ota)
      → At OtaState.data_firmware s
      → Acknowledges (acknowledge_chunks P fuel s)
  unfolding acknowledge_chunks
  acknowledge_chunks-Acknowledges zero s a = tt
  acknowledge_chunks-Acknowledges (suc fuel) s a =
      let b = write_byte-At OtaState.data_firmware s P.response.chunk_ok a in
      let t = (write_byte P s P.response.chunk_ok).1 in
      let more : Ota = record t { size_acknowledged = add32 t.size_acknowledged ota_block_size } in
      elim (Bool-cases (chunk_due s)) [
        | inr e ↦ rw e a
        | inl e ↦ rw e (elim (Bool-cases (write_byte P s P.response.chunk_ok).0) [
          | inr z ↦ rw z b
          | inl z ↦ rw z (acknowledge_chunks-Acknowledges fuel more (ground arith))
        ])
      ]

  report_progress-IsValid : (s : Ota) → At OtaState.data_firmware s → IsValid (report_progress P s)
  unfolding report_progress
  report_progress-IsValid s a =
      elim (Bool-cases (ltb 1000 (sub32 (P.millis s.turn) s.last_progress_ms))) [
        | inl e ↦ rw e (yield_and_feed_watchdog-IsValid P _ (ground arith))
        | inr e ↦ rw e (At-IsValid _ s a)
      ]

  -- What is read fits into the update, so it is written and counted.
  flash-Safe :
      (fuel : ℕ) (s : Ota) (got : List ℕ)
      → At OtaState.data_firmware s
      → s.firmware_total + length got ≤ s.ota_size
      → Safe (flash P fuel s got)
  unfolding flash
  flash-Safe fuel s got a h =
      rw a.phase.0.1 (elim (Bool-cases (P.write_code s.turn got == P.response.ok)) [
        | inr e ↦ rw e (send_error_and_cleanup-IsValid P _ _ (ground arith))
        | inl e ↦ rw e (
            acked _ (
              acknowledge_chunks-Acknowledges fuel counted
                (ground (arith, length-append (written s.trace) got))))
      ])
    where
      counted : Ota
      counted = record s {
        backend = true;
        turn = suc s.turn;
        trace = Effect.write_update got ∷ s.trace;
        firmware_total = add32 s.firmware_total (length got);
      }

      acked :
          (r : Run (Bool × Ota))
          → Acknowledges r
          → Safe (r >>= λ q. done (if q.0 then report_progress P q.1 else q.1))
      acked (done (true, t)) c = report_progress-IsValid t c
      acked (done (false, t)) c = At-IsValid _ t c
      acked blocked c = tt
      acked fault c = c

  requested-fits :
      (s : Ota)
      → Buffers s
      → Begun s
      → s.firmware_total < s.ota_size
      → let (got, s') = rx_read s (requested s) in s'.firmware_total + length got ≤ s'.ota_size
  unfolding requested
  requested-fits s v g h =
      let r = rx_read_lem s (requested s) v.rx in
      ground (
        arith,
        ap (λ u. u.firmware_total) r.frame,
        ap (λ u. u.ota_size) r.frame,
        ap length r.got_oldest,
        length-take (requested s) (contents s),
      )

  data_firmware-Safe :
      (fuel : ℕ) (s : Ota) → At OtaState.data_firmware s → Safe (data_firmware P fuel s)
  unfolding data_firmware transition_ota_state
  data_firmware-Safe fuel s a =
      let got = (rx_read s (requested s)).0 in
      let s' = (rx_read s (requested s)).1 in
      let stored : Ota = record s' { data_buf = blit s'.data_buf 0 got } in
      let r = rx_read-Buffers s (requested s) a.buffers in
      let d = blit-Buffers s' 0 got r.1 in
      let b = At-same OtaState.data_firmware s s' r.0 r.1 a in
      elim (Bool-cases (leb s.ota_size s.firmware_total)) [
        | inl e ↦ rw e (ground arith)
        | inr e ↦ rw e (elim (Bool-cases (rx_available s == 0)) [
          | inl z ↦ rw z (yield_and_feed_watchdog-IsValid P s (At-IsValid _ s a))
          | inr z ↦ rw z (elim (Bool-cases (length got == 0)) [
            | inl w ↦ rw w (yield_and_feed_watchdog-IsValid P s' (At-IsValid _ s' b))
            | inr w ↦ rw w (
                flash-Safe fuel stored got (At-same OtaState.data_firmware s' stored d.0 d.1 b)
                  (requested-fits s a.buffers a.phase.1 (ground arith)))
          ])
        ])
      ]

  data_md5_ok-Safe : (s : Ota) → At OtaState.data_md5_ok s → Safe (data_md5_ok P s)
  unfolding data_md5_ok transition_ota_state
  data_md5_ok-Safe s a =
      let b = write_byte-At OtaState.data_md5_ok s P.response.bin_md5_ok a in
      elim (Bool-cases (write_byte P s P.response.bin_md5_ok).0) [
        | inl e ↦ rw e (ground arith)
        | inr e ↦ rw e (At-IsValid _ _ b)
      ]

  read_failed-IsValid : (s : Ota) → Buffers s → IsValid (read_failed P s)
  unfolding read_failed
  read_failed-IsValid s b = send_error_and_cleanup-IsValid P s _ b

  md5_received-Safe : (b : Bool) (s : Ota) → At OtaState.data_md5 s → Safe (md5_received P (b, s))
  unfolding md5_received transition_ota_state
  md5_received-Safe false s a = read_failed-IsValid s a.buffers
  md5_received-Safe true s a = rw a.phase.0.1 (data_md5_ok-Safe _ (ground arith))

  -- What follows a wait that keeps the session is safe if it is safe at every such state.
  waited :
      (st : OtaState) (s : Ota) (r : Run (Bool × Ota)) (k : Bool × Ota → Run Ota)
      → At st s
      → Waits P s r
      → ((b : Bool) (t : Ota) → At st t → Safe (k (b, t)))
      → Safe (r >>= k)
  waited st s (done (b, t)) k a w h = h b t (At-same st s t w.0 w.1 a)
  waited st s blocked k a w h = tt
  waited st s fault k a w h = w

  module _ (calm : Calm P) (fuel : ℕ) where
    data_md5-Safe : (s : Ota) → At OtaState.data_md5 s → Safe (data_md5 P fuel s)
    unfolding data_md5
    data_md5-Safe s a =
        waited OtaState.data_md5 s _ (md5_received P) a (readall-Waits P fuel s 0 32 calm a.buffers)
          md5_received-Safe

    data_prepare_ok-Safe :
        (s : Ota) → At OtaState.data_prepare_ok s → Safe (data_prepare_ok P fuel s)
    unfolding data_prepare_ok transition_ota_state
    data_prepare_ok-Safe s a =
        let b = write_byte-At OtaState.data_prepare_ok s P.response.update_prepare_ok a in
        elim (Bool-cases (write_byte P s P.response.update_prepare_ok).0) [
          | inl e ↦ rw e (data_md5-Safe _ (ground arith))
          | inr e ↦ rw e (At-IsValid _ _ b)
        ]

    data_begin-Safe : (s : Ota) → At OtaState.data_begin s → Safe (data_begin P fuel s)
    unfolding data_begin transition_ota_state
    data_begin-Safe s a =
        rw a.phase.1 (elim (Bool-cases (P.begin_code s.turn s.ota_size == P.response.ok)) [
          | inl e ↦ rw e (data_prepare_ok-Safe _ (ground arith))
          | inr e ↦ rw e (send_error_and_cleanup-IsValid P _ _ (ground arith))
        ])

    size_received-Safe :
        (b : Bool) (s : Ota) → At OtaState.data_size s → Safe (size_received P fuel (b, s))
    unfolding size_received transition_ota_state size_of_bytes
    size_received-Safe false s a = read_failed-IsValid s a.buffers
    size_received-Safe true s a = data_begin-Safe _ (ground arith)

    data_size-Safe : (s : Ota) → At OtaState.data_size s → Safe (data_size P fuel s)
    unfolding data_size
    data_size-Safe s a =
        waited OtaState.data_size s _ (size_received P fuel) a
          (readall-Waits P fuel s 0 4 calm a.buffers) size_received-Safe

    data_auth_ok-Safe : (s : Ota) → At OtaState.data_auth_ok s → Safe (data_auth_ok P fuel s)
    unfolding data_auth_ok transition_ota_state
    data_auth_ok-Safe s a =
        let b = write_byte-At OtaState.data_auth_ok s P.response.auth_ok a in
        elim (Bool-cases (write_byte P s P.response.auth_ok).0) [
          | inl e ↦ rw e (data_size-Safe _ (ground arith))
          | inr e ↦ rw e (At-IsValid _ _ b)
        ]

    -- A pass of the data phase keeps the invariant, whatever the peer sends.
    pub handle_data_step-Safe : (s : Ota) → IsValid s → Safe (handle_data_step P fuel s)
    unfolding handle_data_step
    handle_data_step-Safe s v =
        case s.ota_state (record { state = refl; buffers = v.buffers; phase = v.phase })
      where
        case : (st : OtaState) → At st s → Safe (data_case P fuel st s)
        case OtaState.data_auth_ok a = data_auth_ok-Safe s a
        case OtaState.data_size a = data_size-Safe s a
        case OtaState.data_begin a = data_begin-Safe s a
        case OtaState.data_prepare_ok a = data_prepare_ok-Safe s a
        case OtaState.data_md5 a = data_md5-Safe s a
        case OtaState.data_md5_ok a = data_md5_ok-Safe s a
        case OtaState.data_firmware a = data_firmware-Safe fuel s a
        case OtaState.data_receive_ok a = data_receive_ok-Safe s a
        case OtaState.data_end a = data_end-Safe s a
        case OtaState.data_end_ok a = data_end_ok-Safe s a
        case OtaState.data_final_ack a = data_final_ack-Safe s a
        case OtaState.data_reboot a = data_reboot-Safe s a.buffers a.phase.1
        case st a = At-IsValid st s a
