-- ===== src/Ota/Data.antt =====
-- `readall_`, `write_byte_` and `handle_data_step_` of components/meshmesh/ota/ota_meshmesh.cpp, as
-- compiled for the ESP32 with protocol version 2. Each case of the switch is a function, and a case
-- that falls through calls the next one. `fuel` bounds the rounds of the two loops.
use esphome_meshmesh.Prelude.{
  ℕ, zero, suc, Bool, true, false, not, ◌||◌, ◌&&◌, List, [], ◌∷◌, ◌+◌, ◌-◌, ◌*◌, ◌%◌, ◌^◌, length,
  take, get_or, blit, ltb, leb, ◌==◌, if◌then◌else◌,
}
use esphome_meshmesh.Mesh.{sub32, add32}
use esphome_meshmesh.Ota.State.{
  OtaState, Effect, Platform, Ota, act, Run, done, blocked, fault, ◌>>=◌, data_timeout_ms,
  ota_block_size, ota_buffer_size,
}
use esphome_meshmesh.Ota.Rx.{
  rx_available, rx_read, transition_ota_state, send_to_peer, check_timeout, cleanup_session,
  send_error_and_cleanup, yield_and_feed_watchdog,
}

-- The bytes asked for in one pass.
unfoldable pub requested : Ota → ℕ
requested s =
    let remaining = s.ota_size - s.firmware_total in
    if ltb remaining ota_buffer_size then remaining else ota_buffer_size

-- The condition of the loop that acknowledges blocks.
unfoldable pub chunk_due : Ota → Bool
chunk_due s =
    leb (add32 s.size_acknowledged ota_block_size) s.firmware_total
    || (s.firmware_total == s.ota_size && ltb s.size_acknowledged s.ota_size)

-- Four bytes, the first the most significant. They share no bit, so `|` is the sum, in 32 bits.
unfoldable pub size_of_bytes : List ℕ → ℕ
size_of_bytes b =
    (get_or b 0 0 * 2 ^ 24 + get_or b 1 0 * 2 ^ 16 + get_or b 2 0 * 2 ^ 8 + get_or b 3 0) % 2 ^ 32

module _ (P : Platform) where
  -- `readall_(data_buf_, len)`, with `at` bytes read.
  unfoldable pub readall : ℕ → Ota → ℕ → ℕ → Run (Bool × Ota)
  readall zero s at len = blocked
  readall (suc fuel) s at len =
      let (got, s') = rx_read s (len - at) in
      let more =
        readall fuel (record s' { data_buf = blit s'.data_buf at got }) (at + length got) len in
      let waited = yield_and_feed_watchdog P s' in
      let again = readall fuel waited at len in
      if leb len at
      then done (true, s)
      else if ltb 0 (length got)
      then more
      else if check_timeout P waited data_timeout_ms
      then done (false, waited)
      else again

  -- `writeall_` of one byte.
  unfoldable pub write_byte : Ota → ℕ → Bool × Ota
  write_byte s byte = send_to_peer P s (byte ∷ [])

  unfoldable pub data_reboot : Ota → Run Ota
  data_reboot s = done (act Effect.reboot (cleanup_session P s))

  unfoldable pub data_final_ack : Ota → Run Ota
  data_final_ack s =
      if rx_available s == 0
      then done (yield_and_feed_watchdog P s)
      else let (got, s') = rx_read s 1 in
        if ltb (length got) 1
        then done s'
        else data_reboot (
            transition_ota_state (record s' { data_buf = blit s'.data_buf 0 got })
              OtaState.data_reboot)

  unfoldable pub data_end_ok : Ota → Run Ota
  data_end_ok s =
      let (sent, s') = write_byte s P.response.update_end_ok in
      done (if sent then transition_ota_state s' OtaState.data_final_ack else s')

  unfoldable pub data_end : Ota → Run Ota
  data_end s =
      if not s.backend
      then fault
      else let code = P.end_code s.turn in
        let s' = act Effect.end_update s in
        if code == P.response.ok
        then data_end_ok (transition_ota_state s' OtaState.data_end_ok)
        else done (send_error_and_cleanup P s' code)

  unfoldable pub data_receive_ok : Ota → Run Ota
  data_receive_ok s =
      let (sent, s') = write_byte s P.response.receive_ok in
      if sent then data_end (transition_ota_state s' OtaState.data_end) else done s'

  -- `false` is a send that failed.
  unfoldable pub acknowledge_chunks : ℕ → Ota → Run (Bool × Ota)
  acknowledge_chunks zero s = blocked
  acknowledge_chunks (suc fuel) s =
      let (sent, s') = write_byte s P.response.chunk_ok in
      let more =
        acknowledge_chunks fuel
          (record s' { size_acknowledged = add32 s'.size_acknowledged ota_block_size }) in
      if chunk_due s then (if sent then more else done (false, s')) else done (true, s)

  unfoldable pub report_progress : Ota → Ota
  report_progress s =
      let now = P.millis s.turn in
      if ltb 1000 (sub32 now s.last_progress_ms)
      then yield_and_feed_watchdog P (record s { last_progress_ms = now })
      else s

  -- What follows a successful read: the write to flash, the acknowledgements, the progress report.
  unfoldable pub flash : ℕ → Ota → List ℕ → Run Ota
  flash fuel s got =
      if not s.backend
      then fault
      else let code = P.write_code s.turn got in
        let s' = act (Effect.write_update got) s in
        if code == P.response.ok
        then (acknowledge_chunks fuel
              (record s' { firmware_total = add32 s'.firmware_total (length got) })
            >>= λ r. done (if r.0 then report_progress r.1 else r.1))
        else done (send_error_and_cleanup P s' code)

  unfoldable pub data_firmware : ℕ → Ota → Run Ota
  data_firmware fuel s =
      if leb s.ota_size s.firmware_total
      then done (transition_ota_state s OtaState.data_receive_ok)
      else if rx_available s == 0
      then done (yield_and_feed_watchdog P s)
      else let (got, s') = rx_read s (requested s) in
        if length got == 0
        then done (yield_and_feed_watchdog P s')
        else flash fuel (record s' { data_buf = blit s'.data_buf 0 got }) got

  unfoldable pub data_md5_ok : Ota → Run Ota
  data_md5_ok s =
      let (sent, s') = write_byte s P.response.bin_md5_ok in
      done (if sent then transition_ota_state s' OtaState.data_firmware else s')

  -- Both `readall_` cases give up alike.
  unfoldable pub read_failed : Ota → Ota
  read_failed s = send_error_and_cleanup P s P.response.error_unknown

  -- After the 32 characters of the checksum.
  unfoldable pub md5_received : Bool × Ota → Run Ota
  md5_received (complete, s) =
      if not complete
      then done (read_failed s)
      else if not s.backend
      then fault
      else data_md5_ok
          (transition_ota_state (act (Effect.set_md5 (take 32 s.data_buf)) s) OtaState.data_md5_ok)

  unfoldable pub data_md5 : ℕ → Ota → Run Ota
  data_md5 fuel s = do md5_received (← readall fuel s 0 32)

  unfoldable pub data_prepare_ok : ℕ → Ota → Run Ota
  data_prepare_ok fuel s =
      let (sent, s') = write_byte s P.response.update_prepare_ok in
      if sent then data_md5 fuel (transition_ota_state s' OtaState.data_md5) else done s'

  unfoldable pub data_begin : ℕ → Ota → Run Ota
  data_begin fuel s =
      if not s.backend
      then fault
      else let code = P.begin_code s.turn s.ota_size in
        let s' = act (Effect.begin_update s.ota_size) s in
        if code == P.response.ok
        then data_prepare_ok fuel (
            transition_ota_state
              (record s' {
                update_started = true;
                firmware_total = 0;
                last_progress_ms = P.millis s'.turn;
                size_acknowledged = 0;
              })
              OtaState.data_prepare_ok)
        else done (send_error_and_cleanup P s' code)

  -- After the four bytes of the size.
  unfoldable pub size_received : ℕ → Bool × Ota → Run Ota
  size_received fuel (complete, s) =
      if complete
      then data_begin fuel (
          transition_ota_state (record s { ota_size = size_of_bytes s.data_buf })
            OtaState.data_begin)
      else done (read_failed s)

  unfoldable pub data_size : ℕ → Ota → Run Ota
  data_size fuel s = do size_received fuel (← readall fuel s 0 4)

  unfoldable pub data_auth_ok : ℕ → Ota → Run Ota
  data_auth_ok fuel s =
      let (sent, s') = write_byte s P.response.auth_ok in
      if sent then data_size fuel (transition_ota_state s' OtaState.data_size) else done s'

  unfoldable pub data_case : ℕ → OtaState → Ota → Run Ota
  data_case fuel OtaState.data_auth_ok s = data_auth_ok fuel s
  data_case fuel OtaState.data_size s = data_size fuel s
  data_case fuel OtaState.data_begin s = data_begin fuel s
  data_case fuel OtaState.data_prepare_ok s = data_prepare_ok fuel s
  data_case fuel OtaState.data_md5 s = data_md5 fuel s
  data_case fuel OtaState.data_md5_ok s = data_md5_ok s
  data_case fuel OtaState.data_firmware s = data_firmware fuel s
  data_case fuel OtaState.data_receive_ok s = data_receive_ok s
  data_case fuel OtaState.data_end s = data_end s
  data_case fuel OtaState.data_end_ok s = data_end_ok s
  data_case fuel OtaState.data_final_ack s = data_final_ack s
  data_case fuel OtaState.data_reboot s = data_reboot s
  data_case fuel _ s = done s

  unfoldable pub handle_data_step : ℕ → Ota → Run Ota
  unfolding data_case
  handle_data_step fuel s = data_case fuel s.ota_state s
