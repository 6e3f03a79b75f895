-- ===== src/Ota/Rx.antt =====
-- The receive buffer of the OTA component, and the session's clock and peer: the small operations of
-- components/meshmesh/ota/ota_meshmesh.cpp.
use esphome_meshmesh.Prelude.{
  ℕ, suc, Bool, true, false, not, ◌||◌, ◌&&◌, none, List, [], ◌∷◌, ◌++◌, ◌+◌, ◌-◌, ◌%◌, ◌^◌, length,
  take, drop, blit, ltb, leb, ◌==◌, if◌then◌else◌,
}
use esphome_meshmesh.Mesh.{sub32}
use esphome_meshmesh.Ota.State.{
  OtaState, ordinal, Effect, Frame, Platform, Ota, act, ota_port, rx_ring_max,
}

unfoldable pub rx_append : Ota → List ℕ → Ota
rx_append s bytes = record s { rx_buf = s.rx_buf ++ bytes }

unfoldable pub rx_available : Ota → ℕ
rx_available s = if leb (length s.rx_buf) s.rx_read_pos then 0 else length s.rx_buf - s.rx_read_pos

-- What the buffer becomes once `n` more bytes are read.
unfoldable pub rx_advance : Ota → ℕ → Ota
rx_advance s n =
    let pos = s.rx_read_pos + n in
    if leb 4096 pos && pos == length s.rx_buf
    then record s { rx_buf = []; rx_read_pos = 0 }
    else if leb 4096 pos
    then record s { rx_buf = drop pos s.rx_buf; rx_read_pos = 0 }
    else record s { rx_read_pos = pos }

-- The bytes that go to `dst`; their number is the value returned.
unfoldable pub rx_read : Ota → ℕ → List ℕ × Ota
rx_read s len =
    let avail = rx_available s in
    if avail == 0
    then ([], s)
    else let to_copy = if ltb avail len then avail else len in
      (take to_copy (drop s.rx_read_pos s.rx_buf), rx_advance s to_copy)

unfoldable pub transition_ota_state : Ota → OtaState → Ota
transition_ota_state s next = record s { ota_state = next; handshake_buf_pos = 0 }

unfoldable pub cleanup_auth : Ota → Ota
cleanup_auth s = record s { auth_buf = none; auth_buf_pos = 0; auth_type = 0 }

-- `data` is written into `handshake_buf` behind what is there.
unfoldable pub try_read : Ota → ℕ → Bool × Ota
try_read s to_read =
    let need = sub32 to_read s.handshake_buf_pos in
    let (got, s') = rx_read s need in
    if length got == 0
    then (false, s')
    else let pos = s'.handshake_buf_pos + length got in
      (
        leb to_read pos,
        record s' {
          handshake_buf = blit s'.handshake_buf s'.handshake_buf_pos got;
          handshake_buf_pos = pos;
        },
      )

module _ (P : Platform) where
  unfoldable pub send_to_peer : Ota → List ℕ → Bool × Ota
  send_to_peer s bytes =
      if not s.socket_open || not s.has_peer
      then (false, s)
      else let target = record s.peer { port = ota_port } in
        (P.sends s.turn target bytes, act (Effect.datagram target bytes) s)

  unfoldable pub check_timeout : Ota → ℕ → Bool
  check_timeout s timeout_ms =
      let start =
        if ltb (ordinal s.ota_state) (ordinal OtaState.data_auth_ok)
        then s.session_start_ms
        else s.data_phase_start_ms in
      ltb timeout_ms (sub32 (P.millis s.turn) start)

  unfoldable pub cleanup_session : Ota → Ota
  unfolding cleanup_auth
  cleanup_session s = cleanup_auth (record s {
    has_peer = false;
    peer = P.no_address;
    rx_buf = [];
    rx_read_pos = 0;
    handshake_buf_pos = 0;
    ota_state = OtaState.idle;
    ota_features = 0;
    backend = false;
    session_start_ms = 0;
    data_phase_start_ms = 0;
    ota_size = 0;
    firmware_total = 0;
    update_started = false;
    size_acknowledged = 0;
  })

  unfoldable pub send_error_and_cleanup : Ota → ℕ → Ota
  send_error_and_cleanup s error =
      let s' = (send_to_peer s (error ∷ [])).1 in
      cleanup_session (if s'.backend && s'.update_started then act Effect.abort_update s' else s')

  -- `len` is the length of the payload.
  unfoldable pub handle_frame : Ota → Frame → Ota
  handle_frame s f =
      if length f.payload == 0
      then s
      else if s.has_peer && not (f.from.address == s.peer.address)
      then s
      else let s' =
          if s.has_peer then s else record s { peer = record f.from { port = ota_port } } in
        if ltb rx_ring_max (rx_available s' + length f.payload)
        then send_error_and_cleanup s' P.response.error_unknown
        else rx_append s' f.payload

  unfoldable pub handle_frames : Ota → List Frame → Ota
  handle_frames s [] = s
  handle_frames s (f ∷ fs) = handle_frames (handle_frame s f) fs

  -- The pass of the mesh loop hands what has arrived to `handle_frame`.
  unfoldable pub yield_and_feed_watchdog : Ota → Ota
  yield_and_feed_watchdog s = handle_frames (record s { turn = suc s.turn }) (P.arrivals s.turn)

  unfoldable pub try_write : Ota → ℕ → Bool × Ota
  try_write s to_write =
      let remaining = sub32 to_write s.handshake_buf_pos % 2 ^ 16 in
      let (sent, s') = send_to_peer s (take remaining (drop s.handshake_buf_pos s.handshake_buf)) in
      if sent then (true, record s' { handshake_buf_pos = to_write }) else (false, s')
