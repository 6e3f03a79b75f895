-- ===== src/Ota/Handshake.antt =====
-- `handle_handshake_` of components/meshmesh/ota/ota_meshmesh.cpp. Each case of the switch is a
-- function, and a case that falls through calls the next one.
use esphome_meshmesh.Prelude.{
  ℕ, true, List, [], ◌∷◌, get_or, take, blit, ◌==◌, if◌then◌else◌, bit_and, bytes_eq, not, length,
}
use esphome_meshmesh.Ota.State.{
  OtaState, Effect, Platform, Ota, act, Run, done, fault, ◌>>=◌, feature_compression,
}
use esphome_meshmesh.Ota.Rx.{try_read, try_write, transition_ota_state, send_error_and_cleanup}
use esphome_meshmesh.Ota.Auth.{handle_auth_send, handle_auth_read}

abbrev pub magic_bytes : List ℕ
magic_bytes = 0x6C ∷ 0x26 ∷ 0xF7 ∷ 0x5C ∷ 0x45 ∷ []

module _ (P : Platform) where
  -- The data phase begins now.
  unfoldable pub enter_data_phase : Ota → Ota
  unfolding transition_ota_state
  enter_data_phase s =
      transition_ota_state (record s { data_phase_start_ms = P.millis s.turn })
        OtaState.data_auth_ok

  unfoldable pub auth_read : Ota → Run Ota
  unfolding enter_data_phase
  auth_read s = do
    (accepted, s') ← handle_auth_read P s
    done (if accepted then enter_data_phase s' else s')

  unfoldable pub auth_send : Ota → Run Ota
  unfolding transition_ota_state
  auth_send s = do
    (sent, s') ← handle_auth_send P s
    if sent then auth_read (transition_ota_state s' OtaState.auth_read) else done s'

  unfoldable pub feature_ack : Ota → Run Ota
  unfolding enter_data_phase
  feature_ack s =
      let (sent, s') = try_write P s 1 in
      done (
        if sent
        then (if length s'.password == 0
            then enter_data_phase s'
            else transition_ota_state s' OtaState.auth_send)
        else s')

  -- The answer to the peer's features. The backend is asked only where the peer can compress.
  unfoldable pub feature_answer : Ota → Run ℕ
  feature_answer s =
      if bit_and s.ota_features feature_compression == 0
      then done P.response.header_ok
      else if s.backend
      then done (if P.can_decompress then P.response.supports_compression else P.response.header_ok)
      else fault

  unfoldable pub feature_read : Ota → Run Ota
  unfolding transition_ota_state feature_answer
  feature_read s =
      let (got, s') = try_read s 1 in
      let s'' =
        transition_ota_state (record s' { ota_features = get_or s'.handshake_buf 0 0 })
          OtaState.feature_ack in
      if not got
      then done s'
      else feature_answer s'' >>= λ answer.
          feature_ack (record s'' { handshake_buf = blit s''.handshake_buf 0 (answer ∷ []) })

  unfoldable pub magic_ack : Ota → Run Ota
  unfolding transition_ota_state
  magic_ack s =
      let (sent, s') = try_write P s 2 in
      if sent
      then feature_read (
          transition_ota_state (act Effect.make_backend (record s' { backend = true }))
            OtaState.feature_read)
      else done s'

  unfoldable pub magic_read : Ota → Run Ota
  unfolding transition_ota_state
  magic_read s =
      let (got, s') = try_read s 5 in
      let s'' = transition_ota_state s' OtaState.magic_ack in
      if not got
      then done s'
      else if bytes_eq (take 5 s'.handshake_buf) magic_bytes
      then magic_ack
          (record s'' { handshake_buf = blit s''.handshake_buf 0 (P.response.ok ∷ P.version ∷ []) })
      else done (send_error_and_cleanup P s' P.response.error_magic)

  unfoldable pub handshake_case : OtaState → Ota → Run Ota
  handshake_case OtaState.magic_read s = magic_read s
  handshake_case OtaState.magic_ack s = magic_ack s
  handshake_case OtaState.feature_read s = feature_read s
  handshake_case OtaState.feature_ack s = feature_ack s
  handshake_case OtaState.auth_send s = auth_send s
  handshake_case OtaState.auth_read s = auth_read s
  handshake_case _ s = done s

  unfoldable pub handle_handshake : Ota → Run Ota
  unfolding handshake_case
  handle_handshake s = handshake_case s.ota_state s
