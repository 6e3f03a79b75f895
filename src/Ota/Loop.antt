-- ===== src/Ota/Loop.antt =====
-- `setup`, `on_shutdown` and `loop` of components/meshmesh/ota/ota_meshmesh.cpp, and runs of the
-- component: passes of `loop` and datagrams handed to `handle_frame_` between them.
use esphome_meshmesh.Prelude.{
  ℕ, suc, true, false, not, ◌&&◌, ◌||◌, List, [], ◌∷◌, ltb, ◌==◌, if◌then◌else◌,
}
use esphome_meshmesh.Ota.State.{
  OtaState, ordinal, Frame, Platform, Ota, Run, done, ◌>>=◌, handshake_timeout_ms, data_timeout_ms,
}
use esphome_meshmesh.Ota.Rx.{
  rx_available, transition_ota_state, check_timeout, cleanup_session, send_error_and_cleanup,
  handle_frame,
}
use esphome_meshmesh.Ota.Handshake.{handle_handshake}
use esphome_meshmesh.Ota.Data.{handle_data_step}

-- `setup` opens the socket; a failure marks the component failed and leaves the pointer set.
unfoldable pub setup : Ota → Ota
setup s = record s { socket_open = true }

unfoldable pub set_auth_password : List ℕ → Ota → Ota
set_auth_password password s = record s { password = password }

unfoldable pub on_shutdown : Ota → Ota
on_shutdown s = record s { socket_open = false }

-- The events that the component answers to.
pub data Event : Type 0 where
  receive : Frame → Event
  pass : Event

-- Time passes.
abbrev pub tick : Ota → Ota
tick s = record s { turn = suc s.turn }

module _ (P : Platform) where
  -- A first datagram opens a session.
  unfoldable pub start_session : Ota → Ota
  start_session s =
      transition_ota_state (record s { has_peer = true; session_start_ms = P.millis s.turn })
        OtaState.magic_read

  -- The second half of `loop`: one pass of the handshake or of the data phase.
  unfoldable pub session_step : ℕ → Ota → Run Ota
  session_step fuel s =
      if ltb (ordinal s.ota_state) (ordinal OtaState.data_auth_ok)
      then (if check_timeout P s handshake_timeout_ms
          then done (cleanup_session P s)
          else handle_handshake P s)
      else if check_timeout P s data_timeout_ms
      then done (send_error_and_cleanup P s P.response.error_unknown)
      else handle_data_step P fuel s

  unfoldable pub loop : ℕ → Ota → Run Ota
  loop fuel s =
      if not s.socket_open || (not s.has_peer && rx_available s == 0)
      then done s
      else if ordinal s.ota_state == ordinal OtaState.idle
      then (if ltb 0 (rx_available s) then session_step fuel (start_session s) else done s)
      else session_step fuel s

  -- The clock goes on between two passes, whatever they do.
  unfoldable pub step : ℕ → Ota → Event → Run Ota
  step fuel s (receive f) = done (handle_frame P s f)
  step fuel s pass = loop fuel (tick s)

  unfoldable pub run : ℕ → Ota → List Event → Run Ota
  run fuel s [] = done s
  run fuel s (e ∷ es) = step fuel s e >>= λ s'. run fuel s' es
