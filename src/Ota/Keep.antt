-- ===== src/Ota/Keep.antt =====
-- The invariant through the operations that every case of components/meshmesh/ota/ota_meshmesh.cpp
-- ends with: sending, giving up, and receiving datagrams.
use esphome_meshmesh.Prelude.{
  ℕ, ◌+◌, ◌≤◌, ◌≡◌, refl, sym, ap, ◌∙◌, subst, List, [], ◌∷◌, arith, length, length-append,
}
use esphome_meshmesh.Ota.State.{OtaState, Frame, Platform, Ota, rx_ring_max}
use esphome_meshmesh.Ota.Rx.{
  rx_append, cleanup_auth, send_to_peer, cleanup_session, send_error_and_cleanup, handle_frame,
  handle_frames, yield_and_feed_watchdog,
}
use esphome_meshmesh.Ota.Queue.{contents, rx_append_lem}
use esphome_meshmesh.Ota.Frames.{
  addressed, Handles, ignored, appended, overflowed, handle_frame-Handles,
}
use esphome_meshmesh.Ota.Invariant.{Phase, Buffers, IsValid}

module _ (P : Platform) where
  pub send_to_peer-Buffers :
      (s : Ota) (bytes : List ℕ) → Buffers s → Buffers (send_to_peer P s bytes).1
  unfolding send_to_peer
  send_to_peer-Buffers s bytes v = ground arith

  -- Sending changes the trace and the count of outside calls alone.
  pub send_to_peer-frame :
      (s : Ota) (bytes : List ℕ)
      → let t = (send_to_peer P s bytes).1 in t ≡ record s { turn = t.turn; trace = t.trace }
  unfolding send_to_peer
  send_to_peer-frame s bytes = ground arith

  pub cleanup_session-IsValid : (s : Ota) → Buffers s → IsValid (cleanup_session P s)
  unfolding cleanup_session cleanup_auth
  cleanup_session-IsValid s v = ground arith

  pub send_error_and_cleanup-IsValid :
      (s : Ota) (e : ℕ) → Buffers s → IsValid (send_error_and_cleanup P s e)
  unfolding send_error_and_cleanup send_to_peer
  send_error_and_cleanup-IsValid s e v = cleanup_session-IsValid _ (ground arith)

-- `t` differs from `s` in the receive buffer, the arrays, the peer's address and the clock at most.
abbrev pub with_buffers : Ota → Ota → Ota
with_buffers s t = record s {
  rx_buf = t.rx_buf;
  rx_read_pos = t.rx_read_pos;
  handshake_buf = t.handshake_buf;
  data_buf = t.data_buf;
  turn = t.turn;
  peer = t.peer;
}

abbrev pub SameSession : Ota → Ota → Type 0
SameSession s t = t ≡ with_buffers s t

pub Phase-with_buffers : (st : OtaState) (s t : Ota) → Phase st s → Phase st (with_buffers s t)
Phase-with_buffers OtaState.data_prepare_ok s t v = ground arith
Phase-with_buffers OtaState.data_md5 s t v = ground arith
Phase-with_buffers OtaState.data_md5_ok s t v = ground arith
Phase-with_buffers OtaState.data_firmware s t v = ground arith
Phase-with_buffers OtaState.data_receive_ok s t v = ground arith
Phase-with_buffers OtaState.data_end s t v = ground arith
Phase-with_buffers _ s t v = v

-- Those fields do not enter the phase.
pub Phase-same : (s t : Ota) → SameSession s t → Phase s.ota_state s → Phase t.ota_state t
Phase-same s t e v = subst (λ u. Phase u.ota_state u) (sym e) (Phase-with_buffers s.ota_state s t v)

pub same_trans : (s t u : Ota) → SameSession s t → SameSession t u → SameSession s u
same_trans s t u p q = q ∙ ap (λ x. with_buffers x u) p

module _ (P : Platform) where
  pub rx_append-same :
      (s : Ota) (f : Frame) (bytes : List ℕ) → SameSession s (rx_append (addressed P s f) bytes)
  unfolding rx_append
  rx_append-same s f bytes = ground arith

  pub rx_append-Buffers :
      (s : Ota) (f : Frame) (bytes : List ℕ)
      → Buffers s
      → length (contents s) + length bytes ≤ rx_ring_max
      → Buffers (rx_append (addressed P s f) bytes)
  unfolding rx_append
  rx_append-Buffers s f bytes v h =
      ground (arith, rx_append_lem s bytes v.rx, length-append (contents s) bytes)

  Handles-IsValid : {s : Ota} {f : Frame} {t : Ota} → Handles P s f t → IsValid s → IsValid t
  Handles-IsValid ignored v = v
  Handles-IsValid {s} {f} (appended h) v = record {
    buffers = rx_append-Buffers s f f.payload v.buffers h;
    phase = Phase-same s _ (rx_append-same s f f.payload) v.phase;
  }
  Handles-IsValid {s} {f} (overflowed h) v = send_error_and_cleanup-IsValid P _ _ (ground arith)

  -- A datagram, whoever sends it, leaves a valid component valid.
  pub handle_frame-IsValid : (s : Ota) (f : Frame) → IsValid s → IsValid (handle_frame P s f)
  handle_frame-IsValid s f v = Handles-IsValid (handle_frame-Handles P s f) v

  pub handle_frames-IsValid :
      (s : Ota) (fs : List Frame) → IsValid s → IsValid (handle_frames P s fs)
  unfolding handle_frames
  handle_frames-IsValid s [] v = v
  handle_frames-IsValid s (f ∷ fs) v =
      handle_frames-IsValid (handle_frame P s f) fs (handle_frame-IsValid s f v)

  pub yield_and_feed_watchdog-IsValid :
      (s : Ota) → IsValid s → IsValid (yield_and_feed_watchdog P s)
  unfolding yield_and_feed_watchdog
  yield_and_feed_watchdog-IsValid s v =
      handle_frames-IsValid _ _
        (record { buffers = ground arith; phase = Phase-same s _ refl v.phase })
