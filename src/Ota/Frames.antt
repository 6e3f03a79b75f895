-- ===== src/Ota/Frames.antt =====
-- What a datagram does to the OTA component: `handle_frame_` of
-- components/meshmesh/ota/ota_meshmesh.cpp on each of its branches.
use esphome_meshmesh.Prelude.{
  ℕ, ◌+◌, ◌≤◌, ◌<◌, ◌≡◌, ◌≢◌, refl, ◌⊎◌, inl, inr, true, false, none, [], arith, length, Bool-cases,
  ◌==◌, ltb, not, ◌&&◌, if◌then◌else◌,
}
use esphome_meshmesh.Ota.State.{OtaState, Frame, Platform, Ota, ota_port, rx_ring_max}
use esphome_meshmesh.Ota.Rx.{
  rx_append, cleanup_auth, cleanup_session, send_error_and_cleanup, handle_frame,
}
use esphome_meshmesh.Ota.Queue.{contents, rx_available-length}

-- No session, and nothing left of one.
pub record Closed (s : Ota) : Type 0 where
  pub no_peer : s.has_peer ≡ false
  pub is_idle : s.ota_state ≡ OtaState.idle
  pub emptied : contents s ≡ []
  pub no_backend : s.backend ≡ false
  pub not_started : s.update_started ≡ false
  pub no_auth : s.auth_buf ≡ none

module _ (P : Platform) where
  pub cleanup_session-Closed : (s : Ota) → Closed (cleanup_session P s)
  unfolding cleanup_session cleanup_auth
  cleanup_session-Closed s = ground arith

  pub send_error_and_cleanup-Closed : (s : Ota) (e : ℕ) → Closed (send_error_and_cleanup P s e)
  unfolding send_error_and_cleanup
  send_error_and_cleanup-Closed s e = cleanup_session-Closed _

  -- The sender of a session's first datagram becomes the peer; its port is the component's own.
  abbrev pub addressed : Ota → Frame → Ota
  addressed s f = if s.has_peer then s else record s { peer = record f.from { port = ota_port } }

  -- The frame is one that the component listens to.
  abbrev pub Accepts : Ota → Frame → Type 0
  Accepts s f = (0 < length f.payload) × ((s.has_peer ≡ false) ⊎ (f.from.address ≡ s.peer.address))

  -- Nothing changes on an empty datagram, nor on one from another node than the session's peer.
  pub handle_frame_ignored :
      (s : Ota) (f : Frame)
      → (f.payload ≡ []) ⊎ ((s.has_peer ≡ true) × (f.from.address ≢ s.peer.address))
      → handle_frame P s f ≡ s
  unfolding handle_frame
  handle_frame_ignored s f (inl e) = rw e refl
  handle_frame_ignored s f (inr h) = ground arith

  contents-addressed : (s : Ota) (f : Frame) → contents (addressed s f) ≡ contents s
  contents-addressed s f = ground arith

  -- A non-empty datagram from the peer, or from anybody while there is no session, that fits into
  -- 8192 bytes with those that wait is appended; without a session its sender becomes the peer.
  pub handle_frame_fits :
      (s : Ota) (f : Frame)
      → Accepts s f
      → length (contents s) + length f.payload ≤ rx_ring_max
      → handle_frame P s f ≡ rx_append (addressed s f) f.payload
  unfolding handle_frame
  handle_frame_fits s f a h =
      ground (arith, rx_available-length (addressed s f), contents-addressed s f)

  pub handle_frame_overflow :
      (s : Ota) (f : Frame)
      → Accepts s f
      → rx_ring_max < length (contents s) + length f.payload
      → handle_frame P s f ≡ send_error_and_cleanup P (addressed s f) P.response.error_unknown
  unfolding handle_frame
  handle_frame_overflow s f a h =
      ground (arith, rx_available-length (addressed s f), contents-addressed s f)

  -- The three cases together, which are all there are.
  pub data Handles (s : Ota) (f : Frame) : Ota → Type 0 where
    ignored : Handles s f s
    appended :
        length (contents s) + length f.payload ≤ rx_ring_max
        → Handles s f (rx_append (addressed s f) f.payload)
    overflowed :
        rx_ring_max < length (contents s) + length f.payload
        → Handles s f (send_error_and_cleanup P (addressed s f) P.response.error_unknown)

  pub handle_frame-Handles : (s : Ota) (f : Frame) → Handles s f (handle_frame P s f)
  unfolding handle_frame
  handle_frame-Handles s f = elim (Bool-cases (length f.payload == 0)) [
    | inl e ↦ rw e ignored
    | inr e ↦ rw e (elim (Bool-cases (s.has_peer && not (f.from.address == s.peer.address))) [
      | inl k ↦ rw k ignored
      | inr k ↦
          rw (k, rx_available-length (addressed s f), contents-addressed s f)
            (elim (Bool-cases (ltb rx_ring_max (length (contents s) + length f.payload))) [
              | inl o ↦ rw o (overflowed (ground arith))
              | inr o ↦ rw o (appended (ground arith))
            ])
    ])
  ]
