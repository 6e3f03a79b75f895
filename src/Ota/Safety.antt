-- ===== src/Ota/Safety.antt =====
-- `loop` of components/meshmesh/ota/ota_meshmesh.cpp and whole runs.
use esphome_meshmesh.Prelude.{
  ℕ, ◌≡◌, refl, inl, inr, true, not, ◌&&◌, ◌||◌, List, [], ◌∷◌, arith, length-replicate, Bool-cases,
  ltb, ◌==◌,
}
use esphome_meshmesh.Ota.State.{
  OtaState, ordinal, Platform, Ota, Run, done, blocked, fault, ◌>>=◌, fresh, handshake_timeout_ms,
  data_timeout_ms, handshake_buf_size, ota_buffer_size,
}
use esphome_meshmesh.Ota.Rx.{rx_available, transition_ota_state, check_timeout}
use esphome_meshmesh.Ota.Loop.{
  tick, setup, start_session, session_step, loop, Event, receive, pass, step, run,
}
use esphome_meshmesh.Ota.Invariant.{Phase, IsValid, Safe}
use esphome_meshmesh.Ota.Keep.{
  Phase-same, cleanup_session-IsValid, send_error_and_cleanup-IsValid, handle_frame-IsValid,
}
use esphome_meshmesh.Ota.Waiting.{Calm}
use esphome_meshmesh.Ota.AuthSafe.{handle_handshake-Safe}
use esphome_meshmesh.Ota.DataSafe.{handle_data_step-Safe}

-- A new component is valid.
pub fresh-IsValid : (P : Platform) (password : List ℕ) → IsValid (fresh P password)
unfolding fresh
fresh-IsValid P password = ground (
  arith,
  length-replicate {A = ℕ} handshake_buf_size 0,
  length-replicate {A = ℕ} ota_buffer_size 0,
)

pub setup-IsValid : (s : Ota) → IsValid s → IsValid (setup s)
unfolding setup
setup-IsValid s v = record { buffers = ground arith; phase = open_phase s.ota_state s v.phase }
  where
    open_phase : (st : OtaState) (s : Ota) → Phase st s → Phase st (record s { socket_open = true })
    open_phase OtaState.data_prepare_ok s v = ground arith
    open_phase OtaState.data_md5 s v = ground arith
    open_phase OtaState.data_md5_ok s v = ground arith
    open_phase OtaState.data_firmware s v = ground arith
    open_phase OtaState.data_receive_ok s v = ground arith
    open_phase OtaState.data_end s v = ground arith
    open_phase _ s v = v

pub tick-IsValid : (s : Ota) → IsValid s → IsValid (tick s)
tick-IsValid s v = record { buffers = ground arith; phase = Phase-same s _ refl v.phase }

module _ (P : Platform) (calm : Calm P) (fuel : ℕ) where
  session_step-Safe : (s : Ota) → IsValid s → Safe (session_step P fuel s)
  unfolding session_step
  session_step-Safe s v =
      elim (Bool-cases (ltb (ordinal s.ota_state) (ordinal OtaState.data_auth_ok))) [
        | inl e ↦ rw e (elim (Bool-cases (check_timeout P s handshake_timeout_ms)) [
          | inl t ↦ rw t (cleanup_session-IsValid P s v.buffers)
          | inr t ↦ rw t (handle_handshake-Safe P s v)
        ])
        | inr e ↦ rw e (elim (Bool-cases (check_timeout P s data_timeout_ms)) [
          | inl t ↦ rw t (send_error_and_cleanup-IsValid P s _ v.buffers)
          | inr t ↦ rw t (handle_data_step-Safe P calm fuel s v)
        ])
      ]

  idle-Phase : (st : OtaState) (s : Ota) → ordinal st ≡ 0 → Phase st s → Phase OtaState.idle s
  idle-Phase OtaState.idle s e v = v
  idle-Phase _ s e v = absurd (omega arith)

  start_session-IsValid :
      (s : Ota) → IsValid s → ordinal s.ota_state ≡ 0 → IsValid (start_session P s)
  unfolding start_session transition_ota_state
  start_session-IsValid s v e =
      let i = idle-Phase s.ota_state s e v.phase in
      record { buffers = ground arith; phase = (refl, omega arith, i.1) }

  pub loop-Safe : (s : Ota) → IsValid s → Safe (loop P fuel s)
  unfolding loop
  loop-Safe s v = elim (Bool-cases (not s.socket_open || (not s.has_peer && rx_available s == 0))) [
    | inl e ↦ rw e v
    | inr e ↦ rw e (elim (Bool-cases (ordinal s.ota_state == ordinal OtaState.idle)) [
      | inr z ↦ rw z (session_step-Safe s v)
      | inl z ↦ rw z (elim (Bool-cases (ltb 0 (rx_available s))) [
        | inl y ↦ rw y (session_step-Safe _ (start_session-IsValid s v (ground arith)))
        | inr y ↦ rw y v
      ])
    ])
  ]

  pub step-Safe : (s : Ota) (e : Event) → IsValid s → Safe (step P fuel s e)
  unfolding step
  step-Safe s (receive f) v = handle_frame-IsValid P s f v
  step-Safe s pass v = loop-Safe (tick s) (tick-IsValid s v)

  then_Safe :
      (r : Run Ota) (k : Ota → Run Ota)
      → Safe r
      → ((t : Ota) → IsValid t → Safe (k t))
      → Safe (r >>= k)
  then_Safe (done t) k v h = h t v
  then_Safe blocked k v h = v
  then_Safe fault k v h = v

  -- From any valid state, no sequence of datagrams and passes of `loop` dereferences a null pointer,
  -- and each leaves a valid state, if one pass of the mesh loop delivers at most 8192 bytes.
  pub run-Safe : (s : Ota) (es : List Event) → IsValid s → Safe (run P fuel s es)
  unfolding run
  run-Safe s [] v = v
  run-Safe s (e ∷ es) v =
      then_Safe (step P fuel s e) (λ t. run P fuel t es) (step-Safe s e v) (λ t w. run-Safe t es w)
