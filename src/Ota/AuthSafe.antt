-- ===== src/Ota/AuthSafe.antt =====
-- The invariant through the challenge and response cases of components/meshmesh/ota/ota_meshmesh.cpp,
-- and through `handle_handshake_`.
use esphome_meshmesh.Prelude.{
  ℕ, suc, ◌+◌, ◌*◌, ◌%◌, ◌^◌, ◌≡◌, refl, sym, ap, ◌∙◌, subst, ◌⊎◌, inl, inr, Bool, true, false,
  none, some, List, [], ◌∷◌, arith, length, length-blit, length-replicate, take, drop, blit,
  replicate, Bool-cases, Option-cases, ltb, ◌==◌, if◌then◌else◌,
}
use esphome_meshmesh.Mesh.{sub32}
use esphome_meshmesh.Ota.State.{
  OtaState, Platform, Ota, Run, done, blocked, fault, ◌>>=◌, sha256_hex_size,
}
use esphome_meshmesh.Ota.Rx.{rx_read, transition_ota_state, send_to_peer, send_error_and_cleanup}
use esphome_meshmesh.Ota.Auth.{
  nonce_len, auth_buf_size, select_auth_type, challenge, make_challenge, prepare_auth,
  send_challenge, handle_auth_send, response_matches, check_response, handle_auth_read,
}
use esphome_meshmesh.Ota.Handshake.{
  enter_data_phase, auth_read, auth_send, handshake_case, handle_handshake,
}
use esphome_meshmesh.Ota.Invariant.{HasBackend, HasChallenge, Buffers, IsValid, Safe}
use esphome_meshmesh.Ota.Keep.{send_to_peer-frame, send_error_and_cleanup-IsValid}
use esphome_meshmesh.Ota.Waiting.{rx_read-Buffers}
use esphome_meshmesh.Ota.HandshakeSafe.{
  At, At-IsValid, At-same, send_to_peer-At, feature_ack-Safe, feature_read-Safe, magic_ack-Safe,
  magic_read-Safe,
}

module _ (P : Platform) where
  pub length-challenge :
      (auth_type : ℕ) (bytes : List ℕ) → length (challenge P auth_type bytes) ≡ auth_buf_size
  unfolding challenge
  length-challenge auth_type bytes =
      let zeros : List ℕ = replicate auth_buf_size 0 in
      let buf = blit zeros 1 bytes in
      omega (
        arith,
        length-blit (blit buf 0 (auth_type ∷ [])) 1 (P.sha256_hex (take nonce_len (drop 1 buf))),
        length-blit buf 0 (auth_type ∷ []),
        length-blit zeros 1 bytes,
        length-replicate {A = ℕ} auth_buf_size 0,
      )

  -- A step that went well has the facts that the next state wants, and one that did not is valid.
  abbrev Challenged : Bool × Ota → Type 0
  Challenged (true, t) =
      Buffers t
      × HasBackend t
      × HasChallenge t
      × (t.auth_buf_pos ≡ 0)
      × (t.ota_state ≡ OtaState.auth_send)
  Challenged (false, t) = IsValid t

  select_auth_type-cases :
      (s : Ota)
      → (select_auth_type P s ≡ (true, record s { auth_type = P.response.request_sha256_auth }))
        ⊎ (select_auth_type P s ≡ (false, send_error_and_cleanup P s P.response.error_auth_invalid))
  unfolding select_auth_type
  select_auth_type-cases s = ground arith

  make_challenge-Challenged : (s : Ota) → At OtaState.auth_send s → Challenged (make_challenge P s)
  unfolding make_challenge
  make_challenge-Challenged s a = elim (Option-cases (P.random_bytes s.turn)) [
    | inl r ↦
        subst Challenged (sym (failed r)) (send_error_and_cleanup-IsValid P _ _ (ground arith))
    | inr (bytes, r) ↦ subst Challenged (sym (made bytes r)) (
      ground arith,
      a.phase.0,
      (challenge P s.auth_type bytes, refl, length-challenge s.auth_type bytes),
      refl,
      a.state,
    )
  ]
    where
      buffered : Ota
      buffered = record s {
        auth_buf = some (replicate auth_buf_size 0);
        auth_buf_pos = 0;
        turn = suc s.turn;
      }

      failed :
          P.random_bytes s.turn ≡ none
          → make_challenge P s ≡ (false, send_error_and_cleanup P buffered P.response.error_unknown)
      failed r = rw (r, make_challenge)

      made :
          (bytes : List ℕ)
          → P.random_bytes s.turn ≡ some bytes
          → make_challenge P s
            ≡ (true, record buffered { auth_buf = some (challenge P s.auth_type bytes) })
      made bytes r = rw (r, make_challenge)

  prepare_auth-Challenged : (s : Ota) → At OtaState.auth_send s → Challenged (prepare_auth P s)
  unfolding prepare_auth
  prepare_auth-Challenged s a = elim (Option-cases s.auth_buf) [
    | inr (buf, e) ↦ rw (e, prepare_auth) (ground arith)
    | inl e ↦
        rw (e, prepare_auth)
          (elim (select_auth_type-cases s) [
            | inr z ↦ rw z (send_error_and_cleanup-IsValid P s _ a.buffers)
            | inl z ↦ rw z (make_challenge-Challenged _ (ground arith))
          ])
  ]

  abbrev ChallengeSent : Run (Bool × Ota) → Type 0
  ChallengeSent (done r) = Challenged r
  ChallengeSent blocked = Unit {0}
  ChallengeSent fault = ⊥

  -- What `send_challenge` sends and how it goes on, with the buffer known.
  send_challenge_lem :
      (t : Ota) (buf : List ℕ)
      → t.auth_buf ≡ some buf
      → let bytes =
          take (sub32 (1 + sha256_hex_size) t.auth_buf_pos % 2 ^ 16) (drop t.auth_buf_pos buf) in
        let (sent, u) = send_to_peer P t bytes in
        send_challenge P t
        ≡ done (if sent then (true, record u { auth_buf_pos = 0 }) else (false, u))
  unfolding send_challenge
  send_challenge_lem t buf e = rw (e, send_challenge)

  send_challenge-Sent : (t : Ota) → Challenged (true, t) → ChallengeSent (send_challenge P t)
  send_challenge-Sent t (b, k, (buf, e, l), z, st) =
      let a : At OtaState.auth_send t = record {
        state = st;
        buffers = b;
        phase = (k, inr ((buf, e, l), z));
      } in
      let bytes =
        take (sub32 (1 + sha256_hex_size) t.auth_buf_pos % 2 ^ 16) (drop t.auth_buf_pos buf) in
      let c = send_to_peer-At P OtaState.auth_send t bytes a in
      let same : (send_to_peer P t bytes).1.auth_buf ≡ some buf =
        ap (λ u. u.auth_buf) (send_to_peer-frame P t bytes) ∙ e in
      rw (send_challenge_lem t buf e) (elim (Bool-cases (send_to_peer P t bytes).0) [
        | inl y ↦ rw y (ground arith, ground arith, (buf, same, l), refl, ground arith)
        | inr y ↦ rw y (At-IsValid OtaState.auth_send _ c)
      ])

  handle_auth_send-Sent : (s : Ota) → At OtaState.auth_send s → ChallengeSent (handle_auth_send P s)
  unfolding handle_auth_send
  handle_auth_send-Sent s a = ready (prepare_auth P s) (prepare_auth-Challenged s a)
    where
      ready :
          (r : Bool × Ota)
          → Challenged r
          → ChallengeSent (if r.0 then send_challenge P r.1 else done (false, r.1))
      ready (true, t) c = send_challenge-Sent t c
      ready (false, t) c = c

  -- An accepted response has the facts of the data phase.
  abbrev Answered : Run (Bool × Ota) → Type 0
  Answered (done (true, t)) = Buffers t × HasBackend t
  Answered (done (false, t)) = IsValid t
  Answered blocked = Unit {0}
  Answered fault = ⊥

  -- What `handle_auth_read` does with the buffer known.
  pub handle_auth_read_lem :
      (s : Ota) (buf : List ℕ)
      → s.auth_buf ≡ some buf
      → let (got, s') = rx_read s (sub32 (sha256_hex_size * 2) s.auth_buf_pos) in
        let buf' = blit buf (1 + sha256_hex_size + s.auth_buf_pos) got in
        let pos = s.auth_buf_pos + length got in
        let stored = record s' { auth_buf = some buf'; auth_buf_pos = pos } in
        handle_auth_read P s
        ≡ done (
            if length got == 0
            then (false, s')
            else if ltb pos (sha256_hex_size * 2)
            then (false, stored)
            else check_response P stored buf')
  unfolding handle_auth_read
  handle_auth_read_lem s buf e = rw (e, handle_auth_read)

  check_response-Answered :
      (s : Ota) (buf : List ℕ) → Buffers s → HasBackend s → Answered (done (check_response P s buf))
  unfolding check_response
  check_response-Answered s buf b k = elim (Bool-cases (response_matches P s.password buf)) [
    | inl e ↦ rw e (ground arith)
    | inr e ↦ rw e (send_error_and_cleanup-IsValid P s _ b)
  ]

  handle_auth_read-Answered : (s : Ota) → At OtaState.auth_read s → Answered (handle_auth_read P s)
  unfolding handle_auth_read
  handle_auth_read-Answered s a =
      let (k, (buf, e, l), h) = a.phase in
      let need = sub32 (sha256_hex_size * 2) s.auth_buf_pos in
      let got = (rx_read s need).0 in
      let s' = (rx_read s need).1 in
      let r = rx_read-Buffers s need a.buffers in
      let b = At-same OtaState.auth_read s s' r.0 r.1 a in
      let buf' = blit buf (1 + sha256_hex_size + s.auth_buf_pos) got in
      let stored : Ota = record s' {
        auth_buf = some buf';
        auth_buf_pos = s.auth_buf_pos + length got;
      } in
      rw (handle_auth_read_lem s buf e) (elim (Bool-cases (length got == 0)) [
        | inl z ↦ rw (z, Answered) (At-IsValid OtaState.auth_read s' b)
        | inr z ↦
            rw (z, Answered)
              (elim (Bool-cases (ltb (s.auth_buf_pos + length got) (sha256_hex_size * 2))) [
                | inl w ↦ rw w (
                    At-IsValid OtaState.auth_read stored (record {
                      state = b.state;
                      buffers = ground arith;
                      phase = (
                        b.phase.0,
                        (
                          buf',
                          refl,
                          length-blit buf (1 + sha256_hex_size + s.auth_buf_pos) got ∙ l,
                        ),
                        ground arith,
                      );
                    }))
                | inr w ↦ rw w (check_response-Answered stored buf' (ground arith) b.phase.0)
              ])
      ])

  enter_data_phase-IsValid : (t : Ota) → Buffers t → HasBackend t → IsValid (enter_data_phase P t)
  unfolding enter_data_phase
  enter_data_phase-IsValid t b k = ground arith

  auth_read-Safe : (s : Ota) → At OtaState.auth_read s → Safe (auth_read P s)
  unfolding auth_read
  auth_read-Safe s a = entered (handle_auth_read P s) (handle_auth_read-Answered s a)
    where
      entered :
          (r : Run (Bool × Ota))
          → Answered r
          → Safe (r >>= λ (accepted, t). done (if accepted then enter_data_phase P t else t))
      entered (done (true, t)) c = enter_data_phase-IsValid t c.0 c.1
      entered (done (false, t)) c = c
      entered blocked c = tt
      entered fault c = c

  auth_send-Safe : (s : Ota) → At OtaState.auth_send s → Safe (auth_send P s)
  unfolding auth_send
  auth_send-Safe s a = sent (handle_auth_send P s) (handle_auth_send-Sent s a)
    where
      reading :
          (t : Ota)
          → Challenged (true, t)
          → At OtaState.auth_read (transition_ota_state t OtaState.auth_read)
      reading t (b, k, c, z, e) = record {
        state = refl;
        buffers = ground arith;
        phase = (k, c, omega arith);
      }

      sent :
          (r : Run (Bool × Ota))
          → ChallengeSent r
          → Safe (
              r >>= λ (challenged, t).
              if challenged
              then auth_read P (transition_ota_state t OtaState.auth_read)
              else done t)
      sent (done (true, t)) c = auth_read-Safe _ (reading t c)
      sent (done (false, t)) c = c
      sent blocked c = tt
      sent fault c = c

  -- A pass of the handshake keeps the invariant, whatever the peer sends.
  pub handle_handshake-Safe : (s : Ota) → IsValid s → Safe (handle_handshake P s)
  unfolding handle_handshake
  handle_handshake-Safe s v =
      case s.ota_state (record { state = refl; buffers = v.buffers; phase = v.phase })
    where
      case : (st : OtaState) → At st s → Safe (handshake_case P st s)
      case OtaState.magic_read a = magic_read-Safe P s a
      case OtaState.magic_ack a = magic_ack-Safe P s a
      case OtaState.feature_read a = feature_read-Safe P s a
      case OtaState.feature_ack a = feature_ack-Safe P s a
      case OtaState.auth_send a = auth_send-Safe s a
      case OtaState.auth_read a = auth_read-Safe s a
      case st a = At-IsValid st s a
