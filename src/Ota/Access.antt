-- ===== src/Ota/Access.antt =====
-- How a session of the OTA component (components/meshmesh/ota/ota_meshmesh.cpp) enters the data phase,
-- with a password and without.
use esphome_meshmesh.Prelude.{
  ℕ, ◌+◌, ◌*◌, ◌≤◌, ◌<◌, ◌≡◌, refl, sym, ap, ◌∙◌, inl, inr, true, false, Option, none, some, List,
  [], ◌∷◌, arith, length, length-take, min, take, blit, length-blit, get_or, bytes_eq, Bool-cases,
  ltb, leb, ◌==◌,
}
use esphome_meshmesh.Mesh.{sub32}
use esphome_meshmesh.Ota.State.{
  OtaState, ordinal, Platform, Ota, Run, done, blocked, fault, sha256_hex_size,
}
use esphome_meshmesh.Ota.Rx.{rx_read, transition_ota_state, cleanup_auth, send_error_and_cleanup}
use esphome_meshmesh.Ota.Auth.{response_matches, check_response}
use esphome_meshmesh.Ota.Handshake.{
  magic_bytes, enter_data_phase, auth_read, feature_ack, feature_read, magic_ack, magic_read,
  handshake_case, handle_handshake,
}
use esphome_meshmesh.Ota.Queue.{contents, rx_read_lem}
use esphome_meshmesh.Ota.Frames.{send_error_and_cleanup-Closed}
use esphome_meshmesh.Ota.Invariant.{IsValid}
use esphome_meshmesh.Ota.Response.{owed, received, nonce_of, answer, proves, response_lem}
use esphome_meshmesh.Ota.HandshakeSafe.{
  At, try_write-cases, try_read-cases, answered-At, feature_answer-done,
}
use esphome_meshmesh.Ota.AuthSafe.{handle_auth_read_lem}

module _ (P : Platform) where
  closed-idle : (s : Ota) (e : ℕ) → (send_error_and_cleanup P s e).ota_state ≡ OtaState.idle
  closed-idle s e = (send_error_and_cleanup-Closed P s e).is_idle

  -- The outcomes of AUTH_READ, by the test that the code makes on its buffer.
  record Decides (s : Ota) (buf : List ℕ) (t : Ota) : Type 0 where
    waits : length (contents s) < owed s → t.ota_state ≡ OtaState.auth_read
    accepts :
        owed s ≤ length (contents s)
        → response_matches P s.password (received s buf) ≡ true
        → t.ota_state ≡ OtaState.data_auth_ok
    rejects :
        owed s ≤ length (contents s)
        → response_matches P s.password (received s buf) ≡ false
        → t.ota_state ≡ OtaState.idle

  accepted :
      (u : Ota) (buf : List ℕ)
      → response_matches P u.password buf ≡ true
      → check_response P u buf ≡ (true, cleanup_auth u)
  unfolding check_response
  accepted u buf m = rw m

  rejected :
      (u : Ota) (buf : List ℕ)
      → response_matches P u.password buf ≡ false
      → check_response P u buf ≡ (false, send_error_and_cleanup P u P.response.error_auth_invalid)
  unfolding check_response
  rejected u buf m = rw m

  auth_read-Decides :
      (s : Ota) (buf : List ℕ)
      → At OtaState.auth_read s
      → s.auth_buf ≡ some buf
      → (t : Ota) × (auth_read P s ≡ done t) × Decides s buf t
  unfolding auth_read enter_data_phase
  auth_read-Decides s buf a e =
      let need = sub32 (sha256_hex_size * 2) s.auth_buf_pos in
      let got = (rx_read s need).0 in
      let s' = (rx_read s need).1 in
      let r = rx_read_lem s need a.buffers.rx in
      let few : s.auth_buf_pos < 128 = a.phase.2 in
      let owes : need ≡ owed s = omega arith in
      let bytes : got ≡ take (owed s) (contents s) =
        r.got_oldest ∙ ap (λ (n : ℕ). take n (contents s)) owes in
      let buf' = blit buf (1 + sha256_hex_size + s.auth_buf_pos) got in
      let all : buf' ≡ received s buf = ap (λ b. blit buf (65 + s.auth_buf_pos) b) bytes in
      let stored : Ota = record s' {
        auth_buf = some buf';
        auth_buf_pos = s.auth_buf_pos + length got;
      } in
      let still : s'.ota_state ≡ OtaState.auth_read = ap (λ u. u.ota_state) r.frame ∙ a.state in
      let same : response_matches P s'.password buf'
          ≡ response_matches P s.password (received s buf) =
        λ i. response_matches P (r.frame i).password (all i) in
      let taken : length got ≡ min (owed s) (length (contents s)) =
        ap length bytes ∙ length-take (owed s) (contents s) in
      elim (Bool-cases (length got == 0)) [
        | inl z ↦ (
          s',
          rw (handle_auth_read_lem P s buf e, z),
          record {
            waits = λ h. still;
            accepts = λ h m. absurd (ground arith);
            rejects = λ h m. absurd (ground arith);
          },
        )
        | inr z ↦ elim (Bool-cases (ltb (s.auth_buf_pos + length got) (sha256_hex_size * 2))) [
          | inl w ↦ (
            stored,
            rw (handle_auth_read_lem P s buf e, z, w),
            record {
              waits = λ h. still;
              accepts = λ h m. absurd (ground arith);
              rejects = λ h m. absurd (ground arith);
            },
          )
          | inr w ↦ elim (Bool-cases (response_matches P s'.password buf')) [
            | inl m ↦ (
              enter_data_phase P (cleanup_auth stored),
              rw (handle_auth_read_lem P s buf e, z, w, accepted stored buf' m),
              record {
                waits = λ h. absurd (ground arith);
                accepts = λ h k. refl;
                rejects = λ h k. cc;
              },
            )
            | inr m ↦ (
              send_error_and_cleanup P stored P.response.error_auth_invalid,
              rw (handle_auth_read_lem P s buf e, z, w, rejected stored buf' m),
              record {
                waits = λ h. absurd (ground arith);
                accepts = λ h k. cc;
                rejects = λ h k. closed-idle stored _;
              },
            )
          ]
        ]
      ]

  -- The outcomes of AUTH_READ: it waits for the rest of the answer, it enters the data phase on the
  -- digest over the password, the nonce and the client's nonce, or it gives the session up.
  pub record Judges (s : Ota) (buf : List ℕ) (t : Ota) : Type 0 where
    pub waits : length (contents s) < owed s → t.ota_state ≡ OtaState.auth_read
    pub accepts :
        owed s ≤ length (contents s)
        → proves P s.password (nonce_of buf) (answer s buf) ≡ true
        → t.ota_state ≡ OtaState.data_auth_ok
    pub rejects :
        owed s ≤ length (contents s)
        → proves P s.password (nonce_of buf) (answer s buf) ≡ false
        → t.ota_state ≡ OtaState.idle

  abbrev size_of : Option (List ℕ) → ℕ
  size_of none = 0
  size_of (some b) = length b

  challenge-length :
      (s : Ota) (buf : List ℕ) → At OtaState.auth_read s → s.auth_buf ≡ some buf → length buf ≡ 193
  challenge-length s buf a e = let (b, f, n) = a.phase.1 in sym (ap size_of e) ∙ ap size_of f ∙ n

  -- In AUTH_READ, with the challenge out in a buffer, the answer is what earlier passes have stored
  -- behind the nonce, then the bytes that wait. While it has fewer than 128 characters, a pass waits.
  -- Once it has them, the pass enters the data phase if the last 64 are the digest over the password,
  -- the 64 characters of the nonce in the challenge and the first 64 of the answer, and else returns
  -- to IDLE.
  pub auth_read-Judges :
      (s : Ota) (buf : List ℕ)
      → At OtaState.auth_read s
      → s.auth_buf ≡ some buf
      → (t : Ota) × (auth_read P s ≡ done t) × Judges s buf t
  auth_read-Judges s buf a e =
      let (t, d, j) = auth_read-Decides s buf a e in
      let r = response_lem P s.password s buf (challenge-length s buf a e) a.phase.2 in
      (
        t,
        d,
        record {
          waits = j.waits;
          accepts = λ h m. j.accepts h (r h ∙ m);
          rejects = λ h m. j.rejects h (r h ∙ m);
        },
      )

  -- The session has not entered the data phase.
  abbrev pub Locked : Run Ota → Type 0
  Locked (done t) = ordinal t.ota_state < ordinal OtaState.data_auth_ok
  Locked blocked = Unit {0}
  Locked fault = Unit {0}

  At-Locked : (st : OtaState) (u : Ota) → At st u → ordinal st < 7 → ordinal u.ota_state < 7
  At-Locked st u b h = rw b.state h

  feature_ack-Locked :
      (s : Ota) → At OtaState.feature_ack s → 0 < length s.password → Locked (feature_ack P s)
  unfolding feature_ack transition_ota_state
  feature_ack-Locked s a h = elim (try_write-cases P OtaState.feature_ack s 1 a) [
    | inl (u, b, w, e) ↦
        let z : length u.password == 0 ≡ false = ground (arith, ap length w) in
        rw (e, feature_ack, z) (omega arith)
    | inr (u, b, w, e) ↦ rw (e, feature_ack) (At-Locked _ u b (omega arith))
  ]

  feature_read-Locked :
      (s : Ota) → At OtaState.feature_read s → 0 < length s.password → Locked (feature_read P s)
  unfolding feature_read transition_ota_state
  feature_read-Locked s a h =
      let (u, p, b, w, le, e) =
        try_read-cases P OtaState.feature_read s 1 a (ground arith) (omega arith) in
      rw (e, feature_read)
        (elim (Bool-cases (leb 1 p)) [
          | inl z ↦
              let ready : Ota = record u {
                handshake_buf_pos = 0;
                ota_features = get_or u.handshake_buf 0 0;
                ota_state = OtaState.feature_ack;
              } in
              let (answer, q) = feature_answer-done P ready b.phase.0.1 in
              rw (z, q)
                (feature_ack-Locked _ (answered-At P u answer b) (omega (arith, ap length w)))
          | inr z ↦ rw z (At-Locked _ u b (omega arith))
        ])

  magic_ack-Locked :
      (s : Ota) → At OtaState.magic_ack s → 0 < length s.password → Locked (magic_ack P s)
  unfolding magic_ack transition_ota_state
  magic_ack-Locked s a h = elim (try_write-cases P OtaState.magic_ack s 2 a) [
    | inl (u, b, w, e) ↦
        rw (e, magic_ack) (feature_read-Locked _ (ground arith) (omega (arith, ap length w)))
    | inr (u, b, w, e) ↦ rw (e, magic_ack) (At-Locked _ u b (omega arith))
  ]

  magic_read-Locked :
      (s : Ota) → At OtaState.magic_read s → 0 < length s.password → Locked (magic_read P s)
  unfolding magic_read transition_ota_state
  magic_read-Locked s a h =
      let (u, p, b, w, le, e) =
        try_read-cases P OtaState.magic_read s 5 a (ground arith) (omega arith) in
      let ok : List ℕ = P.response.ok ∷ P.version ∷ [] in
      rw (e, magic_read)
        (elim (Bool-cases (leb 5 p)) [
          | inr z ↦ rw z (At-Locked _ u b (omega arith))
          | inl z ↦ rw z (elim (Bool-cases (bytes_eq (take 5 u.handshake_buf) magic_bytes)) [
            | inl m ↦ rw m (
                magic_ack-Locked _ (ground (arith, length-blit u.handshake_buf 0 ok))
                  (omega (arith, ap length w)))
            | inr m ↦ rw m (rw (closed-idle _ P.response.error_magic) (omega arith))
          ])
        ])

  -- With a password set, no pass that starts before the challenge is out reaches the data phase,
  -- whatever the peer has sent: only AUTH_SEND and AUTH_READ can.
  pub handle_handshake-Locked :
      (s : Ota)
      → IsValid s
      → 0 < length s.password
      → ordinal s.ota_state < ordinal OtaState.auth_send
      → Locked (handle_handshake P s)
  unfolding handle_handshake
  handle_handshake-Locked s v h lt =
      case s.ota_state (record { state = refl; buffers = v.buffers; phase = v.phase }) lt
    where
      case :
          (st : OtaState)
          → At st s
          → ordinal st < ordinal OtaState.auth_send
          → Locked (handshake_case P st s)
      case OtaState.idle a k = At-Locked OtaState.idle s a (omega arith)
      case OtaState.magic_read a k = magic_read-Locked s a h
      case OtaState.magic_ack a k = magic_ack-Locked s a h
      case OtaState.feature_read a k = feature_read-Locked s a h
      case OtaState.feature_ack a k = feature_ack-Locked s a h
      case _ a k = absurd (omega arith)
