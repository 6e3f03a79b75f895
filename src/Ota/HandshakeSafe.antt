-- ===== src/Ota/HandshakeSafe.antt =====
-- The invariant through the cases of `handle_handshake_`
-- (components/meshmesh/ota/ota_meshmesh.cpp) before the challenge.
use esphome_meshmesh.Prelude.{
  get_or, if◌then◌else◌, ℕ, ◌+◌, ◌-◌, ◌≤◌, ◌<◌, ◌≡◌, sym, ap, ◌∙◌, subst, ◌⊎◌, inl, inr, Bool, true,
  false, List, [], ◌∷◌, ◌^◌, ◌%◌, arith, length, length-blit, length-take, take, drop, blit,
  Bool-cases, leb, ◌==◌, bytes_eq, bit_and,
}
use esphome_meshmesh.Mesh.{sub32}
use esphome_meshmesh.Ota.State.{OtaState, Platform, Ota, done, feature_compression}
use esphome_meshmesh.Ota.Rx.{rx_read, transition_ota_state, send_to_peer, try_read, try_write}
use esphome_meshmesh.Ota.Handshake.{
  magic_bytes, enter_data_phase, feature_ack, feature_answer, feature_read, magic_ack, magic_read,
}
use esphome_meshmesh.Ota.Queue.{contents, rx_read_lem}
use esphome_meshmesh.Ota.Invariant.{Phase, Buffers, IsValid, Safe}
use esphome_meshmesh.Ota.Keep.{
  SameSession, send_to_peer-Buffers, send_to_peer-frame, send_error_and_cleanup-IsValid, Phase-same,
  Phase-with_buffers,
}
use esphome_meshmesh.Ota.Waiting.{rx_read-Buffers}

-- A valid component whose state is known.
pub record At (st : OtaState) (s : Ota) : Type 0 where
  pub state : s.ota_state ≡ st
  pub buffers : Buffers s
  pub phase : Phase st s

pub At-IsValid : (st : OtaState) (s : Ota) → At st s → IsValid s
At-IsValid st s a = record {
  buffers = a.buffers;
  phase = subst (λ x. Phase x s) (sym a.state) a.phase;
}

pub At-same : (st : OtaState) (s t : Ota) → SameSession s t → Buffers t → At st s → At st t
At-same st s t e v a = record {
  state = ap (λ u. u.ota_state) e ∙ a.state;
  buffers = v;
  phase =
      subst (λ x. Phase x t) (ap (λ u. u.ota_state) e ∙ a.state)
        (Phase-same s t e (At-IsValid st s a).phase);
}

module _ (P : Platform) where
  Phase-send : (st : OtaState) (s : Ota) (b : List ℕ) → Phase st s → Phase st (send_to_peer P s b).1
  unfolding send_to_peer
  Phase-send OtaState.idle s b v = ground arith
  Phase-send _ s b v = ground arith

  pub send_to_peer-At :
      (st : OtaState) (s : Ota) (b : List ℕ) → At st s → At st (send_to_peer P s b).1
  unfolding send_to_peer
  send_to_peer-At st s b a = record {
    state = ground arith;
    buffers = send_to_peer-Buffers P s b a.buffers;
    phase = Phase-send st s b a.phase;
  }

  -- A write sends all or nothing; only a write that is sent moves the position.
  pub try_write-cases :
      (st : OtaState) (s : Ota) (n : ℕ)
      → At st s
      → ((u : Ota) × At st u
          × (u.password ≡ s.password)
          × (try_write P s n ≡ (true, record u { handshake_buf_pos = n })))
        ⊎ ((u : Ota) × At st u × (u.password ≡ s.password) × (try_write P s n ≡ (false, u)))
  unfolding try_write
  try_write-cases st s n a =
      let bytes =
        take (sub32 n s.handshake_buf_pos % 2 ^ 16) (drop s.handshake_buf_pos s.handshake_buf) in
      let t = (send_to_peer P s bytes).1 in
      let b = send_to_peer-At st s bytes a in
      let w : t.password ≡ s.password = ap (λ u. u.password) (send_to_peer-frame P s bytes) in
      elim (Bool-cases (send_to_peer P s bytes).0) [
        | inl e ↦ inl (t, b, w, rw e)
        | inr e ↦ inr (t, b, w, rw e)
      ]

  unread :
      (t : Ota) (n : ℕ) {p : ℕ}
      → t.handshake_buf_pos ≡ p
      → p < n
      → ◌≡◌ {A = Bool × Ota} (false, t) (leb n p, record t { handshake_buf_pos = p })
  unread t n {p} e h =
      let q : false ≡ leb n p = ground arith in λ i. (q i, record t { handshake_buf_pos = e i })

  -- A read takes what is missing, or what there is of it.
  pub try_read-cases :
      (st : OtaState) (s : Ota) (n : ℕ)
      → At st s
      → s.handshake_buf_pos < n
      → n < 2 ^ 32
      → (u : Ota) × (p : ℕ) × At st u
        × (u.password ≡ s.password)
        × (p ≤ n)
        × (try_read s n ≡ (leb n p, record u { handshake_buf_pos = p }))
  unfolding try_read
  try_read-cases st s n a h k =
      let need = sub32 n s.handshake_buf_pos in
      let got = (rx_read s need).0 in
      let s' = (rx_read s need).1 in
      let r = rx_read_lem s need a.buffers.rx in
      let b = rx_read-Buffers s need a.buffers in
      let c = At-same st s s' b.0 b.1 a in
      let pos : s'.handshake_buf_pos ≡ s.handshake_buf_pos = ap (λ u. u.handshake_buf_pos) b.0 in
      let w : s'.password ≡ s.password = ap (λ u. u.password) b.0 in
      let few : length got ≤ n - s.handshake_buf_pos =
        omega (arith, ap length r.got_oldest, length-take need (contents s)) in
      elim (Bool-cases (length got == 0)) [
        | inl e ↦ (s', s.handshake_buf_pos, c, w, omega arith, rw e (unread s' n pos h))
        | inr e ↦ (
          record s' { handshake_buf = blit s'.handshake_buf s'.handshake_buf_pos got },
          s'.handshake_buf_pos + length got,
          record {
            state = c.state;
            buffers = ground (arith, length-blit s'.handshake_buf s'.handshake_buf_pos got);
            phase =
                Phase-with_buffers st s'
                  (record s' { handshake_buf = blit s'.handshake_buf s'.handshake_buf_pos got })
                  c.phase;
          },
          w,
          omega arith,
          rw e,
        )
      ]

  pub feature_ack-Safe : (s : Ota) → At OtaState.feature_ack s → Safe (feature_ack P s)
  unfolding feature_ack enter_data_phase
  feature_ack-Safe s a = elim (try_write-cases OtaState.feature_ack s 1 a) [
    | inl (u, b, w, e) ↦
        rw (e, feature_ack)
          (elim (Bool-cases (length u.password == 0)) [
            | inl z ↦ rw z (ground arith)
            | inr z ↦ rw z (ground arith)
          ])
    | inr (u, b, w, e) ↦ rw (e, feature_ack) (At-IsValid _ u b)
  ]

module _ (P : Platform) where
  -- The state in which the answer to the features is ready to go out.
  abbrev pub answered : Ota → ℕ → Ota
  answered u answer = record u {
    handshake_buf = blit u.handshake_buf 0 (answer ∷ []);
    handshake_buf_pos = 0;
    ota_features = get_or u.handshake_buf 0 0;
    ota_state = OtaState.feature_ack;
  }

  pub answered-At :
      (u : Ota) (answer : ℕ)
      → At OtaState.feature_read u
      → At OtaState.feature_ack (answered u answer)
  answered-At u answer b = ground (arith, length-blit u.handshake_buf 0 (answer ∷ []))

  pub feature_answer-done :
      (s : Ota) → s.backend ≡ true → (answer : ℕ) × (feature_answer P s ≡ done answer)
  unfolding feature_answer
  feature_answer-done s e = elim (Bool-cases (bit_and s.ota_features feature_compression == 0)) [
    | inl z ↦ (P.response.header_ok, rw z)
    | inr z ↦ (
      if P.can_decompress then P.response.supports_compression else P.response.header_ok,
      rw (z, e),
    )
  ]

  pub feature_read-Safe : (s : Ota) → At OtaState.feature_read s → Safe (feature_read P s)
  unfolding feature_read transition_ota_state
  feature_read-Safe s a =
      let (u, p, b, w, le, e) =
        try_read-cases P OtaState.feature_read s 1 a (ground arith) (omega arith) in
      rw (e, feature_read)
        (elim (Bool-cases (leb 1 p)) [
          | inl z ↦
              let ready : Ota = record u {
                handshake_buf_pos = 0;
                ota_features = get_or u.handshake_buf 0 0;
                ota_state = OtaState.feature_ack;
              } in
              let (answer, q) = feature_answer-done ready b.phase.0.1 in
              rw (z, q) (feature_ack-Safe P _ (answered-At u answer b))
          | inr z ↦ rw z (At-IsValid OtaState.feature_read _ (ground arith))
        ])

  pub magic_ack-Safe : (s : Ota) → At OtaState.magic_ack s → Safe (magic_ack P s)
  unfolding magic_ack transition_ota_state
  magic_ack-Safe s a = elim (try_write-cases P OtaState.magic_ack s 2 a) [
    | inl (u, b, w, e) ↦ rw (e, magic_ack) (feature_read-Safe _ (ground arith))
    | inr (u, b, w, e) ↦ rw (e, magic_ack) (At-IsValid _ u b)
  ]

  pub magic_read-Safe : (s : Ota) → At OtaState.magic_read s → Safe (magic_read P s)
  unfolding magic_read transition_ota_state
  magic_read-Safe s a =
      let (u, p, b, w, le, e) =
        try_read-cases P OtaState.magic_read s 5 a (ground arith) (omega arith) in
      rw (e, magic_read)
        (elim (Bool-cases (leb 5 p)) [
          | inr z ↦ rw z (At-IsValid OtaState.magic_read _ (ground arith))
          | inl z ↦ rw z (elim (Bool-cases (bytes_eq (take 5 u.handshake_buf) magic_bytes)) [
            | inl m ↦ rw m (
                magic_ack-Safe _
                  (ground (arith, length-blit u.handshake_buf 0 (P.response.ok ∷ P.version ∷ []))))
            | inr m ↦ rw m (send_error_and_cleanup-IsValid P _ _ (ground arith))
          ])
        ])
