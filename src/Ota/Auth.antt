-- ===== src/Ota/Auth.antt =====
-- The challenge and response of the OTA handshake: `select_auth_type_`, `handle_auth_send_` and
-- `handle_auth_read_` of components/meshmesh/ota/ota_meshmesh.cpp. The hasher's size is 32 bytes.
use esphome_meshmesh.Prelude.{
  ℕ, suc, Bool, true, false, none, some, List, [], ◌∷◌, ◌++◌, ◌+◌, ◌*◌, ◌%◌, ◌^◌, length, take,
  drop, replicate, blit, ltb, ◌==◌, if◌then◌else◌, bit_and,
}
use esphome_meshmesh.Mesh.{sub32}
use esphome_meshmesh.Ota.State.{
  Platform, Ota, Run, done, fault, ◌>>=◌, sha256_hex_size, feature_sha256_auth,
}
use esphome_meshmesh.Ota.Rx.{rx_read, send_to_peer, send_error_and_cleanup, cleanup_auth}

abbrev pub nonce_len : ℕ
nonce_len = 8

abbrev pub auth_buf_size : ℕ
auth_buf_size = 1 + 3 * sha256_hex_size

module _ (P : Platform) where
  unfoldable pub select_auth_type : Ota → Bool × Ota
  select_auth_type s =
      if bit_and s.ota_features feature_sha256_auth == 0
      then (false, send_error_and_cleanup P s P.response.error_auth_invalid)
      else (true, record s { auth_type = P.response.request_sha256_auth })

  -- The buffer with the type byte and the nonce: the digest, in hexadecimal, of the random bytes.
  unfoldable pub challenge : ℕ → List ℕ → List ℕ
  challenge auth_type bytes =
      let buf = blit (replicate auth_buf_size 0) 1 bytes in
      blit (blit buf 0 (auth_type ∷ [])) 1 (P.sha256_hex (take nonce_len (drop 1 buf)))

  -- A new buffer with a challenge from fresh random bytes.
  unfoldable pub make_challenge : Ota → Bool × Ota
  make_challenge s =
      let buffered : Ota = record s {
        auth_buf = some (replicate auth_buf_size 0);
        auth_buf_pos = 0;
        turn = suc s.turn;
      } in
      elim (P.random_bytes s.turn) [
        | none ↦ (false, send_error_and_cleanup P buffered P.response.error_unknown)
        | some bytes ↦ (true, record buffered { auth_buf = some (challenge s.auth_type bytes) })
      ]

  -- `auth_buf` is made unless an earlier call has made it; `false` is a session given up.
  unfoldable pub prepare_auth : Ota → Bool × Ota
  prepare_auth s = elim s.auth_buf [
    | some buf ↦ (true, s)
    | none ↦
        let (selected, s') = select_auth_type s in
        if selected then make_challenge s' else (false, s')
  ]

  -- What `auth_buf_` points to; the pointer is dereferenced unchecked.
  abbrev pub auth_bytes : Ota → Run (List ℕ)
  auth_bytes s = elim s.auth_buf [ none ↦ fault | some buf ↦ done buf ]

  unfoldable pub send_challenge : Ota → Run (Bool × Ota)
  send_challenge s = do
    buf ← auth_bytes s
    let to_write = 1 + sha256_hex_size
    let remaining = sub32 to_write s.auth_buf_pos % 2 ^ 16
    let (sent, s') = send_to_peer P s (take remaining (drop s.auth_buf_pos buf))
    done (if sent then (true, record s' { auth_buf_pos = 0 }) else (false, s'))

  unfoldable pub handle_auth_send : Ota → Run (Bool × Ota)
  unfolding prepare_auth send_challenge
  handle_auth_send s =
      let (ready, s') = prepare_auth s in if ready then send_challenge s' else done (false, s')

  -- The digest over password, nonce and client nonce, against the response: `buf` is `auth_buf`.
  unfoldable pub response_matches : List ℕ → List ℕ → Bool
  response_matches password buf =
      let nonce = drop 1 buf in
      let response = drop (sha256_hex_size * 2) nonce in
      P.equals_hex (password ++ take (sha256_hex_size * 2) nonce) (take sha256_hex_size response)

  -- The decision once both texts of the peer are in.
  unfoldable pub check_response : Ota → List ℕ → Bool × Ota
  unfolding cleanup_auth
  check_response s buf =
      if response_matches s.password buf
      then (true, cleanup_auth s)
      else (false, send_error_and_cleanup P s P.response.error_auth_invalid)

  unfoldable pub handle_auth_read : Ota → Run (Bool × Ota)
  unfolding check_response
  handle_auth_read s = do
    buf ← auth_bytes s
    let to_read = sha256_hex_size * 2
    let cnonce_offset = 1 + sha256_hex_size
    let (got, s') = rx_read s (sub32 to_read s.auth_buf_pos)
    let buf' = blit buf (cnonce_offset + s.auth_buf_pos) got
    let pos = s.auth_buf_pos + length got
    let s'' = record s' { auth_buf = some buf'; auth_buf_pos = pos }
    done (
        if length got == 0
        then (false, s')
        else if ltb pos to_read
        then (false, s'')
        else check_response s'' buf')
