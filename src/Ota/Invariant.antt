-- ===== src/Ota/Invariant.antt =====
-- The invariant of the OTA component (components/meshmesh/ota): what its fields hold in each state of
-- the session, and what its calls of the backend, seen as a trace, say of the update.
use esphome_meshmesh.Prelude.{
  ℕ, ◌+◌, ◌*◌, ◌^◌, ◌≤◌, ◌<◌, ◌≡◌, ◌⊎◌, Bool, true, false, none, some, List, [], ◌∷◌, ◌++◌, length,
}
use esphome_meshmesh.Ota.State.{
  OtaState, Effect, Ota, Run, done, blocked, fault, rx_ring_max, handshake_buf_size,
  ota_buffer_size, sha256_hex_size,
}
use esphome_meshmesh.Ota.Auth.{auth_buf_size}
use esphome_meshmesh.Ota.Queue.{contents, RxValid}

-- The bytes written to flash since the last `begin`.
abbrev pub written : List Effect → List ℕ
written [] = []
written (Effect.begin_update n ∷ t) = []
written (Effect.write_update b ∷ t) = written t ++ b
written (_ ∷ t) = written t

-- The size that the last `begin` announced.
abbrev pub announced : List Effect → ℕ
announced [] = 0
announced (Effect.begin_update n ∷ t) = n
announced (_ ∷ t) = announced t

-- The last call of the backend was `end`.
abbrev pub ended : List Effect → Bool
ended [] = false
ended (Effect.end_update ∷ t) = true
ended (Effect.datagram a b ∷ t) = ended t
ended (Effect.reboot ∷ t) = ended t
ended (_ ∷ t) = false

-- No write goes past the size announced, `end` is called when exactly that many bytes are written,
-- and the device reboots only right after `end`.
abbrev pub Sound : List Effect → Type 0
Sound [] = Unit {0}
Sound (Effect.write_update b ∷ t) = (length (written t) + length b ≤ announced t) × Sound t
Sound (Effect.end_update ∷ t) = (length (written t) ≡ announced t) × Sound t
Sound (Effect.reboot ∷ t) = (ended t ≡ true) × Sound t
Sound (_ ∷ t) = Sound t

-- The update that `begin` has opened.
pub record Begun (s : Ota) : Type 0 where
  pub started : s.update_started ≡ true
  pub size : announced s.trace ≡ s.ota_size
  pub total : length (written s.trace) ≡ s.firmware_total
  pub within : s.firmware_total ≤ s.ota_size

abbrev pub HasBackend : Ota → Type 0
HasBackend s = (s.has_peer ≡ true) × (s.backend ≡ true)

abbrev pub HasChallenge : Ota → Type 0
HasChallenge s = (buf : List ℕ) × (s.auth_buf ≡ some buf) × (length buf ≡ auth_buf_size)

-- What the state of the session says of the other fields.
abbrev pub Phase : OtaState → Ota → Type 0
Phase OtaState.idle s = (s.has_peer ≡ false) × (s.auth_buf ≡ none)
Phase OtaState.magic_read s = (s.has_peer ≡ true) × (s.handshake_buf_pos < 5) × (s.auth_buf ≡ none)
Phase OtaState.magic_ack s = (s.has_peer ≡ true) × (s.handshake_buf_pos ≡ 0) × (s.auth_buf ≡ none)
Phase OtaState.feature_read s = HasBackend s × (s.handshake_buf_pos ≡ 0) × (s.auth_buf ≡ none)
Phase OtaState.feature_ack s = HasBackend s × (s.handshake_buf_pos ≡ 0) × (s.auth_buf ≡ none)
Phase OtaState.auth_send s =
    HasBackend s × ((s.auth_buf ≡ none) ⊎ (HasChallenge s × (s.auth_buf_pos ≡ 0)))
Phase OtaState.auth_read s = HasBackend s × HasChallenge s × (s.auth_buf_pos < 2 * sha256_hex_size)
Phase OtaState.data_auth_ok s = HasBackend s
Phase OtaState.data_size s = HasBackend s
Phase OtaState.data_begin s = HasBackend s
Phase OtaState.data_prepare_ok s = HasBackend s × Begun s
Phase OtaState.data_md5 s = HasBackend s × Begun s
Phase OtaState.data_md5_ok s = HasBackend s × Begun s
Phase OtaState.data_firmware s = HasBackend s × Begun s
Phase OtaState.data_receive_ok s = HasBackend s × Begun s × (s.firmware_total ≡ s.ota_size)
Phase OtaState.data_end s = HasBackend s × Begun s × (s.firmware_total ≡ s.ota_size)
Phase OtaState.data_end_ok s = HasBackend s × (ended s.trace ≡ true)
Phase OtaState.data_final_ack s = HasBackend s × (ended s.trace ≡ true)
Phase OtaState.data_reboot s = HasBackend s × (ended s.trace ≡ true)

-- The buffers, whatever the state.
pub record Buffers (s : Ota) : Type 0 where
  pub rx : RxValid s
  pub rx_bound : length (contents s) ≤ rx_ring_max
  pub handshake : length s.handshake_buf ≡ handshake_buf_size
  pub data_len : length s.data_buf ≡ ota_buffer_size
  pub size_word : s.ota_size < 2 ^ 32
  pub sound : Sound s.trace

pub record IsValid (s : Ota) : Type 0 where
  pub buffers : Buffers s
  pub phase : Phase s.ota_state s

-- A step dereferences no null pointer, and what it returns is valid.
abbrev pub Safe : Run Ota → Type 0
Safe (done s) = IsValid s
Safe blocked = Unit {0}
Safe fault = ⊥
