-- ===== src/Ota/State.antt =====
-- The state of `MeshmeshOtaComponent` (components/meshmesh/ota/ota_meshmesh.h), and the platform that
-- it runs on: the mesh socket, the clock, the OTA backend, the random source and SHA-256.
use esphome_meshmesh.Prelude.{ℕ, suc, Bool, false, true, Option, none, List, [], ◌∷◌, replicate}
use esphome_meshmesh.Mesh.{MeshAddress}

pub data OtaState : Type 0 where
  idle magic_read magic_ack feature_read feature_ack auth_send auth_read : OtaState
  data_auth_ok data_size data_begin data_prepare_ok data_md5 data_md5_ok : OtaState
  data_firmware data_receive_ok data_end data_end_ok data_final_ack data_reboot : OtaState

-- The value of the enumeration constant, which the code compares by `<`.
abbrev pub ordinal : OtaState → ℕ
ordinal OtaState.idle = 0
ordinal OtaState.magic_read = 1
ordinal OtaState.magic_ack = 2
ordinal OtaState.feature_read = 3
ordinal OtaState.feature_ack = 4
ordinal OtaState.auth_send = 5
ordinal OtaState.auth_read = 6
ordinal OtaState.data_auth_ok = 7
ordinal OtaState.data_size = 8
ordinal OtaState.data_begin = 9
ordinal OtaState.data_prepare_ok = 10
ordinal OtaState.data_md5 = 11
ordinal OtaState.data_md5_ok = 12
ordinal OtaState.data_firmware = 13
ordinal OtaState.data_receive_ok = 14
ordinal OtaState.data_end = 15
ordinal OtaState.data_end_ok = 16
ordinal OtaState.data_final_ack = 17
ordinal OtaState.data_reboot = 18

-- What the component has done to the world, newest first.
pub data Effect : Type 0 where
  datagram : MeshAddress → List ℕ → Effect
  make_backend : Effect
  begin_update : ℕ → Effect
  set_md5 : List ℕ → Effect
  write_update : List ℕ → Effect
  end_update : Effect
  abort_update : Effect
  reboot : Effect

pub record Frame : Type 0 where
  pub from : MeshAddress
  pub payload : List ℕ

-- `ota::OTAResponseTypes` as bytes.
pub record Responses : Type 0 where
  pub ok : ℕ
  pub request_sha256_auth : ℕ
  pub header_ok : ℕ
  pub auth_ok : ℕ
  pub update_prepare_ok : ℕ
  pub bin_md5_ok : ℕ
  pub receive_ok : ℕ
  pub update_end_ok : ℕ
  pub supports_compression : ℕ
  pub chunk_ok : ℕ
  pub error_magic : ℕ
  pub error_auth_invalid : ℕ
  pub error_unknown : ℕ

-- The code that the component calls and does not contain. What an outside call answers may change
-- from one call to the next: it depends on the number of outside calls made before it.
pub record Platform : Type 0 where
  pub response : Responses
  pub version : ℕ
  pub no_address : MeshAddress
  -- `sendDatagram` returns no negative code
  pub sends : ℕ → MeshAddress → List ℕ → Bool
  pub millis : ℕ → ℕ
  -- the datagrams that one pass of the mesh loop delivers
  pub arrivals : ℕ → List Frame
  pub can_decompress : Bool
  pub begin_code : ℕ → ℕ → ℕ
  pub write_code : ℕ → List ℕ → ℕ
  pub end_code : ℕ → ℕ
  pub random_bytes : ℕ → Option (List ℕ)
  -- the hexadecimal digest of a text, and `equals_hex` of the hasher that has read it
  pub sha256_hex : List ℕ → List ℕ
  pub equals_hex : List ℕ → List ℕ → Bool

pub record Ota : Type 0 where
  pub socket_open : Bool
  pub peer : MeshAddress
  pub has_peer : Bool
  pub rx_buf : List ℕ
  pub rx_read_pos : ℕ
  pub handshake_buf : List ℕ
  pub handshake_buf_pos : ℕ
  pub ota_state : OtaState
  pub ota_features : ℕ
  -- the pointer `backend_` is set
  pub backend : Bool
  pub session_start_ms : ℕ
  pub data_phase_start_ms : ℕ
  pub last_progress_ms : ℕ
  pub ota_size : ℕ
  pub firmware_total : ℕ
  pub size_acknowledged : ℕ
  pub update_started : Bool
  pub data_buf : List ℕ
  pub password : List ℕ
  pub auth_buf : Option (List ℕ)
  pub auth_buf_pos : ℕ
  pub auth_type : ℕ
  -- outside calls made so far, and the trace of effects
  pub turn : ℕ
  pub trace : List Effect

abbrev pub ota_port : ℕ
ota_port = 0xA5

abbrev pub ota_block_size : ℕ
ota_block_size = 8192

abbrev pub ota_buffer_size : ℕ
ota_buffer_size = 1024

abbrev pub handshake_timeout_ms : ℕ
handshake_timeout_ms = 20000

abbrev pub data_timeout_ms : ℕ
data_timeout_ms = 90000

abbrev pub rx_ring_max : ℕ
rx_ring_max = 8192

abbrev pub handshake_buf_size : ℕ
handshake_buf_size = 128

abbrev pub sha256_hex_size : ℕ
sha256_hex_size = 64

abbrev pub feature_compression : ℕ
feature_compression = 0x01

abbrev pub feature_sha256_auth : ℕ
feature_sha256_auth = 0x02

-- A call of the code outside, recorded.
abbrev pub act : Effect → Ota → Ota
act e s = record s { turn = suc s.turn; trace = e ∷ s.trace }

-- The object as constructed, with the socket that `setup` opens.
unfoldable pub fresh : Platform → List ℕ → Ota
fresh P password = record {
  socket_open = true;
  peer = P.no_address;
  has_peer = false;
  rx_buf = [];
  rx_read_pos = 0;
  handshake_buf = replicate handshake_buf_size 0;
  handshake_buf_pos = 0;
  ota_state = OtaState.idle;
  ota_features = 0;
  backend = false;
  session_start_ms = 0;
  data_phase_start_ms = 0;
  last_progress_ms = 0;
  ota_size = 0;
  firmware_total = 0;
  size_acknowledged = 0;
  update_started = false;
  data_buf = replicate ota_buffer_size 0;
  password = password;
  auth_buf = none;
  auth_buf_pos = 0;
  auth_type = 0;
  turn = 0;
  trace = [];
}

-- A step returns, waits still when its fuel is spent, or dereferences a null pointer.
pub data Run {ℓ} (A : Type ℓ) : Type ℓ where
  done : A → Run A
  blocked : Run A
  fault : Run A

infixl 5 ◌>>=◌
abbrev pub ◌>>=◌ {ℓ κ} : {A : Type ℓ} {B : Type κ} → Run A → (A → Run B) → Run B
done a >>= f = f a
blocked >>= f = blocked
fault >>= f = fault
