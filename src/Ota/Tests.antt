-- ===== src/Ota/Tests.antt =====
-- Sample sessions of the OTA component (components/meshmesh/ota/ota_meshmesh.cpp), and the theorems
-- about it at concrete inputs.
use esphome_meshmesh.Prelude.{
  ℕ, ◌*◌, ◌≡◌, refl, inl, Bool, true, false, none, some, List, [], ◌∷◌, ◌++◌, arith, take,
  replicate, bytes_eq,
}
use esphome_meshmesh.Mesh.{MeshAddress}
use esphome_meshmesh.Ota.State.{OtaState, Effect, Platform, Responses, Ota, Run, done, fresh}
use esphome_meshmesh.Ota.Rx.{
  rx_available, rx_advance, rx_read, rx_append, transition_ota_state, cleanup_auth, send_to_peer,
  check_timeout, cleanup_session, handle_frame, try_read, try_write,
}
use esphome_meshmesh.Ota.Handshake.{
  auth_read, enter_data_phase, feature_ack, feature_answer, feature_read, magic_ack, magic_read,
  handle_handshake,
}
use esphome_meshmesh.Ota.Data.{
  readall, write_byte, data_reboot, data_final_ack, data_end_ok, data_end, data_receive_ok,
  chunk_due, acknowledge_chunks, report_progress, flash, requested, data_firmware, data_md5_ok,
  md5_received, data_md5, data_prepare_ok, data_begin, size_of_bytes, size_received, data_size,
  data_auth_ok, handle_data_step,
}
use esphome_meshmesh.Ota.Loop.{
  setup, start_session, session_step, loop, Event, receive, pass, step, run,
}
use esphome_meshmesh.Ota.Queue.{Reads, rx_read_lem}
use esphome_meshmesh.Ota.Invariant.{Safe, IsValid, Buffers}
use esphome_meshmesh.Ota.HandshakeSafe.{At}
use esphome_meshmesh.Ota.Chunks.{Acknowledged, acknowledge_chunks_lem}
use esphome_meshmesh.Ota.Firmware.{Passes}
use esphome_meshmesh.Ota.Deadline.{readall-Returns}
use esphome_meshmesh.Ota.Transfer.{data_firmware_lem}
use esphome_meshmesh.Ota.Access.{Judges, Locked, auth_read-Judges, handle_handshake-Locked}
use esphome_meshmesh.Ota.Safety.{fresh-IsValid, setup-IsValid, run-Safe}

abbrev pub hub : MeshAddress
hub = record { port = 0xA5; address = 0x112233; repeaters = []; source_protocol = 0 }

abbrev nobody : MeshAddress
nobody = record { port = 0; address = 0; repeaters = []; source_protocol = 0 }

abbrev responses : Responses
responses = record {
  ok = 0x00;
  request_sha256_auth = 0x02;
  header_ok = 0x40;
  auth_ok = 0x41;
  update_prepare_ok = 0x42;
  bin_md5_ok = 0x43;
  receive_ok = 0x44;
  update_end_ok = 0x45;
  supports_compression = 0x46;
  chunk_ok = 0x47;
  error_magic = 0x80;
  error_auth_invalid = 0x82;
  error_unknown = 0xFF;
}

-- A platform on which all goes well and one call takes a millisecond.
abbrev pub bench : Platform
bench = record {
  response = responses;
  version = 2;
  no_address = nobody;
  sends = λ k to bytes. true;
  millis = λ k. k;
  arrivals = λ k. [];
  can_decompress = true;
  begin_code = λ k n. 0;
  write_code = λ k b. 0;
  end_code = λ k. 0;
  random_bytes = λ k. some (1 ∷ 2 ∷ 3 ∷ 4 ∷ 5 ∷ 6 ∷ 7 ∷ 8 ∷ []);
  sha256_hex = λ b. replicate 64 b'a';
  equals_hex = λ text hex. bytes_eq (take 4 text) (take 4 hex);
}

abbrev magic : List ℕ
magic = 0x6C ∷ 0x26 ∷ 0xF7 ∷ 0x5C ∷ 0x45 ∷ []

abbrev pub from_hub : List ℕ → Event
from_hub bytes = receive (record { from = hub; payload = bytes })

-- Magic and features, size 3, checksum, three bytes of firmware, the final acknowledgement.
abbrev session : List Event
session =
    from_hub magic
    ∷ from_hub (0x01 ∷ [])
    ∷ pass
    ∷ from_hub (0 ∷ 0 ∷ 0 ∷ 3 ∷ [])
    ∷ from_hub (replicate 32 b'c')
    ∷ pass
    ∷ from_hub (10 ∷ 20 ∷ 30 ∷ [])
    ∷ pass
    ∷ pass
    ∷ pass
    ∷ from_hub (0 ∷ [])
    ∷ pass
    ∷ []

abbrev to_hub : List ℕ → Effect
to_hub bytes = Effect.datagram hub bytes

abbrev trace_of : Run Ota → List Effect
trace_of (done s) = s.trace
trace_of _ = []

-- The whole exchange, the newest effect first.
session_trace :
    trace_of (run bench 10 (setup (fresh bench [])) session)
    ≡ Effect.reboot
      ∷ to_hub (0x45 ∷ [])
      ∷ Effect.end_update
      ∷ to_hub (0x44 ∷ [])
      ∷ to_hub (0x47 ∷ [])
      ∷ Effect.write_update (10 ∷ 20 ∷ 30 ∷ [])
      ∷ to_hub (0x43 ∷ [])
      ∷ Effect.set_md5 (replicate 32 b'c')
      ∷ to_hub (0x42 ∷ [])
      ∷ Effect.begin_update 3
      ∷ to_hub (0x41 ∷ [])
      ∷ to_hub (0x46 ∷ [])
      ∷ Effect.make_backend
      ∷ to_hub (0 ∷ 2 ∷ [])
      ∷ []
unfolding run step loop session_step start_session setup fresh handle_frame handle_handshake
    magic_read magic_ack feature_read feature_ack feature_answer enter_data_phase try_read try_write
    send_to_peer rx_read rx_advance rx_available rx_append transition_ota_state check_timeout
    handle_data_step data_auth_ok data_size size_received size_of_bytes readall data_begin
    data_prepare_ok data_md5 md5_received data_md5_ok data_firmware requested flash
    acknowledge_chunks chunk_due report_progress write_byte data_receive_ok data_end data_end_ok
    data_final_ack data_reboot cleanup_session cleanup_auth bytes_eq
session_trace = refl

abbrev started : Ota
started = setup (fresh bench (b'p' ∷ b'w' ∷ []))

started-IsValid : IsValid started
started-IsValid =
    setup-IsValid (fresh bench (b'p' ∷ b'w' ∷ [])) (fresh-IsValid bench (b'p' ∷ b'w' ∷ []))

run-Safe_example : Safe (run bench 10 started session)
run-Safe_example = run-Safe bench (λ k. omega arith) 10 started session started-IsValid

-- A session with the hub that holds a backend, for the states below.
abbrev pub opened : Ota
opened = record {
  socket_open = true;
  peer = hub;
  has_peer = true;
  rx_buf = [];
  rx_read_pos = 0;
  handshake_buf = replicate 128 0;
  handshake_buf_pos = 0;
  ota_state = OtaState.data_firmware;
  ota_features = 2;
  backend = true;
  session_start_ms = 0;
  data_phase_start_ms = 0;
  last_progress_ms = 0;
  ota_size = 0;
  firmware_total = 0;
  size_acknowledged = 0;
  update_started = true;
  data_buf = replicate 1024 0;
  password = b'p' ∷ b'w' ∷ [];
  auth_buf = none;
  auth_buf_pos = 0;
  auth_type = 0;
  turn = 0;
  trace = [];
}

-- Three bytes wait behind two that are read, of an update of four bytes.
abbrev flashing : Ota
flashing = record opened {
  rx_buf = 1 ∷ 2 ∷ 3 ∷ 4 ∷ 5 ∷ [];
  rx_read_pos = 2;
  ota_size = 4;
  trace = Effect.begin_update 4 ∷ [];
}

flashing-Buffers : Buffers flashing
flashing-Buffers = ground arith

rx_read_lem_example : Reads flashing 2 (rx_read flashing 2).0 (rx_read flashing 2).1
rx_read_lem_example = rx_read_lem flashing 2 (omega arith)

rx_read_two : (rx_read flashing 2).0 ≡ 3 ∷ 4 ∷ []
unfolding rx_read rx_available
rx_read_two = refl

data_firmware_lem_example :
    (t : Ota) × (data_firmware bench 2 flashing ≡ done t) × Passes bench flashing t
data_firmware_lem_example =
    data_firmware_lem bench 1 flashing 0 (λ k. refl) flashing-Buffers refl
      (record {
        whole = omega arith;
        behind = inl (omega arith);
        within = omega arith;
        no_wrap = omega arith;
      })
      (omega arith)

-- A platform whose calls take a second each.
abbrev slow_bench : Platform
slow_bench = record bench { millis = λ k. k * 1000 }

readall-Returns_example :
    (b : Bool) × (t : Ota) × (readall slow_bench 200 flashing 0 32 ≡ done (b, t))
readall-Returns_example =
    readall-Returns slow_bench 200 flashing 0 32 0 91 (λ k. omega arith) flashing-Buffers
      (record { phase = omega arith; started = refl }) (omega arith) (omega arith) (omega arith)
      (omega arith)

-- 20000 bytes, all written, and none acknowledged yet: three acknowledgements are due.
abbrev unacknowledged : Ota
unacknowledged = record opened { ota_size = 20000; firmware_total = 20000 }

acknowledge_chunks_lem_example :
    (b : Bool) × (t : Ota) × (acknowledge_chunks bench 4 unacknowledged ≡ done (b, t))
    × Acknowledged bench unacknowledged b t
acknowledge_chunks_lem_example =
    acknowledge_chunks_lem bench 3 unacknowledged 0
      (record {
        whole = omega arith;
        behind = inl (omega arith);
        within = omega arith;
        no_wrap = omega arith;
      })
      (omega arith)

-- The challenge is out and the whole response is in.
abbrev responding : Ota
responding = record opened {
  ota_state = OtaState.auth_read;
  auth_buf = some (replicate 193 b'a');
  rx_buf = replicate 64 b'c' ++ (b'p' ∷ b'w' ∷ replicate 62 b'a');
  update_started = false;
}

responding-At : At OtaState.auth_read responding
responding-At = record {
  state = refl;
  buffers = ground arith;
  phase = ((refl, refl), (replicate 193 b'a', refl, refl), omega arith);
}

auth_read-Judges_example :
    (t : Ota) × (auth_read bench responding ≡ done t)
    × Judges bench responding (replicate 193 b'a') t
auth_read-Judges_example = auth_read-Judges bench responding (replicate 193 b'a') responding-At refl

-- A session whose magic number is in.
abbrev greeting : Ota
greeting = record opened { ota_state = OtaState.magic_read; backend = false; rx_buf = magic }

handle_handshake-Locked_example : Locked bench (handle_handshake bench greeting)
handle_handshake-Locked_example =
    handle_handshake-Locked bench greeting
      (record { buffers = ground arith; phase = (refl, omega arith, refl) }) (omega arith)
      (omega arith)
