-- ===== src/Ota/Upload/Tests.antt =====
-- A small upload to components/meshmesh/ota/ota_meshmesh.cpp.
use esphome_meshmesh.Prelude.{◌≡◌, refl, arith, List, [], ◌∷◌, ◌++◌, replicate, false}
use esphome_meshmesh.Ota.State.{OtaState, Effect, Frame, Ota, done}
use esphome_meshmesh.Ota.Loop.{Event, pass, run}
use esphome_meshmesh.Ota.Invariant.{IsValid}
use esphome_meshmesh.Ota.Tests.{hub, bench, opened, from_hub}
use esphome_meshmesh.Ota.Upload.Setting.{Succeeds}
use esphome_meshmesh.Ota.Data.{size_of_bytes}
use esphome_meshmesh.Ota.Upload.Finish.{ending}
use esphome_meshmesh.Ota.Upload.Whole.{Rebooted, run-Rebooted}
use esphome_meshmesh.Ota.Upload.Pass.{Uploading}
use esphome_meshmesh.Ota.Upload.Update.{run-Updated}

-- The handshake is over; a size of four and a checksum wait.
abbrev greeted : Ota
greeted = record opened {
  ota_state = OtaState.data_auth_ok;
  rx_buf = 0 ∷ 0 ∷ 0 ∷ 4 ∷ replicate 32 b'c';
  update_started = false;
}

-- The image comes in two datagrams, before and after a pass.
abbrev datagrams : List Event
datagrams = from_hub (10 ∷ 20 ∷ []) ∷ pass ∷ from_hub (30 ∷ 40 ∷ []) ∷ pass ∷ []

abbrev last_ack : Frame
last_ack = record { from = hub; payload = 0 ∷ [] }

bench-Succeeds : Succeeds bench
bench-Succeeds = record {
  quiet = λ k. refl;
  sent = λ k to bytes. refl;
  begun_ok = λ k size. refl;
  written_ok = λ k bytes. refl;
  ended_ok = λ k. refl;
}

greeted-IsValid : IsValid greeted
greeted-IsValid = record { buffers = ground arith; phase = (refl, refl) }

run-Updated_example :
    (t : Ota) × (run bench 2 greeted (pass ∷ datagrams ++ ending last_ack) ≡ done t)
    × Rebooted bench greeted (10 ∷ 20 ∷ 30 ∷ 40 ∷ []) t
unfolding size_of_bytes
run-Updated_example =
    run-Updated bench bench-Succeeds 0 greeted datagrams last_ack greeted-IsValid
      (record { state = refl; socket = refl; peer_set = refl; backend_set = refl }) refl
      (omega arith) (omega arith)
      (
        refl,
        omega arith,
        omega arith,
        omega arith,
        (omega arith, (refl, omega arith, omega arith, omega arith, (omega arith, (refl, refl)))),
      )
      refl (omega arith) (omega arith) (λ k h. omega (arith, h))

-- An update of five bytes, the first of which waits.
abbrev begun : Ota
begun = record opened { rx_buf = 9 ∷ []; ota_size = 5; trace = Effect.begin_update 5 ∷ [] }

begun-Uploading : Uploading 1 0 begun
begun-Uploading = record {
  online = record { state = refl; socket = refl; peer_set = refl; backend_set = refl };
  valid = record {
    buffers = ground arith;
    phase =
        ((refl, refl), record { started = refl; size = refl; total = refl; within = omega arith });
  };
  paced = record {
    settled = ((λ h. refl), λ h. omega (arith, h));
    within = omega arith;
    no_wrap = omega arith;
    blocks_in = omega arith;
  };
  started = refl;
}

run-Rebooted_example :
    (t : Ota) × (run bench 2 begun (datagrams ++ ending last_ack) ≡ done t)
    × Rebooted bench begun (9 ∷ 10 ∷ 20 ∷ 30 ∷ 40 ∷ []) t
run-Rebooted_example =
    run-Rebooted bench bench-Succeeds 1 0 4 begun datagrams last_ack begun-Uploading refl
      (
        refl,
        omega arith,
        omega arith,
        omega arith,
        (omega arith, (refl, omega arith, omega arith, omega arith, (omega arith, (refl, refl)))),
      )
      refl (omega arith) (omega arith) (λ k h. omega (arith, h))
