-- ===== src/Audio/Tests.antt =====
-- A sample source (components/audio/audio_transfer_buffer.cpp) with frames of four bytes, and the
-- theorems about it at concrete inputs.
use esphome_meshmesh.Prelude.{ℕ, ◌≡◌, refl, inl, some, none, List, [], ◌∷◌, ◌++◌, arith}
use esphome_meshmesh.Audio.Source.{
  nowhere, Source, consume, release_item, release_held, save_trailing, trailing_of, aligned_of,
  hold, absorb, expose_splice, expose_chunk, acquire, fill,
}
use esphome_meshmesh.Audio.Stream.{contents, IsValid}
use esphome_meshmesh.Audio.Reading.{Consumes, consume-Consumes}
use esphome_meshmesh.Audio.Filling.{TakesIn}
use esphome_meshmesh.Audio.Refill.{Reports, fill-TakesIn, fill-Reports}
use esphome_meshmesh.Audio.Runs.{Step, refill, use_up, run, run-output}

abbrev memory : List ℕ
memory = 0 ∷ 0 ∷ 0 ∷ 0 ∷ 0 ∷ 0 ∷ 0 ∷ 0 ∷ []

abbrev source : Source
source = record {
  max_fill_bytes = 1024;
  acquired_item = none;
  current_data = nowhere;
  item_trailing_ptr = nowhere;
  queued_data = nowhere;
  splice_buffer = memory;
  current_available = 0;
  queued_length = 0;
  alignment_bytes = 4;
  item_trailing_length = 0;
  splice_length = 0;
  calls = [];
}

source-IsValid : IsValid source
source-IsValid = record {
  align_pos = omega arith;
  align_max = omega arith;
  splice_room = refl;
  exposed_in = refl;
  queued_in = refl;
  trailing_in = refl;
  trailing_small = omega arith;
  splice_small = omega arith;
  queued_whole = (0, refl);
  unheld = λ e. refl;
  alone = inl refl;
}

-- A frame is cut by the end of the first chunk and joined with the head of the second.
abbrev steps : List Step
steps =
    refill (some (1 ∷ 2 ∷ 3 ∷ 4 ∷ 5 ∷ 6 ∷ []))
    ∷ use_up 4
    ∷ refill (some (7 ∷ 8 ∷ 9 ∷ 10 ∷ 11 ∷ 12 ∷ 13 ∷ []))
    ∷ use_up 4
    ∷ refill none
    ∷ use_up 3
    ∷ []

run-steps : (run steps source).output ≡ 1 ∷ 2 ∷ 3 ∷ 4 ∷ 5 ∷ 6 ∷ 7 ∷ 8 ∷ 9 ∷ 10 ∷ 11 ∷ []
unfolding run fill acquire expose_chunk expose_splice hold absorb aligned_of trailing_of consume
    release_item release_held save_trailing
run-steps = refl

run-output_example :
    ((run steps source).output ++ contents (run steps source).final ≡ (run steps source).input)
    × IsValid (run steps source).final
run-output_example = run-output steps source source-IsValid

consume-Consumes_example : Consumes 3 source (consume 3 source)
consume-Consumes_example = consume-Consumes 3 source source-IsValid

fill-TakesIn_example : TakesIn (1 ∷ 2 ∷ []) source (fill (some (1 ∷ 2 ∷ [])) source).1
fill-TakesIn_example = fill-TakesIn (some (1 ∷ 2 ∷ [])) source source-IsValid

fill-Reports_example : Reports 4 (fill (some (1 ∷ 2 ∷ 3 ∷ 4 ∷ 5 ∷ [])) source)
fill-Reports_example = fill-Reports (some (1 ∷ 2 ∷ 3 ∷ 4 ∷ 5 ∷ [])) source source-IsValid
