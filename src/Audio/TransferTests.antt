-- ===== src/Audio/TransferTests.antt =====
-- A sample transfer buffer (components/audio/audio_transfer_buffer.cpp), and the theorems about it at
-- concrete inputs.
use esphome_meshmesh.Prelude.{
  take-take, ℕ, ◌≡◌, refl, ◌∙◌, subst, min, true, false, Option, some, none, List, [], ◌∷◌, ◌++◌,
  arith, length, take, replicate, length-take, length-append, length-replicate, take-append,
}
use esphome_meshmesh.Audio.Transfer.{
  TransferBuffer, contents, shift, free, pre_shifted, read_into, transfer_data_from_source,
  transfer_data_to_sink, increase_buffer_length, reallocate,
}
use esphome_meshmesh.Audio.Moving.{
  Fits, Leaves, Hands, transfer_data_from_source-Leaves, transfer_data_to_sink-Hands,
}
use esphome_meshmesh.Audio.Resizing.{Grows, reallocate-Leaves}

-- Eight bytes, of which two are used up and three wait.
abbrev block : List ℕ
block = 1 ∷ 2 ∷ 3 ∷ 4 ∷ 5 ∷ 0 ∷ 0 ∷ 0 ∷ []

abbrev buffer : TransferBuffer
buffer = record {
  ring_buffer = true;
  speaker = false;
  sink_callback = false;
  memory = some block;
  data_start = 2;
  buffer_size = 8;
  buffer_length = 3;
  sunk = [];
}

buffer-Fits : Fits buffer
buffer-Fits = record { room = refl; inside = omega arith; word = omega arith }

contents-transfer_data_from_source :
    contents (transfer_data_from_source (6 ∷ 7 ∷ 8 ∷ 9 ∷ []) true buffer).1
    ≡ 3 ∷ 4 ∷ 5 ∷ 6 ∷ 7 ∷ 8 ∷ 9 ∷ []
unfolding transfer_data_from_source pre_shifted shift read_into free increase_buffer_length
contents-transfer_data_from_source = refl

transfer_data_from_source-Leaves_example :
    Leaves (3 ∷ 4 ∷ 5 ∷ 6 ∷ 7 ∷ []) (transfer_data_from_source (6 ∷ 7 ∷ []) true buffer).1
unfolding pre_shifted shift free
transfer_data_from_source-Leaves_example =
    transfer_data_from_source-Leaves (6 ∷ 7 ∷ []) true buffer buffer-Fits refl (omega arith)

transfer_data_to_sink-Hands_example : Hands buffer (transfer_data_to_sink 2 true buffer).1
transfer_data_to_sink-Hands_example =
    transfer_data_to_sink-Hands 2 true buffer buffer-Fits (omega arith)

-- An allocator that fills up with zeros.
abbrev zero_filled : List ℕ → Option (List ℕ)
zero_filled old = some (take 6 (old ++ replicate 6 0))

zero_filled-Grows : Grows 6 zero_filled
zero_filled-Grows old new e =
    let q : take 6 (old ++ replicate 6 0) ≡ new = cc in
    subst
      (λ (b : List ℕ).
        (length b ≡ 6) × (take (min 6 (length old)) b ≡ take (min 6 (length old)) old))
      q
      (
        length-take 6 (old ++ replicate 6 0)
            ∙ omega (arith, length-append old (replicate 6 0), length-replicate {A = ℕ} 6 0),
        take-take (min 6 (length old)) 6 (old ++ replicate 6 0) (omega arith)
            ∙ take-append (min 6 (length old)) old (replicate 6 0) (omega arith),
      )

reallocate-Leaves_example : Leaves (3 ∷ 4 ∷ 5 ∷ []) (reallocate 6 none zero_filled buffer).1
reallocate-Leaves_example =
    reallocate-Leaves 6 none zero_filled buffer block buffer-Fits refl (omega arith) (omega arith)
      zero_filled-Grows
