-- ===== src/Audio/Const.antt =====
-- `ConstAudioSourceBuffer`, the sources and sinks of the transfer buffers, and the ends of the buffers
-- (components/audio/audio_transfer_buffer.cpp, audio_transfer_buffer.h).
use esphome_meshmesh.Prelude.{
  ltb, take, drop, take-nil, ℕ, zero, suc, ◌-◌, ◌≤◌, min, ◌≡◌, refl, ap, ◌∙◌, Bool, List, [], ◌∷◌,
  ◌++◌, append_assoc, arith,
}
use esphome_meshmesh.Audio.Source.{Source, drop_item}
use esphome_meshmesh.Audio.Transfer.{TransferBuffer, deallocate_buffer}

-- `rest` holds the bytes from `data_start_` on.
pub record ConstAudioSourceBuffer : Type 0 where
  pub rest : List ℕ
  pub available : ℕ

unfoldable pub set_data : List ℕ → ℕ → ConstAudioSourceBuffer → ConstAudioSourceBuffer
set_data bytes n s = record { rest = bytes; available = n }

unfoldable pub const_consume : ℕ → ConstAudioSourceBuffer → ConstAudioSourceBuffer
const_consume bytes s =
    let n = min bytes s.available in record { rest = drop n s.rest; available = s.available - n }

unfoldable pub const_has_buffered_data : ConstAudioSourceBuffer → Bool
const_has_buffered_data s = ltb 0 s.available

-- The setters. A weak pointer gives the ring buffer while it is alive.
unfoldable pub set_source : Bool → TransferBuffer → TransferBuffer
set_source alive s = record s { ring_buffer = alive }

unfoldable pub set_sink : Bool → TransferBuffer → TransferBuffer
set_sink alive s = record s { ring_buffer = alive }

unfoldable pub set_sink_speaker : Bool → TransferBuffer → TransferBuffer
set_sink_speaker present s = record s { speaker = present }

unfoldable pub set_sink_callback : Bool → TransferBuffer → TransferBuffer
set_sink_callback present s = record s { sink_callback = present }

-- The buffer, and whether the ring buffer is reset and the speaker stopped.
unfoldable pub sink_clear_buffered_data : TransferBuffer → TransferBuffer × (Bool × Bool)
sink_clear_buffered_data s = (record s { buffer_length = 0 }, (s.ring_buffer, s.speaker))

unfoldable pub destroy_transfer_buffer : TransferBuffer → TransferBuffer
destroy_transfer_buffer s = deallocate_buffer s

-- An item that is still held goes back to the ring buffer.
unfoldable pub destroy_source : Source → Source
destroy_source s = drop_item s.acquired_item s

-- The bytes that are left to read.
abbrev pub left : ConstAudioSourceBuffer → List ℕ
left s = take s.available s.rest

-- Reading some bytes at a time: what is read, and what is left.
abbrev pub const_reads : List ℕ → ConstAudioSourceBuffer → List ℕ × ConstAudioSourceBuffer
const_reads [] s = ([], s)
const_reads (n ∷ ns) s =
    let r = const_reads ns (const_consume n s) in (take (min n s.available) s.rest ++ r.0, r.1)

take_split :
    {A : Type 0} (m n : ℕ) (xs : List A) → m ≤ n → take m xs ++ take (n - m) (drop m xs) ≡ take n xs
take_split zero n xs h = ap (λ (k : ℕ). take k xs) (omega arith)
take_split (suc m) zero xs h = absurd (omega arith)
take_split (suc m) (suc n) [] h = take-nil (suc n - suc m)
take_split (suc m) (suc n) (x ∷ xs) h =
    let e : suc n - suc m ≡ n - m = omega arith in
    ap (λ k. x ∷ k)
      (ap (λ (j : ℕ). take m xs ++ take j (drop m xs)) e ∙ take_split m n xs (omega arith))

-- However the reads are cut, what is read followed by what is left is what was there.
pub const_reads-left :
    (ns : List ℕ) (s : ConstAudioSourceBuffer)
    → (const_reads ns s).0 ++ left (const_reads ns s).1 ≡ left s
unfolding const_consume
const_reads-left [] s = refl
const_reads-left (n ∷ ns) s =
    let m = min n s.available in
    append_assoc (take m s.rest) _ _
    ∙ ap (λ k. take m s.rest ++ k) (const_reads-left ns (const_consume n s))
    ∙ take_split m s.available s.rest (omega arith)
