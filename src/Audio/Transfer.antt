-- ===== src/Audio/Transfer.antt =====
-- `AudioTransferBuffer`, its source and its sink, of
-- components/audio/audio_transfer_buffer.cpp. `data_start` is the offset from the buffer's start.
-- The answers of the allocator, of the ring buffer and of the sinks are arguments.
use esphome_meshmesh.Prelude.{
  ℕ, ◌+◌, Bool, true, false, not, ◌&&◌, ◌||◌, Option, none, some, List, [], ◌∷◌, length, take, drop,
  blit, ltb, ◌==◌, if◌then◌else◌,
}
use esphome_meshmesh.Mesh.{sub32, add32}

-- `memory` is what `buffer_` points to, and `none` the null pointer. `sunk` holds what the sinks have
-- taken, the newest piece first.
pub record TransferBuffer : Type 0 where
  pub ring_buffer : Bool
  pub speaker : Bool
  pub sink_callback : Bool
  pub memory : Option (List ℕ)
  pub data_start : ℕ
  pub buffer_size : ℕ
  pub buffer_length : ℕ
  pub sunk : List (List ℕ)

abbrev pub bytes_of : Option (List ℕ) → List ℕ
bytes_of none = []
bytes_of (some b) = b

unfoldable pub fresh : TransferBuffer
fresh = record {
  ring_buffer = false;
  speaker = false;
  sink_callback = false;
  memory = none;
  data_start = 0;
  buffer_size = 0;
  buffer_length = 0;
  sunk = [];
}

-- The allocator answers a null pointer or a block.
unfoldable pub allocate_buffer : ℕ → Option (List ℕ) → TransferBuffer → Bool × TransferBuffer
allocate_buffer size none s = (false, record s { buffer_size = size; memory = none })
allocate_buffer size (some b) s =
    (true, record s { buffer_size = size; memory = some b; data_start = 0; buffer_length = 0 })

unfoldable pub create : ℕ → Option (List ℕ) → Option TransferBuffer
create size answer = let (ok, s) = allocate_buffer size answer fresh in if ok then some s else none

unfoldable pub deallocate_buffer : TransferBuffer → TransferBuffer
deallocate_buffer s = record s { memory = none; data_start = 0; buffer_size = 0; buffer_length = 0 }

unfoldable pub free : TransferBuffer → ℕ
free s = if s.buffer_size == 0 then 0 else sub32 s.buffer_size (add32 s.buffer_length s.data_start)

unfoldable pub decrease_buffer_length : ℕ → TransferBuffer → TransferBuffer
decrease_buffer_length bytes s =
    let rest = sub32 s.buffer_length bytes in
    if ltb 0 rest
    then record s { buffer_length = rest; data_start = add32 s.data_start bytes }
    else record s { buffer_length = rest; data_start = 0 }

unfoldable pub increase_buffer_length : ℕ → TransferBuffer → TransferBuffer
increase_buffer_length bytes s = record s { buffer_length = add32 s.buffer_length bytes }

-- The part of `clear_buffered_data` that is the buffer's own.
unfoldable pub clear_buffered_data : TransferBuffer → TransferBuffer
clear_buffered_data s = record s { buffer_length = 0 }

-- `in_ring` and `in_speaker`: the ring buffer, or the speaker, has bytes.
unfoldable pub has_buffered_data : Bool → TransferBuffer → Bool
has_buffered_data in_ring s = (s.ring_buffer && in_ring) || ltb 0 s.buffer_length

unfoldable pub sink_has_buffered_data : Bool → Bool → TransferBuffer → Bool
sink_has_buffered_data in_speaker in_ring s =
    if s.speaker then in_speaker || ltb 0 s.buffer_length else has_buffered_data in_ring s

-- The bytes that wait.
abbrev pub contents : TransferBuffer → List ℕ
contents s = take s.buffer_length (drop s.data_start (bytes_of s.memory))

-- Bytes stored at an offset.
abbrev pub store : ℕ → List ℕ → Option (List ℕ) → Option (List ℕ)
store at bytes none = none
store at bytes (some b) = some (blit b at bytes)

-- `memmove` of the bytes that wait to the start.
unfoldable pub shift : TransferBuffer → TransferBuffer
shift s = record s { memory = store 0 (contents s) s.memory; data_start = 0 }

-- The bytes that wait are moved to the start, unless they are there or there are none.
unfoldable pub to_start : TransferBuffer → TransferBuffer
to_start s = if ltb 0 s.buffer_length && not (s.data_start == 0) then shift s else s

-- What follows the answer of the allocator: a null pointer, or the block grown. A null pointer leaves
-- the old block as it is, unless the size asked for is 0: then the allocator has freed it, no byte of
-- it is there any more, and the pointer dangles.
unfoldable pub regrown : ℕ → Option (List ℕ) → TransferBuffer → Bool × TransferBuffer
regrown size none s = (false, if size == 0 then record s { memory = some [] } else s)
regrown size (some b) s = (true, record s { memory = some b; data_start = 0; buffer_size = size })

-- The test for a null pointer.
abbrev pub by_block :
    Option (List ℕ) → Bool × TransferBuffer → Bool × TransferBuffer → Bool × TransferBuffer
by_block none x y = x
by_block (some b) x y = y

-- The block that is there is grown, if what waits still fits.
unfoldable pub reallocate_block :
    ℕ → (List ℕ → Option (List ℕ)) → TransferBuffer → Bool × TransferBuffer
reallocate_block size grown s =
    let t = to_start s in
    if ltb size s.buffer_length then (false, s) else regrown size (grown (bytes_of t.memory)) t

-- `answer` is what the allocator gives where there is no block yet, `grown` what it makes of one.
unfoldable pub reallocate :
    ℕ → Option (List ℕ) → (List ℕ → Option (List ℕ)) → TransferBuffer → Bool × TransferBuffer
reallocate size answer grown s =
    by_block s.memory (allocate_buffer size answer s) (reallocate_block size grown s)

unfoldable pub pre_shifted : Bool → TransferBuffer → TransferBuffer
pre_shifted true s = if ltb 0 s.buffer_length then shift s else record s { data_start = 0 }
pre_shifted false s = s

-- `got` is what the ring buffer, where there is one, puts at the end of the buffer.
unfoldable pub read_into : List ℕ → TransferBuffer → ℕ × TransferBuffer
read_into got s =
    let stored = record s { memory = store (s.data_start + s.buffer_length) got s.memory } in
    if ltb 0 (free s)
    then (if s.ring_buffer
        then (length got, increase_buffer_length (length got) stored)
        else (0, increase_buffer_length 0 s))
    else (0, s)

unfoldable pub transfer_data_from_source : List ℕ → Bool → TransferBuffer → ℕ × TransferBuffer
transfer_data_from_source got pre_shift s = read_into got (pre_shifted pre_shift s)

-- `written`: how many bytes the sink takes, asked for only where there is one.
unfoldable pub write_out : ℕ → TransferBuffer → ℕ × TransferBuffer
write_out written s =
    let n = if s.speaker || s.ring_buffer || s.sink_callback then written else 0 in
    if ltb 0 s.buffer_length
    then (n, decrease_buffer_length n (record s { sunk = take n (contents s) ∷ s.sunk }))
    else (0, s)

unfoldable pub transfer_data_to_sink : ℕ → Bool → TransferBuffer → ℕ × TransferBuffer
transfer_data_to_sink written post_shift s =
    let (n, s') = write_out written s in (n, if post_shift then shift s' else s')
