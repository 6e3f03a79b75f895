-- ===== src/Audio/Source.antt =====
-- `RingBufferAudioSource` of components/audio/audio_transfer_buffer.cpp. A pointer is a place: an
-- offset into the splice buffer or into the item held. The ring buffer is code outside: what
-- `receive_acquire` answers is an argument, and the calls made of it are recorded.
use esphome_meshmesh.Prelude.{
  ℕ, ◌+◌, ◌-◌, ◌%◌, ◌^◌, min, Bool, ◌&&◌, ◌||◌, Option, none, some, List, [], ◌∷◌, length, take,
  drop, blit, ltb, ◌==◌, if◌then◌else◌,
}

-- A pointer.
pub data Place : Type 0 where
  nowhere : Place
  in_splice in_item : ℕ → Place

-- Calls of the ring buffer.
pub data Call : Type 0 where
  receive_acquire receive_release reset : Call

pub record Source : Type 0 where
  pub max_fill_bytes : ℕ
  pub acquired_item : Option (List ℕ)
  pub current_data : Place
  pub item_trailing_ptr : Place
  pub queued_data : Place
  pub splice_buffer : List ℕ
  pub current_available : ℕ
  pub queued_length : ℕ
  pub alignment_bytes : ℕ
  pub item_trailing_length : ℕ
  pub splice_length : ℕ
  pub calls : List Call

abbrev pub max_alignment_bytes : ℕ
max_alignment_bytes = 8

abbrev pub call : Call → Source → Source
call c s = record s { calls = c ∷ s.calls }

-- The splice buffer holds what memory held before.
unfoldable pub make : List ℕ → ℕ → ℕ → Source
make memory max_fill_bytes alignment_bytes = record {
  max_fill_bytes = max_fill_bytes;
  acquired_item = none;
  current_data = nowhere;
  item_trailing_ptr = nowhere;
  queued_data = nowhere;
  splice_buffer = memory;
  current_available = 0;
  queued_length = 0;
  alignment_bytes = alignment_bytes;
  item_trailing_length = 0;
  splice_length = 0;
  calls = [];
}

-- `has_ring`: the ring buffer is not null.
unfoldable pub create : Bool → List ℕ → ℕ → ℕ → Option Source
create has_ring memory max_fill_bytes alignment_bytes =
    if has_ring
    then (if max_fill_bytes == 0 || alignment_bytes == 0 || ltb max_alignment_bytes alignment_bytes
        then none
        else some (make memory max_fill_bytes alignment_bytes))
    else none

abbrev pub advance : Place → ℕ → Place
advance nowhere n = nowhere
advance (in_splice o) n = in_splice (o + n)
advance (in_item o) n = in_item (o + n)

abbrev pub item_bytes : Option (List ℕ) → List ℕ
item_bytes none = []
item_bytes (some b) = b

-- The `n` bytes at a place of the splice buffer or of the item, fewer where it ends before.
abbrev pub read_at : List ℕ → Option (List ℕ) → Place → ℕ → List ℕ
read_at splice item nowhere n = []
read_at splice item (in_splice o) n = take n (drop o splice)
read_at splice item (in_item o) n = take n (drop o (item_bytes item))

abbrev pub bytes_at : Source → Place → ℕ → List ℕ
bytes_at s p n = read_at s.splice_buffer s.acquired_item p n

-- The trailing bytes of the item go to the splice buffer.
unfoldable pub save_trailing : Source → Source
save_trailing s =
    if ltb 0 s.item_trailing_length
    then record s {
      splice_buffer =
          blit s.splice_buffer 0 (bytes_at s s.item_trailing_ptr s.item_trailing_length);
      splice_length = s.item_trailing_length;
      item_trailing_ptr = nowhere;
      item_trailing_length = 0;
    }
    else s

unfoldable pub release_held : Option (List ℕ) → Source → Source
release_held none s = s
release_held (some b) s = record (call Call.receive_release (save_trailing s)) {
  acquired_item = none;
}

unfoldable pub release_item : Source → Source
release_item s = release_held s.acquired_item s

unfoldable pub consume : ℕ → Source → Source
consume n s =
    let bytes = min n s.current_available in
    let s' = record s {
      current_data = advance s.current_data bytes;
      current_available = s.current_available - bytes;
    } in
    if s'.current_available == 0 && s'.queued_length == 0 then release_item s' else s'

abbrev pub drop_item : Option (List ℕ) → Source → Source
drop_item none s = s
drop_item (some b) s = record (call Call.receive_release s) { acquired_item = none }

unfoldable pub clear_buffered_data : Source → Source
clear_buffered_data s = call Call.reset (record (drop_item s.acquired_item s) {
  current_data = nowhere;
  current_available = 0;
  queued_data = nowhere;
  queued_length = 0;
  item_trailing_ptr = nowhere;
  item_trailing_length = 0;
  splice_length = 0;
})

-- `ring_available`: the ring buffer has bytes.
unfoldable pub has_buffered_data : Bool → Source → Bool
has_buffered_data ring_available s =
    ltb 0 s.current_available || ltb 0 s.queued_length || ring_available

-- The bytes of a chunk that make no whole frame.
unfoldable pub trailing_of : ℕ → ℕ → ℕ
trailing_of alignment n = if ltb 1 alignment then n % alignment else 0

-- The whole frames of a chunk of which `at` bytes are used.
unfoldable pub aligned_of : ℕ → List ℕ → ℕ → ℕ
aligned_of alignment chunk at = (length chunk - at) - trailing_of alignment (length chunk - at)

-- The chunk is kept, `at` bytes of it being used, and its tail noted.
unfoldable pub hold : List ℕ → ℕ → Source → Source
hold chunk at s =
    let trailing = trailing_of s.alignment_bytes (length chunk - at) in
    let s' = record s { acquired_item = some chunk } in
    if ltb 0 trailing
    then record s' {
      item_trailing_ptr = in_item (at + aligned_of s.alignment_bytes chunk at);
      item_trailing_length = trailing % 2 ^ 8;
    }
    else s'

-- A chunk too short to complete the frame.
unfoldable pub absorb : List ℕ → Source → Source
absorb chunk s = call Call.receive_release (record s {
  splice_buffer = blit s.splice_buffer s.splice_length chunk;
  splice_length = (s.splice_length + length chunk) % 2 ^ 8;
})

-- The frame is completed from the head of the chunk and exposed; the chunk's frames are queued.
unfoldable pub expose_splice : List ℕ → Source → ℕ × Source
expose_splice chunk s =
    let needed = s.alignment_bytes - s.splice_length in
    let s' = hold chunk needed (record s {
      splice_buffer = blit s.splice_buffer s.splice_length (take needed chunk);
      splice_length = 0;
    }) in
    (
      s.alignment_bytes,
      record s' {
        current_data = in_splice 0;
        current_available = s.alignment_bytes;
        queued_data = in_item needed;
        queued_length = aligned_of s.alignment_bytes chunk needed;
      },
    )

unfoldable pub expose_chunk : List ℕ → Source → ℕ × Source
expose_chunk chunk s =
    let aligned = aligned_of s.alignment_bytes chunk 0 in
    let s' = hold chunk 0 s in
    if aligned == 0
    then (0, release_item s')
    else (aligned, record s' { current_data = in_item 0; current_available = aligned })

-- What follows the answer of `receive_acquire`, which is null or a chunk.
unfoldable pub acquire : Option (List ℕ) → Source → ℕ × Source
acquire none s = (0, s)
acquire (some chunk) s =
    let s' = call Call.receive_acquire s in
    if ltb 0 s.splice_length
    then (if ltb (length chunk) (s.alignment_bytes - s.splice_length)
        then (0, absorb chunk s')
        else expose_splice chunk s')
    else expose_chunk chunk s'

unfoldable pub fill : Option (List ℕ) → Source → ℕ × Source
fill answer s =
    if ltb 0 s.current_available
    then (0, s)
    else if ltb 0 s.queued_length
    then (
      s.queued_length,
      record s {
        current_data = s.queued_data;
        current_available = s.queued_length;
        queued_data = nowhere;
        queued_length = 0;
      },
    )
    else acquire answer (release_item s)
