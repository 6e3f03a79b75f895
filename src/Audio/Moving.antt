-- ===== src/Audio/Moving.antt =====
-- The transfer buffers of components/audio/audio_transfer_buffer.cpp as queues of bytes.
use esphome_meshmesh.Prelude.{
  ℕ, ◌+◌, ◌-◌, ◌^◌, ◌≤◌, ◌<◌, ◌≡◌, refl, inl, inr, sym, ap, ◌∙◌, Bool, true, false, Option, none,
  some, List, [], ◌∷◌, ◌++◌, append_assoc, append-nil, arith, length, take, drop, blit, take-blit,
  drop-drop, drop-append, drop_all, length-blit, length_zero, length-take, length-drop,
  take-append-drop, Bool-cases, ltb,
}
use esphome_meshmesh.Mesh.{sub32, add32}
use esphome_meshmesh.Audio.Transfer.{
  TransferBuffer, bytes_of, contents, store, free, shift, decrease_buffer_length,
  increase_buffer_length, pre_shifted, read_into, write_out, transfer_data_from_source,
  transfer_data_to_sink,
}
use esphome_meshmesh.Audio.Stream.{drop-take}

-- The block has the size noted, and the bytes that wait lie inside it.
pub record Fits (s : TransferBuffer) : Type 0 where
  pub room : length (bytes_of s.memory) ≡ s.buffer_size
  pub inside : s.data_start + s.buffer_length ≤ s.buffer_size
  pub word : s.buffer_size < 2 ^ 32

bytes_of-store :
    (at : ℕ) (b : List ℕ) (m : Option (List ℕ)) → bytes_of (store at b m) ≡ blit (bytes_of m) at b
bytes_of-store at b none = refl
bytes_of-store at b (some x) = refl

length-contents : (s : TransferBuffer) → Fits s → length (contents s) ≡ s.buffer_length
length-contents s v =
    length-take s.buffer_length (drop s.data_start (bytes_of s.memory))
    ∙ omega (arith, length-drop s.data_start (bytes_of s.memory), v.room, v.inside)

pub free_lem :
    (s : TransferBuffer) → Fits s → free s ≡ s.buffer_size - (s.buffer_length + s.data_start)
unfolding free
free_lem s v = ground (arith, v.inside, v.word)

-- Bytes stored behind a window of the block lengthen the window.
window-blit :
    (mem : List ℕ) (start len : ℕ) (got : List ℕ)
    → start + len + length got ≤ length mem
    → take (len + length got) (drop start (blit mem (start + len) got))
      ≡ take len (drop start mem) ++ got
window-blit mem start len got h =
    let total = start + len + length got in
    let e : total - start ≡ len + length got = omega arith in
    let f : start + len - start ≡ len = omega arith in
    ap (λ (n : ℕ). take n (drop start (blit mem (start + len) got))) (sym e)
    ∙ sym (drop-take start total (blit mem (start + len) got))
    ∙ ap (drop start) (take-blit mem (start + len) got total refl h)
    ∙ drop-append start (take (start + len) mem) got
        (omega (arith, length-take (start + len) mem, h))
    ∙ ap (λ u. u ++ got)
        (drop-take start (start + len) mem ∙ ap (λ (n : ℕ). take n (drop start mem)) f)

-- What a step leaves of the bytes that wait, in a buffer that fits.
pub record Leaves (left : List ℕ) (t : TransferBuffer) : Type 0 where
  pub fits : Fits t
  pub same : contents t ≡ left

pub shift-Leaves : (s : TransferBuffer) → Fits s → Leaves (contents s) (shift s)
unfolding shift
shift-Leaves s v =
    let c = contents s in
    let mem = bytes_of s.memory in
    let l = length-contents s v in
    let b = bytes_of-store 0 c s.memory in
    record {
      fits = record {
        room = ap length b ∙ length-blit mem 0 c ∙ v.room;
        inside = omega (arith, v.inside);
        word = v.word;
      };
      same =
          ap (take s.buffer_length) b
          ∙ take-blit mem 0 c s.buffer_length (omega (arith, l)) (omega (arith, v.room, v.inside));
    }

pre_shifted-Leaves :
    (pre : Bool) (s : TransferBuffer) → Fits s → Leaves (contents s) (pre_shifted pre s)
unfolding pre_shifted
pre_shifted-Leaves false s v = record { fits = v; same = refl }
pre_shifted-Leaves true s v = elim (Bool-cases (ltb 0 s.buffer_length)) [
  | inl e ↦ rw e (shift-Leaves s v)
  | inr e ↦
      let z : s.buffer_length ≡ 0 = ground (arith, e) in
      rw e (record {
        fits = record { room = v.room; inside = omega (arith, z, v.inside); word = v.word };
        same =
            ap (λ (n : ℕ). take n (bytes_of s.memory)) z
            ∙ sym (ap (λ (n : ℕ). take n (drop s.data_start (bytes_of s.memory))) z);
      })
]

-- The state after bytes have been stored behind those that wait.
stored-Leaves :
    (got : List ℕ) (s : TransferBuffer)
    → Fits s
    → length got ≤ s.buffer_size - (s.buffer_length + s.data_start)
    → Leaves (contents s ++ got) (record s {
      memory = store (s.data_start + s.buffer_length) got s.memory;
      buffer_length = add32 s.buffer_length (length got);
    })
stored-Leaves got s v h =
    let mem = bytes_of s.memory in
    let b = bytes_of-store (s.data_start + s.buffer_length) got s.memory in
    let e : add32 s.buffer_length (length got) ≡ s.buffer_length + length got =
      omega (arith, v.inside, v.word) in
    record {
      fits = record {
        room = ap length b ∙ length-blit mem _ got ∙ v.room;
        inside = omega (arith, e, v.inside);
        word = v.word;
      };
      same =
          (λ i. take (e i) (drop s.data_start (b i)))
          ∙ window-blit mem s.data_start s.buffer_length got (omega (arith, v.room, v.inside));
    }

kept-Leaves : (s : TransferBuffer) (got : List ℕ) → Fits s → got ≡ [] → Leaves (contents s ++ got) s
kept-Leaves s got v e = record {
  fits = v;
  same = sym (ap (λ u. contents s ++ u) e ∙ append-nil (contents s));
}

read_into-Leaves :
    (got : List ℕ) (s : TransferBuffer)
    → Fits s
    → s.ring_buffer ≡ true
    → length got ≤ free s
    → Leaves (contents s ++ got) (read_into got s).1
unfolding read_into increase_buffer_length
read_into-Leaves got s v r h =
    let f = free_lem s v in
    elim (Bool-cases (ltb 0 (free s))) [
      | inr e ↦ rw e (kept-Leaves s got v (length_zero got (ground (arith, e, h))))
      | inl e ↦
          let k = stored-Leaves got s v (omega (arith, f, h)) in
          rw e (
            rw r (record {
              fits = record { room = k.fits.room; inside = k.fits.inside; word = k.fits.word };
              same = k.same;
            }))
    ]

-- If the block has the size noted and the bytes that wait lie inside it, then a transfer from a ring
-- buffer that delivers at most the bytes that are free, after the shift if one is asked for, puts
-- them behind the bytes that wait, keeps those in order, and leaves a buffer that fits.
pub transfer_data_from_source-Leaves :
    (got : List ℕ) (pre : Bool) (s : TransferBuffer)
    → Fits s
    → (pre_shifted pre s).ring_buffer ≡ true
    → length got ≤ free (pre_shifted pre s)
    → Leaves (contents s ++ got) (transfer_data_from_source got pre s).1
unfolding transfer_data_from_source
transfer_data_from_source-Leaves got pre s v r h =
    let p = pre_shifted-Leaves pre s v in
    let k = read_into-Leaves got (pre_shifted pre s) p.fits r h in
    record { fits = k.fits; same = k.same ∙ ap (λ u. u ++ got) p.same }

decrease-Leaves :
    (n : ℕ) (s : TransferBuffer)
    → Fits s
    → n ≤ s.buffer_length
    → Leaves (drop n (contents s)) (decrease_buffer_length n s)
unfolding decrease_buffer_length
decrease-Leaves n s v h =
    let mem = bytes_of s.memory in
    let l = length-contents s v in
    let e : sub32 s.buffer_length n ≡ s.buffer_length - n = omega (arith, h, v.inside, v.word) in
    let d : add32 s.data_start n ≡ s.data_start + n = omega (arith, h, v.inside, v.word) in
    elim (Bool-cases (ltb 0 (sub32 s.buffer_length n))) [
      | inl c ↦ rw c (record {
        fits = record { room = v.room; inside = omega (arith, e, d, v.inside, h); word = v.word };
        same =
            (λ i. take (e i) (drop (d i) mem))
            ∙ ap (take (s.buffer_length - n)) (sym (drop-drop s.data_start n mem))
            ∙ sym (drop-take n s.buffer_length (drop s.data_start mem));
      })
      | inr c ↦
          let z : sub32 s.buffer_length n ≡ 0 = ground (arith, c) in
          rw c (record {
            fits = record { room = v.room; inside = omega (arith, z); word = v.word };
            same =
                ap (λ (k : ℕ). take k (bytes_of s.memory)) z
                ∙ sym (drop_all n (contents s) (omega (arith, l, e, z)));
          })
    ]

-- What the sinks have taken, in order.
abbrev pub sunk_bytes : List (List ℕ) → List ℕ
sunk_bytes [] = []
sunk_bytes (b ∷ bs) = sunk_bytes bs ++ b

-- A step hands bytes over to a sink and keeps the rest.
pub record Hands (s t : TransferBuffer) : Type 0 where
  pub fits : Fits t
  pub conserved : sunk_bytes t.sunk ++ contents t ≡ sunk_bytes s.sunk ++ contents s

decrease_buffer_length-sunk :
    (n : ℕ) (s : TransferBuffer) → (decrease_buffer_length n s).sunk ≡ s.sunk
unfolding decrease_buffer_length
decrease_buffer_length-sunk n s = ground arith

handed-Hands :
    (n : ℕ) (s : TransferBuffer)
    → Fits s
    → n ≤ s.buffer_length
    → Hands s (decrease_buffer_length n (record s { sunk = take n (contents s) ∷ s.sunk }))
handed-Hands n s v h =
    let u : TransferBuffer = record s { sunk = take n (contents s) ∷ s.sunk } in
    let k = decrease-Leaves n u (record { room = v.room; inside = v.inside; word = v.word }) h in
    record {
      fits = k.fits;
      conserved =
          (λ i. sunk_bytes (decrease_buffer_length-sunk n u i) ++ k.same i)
          ∙ append_assoc (sunk_bytes s.sunk) (take n (contents s)) (drop n (contents s))
          ∙ ap (λ b. sunk_bytes s.sunk ++ b) (take-append-drop n (contents s));
    }

write_out-Hands :
    (written : ℕ) (s : TransferBuffer)
    → Fits s
    → written ≤ s.buffer_length
    → Hands s (write_out written s).1
unfolding write_out
write_out-Hands written s v h = elim (Bool-cases (ltb 0 s.buffer_length)) [
  | inr e ↦ rw e (record { fits = v; conserved = refl })
  | inl e ↦ rw e (handed-Hands _ s v (ground (arith, h)))
]

shift-sunk : (s : TransferBuffer) → (shift s).sunk ≡ s.sunk
unfolding shift
shift-sunk s = refl

-- If the block has the size noted and the bytes that wait lie inside it, then a transfer to a sink
-- that takes at most the bytes that wait keeps the stream: what the sink has got, followed by what
-- still waits, is the same before and after, with or without a shift; and the buffer fits.
pub transfer_data_to_sink-Hands :
    (written : ℕ) (post : Bool) (s : TransferBuffer)
    → Fits s
    → written ≤ s.buffer_length
    → Hands s (transfer_data_to_sink written post s).1
unfolding transfer_data_to_sink
transfer_data_to_sink-Hands written false s v h = write_out-Hands written s v h
transfer_data_to_sink-Hands written true s v h =
    let k = write_out-Hands written s v h in
    let t = (write_out written s).1 in
    let p = shift-Leaves t k.fits in
    record {
      fits = p.fits;
      conserved = (λ i. sunk_bytes (shift-sunk t i) ++ p.same i) ∙ k.conserved;
    }
