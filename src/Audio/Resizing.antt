-- ===== src/Audio/Resizing.antt =====
-- Reallocation and clearing of a transfer buffer (components/audio/audio_transfer_buffer.cpp).
use esphome_meshmesh.Prelude.{
  ℕ, ◌-◌, ◌^◌, ◌≤◌, ◌<◌, ◌≡◌, ◌⊎◌, inl, inr, refl, sym, ap, ◌∙◌, subst, min, Bool, false, not, ◌&&◌,
  Option, none, some, List, [], arith, length, take, take-take, drop, Bool-cases, ltb, ◌==◌,
}
use esphome_meshmesh.Audio.Transfer.{
  TransferBuffer, bytes_of, contents, shift, free, clear_buffered_data, allocate_buffer, to_start,
  regrown, reallocate, reallocate_block, by_block,
}
use esphome_meshmesh.Audio.Moving.{Fits, Leaves, free_lem, shift-Leaves}

-- The allocator answers a block of the size asked for that begins with the old block's bytes, as
-- many as fit.
abbrev pub Grows : ℕ → (List ℕ → Option (List ℕ)) → Type 0
Grows size grown =
    (old new : List ℕ)
    → grown old ≡ some new
    → (length new ≡ size) × (take (min size (length old)) new ≡ take (min size (length old)) old)

-- Equal beginnings have equal shorter beginnings.
take-prefix : (n m : ℕ) (xs ys : List ℕ) → n ≤ m → take m xs ≡ take m ys → take n xs ≡ take n ys
take-prefix n m xs ys h e = sym (take-take n m xs h) ∙ ap (take n) e ∙ take-take n m ys h

to_start-Leaves : (s : TransferBuffer) → Fits s → Leaves (contents s) (to_start s)
unfolding to_start
to_start-Leaves s v = elim (Bool-cases (ltb 0 s.buffer_length && not (s.data_start == 0))) [
  | inl e ↦ rw e (shift-Leaves s v)
  | inr e ↦ rw e (record { fits = v; same = refl })
]

-- A block that is grown holds the bytes that wait at its start.
regrown-Leaves :
    (size : ℕ) (s : TransferBuffer) (new : Option (List ℕ))
    → Fits s
    → (s.data_start ≡ 0) ⊎ (s.buffer_length ≡ 0)
    → s.buffer_length ≤ size
    → 0 < size
    → size < 2 ^ 32
    → ((b : List ℕ)
        → new ≡ some b
        → (length b ≡ size)
          × (take (min size (length (bytes_of s.memory))) b
              ≡ take (min size (length (bytes_of s.memory))) (bytes_of s.memory)))
    → Leaves (contents s) (regrown size new s).1
unfolding regrown
regrown-Leaves size s none v z l p w g =
    let some_size : size == 0 ≡ false = ground (arith, p) in
    rw some_size (record { fits = v; same = refl })
regrown-Leaves size s (some b) v z l some_size w g =
    let (n, p) = g b refl in
    record {
      fits = record { room = n; inside = omega (arith, l); word = w };
      same =
          take-prefix s.buffer_length _ b (bytes_of s.memory) (omega (arith, l, v.room, v.inside)) p
          ∙ elim z [
            | inl e ↦ ap (λ (k : ℕ). take s.buffer_length (drop k (bytes_of s.memory))) (sym e)
            | inr e ↦
                ap (λ (k : ℕ). take k (bytes_of s.memory)) e
                ∙ sym (ap (λ (k : ℕ). take k (drop s.data_start (bytes_of s.memory))) e)
          ];
    }

to_start-placed :
    (s : TransferBuffer) → ((to_start s).data_start ≡ 0) ⊎ ((to_start s).buffer_length ≡ 0)
unfolding to_start shift
to_start-placed s = ground arith

to_start-length : (s : TransferBuffer) → (to_start s).buffer_length ≡ s.buffer_length
unfolding to_start shift
to_start-length s = ground arith

reallocate_block-Leaves :
    (size : ℕ) (grown : List ℕ → Option (List ℕ)) (s : TransferBuffer)
    → Fits s
    → 0 < size
    → size < 2 ^ 32
    → Grows size grown
    → Leaves (contents s) (reallocate_block size grown s).1
unfolding reallocate_block
reallocate_block-Leaves size grown s v some_size w g =
    elim (Bool-cases (ltb size s.buffer_length)) [
      | inl e ↦ rw e (record { fits = v; same = refl })
      | inr e ↦
          let p = to_start-Leaves s v in
          let t = to_start s in
          let k =
            regrown-Leaves size t (grown (bytes_of t.memory)) p.fits (to_start-placed s)
              (ground (arith, e, to_start-length s)) some_size w (g (bytes_of t.memory)) in
          rw e (record { fits = k.fits; same = k.same ∙ p.same })
    ]

-- A buffer that has a block, in which the bytes that wait lie, keeps them in order through a
-- reallocation to any size from 1 to below 2^32, whether it succeeds, is refused since they would not fit, or
-- the allocator has no memory; and it still fits.
pub reallocate-Leaves :
    (size : ℕ) (answer : Option (List ℕ)) (grown : List ℕ → Option (List ℕ)) (s : TransferBuffer)
    (b : List ℕ)
    → Fits s
    → s.memory ≡ some b
    → 0 < size
    → size < 2 ^ 32
    → Grows size grown
    → Leaves (contents s) (reallocate size answer grown s).1
unfolding reallocate
reallocate-Leaves size answer grown s b v m p w g =
    subst (λ (r : Bool × TransferBuffer). Leaves (contents s) r.1)
      (sym (ap (λ o. by_block o (allocate_buffer size answer s) (reallocate_block size grown s)) m))
      (reallocate_block-Leaves size grown s v p w g)

-- After a clearing, no byte waits, but the place in front of the old bytes stays taken.
pub clear_buffered_data-free :
    (s : TransferBuffer)
    → Fits s
    → (contents (clear_buffered_data s) ≡ [])
      × (free (clear_buffered_data s) ≡ s.buffer_size - s.data_start)
unfolding clear_buffered_data
clear_buffered_data-free s v = (
  refl,
  free_lem (clear_buffered_data s)
        (record { room = v.room; inside = omega (arith, v.inside); word = v.word })
      ∙ omega arith,
)
