-- ===== src/Audio/Frames.antt =====
-- How `RingBufferAudioSource` (components/audio/audio_transfer_buffer.cpp) cuts a chunk into whole
-- frames and a tail.
use esphome_meshmesh.Prelude.{
  ℕ, ◌+◌, ◌-◌, ◌*◌, ◌/◌, ◌%◌, ◌^◌, ◌≤◌, ◌<◌, ◌≡◌, inl, inr, refl, sym, ap, ◌∙◌, subst, false, some,
  List, arith, length, take, drop, take_all, drop_all, length-take, length-drop, Bool-cases, ltb,
}
use native.Mathlib.Omega.{div_any}
use native.Mathlib.Nat.{mod-lt}
use esphome_meshmesh.Audio.Source.{Source, trailing_of, aligned_of, hold, read_at}
use esphome_meshmesh.Audio.Stream.{Whole, read_none, read_in}

-- The tail is shorter than a frame and what is before it is whole frames.
pub record Cut (a n : ℕ) : Type 0 where
  pub in_chunk : trailing_of a n ≤ n
  pub short : trailing_of a n < a
  pub whole : Whole a (n - trailing_of a n)

Cut-of : (a n q k : ℕ) → trailing_of a n ≡ q → q ≤ n → q < a → n - q ≡ a * k → Cut a n
Cut-of a n q k e h l w = record {
  in_chunk = omega (arith, e, h);
  short = omega (arith, e, l);
  whole = (k, ap (λ (m : ℕ). n - m) e ∙ w);
}

pub trailing_of-Cut : (a n : ℕ) → 1 ≤ a → Cut a n
unfolding trailing_of
trailing_of-Cut a n h =
    let d = div_any n a in
    let m : n % a < a = mod-lt n (omega (arith, h)) in
    elim (Bool-cases (ltb 1 a)) [
      | inl e ↦
          Cut-of a n (n % a) (n / a) (rw (e, trailing_of) refl) (omega (arith, d)) m
            (omega (arith, d))
      | inr e ↦
          let one : a ≡ 1 = ground (arith, h) in
          Cut-of a n 0 n (rw (e, trailing_of) refl) (omega arith) (omega (arith, h))
            (subst (λ (b : ℕ). n - 0 ≡ b * n) (sym one) (omega arith))
    ]

-- A chunk held behind `at` bytes used: its frames, and its tail, which is noted.
pub record Holds (chunk : List ℕ) (at : ℕ) (s t : Source) : Type 0 where
  pub tail :
      read_at s.splice_buffer (some chunk) t.item_trailing_ptr t.item_trailing_length
      ≡ drop (at + aligned_of s.alignment_bytes chunk at) chunk
  pub tail_in :
      length (read_at s.splice_buffer (some chunk) t.item_trailing_ptr t.item_trailing_length)
      ≡ t.item_trailing_length
  pub tail_small : t.item_trailing_length < s.alignment_bytes
  pub end_in : at + aligned_of s.alignment_bytes chunk at ≤ length chunk
  pub frames : Whole s.alignment_bytes (aligned_of s.alignment_bytes chunk at)
  pub frame : t ≡ record s {
    acquired_item = some chunk;
    item_trailing_ptr = t.item_trailing_ptr;
    item_trailing_length = t.item_trailing_length;
  }

pub hold-Holds :
    (chunk : List ℕ) (at : ℕ) (s : Source)
    → 1 ≤ s.alignment_bytes
    → s.alignment_bytes ≤ 8
    → s.item_trailing_length ≡ 0
    → at ≤ length chunk
    → Holds chunk at s (hold chunk at s)
unfolding hold aligned_of
hold-Holds chunk at s lo hi z h =
    let a = s.alignment_bytes in
    let n = length chunk - at in
    let c = trailing_of-Cut a n lo in
    let q = trailing_of a n in
    let small : q % 2 ^ 8 ≡ q = omega (arith, c.short) in
    let rest = drop (at + (n - q)) chunk in
    let l : length rest ≡ q = length-drop _ chunk ∙ omega (arith, c.in_chunk) in
    let e0 : ltb 0 q ≡ false → q ≡ 0 = λ e. ground arith in
    elim (Bool-cases (ltb 0 q)) [
      | inl e ↦ rw e (record {
        tail = ap (λ (k : ℕ). take k rest) small ∙ take_all q rest (omega (arith, l));
        tail_in = length-take (q % 2 ^ 8) rest ∙ omega (arith, l, small);
        tail_small = omega (arith, small, c.short);
        end_in = omega (arith, c.in_chunk);
        frames = c.whole;
        frame = refl;
      })
      | inr e ↦ rw e (record {
        tail =
            read_none s.splice_buffer (some chunk) s.item_trailing_ptr _ z
            ∙ sym (drop_all _ chunk (omega (arith, e0 e, h)));
        tail_in = read_in s.splice_buffer (some chunk) s.item_trailing_ptr _ z;
        tail_small = omega (arith, z, lo);
        end_in = omega (arith, c.in_chunk);
        frames = c.whole;
        frame = refl;
      })
    ]
