-- ===== src/Audio/Reading.antt =====
-- `RingBufferAudioSource::consume` (components/audio/audio_transfer_buffer.cpp).
use esphome_meshmesh.Prelude.{
  ℕ, ◌-◌, ◌≤◌, ◌≡◌, inl, inr, sym, ap, ◌∙◌, min, ◌&&◌, ◌++◌, arith, length, take, drop, length-drop,
  drop-append, take-append, Bool-cases, ◌==◌,
}
use esphome_meshmesh.Audio.Source.{Source, advance, consume}
use esphome_meshmesh.Audio.Stream.{
  exposed, queued, trailing, spliced, contents, IsValid, read_at-advance, release_item-Releases,
}

-- The exposed region without its first `k` bytes.
abbrev advanced : ℕ → Source → Source
advanced k s = record s {
  current_data = advance s.current_data k;
  current_available = s.current_available - k;
}

exposed-advanced : (k : ℕ) (s : Source) → exposed (advanced k s) ≡ drop k (exposed s)
exposed-advanced k s =
    read_at-advance s.splice_buffer s.acquired_item s.current_data k s.current_available

advanced-IsValid : (k : ℕ) (s : Source) → IsValid s → IsValid (advanced k s)
advanced-IsValid k s v = record {
  align_pos = v.align_pos;
  align_max = v.align_max;
  splice_room = v.splice_room;
  exposed_in =
      ap length (exposed-advanced k s)
      ∙ length-drop k (exposed s)
      ∙ ap (λ (n : ℕ). n - k) v.exposed_in;
  queued_in = v.queued_in;
  trailing_in = v.trailing_in;
  trailing_small = v.trailing_small;
  splice_small = v.splice_small;
  queued_whole = v.queued_whole;
  unheld = v.unheld;
  alone = elim v.alone [ inl e ↦ inl e | inr (x, y, z) ↦ inr (ground (arith, x), y, z) ];
}

contents-advanced :
    (k : ℕ) (s : Source)
    → IsValid s
    → k ≤ s.current_available
    → contents (advanced k s) ≡ drop k (contents s)
contents-advanced k s v h =
    ap (λ u. u ++ (queued s ++ (trailing s ++ spliced s))) (exposed-advanced k s)
    ∙ sym (
        drop-append k (exposed s) (queued s ++ (trailing s ++ spliced s))
          (ground (arith, v.exposed_in)))

-- The bytes consumed are the first of the region exposed and of the contents, the rest stays in
-- order, and the state stays valid.
pub record Consumes (n : ℕ) (s t : Source) : Type 0 where
  pub valid : IsValid t
  pub seen :
      take (min n s.current_available) (exposed s) ≡ take (min n s.current_available) (contents s)
  pub rest : contents t ≡ drop (min n s.current_available) (contents s)

-- From a valid state, consuming `n` bytes takes the first `n` bytes of the stream, or all that are
-- exposed, which are those that the reader sees; it keeps the others in order, also where it gives
-- the item back, and the state valid.
pub consume-Consumes : (n : ℕ) (s : Source) → IsValid s → Consumes n s (consume n s)
unfolding consume
consume-Consumes n s v =
    let k = min n s.current_available in
    let t = advanced k s in
    let w = advanced-IsValid k s v in
    let c = contents-advanced k s v (omega arith) in
    let seen : take k (exposed s) ≡ take k (contents s) = sym (
      take-append k (exposed s) (queued s ++ (trailing s ++ spliced s))
        (ground (arith, v.exposed_in))) in
    elim (Bool-cases (t.current_available == 0 && t.queued_length == 0)) [
      | inr e ↦ rw e (record { valid = w; seen = seen; rest = c })
      | inl e ↦
          let r =
            release_item-Releases t w
              (record { no_exposed = ground arith; no_queued = ground arith }) in
          rw e (record { valid = r.valid; seen = seen; rest = r.same ∙ c })
    ]
