-- ===== src/Audio/Refill.antt =====
-- `RingBufferAudioSource::fill` (components/audio/audio_transfer_buffer.cpp): its cases put together.
use esphome_meshmesh.Prelude.{
  ℕ, ◌-◌, ◌≤◌, ◌≡◌, ◌⊎◌, inl, inr, refl, sym, ap, ◌∙◌, subst, true, Option, none, some, List, [],
  ◌++◌, append-nil, arith, length, Bool-cases, ltb, ◌==◌, if◌then◌else◌,
}
use esphome_meshmesh.Audio.Source.{
  nowhere, Call, Source, call, aligned_of, expose_splice, expose_chunk, release_item, acquire, fill,
}
use esphome_meshmesh.Audio.Stream.{
  queued, trailing, spliced, contents, Whole, IsValid, Spent, Releases, read_none,
  release_item-Releases,
}
use esphome_meshmesh.Audio.Frames.{trailing_of-Cut}
use esphome_meshmesh.Audio.Filling.{
  TakesIn, Bare, absorb-TakesIn, expose_splice-TakesIn, expose_chunk-TakesIn,
}

-- What a fill takes in: a chunk, where one is answered and nothing is left to read.
abbrev pub taken : Option (List ℕ) → Source → List ℕ
taken none s = []
taken (some chunk) s =
    if s.current_available == 0 then (if s.queued_length == 0 then chunk else []) else []

call-Bare : (c : Call) (s : Source) → Bare s → Bare (call c s)
call-Bare c s b =
    let v = b.valid in
    record {
      valid = record {
        align_pos = v.align_pos;
        align_max = v.align_max;
        splice_room = v.splice_room;
        exposed_in = v.exposed_in;
        queued_in = v.queued_in;
        trailing_in = v.trailing_in;
        trailing_small = v.trailing_small;
        splice_small = v.splice_small;
        queued_whole = v.queued_whole;
        unheld = v.unheld;
        alone = v.alone;
      };
      spent = record { no_exposed = b.spent.no_exposed; no_queued = b.spent.no_queued };
      no_trailing = b.no_trailing;
    }

called : (chunk : List ℕ) (c : Call) (s t : Source) → TakesIn chunk (call c s) t → TakesIn chunk s t
called chunk c s t h = record { valid = h.valid; same = h.same }

acquire-TakesIn :
    (chunk : List ℕ) (s : Source) → Bare s → TakesIn chunk s (acquire (some chunk) s).1
unfolding acquire
acquire-TakesIn chunk s b =
    let s' = call Call.receive_acquire s in
    let b' = call-Bare Call.receive_acquire s b in
    elim (Bool-cases (ltb 0 s.splice_length)) [
      | inr e ↦ rw e (
          called chunk Call.receive_acquire s _
            (expose_chunk-TakesIn chunk s' b' (ground (arith, e))))
      | inl e ↦ rw e (elim (Bool-cases (ltb (length chunk) (s.alignment_bytes - s.splice_length))) [
        | inl l ↦
            rw l (
              called chunk Call.receive_acquire s _
                (absorb-TakesIn chunk s' b' (ground (arith, l))))
        | inr l ↦ rw l (
            called chunk Call.receive_acquire s _
              (expose_splice-TakesIn chunk s' b' (ground (arith, l))))
      ])
    ]

release-TakesIn : (c : List ℕ) (s r t : Source) → Releases s r → TakesIn c r t → TakesIn c s t
release-TakesIn c s r t h k = record { valid = k.valid; same = k.same ∙ ap (λ u. u ++ c) h.same }

-- What is queued becomes what is exposed.
abbrev promoted : Source → Source
promoted s = record s {
  current_data = s.queued_data;
  current_available = s.queued_length;
  queued_data = nowhere;
  queued_length = 0;
}

promoted-TakesIn : (s : Source) → IsValid s → s.current_available ≡ 0 → TakesIn [] s (promoted s)
promoted-TakesIn s v z = record {
  valid = record {
    align_pos = v.align_pos;
    align_max = v.align_max;
    splice_room = v.splice_room;
    exposed_in = v.queued_in;
    queued_in = refl;
    trailing_in = v.trailing_in;
    trailing_small = v.trailing_small;
    splice_small = v.splice_small;
    queued_whole = (0, omega arith);
    unheld = v.unheld;
    alone = elim v.alone [ inl e ↦ inl e | inr (x, y, w) ↦ inr (y, refl, w) ];
  };
  same = sym (
      append-nil _
      ∙ ap (λ u. u ++ (queued s ++ (trailing s ++ spliced s)))
          (read_none s.splice_buffer s.acquired_item s.current_data _ z));
}

-- Nothing is taken in.
unchanged : (s : Source) → IsValid s → TakesIn [] s s
unchanged s v = record { valid = v; same = sym (append-nil (contents s)) }

taken-exposed :
    (answer : Option (List ℕ)) (s : Source) → ltb 0 s.current_available ≡ true → taken answer s ≡ []
taken-exposed none s e = refl
taken-exposed (some chunk) s e = ground (arith, e)

taken-queued :
    (answer : Option (List ℕ)) (s : Source) → ltb 0 s.queued_length ≡ true → taken answer s ≡ []
taken-queued none s e = refl
taken-queued (some chunk) s e = ground (arith, e)

acquire-taken :
    (answer : Option (List ℕ)) (s r : Source)
    → Spent s
    → Bare r
    → TakesIn (taken answer s) r (acquire answer r).1
unfolding acquire
acquire-taken none s r h b = unchanged r b.valid
acquire-taken (some chunk) s r h b =
    let e : taken (some chunk) s ≡ chunk = ground (arith, h.no_exposed, h.no_queued) in
    subst (λ c. TakesIn c r (acquire (some chunk) r).1) (sym e) (acquire-TakesIn chunk r b)

-- From a valid state, a fill that is answered with a chunk takes its bytes in behind the others,
-- provided that nothing is exposed or queued; a fill that is not, or finds bytes exposed or queued,
-- takes in nothing. The bytes held before keep their order, none is lost, and the state stays
-- valid.
pub fill-TakesIn :
    (answer : Option (List ℕ)) (s : Source)
    → IsValid s
    → TakesIn (taken answer s) s (fill answer s).1
unfolding fill
fill-TakesIn answer s v = elim (Bool-cases (ltb 0 s.current_available)) [
  | inl e ↦ rw e (subst (λ c. TakesIn c s s) (sym (taken-exposed answer s e)) (unchanged s v))
  | inr e ↦ rw e (elim (Bool-cases (ltb 0 s.queued_length)) [
    | inl q ↦ rw q (
        subst (λ c. TakesIn c s (promoted s)) (sym (taken-queued answer s q))
          (promoted-TakesIn s v (ground (arith, e))))
    | inr q ↦
        let h : Spent s = record {
          no_exposed = ground (arith, e);
          no_queued = ground (arith, q);
        } in
        let r = release_item-Releases s v h in
        let b : Bare (release_item s) = record {
          valid = r.valid;
          spent = r.spent;
          no_trailing = r.no_trailing;
        } in
        rw q (
          release-TakesIn (taken answer s) s (release_item s) (acquire answer (release_item s)).1 r
            (acquire-taken answer s (release_item s) h b))
  ])
]

-- A fill reports nothing, or whole frames, which are then exposed.
abbrev pub Reports : ℕ → ℕ × Source → Type 0
Reports alignment (n, t) = (n ≡ 0) ⊎ ((n ≡ t.current_available) × Whole alignment n)

expose_chunk-Reports :
    (chunk : List ℕ) (s : Source)
    → 1 ≤ s.alignment_bytes
    → Reports s.alignment_bytes (expose_chunk chunk s)
unfolding expose_chunk aligned_of
expose_chunk-Reports chunk s lo =
    let al = aligned_of s.alignment_bytes chunk 0 in
    elim (Bool-cases (al == 0)) [
      | inl e ↦ rw e (inl refl)
      | inr e ↦ rw e (inr (refl, (trailing_of-Cut s.alignment_bytes (length chunk - 0) lo).whole))
    ]

acquire-Reports :
    (answer : Option (List ℕ)) (s : Source)
    → 1 ≤ s.alignment_bytes
    → Reports s.alignment_bytes (acquire answer s)
unfolding acquire expose_splice
acquire-Reports none s lo = inl refl
acquire-Reports (some chunk) s lo = elim (Bool-cases (ltb 0 s.splice_length)) [
  | inr e ↦ rw e (expose_chunk-Reports chunk (call Call.receive_acquire s) lo)
  | inl e ↦ rw e (elim (Bool-cases (ltb (length chunk) (s.alignment_bytes - s.splice_length))) [
    | inl l ↦ rw l (inl refl)
    | inr l ↦ rw l (inr (refl, (1, omega arith)))
  ])
]

-- From a valid state, what a fill reports is nothing, or it is a whole number of frames and equal to
-- the number of bytes exposed after it.
pub fill-Reports :
    (answer : Option (List ℕ)) (s : Source) → IsValid s → Reports s.alignment_bytes (fill answer s)
unfolding fill
fill-Reports answer s v = elim (Bool-cases (ltb 0 s.current_available)) [
  | inl e ↦ rw e (inl refl)
  | inr e ↦ rw e (elim (Bool-cases (ltb 0 s.queued_length)) [
    | inl q ↦ rw q (inr (refl, v.queued_whole))
    | inr q ↦
        let r =
          release_item-Releases s v
            (record { no_exposed = ground (arith, e); no_queued = ground (arith, q) }) in
        rw q (
          subst (λ (a : ℕ). Reports a (acquire answer (release_item s))) r.alignment_kept
            (acquire-Reports answer (release_item s) r.valid.align_pos))
  ])
]
