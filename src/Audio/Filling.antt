-- ===== src/Audio/Filling.antt =====
-- The chunks that `RingBufferAudioSource::fill` (components/audio/audio_transfer_buffer.cpp) takes in,
-- in each of its cases.
use esphome_meshmesh.Prelude.{
  ℕ, ◌+◌, ◌-◌, ◌%◌, ◌^◌, ◌≤◌, ◌<◌, ◌≡◌, inl, inr, refl, sym, ap, ◌∙◌, subst, some, List, [], ◌++◌,
  append_assoc, append-nil, arith, length, take, drop, blit, take-blit, drop-drop, take-append-drop,
  length-take, length-drop, length-blit, Bool-cases, ◌==◌,
}
use esphome_meshmesh.Audio.Source.{
  Place, in_item, in_splice, Source, read_at, aligned_of, hold, absorb, expose_splice, expose_chunk,
  release_item,
}
use esphome_meshmesh.Audio.Stream.{
  spliced, contents, Whole, IsValid, Spent, read_none, read_in, bare-IsValid, contents-bare,
  release_item-Releases,
}
use esphome_meshmesh.Audio.Frames.{hold-Holds}

-- The bytes `c` are taken in behind the contents, and the state is valid.
pub record TakesIn (c : List ℕ) (s t : Source) : Type 0 where
  pub valid : IsValid t
  pub same : contents t ≡ contents s ++ c

-- No item is held, and nothing is left of the last one but the beginning of a frame.
pub record Bare (s : Source) : Type 0 where
  pub valid : IsValid s
  pub spent : Spent s
  pub no_trailing : s.item_trailing_length ≡ 0

-- A state that holds a chunk.
abbrev held : Source → List ℕ → Place → ℕ → Place → ℕ → Place → ℕ → List ℕ → ℕ → Source
held s chunk tail len cur av que ql sb sl = record s {
  acquired_item = some chunk;
  item_trailing_ptr = tail;
  item_trailing_length = len;
  current_data = cur;
  current_available = av;
  queued_data = que;
  queued_length = ql;
  splice_buffer = sb;
  splice_length = sl;
}

held-IsValid :
    (s : Source) (chunk : List ℕ) (tail : Place) (len : ℕ) (cur : Place) (av : ℕ) (que : Place)
    (ql : ℕ) (sb : List ℕ) (sl : ℕ)
    → IsValid s
    → sl ≡ 0
    → length sb ≡ 8
    → length (read_at sb (some chunk) cur av) ≡ av
    → length (read_at sb (some chunk) que ql) ≡ ql
    → length (read_at sb (some chunk) tail len) ≡ len
    → len < s.alignment_bytes
    → Whole s.alignment_bytes ql
    → IsValid (held s chunk tail len cur av que ql sb sl)
held-IsValid s chunk tail len cur av que ql sb sl v z r c q t l w = record {
  align_pos = v.align_pos;
  align_max = v.align_max;
  splice_room = r;
  exposed_in = c;
  queued_in = q;
  trailing_in = t;
  trailing_small = l;
  splice_small = omega (arith, z, v.align_pos);
  queued_whole = w;
  unheld = λ e. cc;
  alone = inl z;
}

pub absorb-TakesIn :
    (chunk : List ℕ) (s : Source)
    → Bare s
    → length chunk < s.alignment_bytes - s.splice_length
    → TakesIn chunk s (absorb chunk s)
unfolding absorb
absorb-TakesIn chunk s b h =
    let v = b.valid in
    let n = s.splice_length + length chunk in
    let small : n % 2 ^ 8 ≡ n = omega (arith, v.align_max) in
    let spent : Spent (absorb chunk s) = record {
      no_exposed = b.spent.no_exposed;
      no_queued = b.spent.no_queued;
    } in
    record {
      valid =
          bare-IsValid (absorb chunk s) spent b.no_trailing v.align_pos v.align_max
            (length-blit s.splice_buffer s.splice_length chunk ∙ v.splice_room)
            (omega (arith, small, h));
      same =
          contents-bare (absorb chunk s) spent b.no_trailing
          ∙ take-blit s.splice_buffer s.splice_length chunk (n % 2 ^ 8) small
              (omega (arith, small, h, v.align_max, v.splice_room))
          ∙ sym (ap (λ u. u ++ chunk) (contents-bare s b.spent b.no_trailing));
    }

-- A chunk is its head, the frames behind it, and the rest.
pieces : (n k : ℕ) (xs : List ℕ) → take n xs ++ (take k (drop n xs) ++ drop (n + k) xs) ≡ xs
pieces n k xs =
    ap (λ u. take n xs ++ (take k (drop n xs) ++ u)) (sym (drop-drop n k xs))
    ∙ ap (λ u. take n xs ++ u) (take-append-drop k (drop n xs))
    ∙ take-append-drop n xs

length-piece : (n k : ℕ) (xs : List ℕ) → n + k ≤ length xs → length (take k (drop n xs)) ≡ k
length-piece n k xs h = length-take k (drop n xs) ∙ omega (arith, length-drop n xs, h)

-- The head of the chunk completes the frame, which is exposed; its frames are queued.
pub expose_splice-TakesIn :
    (chunk : List ℕ) (s : Source)
    → Bare s
    → s.alignment_bytes - s.splice_length ≤ length chunk
    → TakesIn chunk s (expose_splice chunk s).1
unfolding expose_splice
expose_splice-TakesIn chunk s b h =
    let v = b.valid in
    let a = s.alignment_bytes in
    let sl = s.splice_length in
    let needed = a - sl in
    let sb = blit s.splice_buffer sl (take needed chunk) in
    let before : Source = record s { splice_buffer = sb; splice_length = 0 } in
    let al = aligned_of a chunk needed in
    let k = hold-Holds chunk needed before v.align_pos v.align_max b.no_trailing h in
    let t = hold chunk needed before in
    let tail = t.item_trailing_ptr in
    let len = t.item_trailing_length in
    let n : length (take needed chunk) ≡ needed = length-take needed chunk ∙ omega (arith, h) in
    let full : take a sb ≡ take sl s.splice_buffer ++ take needed chunk =
      take-blit s.splice_buffer sl (take needed chunk) a (omega (arith, n, v.splice_small))
        (omega (arith, v.align_max, v.splice_room)) in
    let room : length sb ≡ 8 = length-blit s.splice_buffer sl (take needed chunk) ∙ v.splice_room in
    subst
      (λ (u : Source). TakesIn chunk s (record u {
        current_data = in_splice 0;
        current_available = a;
        queued_data = in_item needed;
        queued_length = al;
      }))
      (sym k.frame)
      (record {
        valid =
            held-IsValid s chunk tail len (in_splice 0) a (in_item needed) al sb 0 v refl room
              (length-take a sb ∙ omega (arith, room, v.align_max))
              (length-piece needed al chunk k.end_in) k.tail_in k.tail_small k.frames;
        same =
            (λ i. full i ++ (take al (drop needed chunk) ++ (k.tail i ++ [])))
            ∙ ap
                (λ u.
                  (take sl s.splice_buffer ++ take needed chunk)
                  ++ (take al (drop needed chunk) ++ u))
                (append-nil _)
            ∙ append_assoc (take sl s.splice_buffer) (take needed chunk) _
            ∙ ap (λ u. take sl s.splice_buffer ++ u) (pieces needed al chunk)
            ∙ sym (ap (λ u. u ++ chunk) (contents-bare s b.spent b.no_trailing));
      })

-- A chunk met with no frame in the making is exposed up to its tail, or given back if it is all
-- tail.
pub expose_chunk-TakesIn :
    (chunk : List ℕ) (s : Source)
    → Bare s
    → s.splice_length ≡ 0
    → TakesIn chunk s (expose_chunk chunk s).1
unfolding expose_chunk
expose_chunk-TakesIn chunk s b z =
    let v = b.valid in
    let a = s.alignment_bytes in
    let sb = s.splice_buffer in
    let al = aligned_of a chunk 0 in
    let k = hold-Holds chunk 0 s v.align_pos v.align_max b.no_trailing (omega arith) in
    let t = hold chunk 0 s in
    let tail = t.item_trailing_ptr in
    let len = t.item_trailing_length in
    let empty : contents s ≡ [] =
      contents-bare s b.spent b.no_trailing ∙ ap (λ (n : ℕ). take n sb) z in
    let none_spliced : spliced s ≡ [] = ap (λ (n : ℕ). take n sb) z in
    let q = s.queued_data in
    let none_queued = read_none sb (some chunk) q s.queued_length b.spent.no_queued in
    elim (Bool-cases (al == 0)) [
      | inr e ↦ rw e (
          subst
            (λ (u : Source).
              TakesIn chunk s (record u { current_data = in_item 0; current_available = al }))
            (sym k.frame)
            (record {
              valid =
                  held-IsValid s chunk tail len (in_item 0) al q s.queued_length sb s.splice_length
                    v z v.splice_room (length-piece 0 al chunk k.end_in)
                    (read_in sb (some chunk) q s.queued_length b.spent.no_queued) k.tail_in
                    k.tail_small v.queued_whole;
              same =
                  (λ i. take al chunk ++ (none_queued i ++ (k.tail i ++ none_spliced i)))
                  ∙ ap (λ u. take al chunk ++ u) (append-nil _)
                  ∙ pieces 0 al chunk
                  ∙ sym (ap (λ u. u ++ chunk) empty);
            }))
      | inl e ↦ rw e (
          subst (λ (u : Source). TakesIn chunk s (release_item u)) (sym k.frame)
            (let cur = s.current_data in
              let none_exposed =
                read_none sb (some chunk) cur s.current_available b.spent.no_exposed in
              let w =
                held-IsValid s chunk tail len cur s.current_available q s.queued_length sb
                  s.splice_length v z v.splice_room
                  (read_in sb (some chunk) cur s.current_available b.spent.no_exposed)
                  (read_in sb (some chunk) q s.queued_length b.spent.no_queued) k.tail_in
                  k.tail_small v.queued_whole in
              let u =
                held s chunk tail len cur s.current_available q s.queued_length sb
                  s.splice_length in
              let r =
                release_item-Releases u w
                  (record { no_exposed = b.spent.no_exposed; no_queued = b.spent.no_queued }) in
              let start : 0 + al ≡ 0 = ground (arith, e) in
              record {
                valid = r.valid;
                same =
                    r.same
                    ∙ (λ i. none_exposed i ++ (none_queued i ++ (k.tail i ++ none_spliced i)))
                    ∙ append-nil _
                    ∙ ap (λ (n : ℕ). drop n chunk) start
                    ∙ sym (ap (λ u. u ++ chunk) empty);
              }))
    ]
