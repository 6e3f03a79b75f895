-- ===== src/Audio/Runs.antt =====
-- Runs of `RingBufferAudioSource` (components/audio/audio_transfer_buffer.cpp): fills and
-- consumptions in any order.
use esphome_meshmesh.Prelude.{
  ℕ, ◌≡◌, ◌≤◌, ◌<◌, refl, sym, ap, ◌∙◌, min, Bool, true, false, Option, none, some, List, [], ◌∷◌,
  ◌++◌, append_assoc, append-nil, arith, length, take, take-append-drop, length-append, length-take,
}
use esphome_meshmesh.Audio.Source.{
  Source, make, create, consume, fill, has_buffered_data, clear_buffered_data, drop_item,
}
use esphome_meshmesh.Audio.Stream.{
  contents-Spent, trailing, spliced, exposed, contents, Spent, IsValid, bare-IsValid, contents-bare,
}
use esphome_meshmesh.Audio.Reading.{consume-Consumes}
use esphome_meshmesh.Audio.Refill.{taken, fill-TakesIn}

-- A fill with the answer of the ring buffer, or a consumption of so many bytes.
pub data Step : Type 0 where
  refill : Option (List ℕ) → Step
  use_up : ℕ → Step

-- What the reader has seen and used up, and what came from the ring buffer, over a run.
pub record Ran : Type 0 where
  pub output : List ℕ
  pub input : List ℕ
  pub final : Source

abbrev pub then_ran : List ℕ → List ℕ → Ran → Ran
then_ran out inp r = record r { output = out ++ r.output; input = inp ++ r.input }

unfoldable pub run : List Step → Source → Ran
run [] s = record { output = []; input = []; final = s }
run (refill answer ∷ es) s = then_ran [] (taken answer s) (run es (fill answer s).1)
run (use_up n ∷ es) s =
    then_ran (take (min n s.current_available) (exposed s)) [] (run es (consume n s))

-- From a valid state, over any sequence of fills and consumptions, the bytes that the reader has
-- used up, followed by those still held, are the bytes held at the start followed by those that came
-- from the ring buffer: none is lost, repeated or out of order. The state stays valid.
pub run-output :
    (es : List Step) (s : Source)
    → IsValid s
    → let r = run es s in (r.output ++ contents r.final ≡ contents s ++ r.input) × IsValid r.final
unfolding run
run-output [] s v = (sym (append-nil (contents s)), v)
run-output (refill answer ∷ es) s v =
    let h = fill-TakesIn answer s v in
    let t = (fill answer s).1 in
    let (e, w) = run-output es t h.valid in
    (e ∙ ap (λ u. u ++ (run es t).input) h.same ∙ append_assoc (contents s) (taken answer s) _, w)
run-output (use_up n ∷ es) s v =
    let h = consume-Consumes n s v in
    let t = consume n s in
    let k = min n s.current_available in
    let (e, w) = run-output es t h.valid in
    (
      append_assoc (take k (exposed s)) (run es t).output (contents (run es t).final)
          ∙ ap (λ u. take k (exposed s) ++ u) e
          ∙ sym (append_assoc (take k (exposed s)) (contents t) (run es t).input)
          ∙ ap (λ u. u ++ (run es t).input)
              ((λ i. h.seen i ++ h.rest i) ∙ take-append-drop k (contents s)),
      w,
    )

-- With a ring buffer, a cap that is not 0 and an alignment from 1 to 8, a source is made, which is
-- valid and holds nothing.
pub create-IsValid :
    (memory : List ℕ) (cap alignment : ℕ)
    → length memory ≡ 8
    → 1 ≤ cap
    → 1 ≤ alignment
    → alignment ≤ 8
    → (s : Source) × (create true memory cap alignment ≡ some s) × IsValid s × (contents s ≡ [])
unfolding create make
create-IsValid memory cap alignment l c lo hi =
    let s = make memory cap alignment in
    let h : Spent s = record { no_exposed = refl; no_queued = refl } in
    (s, ground arith, bare-IsValid s h refl lo hi l (omega (arith, lo)), contents-bare s h refl)

-- Giving the item back without a look at its tail.
record Kept (s t : Source) : Type 0 where
  none_held : t.acquired_item ≡ none
  alignment_kept : t.alignment_bytes ≡ s.alignment_bytes
  splice_kept : t.splice_buffer ≡ s.splice_buffer

drop_item-Kept : (o : Option (List ℕ)) (s : Source) → s.acquired_item ≡ o → Kept s (drop_item o s)
drop_item-Kept none s e = record { none_held = e; alignment_kept = refl; splice_kept = refl }
drop_item-Kept (some b) s e = record { none_held = refl; alignment_kept = refl; splice_kept = refl }

-- From a valid state, a clearing leaves a valid state that holds no item and no byte, with the same
-- alignment.
pub clear_buffered_data-empty :
    (s : Source)
    → IsValid s
    → let t = clear_buffered_data s in
      IsValid t
      × (contents t ≡ [])
      × (t.acquired_item ≡ none)
      × (t.alignment_bytes ≡ s.alignment_bytes)
unfolding clear_buffered_data
clear_buffered_data-empty s v =
    let t = clear_buffered_data s in
    let d = drop_item-Kept s.acquired_item s refl in
    let a = d.alignment_kept in
    let h : Spent t = record { no_exposed = refl; no_queued = refl } in
    (
      bare-IsValid t h refl (omega (arith, a, v.align_pos)) (omega (arith, a, v.align_max))
          (ap length d.splice_kept ∙ v.splice_room) (omega (arith, a, v.align_pos)),
      refl,
      d.none_held,
      a,
    )

-- In a valid state, where a source denies to have data, the ring buffer is empty and what is held is
-- less than a frame.
pub has_buffered_data-short :
    (s : Source) (ring_available : Bool)
    → IsValid s
    → has_buffered_data ring_available s ≡ false
    → (ring_available ≡ false) × (length (contents s) < s.alignment_bytes)
unfolding has_buffered_data
has_buffered_data-short s ring_available v e =
    let h : Spent s = record { no_exposed = ground (arith, e); no_queued = ground (arith, e) } in
    (
      ground (arith, e),
      omega (
        arith,
        ap length (contents-Spent s h),
        length-append (trailing s) (spliced s),
        v.trailing_in,
        length-take s.splice_length s.splice_buffer,
        v.splice_small,
        v.trailing_small,
        v.alone,
      ),
    )
