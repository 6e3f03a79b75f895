-- ===== src/Audio/Stream.antt =====
-- `RingBufferAudioSource` (components/audio/audio_transfer_buffer.cpp) as a stream of bytes.
use esphome_meshmesh.Prelude.{
  ℕ, zero, suc, ◌-◌, ◌*◌, ◌≤◌, ◌<◌, ◌≡◌, ◌⊎◌, inl, inr, refl, sym, ap, ◌∙◌, Option, none, some,
  List, [], ◌∷◌, ◌++◌, append-nil, arith, length, take, drop, blit, take-blit, drop-drop,
  length-blit, take-nil, drop-nil, Bool-cases, ltb,
}
use esphome_meshmesh.Audio.Source.{
  Place, nowhere, in_splice, in_item, Call, Source, advance, read_at, bytes_at, save_trailing,
  release_held, release_item,
}

-- The bytes that the reader sees, those queued behind them, the tail of the item, and the beginning
-- of a frame that waits for its rest.
abbrev pub exposed : Source → List ℕ
exposed s = bytes_at s s.current_data s.current_available

abbrev pub queued : Source → List ℕ
queued s = bytes_at s s.queued_data s.queued_length

abbrev pub trailing : Source → List ℕ
trailing s = bytes_at s s.item_trailing_ptr s.item_trailing_length

abbrev pub spliced : Source → List ℕ
spliced s = take s.splice_length s.splice_buffer

-- The bytes taken from the ring buffer and not consumed, in order.
abbrev pub contents : Source → List ℕ
contents s = exposed s ++ (queued s ++ (trailing s ++ spliced s))

-- `n` bytes are whole frames of `alignment` bytes.
abbrev pub Whole : ℕ → ℕ → Type 0
Whole alignment n = (k : ℕ) × (n ≡ alignment * k)

-- All pointers stay inside the memory they point to, what is queued is whole
-- frames, and a frame in the making stands alone.
pub record IsValid (s : Source) : Type 0 where
  pub align_pos : 1 ≤ s.alignment_bytes
  pub align_max : s.alignment_bytes ≤ 8
  pub splice_room : length s.splice_buffer ≡ 8
  pub exposed_in : length (exposed s) ≡ s.current_available
  pub queued_in : length (queued s) ≡ s.queued_length
  pub trailing_in : length (trailing s) ≡ s.item_trailing_length
  pub trailing_small : s.item_trailing_length < s.alignment_bytes
  pub splice_small : s.splice_length < s.alignment_bytes
  pub queued_whole : Whole s.alignment_bytes s.queued_length
  pub unheld : s.acquired_item ≡ none → s.item_trailing_length ≡ 0
  pub alone :
      (s.splice_length ≡ 0)
      ⊎ ((s.current_available ≡ 0) × (s.queued_length ≡ 0) × (s.item_trailing_length ≡ 0))

pub read_at_zero : (b : List ℕ) (item : Option (List ℕ)) (p : Place) → read_at b item p 0 ≡ []
read_at_zero b item nowhere = refl
read_at_zero b item (in_splice o) = refl
read_at_zero b item (in_item o) = refl

pub drop-take : (k n : ℕ) (xs : List ℕ) → drop k (take n xs) ≡ take (n - k) (drop k xs)
drop-take zero n xs = let e : n ≡ n - 0 = omega arith in ap (λ (m : ℕ). take m xs) e
drop-take (suc k) zero xs =
    let e : 0 ≡ 0 - suc k = omega arith in ap (λ (m : ℕ). take m (drop (suc k) xs)) e
drop-take (suc k) (suc n) [] = sym (take-nil _)
drop-take (suc k) (suc n) (x ∷ xs) =
    let e : n - k ≡ suc n - suc k = omega arith in
    drop-take k n xs ∙ ap (λ (m : ℕ). take m (drop k xs)) e

-- Moving a pointer on drops the bytes passed.
pub read_at-advance :
    (b : List ℕ) (item : Option (List ℕ)) (p : Place) (k n : ℕ)
    → read_at b item (advance p k) (n - k) ≡ drop k (read_at b item p n)
read_at-advance b item nowhere k n = sym (drop-nil k)
read_at-advance b item (in_splice o) k n =
    ap (take (n - k)) (sym (drop-drop o k b)) ∙ sym (drop-take k n _)
read_at-advance b item (in_item o) k n =
    ap (take (n - k)) (sym (drop-drop o k _)) ∙ sym (drop-take k n _)

-- Nothing is exposed or queued.
pub record Spent (s : Source) : Type 0 where
  pub no_exposed : s.current_available ≡ 0
  pub no_queued : s.queued_length ≡ 0

pub read_none :
    (b : List ℕ) (item : Option (List ℕ)) (p : Place) (n : ℕ) → n ≡ 0 → read_at b item p n ≡ []
read_none b item p n e = ap (read_at b item p) e ∙ read_at_zero b item p

-- Where nothing is exposed or queued, the contents are the tail and the frame in the making.
pub contents-Spent : (s : Source) → Spent s → contents s ≡ trailing s ++ spliced s
contents-Spent s h = λ i.
    read_none s.splice_buffer s.acquired_item s.current_data _ h.no_exposed i
    ++ (read_none s.splice_buffer s.acquired_item s.queued_data _ h.no_queued i
        ++ (trailing s ++ spliced s))

-- A release of the item keeps the contents, and leaves no tail.
pub record Releases (s t : Source) : Type 0 where
  pub valid : IsValid t
  pub same : contents t ≡ contents s
  pub spent : Spent t
  pub no_trailing : t.item_trailing_length ≡ 0
  pub released : t.acquired_item ≡ none
  pub alignment_kept : t.alignment_bytes ≡ s.alignment_bytes

-- The state after a release, written out.
saved_len : (s : Source) → IsValid s → length (blit s.splice_buffer 0 (trailing s)) ≡ 8
saved_len s v = length-blit s.splice_buffer 0 (trailing s) ∙ v.splice_room

saved_bytes :
    (s : Source)
    → IsValid s
    → take s.item_trailing_length (blit s.splice_buffer 0 (trailing s)) ≡ trailing s
saved_bytes s v =
    take-blit s.splice_buffer 0 (trailing s) s.item_trailing_length (ground (arith, v.trailing_in))
      (ground (arith, v.trailing_small, v.align_max, v.splice_room))

-- An empty region lies inside its memory.
pub read_in :
    (b : List ℕ) (item : Option (List ℕ)) (p : Place) (n : ℕ)
    → n ≡ 0
    → length (read_at b item p n) ≡ n
read_in b item p n e = ap length (read_none b item p n e) ∙ sym e

-- Where there is no tail either, the contents are the frame in the making.
pub contents-bare : (s : Source) → Spent s → s.item_trailing_length ≡ 0 → contents s ≡ spliced s
contents-bare s h e =
    contents-Spent s h
    ∙ ap (λ u. u ++ spliced s) (read_none s.splice_buffer s.acquired_item s.item_trailing_ptr _ e)

-- A state with nothing but a frame in the making.
pub bare-IsValid :
    (s : Source)
    → Spent s
    → s.item_trailing_length ≡ 0
    → 1 ≤ s.alignment_bytes
    → s.alignment_bytes ≤ 8
    → length s.splice_buffer ≡ 8
    → s.splice_length < s.alignment_bytes
    → IsValid s
bare-IsValid s h e a m r l = record {
  align_pos = a;
  align_max = m;
  splice_room = r;
  exposed_in = read_in s.splice_buffer s.acquired_item _ _ h.no_exposed;
  queued_in = read_in s.splice_buffer s.acquired_item _ _ h.no_queued;
  trailing_in = read_in s.splice_buffer s.acquired_item _ _ e;
  trailing_small = ground arith;
  splice_small = l;
  queued_whole = (0, h.no_queued ∙ omega arith);
  unheld = λ _. e;
  alone = inr (h.no_exposed, h.no_queued, e);
}

-- The states after a release, with a tail to save and without one.
abbrev saved : Source → Source
saved s = record s {
  splice_buffer = blit s.splice_buffer 0 (trailing s);
  splice_length = s.item_trailing_length;
  item_trailing_ptr = nowhere;
  item_trailing_length = 0;
  acquired_item = none;
  calls = Call.receive_release ∷ s.calls;
}

abbrev let_go : Source → Source
let_go s = record s { acquired_item = none; calls = Call.receive_release ∷ s.calls }

release_held-Releases :
    (b : List ℕ) (s : Source) → IsValid s → Spent s → Releases s (release_held (some b) s)
unfolding release_held save_trailing
release_held-Releases b s v h = elim (Bool-cases (ltb 0 s.item_trailing_length)) [
  | inl e ↦
      let z : s.splice_length ≡ 0 = ground (arith, v.alone) in
      let none_spliced : spliced s ≡ [] = ap (λ (n : ℕ). take n s.splice_buffer) z in
      rw e (record {
        valid =
            bare-IsValid (saved s) (record { no_exposed = h.no_exposed; no_queued = h.no_queued })
              refl v.align_pos v.align_max (saved_len s v) v.trailing_small;
        same =
            contents-bare (saved s) (record { no_exposed = h.no_exposed; no_queued = h.no_queued })
              refl
            ∙ saved_bytes s v
            ∙ sym (
                contents-Spent s h
                ∙ ap (λ u. trailing s ++ u) none_spliced
                ∙ append-nil (trailing s));
        spent = record { no_exposed = h.no_exposed; no_queued = h.no_queued };
        no_trailing = refl;
        released = refl;
        alignment_kept = refl;
      })
  | inr e ↦
      let z : s.item_trailing_length ≡ 0 = ground arith in
      rw e (record {
        valid =
            bare-IsValid (let_go s) (record { no_exposed = h.no_exposed; no_queued = h.no_queued })
              z v.align_pos v.align_max v.splice_room v.splice_small;
        same =
            contents-bare (let_go s) (record { no_exposed = h.no_exposed; no_queued = h.no_queued })
              z
            ∙ sym (contents-bare s h z);
        spent = record { no_exposed = h.no_exposed; no_queued = h.no_queued };
        no_trailing = z;
        released = refl;
        alignment_kept = refl;
      })
]

pub release_item-Releases : (s : Source) → IsValid s → Spent s → Releases s (release_item s)
unfolding release_item release_held
release_item-Releases s v h = go s.acquired_item refl
  where
    go : (o : Option (List ℕ)) → s.acquired_item ≡ o → Releases s (release_held o s)
    go (some b) e = release_held-Releases b s v h
    go none e = record {
      valid = v;
      same = refl;
      spent = h;
      no_trailing = v.unheld e;
      released = e;
      alignment_kept = refl;
    }
