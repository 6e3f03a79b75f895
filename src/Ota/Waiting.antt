-- ===== src/Ota/Waiting.antt =====
-- `readall_` of components/meshmesh/ota/ota_meshmesh.cpp and the datagrams that come in while it
-- waits, and what they leave of the session.
use esphome_meshmesh.Prelude.{
  ℕ, zero, suc, ◌+◌, ◌-◌, ◌^◌, ◌≤◌, ◌<◌, ◌≡◌, refl, sym, ap, ◌∙◌, subst, inl, inr, Bool, List, [],
  ◌∷◌, arith, length, length-append, length-blit, length-take, length-drop, blit, Bool-cases, ltb,
  leb, length_zero,
}
use esphome_meshmesh.Ota.State.{
  Frame, Platform, Ota, Run, done, blocked, fault, rx_ring_max, data_timeout_ms,
}
use esphome_meshmesh.Ota.Rx.{
  rx_append, rx_read, check_timeout, handle_frame, handle_frames, yield_and_feed_watchdog,
}
use esphome_meshmesh.Ota.Data.{readall}
use esphome_meshmesh.Ota.Queue.{contents, rx_read_lem, rx_append_lem}
use esphome_meshmesh.Ota.Frames.{
  addressed, Handles, ignored, appended, overflowed, handle_frame-Handles,
}
use esphome_meshmesh.Ota.Invariant.{Buffers, Sound}
use esphome_meshmesh.Ota.Keep.{SameSession, same_trans, rx_append-same, rx_append-Buffers}

abbrev pub total_bytes : List Frame → ℕ
total_bytes [] = 0
total_bytes (f ∷ fs) = length f.payload + total_bytes fs

-- One pass of the mesh loop delivers at most as many bytes as the buffer may hold.
abbrev pub Calm : Platform → Type 0
Calm P = (k : ℕ) → total_bytes (P.arrivals k) ≤ rx_ring_max

-- A session goes on at `t`, with `n` bytes more to read than at `s`, at most.
pub record Continues (s t : Ota) (n : ℕ) : Type 0 where
  pub same : SameSession s t
  pub buffers : Buffers t
  pub grown : length (contents t) ≤ length (contents s) + n
  pub turn_kept : t.turn ≡ s.turn

module _ (P : Platform) where
  Handles-Continues :
      {s : Ota} {f : Frame} {t : Ota}
      → Handles P s f t
      → Buffers s
      → length (contents s) + length f.payload ≤ rx_ring_max
      → Continues s t (length f.payload)
  unfolding rx_append
  Handles-Continues ignored v h = record {
    same = refl;
    buffers = v;
    grown = omega arith;
    turn_kept = refl;
  }
  Handles-Continues {s} {f} (appended k) v h = record {
    same = rx_append-same P s f f.payload;
    buffers = rx_append-Buffers P s f f.payload v k;
    grown = omega (arith, grown-append s f v);
    turn_kept = turn-append s f;
  }
    where
      turn-append : (s : Ota) (f : Frame) → (rx_append (addressed P s f) f.payload).turn ≡ s.turn
      turn-append s f = ground arith

      grown-append :
          (s : Ota) (f : Frame)
          → Buffers s
          → length (contents (rx_append (addressed P s f) f.payload))
            ≤ length (contents s) + length f.payload
      grown-append s f v = ground (
        arith,
        rx_append_lem (addressed P s f) f.payload,
        length-append (contents s) f.payload,
        v.rx,
      )
  Handles-Continues (overflowed k) v h = absurd (omega arith)

  handle_frames-Continues :
      (s : Ota) (fs : List Frame)
      → Buffers s
      → length (contents s) + total_bytes fs ≤ rx_ring_max
      → Continues s (handle_frames P s fs) (total_bytes fs)
  unfolding handle_frames
  handle_frames-Continues s [] v h = record {
    same = refl;
    buffers = v;
    grown = omega arith;
    turn_kept = refl;
  }
  handle_frames-Continues s (f ∷ fs) v h =
      let c = Handles-Continues (handle_frame-Handles P s f) v (omega arith) in
      let d = handle_frames-Continues (handle_frame P s f) fs c.buffers (omega (arith, c.grown)) in
      record {
        same = same_trans s (handle_frame P s f) (handle_frames P s (f ∷ fs)) c.same d.same;
        buffers = d.buffers;
        grown = omega (arith, c.grown, d.grown);
        turn_kept = d.turn_kept ∙ c.turn_kept;
      }

  pub yield-Continues :
      (s : Ota)
      → Calm P
      → Buffers s
      → contents s ≡ []
      → SameSession s (yield_and_feed_watchdog P s) × Buffers (yield_and_feed_watchdog P s)
  unfolding yield_and_feed_watchdog
  yield-Continues s calm v e =
      let ticked : Ota = record s { turn = suc s.turn } in
      let c =
        handle_frames-Continues ticked (P.arrivals s.turn) (ground arith)
          (omega (arith, calm s.turn, ap length e)) in
      (same_trans s ticked (yield_and_feed_watchdog P s) refl c.same, c.buffers)

  -- The pass counts as one call.
  pub yield-turn :
      (s : Ota)
      → Calm P
      → Buffers s
      → contents s ≡ []
      → (yield_and_feed_watchdog P s).turn ≡ suc s.turn
  unfolding yield_and_feed_watchdog
  yield-turn s calm v e =
      let ticked : Ota = record s { turn = suc s.turn } in
      (handle_frames-Continues ticked (P.arrivals s.turn) (ground arith)
        (omega (arith, calm s.turn, ap length e))).turn_kept

-- A read keeps the session and the other buffers.
pub rx_read-Buffers :
    (s : Ota) (len : ℕ) → Buffers s → let (got, s') = rx_read s len in SameSession s s' × Buffers s'
rx_read-Buffers s len v =
    let r = rx_read_lem s len v.rx in
    let s' = (rx_read s len).1 in
    (
      subst (λ u. SameSession s u) (sym r.frame) refl,
      record {
        rx = r.valid;
        rx_bound = omega (arith, v.rx_bound, ap length r.rest, length-drop len (contents s));
        handshake = ap (λ u. length u.handshake_buf) r.frame ∙ v.handshake;
        data_len = ap (λ u. length u.data_buf) r.frame ∙ v.data_len;
        size_word = subst (λ u. u.ota_size < 2 ^ 32) (sym r.frame) v.size_word;
        sound = subst (λ u. Sound u.trace) (sym r.frame) v.sound;
      },
    )

pub blit-Buffers :
    (s : Ota) (at : ℕ) (got : List ℕ)
    → Buffers s
    → SameSession s (record s { data_buf = blit s.data_buf at got })
      × Buffers (record s { data_buf = blit s.data_buf at got })
blit-Buffers s at got v = (refl, ground (arith, length-blit s.data_buf at got))

-- A read of some bytes that gets none leaves nothing.
pub drained :
    (s : Ota) (len at : ℕ)
    → Buffers s
    → at < len
    → length (rx_read s (len - at)).0 ≡ 0
    → contents (rx_read s (len - at)).1 ≡ []
drained s len at v h g =
    let r = rx_read_lem s (len - at) v.rx in
    length_zero _ (
      omega (
        arith,
        ap length r.rest,
        ap length r.got_oldest,
        length-take (len - at) (contents s),
        length-drop (len - at) (contents s),
      ))

module _ (P : Platform) where
  -- The wait ends with the same session, or is still on.
  abbrev pub Waits : Ota → Run (Bool × Ota) → Type 0
  Waits s (done (b, t)) = SameSession s t × Buffers t
  Waits s blocked = Unit {0}
  Waits s fault = ⊥

  Waits-same : (s t : Ota) (r : Run (Bool × Ota)) → SameSession s t → Waits t r → Waits s r
  Waits-same s t (done (b, u)) e w = (same_trans s t u e w.0, w.1)
  Waits-same s t blocked e w = tt
  Waits-same s t fault e w = w

  pub readall-Waits :
      (fuel : ℕ) (s : Ota) (at len : ℕ) → Calm P → Buffers s → Waits s (readall P fuel s at len)
  unfolding readall
  readall-Waits zero s at len calm v = tt
  readall-Waits (suc fuel) s at len calm v =
      let got = (rx_read s (len - at)).0 in
      let s' = (rx_read s (len - at)).1 in
      let r = rx_read-Buffers s (len - at) v in
      let d = blit-Buffers s' at got r.1 in
      let stored : Ota = record s' { data_buf = blit s'.data_buf at got } in
      elim (Bool-cases (leb len at)) [
        | inl e ↦ rw e (refl, v)
        | inr e ↦ rw e (elim (Bool-cases (ltb 0 (length got))) [
          | inl g ↦ rw g (
              Waits-same s stored _ (same_trans s s' stored r.0 d.0)
                (readall-Waits fuel stored (at + length got) len calm d.1))
          | inr g ↦
              let w =
                yield-Continues P s' calm r.1 (drained s len at v (ground arith) (ground arith)) in
              let wait : Ota = yield_and_feed_watchdog P s' in
              rw g (elim (Bool-cases (check_timeout P wait data_timeout_ms)) [
                | inl o ↦ rw o (same_trans s s' wait r.0 w.0, w.1)
                | inr o ↦ rw o (
                    Waits-same s wait _ (same_trans s s' wait r.0 w.0)
                      (readall-Waits fuel wait at len calm w.1))
              ])
        ])
      ]
