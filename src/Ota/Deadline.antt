-- ===== src/Ota/Deadline.antt =====
-- `readall_` of components/meshmesh/ota/ota_meshmesh.cpp and the clock.
use esphome_meshmesh.Prelude.{
  ℕ, zero, suc, ◌+◌, ◌-◌, ◌≤◌, ◌<◌, ◌≡◌, refl, sym, ap, ◌∙◌, subst, inl, inr, Bool, true, false,
  arith, length, length-take, blit, Bool-cases, ltb, leb, ◌==◌,
}
use esphome_meshmesh.Mesh.{sub32}
use esphome_meshmesh.Ota.State.{ordinal, Platform, Ota, done, data_timeout_ms}
use esphome_meshmesh.Ota.Rx.{rx_read, yield_and_feed_watchdog, check_timeout}
use esphome_meshmesh.Ota.Data.{readall}
use esphome_meshmesh.Ota.Queue.{contents, rx_read_lem}
use esphome_meshmesh.Ota.Invariant.{Buffers}
use esphome_meshmesh.Ota.Keep.{SameSession}
use esphome_meshmesh.Ota.Waiting.{
  Calm, rx_read-Buffers, blit-Buffers, yield-Continues, yield-turn, drained,
}

-- A data phase that started at `start`.
pub record InData (s : Ota) (start : ℕ) : Type 0 where
  pub phase : 7 ≤ ordinal s.ota_state
  pub started : s.data_phase_start_ms ≡ start

InData-same : (s t : Ota) (start : ℕ) → SameSession s t → InData s start → InData t start
InData-same s t start e d = record {
  phase = subst (λ u. 7 ≤ ordinal u.ota_state) (sym e) d.phase;
  started = ap (λ u. u.data_phase_start_ms) e ∙ d.started;
}

module _ (P : Platform) where
  late_check :
      (s : Ota) (start : ℕ)
      → InData s start
      → data_timeout_ms < sub32 (P.millis s.turn) start
      → check_timeout P s data_timeout_ms ≡ true
  unfolding check_timeout
  late_check s start d h = ground (arith, d.phase, d.started, h)

  -- A time that is not up is before the late call.
  before :
      (s : Ota) (start late : ℕ)
      → InData s start
      → s.turn ≤ late
      → data_timeout_ms < sub32 (P.millis late) start
      → check_timeout P s data_timeout_ms ≡ false
      → s.turn < late
  before s start late d h c o = elim (Bool-cases (late == s.turn)) [
    | inl p ↦
        let q : late ≡ s.turn = ground (arith, p) in
        let up =
          late_check s start d
            (subst (λ (k : ℕ). data_timeout_ms < sub32 (P.millis k) start) q c) in
        cc
    | inr p ↦ ground (arith, p, h)
  ]

  -- If a pass of the mesh loop delivers at most 8192 bytes, the buffers are valid, the data phase
  -- began at `start`, and at some later call `late` of the outside the clock is more than 90 seconds
  -- past it, then `readall_` returns, given fuel for the calls until then and for each byte.
  pub readall-Returns :
      (fuel : ℕ) (s : Ota) (at len start late : ℕ)
      → Calm P
      → Buffers s
      → InData s start
      → at ≤ len
      → s.turn < late
      → data_timeout_ms < sub32 (P.millis late) start
      → late + len < fuel + s.turn + at
      → (b : Bool) × (t : Ota) × (readall P fuel s at len ≡ done (b, t))
  unfolding readall
  readall-Returns zero s at len start late calm v d a l c f = absurd (omega arith)
  readall-Returns (suc fuel) s at len start late calm v d a l c f =
      let got = (rx_read s (len - at)).0 in
      let s' = (rx_read s (len - at)).1 in
      let r = rx_read-Buffers s (len - at) v in
      let same_turn : s'.turn ≡ s.turn = ap (λ u. u.turn) (rx_read_lem s (len - at) v.rx).frame in
      let q = blit-Buffers s' at got r.1 in
      let stored : Ota = record s' { data_buf = blit s'.data_buf at got } in
      let d' = InData-same s s' start r.0 d in
      let got_in : length got ≤ len - at = omega (
        arith,
        ap length (rx_read_lem s (len - at) v.rx).got_oldest,
        length-take (len - at) (contents s),
      ) in
      elim (Bool-cases (leb len at)) [
        | inl e ↦ rw e (true, s, refl)
        | inr e ↦ rw e (elim (Bool-cases (ltb 0 (length got))) [
          | inl g ↦ rw g (
              readall-Returns fuel stored (at + length got) len start late calm q.1
                (InData-same s' stored start q.0 d') (omega (arith, got_in, a))
                (omega (arith, same_turn, l)) c (ground (arith, g, same_turn, f)))
          | inr g ↦
              let e0 = drained s len at v (ground (arith, e)) (ground (arith, g)) in
              let w = yield-Continues P s' calm r.1 e0 in
              let wait : Ota = yield_and_feed_watchdog P s' in
              let ticked : wait.turn ≡ suc s.turn =
                yield-turn P s' calm r.1 e0 ∙ ap suc same_turn in
              let dw = InData-same s' wait start w.0 d' in
              rw g (elim (Bool-cases (check_timeout P wait data_timeout_ms)) [
                | inl o ↦ rw o (false, wait, refl)
                | inr o ↦ rw o (
                    readall-Returns fuel wait at len start late calm w.1 dw a
                      (before wait start late dw (omega (arith, ticked, l)) c o) c
                      (omega (arith, ticked, f)))
              ])
        ])
      ]
