-- ===== src/Ota/Firmware.antt =====
-- One pass of the state DATA_FIRMWARE (components/meshmesh/ota/ota_meshmesh.cpp) as a transfer of
-- bytes from the receive buffer to flash.
use esphome_meshmesh.Prelude.{
  ℕ, zero, suc, ◌-◌, ◌<◌, min, not, ◌≡◌, ◌≢◌, refl, ap, sym, ◌∙◌, ◌⊎◌, inl, inr, Bool, true, false,
  List, [], ◌++◌, arith, length, take, drop, length-take, take-nil, drop-nil, append-nil,
  length_zero, Bool-cases, ltb, leb, ◌==◌, if◌then◌else◌,
}
use esphome_meshmesh.Mesh.{sub32, add32}
use esphome_meshmesh.Ota.State.{Platform, Ota, Run, done, blocked, fault, ◌>>=◌, ota_block_size}
use esphome_meshmesh.Ota.Rx.{
  rx_available, rx_read, transition_ota_state, send_to_peer, handle_frames, yield_and_feed_watchdog,
}
use esphome_meshmesh.Ota.Data.{
  write_byte, chunk_due, acknowledge_chunks, report_progress, flash, requested, data_firmware,
}
use esphome_meshmesh.Ota.Queue.{contents, rx_available-length, rx_read_lem}
use esphome_meshmesh.Ota.Frames.{Closed, send_error_and_cleanup-Closed}
use esphome_meshmesh.Ota.Invariant.{Buffers, written}

-- Nothing comes in during the passes looked at.
abbrev pub Quiet : Platform → Type 0
Quiet P = (k : ℕ) → P.arrivals k ≡ []

-- The most that a pass may take: what is still missing, and at most 1024 bytes.
abbrev pub portion : Ota → ℕ
portion s = min (s.ota_size - s.firmware_total) 1024

-- The oldest waiting bytes, as many as a pass may take.
abbrev pub taken : Ota → List ℕ
taken s = take (portion s) (contents s)

-- From `s` to `t` those bytes have gone from the buffer to flash, and the session goes on.
pub record Moves (s t : Ota) : Type 0 where
  pub to_flash : written t.trace ≡ written s.trace ++ taken s
  pub kept : contents t ≡ drop (portion s) (contents s)
  pub peer_kept : t.has_peer ≡ s.has_peer
  pub backend_kept : t.backend ≡ s.backend

requested-portion : (s : Ota) → requested s ≡ portion s
unfolding requested
requested-portion s = ground arith

-- The same bytes wait, the same bytes are in flash, and the session goes on.
pub record Stays (s t : Ota) : Type 0 where
  pub flashed : written t.trace ≡ written s.trace
  pub waiting : contents t ≡ contents s
  pub peer_same : t.has_peer ≡ s.has_peer
  pub backend_same : t.backend ≡ s.backend

module _ (P : Platform) where
  yield-Stays : (s : Ota) → Quiet P → Stays s (yield_and_feed_watchdog P s)
  unfolding yield_and_feed_watchdog handle_frames
  yield-Stays s quiet =
      rw (quiet s.turn, handle_frames)
        (record { flashed = refl; waiting = refl; peer_same = refl; backend_same = refl })

  write_byte-Stays : (s : Ota) (b : ℕ) → Stays s (write_byte P s b).1
  unfolding write_byte send_to_peer
  write_byte-Stays s b = ground arith

  abbrev StaysRun : Ota → Run (Bool × Ota) → Type 0
  StaysRun s (done (b, t)) = Stays s t
  StaysRun s blocked = Unit {0}
  StaysRun s fault = ⊥

  StaysRun-trans : (s t : Ota) (r : Run (Bool × Ota)) → Stays s t → StaysRun t r → StaysRun s r
  StaysRun-trans s t (done (b, u)) p q = record {
    flashed = q.flashed ∙ p.flashed;
    waiting = q.waiting ∙ p.waiting;
    peer_same = q.peer_same ∙ p.peer_same;
    backend_same = q.backend_same ∙ p.backend_same;
  }
  StaysRun-trans s t blocked p q = tt
  StaysRun-trans s t fault p q = q

  acknowledge_chunks-Stays : (fuel : ℕ) (s : Ota) → StaysRun s (acknowledge_chunks P fuel s)
  unfolding acknowledge_chunks
  acknowledge_chunks-Stays zero s = tt
  acknowledge_chunks-Stays (suc fuel) s =
      let w = write_byte-Stays s P.response.chunk_ok in
      let t = (write_byte P s P.response.chunk_ok).1 in
      let more : Ota = record t { size_acknowledged = add32 t.size_acknowledged ota_block_size } in
      elim (Bool-cases (chunk_due s)) [
        | inr e ↦
            rw e (record { flashed = refl; waiting = refl; peer_same = refl; backend_same = refl })
        | inl e ↦ rw e (elim (Bool-cases (write_byte P s P.response.chunk_ok).0) [
          | inr z ↦ rw z w
          | inl z ↦ rw z (
              StaysRun-trans s more _
                (record {
                  flashed = w.flashed;
                  waiting = w.waiting;
                  peer_same = w.peer_same;
                  backend_same = w.backend_same;
                })
                (acknowledge_chunks-Stays fuel more))
        ])
      ]

  report_progress-Stays : (s : Ota) → Quiet P → Stays s (report_progress P s)
  unfolding report_progress
  report_progress-Stays s quiet =
      elim (Bool-cases (ltb 1000 (sub32 (P.millis s.turn) s.last_progress_ms))) [
        | inl e ↦ rw e (
            let y = yield-Stays (record s { last_progress_ms = P.millis s.turn }) quiet in
            record {
              flashed = y.flashed;
              waiting = y.waiting;
              peer_same = y.peer_same;
              backend_same = y.backend_same;
            })
        | inr e ↦
            rw e (record { flashed = refl; waiting = refl; peer_same = refl; backend_same = refl })
      ]

  -- A pass moves the bytes if there are none or the write succeeds, and closes the session if there
  -- are some and the write fails.
  pub record Passes (s t : Ota) : Type 0 where
    pub moves : (taken s ≡ []) ⊎ (P.write_code s.turn (taken s) ≡ P.response.ok) → Moves s t
    pub gives_up : 0 < length (taken s) → P.write_code s.turn (taken s) ≢ P.response.ok → Closed t

  abbrev pub PassesRun : Ota → Run Ota → Type 0
  PassesRun s (done t) = Passes s t
  PassesRun s blocked = Unit {0}
  PassesRun s fault = ⊥

  abbrev MovesRun : Ota → Run Ota → Type 0
  MovesRun s (done t) = Moves s t
  MovesRun s blocked = Unit {0}
  MovesRun s fault = ⊥

  -- A pass that moves the bytes, there being none or the write having succeeded.
  Passes-moved :
      (s : Ota) (r : Run Ota)
      → (taken s ≡ []) ⊎ (P.write_code s.turn (taken s) ≡ P.response.ok)
      → MovesRun s r
      → PassesRun s r
  Passes-moved s (done t) w m = record {
    moves = λ _. m;
    gives_up =
        λ n bad. elim w [ inl e ↦ absurd (omega (arith, n, ap length e)) | inr e ↦ absurd (bad e) ];
  }
  Passes-moved s blocked w m = tt
  Passes-moved s fault w m = m

  -- Once `got` is counted, what follows moves no byte.
  settle :
      (s counted : Ota) (r : Run (Bool × Ota))
      → Quiet P
      → Moves s counted
      → StaysRun counted r
      → MovesRun s (r >>= λ q. done (if q.0 then report_progress P q.1 else q.1))
  settle s counted (done (true, t)) quiet m y =
      let z = report_progress-Stays t quiet in
      record {
        to_flash = z.flashed ∙ y.flashed ∙ m.to_flash;
        kept = z.waiting ∙ y.waiting ∙ m.kept;
        peer_kept = z.peer_same ∙ y.peer_same ∙ m.peer_kept;
        backend_kept = z.backend_same ∙ y.backend_same ∙ m.backend_kept;
      }
  settle s counted (done (false, t)) quiet m y = record {
    to_flash = y.flashed ∙ m.to_flash;
    kept = y.waiting ∙ m.kept;
    peer_kept = y.peer_same ∙ m.peer_kept;
    backend_kept = y.backend_same ∙ m.backend_kept;
  }
  settle s counted blocked quiet m y = tt
  settle s counted fault quiet m y = y

  -- What is asked for is nothing, or nothing waits: the pass moves no byte.
  Moves-none : (s t : Ota) → Stays s t → (portion s ≡ 0) ⊎ (contents s ≡ []) → Moves s t
  Moves-none s t y (inl e) = record {
    to_flash = y.flashed ∙ rw (e, take) (sym (append-nil (written s.trace)));
    kept = y.waiting ∙ rw (e, drop) refl;
    peer_kept = y.peer_same;
    backend_kept = y.backend_same;
  }
  Moves-none s t y (inr e) = record {
    to_flash = y.flashed ∙ rw (e, take-nil) (sym (append-nil (written s.trace)));
    kept = y.waiting ∙ rw (e, drop-nil) refl;
    peer_kept = y.peer_same;
    backend_kept = y.backend_same;
  }

  taken-none : (s : Ota) → (portion s ≡ 0) ⊎ (contents s ≡ []) → taken s ≡ []
  taken-none s (inl e) = rw (e, take) refl
  taken-none s (inr e) = rw (e, take-nil) refl

  -- Nothing is taken.
  Passes-none : (s t : Ota) → Stays s t → (portion s ≡ 0) ⊎ (contents s ≡ []) → Passes s t
  Passes-none s t y e = Passes-moved s (done t) (inl (taken-none s e)) (Moves-none s t y e)

  flash-Passes :
      (fuel : ℕ) (s s' : Ota) (got : List ℕ)
      → Quiet P
      → s.backend ≡ true
      → s'.backend ≡ s.backend
      → s'.has_peer ≡ s.has_peer
      → s'.turn ≡ s.turn
      → written s'.trace ≡ written s.trace
      → got ≡ taken s
      → 0 < length got
      → contents s' ≡ drop (portion s) (contents s)
      → PassesRun s (flash P fuel s' got)
  unfolding flash
  flash-Passes fuel s s' got quiet b bb p n w g some_got k =
      let there : not s'.backend ≡ false = ap not (bb ∙ b) in
      let same : P.write_code s'.turn got ≡ P.write_code s.turn (taken s) =
        λ i. P.write_code (n i) (g i) in
      elim (Bool-cases (P.write_code s'.turn got == P.response.ok)) [
        | inr e ↦
            rw (there, e)
              (record {
                moves = λ h. elim h [
                  | inl z ↦ absurd (omega (arith, some_got, ap length g, ap length z))
                  | inr z ↦ absurd (ground (arith, e, same, z))
                ];
                gives_up = λ _ _. send_error_and_cleanup-Closed P _ _;
              })
        | inl e ↦
            rw (there, e)
              (Passes-moved s _ (inr (ground (arith, e, same))) (
                settle s _ _ quiet
                  (record {
                    to_flash = λ i. w i ++ g i;
                    kept = k;
                    peer_kept = p;
                    backend_kept = bb;
                  })
                  (acknowledge_chunks-Stays fuel _)))
      ]

  -- With nothing coming in meanwhile, a pass of DATA_FIRMWARE writes the oldest waiting bytes to
  -- flash behind those already there and keeps the rest in order: as many as are still missing, at
  -- most 1024 and at most those that wait. Where the write fails the session is given up.
  pub data_firmware-Passes :
      (fuel : ℕ) (s : Ota)
      → Quiet P
      → Buffers s
      → s.backend ≡ true
      → PassesRun s (data_firmware P fuel s)
  unfolding data_firmware transition_ota_state
  data_firmware-Passes fuel s quiet v b =
      let n = requested s in
      let got = (rx_read s n).0 in
      let s' = (rx_read s n).1 in
      let r = rx_read_lem s n v.rx in
      let q = requested-portion s in
      let all : got ≡ taken s = r.got_oldest ∙ ap (λ (k : ℕ). take k (contents s)) q in
      elim (Bool-cases (leb s.ota_size s.firmware_total)) [
        | inl e ↦ rw e (
            Passes-none s _
              (record { flashed = refl; waiting = refl; peer_same = refl; backend_same = refl })
              (inl (ground arith)))
        | inr e ↦ rw e (elim (Bool-cases (rx_available s == 0)) [
          | inl z ↦ rw z (
              Passes-none s _ (yield-Stays s quiet)
                (inr (length_zero _ (ground (arith, rx_available-length s)))))
          | inr z ↦ rw z (elim (Bool-cases (length got == 0)) [
            | inl w ↦ absurd (
                ground (
                  arith,
                  rx_available-length s,
                  ap length all,
                  length-take (portion s) (contents s),
                ))
            | inr w ↦ rw w (
                flash-Passes fuel s _ got quiet b (ap (λ u. u.backend) r.frame)
                  (ap (λ u. u.has_peer) r.frame) (ap (λ u. u.turn) r.frame)
                  (ap (λ u. written u.trace) r.frame) all (ground (arith, w))
                  (r.rest ∙ ap (λ (k : ℕ). drop k (contents s)) q))
          ])
        ])
      ]
