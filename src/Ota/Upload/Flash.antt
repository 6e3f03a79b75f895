-- ===== src/Ota/Upload/Flash.antt =====
-- The write to flash and the acknowledgements of components/meshmesh/ota/ota_meshmesh.cpp on a
-- platform on which all goes well.
use esphome_meshmesh.Prelude.{
  ℕ, zero, suc, ◌+◌, ◌/◌, ◌≤◌, ◌≡◌, refl, ap, ◌∙◌, subst, inl, inr, Bool, true, not, List, arith,
  length, Bool-cases, ltb, ◌==◌,
}
use esphome_meshmesh.Mesh.{sub32, add32}
use esphome_meshmesh.Ota.State.{Platform, Ota, act, Run, done, blocked, fault, ota_block_size}
use esphome_meshmesh.Ota.Data.{chunk_due, acknowledge_chunks, report_progress, flash}
use esphome_meshmesh.Ota.Chunks.{acknowledge_chunks_lem}
use esphome_meshmesh.Ota.Transfer.{counted, Counted-counted}
use esphome_meshmesh.Ota.Upload.Setting.{
  Succeeds, Paced, Paced-Counted, reply, write_byte-Succeeds, yield-Succeeds,
}

-- `t` is `s` but for the counters of the upload, the clock of progress, and the trace.
abbrev pub with_counters : Ota → Ota → Ota
with_counters s t = record s {
  firmware_total = t.firmware_total;
  size_acknowledged = t.size_acknowledged;
  last_progress_ms = t.last_progress_ms;
  turn = t.turn;
  trace = t.trace;
}

pub with_counters_trans :
    (s t u : Ota) → t ≡ with_counters s t → u ≡ with_counters t u → u ≡ with_counters s u
with_counters_trans s t u p q = q ∙ ap (λ x. with_counters x u) p

module _ (P : Platform) (ok : Succeeds P) where
  abbrev Acks : ℕ → Ota → Run (Bool × Ota) → Type 0
  Acks fuel s (done (b, t)) =
      (b ≡ true)
      × (t ≡ with_counters s t)
      × (t.firmware_total ≡ s.firmware_total)
      × (t.turn ≤ s.turn + fuel)
  Acks fuel s blocked = Unit {0}
  Acks fuel s fault = ⊥

  abbrev acked : Ota → Ota
  acked s = record (act (reply P s P.response.chunk_ok) s) {
    size_acknowledged = add32 s.size_acknowledged ota_block_size;
  }

  Acks-next :
      (fuel : ℕ) (s : Ota) (r : Run (Bool × Ota)) → Acks fuel (acked s) r → Acks (suc fuel) s r
  Acks-next fuel s (done (b, t)) (e, f, g, h) =
      (e, with_counters_trans s (acked s) t refl f, g, omega arith)
  Acks-next fuel s blocked a = tt
  Acks-next fuel s fault a = a

  acknowledge_chunks-Acks :
      (fuel : ℕ) (s : Ota)
      → s.socket_open ≡ true
      → s.has_peer ≡ true
      → Acks fuel s (acknowledge_chunks P fuel s)
  unfolding acknowledge_chunks
  acknowledge_chunks-Acks zero s o h = tt
  acknowledge_chunks-Acks (suc fuel) s o h = elim (Bool-cases (chunk_due s)) [
    | inr e ↦ rw e (refl, refl, refl, omega arith)
    | inl e ↦
        rw (e, write_byte-Succeeds P s P.response.chunk_ok ok o h)
          (Acks-next fuel s _ (acknowledge_chunks-Acks fuel (acked s) o h))
  ]

  report_progress-frame :
      (s : Ota)
      → let t = report_progress P s in
        (t ≡ with_counters s t)
        × (t.firmware_total ≡ s.firmware_total)
        × (t.size_acknowledged ≡ s.size_acknowledged)
        × (t.turn ≤ suc s.turn)
  unfolding report_progress
  report_progress-frame s =
      elim (Bool-cases (ltb 1000 (sub32 (P.millis s.turn) s.last_progress_ms))) [
        | inl e ↦
            rw (e, yield-Succeeds P (record s { last_progress_ms = P.millis s.turn }) ok)
              (refl, refl, refl, omega arith)
        | inr e ↦ rw e (refl, refl, refl, omega arith)
      ]

  -- From `s`, `got` is written, and what is then due is acknowledged.
  pub record Flashed (fuel : ℕ) (s : Ota) (got : List ℕ) (t : Ota) : Type 0 where
    pub same : t ≡ with_counters s t
    pub total : t.firmware_total ≡ s.firmware_total + length got
    pub paced : Paced fuel t
    pub soon : t.turn ≤ s.turn + (fuel + 3)

  Flashed-report :
      (fuel : ℕ) (s c t : Ota) (got : List ℕ)
      → c ≡ with_counters s c
      → t ≡ with_counters c t
      → t.firmware_total ≡ s.firmware_total + length got
      → Paced fuel t
      → t.turn ≤ s.turn + (fuel + 2)
      → Flashed fuel s got (report_progress P t)
  Flashed-report fuel s c t got p q m n h =
      let (e, f, a, l) = report_progress-frame t in
      let u = report_progress P t in
      let z = ap (λ x. x.ota_size) e in
      record {
        same = with_counters_trans s t u (with_counters_trans s c t p q) e;
        total = f ∙ m;
        paced = record {
          settled = omega (arith, f, a, z, n.settled.0, n.settled.1);
          within = omega (arith, f, z, n.within);
          no_wrap = omega (arith, z, n.no_wrap);
          blocks_in = omega (arith, z, n.blocks_in);
        };
        soon = omega (arith, l, h);
      }

  pub flash-Flashed :
      (fuel : ℕ) (s : Ota) (got : List ℕ)
      → s.socket_open ≡ true
      → s.has_peer ≡ true
      → s.backend ≡ true
      → Paced fuel s
      → s.firmware_total + length got ≤ s.ota_size
      → (t : Ota) × (flash P (suc fuel) s got ≡ done t) × Flashed fuel s got t
  unfolding flash
  flash-Flashed fuel s got o h b p w =
      let k = s.size_acknowledged / 8192 in
      let c = counted s got in
      let cs = Counted-counted s got k (Paced-Counted fuel s p) w in
      let (r, t, g, a) = acknowledge_chunks_lem P fuel c k cs (omega (arith, p.blocks_in)) in
      let (e, f, m, l) = subst (Acks (suc fuel) c) g (acknowledge_chunks-Acks (suc fuel) c o h) in
      let z = ap (λ x. x.ota_size) f in
      let nw : add32 s.firmware_total (length got) ≡ s.firmware_total + length got =
        omega (arith, p.no_wrap, w) in
      let written : P.write_code s.turn got == P.response.ok ≡ true =
        ground (arith, ok.written_ok s.turn got) in
      (
        report_progress P t,
        rw (ap not b, written, g, e) refl,
        Flashed-report fuel s c t got refl f (m ∙ nw)
            (record {
              settled = a.settled e;
              within = omega (arith, m, nw, z, w);
              no_wrap = omega (arith, z, p.no_wrap);
              blocks_in = omega (arith, z, p.blocks_in);
            })
            (omega (arith, l)),
      )
