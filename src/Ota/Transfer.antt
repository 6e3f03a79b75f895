-- ===== src/Ota/Transfer.antt =====
-- A whole pass of the state DATA_FIRMWARE (components/meshmesh/ota/ota_meshmesh.cpp).
use esphome_meshmesh.Prelude.{
  ℕ, suc, ◌+◌, ◌*◌, ◌≤◌, ◌≡◌, inl, inr, refl, ap, ◌∙◌, subst, Bool, true, false, not, List, arith,
  length, length-take, Bool-cases, leb, ◌==◌, blit,
}
use esphome_meshmesh.Mesh.{add32}
use esphome_meshmesh.Ota.State.{Effect, Platform, Ota, act, Run, done, ◌>>=◌}
use esphome_meshmesh.Ota.Rx.{rx_available, rx_read}
use esphome_meshmesh.Ota.Data.{requested, flash, data_firmware}
use esphome_meshmesh.Ota.Queue.{contents, rx_read_lem}
use esphome_meshmesh.Ota.Invariant.{Buffers}
use esphome_meshmesh.Ota.Chunks.{Counted, acknowledge_chunks_lem}
use esphome_meshmesh.Ota.Firmware.{Quiet, Passes, PassesRun, data_firmware-Passes}

-- What is left to acknowledge once `got` is written.
abbrev pub counted : Ota → List ℕ → Ota
counted s got = record (act (Effect.write_update got) s) {
  firmware_total = add32 s.firmware_total (length got);
}

pub Counted-counted :
    (s : Ota) (got : List ℕ) (k : ℕ)
    → Counted s k
    → s.firmware_total + length got ≤ s.ota_size
    → Counted (counted s got) k
Counted-counted s got k c h =
    let e : add32 s.firmware_total (length got) ≡ s.firmware_total + length got =
      omega (arith, c.no_wrap, h) in
    record {
      whole = c.whole;
      behind = ground (arith, e, c.behind, c.within, h);
      within = omega (arith, e, h);
      no_wrap = c.no_wrap;
    }

Counted-same :
    (s t : Ota) (k : ℕ)
    → t.ota_size ≡ s.ota_size
    → t.firmware_total ≡ s.firmware_total
    → t.size_acknowledged ≡ s.size_acknowledged
    → Counted s k
    → Counted t k
Counted-same s t k z f a c = record {
  whole = a ∙ c.whole;
  behind = ground (arith, z, f, a, c.behind);
  within = omega (arith, z, f, c.within);
  no_wrap = omega (arith, z, c.no_wrap);
}

-- A step returns.
abbrev pub Returns : Run Ota → Type 0
Returns r = (t : Ota) × (r ≡ done t)

bind-Returns :
    (r : Run (Bool × Ota)) (q : Bool × Ota) (f : Bool × Ota → Ota)
    → r ≡ done q
    → Returns (r >>= λ x. done (f x))
bind-Returns r q f e = (f q, ap (λ (z : Run (Bool × Ota)). z >>= λ x. done (f x)) e)

module _ (P : Platform) where
  flash-Returns :
      (fuel : ℕ) (s : Ota) (got : List ℕ) (k : ℕ)
      → s.backend ≡ true
      → Counted (counted s got) k
      → s.ota_size ≤ s.size_acknowledged + 8192 * fuel
      → Returns (flash P (suc fuel) s got)
  unfolding flash
  flash-Returns fuel s got k b c h =
      let nb : not s.backend ≡ false = ap not b in
      let (ok, t, d, a) = acknowledge_chunks_lem P fuel (counted s got) k c h in
      elim (Bool-cases (P.write_code s.turn got == P.response.ok)) [
        | inr e ↦ rw nb (rw e (_, refl))
        | inl e ↦ rw nb (rw e (bind-Returns _ (ok, t) _ d))
      ]

  -- The bytes read in a pass do not exceed what is missing.
  read_within :
      (s : Ota)
      → Buffers s
      → s.firmware_total ≤ s.ota_size
      → s.firmware_total + length (rx_read s (requested s)).0 ≤ s.ota_size
  unfolding requested
  read_within s v h =
      let r = rx_read_lem s (requested s) v.rx in
      ground (arith, ap length r.got_oldest, length-take (requested s) (contents s), h)

  data_firmware-Returns :
      (fuel : ℕ) (s : Ota) (k : ℕ)
      → Buffers s
      → s.backend ≡ true
      → Counted s k
      → s.ota_size ≤ s.size_acknowledged + 8192 * fuel
      → Returns (data_firmware P (suc fuel) s)
  unfolding data_firmware
  data_firmware-Returns fuel s k v b c h =
      let got = (rx_read s (requested s)).0 in
      let t = (rx_read s (requested s)).1 in
      let fr = (rx_read_lem s (requested s) v.rx).frame in
      let sz = ap (λ x. x.ota_size) fr in
      let ft = ap (λ x. x.firmware_total) fr in
      let ac = ap (λ x. x.size_acknowledged) fr in
      let u : Ota = record t { data_buf = blit t.data_buf 0 got } in
      elim (Bool-cases (leb s.ota_size s.firmware_total)) [
        | inl e ↦ rw e (_, refl)
        | inr e ↦ rw e (elim (Bool-cases (rx_available s == 0)) [
          | inl z ↦ rw z (_, refl)
          | inr z ↦ rw z (elim (Bool-cases (length got == 0)) [
            | inl w ↦ rw w (_, refl)
            | inr w ↦ rw w (
                flash-Returns fuel u got k (ap (λ x. x.backend) fr ∙ b)
                  (Counted-counted u got k (Counted-same s u k sz ft ac c)
                    (omega (arith, sz, ft, read_within s v c.within)))
                  (omega (arith, sz, ac, h)))
          ])
        ])
      ]

  -- With nothing coming in meanwhile, valid buffers, the backend set, counters in range and fuel
  -- for every block, a pass of DATA_FIRMWARE returns. Let it take the oldest waiting bytes: as
  -- many as are still missing, at most 1024, and at most those that wait. If there are none, or
  -- the write of them succeeds, it has written them to flash behind those already there and kept
  -- the rest in order, and the session and its backend are still there; if there are some and the
  -- write fails, the session is closed.
  pub data_firmware_lem :
      (fuel : ℕ) (s : Ota) (k : ℕ)
      → Quiet P
      → Buffers s
      → s.backend ≡ true
      → Counted s k
      → s.ota_size ≤ s.size_acknowledged + 8192 * fuel
      → (t : Ota) × (data_firmware P (suc fuel) s ≡ done t) × Passes P s t
  data_firmware_lem fuel s k quiet v b c h =
      let (t, e) = data_firmware-Returns fuel s k v b c h in
      (t, e, subst (PassesRun P s) e (data_firmware-Passes P (suc fuel) s quiet v b))
