-- ===== src/Ota/Upload/Pass.antt =====
-- One pass of the state DATA_FIRMWARE, and one datagram of the peer's, in an upload to
-- components/meshmesh/ota/ota_meshmesh.cpp on which all goes well.
use esphome_meshmesh.Prelude.{
  ℕ, suc, ◌+◌, ◌-◌, ◌≤◌, ◌<◌, ◌≡◌, refl, ap, sym, ◌∙◌, subst, inl, inr, false, List, ◌++◌, arith,
  length, blit, length-take, Bool-cases, leb, ◌==◌,
}
use esphome_meshmesh.Mesh.{sub32}
use esphome_meshmesh.Ota.State.{OtaState, Frame, Platform, Ota, done, rx_ring_max, data_timeout_ms}
use esphome_meshmesh.Ota.Rx.{rx_available, rx_read, rx_append, handle_frame}
use esphome_meshmesh.Ota.Data.{requested, data_firmware, data_case}
use esphome_meshmesh.Ota.Loop.{tick, pass, step, loop}
use esphome_meshmesh.Ota.Queue.{contents, rx_append_lem, rx_available-length, rx_read_lem}
use esphome_meshmesh.Ota.Frames.{handle_frame_fits}
use esphome_meshmesh.Ota.Invariant.{Begun, IsValid, Safe, Phase}
use esphome_meshmesh.Ota.Keep.{handle_frame-IsValid}
use esphome_meshmesh.Ota.Waiting.{Calm}
use esphome_meshmesh.Ota.Safety.{tick-IsValid, loop-Safe}
use esphome_meshmesh.Ota.Firmware.{Moves, taken, PassesRun, data_firmware-Passes}
use esphome_meshmesh.Ota.Upload.Setting.{Succeeds, Online, Paced, yield-Succeeds, loop-Online}
use esphome_meshmesh.Ota.Upload.Flash.{with_counters, Flashed, flash-Flashed}

-- A valid session that takes firmware, in a data phase that began at `start`.
pub record Uploading (fuel start : ℕ) (s : Ota) : Type 0 where
  pub online : Online OtaState.data_firmware s
  pub valid : IsValid s
  pub paced : Paced fuel s
  pub started : s.data_phase_start_ms ≡ start

-- The bytes not yet written.
abbrev pub missing : Ota → ℕ
missing s = s.ota_size - s.firmware_total

-- What an event does to the rest of the session.
pub record Same (s t : Ota) : Type 0 where
  pub size : t.ota_size ≡ s.ota_size
  pub peer : t.peer ≡ s.peer

pub Uploading-Begun : {fuel start : ℕ} (s : Ota) → Uploading fuel start s → Begun s
Uploading-Begun s u = (subst (λ st. Phase st s) u.online.state u.valid.phase).1

module _ (P : Platform) (ok : Succeeds P) where
  pub Succeeds-Calm : Calm P
  Succeeds-Calm k = ground (arith, ok.quiet k)

  -- A pass that gets to `t`.
  record Advanced (fuel : ℕ) (s t : Ota) : Type 0 where
    online : Online OtaState.data_firmware t
    paced : Paced fuel t
    started : t.data_phase_start_ms ≡ s.data_phase_start_ms
    same : Same s t
    soon : t.turn ≤ s.turn + (fuel + 4)

  yield-Advanced :
      (fuel : ℕ) (s : Ota)
      → Online OtaState.data_firmware s
      → Paced fuel s
      → Advanced fuel s (record s { turn = suc s.turn })
  yield-Advanced fuel s o p = record {
    online = record {
      state = o.state;
      socket = o.socket;
      peer_set = o.peer_set;
      backend_set = o.backend_set;
    };
    paced = record {
      settled = p.settled;
      within = p.within;
      no_wrap = p.no_wrap;
      blocks_in = p.blocks_in;
    };
    started = refl;
    same = record { size = refl; peer = refl };
    soon = omega arith;
  }

  -- `u` has the bytes read, and is `s` otherwise.
  Flashed-Advanced :
      (fuel : ℕ) (s u t : Ota) (got : List ℕ)
      → Online OtaState.data_firmware s
      → u ≡ record s { rx_buf = u.rx_buf; rx_read_pos = u.rx_read_pos; data_buf = u.data_buf }
      → Flashed P ok fuel u got t
      → Advanced fuel s t
  Flashed-Advanced fuel s u t got o e f =
      let g : t ≡ record (with_counters s t) {
        rx_buf = u.rx_buf;
        rx_read_pos = u.rx_read_pos;
        data_buf = u.data_buf;
      } =
        f.same ∙ ap (λ x. with_counters x t) e in
      record {
        online = record {
          state = ap (λ x. x.ota_state) g ∙ o.state;
          socket = ap (λ x. x.socket_open) g ∙ o.socket;
          peer_set = ap (λ x. x.has_peer) g ∙ o.peer_set;
          backend_set = ap (λ x. x.backend) g ∙ o.backend_set;
        };
        paced = f.paced;
        started = ap (λ x. x.data_phase_start_ms) g;
        same = record { size = ap (λ x. x.ota_size) g; peer = ap (λ x. x.peer) g };
        soon = omega (arith, f.soon, ap (λ x. x.turn) e);
      }

  data_firmware-Advanced :
      (fuel start : ℕ) (s : Ota)
      → Uploading fuel start s
      → 0 < missing s
      → (t : Ota) × (data_firmware P (suc fuel) s ≡ done t) × Advanced fuel s t
  unfolding data_firmware requested
  data_firmware-Advanced fuel start s u m =
      let got = (rx_read s (requested s)).0 in
      let s' = (rx_read s (requested s)).1 in
      let r = rx_read_lem s (requested s) u.valid.buffers.rx in
      let b : Ota = record s' { data_buf = blit s'.data_buf 0 got } in
      let o = u.online in
      let p = u.paced in
      let goes : leb s.ota_size s.firmware_total ≡ false = ground (arith, m) in
      let total = ap (λ x. x.firmware_total) r.frame in
      let size = ap (λ x. x.ota_size) r.frame in
      let acked = ap (λ x. x.size_acknowledged) r.frame in
      elim (Bool-cases (rx_available s == 0)) [
        | inl z ↦
            rw (goes, z, yield-Succeeds P s ok)
              (record s { turn = suc s.turn }, refl, yield-Advanced fuel s o p)
        | inr z ↦
            let some_got : length got == 0 ≡ false = ground (
              arith,
              m,
              rx_available-length s,
              ap length r.got_oldest,
              length-take (requested s) (contents s),
            ) in
            let (t, e, f) =
              flash-Flashed P ok fuel b got (ap (λ x. x.socket_open) r.frame ∙ o.socket)
                (ap (λ x. x.has_peer) r.frame ∙ o.peer_set)
                (ap (λ x. x.backend) r.frame ∙ o.backend_set)
                (record {
                  settled = omega (arith, total, size, acked, p.settled.0, p.settled.1);
                  within = omega (arith, total, size, p.within);
                  no_wrap = omega (arith, size, p.no_wrap);
                  blocks_in = omega (arith, size, p.blocks_in);
                })
                (ground (
                  arith,
                  total,
                  size,
                  ap length r.got_oldest,
                  length-take (requested s) (contents s),
                )) in
            (
              t,
              rw (goes, z, some_got) e,
              Flashed-Advanced fuel s b t got o
                  (ap (λ (x : Ota). record x { data_buf = b.data_buf }) r.frame) f,
            )
      ]

  -- A pass in time, while bytes are missing, takes the oldest waiting bytes, 1024 at most, to flash.
  loop-Uploading :
      (fuel start : ℕ) (s : Ota)
      → Uploading fuel start s
      → 0 < missing s
      → sub32 (P.millis s.turn) start ≤ data_timeout_ms
      → (t : Ota) × (loop P (suc fuel) s ≡ done t)
        × Uploading fuel start t
        × Moves s t
        × Same s t
        × (t.turn ≤ s.turn + (fuel + 4))
  unfolding data_case
  loop-Uploading fuel start s u m time =
      let (t, e, a) = data_firmware-Advanced fuel start s u m in
      let l : loop P (suc fuel) s ≡ done t =
        loop-Online P (suc fuel) OtaState.data_firmware s (omega arith) u.online
          (omega (arith, u.started, time))
        ∙ e in
      let passed =
        subst (PassesRun P s) e
          (data_firmware-Passes P (suc fuel) s ok.quiet u.valid.buffers u.online.backend_set) in
      let next : Uploading fuel start t = record {
        online = a.online;
        valid = subst Safe l (loop-Safe P Succeeds-Calm (suc fuel) s u.valid);
        paced = a.paced;
        started = a.started ∙ u.started;
      } in
      (t, l, next, passed.moves (inr (ok.written_ok s.turn (taken s))), a.same, a.soon)

  tick-Uploading :
      (fuel start : ℕ) (s : Ota) → Uploading fuel start s → Uploading fuel start (tick s)
  tick-Uploading fuel start s u =
      let o = u.online in
      let p = u.paced in
      record {
        online = record {
          state = o.state;
          socket = o.socket;
          peer_set = o.peer_set;
          backend_set = o.backend_set;
        };
        valid = tick-IsValid s u.valid;
        paced = record {
          settled = p.settled;
          within = p.within;
          no_wrap = p.no_wrap;
          blocks_in = p.blocks_in;
        };
        started = u.started;
      }

  -- The same for the event.
  pub pass-Uploading :
      (fuel start : ℕ) (s : Ota)
      → Uploading fuel start s
      → 0 < missing s
      → sub32 (P.millis (suc s.turn)) start ≤ data_timeout_ms
      → (t : Ota) × (step P (suc fuel) s pass ≡ done t)
        × Uploading fuel start t
        × Moves s t
        × Same s t
        × (t.turn ≤ s.turn + (fuel + 5))
  unfolding step
  pass-Uploading fuel start s u m time =
      let (t, e, v, mv, same, soon) =
        loop-Uploading fuel start (tick s) (tick-Uploading fuel start s u) m time in
      (
        t,
        e,
        v,
        record {
          to_flash = mv.to_flash;
          kept = mv.kept;
          peer_kept = mv.peer_kept;
          backend_kept = mv.backend_kept;
        },
        record { size = same.size; peer = same.peer },
        omega (arith, soon),
      )

  -- A datagram of the peer's with bytes that fit waits behind the others.
  pub handle_frame-Uploading :
      (fuel start : ℕ) (s : Ota) (f : Frame)
      → Uploading fuel start s
      → f.from.address ≡ s.peer.address
      → 0 < length f.payload
      → length (contents s) + length f.payload ≤ rx_ring_max
      → let t = handle_frame P s f in
        Uploading fuel start t
        × (contents t ≡ contents s ++ f.payload)
        × (t ≡ rx_append s f.payload)
  unfolding rx_append
  handle_frame-Uploading fuel start s f u a n h =
      let o = u.online in
      let p = u.paced in
      let fits = handle_frame_fits P s f (n, inr a) h in
      let plain : handle_frame P s f ≡ rx_append s f.payload = fits ∙ rw o.peer_set refl in
      let online : Online OtaState.data_firmware (rx_append s f.payload) = record {
        state = o.state;
        socket = o.socket;
        peer_set = o.peer_set;
        backend_set = o.backend_set;
      } in
      let paced : Paced fuel (rx_append s f.payload) = record {
        settled = p.settled;
        within = p.within;
        no_wrap = p.no_wrap;
        blocks_in = p.blocks_in;
      } in
      (
        record {
          online = subst (Online OtaState.data_firmware) (sym plain) online;
          valid = handle_frame-IsValid P s f u.valid;
          paced = subst (Paced fuel) (sym plain) paced;
          started = ap (λ x. x.data_phase_start_ms) plain ∙ u.started;
        },
        ap contents plain ∙ (rx_append_lem s f.payload u.valid.buffers.rx).1,
        plain,
      )
