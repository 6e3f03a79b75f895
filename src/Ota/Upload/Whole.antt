-- ===== src/Ota/Upload/Whole.antt =====
-- A whole upload to components/meshmesh/ota/ota_meshmesh.cpp, from the first byte of firmware to the
-- reboot.
use esphome_meshmesh.Prelude.{
  ℕ, suc, ◌+◌, ◌≤◌, ◌<◌, ◌≡◌, refl, ap, sym, ◌∙◌, List, [], ◌∷◌, ◌++◌, arith, length,
}
use esphome_meshmesh.Mesh.{MeshAddress}
use esphome_meshmesh.Ota.State.{
  Effect, Frame, Platform, Ota, Run, done, blocked, fault, ◌>>=◌, ota_port, rx_ring_max,
}
use esphome_meshmesh.Ota.Loop.{Event, step, run}
use esphome_meshmesh.Ota.Queue.{contents}
use esphome_meshmesh.Ota.Frames.{Closed}
use esphome_meshmesh.Ota.Invariant.{written}
use esphome_meshmesh.Ota.Upload.Setting.{Succeeds, InTime, reply}
use esphome_meshmesh.Ota.Upload.Pass.{Uploading, missing}
use esphome_meshmesh.Ota.Upload.Schedule.{payloads, Fits, calls, run-Uploading}
use esphome_meshmesh.Ota.Upload.Finish.{ending, run-ending}
use esphome_meshmesh.Ota.Upload.Schedule.{payloads, Fits, calls, run-Uploading}
use esphome_meshmesh.Ota.State.{blocked, fault, ◌>>=◌}

bind_assoc :
    {A B C : Type 0} (r : Run A) (f : A → Run B) (g : B → Run C)
    → (r >>= λ x. f x >>= g) ≡ (r >>= f) >>= g
bind_assoc (done x) f g = refl
bind_assoc blocked f g = refl
bind_assoc fault f g = refl

module _ (P : Platform) (fuel : ℕ) where
  run-append :
      (s : Ota) (es fs : List Event)
      → run P fuel s (es ++ fs) ≡ (run P fuel s es >>= λ t. run P fuel t fs)
  unfolding run
  run-append s [] fs = refl
  run-append s (e ∷ es) fs =
      (λ i. step P fuel s e >>= λ x. run-append x es fs i)
      ∙ bind_assoc (step P fuel s e) (λ x. run P fuel x es) (λ x. run P fuel x fs)

module _ (P : Platform) where
  -- The session is over and the device reboots: the image is in flash, then the receipt went out, the
  -- backend ended the update, and that went out too.
  pub record Rebooted (s : Ota) (image : List ℕ) (t : Ota) : Type 0 where
    pub closed : Closed t
    pub log : List Effect
    pub flashed : written log ≡ image
    pub trace :
        t.trace
        ≡ Effect.reboot
          ∷ reply P s P.response.update_end_ok
          ∷ Effect.end_update
          ∷ reply P s P.response.receive_ok
          ∷ log

module _ (P : Platform) (ok : Succeeds P) where
  -- Where no datagram is refused, no backend call fails and nothing comes in during a pass: from
  -- a valid session in DATA_FIRMWARE whose acknowledgements are up to date, run datagrams of the
  -- peer's that bring exactly the bytes that are missing and do not wait, and never let more than
  -- 8192 wait, with passes between them in any order while bytes are missing and enough of them
  -- to take all; then two passes, a datagram as the last acknowledgement, and a pass. If the size
  -- does not come within 16384 of 2^32, there is fuel for each block, and all is within 90
  -- seconds of the data phase's start, then the run returns, the session is closed, and flash
  -- holds what it held, the waiting bytes and the bytes of the datagrams in this order; after
  -- that the receipt is sent, the backend ends the update, this is sent too, and the device
  -- reboots, in this order.
  pub run-Rebooted :
      (fuel start left : ℕ) (s : Ota) (es : List Event) (ack : Frame)
      → Uploading fuel start s
      → missing s ≡ length (contents s) + left
      → Fits s.peer.address (length (contents s)) left es
      → ack.from.address ≡ s.peer.address
      → 0 < length ack.payload
      → length ack.payload ≤ rx_ring_max
      → InTime P start (s.turn + calls fuel es + 7)
      → (t : Ota) × (run P (suc fuel) s (es ++ ending ack) ≡ done t)
        × Rebooted P s (written s.trace ++ (contents s ++ payloads es)) t
  run-Rebooted fuel start left s es ack u m f a n l time =
      let (v, e, g) =
        run-Uploading P ok fuel start s es left u m f (λ k h. time k (omega (arith, h))) in
      let q = g.uploading in
      let (t, d, c, r) =
        run-ending P ok (suc fuel) v ack q.online q.valid.buffers.rx g.complete g.emptied
          (a ∙ ap (λ (p : MeshAddress). p.address) (sym g.peer)) n l
          (λ k h. omega (arith, q.started, g.soon, time k (omega (arith, h, g.soon)))) in
      let to : (b : ℕ) → reply P v b ≡ reply P s b =
        λ b i. Effect.datagram (record (g.peer i) { port = ota_port }) (b ∷ []) in
      (
        t,
        run-append P (suc fuel) s es (ending ack)
            ∙ ap (λ x. x >>= λ y. run P (suc fuel) y (ending ack)) e
            ∙ d,
        record {
          closed = c;
          log = v.trace;
          flashed = g.flashed;
          trace = r ∙ (λ i.
              Effect.reboot
              ∷ to P.response.update_end_ok i
              ∷ Effect.end_update
              ∷ to P.response.receive_ok i
              ∷ v.trace);
        },
      )
