-- ===== src/Ota/Upload/Schedule.antt =====
-- Whole runs of components/meshmesh/ota/ota_meshmesh.cpp that take firmware: datagrams of the peer's
-- and passes of `loop`, in any order in which the receive buffer does not overflow.
use esphome_meshmesh.Prelude.{
  ℕ, suc, ◌+◌, ◌-◌, ◌≤◌, ◌<◌, ◌≡◌, refl, ap, sym, ◌∙◌, subst, List, [], ◌∷◌, ◌++◌, arith,
  append_assoc, length, take-append-drop, length-append, length-take, length-drop, take, drop,
  append-nil, length_zero,
}
use esphome_meshmesh.Mesh.{MeshAddress}
use esphome_meshmesh.Ota.State.{Frame, Platform, Ota, done, rx_ring_max}
use esphome_meshmesh.Ota.Rx.{rx_append}
use esphome_meshmesh.Ota.Loop.{Event, receive, pass, step, run}
use esphome_meshmesh.Ota.Queue.{contents}
use esphome_meshmesh.Ota.Invariant.{written}
use esphome_meshmesh.Ota.Firmware.{Moves, portion}
use esphome_meshmesh.Ota.Upload.Setting.{Succeeds, InTime}
use esphome_meshmesh.Ota.Upload.Pass.{
  Uploading, missing, Same, Uploading-Begun, pass-Uploading, handle_frame-Uploading,
}

-- The bytes of the datagrams, in the order in which they come.
abbrev pub payloads : List Event → List ℕ
payloads [] = []
payloads (receive f ∷ es) = f.payload ++ payloads es
payloads (pass ∷ es) = payloads es

-- The sender at `address` keeps to the size of the buffer: with `waiting` bytes in it and `left` to
-- come, each datagram has bytes, fits, and is part of the update; a pass takes up to 1024 bytes, and
-- comes while there is something to wait for; at the end, all has come and nothing waits.
abbrev pub Fits : ℕ → ℕ → ℕ → List Event → Type 0
Fits address waiting left [] = (waiting ≡ 0) × (left ≡ 0)
Fits address waiting left (receive f ∷ es) =
    (f.from.address ≡ address)
    × (0 < length f.payload)
    × (length f.payload ≤ left)
    × (waiting + length f.payload ≤ rx_ring_max)
    × Fits address (waiting + length f.payload) (left - length f.payload) es
Fits address waiting left (pass ∷ es) = (0 < waiting + left) × Fits address (waiting - 1024) left es

-- A bound on the calls of the outside in such a run.
abbrev pub calls : ℕ → List Event → ℕ
calls fuel [] = 0
calls fuel (e ∷ es) = fuel + 5 + calls fuel es

-- All the bytes are in flash.
pub record Flashes (fuel start : ℕ) (s : Ota) (es : List Event) (t : Ota) : Type 0 where
  pub uploading : Uploading fuel start t
  pub emptied : contents t ≡ []
  pub complete : missing t ≡ 0
  pub peer : t.peer ≡ s.peer
  pub flashed : written t.trace ≡ written s.trace ++ (contents s ++ payloads es)
  pub soon : t.turn ≤ s.turn + calls fuel es

take-drop : (n : ℕ) (xs ys : List ℕ) → take n xs ++ (drop n xs ++ ys) ≡ xs ++ ys
take-drop n xs ys =
    sym (append_assoc (take n xs) (drop n xs) ys) ∙ ap (λ u. u ++ ys) (take-append-drop n xs)

Moves-counts :
    (fuel start left : ℕ) (s t : Ota)
    → Uploading fuel start s
    → Uploading fuel start t
    → Moves s t
    → t.ota_size ≡ s.ota_size
    → missing s ≡ length (contents s) + left
    → (length (contents t) ≡ length (contents s) - 1024) × (missing t ≡ length (contents t) + left)
Moves-counts fuel start left s t u v m z h = ground (
  arith,
  z,
  (Uploading-Begun s u).total,
  (Uploading-Begun s u).within,
  (Uploading-Begun t v).total,
  ap length m.to_flash,
  ap length m.kept,
  length-append (written s.trace) (take (portion s) (contents s)),
  length-take (portion s) (contents s),
  length-drop (portion s) (contents s),
)

module _ (P : Platform) (ok : Succeeds P) (fuel start : ℕ) where
  Flashes-pass :
      (s t v : Ota) (es : List Event)
      → Moves s t
      → Same s t
      → t.turn ≤ s.turn + (fuel + 5)
      → Flashes fuel start t es v
      → Flashes fuel start s (pass ∷ es) v
  Flashes-pass s t v es m same h f =
      let n = portion s in
      record {
        uploading = f.uploading;
        emptied = f.emptied;
        complete = f.complete;
        peer = f.peer ∙ same.peer;
        flashed =
            f.flashed
            ∙ (λ i. m.to_flash i ++ (m.kept i ++ payloads es))
            ∙ append_assoc (written s.trace) (take n (contents s)) _
            ∙ ap (λ x. written s.trace ++ x) (take-drop n (contents s) (payloads es));
        soon = omega (arith, h, f.soon);
      }

  Flashes-receive :
      (s v : Ota) (g : Frame) (es : List Event)
      → contents (rx_append s g.payload) ≡ contents s ++ g.payload
      → Flashes fuel start (rx_append s g.payload) es v
      → Flashes fuel start s (receive g ∷ es) v
  unfolding rx_append
  Flashes-receive s v g es c f = record {
    uploading = f.uploading;
    emptied = f.emptied;
    complete = f.complete;
    peer = f.peer;
    flashed =
        f.flashed
        ∙ ap (λ x. written s.trace ++ (x ++ payloads es)) c
        ∙ ap (λ x. written s.trace ++ x) (append_assoc (contents s) g.payload (payloads es));
    soon = omega (arith, f.soon);
  }

  abbrev pub Returns : Ota → List Event → Type 0
  Returns s es = (v : Ota) × (run P (suc fuel) s es ≡ done v) × Flashes fuel start s es v

  pub run-Uploading :
      (s : Ota) (es : List Event) (left : ℕ)
      → Uploading fuel start s
      → missing s ≡ length (contents s) + left
      → Fits s.peer.address (length (contents s)) left es
      → InTime P start (s.turn + calls fuel es)
      → Returns s es
  unfolding run step rx_append
  run-Uploading s [] left u m f time =
      let e = length_zero (contents s) f.0 in
      (
        s,
        refl,
        record {
          uploading = u;
          emptied = e;
          complete = omega (arith, m, f.0, f.1);
          peer = refl;
          flashed =
              sym (append-nil (written s.trace)) ∙ ap (λ x. written s.trace ++ (x ++ [])) (sym e);
          soon = omega arith;
        },
      )
  run-Uploading s (pass ∷ es) left u m (g, f) time =
      let (t, e, v, mv, same, soon) =
        pass-Uploading P ok fuel start s u (omega (arith, m, g))
          (time (suc s.turn) (omega arith)) in
      let (w, k) = Moves-counts fuel start left s t u v mv same.size m in
      let there : Fits t.peer.address (length (contents t)) left es =
        subst (λ (p : MeshAddress). Fits p.address (length (contents t)) left es) (sym same.peer)
          (subst (λ (n : ℕ). Fits s.peer.address n left es) (sym w) f) in
      let (r, d, q) = run-Uploading t es left v k there (λ n h. time n (omega (arith, h, soon))) in
      (r, rw e d, Flashes-pass s t r es mv same soon q)
  run-Uploading s (receive g ∷ es) left u m (a, n, l, h, f) time =
      let t : Ota = rx_append s g.payload in
      let (v', c', plain) = handle_frame-Uploading P ok fuel start s g u a n h in
      let v : Uploading fuel start t = subst (Uploading fuel start) plain v' in
      let c : contents t ≡ contents s ++ g.payload = ap contents (sym plain) ∙ c' in
      let w : length (contents t) ≡ length (contents s) + length g.payload =
        ap length c ∙ length-append (contents s) g.payload in
      let there : Fits s.peer.address (length (contents t)) (left - length g.payload) es =
        subst (λ (k : ℕ). Fits s.peer.address k (left - length g.payload) es) (sym w) f in
      let (r, d, q) =
        run-Uploading t es (left - length g.payload) v (omega (arith, m, l, w)) there
          (λ k b. time k (omega (arith, b))) in
      (r, rw plain d, Flashes-receive s r g es c q)
