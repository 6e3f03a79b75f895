-- ===== src/Node/Reboot.antt =====
-- The restart that a frame asks for (components/meshmesh/meshmesh.cpp).
use esphome_meshmesh.Prelude.{
  ltb, if◌then◌else◌, Bool-cases, length, ◌>>=◌, ok, fault, ℕ, ◌+◌, ◌%◌, ◌^◌, ◌≤◌, ◌<◌, ◌≡◌, refl,
  ap, ◌∙◌, inl, inr, true, false, List, [], ◌∷◌, ◌++◌, arith,
}
use esphome_meshmesh.Mesh.{sub32}
use esphome_meshmesh.Node.State.{
  Effect, Platform, Node, act, cmd_reboot_req, cmd_reboot_rep, cmd_logevent_rep,
}
use esphome_meshmesh.Node.Frames.{reboot_request, handle_frame}
use esphome_meshmesh.Node.Life.{reboot_due, handle_frames, loop, on_log}
use esphome_meshmesh.Node.Passes.{passes}

-- Passes without frames.
abbrev pub quiet : List ℕ → List (List (ℕ × List ℕ) × ℕ)
quiet [] = []
quiet (t ∷ ts) = ([], t) ∷ quiet ts

-- No value is more than a quarter of a second after `t0`.
abbrev pub Early : ℕ → List ℕ → Type 0
Early t0 [] = Unit {0}
Early t0 (t ∷ ts) = (sub32 t t0 ≤ 250) × Early t0 ts

abbrev pub looped : List ℕ → List Effect → List Effect
looped [] t = t
looped (_ ∷ ts) t = looped ts (Effect.mesh_loop ∷ t)

module _ (P : Platform) where
  loop_early :
      (t : ℕ) (s : Node)
      → sub32 t s.reboot_requested_time ≤ 250
      → loop P [] t s ≡ ok (act Effect.mesh_loop s)
  unfolding loop handle_frames reboot_due
  loop_early t s h =
      let early : ltb 250 (sub32 t s.reboot_requested_time) ≡ false = ground arith in
      elim (Bool-cases s.reboot_requested) [ inl e ↦ rw (e, early) refl | inr e ↦ rw e refl ]

  loop_late :
      (t : ℕ) (s : Node)
      → s.reboot_requested ≡ true
      → 250 < sub32 t s.reboot_requested_time
      → loop P [] t s ≡ ok (act Effect.reboot (act Effect.mesh_loop s))
  unfolding loop handle_frames reboot_due
  loop_late t s e h =
      let late : ltb 250 (sub32 t s.reboot_requested_time) ≡ true = ground arith in
      rw (e, late) refl

  passes_late :
      (early : List ℕ) (late : ℕ) (s : Node)
      → s.reboot_requested ≡ true
      → Early s.reboot_requested_time early
      → 250 < sub32 late s.reboot_requested_time
      → passes P (quiet (early ++ late ∷ [])) s
        ≡ ok (record s { trace = Effect.reboot ∷ Effect.mesh_loop ∷ looped early s.trace })
  passes_late [] late s e w h = ap (λ k. k >>= ok) (loop_late late s e h)
  passes_late (t ∷ ts) late s e w h =
      ap (λ k. k >>= passes P (quiet (ts ++ late ∷ []))) (loop_early t s w.0)
      ∙ passes_late ts late (act Effect.mesh_loop s) e w.1 h

  -- A request to reboot at `t0` is acknowledged at once. In the passes of `loop` that follow without
  -- frames, those up to a quarter of a second later only let the mesh library loop; the first later
  -- one restarts the node.
  pub handle_frame-passes :
      (t0 late : ℕ) (early : List ℕ) (s : Node)
      → Early t0 early
      → 250 < sub32 late t0
      → (handle_frame P t0 (cmd_reboot_req ∷ []) s >>= λ r.
          passes P (quiet (early ++ late ∷ [])) r.1)
        ≡ ok (record s {
          reboot_requested = true;
          reboot_requested_time = t0;
          trace =
              Effect.reboot
              ∷ Effect.mesh_loop
              ∷ looped early (Effect.mesh_command_reply (cmd_reboot_rep ∷ []) ∷ s.trace);
        })
  unfolding handle_frame reboot_request
  handle_frame-passes t0 late early s w h =
      passes_late early late
        (act (Effect.mesh_command_reply (cmd_reboot_rep ∷ []))
          (record s { reboot_requested = true; reboot_requested_time = t0 }))
        refl w h

  -- With the log sent to the serial port, a message is sent whole behind the header of 7 bytes, if
  -- it has less than 65529 bytes; a longer one is copied past the end of its buffer.
  pub on_log_lem :
      (level : ℕ) (message : List ℕ) (s : Node)
      → s.log_to_uart ≡ true
      → on_log P level message s ≡ (
          if ltb (length message) 65529
          then ok (
              act
                (Effect.mesh_uart_send_data
                  (cmd_logevent_rep ∷ (P.put16 level ++ (P.put32 0 ++ message))))
                s)
          else fault)
  unfolding on_log
  on_log_lem level message s e = elim (Bool-cases (ltb (length message) 65529)) [
    | inl b ↦
        let whole : ltb ((7 + length message) % 2 ^ 16) (7 + length message) ≡ false =
          ground arith in
        rw (e, b, whole) refl
    | inr b ↦
        let cut : ltb ((7 + length message) % 2 ^ 16) (7 + length message) ≡ true = ground arith in
        rw (e, b, cut) refl
  ]
