-- ===== src/Node/Passes.antt =====
-- Passes of `MeshmeshComponent::loop` (components/meshmesh/meshmesh.cpp), and what they preserve.
use esphome_meshmesh.Prelude.{Result, ◌>>=◌, Ensures, Ensures-bind, ok, ℕ, List, [], ◌∷◌}
use esphome_meshmesh.Node.State.{Effect, Platform, Node, act}
use esphome_meshmesh.Node.Frames.{handle_frame}
use esphome_meshmesh.Node.Life.{reboot_due, handle_frames, loop}

module _ (P : Platform) where
  -- Passes of `loop`, each with the frames that come in and the clock.
  abbrev pub passes : List (List (ℕ × List ℕ) × ℕ) → Node → Result Node
  passes [] s = ok s
  passes ((frames, now) ∷ rest) s = loop P frames now s >>= λ t. passes rest t

-- What every frame preserves, and the steps around them, all passes preserve.
module _ (P : Platform) (I : Node → Type 0)
    (on_frame : (now : ℕ) (data' : List ℕ) (s : Node)
      → I s
      → Ensures (λ r. I r.1) (handle_frame P now data' s))
    (on_loop : (s : Node) → I s → I (act Effect.mesh_loop s))
    (on_reboot : (now : ℕ) (s : Node) → I s → I (reboot_due now s)) where
  handle_frames-Ensures :
      (frames : List (ℕ × List ℕ)) (s : Node) → I s → Ensures I (handle_frames P frames s)
  unfolding handle_frames
  handle_frames-Ensures [] s h = h
  handle_frames-Ensures ((now, data') ∷ frames) s h =
      Ensures-bind (λ r. I r.1) I (handle_frame P now data' s) _ (on_frame now data' s h)
        (λ r. handle_frames-Ensures frames r.1)

  loop-Ensures :
      (frames : List (ℕ × List ℕ)) (now : ℕ) (s : Node) → I s → Ensures I (loop P frames now s)
  unfolding loop
  loop-Ensures frames now s h =
      Ensures-bind I I (handle_frames P frames (act Effect.mesh_loop s)) _
        (handle_frames-Ensures frames (act Effect.mesh_loop s) (on_loop s h)) (on_reboot now)

  pub passes-Ensures :
      (rest : List (List (ℕ × List ℕ) × ℕ)) (s : Node) → I s → Ensures I (passes P rest s)
  passes-Ensures [] s h = h
  passes-Ensures ((frames, now) ∷ rest) s h =
      Ensures-bind I I (loop P frames now s) _ (loop-Ensures frames now s h) (passes-Ensures rest)
