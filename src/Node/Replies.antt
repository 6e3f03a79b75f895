-- ===== src/Node/Replies.antt =====
-- What `MeshmeshComponent::handleFrame` answers (components/meshmesh/meshmesh.cpp).
use esphome_meshmesh.Prelude.{
  ltb, Bool-cases, length, get_or, drop, length-drop, Result, ok, fault, ℕ, suc, ◌≤◌, ◌≡◌, refl,
  sym, ap, ◌∙◌, ◌⊎◌, inl, inr, true, List, [], ◌∷◌, arith,
}
use esphome_meshmesh.Node.State.{
  MeshmeshSettings, Effect, Platform, Node, Verdict, max_channel, cmd_node_tag_set_req,
  cmd_channel_set_req,
}
use esphome_meshmesh.Node.Frames.{
  command_reply, save_preferences, node_tag, node_tag_set, channel_set, node_config, node_info,
  log_dest, log_dest_set, groups_get, groups_set, firmware, reboot_request, handle_frame,
}
use esphome_meshmesh.Node.Cases.{handle_frame-Cases}

-- The replies sent, newest first.
abbrev pub replies : List Effect → List (List ℕ)
replies [] = []
replies (Effect.mesh_command_reply rep ∷ t) = rep ∷ replies t
replies (_ ∷ t) = replies t

-- What may come of a frame: a fault only of an empty frame or of a
-- tag that does not fit, no change where the frame is
-- not handled, and else one reply whose code is the command's plus one.
abbrev pub Responds : ℕ → List ℕ → Node → Result (Verdict × Node) → Type 0
Responds cmd data' s fault = (data' ≡ []) ⊎ ((cmd ≡ cmd_node_tag_set_req) × (33 ≤ length data'))
Responds cmd data' s (ok (Verdict.frame_not_handled, t)) = t ≡ s
Responds cmd data' s (ok (Verdict.handle_uart_ok, t)) =
    (body : List ℕ) × (replies t.trace ≡ (suc cmd ∷ body) ∷ replies s.trace)

Responds-reply :
    (rep cmd : ℕ) (body data' : List ℕ) (s t : Node)
    → rep ≡ suc cmd
    → replies t.trace ≡ replies s.trace
    → Responds cmd data' s (command_reply (rep ∷ body) t)
Responds-reply rep cmd body data' s t e h =
    (body, ap (λ k. (k ∷ body) ∷ replies t.trace) e ∙ ap (λ k. (suc cmd ∷ body) ∷ k) h)

Responds-save :
    (rep cmd : ℕ) (data' : List ℕ) (p : MeshmeshSettings) (s : Node)
    → rep ≡ suc cmd
    → Responds cmd data' s (command_reply (rep ∷ []) (save_preferences p s))
unfolding save_preferences
Responds-save rep cmd data' p s e = Responds-reply rep cmd [] data' s (save_preferences p s) e refl

node_tag_set-Responds :
    (cmd : ℕ) (data' : List ℕ) (s : Node)
    → cmd ≡ cmd_node_tag_set_req
    → ltb 1 (length data') ≡ true
    → Responds cmd data' s (node_tag_set (drop 1 data') s)
unfolding node_tag_set
node_tag_set-Responds cmd data' s e h = elim (Bool-cases (ltb (length (drop 1 data')) 32)) [
  | inl b ↦ rw b (Responds-save _ cmd data' _ s (omega arith))
  | inr b ↦ rw b (inr (e, ground (arith, length-drop 1 data')))
]

channel_set-Responds :
    (cmd : ℕ) (channel : ℕ) (data' : List ℕ) (s : Node)
    → cmd ≡ cmd_channel_set_req
    → Responds cmd data' s (channel_set channel s)
unfolding channel_set
channel_set-Responds cmd channel data' s e = elim (Bool-cases (ltb channel max_channel)) [
  | inl b ↦ rw b (Responds-save _ cmd data' _ s (omega arith))
  | inr b ↦ rw b refl
]

module _ (P : Platform) where
  -- Whatever frame comes in: the code runs into undefined behaviour only if the frame is empty, or
  -- sets a tag and has at least 33 bytes; a frame that is not handled changes nothing; a frame that is handled is
  -- answered by exactly one reply, whose first byte is the command's plus one.
  pub handle_frame-Responds :
      (now : ℕ) (data' : List ℕ) (s : Node)
      → Responds (get_or data' 0 0) data' s (handle_frame P now data' s)
  unfolding node_tag node_config node_info log_dest log_dest_set groups_get groups_set firmware
      reboot_request
  handle_frame-Responds now data' s =
      let cmd = get_or data' 0 0 in
      let one =
        λ (k : ℕ) (body : List ℕ) (t : Node) (h : replies t.trace ≡ replies s.trace) (e : cmd ≡ k).
          Responds-reply (suc k) cmd body data' s t (ap suc (sym e)) h in
      handle_frame-Cases P now data' s (Responds cmd data' s) (record {
        on_empty = inl;
        on_none = refl;
        on_tag = one _ _ s refl;
        on_tag_set = node_tag_set-Responds cmd data' s;
        on_channel_set = channel_set-Responds cmd _ data' s;
        on_config = one _ _ s refl;
        on_info = one _ _ s refl;
        on_log_dest = one _ _ s refl;
        on_log_dest_set = λ e. Responds-save _ cmd data' _ s (ap suc (sym e));
        on_groups = one _ _ s refl;
        on_groups_set = λ e. Responds-save _ cmd data' _ s (ap suc (sym e));
        on_firmware = one _ _ s refl;
        on_reboot =
            one _ _ (record s { reboot_requested = true; reboot_requested_time = now }) refl;
      })
