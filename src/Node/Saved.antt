-- ===== src/Node/Saved.antt =====
-- What flash holds of the settings (components/meshmesh/meshmesh.cpp), and a restart.
use esphome_meshmesh.Prelude.{
  ltb, Bool-cases, length, Ensures, ℕ, ◌≡◌, refl, ap, ◌∙◌, inl, inr, ◌&&◌, Option, none, some, List,
  [], ◌∷◌,
}
use esphome_meshmesh.Mesh.{sub32}
use esphome_meshmesh.Node.State.{MeshmeshSettings, Effect, Platform, Node, max_channel}
use esphome_meshmesh.Node.Frames.{
  save_preferences, node_tag, node_tag_set, channel_set, node_config, node_info, log_dest,
  log_dest_set, groups_get, groups_set, firmware, reboot_request, handle_frame,
}
use esphome_meshmesh.Node.Life.{pre_setup_preferences, pre_setup, reboot_due, setup}
use esphome_meshmesh.Node.Passes.{passes, passes-Ensures}
use esphome_meshmesh.Node.Cases.{handle_frame-Cases}

-- The settings in flash, which held `o` before.
abbrev pub flash : Option MeshmeshSettings → List Effect → Option MeshmeshSettings
flash o [] = o
flash o (Effect.save p ∷ t) = some p
flash o (_ ∷ t) = flash o t

-- A node that starts now would start with the settings that the node has.
abbrev pub Saved : Option MeshmeshSettings → Node → Type 0
Saved o s = (r : Node) → (pre_setup (flash o s.trace) r).preferences ≡ s.preferences

module _ (P : Platform) (o : Option MeshmeshSettings) where
  save_preferences-Saved : (p : MeshmeshSettings) (s : Node) → Saved o (save_preferences p s)
  unfolding save_preferences pre_setup pre_setup_preferences
  save_preferences-Saved p s r = refl

  node_tag_set-Saved :
      (tag : List ℕ) (s : Node) → Saved o s → Ensures (λ r. Saved o r.1) (node_tag_set tag s)
  unfolding node_tag_set
  node_tag_set-Saved tag s h = elim (Bool-cases (ltb (length tag) 32)) [
    | inl b ↦ rw b (save_preferences-Saved _ s)
    | inr b ↦ rw b tt
  ]

  channel_set-Saved :
      (channel : ℕ) (s : Node) → Saved o s → Ensures (λ r. Saved o r.1) (channel_set channel s)
  unfolding channel_set
  channel_set-Saved channel s h = elim (Bool-cases (ltb channel max_channel)) [
    | inl b ↦ rw b (save_preferences-Saved _ s)
    | inr b ↦ rw b h
  ]

  handle_frame-Saved :
      (now : ℕ) (data' : List ℕ) (s : Node)
      → Saved o s
      → Ensures (λ r. Saved o r.1) (handle_frame P now data' s)
  unfolding node_tag node_config node_info log_dest log_dest_set groups_get groups_set firmware
      reboot_request
  handle_frame-Saved now data' s h =
      handle_frame-Cases P now data' s (Ensures (λ r. Saved o r.1)) (record {
        on_empty = λ e. tt;
        on_none = h;
        on_tag = λ _. h;
        on_tag_set = λ _ _. node_tag_set-Saved _ s h;
        on_channel_set = λ _. channel_set-Saved _ s h;
        on_config = λ _. h;
        on_info = λ _. h;
        on_log_dest = λ _. h;
        on_log_dest_set = λ _. save_preferences-Saved _ s;
        on_groups = λ _. h;
        on_groups_set = λ _. save_preferences-Saved _ s;
        on_firmware = λ _. h;
        on_reboot = λ _. h;
      })

  reboot_due-Saved : (now : ℕ) (s : Node) → Saved o s → Saved o (reboot_due now s)
  unfolding reboot_due
  reboot_due-Saved now s h =
      elim (Bool-cases (s.reboot_requested && ltb 250 (sub32 now s.reboot_requested_time))) [
        | inl b ↦ rw b h
        | inr b ↦ rw b h
      ]

  setup-Saved : (s : Node) → Saved o s → Saved o (setup P s)
  unfolding setup
  setup-Saved s h = elim (Bool-cases P.use_deep_sleep) [
    | inl a ↦ rw a (elim (Bool-cases P.has_logger) [ inl b ↦ rw b h | inr b ↦ rw b h ])
    | inr a ↦ rw a (elim (Bool-cases P.has_logger) [ inl b ↦ rw b h | inr b ↦ rw b h ])
  ]

  settings_lem :
      (stored : Option MeshmeshSettings) (r s : Node)
      → (pre_setup_preferences stored r).preferences ≡ (pre_setup_preferences stored s).preferences
  unfolding pre_setup_preferences
  settings_lem none r s = refl
  settings_lem (some p) r s = refl

  trace_lem :
      (stored : Option MeshmeshSettings) (s : Node)
      → (pre_setup_preferences stored s).trace ≡ s.trace
  unfolding pre_setup_preferences
  trace_lem none s = refl
  trace_lem (some p) s = refl

  pre_setup-Saved : (s : Node) → flash o s.trace ≡ o → Saved o (pre_setup o s)
  unfolding pre_setup
  pre_setup-Saved s e r =
      ap (λ q. (pre_setup_preferences q r).preferences) (ap (flash o) (trace_lem o s) ∙ e)
      ∙ settings_lem o r s

-- A node that starts with what flash holds has those settings: after any passes of its loop, with
-- any frames, that do not run into undefined behaviour, a restart finds the very settings that the
-- node has then.
pub passes-Saved :
    (P : Platform) (o : Option MeshmeshSettings) (s : Node) (rest : List (List (ℕ × List ℕ) × ℕ))
    → flash o s.trace ≡ o
    → Ensures (Saved o) (passes P rest (setup P (pre_setup o s)))
passes-Saved P o s rest e =
    passes-Ensures P (Saved o) (handle_frame-Saved P o) (λ t h. h) (reboot_due-Saved P o) rest
      (setup P (pre_setup o s)) (setup-Saved P o (pre_setup o s) (pre_setup-Saved P o s e))
