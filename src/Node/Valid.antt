-- ===== src/Node/Valid.antt =====
-- The settings that a node can have (components/meshmesh/meshmesh.cpp).
use esphome_meshmesh.Prelude.{
  ltb, Bool-cases, length, get_or, blit, length-blit, Ensures, ℕ, zero, suc, ◌<◌, ◌≡◌, refl, ◌∙◌,
  ◌⊎◌, inl, inr, ◌&&◌, List, [], ◌∷◌, arith,
}
use esphome_meshmesh.Mesh.{sub32}
use esphome_meshmesh.Node.State.{MeshmeshSettings, Platform, Node, max_channel, uint8_max}
use esphome_meshmesh.Node.Frames.{
  save_preferences, node_tag, node_tag_set, channel_set, node_config, node_info, log_dest,
  log_dest_set, groups_get, groups_set, firmware, reboot_request, handle_frame,
}
use esphome_meshmesh.Node.Life.{default_preferences, reboot_due}
use esphome_meshmesh.Node.Passes.{passes, passes-Ensures}
use esphome_meshmesh.Node.Cases.{handle_frame-Cases}

-- A zero stands in the first 32 places.
abbrev pub Terminated : List ℕ → Type 0
Terminated tag = (i : ℕ) × (i < 32) × (get_or tag i 1 ≡ 0)

-- The tag is a terminated text in its array, and the channel one that can be set, or none.
pub record IsValid (p : MeshmeshSettings) : Type 0 where
  pub sized : length p.devicetag ≡ 32
  pub terminated : Terminated p.devicetag
  pub allowed : (p.channel ≡ uint8_max) ⊎ (p.channel < max_channel)

get_or-blit : (dst : List ℕ) (i x d : ℕ) → i < length dst → get_or (blit dst i (x ∷ [])) i d ≡ x
get_or-blit [] i x d h = absurd (omega arith)
get_or-blit (y ∷ dst) zero x d h = refl
get_or-blit (y ∷ dst) (suc i) x d h = get_or-blit dst i x d (omega arith)

pub default_preferences-IsValid : IsValid default_preferences
unfolding default_preferences
default_preferences-IsValid = record {
  sized = refl;
  terminated = (0, omega arith, refl);
  allowed = inl refl;
}

module _ (P : Platform) where
  abbrev Good : Node → Type 0
  Good s = IsValid s.preferences

  node_tag_set-Good :
      (tag : List ℕ) (s : Node) → Good s → Ensures (λ r. Good r.1) (node_tag_set tag s)
  unfolding node_tag_set save_preferences
  node_tag_set-Good tag s h =
      let old = s.preferences.devicetag in
      let copied = blit old 0 tag in
      let n : length copied ≡ 32 = length-blit old 0 tag ∙ h.sized in
      elim (Bool-cases (ltb (length tag) 32)) [
        | inr b ↦ rw b tt
        | inl b ↦ rw b (record {
          sized = length-blit copied (length tag) (0 ∷ []) ∙ n;
          terminated =
              (length tag, ground arith, get_or-blit copied (length tag) 0 1 (ground arith));
          allowed = h.allowed;
        })
      ]

  channel_set-Good :
      (channel : ℕ) (s : Node) → Good s → Ensures (λ r. Good r.1) (channel_set channel s)
  unfolding channel_set save_preferences
  channel_set-Good channel s h = elim (Bool-cases (ltb channel max_channel)) [
    | inl b ↦
        rw b (record { sized = h.sized; terminated = h.terminated; allowed = inr (ground arith) })
    | inr b ↦ rw b h
  ]

  handle_frame-Good :
      (now : ℕ) (data' : List ℕ) (s : Node)
      → Good s
      → Ensures (λ r. Good r.1) (handle_frame P now data' s)
  unfolding node_tag node_config node_info log_dest log_dest_set groups_get groups_set firmware
      reboot_request save_preferences
  handle_frame-Good now data' s h =
      handle_frame-Cases P now data' s (Ensures (λ r. Good r.1)) (record {
        on_empty = λ e. tt;
        on_none = h;
        on_tag = λ _. h;
        on_tag_set = λ _ _. node_tag_set-Good _ s h;
        on_channel_set = λ _. channel_set-Good _ s h;
        on_config = λ _. h;
        on_info = λ _. h;
        on_log_dest = λ _. h;
        on_log_dest_set =
            λ _. record { sized = h.sized; terminated = h.terminated; allowed = h.allowed };
        on_groups = λ _. h;
        on_groups_set =
            λ _. record { sized = h.sized; terminated = h.terminated; allowed = h.allowed };
        on_firmware = λ _. h;
        on_reboot = λ _. h;
      })

  reboot_due-Good : (now : ℕ) (s : Node) → Good s → Good (reboot_due now s)
  unfolding reboot_due
  reboot_due-Good now s h =
      elim (Bool-cases (s.reboot_requested && ltb 250 (sub32 now s.reboot_requested_time))) [
        | inl b ↦ rw b h
        | inr b ↦ rw b h
      ]

  -- From a state with valid settings, any passes with any frames lead, if they do not run into
  -- undefined behaviour, to valid settings: the tag fills its array of 32 bytes with a terminator
  -- among them, and the channel is unset or below 13.
  pub passes-IsValid :
      (rest : List (List (ℕ × List ℕ) × ℕ)) (s : Node)
      → IsValid s.preferences
      → Ensures (λ t. IsValid t.preferences) (passes P rest s)
  passes-IsValid rest s h =
      passes-Ensures P Good handle_frame-Good (λ t k. k) reboot_due-Good rest s h
