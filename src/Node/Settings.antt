-- ===== src/Node/Settings.antt =====
-- Settings written and read back through `MeshmeshComponent::handleFrame`
-- (components/meshmesh/meshmesh.cpp), and what a restart makes of a channel.
use esphome_meshmesh.Prelude.{
  ltb, ◌==◌, if◌then◌else◌, Bool-cases, length, drop, blit, ◌>>=◌, ok, ℕ, zero, suc, ◌≤◌, ◌<◌, ◌≡◌,
  refl, ap, ◌∙◌, inl, inr, true, false, Option, none, some, List, [], ◌∷◌, ◌++◌, arith,
}
use esphome_meshmesh.Node.State.{
  MeshmeshSettings, Effect, IsBytes, Platform, Node, Verdict, max_channel, uint8_max,
  cmd_node_tag_req, cmd_node_tag_rep, cmd_node_tag_set_req, cmd_node_tag_set_rep,
  cmd_channel_set_req, cmd_log_dest_req, cmd_log_dest_rep, cmd_log_dest_set_req,
  cmd_log_dest_set_rep, cmd_groups_req, cmd_groups_rep, cmd_groups_set_req, cmd_groups_set_rep,
}
use esphome_meshmesh.Node.Frames.{
  command_reply, save_preferences, node_tag, node_tag_set, channel_set, log_dest, log_dest_set,
  groups_get, groups_set, handle_frame,
}
use esphome_meshmesh.Node.Life.{pre_setup_preferences, pre_setup, setup_config, setup}
use esphome_meshmesh.Node.Saved.{flash}

blit_start :
    {A : Type 0} (dst src : List A)
    → length src ≤ length dst
    → blit dst 0 src ≡ src ++ drop (length src) dst
blit_start [] [] h = refl
blit_start [] (y ∷ src) h = absurd (omega arith)
blit_start (x ∷ dst) [] h = refl
blit_start (x ∷ dst) (y ∷ src) h = ap (λ k. y ∷ k) (blit_start dst src (omega arith))

blit_behind :
    {A : Type 0} (front back src : List A)
    → blit (front ++ back) (length front) src ≡ front ++ blit back 0 src
blit_behind [] back src = refl
blit_behind (x ∷ front) back src = ap (λ k. x ∷ k) (blit_behind front back src)

blit_one :
    (n : ℕ) (old : List ℕ) → n < length old → blit (drop n old) 0 (0 ∷ []) ≡ 0 ∷ drop (suc n) old
blit_one n [] h = absurd (omega arith)
blit_one zero (x ∷ []) h = refl
blit_one zero (x ∷ y ∷ old) h = refl
blit_one (suc n) (x ∷ old) h = blit_one n old (omega arith)

-- The array after a tag is set.
tag_lem :
    (old tag : List ℕ)
    → length tag < length old
    → blit (blit old 0 tag) (length tag) (0 ∷ []) ≡ tag ++ 0 ∷ drop (suc (length tag)) old
tag_lem old tag h =
    ap (λ k. blit k (length tag) (0 ∷ [])) (blit_start old tag (omega arith))
    ∙ blit_behind tag (drop (length tag) old) (0 ∷ [])
    ∙ ap (λ k. tag ++ k) (blit_one (length tag) old h)

-- The settings with the tag `tag`.
abbrev pub tagged : List ℕ → MeshmeshSettings → MeshmeshSettings
tagged tag p = record p { devicetag = tag ++ 0 ∷ drop (suc (length tag)) p.devicetag }

-- The channel that the mesh library was last set up with.
abbrev pub chosen : List Effect → Option ℕ
chosen [] = none
chosen (Effect.mesh_setup config ∷ t) = some config.channel
chosen (_ ∷ t) = chosen t

node_tag_set_lem :
    (tag : List ℕ) (s : Node)
    → length s.preferences.devicetag ≡ 32
    → length tag < 32
    → node_tag_set tag s
      ≡ command_reply (cmd_node_tag_set_rep ∷ []) (save_preferences (tagged tag s.preferences) s)
unfolding node_tag_set
node_tag_set_lem tag s n h =
    let small : ltb (length tag) 32 ≡ true = ground arith in
    rw (small) (
      ap
        (λ k.
          command_reply (cmd_node_tag_set_rep ∷ [])
            (save_preferences (record s.preferences { devicetag = k }) s))
        (tag_lem s.preferences.devicetag tag (omega arith)))

module _ (P : Platform) where
  -- Setting a tag of 1 to 31 bytes and then asking for it is answered by the tag, a terminator and
  -- what stood behind them in the array before. The tag is in flash, and nothing else has changed.
  pub handle_frame-tag :
      (t0 t1 x : ℕ) (xs : List ℕ) (s : Node)
      → length s.preferences.devicetag ≡ 32
      → length (x ∷ xs) < 32
      → let p = tagged (x ∷ xs) s.preferences in
        (handle_frame P t0 (cmd_node_tag_set_req ∷ x ∷ xs) s >>= λ r.
        handle_frame P t1 (cmd_node_tag_req ∷ []) r.1)
        ≡ ok (
          Verdict.handle_uart_ok,
          record s {
            preferences = p;
            trace =
                Effect.mesh_command_reply (cmd_node_tag_rep ∷ p.devicetag)
                ∷ Effect.mesh_command_reply (cmd_node_tag_set_rep ∷ [])
                ∷ Effect.save p
                ∷ s.trace;
          },
        )
  unfolding handle_frame node_tag save_preferences
  handle_frame-tag t0 t1 x xs s n h =
      let fits : ltb 1 (suc (suc (length xs))) ≡ true = ground arith in
      let there : suc (suc (length xs)) == 0 ≡ false = ground arith in
      rw (there, fits, node_tag_set_lem (x ∷ xs) s n h) refl

  -- Setting the log destination to four bytes and asking for it gives these bytes, and so with the
  -- groups; neither changes the other.
  pub handle_frame-words :
      (t0 t1 t2 t3 : ℕ) (log groups : List ℕ) (s : Node)
      → length log ≡ 4
      → IsBytes log
      → length groups ≡ 4
      → IsBytes groups
      → let p = record s.preferences { log_destination = P.get32 log; groups = P.get32 groups } in
        (handle_frame P t0 (cmd_log_dest_set_req ∷ log) s >>= λ r.
        handle_frame P t1 (cmd_groups_set_req ∷ groups) r.1 >>= λ r.
        handle_frame P t2 (cmd_log_dest_req ∷ []) r.1 >>= λ r.
        handle_frame P t3 (cmd_groups_req ∷ []) r.1)
        ≡ ok (
          Verdict.handle_uart_ok,
          record s {
            preferences = p;
            trace =
                Effect.mesh_command_reply (cmd_groups_rep ∷ groups)
                ∷ Effect.mesh_command_reply (cmd_log_dest_rep ∷ log)
                ∷ Effect.mesh_command_reply (cmd_groups_set_rep ∷ [])
                ∷ Effect.save p
                ∷ Effect.mesh_command_reply (cmd_log_dest_set_rep ∷ [])
                ∷ Effect.save (record s.preferences { log_destination = P.get32 log })
                ∷ s.trace;
          },
        )
  unfolding handle_frame log_dest_set log_dest groups_set groups_get save_preferences
  handle_frame-words t0 t1 t2 t3 log groups s a b c d =
      rw (a, c, P.put32-get32 log a b, P.put32-get32 groups c d) refl

  -- The channel that a node sets up that starts with what flash holds, `o` or what was saved since.
  abbrev pub restarted : Option MeshmeshSettings → Node → Node → Option ℕ
  restarted o r s = chosen (setup P (pre_setup (flash o s.trace) r)).trace

  restarted_lem :
      (o : Option MeshmeshSettings) (r s : Node)
      → restarted o r s ≡ some (setup_config P (pre_setup (flash o s.trace) r)).channel
  unfolding setup setup_config
  restarted_lem o r s = elim (Bool-cases P.use_deep_sleep) [ inl a ↦ rw a refl | inr a ↦ rw a refl ]

  channel_lem :
      (channel : ℕ) (o : Option MeshmeshSettings) (r s : Node)
      → ltb channel max_channel ≡ true
      → restarted o r (save_preferences (record s.preferences { channel = channel }) s)
        ≡ some channel
  unfolding save_preferences setup_config pre_setup pre_setup_preferences
  channel_lem channel o r s b =
      let set : (channel == uint8_max) ≡ false = ground arith in
      restarted_lem o r (save_preferences (record s.preferences { channel = channel }) s)
      ∙ rw (set) refl

  -- A request to set a channel never runs into undefined behaviour. Below 13 a node that starts
  -- again is set up on that channel; from 13 on, on the channel that it would have had without.
  pub handle_frame-channel :
      (now channel : ℕ) (o : Option MeshmeshSettings) (r s : Node)
      → (handle_frame P now (cmd_channel_set_req ∷ channel ∷ []) s >>= λ a. ok (restarted o r a.1))
        ≡ ok (if ltb channel max_channel then some channel else restarted o r s)
  unfolding handle_frame channel_set
  handle_frame-channel now channel o r s = elim (Bool-cases (ltb channel max_channel)) [
    | inl b ↦ rw b (ap ok (channel_lem channel o r s b))
    | inr b ↦ rw b refl
  ]
