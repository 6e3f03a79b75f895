-- ===== src/Node/Life.antt =====
-- Construction, set-up, the loop, the end and the log of `MeshmeshComponent`
-- (components/meshmesh/meshmesh.cpp, meshmesh.h).
use esphome_meshmesh.Prelude.{
  ltb, ◌==◌, if◌then◌else◌, length, replicate, Result, ◌>>=◌, ok, fault, ℕ, ◌+◌, ◌%◌, ◌^◌, Bool,
  true, false, not, ◌&&◌, Option, none, some, List, [], ◌∷◌, ◌++◌,
}
use esphome_meshmesh.Mesh.{sub32}
use esphome_meshmesh.Node.State.{
  MeshmeshSettings, SetupConfig, Effect, Platform, Node, act, uint8_max, cmd_logevent_rep,
}
use esphome_meshmesh.Node.Frames.{handle_frame}

-- The object as constructed; its preferences and its channel have no initial value.
unfoldable pub fresh : MeshmeshSettings → ℕ → ℕ → ℕ → ℕ → Node
fresh preferences channel baud_rate tx_buffer rx_buffer = record {
  preferences = preferences;
  config_channel = channel;
  config_node_type = 0;
  log_to_uart = ltb 0 baud_rate;
  is_connected = true;
  reboot_requested = false;
  reboot_requested_time = 0;
  trace = Effect.mesh_create baud_rate tx_buffer rx_buffer ∷ [];
}

unfoldable pub set_aes_password : List ℕ → Node → Node
set_aes_password password s = act (Effect.mesh_set_aes_password password) s

-- The member is a `uint8_t`.
unfoldable pub set_channel : ℕ → Node → Node
set_channel channel s = record s { config_channel = channel % 2 ^ 8 }

unfoldable pub set_node_type : ℕ → Node → Node
set_node_type node_type s = record s { config_node_type = node_type }

unfoldable pub default_preferences : MeshmeshSettings
default_preferences = record {
  devicetag = replicate 32 0;
  log_destination = 0;
  channel = uint8_max;
  tx_power = uint8_max;
  flags = 0;
  groups = 0;
}

-- `stored`: what flash holds, if it can be read.
unfoldable pub pre_setup_preferences : Option MeshmeshSettings → Node → Node
pre_setup_preferences none s = record s { preferences = default_preferences }
pre_setup_preferences (some p) s = record s { preferences = p }

unfoldable pub pre_setup : Option MeshmeshSettings → Node → Node
pre_setup stored s = act Effect.mesh_pre_setup (pre_setup_preferences stored s)

unfoldable pub on_shutdown : Node → Node
on_shutdown s = act Effect.mesh_shutdown s

-- `complete` is the answer of the mesh library.
unfoldable pub teardown : Bool → Node → Bool × Node
teardown complete s =
    let s' = act Effect.mesh_teardown s in
    (complete, if complete then record s' { is_connected = false } else s')

unfoldable pub reboot_due : ℕ → Node → Node
reboot_due now s =
    if s.reboot_requested && ltb 250 (sub32 now s.reboot_requested_time)
    then act Effect.reboot s
    else s

module _ (P : Platform) where
  unfoldable pub setup_config : Node → SetupConfig
  setup_config s = record {
    hostname = P.name;
    channel =
        if s.preferences.channel == uint8_max then s.config_channel else s.preferences.channel;
    tx_power = s.preferences.tx_power;
    node_type = s.config_node_type;
    fw_version = P.version;
    compile_time = P.build_time;
  }

  unfoldable pub setup : Node → Node
  setup s =
      let s1 = if P.use_deep_sleep then record s { config_node_type = P.node_type_edge } else s in
      let s2 = if P.has_logger then act Effect.add_log_callback s1 else s1 in
      act Effect.mesh_add_handle_frame_cb (act (Effect.mesh_setup (setup_config s1)) s2)

  -- The frames that a pass of the mesh loop delivers, with the clock at each.
  unfoldable pub handle_frames : List (ℕ × List ℕ) → Node → Result Node
  handle_frames [] s = ok s
  handle_frames ((now, data') ∷ frames) s =
      handle_frame P now data' s >>= λ r. handle_frames frames r.1

  unfoldable pub loop : List (ℕ × List ℕ) → ℕ → Node → Result Node
  loop frames now s = handle_frames frames (act Effect.mesh_loop s) >>= λ t. ok (reboot_due now t)

  -- The length of the buffer is a `uint16_t`; a message that does not fit in behind the header of
  -- 7 bytes is copied past the buffer's end.
  unfoldable pub on_log : ℕ → List ℕ → Node → Result Node
  on_log level message s =
      let buffersize = (7 + length message) % 2 ^ 16 in
      let buffer = cmd_logevent_rep ∷ (P.put16 level ++ (P.put32 0 ++ message)) in
      if not s.log_to_uart && s.preferences.log_destination == 0
      then ok s
      else if ltb buffersize (7 + length message)
      then fault
      else if s.log_to_uart
      then ok (act (Effect.mesh_uart_send_data buffer) s)
      else ok s
