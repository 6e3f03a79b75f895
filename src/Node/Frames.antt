-- ===== src/Node/Frames.antt =====
-- The node commands: `MeshmeshComponent::handleFrame` (components/meshmesh/meshmesh.cpp), one
-- function per case of its switch. Each reading of the clock is an argument.
use esphome_meshmesh.Prelude.{
  ℕ, Bool, true, List, [], ◌∷◌, ◌++◌, length, get_or, take, drop, blit, ltb, ◌==◌, if◌then◌else◌,
  Result, ok, fault,
}
use esphome_meshmesh.Node.State.{
  MeshmeshSettings, NodeInfo, Effect, Platform, Node, act, Verdict, settings_bytes, max_channel,
  cmd_firmware_req, cmd_firmware_rep, cmd_node_tag_req, cmd_node_tag_rep, cmd_node_tag_set_req,
  cmd_node_tag_set_rep, cmd_channel_set_req, cmd_channel_set_rep, cmd_node_config_req,
  cmd_node_config_rep, cmd_node_info_req, node_info_msgid, cmd_log_dest_req, cmd_log_dest_rep,
  cmd_log_dest_set_req, cmd_log_dest_set_rep, cmd_reboot_req, cmd_reboot_rep, cmd_groups_req,
  cmd_groups_rep, cmd_groups_set_req, cmd_groups_set_rep,
}

-- `commandReply`, and the answer that the frame is handled.
abbrev pub command_reply : List ℕ → Node → Result (Verdict × Node)
command_reply rep s = ok (Verdict.handle_uart_ok, act (Effect.mesh_command_reply rep) s)

abbrev pub not_handled : Node → Result (Verdict × Node)
not_handled s = ok (Verdict.frame_not_handled, s)

-- New settings, written to flash.
unfoldable pub save_preferences : MeshmeshSettings → Node → Node
save_preferences p s = act (Effect.save p) (record s { preferences = p })

unfoldable pub node_tag : Node → Result (Verdict × Node)
node_tag s = command_reply (cmd_node_tag_rep ∷ s.preferences.devicetag) s

-- The tag's bytes and a terminator behind them, of which those that fall outside the array are
-- undefined behaviour.
unfoldable pub node_tag_set : List ℕ → Node → Result (Verdict × Node)
node_tag_set tag s =
    let p = s.preferences in
    if ltb (length tag) 32
    then command_reply (cmd_node_tag_set_rep ∷ []) (
        save_preferences
          (record p { devicetag = blit (blit p.devicetag 0 tag) (length tag) (0 ∷ []) }) s)
    else fault

unfoldable pub channel_set : ℕ → Node → Result (Verdict × Node)
channel_set channel s =
    if ltb channel max_channel
    then command_reply (cmd_channel_set_rep ∷ [])
        (save_preferences (record s.preferences { channel = channel }) s)
    else not_handled s

unfoldable pub node_config : Node → Result (Verdict × Node)
node_config s = command_reply (cmd_node_config_rep ∷ settings_bytes s.preferences) s

module _ (P : Platform) where
  -- The `mac_address` and `platform` are literals in the code.
  unfoldable pub node_info_message : Node → NodeInfo
  node_info_message s =
      let zeros = b'0' ∷ b'0' ∷ [] in
      let colon_zeros = b':' ∷ zeros in
      record {
        friendly_name = take 48 P.friendly_name;
        firmware_version = take 16 P.version;
        mac_address =
            zeros
            ++ (colon_zeros ++ (colon_zeros ++ (colon_zeros ++ (colon_zeros ++ colon_zeros))));
        platform = b'E' ∷ b'S' ∷ b'P' ∷ [];
        board = take 32 P.board;
        compile_time = take 28 P.build_time;
        lib_version = take 16 P.lib_version;
        node_type = s.config_node_type;
      }

  unfoldable pub node_info : Node → Result (Verdict × Node)
  node_info s = command_reply (node_info_msgid ∷ P.pb_encode (node_info_message s)) s

  unfoldable pub log_dest : Node → Result (Verdict × Node)
  log_dest s = command_reply (cmd_log_dest_rep ∷ P.put32 s.preferences.log_destination) s

  unfoldable pub log_dest_set : List ℕ → Node → Result (Verdict × Node)
  log_dest_set word s =
      command_reply (cmd_log_dest_set_rep ∷ [])
        (save_preferences (record s.preferences { log_destination = P.get32 word }) s)

  unfoldable pub groups_get : Node → Result (Verdict × Node)
  groups_get s = command_reply (cmd_groups_rep ∷ P.put32 s.preferences.groups) s

  unfoldable pub groups_set : List ℕ → Node → Result (Verdict × Node)
  groups_set word s =
      command_reply (cmd_groups_set_rep ∷ [])
        (save_preferences (record s.preferences { groups = P.get32 word }) s)

  -- The version with its terminator.
  unfoldable pub firmware : Node → Result (Verdict × Node)
  firmware s = command_reply (cmd_firmware_rep ∷ (P.version ++ 0 ∷ [])) s

unfoldable pub reboot_request : ℕ → Node → Result (Verdict × Node)
reboot_request now s =
    command_reply (cmd_reboot_rep ∷ [])
      (record s { reboot_requested = true; reboot_requested_time = now })

-- A case of the switch with the test of the frame's size in front of it.
abbrev pub guarded : Bool → Result (Verdict × Node) → Node → Result (Verdict × Node)
guarded fits r s = if fits then r else not_handled s

module _ (P : Platform) where
  -- The first byte is read whatever the size, so that an empty frame is undefined behaviour.
  unfoldable pub handle_frame : ℕ → List ℕ → Node → Result (Verdict × Node)
  handle_frame now data' s =
      let cmd = get_or data' 0 0 in
      let size = length data' in
      if size == 0
      then fault
      else if cmd == cmd_node_tag_req
      then guarded (size == 1) (node_tag s) s
      else if cmd == cmd_node_tag_set_req
      then guarded (ltb 1 size) (node_tag_set (drop 1 data') s) s
      else if cmd == cmd_channel_set_req
      then guarded (size == 2) (channel_set (get_or data' 1 0) s) s
      else if cmd == cmd_node_config_req
      then guarded (size == 1) (node_config s) s
      else if cmd == cmd_node_info_req
      then guarded (size == 1) (node_info P s) s
      else if cmd == cmd_log_dest_req
      then guarded (size == 1) (log_dest P s) s
      else if cmd == cmd_log_dest_set_req
      then guarded (size == 5) (log_dest_set P (drop 1 data') s) s
      else if cmd == cmd_groups_req
      then guarded (size == 1) (groups_get P s) s
      else if cmd == cmd_groups_set_req
      then guarded (size == 5) (groups_set P (drop 1 data') s) s
      else if cmd == cmd_firmware_req
      then guarded (size == 1) (firmware P s) s
      else if cmd == cmd_reboot_req
      then guarded (size == 1) (reboot_request now s) s
      else not_handled s
