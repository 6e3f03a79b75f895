-- ===== src/Node/State.antt =====
-- The state of `MeshmeshComponent` (components/meshmesh/meshmesh.h), the command codes
-- (components/meshmesh/commands.h), and what the component calls outside.
use esphome_meshmesh.Prelude.{ℕ, ◌<◌, ◌≡◌, ◌^◌, ◌%◌, ◌/◌, Bool, List, [], ◌∷◌, ◌++◌, length}

pub record MeshmeshSettings : Type 0 where
  -- an array of 32 characters
  pub devicetag : List ℕ
  pub log_destination : ℕ
  pub channel : ℕ
  pub tx_power : ℕ
  pub flags : ℕ
  pub groups : ℕ

-- `espmeshmesh::EspMeshMesh::SetupConfig`.
pub record SetupConfig : Type 0 where
  pub hostname : List ℕ
  pub channel : ℕ
  pub tx_power : ℕ
  pub node_type : ℕ
  pub fw_version : List ℕ
  pub compile_time : List ℕ

-- The message of nodeinfo.proto, its texts without terminators.
pub record NodeInfo : Type 0 where
  pub friendly_name : List ℕ
  pub firmware_version : List ℕ
  pub mac_address : List ℕ
  pub platform : List ℕ
  pub board : List ℕ
  pub compile_time : List ℕ
  pub lib_version : List ℕ
  pub node_type : ℕ

-- What the component does to the world, newest first. The calls of the mesh library start with
-- `mesh`.
pub data Effect : Type 0 where
  mesh_create : ℕ → ℕ → ℕ → Effect
  mesh_set_aes_password : List ℕ → Effect
  mesh_pre_setup : Effect
  mesh_setup : SetupConfig → Effect
  mesh_add_handle_frame_cb mesh_loop mesh_shutdown mesh_teardown : Effect
  mesh_command_reply : List ℕ → Effect
  mesh_uart_send_data : List ℕ → Effect
  add_log_callback : Effect
  save : MeshmeshSettings → Effect
  reboot : Effect

abbrev pub IsBytes : List ℕ → Type 0
IsBytes [] = Unit {0}
IsBytes (b ∷ bs) = (b < 2 ^ 8) × IsBytes bs

-- What the build and the mesh library give: the constants of the application, the encoder of node
-- information, and the codecs of 16- and 32-bit numbers.
pub record Platform : Type 0 where
  pub name : List ℕ
  pub friendly_name : List ℕ
  pub version : List ℕ
  pub board : List ℕ
  pub build_time : List ℕ
  pub lib_version : List ℕ
  pub node_type_edge : ℕ
  pub use_deep_sleep : Bool
  -- the logger is compiled in and there
  pub has_logger : Bool
  pub pb_encode : NodeInfo → List ℕ
  pub put16 : ℕ → List ℕ
  pub put32 : ℕ → List ℕ
  -- of the first four bytes
  pub get32 : List ℕ → ℕ
  pub put32-get32 : (bs : List ℕ) → length bs ≡ 4 → IsBytes bs → put32 (get32 bs) ≡ bs

pub record Node : Type 0 where
  pub preferences : MeshmeshSettings
  pub config_channel : ℕ
  pub config_node_type : ℕ
  pub log_to_uart : Bool
  pub is_connected : Bool
  pub reboot_requested : Bool
  pub reboot_requested_time : ℕ
  pub trace : List Effect

abbrev pub act : Effect → Node → Node
act e s = record s { trace = e ∷ s.trace }

-- What `handleFrame` answers to the mesh library.
pub data Verdict : Type 0 where
  handle_uart_ok frame_not_handled : Verdict

abbrev pub max_channel : ℕ
max_channel = 13

abbrev pub uint8_max : ℕ
uint8_max = 255

abbrev pub cmd_firmware_req : ℕ
cmd_firmware_req = 0x02

abbrev pub cmd_firmware_rep : ℕ
cmd_firmware_rep = 0x03

abbrev pub cmd_node_tag_req : ℕ
cmd_node_tag_req = 0x06

abbrev pub cmd_node_tag_rep : ℕ
cmd_node_tag_rep = 0x07

abbrev pub cmd_node_tag_set_req : ℕ
cmd_node_tag_set_req = 0x08

abbrev pub cmd_node_tag_set_rep : ℕ
cmd_node_tag_set_rep = 0x09

abbrev pub cmd_channel_set_req : ℕ
cmd_channel_set_req = 0x0C

abbrev pub cmd_channel_set_rep : ℕ
cmd_channel_set_rep = 0x0D

abbrev pub cmd_node_config_req : ℕ
cmd_node_config_req = 0x0E

abbrev pub cmd_node_config_rep : ℕ
cmd_node_config_rep = 0x0F

abbrev pub cmd_node_info_req : ℕ
cmd_node_info_req = 0x10

-- `pb_meshmesh_NodeInfo_msgid`.
abbrev pub node_info_msgid : ℕ
node_info_msgid = 0x11

abbrev pub cmd_log_dest_req : ℕ
cmd_log_dest_req = 0x12

abbrev pub cmd_log_dest_rep : ℕ
cmd_log_dest_rep = 0x13

abbrev pub cmd_log_dest_set_req : ℕ
cmd_log_dest_set_req = 0x14

abbrev pub cmd_log_dest_set_rep : ℕ
cmd_log_dest_set_rep = 0x15

abbrev pub cmd_reboot_req : ℕ
cmd_reboot_req = 0x18

abbrev pub cmd_reboot_rep : ℕ
cmd_reboot_rep = 0x19

abbrev pub cmd_groups_req : ℕ
cmd_groups_req = 0x20

abbrev pub cmd_groups_rep : ℕ
cmd_groups_rep = 0x21

abbrev pub cmd_groups_set_req : ℕ
cmd_groups_set_req = 0x22

abbrev pub cmd_groups_set_rep : ℕ
cmd_groups_set_rep = 0x23

abbrev pub cmd_logevent_rep : ℕ
cmd_logevent_rep = 0x39

-- A `uint32_t` in memory, the targets being little-endian.
abbrev pub bytes32 : ℕ → List ℕ
bytes32 n = n % 2 ^ 8 ∷ n / 2 ^ 8 % 2 ^ 8 ∷ n / 2 ^ 16 % 2 ^ 8 ∷ n / 2 ^ 24 % 2 ^ 8 ∷ []

-- The settings in memory: the structure is packed.
unfoldable pub settings_bytes : MeshmeshSettings → List ℕ
settings_bytes p =
    p.devicetag
    ++ (bytes32 p.log_destination ++ (p.channel ∷ p.tx_power ∷ p.flags ∷ bytes32 p.groups))
