-- ===== src/Node/Tests.antt =====
-- A sample node (components/meshmesh/meshmesh.cpp), and the theorems about it at concrete inputs.
use esphome_meshmesh.Prelude.{
  length, get_or, replicate, ◌>>=◌, Ensures, ok, fault, ℕ, ◌+◌, ◌*◌, ◌/◌, ◌%◌, ◌≡◌, refl, true,
  false, none, some, List, [], ◌∷◌, arith,
}
use esphome_meshmesh.Node.State.{
  Effect, IsBytes, Platform, Node, act, Verdict, cmd_node_tag_req, cmd_node_tag_rep,
  cmd_node_tag_set_req, cmd_node_tag_set_rep, cmd_channel_set_req, cmd_channel_set_rep,
  cmd_node_info_req, node_info_msgid, cmd_reboot_req, cmd_reboot_rep, bytes32, settings_bytes,
}
use esphome_meshmesh.Node.Frames.{
  save_preferences, node_tag_set, channel_set, node_info_message, node_info, handle_frame,
}
use esphome_meshmesh.Node.Life.{
  fresh, set_channel, default_preferences, pre_setup_preferences, pre_setup, reboot_due,
  setup_config, setup, handle_frames, loop,
}
use esphome_meshmesh.Node.Replies.{replies, Responds, handle_frame-Responds}
use esphome_meshmesh.Node.Passes.{passes}
use esphome_meshmesh.Node.Saved.{Saved, passes-Saved}
use esphome_meshmesh.Node.Valid.{IsValid, default_preferences-IsValid, passes-IsValid}
use esphome_meshmesh.Node.Settings.{tagged, handle_frame-tag, restarted, handle_frame-channel}
use esphome_meshmesh.Node.Reboot.{quiet, handle_frame-passes}

abbrev word_of : List ℕ → ℕ
word_of bs = get_or bs 0 0 + 256 * get_or bs 1 0 + 65536 * get_or bs 2 0 + 16777216 * get_or bs 3 0

bytes32-word_of : (bs : List ℕ) → length bs ≡ 4 → IsBytes bs → bytes32 (word_of bs) ≡ bs
bytes32-word_of (a ∷ b ∷ c ∷ d ∷ []) n (p, (q, (r, (s, _)))) =
    let n0 = a + 256 * b + 65536 * c + 16777216 * d in
    let e0 : n0 % 256 ≡ a = omega arith in
    let e1 : n0 / 256 % 256 ≡ b = omega arith in
    let e2 : n0 / 65536 % 256 ≡ c = omega arith in
    let e3 : n0 / 16777216 % 256 ≡ d = omega arith in rw (e0, e1, e2, e3) refl
bytes32-word_of [] n h = absurd (omega arith)
bytes32-word_of (a ∷ []) n h = absurd (omega arith)
bytes32-word_of (a ∷ b ∷ []) n h = absurd (omega arith)
bytes32-word_of (a ∷ b ∷ c ∷ []) n h = absurd (omega arith)
bytes32-word_of (a ∷ b ∷ c ∷ d ∷ e ∷ bs) n h = absurd (omega arith)

abbrev platform : Platform
platform = record {
  name = b'n' ∷ [];
  friendly_name = b'N' ∷ [];
  version = b'1' ∷ [];
  board = b'b' ∷ [];
  build_time = b't' ∷ [];
  lib_version = b'2' ∷ [];
  node_type_edge = 2;
  use_deep_sleep = false;
  has_logger = true;
  pb_encode = λ info. info.node_type ∷ [];
  put16 = λ n. n % 256 ∷ n / 256 % 256 ∷ [];
  put32 = bytes32;
  get32 = word_of;
  put32-get32 = bytes32-word_of;
}

unfoldable node : Node
node =
    setup platform (pre_setup none (set_channel 6 (fresh default_preferences 0 115200 1024 1024)))

abbrev name_frame : List ℕ
name_frame = cmd_node_tag_set_req ∷ b'h' ∷ b'i' ∷ []

abbrev session : List (List (ℕ × List ℕ) × ℕ)
session =
    ((10, name_frame) ∷ (11, cmd_channel_set_req ∷ 9 ∷ []) ∷ [], 12)
    ∷ ([], 20)
    ∷ ((30, cmd_channel_set_req ∷ 13 ∷ []) ∷ [], 31)
    ∷ []

-- The reply to a frame that asks for the settings, after the session.
abbrev summary : Node → List (List ℕ) × (ℕ × ℕ)
summary t = (replies t.trace, (t.preferences.channel, length (settings_bytes t.preferences)))

run-passes :
    (passes platform session node >>= λ t. ok (summary t))
    ≡ ok ((cmd_channel_set_rep ∷ []) ∷ (cmd_node_tag_set_rep ∷ []) ∷ [], (9, 43))
unfolding node fresh set_channel pre_setup pre_setup_preferences default_preferences setup
    setup_config loop handle_frames handle_frame node_tag_set channel_set save_preferences
    reboot_due settings_bytes
run-passes = refl

-- A tag of 32 bytes leaves no place for its terminator.
run-node_tag_set : handle_frame platform 10 (cmd_node_tag_set_req ∷ replicate 32 b'x') node ≡ fault
unfolding handle_frame node_tag_set
run-node_tag_set = refl

run-node_info :
    handle_frame platform 10 (cmd_node_info_req ∷ []) node
    ≡ ok (Verdict.handle_uart_ok, act (Effect.mesh_command_reply (node_info_msgid ∷ 0 ∷ [])) node)
unfolding handle_frame node_info node_info_message node fresh set_channel setup pre_setup
    pre_setup_preferences
run-node_info = refl

handle_frame-Responds_example :
    Responds (get_or name_frame 0 0) name_frame node (handle_frame platform 10 name_frame node)
handle_frame-Responds_example = handle_frame-Responds platform 10 name_frame node

unfoldable new_node : Node
new_node = fresh default_preferences 6 115200 1024 1024

passes-Saved_example :
    Ensures (Saved none) (passes platform session (setup platform (pre_setup none new_node)))
unfolding new_node fresh
passes-Saved_example = passes-Saved platform none new_node session refl

passes-IsValid_example :
    Ensures
      (λ t. IsValid t.preferences)
      (passes platform session (record node { preferences = default_preferences }))
passes-IsValid_example =
    passes-IsValid platform session (record node { preferences = default_preferences })
      default_preferences-IsValid

handle_frame-tag_example :
    let p = tagged (b'h' ∷ b'i' ∷ []) default_preferences in
    (handle_frame platform 10 name_frame new_node >>= λ r.
    handle_frame platform 20 (cmd_node_tag_req ∷ []) r.1)
    ≡ ok (
      Verdict.handle_uart_ok,
      record new_node {
        preferences = p;
        trace =
            Effect.mesh_command_reply (cmd_node_tag_rep ∷ p.devicetag)
            ∷ Effect.mesh_command_reply (cmd_node_tag_set_rep ∷ [])
            ∷ Effect.save p
            ∷ new_node.trace;
      },
    )
unfolding new_node fresh default_preferences
handle_frame-tag_example =
    handle_frame-tag platform 10 20 b'h' (b'i' ∷ []) new_node refl (omega arith)

abbrev one : List ℕ
one = 1 ∷ 0 ∷ 0 ∷ 0 ∷ []

abbrev many : List ℕ
many = 1 ∷ 2 ∷ 3 ∷ 4 ∷ []

IsBytes-one : IsBytes one
IsBytes-one = (omega arith, (omega arith, (omega arith, (omega arith, tt))))

IsBytes-many : IsBytes many
IsBytes-many = (omega arith, (omega arith, (omega arith, (omega arith, tt))))

handle_frame-channel_example :
    (handle_frame platform 11 (cmd_channel_set_req ∷ 9 ∷ []) node >>= λ a.
    ok (restarted platform none new_node a.1))
    ≡ ok (some 9)
handle_frame-channel_example = handle_frame-channel platform 11 9 none new_node node

handle_frame-passes_example :
    (handle_frame platform 1000 (cmd_reboot_req ∷ []) node >>= λ r.
    passes platform (quiet (1100 ∷ 1250 ∷ 1251 ∷ [])) r.1)
    ≡ ok (record node {
      reboot_requested = true;
      reboot_requested_time = 1000;
      trace =
          Effect.reboot
          ∷ Effect.mesh_loop
          ∷ Effect.mesh_loop
          ∷ Effect.mesh_loop
          ∷ Effect.mesh_command_reply (cmd_reboot_rep ∷ [])
          ∷ node.trace;
    })
handle_frame-passes_example =
    handle_frame-passes platform 1000 1251 (1100 ∷ 1250 ∷ []) node (omega arith, (omega arith, tt))
      (omega arith)
