-- ===== src/Node/Cases.antt =====
-- The cases of `MeshmeshComponent::handleFrame` (components/meshmesh/meshmesh.cpp), for proofs that
-- treat them one by one.
use esphome_meshmesh.Prelude.{
  ltb, ◌==◌, if◌then◌else◌, length, get_or, drop, Result, fault, length_zero, [], ℕ, ◌≡◌, refl,
  Bool, true, false, List, arith,
}
use esphome_meshmesh.Node.State.{
  Platform, Node, Verdict, cmd_firmware_req, cmd_node_tag_req, cmd_node_tag_set_req,
  cmd_channel_set_req, cmd_node_config_req, cmd_node_info_req, cmd_log_dest_req,
  cmd_log_dest_set_req, cmd_reboot_req, cmd_groups_req, cmd_groups_set_req,
}
use esphome_meshmesh.Node.Frames.{
  not_handled, node_tag, node_tag_set, channel_set, node_config, node_info, log_dest, log_dest_set,
  groups_get, groups_set, firmware, reboot_request, guarded, handle_frame,
}

-- A property of results that holds in every case of a frame, given its command and its size.
pub record Cases (P : Platform) (now : ℕ) (data' : List ℕ) (s : Node)
    (Q : Result (Verdict × Node) → Type 0) : Type 0 where
  pub on_empty : data' ≡ [] → Q fault
  pub on_none : Q (not_handled s)
  pub on_tag : get_or data' 0 0 ≡ cmd_node_tag_req → Q (node_tag s)
  pub on_tag_set :
      get_or data' 0 0 ≡ cmd_node_tag_set_req
      → ltb 1 (length data') ≡ true
      → Q (node_tag_set (drop 1 data') s)
  pub on_channel_set : get_or data' 0 0 ≡ cmd_channel_set_req → Q (channel_set (get_or data' 1 0) s)
  pub on_config : get_or data' 0 0 ≡ cmd_node_config_req → Q (node_config s)
  pub on_info : get_or data' 0 0 ≡ cmd_node_info_req → Q (node_info P s)
  pub on_log_dest : get_or data' 0 0 ≡ cmd_log_dest_req → Q (log_dest P s)
  pub on_log_dest_set :
      get_or data' 0 0 ≡ cmd_log_dest_set_req → Q (log_dest_set P (drop 1 data') s)
  pub on_groups : get_or data' 0 0 ≡ cmd_groups_req → Q (groups_get P s)
  pub on_groups_set : get_or data' 0 0 ≡ cmd_groups_set_req → Q (groups_set P (drop 1 data') s)
  pub on_firmware : get_or data' 0 0 ≡ cmd_firmware_req → Q (firmware P s)
  pub on_reboot : get_or data' 0 0 ≡ cmd_reboot_req → Q (reboot_request now s)

equal : (a b : ℕ) → (a == b) ≡ true → a ≡ b
equal a b e = ground arith

module _ (Q : Result (Verdict × Node) → Type 0) (s : Node) (cmd : ℕ)
    (none : Q (not_handled s)) where
  fit : (fits : Bool) (x : Result (Verdict × Node)) → (fits ≡ true → Q x) → Q (guarded fits x s)
  fit true x q = q refl
  fit false x q = none

  pick :
      (is : Bool) (x y : Result (Verdict × Node))
      → (is ≡ true → Q x)
      → Q y
      → Q (if is then x else y)
  pick true x y q r = q refl
  pick false x y q r = r

  case :
      (k : ℕ) (fits : Bool) (x y : Result (Verdict × Node))
      → (cmd ≡ k → fits ≡ true → Q x)
      → Q y
      → Q (if cmd == k then guarded fits x s else y)
  case k fits x y q r = pick (cmd == k) (guarded fits x s) y (λ e. fit fits x (q (equal cmd k e))) r

pub handle_frame-Cases :
    (P : Platform) (now : ℕ) (data' : List ℕ) (s : Node) (Q : Result (Verdict × Node) → Type 0)
    → Cases P now data' s Q
    → Q (handle_frame P now data' s)
unfolding handle_frame
handle_frame-Cases P now data' s Q c =
    let on = case Q s (get_or data' 0 0) c.on_none in
    pick Q s (get_or data' 0 0) c.on_none (length data' == 0) fault _
      (λ e. c.on_empty (length_zero data' (ground (arith, e))))
      (on _ _ _ _ (λ e _. c.on_tag e)
        (on _ _ _ _ c.on_tag_set (
          on _ _ _ _ (λ e _. c.on_channel_set e)
            (on _ _ _ _ (λ e _. c.on_config e)
              (on _ _ _ _ (λ e _. c.on_info e)
                (on _ _ _ _ (λ e _. c.on_log_dest e)
                  (on _ _ _ _ (λ e _. c.on_log_dest_set e)
                    (on _ _ _ _ (λ e _. c.on_groups e)
                      (on _ _ _ _ (λ e _. c.on_groups_set e)
                        (on _ _ _ _ (λ e _. c.on_firmware e)
                          (on _ _ _ _ (λ e _. c.on_reboot e) c.on_none)))))))))))
