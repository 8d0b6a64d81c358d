-- ===== src/Manager/Heard/Interfaces.antt =====
-- What the client hears of the windows and the tabs.
pub mod Screens
use openrs.Base.{
  ℕ, ◌≡◌, refl, List, [], ◌∷◌, ◌++◌, ◌^◌, ◌-◌, ◌+◌, ◌*◌, ◌/◌, ◌%◌, Bool, true, false, if◌then◌else◌,
  bit_or, replicate, arith,
}
use openrs.Base.Bytes.{le_bytes, be_bytes}
use openrs.Common.Buffer.{swap_pairs, put_string, shift_positive, shift_negative}
use openrs.Game.Player.{Player}
use openrs.Net.Packet.{interface_component_setting}
use openrs.Net.Encoder.{k_none, uint8, uint16, world_code_mapping, type_mapping}
use openrs.Net.Encoder.RoundTrip.Stream.{Said, client_size}
use openrs.Manager.Config.{k823, config_global_id, send_global_config}
use openrs.Manager.Interface.Ids.{
  PaneId, pane_id, PaneType, pane_type, TabId, tab_id, InterfaceId, interface_id, ComponentId,
  component_id,
}
use openrs.Manager.Interface.{
  joined, is_resizable, slots_hash, send_tab, send_tab_of_mode, send_interface_component_text,
  send_interface_component_settings, send_hide_interface_component, send_player_option,
  send_window_pane, send_unlock_interface_component_options_slot,
}
use openrs.Manager.Interface.Book.{
  send_tab_combat_styles, combat_text, follow_text, trade_text, send_tab_squeel_of_fortune,
  send_unlock_attack_style_buttons, send_unlock_emotes_book, send_fixed_interfaces,
  send_resizable_interfaces, send_interfaces, send_tab_task_system, send_tab_skills,
  send_tab_settings, send_tab_prayer_book, send_tab_emotes, send_tab_quests, send_tab_inventory,
  send_tab_equipment, send_tab_timer,
}
use openrs.Manager.Heard.{Speaks, send-Speaks, then-Speaks}
use openrs.Manager.Heard.Configs.{global_config_1-Speaks}
use openrs.Manager.Heard.Wire.{
  tab, hide, component_text, setting, option, window, global_byte, swapped, place,
}

tab-Speaks :
    (pane : PaneId) (id : TabId) (interface : InterfaceId)
    → Speaks
        (send_tab pane id interface true)
        (tab (joined (pane_id pane) (tab_id id)) (interface_id interface) ∷ [])
unfolding send_tab le_bytes be_bytes swap_pairs world_code_mapping type_mapping client_size
tab-Speaks pane id interface = send-Speaks _ 14 k_none refl refl refl

-- The mode of a player.
abbrev pane_of : Bool → PaneId
pane_of resizable = if resizable then PaneId.resizable else PaneId.fixed

abbrev of_mode : Bool → TabId → TabId → InterfaceId → Said
of_mode mode resizable fixed interface =
    tab (joined (pane_id (pane_of mode)) (tab_id (if mode then resizable else fixed)))
      (interface_id interface)

component_settings-Speaks :
    (interface : InterfaceId) (component : ComponentId) (from_slot to_slot hash : ℕ)
    → Speaks (send_interface_component_settings interface component from_slot to_slot hash) (
        (
          interface_component_setting,
          swapped hash
              ++ (be_bytes 4 (joined (interface_id interface) (component_id component))
                  ++ (be_bytes 2 (shift_positive 2 from_slot 128) ++ le_bytes 2 to_slot)),
        )
        ∷ [])
unfolding send_interface_component_settings le_bytes be_bytes swap_pairs world_code_mapping
    type_mapping client_size
component_settings-Speaks interface component from_slot to_slot hash =
    send-Speaks _ 40 k_none refl refl refl

hide-Speaks :
    (interface : InterfaceId) (component : ComponentId)
    → Speaks
        (send_hide_interface_component interface component true)
        (hide (joined (interface_id interface) (component_id component)) ∷ [])
unfolding send_hide_interface_component le_bytes swap_pairs world_code_mapping type_mapping
    client_size
hide-Speaks interface component = send-Speaks _ 112 k_none refl refl refl

combat_text-Speaks :
    Speaks
      (send_interface_component_text InterfaceId.combat_styles ComponentId.k1 combat_text)
      (component_text (place 884 1) combat_text ∷ [])
unfolding send_interface_component_text put_string le_bytes be_bytes interface_id component_id
    world_code_mapping type_mapping
combat_text-Speaks = send-Speaks _ 135 uint16 refl refl (omega arith)

follow-Speaks :
    Speaks (send_player_option follow_text 2 false (2 ^ 16 - 1)) (option 2 follow_text ∷ [])
unfolding send_player_option put_string le_bytes be_bytes shift_positive world_code_mapping
    type_mapping
follow-Speaks = send-Speaks _ 118 uint8 refl refl (omega arith)

trade-Speaks :
    Speaks (send_player_option trade_text 4 false (2 ^ 16 - 1)) (option 4 trade_text ∷ [])
unfolding send_player_option put_string le_bytes be_bytes shift_positive world_code_mapping
    type_mapping
trade-Speaks = send-Speaks _ 118 uint8 refl refl (omega arith)

window_of : Bool → ℕ
window_of mode = if mode then 746 else 548

window_pane-Speaks :
    (mode : Bool)
    → Speaks (send_window_pane (pane_of mode) PaneType.none) (window (window_of mode) ∷ [])
unfolding send_window_pane window_of le_bytes be_bytes shift_positive shift_negative pane_id
    pane_type world_code_mapping type_mapping client_size
window_pane-Speaks true = send-Speaks _ 39 k_none refl refl refl
window_pane-Speaks false = send-Speaks _ 39 k_none refl refl refl

attack_styles-Speaks : Speaks send_unlock_attack_style_buttons (
    setting (place 884 7) 65535 0 2
    ∷ setting (place 884 8) 65535 0 2
    ∷ setting (place 884 9) 65535 0 2
    ∷ setting (place 884 10) 65535 0 2
    ∷ [])
unfolding send_unlock_attack_style_buttons send_unlock_interface_component_options_slot slots_hash
    le_bytes be_bytes shift_positive interface_id component_id
attack_styles-Speaks = then-Speaks (component_settings-Speaks _ _ _ _ _) (
    then-Speaks (component_settings-Speaks _ _ _ _ _)
      (then-Speaks (component_settings-Speaks _ _ _ _ _) (component_settings-Speaks _ _ _ _ _)))

emotes_book-Speaks : Speaks send_unlock_emotes_book (setting (place 590 8) 0 118 6 ∷ [])
unfolding send_unlock_emotes_book send_unlock_interface_component_options_slot slots_hash le_bytes
    be_bytes shift_positive interface_id component_id
emotes_book-Speaks = component_settings-Speaks _ _ _ _ _

-- What a player of a mode is sent.
module _ (player : Player) (mode : Bool) (e : is_resizable player ≡ mode) where
  of_mode-Speaks :
      (resizable fixed : TabId) (interface : InterfaceId)
      → Speaks
          (send_tab_of_mode player resizable fixed interface)
          (of_mode mode resizable fixed interface ∷ [])
  unfolding send_tab_of_mode
  of_mode-Speaks resizable fixed interface = rw e (tab-Speaks _ _ interface)

  combat_styles-Speaks : Speaks (send_tab_combat_styles player) (
      of_mode mode TabId.combat_styles TabId.combat_styles_fixed InterfaceId.combat_styles
      ∷ component_text (place 884 1) combat_text
      ∷ [])
  unfolding send_tab_combat_styles
  combat_styles-Speaks = then-Speaks (of_mode-Speaks _ _ _) combat_text-Speaks

  squeel-Speaks : Speaks (send_tab_squeel_of_fortune player) (
      of_mode mode TabId.squeel_of_fortune TabId.squeel_of_fortune_fixed
        InterfaceId.squeel_of_fortune
      ∷ hide (place 1139 8)
      ∷ hide (place 1139 12)
      ∷ [])
  unfolding send_tab_squeel_of_fortune interface_id component_id
  squeel-Speaks =
      then-Speaks (of_mode-Speaks _ _ _) (then-Speaks (hide-Speaks _ _) (hide-Speaks _ _))
