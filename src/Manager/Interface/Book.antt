-- ===== src/Manager/Interface/Book.antt =====
-- openrs/{include/openrs,src}/manager/interfacemanager.{h,cpp}: which windows and tabs a player is sent.
use openrs.Base.{ℕ, ◌^◌, ◌-◌, List, [], ◌∷◌, true, false, if◌then◌else◌, M, ◌>>◌}
use openrs.Game.Player.{Player}
use openrs.Net.Session.{Session}
use openrs.Manager.Config.{send_global_config, k823}
use openrs.Manager.Interface.Ids.{PaneId, PaneType, TabId, InterfaceId, ComponentId}
use openrs.Manager.Interface.{
  is_resizable, send_tab, send_tab_of_mode, send_interface_component_text,
  send_hide_interface_component, send_player_option, send_window_pane,
  send_unlock_interface_component_options_slot,
}

-- "Combat lvl: " and 99, which `GetCombatLevel` always is.
abbrev pub combat_text : List ℕ
combat_text = 67 ∷ 111 ∷ 109 ∷ 98 ∷ 97 ∷ 116 ∷ 32 ∷ 108 ∷ 118 ∷ 108 ∷ 58 ∷ 32 ∷ 57 ∷ 57 ∷ []

-- "Follow" and "Trade".
abbrev pub follow_text : List ℕ
follow_text = 70 ∷ 111 ∷ 108 ∷ 108 ∷ 111 ∷ 119 ∷ []

abbrev pub trade_text : List ℕ
trade_text = 84 ∷ 114 ∷ 97 ∷ 100 ∷ 101 ∷ []

unfoldable pub send_overlay : Player → InterfaceId → M Session (Unit {0})
send_overlay player = send_tab_of_mode player TabId.overlay TabId.overlay_fixed

unfoldable pub send_tab_combat_styles : Player → M Session (Unit {0})
send_tab_combat_styles player = do
  send_tab_of_mode player TabId.combat_styles TabId.combat_styles_fixed InterfaceId.combat_styles
  send_interface_component_text InterfaceId.combat_styles ComponentId.k1 combat_text

unfoldable pub send_tab_task_system : Player → M Session (Unit {0})
send_tab_task_system player =
    send_tab_of_mode player TabId.task_system TabId.task_system_fixed InterfaceId.task_system

unfoldable pub send_tab_skills : Player → M Session (Unit {0})
send_tab_skills player = send_tab_of_mode player TabId.skills TabId.skills_fixed InterfaceId.skills

unfoldable pub send_tab_settings : Player → M Session (Unit {0})
send_tab_settings player =
    send_tab_of_mode player TabId.settings TabId.settings_fixed InterfaceId.settings

unfoldable pub send_tab_prayer_book : Player → M Session (Unit {0})
send_tab_prayer_book player =
    send_tab_of_mode player TabId.prayer_book TabId.prayer_book_fixed InterfaceId.prayer_book

unfoldable pub send_tab_emotes : Player → M Session (Unit {0})
send_tab_emotes player = send_tab_of_mode player TabId.emotes TabId.emotes_fixed InterfaceId.emotes

unfoldable pub send_tab_quests : Player → M Session (Unit {0})
send_tab_quests player = send_tab_of_mode player TabId.quests TabId.quests_fixed InterfaceId.quests

unfoldable pub send_tab_dungeon : Player → M Session (Unit {0})
send_tab_dungeon player =
    send_tab_of_mode player TabId.dungeon TabId.dungeon_fixed InterfaceId.dungeon

unfoldable pub send_tab_inventory : Player → M Session (Unit {0})
send_tab_inventory player =
    send_tab_of_mode player TabId.inventory TabId.inventory_fixed InterfaceId.inventory

unfoldable pub send_tab_equipment : Player → M Session (Unit {0})
send_tab_equipment player =
    send_tab_of_mode player TabId.equipment TabId.equipment_fixed InterfaceId.equipment

unfoldable pub send_tab_squeel_of_fortune : Player → M Session (Unit {0})
send_tab_squeel_of_fortune player = do
  send_tab_of_mode player TabId.squeel_of_fortune TabId.squeel_of_fortune_fixed
      InterfaceId.squeel_of_fortune
  send_hide_interface_component InterfaceId.squeel_of_fortune ComponentId.k8 true
  send_hide_interface_component InterfaceId.squeel_of_fortune ComponentId.k12 true

unfoldable pub send_tab_timer : Player → M Session (Unit {0})
send_tab_timer player = send_tab_of_mode player TabId.timer TabId.timer_fixed InterfaceId.timer

-- The slot -1 is a `uint16_t`.
abbrev pub unlock_button : ComponentId → M Session (Unit {0})
unlock_button component =
    send_unlock_interface_component_options_slot InterfaceId.combat_styles component (2 ^ 16 - 1) 0
      (0 ∷ [])

unfoldable pub send_unlock_attack_style_buttons : M Session (Unit {0})
send_unlock_attack_style_buttons = do
  unlock_button ComponentId.k7
  unlock_button ComponentId.k8
  unlock_button ComponentId.k9
  unlock_button ComponentId.k10

unfoldable pub send_unlock_emotes_book : M Session (Unit {0})
send_unlock_emotes_book =
    send_unlock_interface_component_options_slot InterfaceId.emotes ComponentId.k8 0 118
      (0 ∷ 1 ∷ [])

abbrev pub fixed_tab : TabId → InterfaceId → M Session (Unit {0})
fixed_tab tab interface = send_tab PaneId.fixed tab interface true

abbrev pub resizable_tab : TabId → InterfaceId → M Session (Unit {0})
resizable_tab tab interface = send_tab PaneId.resizable tab interface true

unfoldable pub send_fixed_interfaces : Player → M Session (Unit {0})
send_fixed_interfaces player = do
  fixed_tab TabId.k161 InterfaceId.k752
  fixed_tab TabId.k37 InterfaceId.k751
  fixed_tab TabId.k23 InterfaceId.k745
  fixed_tab TabId.k25 InterfaceId.k754
  fixed_tab TabId.k155 InterfaceId.k747
  fixed_tab TabId.k151 InterfaceId.k748
  fixed_tab TabId.k152 InterfaceId.k749
  fixed_tab TabId.k153 InterfaceId.k750
  send_tab PaneId.unknown TabId.k9 InterfaceId.k137 true
  fixed_tab TabId.k9 InterfaceId.k167
  send_tab_prayer_book player
  send_tab_equipment player
  send_tab_inventory player
  send_tab_quests player
  send_tab_squeel_of_fortune player
  fixed_tab TabId.k181 InterfaceId.k1109
  fixed_tab TabId.k182 InterfaceId.k1110
  fixed_tab TabId.friends_list_fixed InterfaceId.friends_list
  fixed_tab TabId.music_fixed InterfaceId.music
  fixed_tab TabId.notes_fixed InterfaceId.notes
  fixed_tab TabId.logout_fixed InterfaceId.logout
  send_tab_skills player
  send_tab_emotes player
  send_tab_settings player
  send_tab_task_system player
  send_tab_combat_styles player

unfoldable pub send_resizable_interfaces : Player → M Session (Unit {0})
send_resizable_interfaces player = do
  resizable_tab TabId.k21 InterfaceId.k752
  resizable_tab TabId.k22 InterfaceId.k751
  resizable_tab TabId.k15 InterfaceId.k745
  resizable_tab TabId.k25 InterfaceId.k754
  resizable_tab TabId.k195 InterfaceId.k748
  resizable_tab TabId.k196 InterfaceId.k749
  resizable_tab TabId.k197 InterfaceId.k750
  resizable_tab TabId.k198 InterfaceId.k747
  send_tab PaneId.unknown TabId.k9 InterfaceId.k137 true
  send_tab_squeel_of_fortune player
  send_global_config k823 1
  send_tab_combat_styles player
  send_tab_task_system player
  send_tab_skills player
  send_tab_quests player
  send_tab_inventory player
  send_tab_equipment player
  send_tab_prayer_book player
  resizable_tab TabId.k120 InterfaceId.friends_list
  resizable_tab TabId.k121 InterfaceId.k1109
  resizable_tab TabId.k122 InterfaceId.k1110
  send_tab_settings player
  send_tab_emotes player
  resizable_tab TabId.music InterfaceId.music
  resizable_tab TabId.notes InterfaceId.notes
  resizable_tab TabId.logout InterfaceId.logout

-- `SendInterfaces`; the defaults of `SendPlayerOption` are false and -1, a `uint16_t`.
unfoldable pub send_interfaces : Player → M Session (Unit {0})
send_interfaces player = do
  send_window_pane (if is_resizable player then PaneId.resizable else PaneId.fixed) PaneType.none
  if is_resizable player then send_resizable_interfaces player else send_fixed_interfaces player
  send_unlock_attack_style_buttons
  send_unlock_emotes_book
  send_tab_timer player
  send_player_option follow_text 2 false (2 ^ 16 - 1)
  send_player_option trade_text 4 false (2 ^ 16 - 1)
