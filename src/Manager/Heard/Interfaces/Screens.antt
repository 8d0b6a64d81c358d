-- ===== src/Manager/Heard/Interfaces/Screens.antt =====
-- The screens of the two modes, as the client hears them: the windows 548 and 746, and which interface is
-- put into which of their tabs.
use openrs.Base.{◌≡◌, refl, List, [], ◌∷◌, ◌++◌, Bool, true, false, if◌then◌else◌}
use openrs.Base.Bytes.{le_bytes, be_bytes}
use openrs.Common.Buffer.{shift_positive}
use openrs.Game.Player.{Player}
use openrs.Net.Encoder.RoundTrip.Stream.{Said}
use openrs.Manager.Config.{k823, config_global_id, send_global_config}
use openrs.Manager.Interface.Ids.{pane_id, tab_id, interface_id}
use openrs.Manager.Interface.{is_resizable}
use openrs.Manager.Interface.Book.{
  combat_text, follow_text, trade_text, send_fixed_interfaces, send_resizable_interfaces,
  send_interfaces, send_tab_task_system, send_tab_skills, send_tab_settings, send_tab_prayer_book,
  send_tab_emotes, send_tab_quests, send_tab_inventory, send_tab_equipment, send_tab_timer,
}
use openrs.Manager.Heard.{Speaks, ◌▸◌}
use openrs.Manager.Heard.Configs.{global_config_1-Speaks}
use openrs.Manager.Heard.Wire.{
  tab, hide, component_text, setting, option, window, global_byte, place,
}
use openrs.Manager.Heard.Interfaces.{
  tab-Speaks, of_mode-Speaks, combat_styles-Speaks, squeel-Speaks, window_of, window_pane-Speaks,
  attack_styles-Speaks, emotes_book-Speaks, follow-Speaks, trade-Speaks,
}

abbrev fixed_packets : List Said
fixed_packets =
    tab (place 548 161) 752
    ∷ tab (place 548 37) 751
    ∷ tab (place 548 23) 745
    ∷ tab (place 548 25) 754
    ∷ tab (place 548 155) 747
    ∷ tab (place 548 151) 748
    ∷ tab (place 548 152) 749
    ∷ tab (place 548 153) 750
    ∷ tab (place 752 9) 137
    ∷ tab (place 548 9) 167
    ∷ tab (place 548 177) 271
    ∷ tab (place 548 176) 387
    ∷ tab (place 548 175) 679
    ∷ tab (place 548 174) 3002
    ∷ tab (place 548 179) 1139
    ∷ hide (place 1139 8)
    ∷ hide (place 1139 12)
    ∷ tab (place 548 181) 1109
    ∷ tab (place 548 182) 1110
    ∷ tab (place 548 180) 550
    ∷ tab (place 548 185) 187
    ∷ tab (place 548 186) 34
    ∷ tab (place 548 189) 182
    ∷ tab (place 548 173) 320
    ∷ tab (place 548 184) 590
    ∷ tab (place 548 183) 261
    ∷ tab (place 548 172) 3002
    ∷ tab (place 548 171) 884
    ∷ component_text (place 884 1) combat_text
    ∷ []

abbrev resizable_packets : List Said
resizable_packets =
    tab (place 746 21) 752
    ∷ tab (place 746 22) 751
    ∷ tab (place 746 15) 745
    ∷ tab (place 746 25) 754
    ∷ tab (place 746 195) 748
    ∷ tab (place 746 196) 749
    ∷ tab (place 746 197) 750
    ∷ tab (place 746 198) 747
    ∷ tab (place 752 9) 137
    ∷ tab (place 746 119) 1139
    ∷ hide (place 1139 8)
    ∷ hide (place 1139 12)
    ∷ global_byte 823 255
    ∷ tab (place 746 111) 884
    ∷ component_text (place 884 1) combat_text
    ∷ tab (place 746 112) 3002
    ∷ tab (place 746 113) 320
    ∷ tab (place 746 114) 3002
    ∷ tab (place 746 115) 679
    ∷ tab (place 746 116) 387
    ∷ tab (place 746 117) 271
    ∷ tab (place 746 120) 550
    ∷ tab (place 746 121) 1109
    ∷ tab (place 746 122) 1110
    ∷ tab (place 746 123) 261
    ∷ tab (place 746 124) 590
    ∷ tab (place 746 125) 187
    ∷ tab (place 746 126) 34
    ∷ tab (place 746 129) 182
    ∷ []

fixed-Speaks :
    (player : Player)
    → is_resizable player ≡ false
    → Speaks (send_fixed_interfaces player) fixed_packets
unfolding send_fixed_interfaces send_tab_task_system send_tab_skills send_tab_settings
    send_tab_prayer_book send_tab_emotes send_tab_quests send_tab_inventory send_tab_equipment
    pane_id tab_id interface_id
fixed-Speaks player e =
    (tab-Speaks _ _ _)
    ▸ (tab-Speaks _ _ _)
    ▸ (tab-Speaks _ _ _)
    ▸ (tab-Speaks _ _ _)
    ▸ (tab-Speaks _ _ _)
    ▸ (tab-Speaks _ _ _)
    ▸ (tab-Speaks _ _ _)
    ▸ (tab-Speaks _ _ _)
    ▸ (tab-Speaks _ _ _)
    ▸ (tab-Speaks _ _ _)
    ▸ (of_mode-Speaks player false e _ _ _)
    ▸ (of_mode-Speaks player false e _ _ _)
    ▸ (of_mode-Speaks player false e _ _ _)
    ▸ (of_mode-Speaks player false e _ _ _)
    ▸ (squeel-Speaks player false e)
    ▸ (tab-Speaks _ _ _)
    ▸ (tab-Speaks _ _ _)
    ▸ (tab-Speaks _ _ _)
    ▸ (tab-Speaks _ _ _)
    ▸ (tab-Speaks _ _ _)
    ▸ (tab-Speaks _ _ _)
    ▸ (of_mode-Speaks player false e _ _ _)
    ▸ (of_mode-Speaks player false e _ _ _)
    ▸ (of_mode-Speaks player false e _ _ _)
    ▸ (of_mode-Speaks player false e _ _ _)
    ▸ (combat_styles-Speaks player false e)

resizable-Speaks :
    (player : Player)
    → is_resizable player ≡ true
    → Speaks (send_resizable_interfaces player) resizable_packets
unfolding send_resizable_interfaces send_global_config config_global_id shift_positive le_bytes
    be_bytes send_tab_task_system send_tab_skills send_tab_settings send_tab_prayer_book
    send_tab_emotes send_tab_quests send_tab_inventory send_tab_equipment pane_id tab_id
    interface_id
resizable-Speaks player e =
    (tab-Speaks _ _ _)
    ▸ (tab-Speaks _ _ _)
    ▸ (tab-Speaks _ _ _)
    ▸ (tab-Speaks _ _ _)
    ▸ (tab-Speaks _ _ _)
    ▸ (tab-Speaks _ _ _)
    ▸ (tab-Speaks _ _ _)
    ▸ (tab-Speaks _ _ _)
    ▸ (tab-Speaks _ _ _)
    ▸ (squeel-Speaks player true e)
    ▸ (global_config_1-Speaks k823 1)
    ▸ (combat_styles-Speaks player true e)
    ▸ (of_mode-Speaks player true e _ _ _)
    ▸ (of_mode-Speaks player true e _ _ _)
    ▸ (of_mode-Speaks player true e _ _ _)
    ▸ (of_mode-Speaks player true e _ _ _)
    ▸ (of_mode-Speaks player true e _ _ _)
    ▸ (of_mode-Speaks player true e _ _ _)
    ▸ (tab-Speaks _ _ _)
    ▸ (tab-Speaks _ _ _)
    ▸ (tab-Speaks _ _ _)
    ▸ (of_mode-Speaks player true e _ _ _)
    ▸ (of_mode-Speaks player true e _ _ _)
    ▸ (tab-Speaks _ _ _)
    ▸ (tab-Speaks _ _ _)
    ▸ (tab-Speaks _ _ _)

-- The window, the tabs of the mode, the slots that are unlocked, the timer, and the options on others.
pub screen_packets : Bool → List Said
unfolding window_of
screen_packets mode =
    window (window_of mode) ∷ (if mode then resizable_packets else fixed_packets)
    ++ (setting (place 884 7) 65535 0 2
        ∷ setting (place 884 8) 65535 0 2
        ∷ setting (place 884 9) 65535 0 2
        ∷ setting (place 884 10) 65535 0 2
        ∷ setting (place 590 8) 0 118 6
        ∷ (if mode then tab (place 746 26) 3039 else tab (place 548 11) 3039)
        ∷ option 2 follow_text
        ∷ option 4 trade_text
        ∷ [])

-- What `SendInterfaces` sends to a player is the screen of its mode.
screen-Speaks :
    (player : Player) (mode : Bool)
    → is_resizable player ≡ mode
    → Speaks (send_interfaces player) (screen_packets mode)
unfolding send_interfaces screen_packets send_tab_timer window_of pane_id tab_id interface_id
screen-Speaks player true e = rw e (
    window_pane-Speaks true
    ▸ resizable-Speaks player e
    ▸ attack_styles-Speaks
    ▸ emotes_book-Speaks
    ▸ of_mode-Speaks player true e _ _ _
    ▸ follow-Speaks
    ▸ trade-Speaks)
screen-Speaks player false e = rw e (
    window_pane-Speaks false
    ▸ fixed-Speaks player e
    ▸ attack_styles-Speaks
    ▸ emotes_book-Speaks
    ▸ of_mode-Speaks player false e _ _ _
    ▸ follow-Speaks
    ▸ trade-Speaks)

pub send_interfaces-Speaks :
    (player : Player) → Speaks (send_interfaces player) (screen_packets (is_resizable player))
send_interfaces-Speaks player = screen-Speaks player (is_resizable player) refl
