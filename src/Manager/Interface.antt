-- ===== src/Manager/Interface.antt =====
-- openrs/{include/openrs,src}/manager/interfacemanager.{h,cpp}: the windows and the tabs of a client.
pub mod Ids
pub mod Book
use openrs.Base.{
  ℕ, suc, zero, ◌+◌, ◌-◌, ◌*◌, ◌/◌, ◌%◌, ◌^◌, List, [], ◌∷◌, ◌++◌, Bool, true, false, ◌||◌, ◌==◌,
  ltb, if◌then◌else◌, bit_or, M, ◌▷◌, replicate,
}
use openrs.Common.Buffer.{
  empty, append, put_data, put_data_be, put_data_le, put_data_vbe, put_string,
  put_shifted_neg_data_be, put_shifted_pos_data_be, put_shifted_pos_data_le,
}
use openrs.Game.Player.{Player}
use openrs.Net.Packet.{
  interface_tab, interface_component_text, interface_component_setting, interface_hide,
  interface_component_animation, player_option, interface_window_pane,
}
use openrs.Net.Session.{Session, send}
use openrs.Manager.Interface.Ids.{
  PaneId, pane_id, PaneType, pane_type, TabId, tab_id, InterfaceId, interface_id, ComponentId,
  component_id, EmoteId, emote_id,
}

-- `IsResizable`: `DisplayMode::kResizable` and `kUnknown3`.
unfoldable pub is_resizable : Player → Bool
is_resizable player = player.display_mode == 2 || player.display_mode == 3

-- `(high << 16) | low`.
abbrev pub joined : ℕ → ℕ → ℕ
joined high low = bit_or (high * 2 ^ 16 % 2 ^ 32) low

-- `SendTab` with a window.
unfoldable pub send_tab : PaneId → TabId → InterfaceId → Bool → M Session (Unit {0})
unfolding put_data_be put_data put_data_vbe pane_id tab_id interface_id
send_tab window tab interface no_clipped = send (record {
  type = interface_tab;
  payload =
      empty
      ▷ put_data_be 2 (interface_id interface)
      ▷ put_data 4 0
      ▷ put_data 4 0
      ▷ put_data_vbe 4 (joined (pane_id window) (tab_id tab))
      ▷ put_data 1 (if no_clipped then 1 else 0)
      ▷ put_data 4 0
      ▷ put_data 4 0;
})

unfoldable pub send_interface_component_text :
    InterfaceId → ComponentId → List ℕ → M Session (Unit {0})
unfolding put_string put_data_be interface_id component_id
send_interface_component_text interface component text = send (record {
  type = interface_component_text;
  payload =
      empty
      ▷ put_string text
      ▷ put_data_be 4 (joined (interface_id interface) (component_id component));
})

unfoldable pub send_interface_component_settings :
    InterfaceId → ComponentId → ℕ → ℕ → ℕ → M Session (Unit {0})
unfolding put_data_vbe put_data_be put_shifted_pos_data_be put_data_le interface_id component_id
send_interface_component_settings interface component from_slot to_slot settings_hash =
    send (record {
      type = interface_component_setting;
      payload =
          empty
          ▷ put_data_vbe 4 settings_hash
          ▷ put_data_be 4 (joined (interface_id interface) (component_id component))
          ▷ put_shifted_pos_data_be 2 from_slot
          ▷ put_data_le 2 to_slot;
    })

unfoldable pub send_hide_interface_component :
    InterfaceId → ComponentId → Bool → M Session (Unit {0})
unfolding put_data_vbe put_data interface_id component_id
send_hide_interface_component interface component hidden = send (record {
  type = interface_hide;
  payload =
      empty
      ▷ put_data_vbe 4 (joined (interface_id interface) (component_id component))
      ▷ put_data 1 (if hidden then 1 else 0);
})

unfoldable pub send_interface_component_animation :
    InterfaceId → ComponentId → EmoteId → M Session (Unit {0})
unfolding put_data_vbe put_data_be interface_id component_id emote_id
send_interface_component_animation interface component emote = send (record {
  type = interface_component_animation;
  payload =
      empty
      ▷ put_data_vbe 4 (emote_id emote)
      ▷ put_data_be 4 (joined (interface_id interface) (component_id component));
})

-- `-1 * (kTop ? 1 : 0)` as a `uint8_t`.
unfoldable pub send_player_option : List ℕ → ℕ → Bool → ℕ → M Session (Unit {0})
unfolding put_shifted_pos_data_be put_string put_shifted_pos_data_le put_data
send_player_option option slot top cursor = send (record {
  type = player_option;
  payload =
      empty
      ▷ put_shifted_pos_data_be 1 slot
      ▷ put_string option
      ▷ put_shifted_pos_data_le 2 cursor
      ▷ put_data 1 (if top then 255 else 0);
})

-- `CryptoPP::XTEA::KEYLENGTH`, by which the payload grows.
abbrev pub key_length : ℕ
key_length = 16

unfoldable pub send_window_pane : PaneId → PaneType → M Session (Unit {0})
unfolding put_shifted_neg_data_be put_shifted_pos_data_be pane_id pane_type
send_window_pane id type = send (record {
  type = interface_window_pane;
  payload =
      empty
      ▷ put_shifted_neg_data_be 1 (pane_type type)
      ▷ put_shifted_pos_data_be 2 (pane_id id)
      ▷ append (replicate key_length 0);
})

-- The loop of `SendUnlockInterfaceComponentOptionsSlot`.
unfoldable pub slots_hash : ℕ → List ℕ → ℕ
slots_hash hash [] = hash
slots_hash hash (slot ∷ slots) = slots_hash (bit_or hash (2 * 2 ^ slot % 2 ^ 32)) slots

unfoldable pub send_unlock_interface_component_options_slot :
    InterfaceId → ComponentId → ℕ → ℕ → List ℕ → M Session (Unit {0})
send_unlock_interface_component_options_slot interface component from_slot to_slot slots =
    send_interface_component_settings interface component from_slot to_slot (slots_hash 0 slots)

-- `SendTab` with the tabs of both modes; the default of `kNoClipped` is true.
unfoldable pub send_tab_of_mode : Player → TabId → TabId → InterfaceId → M Session (Unit {0})
send_tab_of_mode player resizable fixed interface =
    send_tab (if is_resizable player then PaneId.resizable else PaneId.fixed)
      (if is_resizable player then resizable else fixed) interface true
