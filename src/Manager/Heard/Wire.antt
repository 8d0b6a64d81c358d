-- ===== src/Manager/Heard/Wire.antt =====
-- Not code of the server: the payloads of the packets, as the client reads them.
use openrs.Base.{ℕ, ◌+◌, ◌-◌, ◌*◌, ◌/◌, ◌%◌, ◌^◌, List, [], ◌∷◌, ◌++◌, map, replicate}
use openrs.Base.Bytes.{le_bytes, be_bytes}
use openrs.Net.Packet.{
  interface_tab, interface_component_text, interface_component_setting, interface_hide,
  player_option, interface_window_pane, config_1, config_2, config_global_1, config_file_1, message,
  player_skill,
}
use openrs.Net.Encoder.RoundTrip.Stream.{Said}

-- The bytes of a number, each pair of them swapped.
abbrev pub swapped : ℕ → List ℕ
swapped v = (v / 256 % 256) ∷ (v % 256) ∷ (v / 256 / 256 / 256 % 256) ∷ (v / 256 / 256 % 256) ∷ []

-- A number whose lowest byte is 128 more.
abbrev pub raised : ℕ → ℕ
raised v = v - v % 256 + (v % 256 + 128) % 256

-- A component of an interface, or a tab of a window.
abbrev pub place : ℕ → ℕ → ℕ
place whole part = whole * 2 ^ 16 + part

abbrev pub text_bytes : List ℕ → List ℕ
text_bytes text = map (λ c. c % 256) text ++ 0 ∷ []

-- An interface that is put where a tab of a window is.
abbrev pub tab : ℕ → ℕ → Said
tab where_to interface = (
  interface_tab,
  be_bytes 2 interface ++ (replicate 8 0 ++ (swapped where_to ++ 1 ∷ replicate 8 0)),
)

abbrev pub hide : ℕ → Said
hide component = (interface_hide, swapped component ++ 1 ∷ [])

abbrev pub component_text : ℕ → List ℕ → Said
component_text component text = (interface_component_text, text_bytes text ++ be_bytes 4 component)

-- The slots of a component from one to another, and what can be done with them.
abbrev pub setting : ℕ → ℕ → ℕ → ℕ → Said
setting component from_slot to_slot hash = (
  interface_component_setting,
  swapped hash ++ (be_bytes 4 component ++ (be_bytes 2 (raised from_slot) ++ le_bytes 2 to_slot)),
)

-- An option on other players, its cursor being none.
abbrev pub option : ℕ → List ℕ → Said
option slot text = (player_option, raised slot ∷ (text_bytes text ++ 127 ∷ 255 ∷ 0 ∷ []))

abbrev pub window : ℕ → Said
window pane = (interface_window_pane, 128 ∷ (be_bytes 2 (raised pane) ++ replicate 16 0))

abbrev pub variable_byte : ℕ → ℕ → Said
variable_byte id value = (config_1, le_bytes 2 (raised id) ++ raised value ∷ [])

abbrev pub variable_word : ℕ → ℕ → Said
variable_word id value = (config_2, be_bytes 2 (raised id) ++ le_bytes 4 value)

abbrev pub global_byte : ℕ → ℕ → Said
global_byte id negative = (config_global_1, negative ∷ be_bytes 2 (raised id))

abbrev pub file_byte : ℕ → ℕ → Said
file_byte id negative = (config_file_1, be_bytes 2 (raised id) ++ negative ∷ [])

-- A message of the first kind: the tile and the name of the player, and the text.
abbrev pub told : ℕ → List ℕ → List ℕ → Said
told tile name text = (message, 0 ∷ (be_bytes 4 tile ++ 1 ∷ (text_bytes name ++ text_bytes text)))

-- A skill: 128 less its number, its experience, and its level and 128.
abbrev pub skill : ℕ → ℕ → ℕ → Said
skill number experience level =
    (player_skill, (128 - number) ∷ (be_bytes 4 experience ++ (level + 128) ∷ []))
