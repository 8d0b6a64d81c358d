-- ===== src/Manager/Interface/Ids.antt =====
-- The enumerations of openrs/include/openrs/manager/interfacemanager.h, and their values.
use openrs.Base.{ℕ}

pub data PaneId : Type 0 where
  fixed resizable unknown : PaneId

unfoldable pub pane_id : PaneId → ℕ
pane_id PaneId.fixed = 548
pane_id PaneId.resizable = 746
pane_id PaneId.unknown = 752

pub data PaneType : Type 0 where
  none : PaneType

unfoldable pub pane_type : PaneType → ℕ
pane_type PaneType.none = 0

pub data TabId : Type 0 where
  overlay k9 overlay_fixed timer_fixed k15 k21 k22 k23 : TabId
  k25 timer k37 combat_styles task_system skills quests dungeon : TabId
  inventory equipment prayer_book squeel_of_fortune k120 k121 k122 settings : TabId
  emotes music notes logout k151 k152 k153 k155 : TabId
  k161 combat_styles_fixed task_system_fixed skills_fixed quests_fixed dungeon_fixed inventory_fixed
        equipment_fixed :
      TabId
  prayer_book_fixed squeel_of_fortune_fixed friends_list_fixed k181 k182 settings_fixed emotes_fixed
        music_fixed :
      TabId
  notes_fixed logout_fixed k195 k196 k197 k198 : TabId

unfoldable pub tab_id : TabId → ℕ
tab_id TabId.overlay = 1
tab_id TabId.k9 = 9
tab_id TabId.overlay_fixed = 11
tab_id TabId.timer_fixed = 11
tab_id TabId.k15 = 15
tab_id TabId.k21 = 21
tab_id TabId.k22 = 22
tab_id TabId.k23 = 23
tab_id TabId.k25 = 25
tab_id TabId.timer = 26
tab_id TabId.k37 = 37
tab_id TabId.combat_styles = 111
tab_id TabId.task_system = 112
tab_id TabId.skills = 113
tab_id TabId.quests = 114
tab_id TabId.dungeon = 114
tab_id TabId.inventory = 115
tab_id TabId.equipment = 116
tab_id TabId.prayer_book = 117
tab_id TabId.squeel_of_fortune = 119
tab_id TabId.k120 = 120
tab_id TabId.k121 = 121
tab_id TabId.k122 = 122
tab_id TabId.settings = 123
tab_id TabId.emotes = 124
tab_id TabId.music = 125
tab_id TabId.notes = 126
tab_id TabId.logout = 129
tab_id TabId.k151 = 151
tab_id TabId.k152 = 152
tab_id TabId.k153 = 153
tab_id TabId.k155 = 155
tab_id TabId.k161 = 161
tab_id TabId.combat_styles_fixed = 171
tab_id TabId.task_system_fixed = 172
tab_id TabId.skills_fixed = 173
tab_id TabId.quests_fixed = 174
tab_id TabId.dungeon_fixed = 174
tab_id TabId.inventory_fixed = 175
tab_id TabId.equipment_fixed = 176
tab_id TabId.prayer_book_fixed = 177
tab_id TabId.squeel_of_fortune_fixed = 179
tab_id TabId.friends_list_fixed = 180
tab_id TabId.k181 = 181
tab_id TabId.k182 = 182
tab_id TabId.settings_fixed = 183
tab_id TabId.emotes_fixed = 184
tab_id TabId.music_fixed = 185
tab_id TabId.notes_fixed = 186
tab_id TabId.logout_fixed = 189
tab_id TabId.k195 = 195
tab_id TabId.k196 = 196
tab_id TabId.k197 = 197
tab_id TabId.k198 = 198

pub data InterfaceId : Type 0 where
  notes k137 k167 logout music settings prayer_book skills : InterfaceId
  equipment friends_list emotes inventory k745 k747 k748 k749 : InterfaceId
  k750 k751 k752 k754 combat_styles dungeon k1109 k1110 : InterfaceId
  squeel_of_fortune task_system quests timer : InterfaceId

unfoldable pub interface_id : InterfaceId → ℕ
interface_id InterfaceId.notes = 34
interface_id InterfaceId.k137 = 137
interface_id InterfaceId.k167 = 167
interface_id InterfaceId.logout = 182
interface_id InterfaceId.music = 187
interface_id InterfaceId.settings = 261
interface_id InterfaceId.prayer_book = 271
interface_id InterfaceId.skills = 320
interface_id InterfaceId.equipment = 387
interface_id InterfaceId.friends_list = 550
interface_id InterfaceId.emotes = 590
interface_id InterfaceId.inventory = 679
interface_id InterfaceId.k745 = 745
interface_id InterfaceId.k747 = 747
interface_id InterfaceId.k748 = 748
interface_id InterfaceId.k749 = 749
interface_id InterfaceId.k750 = 750
interface_id InterfaceId.k751 = 751
interface_id InterfaceId.k752 = 752
interface_id InterfaceId.k754 = 754
interface_id InterfaceId.combat_styles = 884
interface_id InterfaceId.dungeon = 939
interface_id InterfaceId.k1109 = 1109
interface_id InterfaceId.k1110 = 1110
interface_id InterfaceId.squeel_of_fortune = 1139
interface_id InterfaceId.task_system = 3002
interface_id InterfaceId.quests = 3002
interface_id InterfaceId.timer = 3039

pub data ComponentId : Type 0 where
  k1 k5 k6 k7 k8 k9 k10 k12 : ComponentId

unfoldable pub component_id : ComponentId → ℕ
component_id ComponentId.k1 = 1
component_id ComponentId.k5 = 5
component_id ComponentId.k6 = 6
component_id ComponentId.k7 = 7
component_id ComponentId.k8 = 8
component_id ComponentId.k9 = 9
component_id ComponentId.k10 = 10
component_id ComponentId.k12 = 12

pub data EmoteId : Type 0 where
  notes : EmoteId

unfoldable pub emote_id : EmoteId → ℕ
emote_id EmoteId.notes = 34
