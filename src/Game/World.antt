-- ===== src/Game/World.antt =====
-- game/include/openrs/game/world.h: the players of a world, by their index.
pub mod Slots
use openrs.Base.{
  ℕ, zero, suc, ◌+◌, ◌-◌, ◌%◌, ◌^◌, List, [], ◌∷◌, Option, none, some, Bool, true, false, not, ◌||◌,
  ◌==◌, ltb, if◌then◌else◌, length,
}

-- A player is only passed on here. `std::map<uint32_t, …>` is the list of its entries by ascending
-- key.
abbrev pub Players : Type 0 → Type 0
Players Player = List (ℕ × Player)

module _ {Player : Type 0} where
  unfoldable pub find : ℕ → Players Player → Option Player
  find k [] = none
  find k ((i, p) ∷ players) = if k == i then some p else find k players

  -- `std::map::insert` leaves the entry that is there under the key.
  unfoldable pub insert : ℕ → Player → Players Player → Players Player
  insert k p [] = (k, p) ∷ []
  insert k p ((i, q) ∷ players) =
      let rest = insert k p players in
      if k == i
      then (i, q) ∷ players
      else (if ltb k i then (k, p) ∷ (i, q) ∷ players else (i, q) ∷ rest)

  -- `std::map::erase`.
  unfoldable pub erase : ℕ → Players Player → Players Player
  erase k [] = []
  erase k ((i, q) ∷ players) =
      let rest = erase k players in if k == i then players else (i, q) ∷ rest

  -- `players_.crbegin()->first`, of a map that is not empty.
  unfoldable pub last_key : ℕ → Players Player → ℕ
  last_key k [] = k
  last_key k ((i, q) ∷ players) = last_key i players

  -- The loop that looks for a gap: `kIndex.first != index++` compares, and then counts.
  unfoldable pub gap_from : ℕ → Players Player → ℕ
  gap_from index [] = index
  gap_from index ((i, q) ∷ players) =
      let rest = gap_from ((index + 1) % 2 ^ 32) players in
      if i == index then rest else (index + 1) % 2 ^ 32

  abbrev pub has_no_gap : Players Player → Bool
  has_no_gap players = length players == 0 || last_key 0 players == length players - 1

  -- `World::add_player`: the index that it returns, and the players.
  unfoldable pub add_player : Player → Players Player → ℕ × Players Player
  unfolding last_key gap_from insert
  add_player p players =
      let index = if has_no_gap players then length players else gap_from 0 players in
      (index, insert index p players)

  -- `World::remove_player`.
  abbrev pub remove_player : ℕ → Players Player → Players Player
  remove_player = erase
