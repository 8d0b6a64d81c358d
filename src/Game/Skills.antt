-- ===== src/Game/Skills.antt =====
-- game/include/openrs/game/player/skills.h: the experience in the skills, and the levels.
use openrs.Base.{
  ℕ, zero, suc, ◌+◌, ◌-◌, ◌/◌, ◌%◌, ◌^◌, ◌≤◌, leb, if◌then◌else◌, Bool-cases, inl, inr, arith,
}

pub data Skill : Type 0 where
  attack defence strength hit_points range prayer magic cooking wood_cuting fletching : Skill
  fishing fire_making crafting smithing mining herb_lore agility thieving slayer : Skill
  farming rune_crafting construction hunter summoning dungeoneering last : Skill

-- The column set has one skill.
pub record Skills : Type 0 where
  pub skill_attack : ℕ

unfoldable pub get_skill_experience : Skills → Skill → ℕ
get_skill_experience s attack = s.skill_attack % 2 ^ 32
get_skill_experience s _ = 0

-- The loop of `GetSkillLevel`, with as many levels left as `n` says. `gain` is the floor of
-- level + 300 * 2 ^ (level / 7), which the mathematics library computes in floating point.
unfoldable pub level_from : (ℕ → ℕ) → ℕ → ℕ → ℕ → ℕ → ℕ
level_from gain experience level points zero = level
level_from gain experience level points (suc n) =
    let points' = (points + gain level) % 2 ^ 32 in
    let more = level_from gain experience (level + 1) points' n in
    if leb experience ((points' / 4 + 2 ^ 32 - 1) % 2 ^ 32) then level else more

-- `GetSkillLevel`: the levels 1 to 98 are tried, and what is behind them is 99.
unfoldable pub get_skill_level : (ℕ → ℕ) → Skills → Skill → ℕ
unfolding level_from get_skill_experience
get_skill_level gain s skill = level_from gain (get_skill_experience s skill) 1 0 98

abbrev pub get_combat_level : Skills → ℕ
get_combat_level s = 99

level_from-bounds :
    (gain : ℕ → ℕ) (e level points n : ℕ)
    → (level ≤ level_from gain e level points n) × (level_from gain e level points n ≤ level + n)
unfolding level_from
level_from-bounds gain e level points zero = (omega arith, omega arith)
level_from-bounds gain e level points (suc n) =
    let points' = (points + gain level) % 2 ^ 32 in
    let (lo, hi) = level_from-bounds gain e (level + 1) points' n in
    elim (Bool-cases (leb e ((points' / 4 + 2 ^ 32 - 1) % 2 ^ 32))) [
      | inl h ↦ rw h (omega arith, omega arith)
      | inr h ↦ rw h (omega (arith, lo), omega (arith, hi))
    ]

-- A level is between 1 and 99, whatever the experience and whatever a level costs.
pub get_skill_level-bounds :
    (gain : ℕ → ℕ) (s : Skills) (skill : Skill)
    → (1 ≤ get_skill_level gain s skill) × (get_skill_level gain s skill ≤ 99)
unfolding get_skill_level
get_skill_level-bounds gain s skill =
    let (lo, hi) = level_from-bounds gain (get_skill_experience s skill) 1 0 98 in (lo, hi)
