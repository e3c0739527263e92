-- ===== src/Permissions/Tests.antt =====
-- The theorems on permissions at a unit below another.
use yastubo_python.Prelude.{ℕ, ◌≡◌, refl, ◌&&◌, ◌||◌, none, some, List, [], ◌∷◌, map, Text, codes}
use Prim.Native.Nat.{max}
use yastubo_python.Units.{new_unit, BusinessUnit, find_unit}
use yastubo_python.Permissions.Levels.{
  Levels, level_none, level_local, level_inherited, has_name, Resolved, unit_levels,
  empty_permissions,
}
use yastubo_python.Permissions.Levels.Maximum.{level_if, inherits, unit_levels-max}
use yastubo_python.Permissions.Abilities.{
  Abilities, compute_ability, ability_permission_map, to_dict, reaches_min_level,
  can_manage_role_level,
}
use yastubo_python.Permissions.Abilities.Roles.{
  Answers, manages_any, manages_some, can_manage_role_level-Answers, to_dict-Answers,
}
use yastubo_python.Permissions.Resolver.{
  Database, User, Resolver, load_ancestor_chain, levels_of_chain, abilities_of, for_unit,
}
use yastubo_python.Permissions.Resolver.Chain.{load_ancestor_chain_total}
use yastubo_python.Permissions.Resolver.Cache.{IsCoherent, globals_of, for_unit-IsAnswer}

abbrev root : BusinessUnit
root = new_unit 1 [] none none none

abbrev child : BusinessUnit
child = new_unit 2 [] none none (some 1)

abbrev grants : List Text
grants = codes "unit.manage_children" ∷ codes "unit.basic.edit" ∷ []

-- the user 5 has these permissions in the upper unit
abbrev db : Database
db = record {
  units = root ∷ child ∷ [];
  memberships = record { business_unit_id = 1; user_id = 5; role = some grants } ∷ [];
}

abbrev user : User
user = record { id = 5; permissions_cache = [] }

abbrev resolver : Resolver
resolver = record { global_permissions = []; unit_permissions_cache = [] }

-- a level for the permission to manage roles
abbrev levels : Levels
levels _ = level_local

abbrev above : List Resolved
above = record { id = 1; local_names = grants; levels = levels } ∷ []

unit_levels-max_example :
    unit_levels empty_permissions above [] (codes "unit.basic.edit")
    ≡ max level_none (
        max
          (level_if (inherits (codes "unit.basic.edit") above) level_inherited)
          (level_if (has_name (codes "unit.basic.edit") []) level_local))
unit_levels-max_example = unit_levels-max empty_permissions above [] (codes "unit.basic.edit")

abbrev abilities : Abilities
abilities = record { permission_levels = levels; abilities_cache = [] }

can_manage_role_level-Answers_example :
    Answers levels
      (manages_any levels || manages_some levels && reaches_min_level 4 (some 3))
      (can_manage_role_level 4 (some 3) abilities)
can_manage_role_level-Answers_example =
    can_manage_role_level-Answers levels 4 (some 3) abilities (refl, tt)

load_ancestor_chain_total_example :
    (chain : List BusinessUnit) × (load_ancestor_chain db.units child ≡ some chain)
load_ancestor_chain_total_example = load_ancestor_chain_total db.units child

abbrev no_grants : ℕ → List Text
no_grants _ = []

found_child : find_unit 2 db.units ≡ some child
unfolding find_unit
found_child = refl

for_unit-IsAnswer_example :
    (chain : List BusinessUnit) × (load_ancestor_chain db.units child ≡ some chain)
    × ((for_unit db user (some child) resolver).0
        ≡ abilities_of (some (levels_of_chain db 5 (globals_of db no_grants 5) child chain)))
    × IsCoherent db no_grants (for_unit db user (some child) resolver).1
for_unit-IsAnswer_example =
    for_unit-IsAnswer db no_grants user child resolver (tt, tt) refl found_child

to_dict-Answers_example :
    Answers levels
      (map (λ k. (k, compute_ability levels k)) (map (λ entry. entry.0) ability_permission_map))
      (to_dict abilities)
to_dict-Answers_example = to_dict-Answers levels abilities (refl, tt)
