-- ===== src/Permissions/Abilities.antt =====
-- What a user may do in a unit: common/services/business_units/business_unit_abilities.py.
-- The object keeps its answers, so each query returns the object with its cache as well.
pub mod Roles
use yastubo_python.Prelude.{
  ℕ, Bool, true, false, Option, none, some, List, [], ◌∷◌, map, leb, ◌==◌, Text, codes, Dict,
  lookup, insert,
}
use yastubo_python.Permissions.Levels.{Levels, level_local, level_inherited, level_global}

-- `ABILITY_PERMISSION_MAP`
abbrev pub ability_permission_map : Dict (Text × ℕ)
ability_permission_map =
    (codes "can_structure_view", (codes "unit.structure.view", level_local))
    ∷ (codes "can_basic_view", (codes "unit.basic.view", level_local))
    ∷ (codes "can_basic_edit", (codes "unit.basic.edit", level_local))
    ∷ (codes "can_branding_view", (codes "unit.branding.view", level_local))
    ∷ (codes "can_branding_manage", (codes "unit.branding.manage", level_local))
    ∷ (codes "can_members_view", (codes "unit.members.view", level_local))
    ∷ (codes "can_members_invite", (codes "unit.members.invite", level_local))
    ∷ (codes "can_members_manage_roles", (codes "unit.members.manage_roles", level_local))
    ∷ (codes "can_members_manage_roles_any", (codes "unit.members.manage_roles", level_inherited))
    ∷ (codes "can_members_remove", (codes "unit.members.remove", level_inherited))
    ∷ (codes "can_manage_children", (codes "unit.manage_children", level_local))
    ∷ (codes "can_toggle_status", (codes "unit.structure.manage", level_inherited))
    ∷ (codes "can_move", (codes "unit.structure.manage", level_global))
    ∷ (codes "can_change_type", (codes "unit.structure.manage", level_global))
    ∷ (codes "can_create", (codes "unit.structure.manage", level_global))
    ∷ (codes "can_pick_active_users", (codes "unit.members.invite", level_global))
    ∷ (codes "can_products_sell", (codes "unit.products.sell", level_global))
    ∷ (codes "can_access", (codes "unit.structure.view", level_local))
    ∷ (codes "can_edit_gsa_commission", (codes "unit.gsa.commission", level_global))
    ∷ []

-- `BusinessUnitAbilities`
pub record Abilities : Type 0 where
  pub permission_levels : Levels
  pub abilities_cache : Dict Bool

-- `_compute_ability`, with `_has_permission`
unfoldable pub compute_ability : Levels → Text → Bool
compute_ability levels ability = elim (lookup ability ability_permission_map) [
  | none ↦ false
  | some (permission, min_level) ↦ leb min_level (levels permission)
]

-- a query returns the object, with what it has cached
abbrev pub Query : Type 0 → Type 0
Query A = Abilities → A × Abilities

abbrev pub remember : Text → Bool → Query Bool
remember ability value a = (
  value,
  record {
    permission_levels = a.permission_levels;
    abilities_cache = insert ability value a.abilities_cache;
  },
)

abbrev pub cached_or : Text → Option Bool → Query Bool
cached_or ability (some b) a = (b, a)
cached_or ability none a = remember ability (compute_ability a.permission_levels ability) a

unfoldable pub can : Text → Query Bool
can ability a = cached_or ability (lookup ability a.abilities_cache) a

-- `if test: …; else: …` on the answer of a query
abbrev pub if_query : {A : Type 0} → Bool × Abilities → Query A → Query A → A × Abilities
if_query (true, a) on_true on_false = on_true a
if_query (false, a) on_true on_false = on_false a

abbrev pub answer : {A : Type 0} → A → Query A
answer x a = (x, a)

unfoldable pub can_manage_roles : Query Bool
can_manage_roles a =
    if_query (can (codes "can_members_manage_roles") a) (answer true)
      (can (codes "can_members_manage_roles_any"))

unfoldable pub manageable_role_min_level : Option ℕ → Query (Option ℕ)
manageable_role_min_level my_role_level a =
    if_query (can_manage_roles a)
      (λ a1. if_query (can (codes "can_members_manage_roles_any") a1) (answer (some 0)) (λ a2.
        if_query (can (codes "can_members_manage_roles") a2) (answer my_role_level) (answer none)))
      (answer none)

abbrev pub reaches_min_level : ℕ → Option ℕ → Bool
reaches_min_level role_level none = false
reaches_min_level role_level (some min_level) = leb min_level role_level

unfoldable pub can_manage_role_level : ℕ → Option ℕ → Query Bool
can_manage_role_level role_level my_role_level a =
    let (min_level, a1) = manageable_role_min_level my_role_level a in
    (reaches_min_level role_level min_level, a1)

-- `permission_level`; a missing permission has `LEVEL_NONE`
abbrev pub permission_level : Text → Abilities → ℕ
permission_level permission a = a.permission_levels permission

unfoldable pub is_only_local : Text → Abilities → Bool
is_only_local permission a = permission_level permission a == level_local

unfoldable pub has_non_local : Text → Abilities → Bool
has_non_local permission a = leb level_inherited (permission_level permission a)

-- the comprehension of `to_dict`, over keys that are distinct
unfoldable pub to_dict_from : List Text → Query (Dict Bool)
to_dict_from [] a = ([], a)
to_dict_from (ability ∷ abilities) a =
    let (value, a1) = can ability a in
    let (rest, a2) = to_dict_from abilities a1 in ((ability, value) ∷ rest, a2)

unfoldable pub to_dict : Query (Dict Bool)
to_dict = to_dict_from (map (λ entry. entry.0) ability_permission_map)

-- the permission and the level that each ability needs
unfoldable pub ability_requirements : Dict (Text × ℕ)
ability_requirements = map (λ entry. (entry.0, entry.1)) ability_permission_map

unfoldable pub get_permissions : Abilities → Levels
get_permissions a = a.permission_levels
