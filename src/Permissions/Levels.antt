-- ===== src/Permissions/Levels.antt =====
-- The levels of the permissions of a unit:
-- common/services/business_units/business_unit_permission_resolver.py.
pub mod Maximum
use yastubo_python.Prelude.{
  ℕ, ◌+◌, Bool, true, false, ◌&&◌, Option, none, some, List, [], ◌∷◌, ◌++◌, any, select, ltb,
  if◌then◌else◌, Text, codes, text_eq,
}

abbrev pub level_none : ℕ
level_none = 0

abbrev pub level_local : ℕ
level_local = 1

abbrev pub level_inherited : ℕ
level_inherited = 2

abbrev pub level_global : ℕ
level_global = 3

-- `PERMISSION_KEYS`
abbrev pub permission_keys : List Text
permission_keys =
    codes "unit.structure.view"
    ∷ codes "unit.structure.manage"
    ∷ codes "unit.basic.view"
    ∷ codes "unit.basic.edit"
    ∷ codes "unit.branding.view"
    ∷ codes "unit.branding.manage"
    ∷ codes "unit.members.view"
    ∷ codes "unit.members.invite"
    ∷ codes "unit.members.manage_roles"
    ∷ codes "unit.members.remove"
    ∷ codes "unit.manage_children"
    ∷ codes "unit.gsa.commission"
    ∷ codes "unit.products.sell"
    ∷ []

-- a dictionary from permissions to levels; a missing one has `LEVEL_NONE`
abbrev pub Levels : Type 0
Levels = Text → ℕ

abbrev pub has_name : Text → List Text → Bool
has_name name names = any (text_eq name) names

-- `levels[name] = level`
abbrev pub set_level : Text → ℕ → Levels → Levels
set_level name level levels k = if text_eq k name then level else levels k

-- `_empty_permissions`
abbrev pub empty_permissions : Levels
empty_permissions _ = level_none

-- the loop of `_build_global_permissions`
unfoldable pub global_from : List Text → List Text → Levels → Levels
global_from granted [] levels = levels
global_from granted (name ∷ names) levels =
    global_from granted names
      (if has_name name granted then set_level name level_global levels else levels)

-- `_build_global_permissions`, for the permissions that `user.can` grants
unfoldable pub build_global_permissions : List Text → Levels
unfolding global_from
build_global_permissions granted = global_from granted permission_keys empty_permissions

-- `if levels.get(name) < level: levels[name] = level`
abbrev pub raise_level : ℕ → Text → Levels → Levels
raise_level level name levels =
    if ltb (levels name) level then set_level name level levels else levels

unfoldable pub raise_all : ℕ → List Text → Levels → Levels
raise_all level [] levels = levels
raise_all level (name ∷ names) levels = raise_all level names (raise_level level name levels)

-- A unit of the chain whose levels are known: the names that its role grants, and the levels.
pub record Resolved : Type 0 where
  pub id : ℕ
  pub local_names : List Text
  pub levels : Levels

abbrev pub manage_children : Text
manage_children = codes "unit.manage_children"

-- the loop over the ancestors
unfoldable pub inherit_from : List Resolved → Levels → Levels
unfolding raise_all
inherit_from [] levels = levels
inherit_from (a ∷ above) levels = inherit_from above (
    if ltb level_none (a.levels manage_children)
    then raise_all level_inherited a.local_names levels
    else levels)

-- the levels of one unit, under the units above it
unfoldable pub unit_levels : Levels → List Resolved → List Text → Levels
unfolding raise_all inherit_from
unit_levels globals above local_names =
    inherit_from above (raise_all level_local local_names globals)

-- A unit of the chain, with the names that the user's role in it grants.
pub record Link : Type 0 where
  pub id : ℕ
  pub local_names : List Text

abbrev pub resolved : Link → Levels → Resolved
resolved u levels = record { id = u.id; local_names = u.local_names; levels = levels }

-- the loop over the chain, root first; the ancestors are those resolved so far, in their order
unfoldable pub resolve_chain : Levels → List Resolved → List Link → List Resolved
unfolding unit_levels
resolve_chain globals above [] = above
resolve_chain globals above (u ∷ chain) =
    resolve_chain globals (above ++ resolved u (unit_levels globals above u.local_names) ∷ []) chain
