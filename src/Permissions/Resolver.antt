-- ===== src/Permissions/Resolver.antt =====
-- The resolver with its two caches, and the chain of ancestors that it loads:
-- common/services/business_units/business_unit_permission_resolver.py.
pub mod Chain
pub mod Cache
use yastubo_python.Prelude.{
  ℕ, zero, suc, ◌+◌, Bool, true, false, ◌&&◌, Option, none, some, List, [], ◌∷◌, map, length,
  member, select, ◌==◌, if◌then◌else◌, Text,
}
use yastubo_python.Units.{BusinessUnit, find_unit}
use yastubo_python.Permissions.Levels.{
  Levels, has_name, permission_keys, build_global_permissions, Link, Resolved, resolve_chain,
}
use yastubo_python.Permissions.Abilities.{Abilities}

-- A membership, with the names of the permissions of its role.
pub record Membership : Type 0 where
  pub business_unit_id : ℕ
  pub user_id : ℕ
  pub role : Option (List Text)

pub record User : Type 0 where
  pub id : ℕ
  pub permissions_cache : List Text

pub record Database : Type 0 where
  pub units : List BusinessUnit
  pub memberships : List Membership

-- the next value of `current`: the parent's row, unless the unit has none or it was visited
unfoldable pub parent_row : List BusinessUnit → List ℕ → Option ℕ → Option BusinessUnit
unfolding find_unit
parent_row units visited none = none
parent_row units visited (some p) =
    let row = find_unit p units in if member p visited then none else row

-- the `while` loop of `_load_ancestor_chain`; `none` means that the fuel ran out
unfoldable pub collect_ids : ℕ → List BusinessUnit → Option BusinessUnit → List ℕ → Option (List ℕ)
collect_ids zero units current chain_ids = none
collect_ids (suc f) units none chain_ids = some chain_ids
collect_ids (suc f) units (some u) chain_ids =
    let rest =
      collect_ids f units (parent_row units (u.id ∷ chain_ids) u.parent_id) (u.id ∷ chain_ids) in
    if member u.id chain_ids then some chain_ids else rest

-- `[units_by_id[uid] for uid in chain_ids if uid in units_by_id]`
unfoldable pub rows_of : List BusinessUnit → List ℕ → List BusinessUnit
unfolding find_unit
rows_of units [] = []
rows_of units (k ∷ ids) =
    let rest = rows_of units ids in elim (find_unit k units) [ none ↦ rest | some u ↦ u ∷ rest ]

unfoldable pub load_ancestor_chain : List BusinessUnit → BusinessUnit → Option (List BusinessUnit)
load_ancestor_chain units unit = elim (collect_ids (length units + 2) units (some unit) []) [
  | none ↦ none
  | some [] ↦ some (unit ∷ [])
  | some (k ∷ ids) ↦ some (rows_of units (k ∷ ids))
]

-- `memberships_by_unit.get(u.id)`: the last row of the user in the unit
unfoldable pub membership_of : ℕ → ℕ → List Membership → Option Membership
membership_of user_id unit_id [] = none
membership_of user_id unit_id (m ∷ ms) = elim (membership_of user_id unit_id ms) [
  | some later ↦ some later
  | none ↦ if m.user_id == user_id && m.business_unit_id == unit_id then some m else none
]

abbrev pub role_of : Option Membership → Option (List Text)
role_of none = none
role_of (some m) = m.role

abbrev pub known_names : Option (List Text) → List Text
known_names none = []
known_names (some names) = select (λ name. has_name name permission_keys) names

-- `local_perms_by_unit_id[u.id]`
abbrev pub link : Database → ℕ → BusinessUnit → Link
link db user_id u = record {
  id = u.id;
  local_names = known_names (role_of (membership_of user_id u.id db.memberships));
}

abbrev pub levels_at : ℕ → Levels → List Resolved → Levels
levels_at key globals [] = globals
levels_at key globals (a ∷ resolved) =
    let rest = levels_at key globals resolved in if a.id == key then a.levels else rest

abbrev pub or_unit : BusinessUnit → List BusinessUnit → List BusinessUnit
or_unit unit [] = unit ∷ []
or_unit unit (u ∷ chain) = u ∷ chain

-- `_permission_levels_for_unit` between the two accesses of the cache
unfoldable pub levels_of_chain : Database → ℕ → Levels → BusinessUnit → List BusinessUnit → Levels
levels_of_chain db user_id globals unit chain =
    levels_at unit.id globals
      (resolve_chain globals [] (map (link db user_id) (or_unit unit chain)))

abbrev pub levels_of :
    Database → ℕ → Levels → BusinessUnit → Option (List BusinessUnit) → Option Levels
levels_of db user_id globals unit none = none
levels_of db user_id globals unit (some chain) =
    some (levels_of_chain db user_id globals unit chain)

abbrev pub levels_of_unit : Database → ℕ → Levels → BusinessUnit → Option Levels
levels_of_unit db user_id globals unit =
    levels_of db user_id globals unit (load_ancestor_chain db.units unit)

-- `BusinessUnitPermissionResolver`; the keys of the second cache are a user's and a unit's id
pub record Resolver : Type 0 where
  pub global_permissions : List (ℕ × Levels)
  pub unit_permissions_cache : List ((ℕ × ℕ) × Levels)

unfoldable pub global_of : ℕ → List (ℕ × Levels) → Option Levels
global_of k [] = none
global_of k ((j, levels) ∷ rest) =
    let later = global_of k rest in if j == k then some levels else later

unfoldable pub cached_levels : ℕ → ℕ → List ((ℕ × ℕ) × Levels) → Option Levels
cached_levels k u [] = none
cached_levels k u (((j, v), levels) ∷ rest) =
    let later = cached_levels k u rest in if j == k && v == u then some levels else later

abbrev pub load_if : User → Option Levels → Resolver → Resolver
load_if user (some levels) r = r
load_if user none r = record {
  global_permissions =
      (user.id, build_global_permissions user.permissions_cache) ∷ r.global_permissions;
  unit_permissions_cache = r.unit_permissions_cache;
}

unfoldable pub load_user : User → Resolver → Resolver
load_user user r = load_if user (global_of user.id r.global_permissions) r

abbrev pub store_levels : ℕ → ℕ → Option Levels → Resolver → Option Levels × Resolver
store_levels user_id key none r = (none, r)
store_levels user_id key (some levels) r = (
  some levels,
  record {
    global_permissions = r.global_permissions;
    unit_permissions_cache = ((user_id, key), levels) ∷ r.unit_permissions_cache;
  },
)

abbrev pub levels_or_store :
    Database → User → Levels → BusinessUnit → Option Levels → Resolver → Option Levels × Resolver
levels_or_store db user globals unit (some levels) r = (some levels, r)
levels_or_store db user globals unit none r =
    store_levels user.id unit.id (levels_of_unit db user.id globals unit) r

unfoldable pub permission_levels_for_unit :
    Database → User → Levels → Option BusinessUnit → Resolver → Option Levels × Resolver
permission_levels_for_unit db user globals none r = (some globals, r)
permission_levels_for_unit db user globals (some unit) r =
    levels_or_store db user globals unit (cached_levels user.id unit.id r.unit_permissions_cache) r

abbrev pub with_globals :
    Database → User → Option BusinessUnit → Option Levels → Resolver → Option Levels × Resolver
with_globals db user unit none r = (none, r)
with_globals db user unit (some globals) r = permission_levels_for_unit db user globals unit r

abbrev pub abilities_of : Option Levels → Option Abilities
abilities_of none = none
abilities_of (some levels) = some (record { permission_levels = levels; abilities_cache = [] })

-- `for_unit`; `none` where `_global_permissions` has no entry, or the fuel ran out
unfoldable pub for_unit :
    Database → User → Option BusinessUnit → Resolver → Option Abilities × Resolver
for_unit db user unit r =
    let loaded = load_user user r in
    let (levels, r') =
      with_globals db user unit (global_of user.id loaded.global_permissions) loaded in
    (abilities_of levels, r')
