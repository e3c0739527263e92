-- ===== src/Roles.antt =====
-- The roles and the permissions of users: common/services/permission_service.py, over the link
-- tables of common/models/permission.py.
pub mod Effects
mod Tests
use yastubo_python.Prelude.{
  ℕ, Bool, true, false, ◌&&◌, ◌||◌, not, Option, none, some, List, [], ◌∷◌, ◌++◌, map, any, select,
  ◌==◌, if◌then◌else◌, Text, text_eq,
}

-- a row of one of the link tables: of a user and a role, a user and a permission, or a role and a
-- permission
pub record Link : Type 0 where
  pub owner_id : ℕ
  pub target_id : ℕ

pub record Role : Type 0 where
  pub id : ℕ
  pub name : Text
  pub guard_name : Text

pub record Permission : Type 0 where
  pub id : ℕ
  pub name : Text

-- The tables. The rows of `model_has_roles` and `model_has_permissions` are those of users.
pub record Tables : Type 0 where
  pub roles : List Role
  pub permissions : List Permission
  pub model_has_roles : List Link
  pub model_has_permissions : List Link
  pub role_has_permissions : List Link

abbrev pub is_link : ℕ → ℕ → Link → Bool
is_link owner_id target_id l = l.owner_id == owner_id && l.target_id == target_id

-- the row exists
unfoldable pub linked : ℕ → ℕ → List Link → Bool
linked owner_id target_id links = any (is_link owner_id target_id) links

-- the insert after the query for the row
unfoldable pub add_link : ℕ → ℕ → List Link → List Link
unfolding linked
add_link owner_id target_id links =
    if linked owner_id target_id links
    then links
    else links ++ record { owner_id = owner_id; target_id = target_id } ∷ []

-- the delete
unfoldable pub remove_link : ℕ → ℕ → List Link → List Link
remove_link owner_id target_id links = select (λ l. not (is_link owner_id target_id l)) links

unfoldable pub assign_role : ℕ → ℕ → Tables → Tables
assign_role user_id role_id t = record t {
  model_has_roles = add_link user_id role_id t.model_has_roles;
}

unfoldable pub remove_role : ℕ → ℕ → Tables → Tables
remove_role user_id role_id t = record t {
  model_has_roles = remove_link user_id role_id t.model_has_roles;
}

unfoldable pub give_permission : ℕ → ℕ → Tables → Tables
give_permission user_id permission_id t = record t {
  model_has_permissions = add_link user_id permission_id t.model_has_permissions;
}

unfoldable pub revoke_permission : ℕ → ℕ → Tables → Tables
revoke_permission user_id permission_id t = record t {
  model_has_permissions = remove_link user_id permission_id t.model_has_permissions;
}

unfoldable pub give_permission_to_role : ℕ → ℕ → Tables → Tables
give_permission_to_role role_id permission_id t = record t {
  role_has_permissions = add_link role_id permission_id t.role_has_permissions;
}

unfoldable pub revoke_permission_from_role : ℕ → ℕ → Tables → Tables
revoke_permission_from_role role_id permission_id t = record t {
  role_has_permissions = remove_link role_id permission_id t.role_has_permissions;
}

-- `SELECT roles … JOIN model_has_roles`; the key of the link table allows one row for a pair
unfoldable pub get_roles : ℕ → Tables → List Role
unfolding linked
get_roles user_id t = select (λ r. linked user_id r.id t.model_has_roles) t.roles

-- `SELECT permissions … JOIN model_has_permissions`
abbrev pub is_direct : ℕ → Tables → Permission → Bool
is_direct user_id t p = linked user_id p.id t.model_has_permissions

-- `SELECT permissions … JOIN role_has_permissions … JOIN model_has_roles`
abbrev pub is_by_role : ℕ → Tables → Permission → Bool
is_by_role user_id t p =
    any (λ l. l.target_id == p.id && linked user_id l.owner_id t.model_has_roles)
      t.role_has_permissions

-- the set of names, as a list whose order and repetitions do not matter
unfoldable pub get_permissions : ℕ → Tables → List Text
unfolding linked
get_permissions user_id t =
    map (λ p. p.name) (select (is_direct user_id t) t.permissions)
    ++ map (λ p. p.name) (select (is_by_role user_id t) t.permissions)

unfoldable pub user_can : ℕ → Text → Tables → Bool
user_can user_id permission_name t = any (text_eq permission_name) (get_permissions user_id t)

abbrev pub is_guard : Option Text → Role → Bool
is_guard none r = true
is_guard (some g) r = text_eq r.guard_name g

unfoldable pub user_has_role : ℕ → Text → Option Text → Tables → Bool
user_has_role user_id role_name guard_name t =
    any (λ r. text_eq r.name role_name && is_guard guard_name r) (get_roles user_id t)

-- `load_permissions` fills the cache that `User.can` reads
abbrev pub cached_can : List Text → Text → Bool
cached_can permissions_cache permission_name = any (text_eq permission_name) permissions_cache

-- `load_permissions`, then `can`
unfoldable pub load_permissions : ℕ → Tables → List Text
load_permissions user_id t = get_permissions user_id t

-- `load_roles`, which fills the cache that `User.has_role` reads
unfoldable pub load_roles : ℕ → Tables → List Role
load_roles user_id t = get_roles user_id t

-- `has_role` on that cache
abbrev pub cached_has_role : List Role → Text → Option Text → Bool
cached_has_role roles_cache role_name guard_name =
    any (λ r. text_eq r.name role_name && is_guard guard_name r) roles_cache
