-- ===== src/Roles/Tests.antt =====
-- The theorems on roles and permissions at small tables.
use yastubo_python.Prelude.{true, Any, ◌↔◌, ◌≡◌, ◌&&◌, ◌||◌, not, [], ◌∷◌, codes}
use yastubo_python.Roles.{Tables, linked, user_can, assign_role, remove_role}
use yastubo_python.Roles.Effects.{is_pair, assign_role_lem, user_can_iff, IsGranted}

-- the user 5 has the role 1, which grants the permission 10
abbrev tables : Tables
tables = record {
  roles = record { id = 1; name = codes "editor"; guard_name = codes "admin" } ∷ [];
  permissions =
      record { id = 10; name = codes "plans.edit" }
      ∷ record { id = 11; name = codes "plans.view" }
      ∷ [];
  model_has_roles = record { owner_id = 5; target_id = 1 } ∷ [];
  model_has_permissions = [];
  role_has_permissions = record { owner_id = 1; target_id = 10 } ∷ [];
}

assign_role_lem_example :
    (linked 6 1 (assign_role 6 1 tables).model_has_roles
      ≡ (linked 6 1 tables.model_has_roles || is_pair 6 1 6 1))
    × (linked 6 1 (remove_role 6 1 tables).model_has_roles
        ≡ (linked 6 1 tables.model_has_roles && not (is_pair 6 1 6 1)))
    × (assign_role 6 1 (assign_role 6 1 tables) ≡ assign_role 6 1 tables)
assign_role_lem_example = assign_role_lem 6 1 6 1 tables

user_can_iff_example :
    (user_can 5 (codes "plans.edit") tables ≡ true)
    ↔ Any (λ p. (codes "plans.edit" ≡ p.name) × IsGranted 5 tables p) tables.permissions
user_can_iff_example = user_can_iff 5 (codes "plans.edit") tables
