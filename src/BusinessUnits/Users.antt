-- ===== src/BusinessUnits/Users.antt =====
-- The rows of users and roles that business_units_controller.py reads: common/models/user.py and
-- common/models/role.py.
use yastubo_python.Prelude.{ℕ, Bool, true, false, ◌&&◌, Option, some, ◌++◌, ◌∷◌, Text, strip}

pub data Realm : Type 0 where
  admin customer : Realm

pub data UserStatus : Type 0 where
  active suspended locked : UserStatus

pub record UserRow : Type 0 where
  pub id : ℕ
  pub realm : Realm
  pub email : Text
  pub password : Text
  pub first_name : Text
  pub last_name : Text
  pub display_name : Option Text
  pub status : UserStatus
  pub is_deleted : Bool

-- `full_name`
unfoldable pub full_name : UserRow → Text
unfolding strip
full_name u = strip (u.first_name ++ b' ' ∷ u.last_name)

-- `User.is_admin`
abbrev pub is_admin : UserRow → Bool
is_admin u = elim u.realm [ admin ↦ true | customer ↦ false ]

-- `User.is_customer`
abbrev pub is_customer : UserRow → Bool
is_customer u = elim u.realm [ admin ↦ false | customer ↦ true ]

-- `User.status == "active"`
abbrev pub is_active : UserRow → Bool
is_active u = elim u.status [ UserStatus.active ↦ true | _ ↦ false ]

-- the users that can be chosen as members: administrators that are active and were not deleted
abbrev pub is_available : UserRow → Bool
is_available u = is_admin u && (is_active u && (elim u.is_deleted [ true ↦ false | false ↦ true ]))

-- `Role.scope`
pub data Scope : Type 0 where
  system unit : Scope

pub record RoleRow : Type 0 where
  pub id : ℕ
  pub name : Text
  pub guard_name : Text
  pub scope : Option Scope
  pub level : Option ℕ

-- `Role.is_scope` for the scope of units
abbrev pub is_unit_scope : RoleRow → Bool
is_unit_scope r = elim r.scope [ some unit ↦ true | _ ↦ false ]
