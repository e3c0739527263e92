-- ===== src/BusinessUnits.antt =====
-- The controller of business units, services/capitados/app/controllers/business_units_controller.py:
-- the tables, the errors and the helpers of its handlers.
pub mod Users
pub mod Listing
pub mod Crud
pub mod Hierarchy
pub mod Forest
pub mod Walk
pub mod Steps
pub mod Inserts
pub mod Requests
pub mod Tree
pub mod Invariant
pub mod Conversions
pub mod Paging
pub mod Members
pub mod Commissions
pub mod Reading
pub mod Register
mod Tests
use yastubo_python.Prelude.{
  ℕ, Bool, false, Option, none, some, List, [], ◌∷◌, length, select, ◌==◌, leb, if◌then◌else◌,
  update_where, Text,
}
use yastubo_python.Prelude.Action.{Result, ok, err, Action}
use yastubo_python.Units.{
  UnitType, consolidator, counter, freelance, UnitStatus, BusinessUnit, find_unit,
}
use yastubo_python.Regalias.Rules.{Regalia}
use Users.{UserRow, RoleRow}

-- a row of `memberships_business_unit`
pub record BusinessUnitMembership : Type 0 where
  pub id : ℕ
  pub business_unit_id : ℕ
  pub user_id : ℕ
  pub role_id : Option ℕ
  pub status : Option UnitStatus

-- the tables, with the keys that the next inserts get
pub record Session : Type 0 where
  pub units : List BusinessUnit
  pub memberships : List BusinessUnitMembership
  pub users : List UserRow
  pub roles : List RoleRow
  pub regalias : List Regalia
  pub next_unit : ℕ
  pub next_membership : ℕ
  pub next_user : ℕ
  pub next_regalia : ℕ

-- What a handler raises: an `HTTPException` for each text of its detail, and what the session raises
-- itself. `out_of_fuel` is the model's own.
pub data HttpError : Type 0 where
  unit_not_found parent_not_found : HttpError
  consolidator_with_parent freelance_with_parent counter_without_parent : HttpError
  only_root_office already_independent conversion_not_allowed : HttpError
  invalid_parent parent_cycle branding_not_allowed : HttpError
  user_not_found already_member user_creation_not_allowed invalid_role : HttpError
  email_taken missing_names membership_not_found : HttpError
  already_has_commission commission_not_found : HttpError
  integrity_error data_error multiple_results out_of_fuel : HttpError

abbrev pub Handler : Type 0 → Type 0
Handler A = Action Session HttpError A

-- `scalar_one_or_none()`
abbrev pub scalar_one_or_none : {A : Type 0} → List A → Handler (Option A)
scalar_one_or_none [] s = (ok none, s)
scalar_one_or_none (x ∷ []) s = (ok (some x), s)
scalar_one_or_none (x ∷ y ∷ xs) s = (err multiple_results, s)

-- What the session keeps of a unit: the row with its relations as they were when they were loaded.
-- Neither a commit nor a later query loads a relation again.
pub record Loaded : Type 0 where
  pub row : BusinessUnit
  pub parent : Option BusinessUnit
  pub memberships : List BusinessUnitMembership
  pub children : List BusinessUnit

abbrev pub is_child_of : ℕ → BusinessUnit → Bool
is_child_of k u = elim u.parent_id [ none ↦ false | some p ↦ p == k ]

-- the row that a foreign key names
abbrev pub find_parent : Option ℕ → List BusinessUnit → Option BusinessUnit
find_parent none units = none
find_parent (some p) units = find_unit p units

-- the three `selectinload` options
unfoldable pub load : Session → BusinessUnit → Loaded
load s u = record {
  row = u;
  parent = find_parent u.parent_id s.units;
  memberships = select (λ m. m.business_unit_id == u.id) s.memberships;
  children = select (is_child_of u.id) s.units;
}

-- `_get_unit`
unfoldable pub get_unit : ℕ → Handler Loaded
get_unit unit_id s = elim (find_unit unit_id s.units) [
  | none ↦ (err unit_not_found, s)
  | some u ↦ (ok (load s u), s)
]

-- `UnitOut`
pub record UnitOut : Type 0 where
  pub id : ℕ
  pub name : Text
  pub type : Option UnitType
  pub status : Option UnitStatus
  pub parent_id : Option ℕ
  pub parent_name : Option Text
  pub members_count : ℕ
  pub children_count : ℕ

abbrev pub name_of : Option BusinessUnit → Option Text
name_of none = none
name_of (some u) = some u.name

-- `_unit_out`
unfoldable pub unit_out : Loaded → UnitOut
unit_out u = record {
  id = u.row.id;
  name = u.row.name;
  type = u.row.type;
  status = u.row.status;
  parent_id = u.row.parent_id;
  parent_name = name_of u.parent;
  members_count = length u.memberships;
  children_count = length u.children;
}

-- `UnitDetailOut`: the columns of the row with the two counts
pub record UnitDetailOut : Type 0 where
  pub row : BusinessUnit
  pub members_count : ℕ
  pub children_count : ℕ

-- `_unit_detail_out`
unfoldable pub unit_detail_out : Loaded → UnitDetailOut
unit_detail_out u = record {
  row = u.row;
  members_count = length u.memberships;
  children_count = length u.children;
}

-- `_validate_parent_rules`
unfoldable pub validate_parent_rules : Option UnitType → Option ℕ → Result HttpError (Unit {0})
validate_parent_rules (some consolidator) (some p) = err consolidator_with_parent
validate_parent_rules (some freelance) (some p) = err freelance_with_parent
validate_parent_rules (some counter) none = err counter_without_parent
validate_parent_rules _ _ = ok tt

-- the assignment to attributes of the unit with a key
unfoldable pub set_unit : ℕ → (BusinessUnit → BusinessUnit) → Handler (Unit {0})
set_unit unit_id f s = (ok tt, record s { units = update_where (λ u. u.id == unit_id) f s.units })
