-- ===== src/BusinessUnits/Hierarchy.antt =====
-- change_type and move of business_units_controller.py.
use yastubo_python.Prelude.{
  ℕ, zero, suc, ◌+◌, Bool, true, false, Option, none, some, List, [], ◌∷◌, length, member, ◌==◌,
  is_some, if◌then◌else◌,
}
use yastubo_python.Prelude.Action.{Result, ok, err, ◌>>=◌, ◌>>◌, pure, lift, gets}
use yastubo_python.Units.{
  UnitType, consolidator, office, counter, freelance, BusinessUnit, find_unit,
}
use yastubo_python.BusinessUnits.{
  Handler, HttpError, only_root_office, already_independent, conversion_not_allowed, invalid_parent,
  parent_cycle, out_of_fuel, get_unit, UnitOut, unit_out, validate_parent_rules,
}
use yastubo_python.BusinessUnits.Crud.{find_new_parent, commit_unit}

-- The new type; the new parent is always none.
unfoldable pub converted_type :
    Option UnitType → UnitType → Bool → Option ℕ → Result HttpError UnitType
converted_type (some freelance) office detach parent_id = ok office
converted_type (some office) consolidator detach parent_id =
    if is_some parent_id then err only_root_office else ok consolidator
converted_type (some office) office true parent_id =
    if is_some parent_id then ok office else err already_independent
converted_type (some counter) office detach parent_id = ok office
converted_type _ _ _ _ = err conversion_not_allowed

unfoldable pub change_type : ℕ → UnitType → Bool → Handler UnitOut
change_type unit_id target_type detach_parent = do
  unit ← get_unit unit_id
  to_type ← lift (converted_type unit.row.type target_type detach_parent unit.row.parent_id)
  lift (validate_parent_rules (some to_type) none)
  unit' ← commit_unit unit_id (λ u. record u { type = some to_type; parent_id = none }) unit
  pure (unit_out unit')

-- `SELECT parent_id … WHERE id`; a missing row ends the walk like a missing parent
unfoldable pub parent_id_of : List BusinessUnit → ℕ → Option ℕ
parent_id_of units k = elim (find_unit k units) [ none ↦ none | some u ↦ u.parent_id ]

-- the loop of `move` over the ancestors of the new parent
unfoldable pub walk_up : ℕ → List BusinessUnit → ℕ → List ℕ → Option ℕ → Result HttpError (Unit {0})
unfolding parent_id_of
walk_up f units unit_id visited none = ok tt
walk_up zero units unit_id visited (some n) = err out_of_fuel
walk_up (suc f) units unit_id visited (some n) = elim (n == unit_id) [
  | true ↦ err parent_cycle
  | false ↦ elim (member n visited) [
    | true ↦ ok tt
    | false ↦ walk_up f units unit_id (n ∷ visited) (parent_id_of units n)
  ]
]

-- the checks of `move` on the new parent
unfoldable pub check_parent :
    List BusinessUnit → ℕ → Option BusinessUnit → Result HttpError (Unit {0})
check_parent units unit_id none = ok tt
check_parent units unit_id (some p) =
    if p.id == unit_id
    then err invalid_parent
    else walk_up (length units + 1) units unit_id (p.id ∷ []) p.parent_id

abbrev pub id_of : Option BusinessUnit → Option ℕ
id_of none = none
id_of (some u) = some u.id

unfoldable pub move : ℕ → Option ℕ → Handler UnitOut
move unit_id parent_id = do
  unit ← get_unit unit_id
  new_parent ← find_new_parent parent_id
  lift (validate_parent_rules unit.row.type parent_id)
  units ← gets (λ s. s.units)
  lift (check_parent units unit_id new_parent)
  unit' ← commit_unit unit_id (λ u. record u { parent_id = id_of new_parent }) unit
  pure (unit_out unit')
