-- ===== src/BusinessUnits/Crud.antt =====
-- The handlers of business_units_controller.py that create, show and edit single units.
use yastubo_python.Prelude.{
  ℕ, ◌+◌, Bool, true, false, Option, none, some, [], ◌∷◌, ◌++◌, Text, strip, if◌then◌else◌,
}
use yastubo_python.Prelude.Action.{ok, err, ◌>>=◌, ◌>>◌, pure, lift, raise_if}
use yastubo_python.Units.{UnitType, freelance, UnitStatus, BusinessUnit, new_unit, find_unit}
use yastubo_python.BusinessUnits.{
  Handler, unit_not_found, parent_not_found, branding_not_allowed, get_unit, Loaded, UnitOut,
  unit_out, UnitDetailOut, unit_detail_out, validate_parent_rules, set_unit,
}

-- The query for the parent of a request, which raises when there is no such row.
unfoldable pub find_new_parent : Option ℕ → Handler (Option BusinessUnit)
find_new_parent none s = (ok none, s)
find_new_parent (some p) s = elim (find_unit p s.units) [
  | none ↦ (err parent_not_found, s)
  | some u ↦ (ok (some u), s)
]

-- `db.add(unit)` and the flush, which gives the key
unfoldable pub insert_unit : Text → UnitType → Option ℕ → Handler ℕ
insert_unit name kind parent_id s = (
  ok s.next_unit,
  record s {
    units =
        s.units ++ new_unit s.next_unit name (some kind) (some UnitStatus.active) parent_id ∷ [];
    next_unit = s.next_unit + 1;
  },
)

unfoldable pub store : Text → UnitType → Option ℕ → Handler UnitOut
unfolding strip
store name kind parent_id = do
  lift (validate_parent_rules (some kind) parent_id)
  find_new_parent parent_id
  unit_id ← insert_unit (strip name) kind parent_id
  unit ← get_unit unit_id
  pure (unit_out unit)

unfoldable pub show : ℕ → Handler UnitDetailOut
show unit_id = do unit ← get_unit unit_id; pure (unit_detail_out unit)

-- The second `_get_unit` of a handler: the row is read again, its relations are not.
unfoldable pub reload : ℕ → Loaded → Handler Loaded
reload unit_id unit s = elim (find_unit unit_id s.units) [
  | none ↦ (err unit_not_found, s)
  | some u ↦ (ok (record unit { row = u }), s)
]

-- an assignment to the unit, the commit and the answer
unfoldable pub commit_unit : ℕ → (BusinessUnit → BusinessUnit) → Loaded → Handler Loaded
commit_unit unit_id f unit = do set_unit unit_id f; reload unit_id unit

unfoldable pub update_basic : ℕ → Text → Handler UnitOut
unfolding strip
update_basic unit_id name = do
  unit ← get_unit unit_id
  unit' ← commit_unit unit_id (λ u. record u { name = strip name }) unit
  pure (unit_out unit')

unfoldable pub update_status : ℕ → UnitStatus → Handler UnitOut
update_status unit_id status = do
  unit ← get_unit unit_id
  unit' ← commit_unit unit_id (λ u. record u { status = some status }) unit
  pure (unit_out unit')

-- `UpdateBrandingRequest`
pub record Branding : Type 0 where
  pub text_dark : Option Text
  pub bg_light : Option Text
  pub text_light : Option Text
  pub bg_dark : Option Text
  pub remove_logo : Bool

-- `value.strip() or None`
abbrev pub text_or_none : Text → Option Text
text_or_none [] = none
text_or_none (c ∷ t) = some (c ∷ t)

unfoldable pub clean : Option Text → Option Text
unfolding strip
clean none = none
clean (some t) = text_or_none (strip t)

unfoldable pub set_branding : Branding → BusinessUnit → BusinessUnit
unfolding clean
set_branding b u = record u {
  branding_text_dark = clean b.text_dark;
  branding_bg_light = clean b.bg_light;
  branding_text_light = clean b.text_light;
  branding_bg_dark = clean b.bg_dark;
  branding_logo_file_id = if b.remove_logo then none else u.branding_logo_file_id;
}

abbrev pub is_freelance : BusinessUnit → Bool
is_freelance u = elim u.type [ some freelance ↦ true | _ ↦ false ]

unfoldable pub update_branding : ℕ → Branding → Handler UnitDetailOut
update_branding unit_id b = do
  unit ← get_unit unit_id
  raise_if (is_freelance unit.row) branding_not_allowed
  unit' ← commit_unit unit_id (set_branding b) unit
  pure (unit_detail_out unit')
