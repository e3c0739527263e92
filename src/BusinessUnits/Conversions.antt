-- ===== src/BusinessUnits/Conversions.antt =====
-- change_type of business_units_controller.py against the table of allowed conversions.
use yastubo_python.Prelude.{
  ℕ, ◌≤◌, ◌≡◌, ◌⊎◌, inl, inr, refl, Bool, true, false, Option, none, some, List, [], ◌∷◌, length,
  arith, Option-cases,
}
use yastubo_python.Prelude.Action.{ok, err, Result-cases}
use yastubo_python.Units.{
  UnitType, consolidator, office, counter, freelance, BusinessUnit, find_unit,
}
use yastubo_python.BusinessUnits.{Session}
use yastubo_python.BusinessUnits.Hierarchy.{converted_type, change_type}
use yastubo_python.BusinessUnits.Steps.{
  Refuses, edited, converted, find_unit-edited, change_type-ok, change_type-err,
}
use yastubo_python.BusinessUnits.Requests.{Request, post_change_type, handle, run}

-- The conversions, by the type of the unit, its parent, the flag `detach_parent` and the new type. A
-- unit that is converted has no parent.
pub data Converts : Option UnitType → Option ℕ → Bool → UnitType → Type 0 where
  freelance_office : {p : Option ℕ} {d : Bool} → Converts (some freelance) p d office
  counter_office : {p : Option ℕ} {d : Bool} → Converts (some counter) p d office
  office_consolidator : {d : Bool} → Converts (some office) none d consolidator
  office_detached : {p : ℕ} → Converts (some office) (some p) true office

ruleset conversions = (freelance_office, counter_office, office_consolidator, office_detached)

Converts-converted_type :
    {from_type : Option UnitType} {p : Option ℕ} {d : Bool} {t : UnitType}
    → Converts from_type p d t
    → converted_type from_type t d p ≡ ok t
unfolding converted_type
Converts-converted_type freelance_office = refl
Converts-converted_type counter_office = refl
Converts-converted_type office_consolidator = refl
Converts-converted_type office_detached = refl

converted_type-Converts :
    (from_type : Option UnitType) (p : Option ℕ) (d : Bool) (t to_type : UnitType)
    → converted_type from_type t d p ≡ ok to_type
    → (to_type ≡ t) × Converts from_type p d t
unfolding converted_type
converted_type-Converts from_type p d t to_type e = grind (arith, conversions)

-- For a row `u` with the key `k`: a request to change its type is answered exactly if the conversion is
-- allowed. Then the row has the new type and no parent, and the other rows are as before; else the
-- request is refused and the tables are as before.
pub change_type-refines :
    (k : ℕ) (t : UnitType) (d : Bool) (s : Session) (u : BusinessUnit)
    → find_unit k s.units ≡ some u
    → Converts u.type u.parent_id d t
        × (handle (post_change_type k t d) s ≡ edited k (converted t) s)
      ⊎ (¬ (Converts u.type u.parent_id d t))
        × Refuses (change_type k t d) s
        × (handle (post_change_type k t d) s ≡ s)
unfolding handle
change_type-refines k t d s u found = elim (Result-cases (converted_type u.type t d u.parent_id)) [
  | inl (to_type, e) ↦
      let (same, c) = converted_type-Converts u.type u.parent_id d t to_type e in
      inl (c, rw (change_type-ok k t to_type d s u found e, handle) (rw same))
  | inr (e, p) ↦
      let q : change_type k t d s ≡ (err e, s) = change_type-err k t d s u e found p in
      inr (λ c. absurd (cc (rw (Converts-converted_type c) at p)), (e, q), rw (q, handle))
]

handle_change :
    (k : ℕ) (t : UnitType) (d : Bool) (s : Session) (u : BusinessUnit)
    → find_unit k s.units ≡ some u
    → Converts u.type u.parent_id d t
    → find_unit k (handle (post_change_type k t d) s).units ≡ some (converted t u)
unfolding handle
handle_change k t d s u found c =
    rw (change_type-ok k t t d s u found (Converts-converted_type c), handle)
      (find_unit-edited k (converted t) s.units u (λ v. refl) found)

-- some list of at most two requests turns the unit into a consolidator
abbrev pub CanConsolidate : ℕ → Session → Type 0
CanConsolidate k s =
    (rs : List Request) × (v : BusinessUnit) × (length rs ≤ 2)
    × (find_unit k (run rs s).units ≡ some v)
    × (v.type ≡ some consolidator)

from_office :
    (k : ℕ) (d : Bool) (s : Session) (u : BusinessUnit)
    → find_unit k s.units ≡ some u
    → Converts u.type u.parent_id d office
    → CanConsolidate k s
unfolding run
from_office k d s u found c = (
  post_change_type k office d ∷ post_change_type k consolidator false ∷ [],
  converted consolidator u,
  omega arith,
  handle_change k consolidator false (handle (post_change_type k office d) s) (converted office u)
      (handle_change k office d s u found c) office_consolidator,
  refl,
)

-- Every unit with one of the four types, whatever its parent, can be turned into a consolidator by at
-- most two requests to change its type.
pub change_type-CanConsolidate :
    (k : ℕ) (s : Session) (u : BusinessUnit) (kind : UnitType)
    → find_unit k s.units ≡ some u
    → u.type ≡ some kind
    → CanConsolidate k s
unfolding run
change_type-CanConsolidate k s u consolidator found e = ([], u, omega arith, found, e)
change_type-CanConsolidate k s u freelance found e =
    from_office k false s u found (rw e freelance_office)
change_type-CanConsolidate k s u counter found e =
    from_office k false s u found (rw e counter_office)
change_type-CanConsolidate k s u office found e = elim (Option-cases u.parent_id) [
  | inr (p, q) ↦ from_office k true s u found (rw (e, q) office_detached)
  | inl q ↦ (
    post_change_type k consolidator false ∷ [],
    converted consolidator u,
    omega arith,
    handle_change k consolidator false s u found (rw (e, q) office_consolidator),
    refl,
  )
]
