-- ===== src/Units.antt =====
-- The tree of business units, common/models/business_unit.py.
pub mod Visited
pub mod Ancestors
pub mod Above
mod Tests
use yastubo_python.Prelude.{
  ℕ, zero, suc, ◌+◌, true, false, Option, none, some, List, [], ◌∷◌, map, length, member, ◌==◌,
  if◌then◌else◌, Text,
}
use yastubo_python.Prelude.Action.{Result, ok, err}

-- the values of `type` that a request can carry
pub data UnitType : Type 0 where
  consolidator office counter freelance : UnitType

pub data UnitStatus : Type 0 where
  active inactive : UnitStatus

-- A row. A `type` or `status` that no request can write stands as `none`.
pub record BusinessUnit : Type 0 where
  pub id : ℕ
  pub parent_id : Option ℕ
  pub name : Text
  pub type : Option UnitType
  pub status : Option UnitStatus
  pub branding_logo_file_id : Option ℕ
  pub branding_bg_light : Option Text
  pub branding_bg_dark : Option Text
  pub branding_text_light : Option Text
  pub branding_text_dark : Option Text

-- `BusinessUnit()` with a key, a name, a type, a status and a parent
abbrev pub new_unit : ℕ → Text → Option UnitType → Option UnitStatus → Option ℕ → BusinessUnit
new_unit key title kind state parent = record {
  id = key;
  parent_id = parent;
  name = title;
  type = kind;
  status = state;
  branding_logo_file_id = none;
  branding_bg_light = none;
  branding_bg_dark = none;
  branding_text_light = none;
  branding_text_dark = none;
}

-- a lookup by primary key
unfoldable pub find_unit : ℕ → List BusinessUnit → Option BusinessUnit
find_unit k [] = none
find_unit k (u ∷ us) = if k == u.id then some u else find_unit k us

-- What `ancestor_chain` raises: an attribute whose row is not in the session cannot be loaded
-- outside of an awaited call. `out_of_fuel` is the model's own.
pub data ChainError : Type 0 where
  missing_greenlet out_of_fuel : ChainError

-- `node.parent`, over the rows that the session holds
unfoldable pub parent_of : List BusinessUnit → Option ℕ → Result ChainError (Option BusinessUnit)
unfolding find_unit
parent_of loaded none = ok none
parent_of loaded (some p) = elim (find_unit p loaded) [
  | none ↦ err missing_greenlet
  | some u ↦ ok (some u)
]

-- the `while` loop of `ancestor_chain`; the set of visited ids is that of the chain
unfoldable pub chain_from :
    ℕ → List BusinessUnit → BusinessUnit → List BusinessUnit → Result ChainError (List BusinessUnit)
chain_from zero loaded node chain = err out_of_fuel
chain_from (suc f) loaded node chain = elim (member node.id (map (λ u. u.id) chain)) [
  | true ↦ ok chain
  | false ↦ elim (parent_of loaded node.parent_id) [
    | err e ↦ err e
    | ok none ↦ ok (node ∷ chain)
    | ok (some p) ↦ chain_from f loaded p (node ∷ chain)
  ]
]

-- `ancestor_chain`, root first
unfoldable pub ancestor_chain :
    List BusinessUnit → BusinessUnit → Result ChainError (List BusinessUnit)
ancestor_chain loaded node = chain_from (length loaded + 2) loaded node []
