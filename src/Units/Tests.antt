-- ===== src/Units/Tests.antt =====
-- The walk to the root from a unit that is its own ancestor.
use yastubo_python.Prelude.{none, some, [], ◌∷◌}
use yastubo_python.Units.{new_unit, BusinessUnit, ancestor_chain}
use yastubo_python.Units.Ancestors.{IsSettled, ancestor_chain-IsSettled}

abbrev first : BusinessUnit
first = new_unit 1 [] none none (some 2)

abbrev second : BusinessUnit
second = new_unit 2 [] none none (some 1)

ancestor_chain-IsSettled_example : IsSettled (ancestor_chain (first ∷ second ∷ []) first)
ancestor_chain-IsSettled_example = ancestor_chain-IsSettled (first ∷ second ∷ []) first
