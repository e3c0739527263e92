-- ===== src/BusinessUnits/Tree.antt =====
-- The invariant of the table of units under the requests of business_units_controller.py.
use yastubo_python.Prelude.{
  ℕ, ◌<◌, ◌≡◌, inl, inr, sym, ◌∙◌, some, List, ◌==◌, Bool-cases, ==-true, ==-false, some_injective,
}
use yastubo_python.Prelude.Action.{ok}
use yastubo_python.Units.{BusinessUnit, find_unit}
use yastubo_python.BusinessUnits.{Session, validate_parent_rules}
use yastubo_python.BusinessUnits.Hierarchy.{parent_id_of}
use yastubo_python.BusinessUnits.Forest.{Climbs, IsForest, IsForest-set}
use yastubo_python.BusinessUnits.Steps.{edited, KeepsId, find_unit-edited, find_unit-elsewhere}

-- a row with the key stands in the table
abbrev pub IsUnit : List BusinessUnit → ℕ → Type 0
IsUnit units k = (u : BusinessUnit) × (find_unit k units ≡ some u)

-- New keys are new, parents are rows, nobody is above a parent of theirs, and consolidators and
-- freelances have no parent while counters have one.
pub record IsTree (s : Session) : Type 0 where
  pub fresh : (k : ℕ) → IsUnit s.units k → k < s.next_unit
  pub linked : (a b : ℕ) → parent_id_of s.units a ≡ some b → IsUnit s.units b
  pub forest : IsForest (parent_id_of s.units)
  pub rules :
      (k : ℕ) (u : BusinessUnit)
      → find_unit k s.units ≡ some u
      → validate_parent_rules u.type u.parent_id ≡ ok tt

pub parent_id_of-found :
    (units : List BusinessUnit) (k : ℕ) (u : BusinessUnit)
    → find_unit k units ≡ some u
    → parent_id_of units k ≡ u.parent_id
unfolding parent_id_of
parent_id_of-found units k u e = rw (e, parent_id_of)

pub parent_id_of-cong :
    (units units' : List BusinessUnit) (k : ℕ)
    → find_unit k units ≡ find_unit k units'
    → parent_id_of units k ≡ parent_id_of units' k
unfolding parent_id_of
parent_id_of-cong units units' k e = rw (e, parent_id_of)

module _ (s : Session) (k : ℕ) (f : BusinessUnit → BusinessUnit) (u : BusinessUnit)
    (tree : IsTree s) (found : find_unit k s.units ≡ some u) (keep : KeepsId f) where
  edited-IsUnit : (b : ℕ) → IsUnit s.units b → IsUnit (edited k f s).units b
  edited-IsUnit b (v, e) = elim (Bool-cases (b == k)) [
    | inl t ↦ (f u, rw (==-true b k t) (find_unit-edited k f s.units u keep found))
    | inr t ↦ (v, find_unit-elsewhere k b f s.units keep (==-false b k t) ∙ e)
  ]

  IsUnit-edited : (b : ℕ) → IsUnit (edited k f s).units b → IsUnit s.units b
  IsUnit-edited b (v, e) = elim (Bool-cases (b == k)) [
    | inl t ↦ (u, rw (==-true b k t) found)
    | inr t ↦ (v, sym (find_unit-elsewhere k b f s.units keep (==-false b k t)) ∙ e)
  ]

  elsewhere : (a : ℕ) → ¬ (a ≡ k) → parent_id_of (edited k f s).units a ≡ parent_id_of s.units a
  elsewhere a h =
      parent_id_of-cong (edited k f s).units s.units a (find_unit-elsewhere k a f s.units keep h)

  at_k : parent_id_of (edited k f s).units k ≡ (f u).parent_id
  at_k = parent_id_of-found (edited k f s).units k (f u) (find_unit-edited k f s.units u keep found)

  pub edited-IsTree :
      validate_parent_rules (f u).type (f u).parent_id ≡ ok tt
      → ((p : ℕ)
          → (f u).parent_id ≡ some p
          → IsUnit s.units p × (¬ (Climbs (parent_id_of s.units) p k)))
      → IsTree (edited k f s)
  edited-IsTree rule above = record {
    fresh = λ a i. tree.fresh a (IsUnit-edited a i);
    linked = λ a b e. edited-IsUnit b (elim (Bool-cases (a == k)) [
      | inl t ↦ (above b (sym at_k ∙ rw (==-true a k t) at e)).0
      | inr t ↦ tree.linked a b (sym (elsewhere a (==-false a k t)) ∙ e)
    ]);
    forest =
        IsForest-set (parent_id_of s.units) (parent_id_of (edited k f s).units) k (f u).parent_id
          at_k elsewhere tree.forest (λ p e. (above p e).1);
    rules = λ a v e. elim (Bool-cases (a == k)) [
      | inl t ↦
          let e' : find_unit k (edited k f s).units ≡ some v = rw (==-true a k t) at e in
          let same : f u ≡ v =
            some_injective (sym (find_unit-edited k f s.units u keep found) ∙ e') in
          rw (← same) rule
      | inr t ↦ tree.rules a v (sym (find_unit-elsewhere k a f s.units keep (==-false a k t)) ∙ e)
    ];
  }
