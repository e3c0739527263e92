-- ===== src/BusinessUnits/Inserts.antt =====
-- What store of business_units_controller.py appends, and the handlers that edit no link of the tree.
use yastubo_python.Prelude.{
  ℕ, ◌+◌, ◌≡◌, ◌⊎◌, inl, inr, refl, Option, none, some, List, [], ◌∷◌, ◌++◌, ◌==◌, if◌then◌else◌,
  Bool-cases, ==_refl, Text, strip,
}
use yastubo_python.Prelude.Action.{ok, Result-cases}
use yastubo_python.Units.{UnitType, UnitStatus, BusinessUnit, new_unit, find_unit}
use yastubo_python.BusinessUnits.{
  Session, Handler, branding_not_allowed, find_parent, load, get_unit, unit_out,
  validate_parent_rules,
}
use yastubo_python.BusinessUnits.Crud.{
  insert_unit, store, update_basic, update_status, Branding, set_branding, is_freelance,
  update_branding,
}
use yastubo_python.BusinessUnits.Hierarchy.{id_of}
use yastubo_python.BusinessUnits.Steps.{
  Refuses, edited, KeepsId, commit_unit_lem, get_unit-cases, find_new_parent-cases,
}

pub find_unit-old :
    (k : ℕ) (units : List BusinessUnit) (u v : BusinessUnit)
    → find_unit k units ≡ some u
    → find_unit k (units ++ v ∷ []) ≡ some u
unfolding find_unit
find_unit-old k [] u v e = absurd (cc)
find_unit-old k (w ∷ units) u v e = elim (Bool-cases (k == w.id)) [
  | inl t ↦ rw t (rw t at e)
  | inr t ↦ rw t (find_unit-old k units u v (rw t at e))
]

pub find_unit-new :
    (k : ℕ) (units : List BusinessUnit) (v : BusinessUnit)
    → find_unit k units ≡ none
    → find_unit k (units ++ v ∷ []) ≡ (if k == v.id then some v else none)
unfolding find_unit
find_unit-new k [] v e = refl
find_unit-new k (w ∷ units) v e = elim (Bool-cases (k == w.id)) [
  | inl t ↦ absurd (cc (rw t at e))
  | inr t ↦ rw t (find_unit-new k units v (rw t at e))
]

abbrev pub stored : Text → UnitType → Option ℕ → Session → BusinessUnit
stored name kind p s = new_unit s.next_unit (strip name) (some kind) (some UnitStatus.active) p

abbrev pub appended : Text → UnitType → Option ℕ → Session → Session
appended name kind p s = record s {
  units = s.units ++ stored name kind p s ∷ [];
  next_unit = s.next_unit + 1;
}

-- If no row has the next key: `store` appends the new row, after the rules and the parent were
-- checked, and answers with it; or it raises and changes nothing.
pub store-cases :
    (name : Text) (kind : UnitType) (p : Option ℕ) (s : Session)
    → find_unit s.next_unit s.units ≡ none
    → Refuses (store name kind p) s
      ⊎ ((id_of (find_parent p s.units) ≡ p)
          × (validate_parent_rules (some kind) p ≡ ok tt)
          × (store name kind p s ≡ (
            ok (unit_out (load (appended name kind p s) (stored name kind p s))),
            appended name kind p s,
          )))
unfolding store insert_unit load get_unit
store-cases name kind p s fresh = elim (Result-cases (validate_parent_rules (some kind) p)) [
  | inr (e, v) ↦ inl (e, rw v)
  | inl (_, v) ↦ elim (find_new_parent-cases p s) [
    | inl (e, q) ↦ inl (e, rw v (rw q))
    | inr (o, q, same, key) ↦ inr (
      rw (← same) key,
      v,
      rw v (
          rw q (
            rw (
              find_unit-new s.next_unit s.units (stored name kind p s) fresh,
              ==_refl s.next_unit,
              get_unit,
              load,
            ))),
    )
  ]
]

-- An edit that keeps the key, the type and the parent.
pub record KeepsLinks (f : BusinessUnit → BusinessUnit) : Type 0 where
  pub id : KeepsId f
  pub type : (u : BusinessUnit) → (f u).type ≡ u.type
  pub parent_id : (u : BusinessUnit) → (f u).parent_id ≡ u.parent_id

-- The handler raises, or it edits a row and none of its links.
abbrev pub EditsRow : {A : Type 0} → Handler A → ℕ → Session → Type 0
EditsRow m k s =
    Refuses m s
    ⊎ ((f : BusinessUnit → BusinessUnit) × (u : BusinessUnit) × (find_unit k s.units ≡ some u)
        × KeepsLinks f
        × ((m s).1 ≡ edited k f s))

pub update_basic-cases : (k : ℕ) (name : Text) (s : Session) → EditsRow (update_basic k name) k s
unfolding update_basic
update_basic-cases k name s = elim (get_unit-cases k s) [
  | inl (e, q) ↦ inl (e, rw q)
  | inr (u, found, q) ↦
      let f = λ (v : BusinessUnit). record v { name = strip name } in
      inr (
        f,
        u,
        found,
        record { id = λ v. refl; type = λ v. refl; parent_id = λ v. refl },
        rw q (rw (commit_unit_lem k f (load s u) s u (λ v. refl) found)),
      )
]

pub update_status-cases :
    (k : ℕ) (status : UnitStatus) (s : Session) → EditsRow (update_status k status) k s
unfolding update_status
update_status-cases k status s = elim (get_unit-cases k s) [
  | inl (e, q) ↦ inl (e, rw q)
  | inr (u, found, q) ↦
      let f = λ (v : BusinessUnit). record v { status = some status } in
      inr (
        f,
        u,
        found,
        record { id = λ v. refl; type = λ v. refl; parent_id = λ v. refl },
        rw q (rw (commit_unit_lem k f (load s u) s u (λ v. refl) found)),
      )
]

pub update_branding-cases :
    (k : ℕ) (b : Branding) (s : Session) → EditsRow (update_branding k b) k s
unfolding update_branding load set_branding
update_branding-cases k b s = elim (get_unit-cases k s) [
  | inl (e, q) ↦ inl (e, rw q)
  | inr (u, found, q) ↦ elim (Bool-cases (is_freelance u)) [
    | inl t ↦ inl (branding_not_allowed, rw q (rw t))
    | inr t ↦ inr (
      set_branding b,
      u,
      found,
      record { id = λ v. refl; type = λ v. refl; parent_id = λ v. refl },
      rw q (rw t (rw (commit_unit_lem k (set_branding b) (load s u) s u (λ v. refl) found))),
    )
  ]
]
