-- ===== src/BusinessUnits/Steps.antt =====
-- How the handlers of business_units_controller.py that edit a unit end: with an error that leaves
-- the tables alone, or with one row written.
use yastubo_python.Prelude.{
  ℕ, ◌≡◌, ◌⊎◌, inl, inr, refl, Bool, true, false, Option, none, some, List, [], ◌∷◌, ◌==◌, sym, ap,
  ◌∙◌, update_where, Bool-cases, Option-cases, ==-true, arith, some_injective,
}
use yastubo_python.Prelude.Action.{ok, err, Result-cases}
use yastubo_python.Units.{UnitType, BusinessUnit, find_unit}
use yastubo_python.Units.Visited.{find_unit-id}
use yastubo_python.BusinessUnits.{
  Session, Handler, HttpError, Loaded, unit_not_found, parent_not_found, find_parent, load,
  get_unit, set_unit, unit_out, validate_parent_rules,
}
use yastubo_python.BusinessUnits.Crud.{reload, commit_unit, find_new_parent}
use yastubo_python.BusinessUnits.Hierarchy.{converted_type, change_type, check_parent, id_of, move}

-- the handler raises, and the tables are as before
abbrev pub Refuses : {A : Type 0} → Handler A → Session → Type 0
Refuses m s = (e : HttpError) × (m s ≡ (err e, s))

-- the tables after an edit of one unit
abbrev pub edited : ℕ → (BusinessUnit → BusinessUnit) → Session → Session
edited k f s = record s { units = update_where (λ u. u.id == k) f s.units }

-- An edit keeps the key.
abbrev pub KeepsId : (BusinessUnit → BusinessUnit) → Type 0
KeepsId f = (u : BusinessUnit) → (f u).id ≡ u.id

find_unit-here :
    (k : ℕ) (v : BusinessUnit) (units : List BusinessUnit)
    → v.id ≡ k
    → find_unit k (v ∷ units) ≡ some v
unfolding find_unit
find_unit-here k v units e = let t : (k == v.id) ≡ true = ground arith in rw t

pub find_unit-edited :
    (k : ℕ) (f : BusinessUnit → BusinessUnit) (units : List BusinessUnit) (u : BusinessUnit)
    → KeepsId f
    → find_unit k units ≡ some u
    → find_unit k (update_where (λ v. v.id == k) f units) ≡ some (f u)
unfolding find_unit
find_unit-edited k f [] u keep e = absurd (cc)
find_unit-edited k f (v ∷ units) u keep e = elim (Bool-cases (v.id == k)) [
  | inl t ↦
      let key : v.id ≡ k = ==-true v.id k t in
      let same : v ≡ u = some_injective (sym (find_unit-here k v units key) ∙ e) in
      rw t (
        find_unit-here k (f v) (update_where (λ v. v.id == k) f units) (keep v ∙ key)
        ∙ ap (λ w. some (f w)) same)
  | inr t ↦
      let other : (k == v.id) ≡ false = ground arith in
      rw t (rw other (find_unit-edited k f units u keep (rw other at e)))
]

pub find_unit-elsewhere :
    (k a : ℕ) (f : BusinessUnit → BusinessUnit) (units : List BusinessUnit)
    → KeepsId f
    → ¬ (a ≡ k)
    → find_unit a (update_where (λ v. v.id == k) f units) ≡ find_unit a units
unfolding find_unit
find_unit-elsewhere k a f [] keep h = refl
find_unit-elsewhere k a f (v ∷ units) keep h = elim (Bool-cases (v.id == k)) [
  | inl t ↦
      let other : (a == v.id) ≡ false = ground arith in
      rw (t, keep v, other) (find_unit-elsewhere k a f units keep h)
  | inr t ↦ rw t (rw (find_unit-elsewhere k a f units keep h))
]

pub commit_unit_lem :
    (k : ℕ) (f : BusinessUnit → BusinessUnit) (l : Loaded) (s : Session) (u : BusinessUnit)
    → KeepsId f
    → find_unit k s.units ≡ some u
    → commit_unit k f l s ≡ (ok (record l { row = f u }), edited k f s)
unfolding commit_unit set_unit reload
commit_unit_lem k f l s u keep e = rw (find_unit-edited k f s.units u keep e, reload)

pub get_unit-cases :
    (k : ℕ) (s : Session)
    → Refuses (get_unit k) s
      ⊎ ((u : BusinessUnit) × (find_unit k s.units ≡ some u) × (get_unit k s ≡ (ok (load s u), s)))
unfolding get_unit
get_unit-cases k s = elim (Option-cases (find_unit k s.units)) [
  | inl e ↦ rw (e, get_unit) (inl (unit_not_found, refl))
  | inr (u, e) ↦ inr (u, e, rw (e, get_unit))
]

abbrev pub converted : UnitType → BusinessUnit → BusinessUnit
converted to_type u = record u { type = some to_type; parent_id = none }

pub converted_type-rules :
    (from_type : Option UnitType) (t to_type : UnitType) (d : Bool) (p : Option ℕ)
    → converted_type from_type t d p ≡ ok to_type
    → validate_parent_rules (some to_type) none ≡ ok tt
unfolding converted_type validate_parent_rules
converted_type-rules from_type t to_type d p e = ground arith

pub change_type-ok :
    (k : ℕ) (t to_type : UnitType) (d : Bool) (s : Session) (u : BusinessUnit)
    → find_unit k s.units ≡ some u
    → converted_type u.type t d u.parent_id ≡ ok to_type
    → change_type k t d s ≡ (
      ok (unit_out (record (load s u) { row = converted to_type u })),
      edited k (converted to_type) s,
    )
unfolding change_type load get_unit
change_type-ok k t to_type d s u found c =
    rw (found, get_unit, load)
      (rw c (
        rw (converted_type-rules u.type t to_type d u.parent_id c)
          (rw (commit_unit_lem k (converted to_type) (load s u) s u (λ v. refl) found))))

pub change_type-err :
    (k : ℕ) (t : UnitType) (d : Bool) (s : Session) (u : BusinessUnit) (e : HttpError)
    → find_unit k s.units ≡ some u
    → converted_type u.type t d u.parent_id ≡ err e
    → change_type k t d s ≡ (err e, s)
unfolding change_type load get_unit
change_type-err k t d s u e found c = rw (found, get_unit, load) (rw c)

pub change_type-cases :
    (k : ℕ) (t : UnitType) (d : Bool) (s : Session)
    → Refuses (change_type k t d) s
      ⊎ ((u : BusinessUnit) × (to_type : UnitType) × (find_unit k s.units ≡ some u)
          × (converted_type u.type t d u.parent_id ≡ ok to_type)
          × (change_type k t d s ≡ (
            ok (unit_out (record (load s u) { row = converted to_type u })),
            edited k (converted to_type) s,
          )))
unfolding change_type
change_type-cases k t d s = elim (get_unit-cases k s) [
  | inl (e, p) ↦ inl (e, rw p)
  | inr (u, found, p) ↦ elim (Result-cases (converted_type u.type t d u.parent_id)) [
    | inr (e, q) ↦ inl (e, change_type-err k t d s u e found q)
    | inl (to_type, q) ↦ inr (u, to_type, found, q, change_type-ok k t to_type d s u found q)
  ]
]

pub find_new_parent-cases :
    (p : Option ℕ) (s : Session)
    → Refuses (find_new_parent p) s
      ⊎ ((o : Option BusinessUnit) × (find_new_parent p s ≡ (ok o, s))
          × (o ≡ find_parent p s.units)
          × (id_of o ≡ p))
unfolding find_new_parent
find_new_parent-cases none s = inr (none, refl, refl, refl)
find_new_parent-cases (some p) s = elim (Option-cases (find_unit p s.units)) [
  | inl e ↦ rw (e, find_new_parent) (inl (parent_not_found, refl))
  | inr (u, e) ↦ inr (some u, rw (e, find_new_parent), sym e, ap some (find_unit-id s.units p u e))
]

abbrev pub moved : Option ℕ → BusinessUnit → BusinessUnit
moved p u = record u { parent_id = p }

-- `move` writes the parent of the unit alone, after every check passed, or raises and changes nothing.
pub move-cases :
    (k : ℕ) (p : Option ℕ) (s : Session)
    → Refuses (move k p) s
      ⊎ ((u : BusinessUnit) × (find_unit k s.units ≡ some u)
          × (id_of (find_parent p s.units) ≡ p)
          × (validate_parent_rules u.type p ≡ ok tt)
          × (check_parent s.units k (find_parent p s.units) ≡ ok tt)
          × (move k p s
              ≡ (ok (unit_out (record (load s u) { row = moved p u })), edited k (moved p) s)))
unfolding move load
move-cases k p s = elim (get_unit-cases k s) [
  | inl (e, q) ↦ inl (e, rw q)
  | inr (u, found, q) ↦ elim (find_new_parent-cases p s) [
    | inl (e, r) ↦ inl (e, rw q (rw r))
    | inr (o, r, same, key) ↦ elim (Result-cases (validate_parent_rules u.type p)) [
      | inr (e, v) ↦ inl (e, rw q (rw r (rw v)))
      | inl (_, v) ↦ elim (Result-cases (check_parent s.units k o)) [
        | inr (e, c) ↦ inl (e, rw q (rw r (rw v (rw c))))
        | inl (_, c) ↦ inr (
          u,
          found,
          rw (← same) key,
          v,
          rw (← same) c,
          rw q (
              rw r (
                rw v (
                  rw c
                    (rw key (rw (commit_unit_lem k (moved p) (load s u) s u (λ v. refl) found)))))),
        )
      ]
    ]
  ]
]
