-- ===== src/Units/Visited.antt =====
-- The rows of the tree of units that a walk has not visited.
use yastubo_python.Prelude.{
  ℕ, ◌+◌, ◌≤◌, ◌≡◌, ap, sym, ◌∙◌, ==-true, false, inl, inr, Option, none, some, List, [], ◌∷◌,
  arith, member, length, ◌==◌, if◌then◌else◌, Any, Bool-cases, ==_refl,
}
use yastubo_python.Units.{BusinessUnit, find_unit}

-- the rows that were not visited
abbrev pub unseen : List BusinessUnit → List ℕ → ℕ
unseen [] ids = 0
unseen (u ∷ units) ids = (if member u.id ids then 0 else 1) + unseen units ids

pub unseen_start : (units : List BusinessUnit) (ids : List ℕ) → unseen units ids ≤ length units
unseen_start [] ids = omega arith
unseen_start (u ∷ units) ids = ground (arith, unseen_start units ids)

unseen_mono :
    (units : List BusinessUnit) (n : ℕ) (ids : List ℕ) → unseen units (n ∷ ids) ≤ unseen units ids
unseen_mono [] n ids = omega arith
unseen_mono (u ∷ units) n ids = ground (arith, unseen_mono units n ids)

abbrev pub IsRow : List BusinessUnit → ℕ → Type 0
IsRow units k = Any (λ u. u.id ≡ k) units

pub unseen_visit :
    (units : List BusinessUnit) (n : ℕ) (ids : List ℕ)
    → IsRow units n
    → member n ids ≡ false
    → unseen units (n ∷ ids) + 1 ≤ unseen units ids
unseen_visit [] n ids h e = absurd h
unseen_visit (u ∷ units) n ids (inl p) e = ground (arith, p, unseen_mono units n ids, ==_refl n)
unseen_visit (u ∷ units) n ids (inr h) e = ground (arith, unseen_visit units n ids h e)

abbrev unit_id_or : ℕ → Option BusinessUnit → ℕ
unit_id_or k none = k
unit_id_or k (some u) = u.id

pub find_unit-IsRow :
    (units : List BusinessUnit) (p : ℕ) (u : BusinessUnit)
    → find_unit p units ≡ some u
    → IsRow units u.id
unfolding find_unit
find_unit-IsRow [] p u e = ground arith
find_unit-IsRow (v ∷ units) p u e = elim (Bool-cases (p == v.id)) [
  | inl t ↦ let same : some v ≡ some u = rw t at e in inl (ap (λ o. unit_id_or v.id o) same)
  | inr t ↦ inr (find_unit-IsRow units p u (rw t at e))
]

pub find_unit-id :
    (units : List BusinessUnit) (p : ℕ) (u : BusinessUnit) → find_unit p units ≡ some u → u.id ≡ p
unfolding find_unit
find_unit-id [] p u e = ground arith
find_unit-id (v ∷ units) p u e = elim (Bool-cases (p == v.id)) [
  | inl t ↦
      let same : some v ≡ some u = rw t at e in
      sym (==-true p v.id t ∙ ap (λ o. unit_id_or v.id o) same)
  | inr t ↦ find_unit-id units p u (rw t at e)
]
