-- ===== src/Permissions/Resolver/Chain.antt =====
-- The loop of _load_ancestor_chain and its fuel.
use yastubo_python.Prelude.{
  ℕ, zero, suc, ◌+◌, ◌≤◌, ◌≡◌, refl, ◌∙◌, inl, inr, Option, none, some, List, [], ◌∷◌, arith,
  member, length, Bool-cases, Option-cases,
}
use yastubo_python.Units.Visited.{unseen, unseen_start, unseen_visit, IsRow, find_unit-IsRow}
use yastubo_python.Units.{BusinessUnit}
use yastubo_python.Permissions.Resolver.{parent_row, collect_ids, rows_of, load_ancestor_chain}

parent_row-IsRow :
    (units : List BusinessUnit) (ids : List ℕ) (parent : Option ℕ) (u : BusinessUnit)
    → parent_row units ids parent ≡ some u
    → IsRow units u.id
unfolding parent_row
parent_row-IsRow units ids none u e = ground arith
parent_row-IsRow units ids (some p) u e = elim (Bool-cases (member p ids)) [
  | inl t ↦ let impossible : none ≡ some u = rw t at e in ground (arith, impossible)
  | inr t ↦ find_unit-IsRow units p u (rw t at e)
]

-- `f` turns are enough for a value of `current`
abbrev Enough : ℕ → List BusinessUnit → Option BusinessUnit → List ℕ → Type 0
Enough f units none ids = 1 ≤ f
Enough f units (some u) ids = IsRow units u.id × (unseen units ids + 1 ≤ f)

Enough-next :
    (f : ℕ) (units : List BusinessUnit) (ids : List ℕ) (parent : Option ℕ)
    → unseen units ids + 1 ≤ f
    → Enough f units (parent_row units ids parent) ids
Enough-next f units ids parent h = elim (Option-cases (parent_row units ids parent)) [
  | inl e ↦ rw e (omega arith)
  | inr (u, e) ↦ rw e (parent_row-IsRow units ids parent u e, h)
]

collect_ids_total :
    (f : ℕ) (units : List BusinessUnit) (current : Option BusinessUnit) (ids : List ℕ)
    → Enough f units current ids
    → (r : List ℕ) × (collect_ids f units current ids ≡ some r)
unfolding collect_ids
collect_ids_total zero units none ids h = ground arith
collect_ids_total zero units (some u) ids (i, h) = ground arith
collect_ids_total (suc f) units none ids h = (ids, refl)
collect_ids_total (suc f) units (some u) ids (i, h) = elim (Bool-cases (member u.id ids)) [
  | inl e ↦ (ids, rw e refl)
  | inr e ↦ rw e (
      collect_ids_total f units (parent_row units (u.id ∷ ids) u.parent_id) (u.id ∷ ids) (
        Enough-next f units (u.id ∷ ids) u.parent_id
          (omega (arith, unseen_visit units u.id ids i e))))
]

collect_ids_total_start :
    (units : List BusinessUnit) (unit : BusinessUnit)
    → (r : List ℕ) × (collect_ids (length units + 2) units (some unit) [] ≡ some r)
unfolding collect_ids
collect_ids_total_start units unit =
    let more : length units + 2 ≡ suc (length units + 1) = omega arith in
    rw more (
      collect_ids_total (length units + 1) units (parent_row units (unit.id ∷ []) unit.parent_id)
        (unit.id ∷ [])
        (Enough-next (length units + 1) units (unit.id ∷ []) unit.parent_id
          (omega (arith, unseen_start units (unit.id ∷ [])))))

or_unit_total :
    (units : List BusinessUnit) (unit : BusinessUnit) (o : Option (List ℕ)) (r : List ℕ)
    → collect_ids (length units + 2) units (some unit) [] ≡ o
    → o ≡ some r
    → (chain : List BusinessUnit) × (load_ancestor_chain units unit ≡ some chain)
unfolding load_ancestor_chain
or_unit_total units unit o [] e p = rw (e ∙ p, load_ancestor_chain) (unit ∷ [], refl)
or_unit_total units unit o (k ∷ ids) e p =
    rw (e ∙ p, load_ancestor_chain) (rows_of units (k ∷ ids), refl)

-- Loading the chain of a unit ends, with a chain, within its fuel of two turns more than there are
-- rows, whatever the parents are.
pub load_ancestor_chain_total :
    (units : List BusinessUnit) (unit : BusinessUnit)
    → (chain : List BusinessUnit) × (load_ancestor_chain units unit ≡ some chain)
load_ancestor_chain_total units unit =
    let (r, e) = collect_ids_total_start units unit in or_unit_total units unit (some r) r e refl
