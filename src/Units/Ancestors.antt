-- ===== src/Units/Ancestors.antt =====
-- The loop of ancestor_chain and its fuel.
use yastubo_python.Prelude.{
  ℕ, zero, suc, ◌+◌, ◌≤◌, ◌≡◌, refl, ◌⊎◌, inl, inr, Option, none, some, List, [], ◌∷◌, map, arith,
  member, length, Bool-cases, Option-cases,
}
use yastubo_python.Prelude.Action.{Result, ok, err}
use yastubo_python.Units.{
  BusinessUnit, find_unit, ChainError, missing_greenlet, parent_of, chain_from, ancestor_chain,
}
use yastubo_python.Units.Visited.{unseen, unseen_start, unseen_visit, IsRow, find_unit-IsRow}

-- the walk returned, or a parent was not loaded
abbrev pub IsSettled : Result ChainError (List BusinessUnit) → Type 0
IsSettled r = ((chain : List BusinessUnit) × (r ≡ ok chain)) ⊎ (r ≡ err missing_greenlet)

parent_of-cases :
    (loaded : List BusinessUnit) (p : Option ℕ)
    → (parent_of loaded p ≡ err missing_greenlet)
      ⊎ ((parent_of loaded p ≡ ok none)
          ⊎ ((u : BusinessUnit) × (parent_of loaded p ≡ ok (some u)) × IsRow loaded u.id))
unfolding parent_of
parent_of-cases loaded none = inr (inl refl)
parent_of-cases loaded (some p) = elim (Option-cases (find_unit p loaded)) [
  | inl e ↦ rw (e, parent_of) (inl refl)
  | inr (u, e) ↦ rw (e, parent_of) (inr (inr (u, refl, find_unit-IsRow loaded p u e)))
]

abbrev ids : List BusinessUnit → List ℕ
ids = map (λ u. u.id)

chain_from-IsSettled :
    (f : ℕ) (loaded : List BusinessUnit) (node : BusinessUnit) (chain : List BusinessUnit)
    → IsRow loaded node.id
    → unseen loaded (ids chain) + 1 ≤ f
    → IsSettled (chain_from f loaded node chain)
unfolding chain_from
chain_from-IsSettled zero loaded node chain i h = ground arith
chain_from-IsSettled (suc f) loaded node chain i h =
    elim (Bool-cases (member node.id (ids chain))) [
      | inl e ↦ rw (e, chain_from) (inl (chain, refl))
      | inr e ↦ elim (parent_of-cases loaded node.parent_id) [
        | inl p ↦ rw (e, p, chain_from) ((inr refl))
        | inr (inl p) ↦ rw (e, p, chain_from) ((inl (node ∷ chain, refl)))
        | inr (inr (u, p, j)) ↦
            rw (e, p, chain_from)
              ((chain_from-IsSettled f loaded u (node ∷ chain) j
                (omega (arith, unseen_visit loaded node.id (ids chain) i e))))
      ]
    ]

-- For any rows and any unit, cycles of parents included, the walk to the root ends with a chain or
-- with the error of a parent that is not loaded; it never runs out of its fuel, which is two turns more
-- than there are loaded rows.
pub ancestor_chain-IsSettled :
    (loaded : List BusinessUnit) (node : BusinessUnit) → IsSettled (ancestor_chain loaded node)
unfolding ancestor_chain chain_from
ancestor_chain-IsSettled loaded node =
    let more : length loaded + 2 ≡ suc (length loaded + 1) = omega arith in
    elim (parent_of-cases loaded node.parent_id) [
      | inl p ↦ rw more (rw (p, chain_from) (inr refl))
      | inr (inl p) ↦ rw more (rw (p, chain_from) (inl (node ∷ [], refl)))
      | inr (inr (u, p, j)) ↦ rw more (
          rw (p, chain_from)
            (chain_from-IsSettled (length loaded + 1) loaded u (node ∷ []) j
              (omega (arith, unseen_start loaded (node.id ∷ [])))))
    ]
