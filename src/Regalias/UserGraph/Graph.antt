-- ===== src/Regalias/UserGraph/Graph.antt =====
-- The relation that the search decides, independent of the code, and its link to `adjacency`.
use yastubo_python.Prelude.{
  ℕ, ◌≡◌, ◌⊎◌, inl, inr, List, [], ◌∷◌, Any, In, member, ◌==◌, Bool-cases, ==-true, ==_refl,
  member-In,
}
use yastubo_python.Regalias.UserGraph.{Edge, add, adjacency}

abbrev pub IsEdge : List Edge → ℕ → ℕ → Type 0
IsEdge rows a b = Any (λ e. (e.from_id ≡ a) × (e.to_id ≡ b)) rows

-- `Reaches rows a b`: a path, perhaps of no edge, leads from `a` to `b`.
pub data Reaches (rows : List Edge) (a : ℕ) : ℕ → Type 0 where
  here : Reaches rows a a
  next : {b c : ℕ} → Reaches rows a b → IsEdge rows b c → Reaches rows a c

pub Reaches-trans :
    (rows : List Edge) {a b c : ℕ} → Reaches rows a b → Reaches rows b c → Reaches rows a c
Reaches-trans rows p here = p
Reaches-trans rows p (next q e) = next (Reaches-trans rows p q) e

-- No edge lies on a cycle.
abbrev pub IsAcyclic : List Edge → Type 0
IsAcyclic rows = (a b : ℕ) → IsEdge rows a b → ¬ (Reaches rows b a)

In-add : (a b : ℕ) (xs : List ℕ) → In a (add b xs) → (a ≡ b) ⊎ In a xs
In-add a b xs h = elim (Bool-cases (member b xs)) [ inl e ↦ inr (rw e at h) | inr e ↦ rw e at h ]

add-In : (a b : ℕ) (xs : List ℕ) → (a ≡ b) ⊎ In a xs → In a (add b xs)
add-In a b xs h = elim (Bool-cases (member b xs)) [
  | inl e ↦ rw e (elim h [ inl p ↦ rw p (member-In b xs e) | inr q ↦ q ])
  | inr e ↦ rw e h
]

pub In-adjacency : (rows : List Edge) (a b : ℕ) → In b (adjacency rows a) → IsEdge rows a b
unfolding adjacency
In-adjacency [] a b h = absurd h
In-adjacency (e ∷ rows) a b h = elim (Bool-cases (e.from_id == a)) [
  | inl t ↦ elim (In-add b e.to_id (adjacency rows a) (rw t at h)) [
    | inl p ↦ inl (==-true e.from_id a t, cc)
    | inr q ↦ inr (In-adjacency rows a b q)
  ]
  | inr f ↦ inr (In-adjacency rows a b (rw f at h))
]

pub adjacency-In : (rows : List Edge) (a b : ℕ) → IsEdge rows a b → In b (adjacency rows a)
unfolding adjacency
adjacency-In [] a b h = absurd h
adjacency-In (e ∷ rows) a b (inl (p, q)) =
    rw (p, ==_refl a) (add-In b e.to_id (adjacency rows a) (inl (cc)))
adjacency-In (e ∷ rows) a b (inr h) = elim (Bool-cases (e.from_id == a)) [
  | inl t ↦ rw t (add-In b e.to_id (adjacency rows a) (inr (adjacency-In rows a b h)))
  | inr f ↦ rw f (adjacency-In rows a b h)
]
