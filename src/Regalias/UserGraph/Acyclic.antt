-- ===== src/Regalias/UserGraph/Acyclic.antt =====
-- _would_create_user_cycle and the cycles of the graph of users.
use yastubo_python.Prelude.{
  ℕ, ◌≡◌, refl, Bool, true, false, ◌↔◌, ◌⊎◌, inl, inr, some, List, [], ◌∷◌, ◌==◌, Bool-cases,
  ==-true,
}
use yastubo_python.Regalias.UserGraph.{Edge, would_create_user_cycle}
use yastubo_python.Regalias.UserGraph.Graph.{Reaches, here, next, Reaches-trans, IsAcyclic}
use yastubo_python.Regalias.UserGraph.Search.{search_sound, search_complete}
use yastubo_python.Regalias.UserGraph.Fuel.{search_total_start}

-- The check always answers.
pub would_create_user_cycle_total :
    (rows : List Edge) (b s : ℕ) → (r : Bool) × (would_create_user_cycle rows b s ≡ some r)
unfolding would_create_user_cycle
would_create_user_cycle_total rows b s = elim (Bool-cases (b == s)) [
  | inl e ↦ (true, rw e)
  | inr e ↦ rw e (search_total_start rows b s)
]

pub cycle_sound :
    (rows : List Edge) (b s : ℕ) → would_create_user_cycle rows b s ≡ some true → Reaches rows s b
unfolding would_create_user_cycle
cycle_sound rows b s h = elim (Bool-cases (b == s)) [
  | inl e ↦ rw (==-true b s e) here
  | inr e ↦
      search_sound rows s b _ (s ∷ []) (s ∷ [])
        (λ n i. elim i [ inl p ↦ rw p here | inr k ↦ absurd k ]) (rw e at h)
]

pub cycle_complete :
    (rows : List Edge) (b s : ℕ)
    → would_create_user_cycle rows b s ≡ some false
    → ¬ (Reaches rows s b)
unfolding would_create_user_cycle
cycle_complete rows b s h = elim (Bool-cases (b == s)) [
  | inl e ↦ absurd (cc (rw e at h))
  | inr e ↦ search_complete rows s b _ (s ∷ []) (s ∷ []) (λ v i. inl i) (inl refl) (rw e at h)
]

-- The check answers `true` exactly when a path of existing relations leads from the source to the
-- beneficiary.
pub would_create_user_cycle_iff :
    (rows : List Edge) (b s : ℕ) → (would_create_user_cycle rows b s ≡ some true) ↔ Reaches rows s b
would_create_user_cycle_iff rows b s = (
  cycle_sound rows b s,
  λ p.
      let (r, e) = would_create_user_cycle_total rows b s in
      elim (Bool-cases r) [
        | inl t ↦ rw t at e
        | inr f ↦ absurd (cycle_complete rows b s (rw f at e) p)
      ],
)

-- a path over one more relation is a path without it, or passes it
Reaches-split :
    (rows : List Edge) (b s : ℕ) {u v : ℕ}
    → Reaches (record { from_id = b; to_id = s } ∷ rows) u v
    → Reaches rows u v ⊎ (Reaches rows u b × Reaches rows s v)
Reaches-split rows b s here = inl here
Reaches-split rows b s {u} (next p (inl (x, y))) = elim (Reaches-split rows b s p) [
  | inl q ↦ inr (rw x q, rw y here)
  | inr (q, r) ↦ inr (q, rw y here)
]
Reaches-split rows b s (next p (inr e)) = elim (Reaches-split rows b s p) [
  | inl q ↦ inl (next q e)
  | inr (q, r) ↦ inr (q, next r e)
]

-- A relation that passes the check keeps the graph acyclic.
pub would_create_user_cycle-IsAcyclic :
    (rows : List Edge) (b s : ℕ)
    → IsAcyclic rows
    → would_create_user_cycle rows b s ≡ some false
    → IsAcyclic (record { from_id = b; to_id = s } ∷ rows)
would_create_user_cycle-IsAcyclic rows b s a h x y (inl (p, q)) r =
    elim (Reaches-split rows b s r) [
      | inl k ↦ cycle_complete rows b s h (rw (p, q) k)
      | inr (k, _) ↦ cycle_complete rows b s h (rw q k)
    ]
would_create_user_cycle-IsAcyclic rows b s a h x y (inr e) r = elim (Reaches-split rows b s r) [
  | inl k ↦ a x y e k
  | inr (k, l) ↦ cycle_complete rows b s h (Reaches-trans rows (next l e) k)
]
