-- ===== src/BusinessUnits/Forest.antt =====
-- Hierarchies given by a parent for each key, independent of the code of
-- business_units_controller.py.
use yastubo_python.Prelude.{
  ℕ, ◌≡◌, ◌⊎◌, inl, inr, Option, some, ◌==◌, Bool-cases, ==-true, ==-false, sym, ◌∙◌,
}

-- `Climbs P a b`: from `a` the parents lead to `b`, perhaps in no step.
pub data Climbs (P : ℕ → Option ℕ) (a : ℕ) : ℕ → Type 0 where
  here : Climbs P a a
  up : {b c : ℕ} → Climbs P a b → P b ≡ some c → Climbs P a c

pub Climbs-trans : (P : ℕ → Option ℕ) {a b c : ℕ} → Climbs P a b → Climbs P b c → Climbs P a c
Climbs-trans P p here = p
Climbs-trans P p (up q e) = up (Climbs-trans P p q) e

-- Nobody is above a parent of theirs.
abbrev pub IsForest : (ℕ → Option ℕ) → Type 0
IsForest P = (a b : ℕ) → P a ≡ some b → ¬ (Climbs P b a)

module _ (P Q : ℕ → Option ℕ) (k : ℕ) (q : Option ℕ) (at_k : Q k ≡ q)
    (elsewhere : (a : ℕ) → ¬ (a ≡ k) → Q a ≡ P a) where
  -- a way after the change is a way before it, or passes the new edge
  Climbs-split :
      {x y : ℕ}
      → Climbs Q x y
      → Climbs P x y ⊎ ((p : ℕ) × (q ≡ some p) × Climbs P x k × Climbs P p y)
  Climbs-split here = inl here
  Climbs-split {x} {y} (up {b} r e) = elim (Bool-cases (b == k)) [
    | inl t ↦
        let same : b ≡ k = ==-true b k t in
        let new : q ≡ some y = sym at_k ∙ rw same at e in
        elim (Climbs-split r) [
          | inl c ↦ inr (y, new, rw same at c, here)
          | inr (_, _, c, _) ↦ inr (y, new, c, here)
        ]
    | inr f ↦
        let old : P b ≡ some y = sym (elsewhere b (==-false b k f)) ∙ e in
        elim (Climbs-split r) [
          | inl c ↦ inl (up c old)
          | inr (p, n, c, d) ↦ inr (p, n, c, up d old)
        ]
  ]

  -- A parent that is not below `k` keeps the hierarchy free of cycles.
  pub IsForest-set : IsForest P → ((p : ℕ) → q ≡ some p → ¬ (Climbs P p k)) → IsForest Q
  IsForest-set forest below a b e c = elim (Bool-cases (a == k)) [
    | inl t ↦
        let same : a ≡ k = ==-true a k t in
        let new : q ≡ some b = sym at_k ∙ rw same at e in
        elim (Climbs-split c) [
          | inl d ↦ below b new (rw same at d)
          | inr (_, _, d, _) ↦ below b new d
        ]
    | inr f ↦
        let old : P a ≡ some b = sym (elsewhere a (==-false a k f)) ∙ e in
        elim (Climbs-split c) [
          | inl d ↦ forest a b old d
          | inr (p, n, d, g) ↦ below p n (Climbs-trans P (up g old) d)
        ]
  ]
