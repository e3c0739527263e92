-- ===== src/BusinessUnits/Walk.antt =====
-- The loop of move over the ancestors of the new parent.
use yastubo_python.Prelude.{
  ℕ, zero, suc, ◌+◌, ◌≤◌, ◌≡◌, refl, sym, ◌∙◌, ◌⊎◌, inl, inr, Option, none, some, List, [], ◌∷◌,
  length, member, In, member-In, ◌==◌, Bool-cases, Option-cases, some_injective, ==-true, ==-false,
  arith,
}
use yastubo_python.Prelude.Action.{Result, ok, err}
use yastubo_python.Units.{BusinessUnit, find_unit}
use yastubo_python.Units.Visited.{
  unseen, unseen_start, unseen_visit, IsRow, find_unit-IsRow, find_unit-id,
}
use yastubo_python.BusinessUnits.{HttpError, parent_cycle, invalid_parent}
use yastubo_python.BusinessUnits.Hierarchy.{parent_id_of, walk_up, check_parent}
use yastubo_python.BusinessUnits.Forest.{Climbs, here, up, Climbs-trans}

-- Each visited key has no parent, a visited one, or the one that the walk looks at next.
abbrev IsNext : List BusinessUnit → List ℕ → Option ℕ → ℕ → Type 0
IsNext units visited reached v =
    (parent_id_of units v ≡ reached) ⊎ ((w : ℕ) × (parent_id_of units v ≡ some w) × In w visited)

abbrev IsTrail : List BusinessUnit → ℕ → List ℕ → Option ℕ → Type 0
IsTrail units k visited reached =
    (v : ℕ) → In v visited → (¬ (v ≡ k)) × IsNext units visited reached v

-- what is closed under parents is never left
closed_In :
    (units : List BusinessUnit) (visited : List ℕ) (reached : Option ℕ)
    → ((n : ℕ) → reached ≡ some n → In n visited)
    → ((v : ℕ) → In v visited → IsNext units visited reached v)
    → {v w : ℕ} → In v visited
    → Climbs (parent_id_of units) v w
    → In w visited
closed_In units visited reached next closed i here = i
closed_In units visited reached next closed i (up {b} {c} r e) =
    elim (closed b (closed_In units visited reached next closed i r)) [
      | inl p ↦ next c (sym p ∙ e)
      | inr (w, p, j) ↦ rw (some_injective (sym p ∙ e)) at j
    ]

walk_up_ok :
    (f : ℕ) (units : List BusinessUnit) (k : ℕ) (visited : List ℕ) (reached : Option ℕ)
    → IsTrail units k visited reached
    → walk_up f units k visited reached ≡ ok tt
    → (v : ℕ) → In v visited
    → ¬ (Climbs (parent_id_of units) v k)
unfolding walk_up
walk_up_ok f units k visited none trail e v i c =
    (trail k (closed_In units visited none (λ n p. absurd (cc)) (λ w j. (trail w j).1) i c)).0 refl
walk_up_ok zero units k visited (some n) trail e v i c = absurd (cc)
walk_up_ok (suc f) units k visited (some n) trail e v i c = elim (Bool-cases (n == k)) [
  | inl t ↦ absurd (cc (rw (t, walk_up) at e))
  | inr t ↦ elim (Bool-cases (member n visited)) [
    | inl m ↦
        (trail k (
            closed_In units visited (some n)
              (λ w p. let j : In n visited = member-In n visited m in rw (some_injective p) at j)
              (λ w j. (trail w j).1) i c)).0
          refl
    | inr m ↦
        walk_up_ok f units k (n ∷ visited) (parent_id_of units n)
          (λ w j. elim j [
            | inl p ↦ rw p (==-false n k t, inl refl)
            | inr j' ↦ (
              (trail w j').0,
              elim (trail w j').1 [
                | inl p ↦ inr (n, p, inl refl)
                | inr (x, p, l) ↦ inr (x, p, inr l)
              ],
            )
          ])
          (rw (t, m, walk_up) at e) v (inr i) c
  ]
]

walk_up_cycle :
    (f : ℕ) (units : List BusinessUnit) (k : ℕ) (visited : List ℕ) (reached : Option ℕ)
    → walk_up f units k visited reached ≡ err parent_cycle
    → (n : ℕ) × (reached ≡ some n) × Climbs (parent_id_of units) n k
unfolding walk_up
walk_up_cycle f units k visited none e = absurd (cc)
walk_up_cycle zero units k visited (some n) e = absurd (cc)
walk_up_cycle (suc f) units k visited (some n) e = elim (Bool-cases (n == k)) [
  | inl t ↦ (n, refl, rw (==-true n k t) here)
  | inr t ↦ elim (Bool-cases (member n visited)) [
    | inl m ↦ absurd (cc (rw (t, m, walk_up) at e))
    | inr m ↦
        let (w, p, c) =
          walk_up_cycle f units k (n ∷ visited) (parent_id_of units n) (rw (t, m, walk_up) at e) in
        (n, refl, Climbs-trans (parent_id_of units) (up here p) c)
  ]
]

-- the walk passes, or meets the unit
abbrev Ends : Result HttpError (Unit {0}) → Type 0
Ends r = (r ≡ ok tt) ⊎ (r ≡ err parent_cycle)

found-IsRow :
    (units : List BusinessUnit) (n : ℕ) (u : BusinessUnit)
    → find_unit n units ≡ some u
    → IsRow units n
found-IsRow units n u e =
    let i : IsRow units u.id = find_unit-IsRow units n u e in rw (find_unit-id units n u e) at i

walk_up_end :
    (f : ℕ) (units : List BusinessUnit) (k : ℕ) (visited : List ℕ) (reached : Option ℕ)
    → reached ≡ none
    → Ends (walk_up f units k visited reached)
unfolding walk_up
walk_up_end f units k visited none e = inl refl
walk_up_end f units k visited (some n) e = absurd (cc)

walk_up-Ends :
    (f : ℕ) (units : List BusinessUnit) (k : ℕ) (visited : List ℕ) (reached : Option ℕ)
    → unseen units visited + 1 ≤ f
    → Ends (walk_up f units k visited reached)
unfolding walk_up parent_id_of
walk_up-Ends f units k visited none h = inl refl
walk_up-Ends zero units k visited (some n) h = absurd (omega arith)
walk_up-Ends (suc f) units k visited (some n) h = elim (Bool-cases (n == k)) [
  | inl t ↦ rw (t, walk_up) (inr refl)
  | inr t ↦ elim (Bool-cases (member n visited)) [
    | inl m ↦ rw (t, m, walk_up) (inl refl)
    | inr m ↦ elim (Option-cases (find_unit n units)) [
      | inl none_found ↦
          rw (t, m, walk_up)
            (walk_up_end f units k (n ∷ visited) (parent_id_of units n)
              (rw (none_found, parent_id_of)))
      | inr (u, found) ↦
          rw (t, m, walk_up)
            (walk_up-Ends f units k (n ∷ visited) (parent_id_of units n)
              (omega (arith, unseen_visit units n visited (found-IsRow units n u found) m)))
    ]
  ]
]

-- For a row `p` and a unit `k`: the checks of `move` on the new parent `p` pass exactly if the parents
-- of `p` do not lead to `k`, whatever cycles the table has; else they raise one of the two errors for
-- an invalid parent. They always end.
pub check_parent_iff :
    (units : List BusinessUnit) (k q : ℕ) (p : BusinessUnit)
    → find_unit q units ≡ some p
    → (check_parent units k (some p) ≡ ok tt) × (¬ (Climbs (parent_id_of units) q k))
      ⊎ (check_parent units k (some p) ≡ err invalid_parent) × (q ≡ k)
      ⊎ (check_parent units k (some p) ≡ err parent_cycle)
        × (¬ (q ≡ k))
        × Climbs (parent_id_of units) q k
unfolding check_parent parent_id_of
check_parent_iff units k q p found = elim (Bool-cases (p.id == k)) [
  | inl t ↦ inr (inl (rw t, sym (find_unit-id units q p found) ∙ ==-true p.id k t))
  | inr t ↦
      let key : p.id ≡ q = find_unit-id units q p found in
      let apart : ¬ (q ≡ k) = λ e. ==-false p.id k t (key ∙ e) in
      let above : parent_id_of units q ≡ p.parent_id = rw (found, parent_id_of) in
      let more : length units + 1 ≡ suc (length units) = omega arith in
      rw (t, key)
        (elim (walk_up-Ends (length units + 1) units k (q ∷ []) p.parent_id
          (omega (arith, unseen_start units (q ∷ [])))) [
            | inl e ↦ inl (
              e,
              walk_up_ok (length units + 1) units k (q ∷ []) p.parent_id
                  (λ v i. elim i [ inl s ↦ rw s (apart, inl above) | inr i' ↦ absurd i' ]) e q
                  (inl refl),
            )
            | inr e ↦
                let (n, s, c) = walk_up_cycle (length units + 1) units k (q ∷ []) p.parent_id e in
                inr (inr (e, apart, Climbs-trans (parent_id_of units) (up here (above ∙ s)) c))
          ])
]
