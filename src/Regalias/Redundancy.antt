-- ===== src/Regalias/Redundancy.antt =====
-- The two rules of _would_create_unit_redundancy_cycle.
use yastubo_python.Prelude.{
  ℕ, ◌≡◌, sym, ap, ◌∙◌, Bool, true, false, ◌↔◌, ◌⊎◌, inl, inr, some, List, [], ◌∷◌, any, member,
  Any, Bool-cases, Option-cases,
}
use yastubo_python.Prelude.Action.{Result, ok, err, Result-cases}
use yastubo_python.Units.{BusinessUnit, find_unit, ancestor_chain}
use yastubo_python.Units.Above.{IsOver, Agrees, ancestor_chain-IsOver}
use yastubo_python.Prelude.Rows.{any-Any, Any-any}
use yastubo_python.Regalias.Rules.{RegaliaError, chain_ids, candidate_above, redundant_with}

-- the row of the unit `e` is there, and it is the unit `k` or one below it
abbrev pub IsBelow : List BusinessUnit → List BusinessUnit → ℕ → ℕ → Type 0
IsBelow units loaded k e = (u : BusinessUnit) × (find_unit e units ≡ some u) × IsOver loaded k u

-- the rows of the table are those that the session holds
abbrev pub AllAgree : List BusinessUnit → List BusinessUnit → Type 0
AllAgree units loaded = (e : ℕ) (u : BusinessUnit) → find_unit e units ≡ some u → Agrees loaded u

-- the loop of rule 1 answers true only for a unit that stands above one that is assigned
candidate_above_sound :
    (units loaded : List BusinessUnit) (k : ℕ) (es : List ℕ)
    → AllAgree units loaded
    → candidate_above units loaded k es ≡ ok true
    → Any (λ e. IsBelow units loaded k e) es
unfolding candidate_above
candidate_above_sound units loaded k [] g h = absurd (cc h)
candidate_above_sound units loaded k (e ∷ es) g h = elim (Option-cases (find_unit e units)) [
  | inl p ↦ inr (candidate_above_sound units loaded k es g (rw (p, candidate_above) at h))
  | inr (u, p) ↦ elim (Result-cases (ancestor_chain loaded u)) [
    | inr (x, q) ↦ absurd (cc (rw (p, q, candidate_above) at h))
    | inl (chain, q) ↦ elim (Bool-cases (member k (chain_ids chain))) [
      | inl m ↦ inl (u, p, (ancestor_chain-IsOver loaded k u chain (g e u p) q).0 m)
      | inr m ↦ inr (candidate_above_sound units loaded k es g (rw (p, q, m, candidate_above) at h))
    ]
  ]
]

-- and answers false only if it stands above none of those that have a row
abbrev pub IsBelowNone : List BusinessUnit → List BusinessUnit → ℕ → List ℕ → Type 0
IsBelowNone units loaded k es = ¬ (Any (λ e. IsBelow units loaded k e) es)

candidate_above_complete :
    (units loaded : List BusinessUnit) (k : ℕ) (es : List ℕ)
    → AllAgree units loaded
    → candidate_above units loaded k es ≡ ok false
    → IsBelowNone units loaded k es
unfolding candidate_above
candidate_above_complete units loaded k [] g h a = absurd a
candidate_above_complete units loaded k (e ∷ es) g h (inl (u, p, o)) =
    elim (Result-cases (ancestor_chain loaded u)) [
      | inr (x, q) ↦ absurd (cc (rw (p, q, candidate_above) at h))
      | inl (chain, q) ↦
          let m : member k (chain_ids chain) ≡ true =
            (ancestor_chain-IsOver loaded k u chain (g e u p) q).1 o in
          absurd (cc (rw (p, q, m, candidate_above) at h))
    ]
candidate_above_complete units loaded k (e ∷ es) g h (inr a) =
    elim (Option-cases (find_unit e units)) [
      | inl p ↦ candidate_above_complete units loaded k es g (rw (p, candidate_above) at h) a
      | inr (u, p) ↦ elim (Result-cases (ancestor_chain loaded u)) [
        | inr (x, q) ↦ absurd (cc (rw (p, q, candidate_above) at h))
        | inl (chain, q) ↦ elim (Bool-cases (member k (chain_ids chain))) [
          | inl m ↦ absurd (cc (rw (p, q, m, candidate_above) at h))
          | inr m ↦
              candidate_above_complete units loaded k es g (rw (p, q, m, candidate_above) at h) a
        ]
      ]
    ]

bool_of : Result RegaliaError Bool → Bool
bool_of (ok b) = b
bool_of (err e) = false

-- Where the rows of the table are those of the session and the check answers, it answers true exactly if
-- a unit that is assigned already is the candidate or below it, or the candidate is such a unit or below
-- it, by the parents of the rows.
pub redundant_with_iff :
    (units loaded : List BusinessUnit) (es : List ℕ) (k : ℕ) (c : BusinessUnit) (b : Bool)
    → AllAgree units loaded
    → Agrees loaded c
    → redundant_with units loaded es k c ≡ ok b
    → (b ≡ true) ↔ (Any (IsBelow units loaded k) es ⊎ Any (λ e. IsOver loaded e c) es)
unfolding redundant_with bool_of
redundant_with_iff units loaded es k c b g a h = elim (Result-cases (ancestor_chain loaded c)) [
  | inr (x, q) ↦ absurd (cc (rw (q, redundant_with) at h))
  | inl (chain, q) ↦ elim (Result-cases (candidate_above units loaded k es)) [
    | inr (x, r) ↦ absurd (cc (rw (q, r, redundant_with) at h))
    | inl (true, r) ↦
        let same : ok true ≡ ok b = rw (q, r, redundant_with) at h in
        ((λ _. inl (candidate_above_sound units loaded k es g r)), (λ _. sym (ap bool_of same)))
    | inl (false, r) ↦
        let same : ok (any (λ e. member e (chain_ids chain)) es) ≡ ok b =
          rw (q, r, redundant_with) at h in
        let over : (e : ℕ) → (member e (chain_ids chain) ≡ true) ↔ IsOver loaded e c =
          λ e. ancestor_chain-IsOver loaded e c chain a q in
        (
          (λ t. inr (
              any-Any (λ e. member e (chain_ids chain)) (λ e. IsOver loaded e c) (λ e. (over e).0)
                (λ e. (over e).1) es (ap bool_of same ∙ t))),
          (λ o. elim o [
            | inl above ↦ absurd (candidate_above_complete units loaded k es g r above)
            | inr below ↦
                sym (ap bool_of same)
                ∙ Any-any (λ e. member e (chain_ids chain)) (λ e. IsOver loaded e c)
                    (λ e. (over e).0) (λ e. (over e).1) es below
          ]),
        )
  ]
]
