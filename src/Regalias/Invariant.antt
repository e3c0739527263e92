-- ===== src/Regalias/Invariant.antt =====
-- What create_regalia and update_commission of regalias_service.py do to the table of royalties.
use yastubo_python.Prelude.{
  ℕ, ◌≡◌, refl, Bool, true, false, Option, none, some, List, [], ◌∷◌, any, arith, ◌==◌, All,
  Bool-cases, update_where, ◌⊎◌, inl, inr, Option-cases, ap, ◌∙◌,
}
use yastubo_python.Prelude.Action.{ok, err, raise_if, Result-cases}
use yastubo_python.Prelude.Rows.{AreDistinct}
use yastubo_python.Prelude.Int.{ℤ, pos, ◌≤ℤ◌}
use yastubo_python.Regalias.UserGraph.{would_create_user_cycle}
use yastubo_python.Regalias.UserGraph.Graph.{IsAcyclic}
use yastubo_python.Regalias.UserGraph.Acyclic.{
  would_create_user_cycle_total, would_create_user_cycle-IsAcyclic,
}
use yastubo_python.Regalias.Rules.{
  SourceType, user, unit, Regalia, fuel_exhausted, user_rows, would_create_unit_redundancy_cycle,
  clamp_commission, full, RegaliaError, user_cycle, unit_redundancy, source_type_not_supported,
}
use yastubo_python.Regalias.{
  Session, Service, check_source, check_duplicate, check_cycles, is_same, insert_regalia,
  create_regalia, update_commission,
}

-- A check returns or raises, and leaves the tables alone.
abbrev pub Passes : Service (Unit {0}) → Session → Type 0
Passes m s = m s ≡ (ok tt, s)

abbrev pub Fails : {A : Type 0} → Service A → Session → Type 0
Fails m s = (e : RegaliaError) × (m s ≡ (err e, s))

raise_if-cases :
    (c : Bool) (e : RegaliaError) (s : Session) → Passes (raise_if c e) s ⊎ Fails (raise_if c e) s
raise_if-cases true e s = inr (e, refl)
raise_if-cases false e s = inl refl

check_source-cases :
    (t : SourceType) (k : ℕ) (s : Session)
    → Passes (check_source t k) s ⊎ Fails (check_source t k) s
unfolding check_source
check_source-cases user k s = raise_if-cases _ _ s
check_source-cases unit k s = raise_if-cases _ _ s
check_source-cases (SourceType.other t) k s = inr (source_type_not_supported, refl)

check_duplicate-cases :
    (b : ℕ) (t : SourceType) (k : ℕ) (s : Session)
    → Passes (check_duplicate b t k) s ⊎ Fails (check_duplicate b t k) s
unfolding check_duplicate
check_duplicate-cases b t k s = raise_if-cases _ _ s

check_cycles-cases :
    (b : ℕ) (t : SourceType) (k : ℕ) (s : Session)
    → Passes (check_cycles b t k) s ⊎ Fails (check_cycles b t k) s
unfolding check_cycles
check_cycles-cases b user k s =
    elim (Option-cases (would_create_user_cycle (user_rows s.regalias) b k)) [
      | inl e ↦ rw (e, check_cycles) (inr (fuel_exhausted, refl))
      | inr (c, e) ↦ rw (e, check_cycles) (raise_if-cases c user_cycle s)
    ]
check_cycles-cases b unit k s =
    elim (Result-cases (would_create_unit_redundancy_cycle s.units s.regalias b k)) [
      | inl (c, e) ↦ rw (e, check_cycles) (raise_if-cases c unit_redundancy s)
      | inr (c, e) ↦ rw (e, check_cycles) (inr (c, refl))
    ]
check_cycles-cases b (SourceType.other t) k s = inl refl

-- A call passes every check and inserts the row, or raises and leaves the tables alone.
pub create_regalia-cases :
    (b : ℕ) (t : SourceType) (k : ℕ) (s : Session)
    → (create_regalia b t k s ≡ insert_regalia b t k s)
        × Passes (check_source t k) s
        × Passes (check_duplicate b t k) s
        × Passes (check_cycles b t k) s
      ⊎ Fails (create_regalia b t k) s
unfolding create_regalia
create_regalia-cases b t k s = elim (check_source-cases t k s) [
  | inr (e, p) ↦ inr (e, rw p)
  | inl p ↦ elim (check_duplicate-cases b t k s) [
    | inr (e, q) ↦ inr (e, rw p (rw q))
    | inl q ↦ elim (check_cycles-cases b t k s) [
      | inr (e, r) ↦ inr (e, rw p (rw q (rw r)))
      | inl r ↦ inl (rw p (rw q (rw r)), p, q, r)
    ]
  ]
]

-- No two rows give one beneficiary one source twice.
abbrev pub is_twin : Regalia → Regalia → Bool
is_twin r = is_same r.beneficiary_user_id r.source_type r.source_id

abbrev pub IsUnique : List Regalia → Type 0
IsUnique = AreDistinct is_twin

duplicate_free :
    (b : ℕ) (t : SourceType) (k : ℕ) (s : Session)
    → Passes (check_duplicate b t k) s
    → any (is_same b t k) s.regalias ≡ false
unfolding check_duplicate
duplicate_free b t k s p = elim (Bool-cases (any (is_same b t k) s.regalias)) [
  | inl e ↦ absurd (cc (rw e at p))
  | inr e ↦ e
]

-- Creating a royalty keeps the table free of duplicates, whether the call returns or raises.
pub create_regalia-IsUnique :
    (b : ℕ) (t : SourceType) (k : ℕ) (s : Session)
    → IsUnique s.regalias
    → IsUnique (create_regalia b t k s).1.regalias
create_regalia-IsUnique b t k s h = elim (create_regalia-cases b t k s) [
  | inl (e, _, d, _) ↦ rw e (duplicate_free b t k s d, h)
  | inr (_, e) ↦ rw e h
]

cycle_free :
    (b k : ℕ) (s : Session)
    → Passes (check_cycles b user k) s
    → would_create_user_cycle (user_rows s.regalias) b k ≡ some false
unfolding check_cycles
cycle_free b k s p =
    let (r, e) = would_create_user_cycle_total (user_rows s.regalias) b k in
    elim (Bool-cases r) [
      | inl t ↦ absurd (cc (rw (e, t, check_cycles) at p))
      | inr f ↦ e ∙ ap some f
    ]

insert-IsAcyclic :
    (b : ℕ) (t : SourceType) (k : ℕ) (s : Session)
    → Passes (check_cycles b t k) s
    → IsAcyclic (user_rows s.regalias)
    → IsAcyclic (user_rows (insert_regalia b t k s).1.regalias)
unfolding user_rows
insert-IsAcyclic b user k s p h =
    would_create_user_cycle-IsAcyclic (user_rows s.regalias) b k h (cycle_free b k s p)
insert-IsAcyclic b unit k s p h = h
insert-IsAcyclic b (SourceType.other t) k s p h = h

-- Creating a royalty keeps the relations between users free of cycles, whether the call returns or
-- raises.
pub create_regalia-IsAcyclic :
    (b : ℕ) (t : SourceType) (k : ℕ) (s : Session)
    → IsAcyclic (user_rows s.regalias)
    → IsAcyclic (user_rows (create_regalia b t k s).1.regalias)
create_regalia-IsAcyclic b t k s h = elim (create_regalia-cases b t k s) [
  | inl (e, _, _, c) ↦ rw e (insert-IsAcyclic b t k s c h)
  | inr (_, e) ↦ rw e h
]

-- The commission lies between 0 and 100 percent.
abbrev pub IsPercent : ℤ → Type 0
IsPercent c = (pos 0 ≤ℤ c) × (c ≤ℤ full)

clamp_commission_bounds : (c : Option ℤ) → IsPercent (clamp_commission c)
unfolding clamp_commission
clamp_commission_bounds c = ground arith

-- A commission that is set is a percentage.
abbrev pub IsPercentOrNone : Option ℤ → Type 0
IsPercentOrNone none = Unit
IsPercentOrNone (some c) = IsPercent c

abbrev pub ArePercents : List Regalia → Type 0
ArePercents = All (λ r. IsPercentOrNone r.commission)

-- If every commission of the table that is set lies between 0 and 100 percent, so does
-- every one after a commission is updated, whatever value is given or none.
pub update_commission-ArePercents :
    (regalia_id : ℕ) (c : Option ℤ) (s : Session)
    → ArePercents s.regalias
    → ArePercents (update_commission regalia_id c s).1.regalias
unfolding update_commission
update_commission-ArePercents regalia_id c s h = go s.regalias h
  where
    go :
        (rs : List Regalia)
        → ArePercents rs
        → ArePercents (
            update_where
              (λ r. r.id == regalia_id)
              (λ r. record r { commission = some (clamp_commission c) })
              rs)
    go [] h = tt
    go (r ∷ rs) h = elim (Bool-cases (r.id == regalia_id)) [
      | inl e ↦ rw e (clamp_commission_bounds c, go rs h.1)
      | inr e ↦ rw e (h.0, go rs h.1)
    ]
