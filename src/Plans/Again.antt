-- ===== src/Plans/Again.antt =====
-- pv_store of coverages_controller.py, asked twice.
use yastubo_python.Prelude.{
  ℕ, ◌+◌, ◌≡◌, refl, ap, ◌⊎◌, inl, inr, Bool, true, false, List, [], ◌∷◌, ◌++◌, any, select, ◌==◌,
  ==_refl, Bool-cases, arith,
}
use yastubo_python.Prelude.Action.{Result, ok, err}
use yastubo_python.Prelude.Rows.{AreDistinct}
use yastubo_python.Plans.{PlanVersionRow, PlanVersionCoverage, Session, HttpError, get_version}
use yastubo_python.Plans.Coverages.{
  pv_coverage_out, is_pair, max_order, new_coverage, insert_coverage, found_or_insert, pv_store,
}
use yastubo_python.Plans.Active.{get_version_still}
use yastubo_python.Plans.Covered.{same_pair}

abbrev pub is_answered : {A : Type 0} → Result HttpError A → Bool
is_answered (ok a) = true
is_answered (err e) = false

none_left :
    (k c : ℕ) (x : PlanVersionCoverage) (xs : List PlanVersionCoverage)
    → is_pair k c x ≡ true
    → any (same_pair x) xs ≡ false
    → select (is_pair k c) xs ≡ []
none_left k c x [] e h = refl
none_left k c x (y ∷ ys) e h = elim (Bool-cases (same_pair x y)) [
  | inl t ↦ absurd (cc (rw t at h))
  | inr t ↦
      let other : is_pair k c y ≡ false = ground (arith, e, t) in
      rw other (none_left k c x ys e (rw t at h))
]

pair_once :
    (k c : ℕ) (xs : List PlanVersionCoverage)
    → AreDistinct same_pair xs
    → (select (is_pair k c) xs ≡ [])
      ⊎ ((x : PlanVersionCoverage) × (select (is_pair k c) xs ≡ x ∷ []))
pair_once k c [] d = inl refl
pair_once k c (x ∷ xs) d = elim (Bool-cases (is_pair k c x)) [
  | inl t ↦ rw t (inr (x, ap (λ l. x ∷ l) (none_left k c x xs t d.0)))
  | inr t ↦ rw t (pair_once k c xs d.1)
]

select_appended :
    (k c : ℕ) (x : PlanVersionCoverage) (xs : List PlanVersionCoverage)
    → is_pair k c x ≡ true
    → select (is_pair k c) xs ≡ []
    → select (is_pair k c) (xs ++ x ∷ []) ≡ x ∷ []
select_appended k c x [] e h = rw e refl
select_appended k c x (y ∷ ys) e h = elim (Bool-cases (is_pair k c y)) [
  | inl t ↦ absurd (cc (rw t at h))
  | inr t ↦ rw t (select_appended k c x ys e (rw t at h))
]

-- If the version of the product is found, the coverage is there and no version has a coverage twice, then
-- `pv_store` is answered, and a second request is answered alike and writes nothing.
pub pv_store_again :
    (p k c : ℕ) (s : Session) (v : PlanVersionRow)
    → get_version p k s ≡ (ok v, s)
    → any (λ x. x.id == c) s.coverages ≡ true
    → AreDistinct same_pair s.plan_version_coverages
    → let (r, s') = pv_store p k c s in (is_answered r ≡ true) × (pv_store p k c s' ≡ (r, s'))
unfolding pv_store found_or_insert insert_coverage pv_coverage_out
pv_store_again p k c s v found there d =
    let order = max_order (select (λ x. x.plan_version_id == k) s.plan_version_coverages) + 1 in
    let x = new_coverage s.next_coverage k c order in
    let s' : Session = record s {
      plan_version_coverages = s.plan_version_coverages ++ x ∷ [];
      next_coverage = s.next_coverage + 1;
    } in
    elim (pair_once k c s.plan_version_coverages d) [
      | inl e ↦
          rw (found, e, there)
            (
              refl,
              rw
                  (
                    get_version_still p k s s' v refl found,
                    select_appended k c x s.plan_version_coverages (rw (==_refl k, ==_refl c) refl)
                        e,
                  )
                  refl,
            )
      | inr (y, e) ↦ rw (found, e) (refl, rw (found, e) refl)
    ]
