-- ===== src/Plans/Covered.antt =====
-- The coverages of versions under the requests of plan_versions_controller.py, and of
-- coverages_controller.py on versions.
use yastubo_python.Prelude.{
  ℕ, ◌+◌, ◌≡◌, refl, inl, inr, Bool, true, false, ◌&&◌, not, some, List, [], ◌∷◌, any, select,
  update_where, All, ◌==◌, Bool-cases, arith,
}
use yastubo_python.Prelude.Action.{raise_if, ◌>>=◌}
use yastubo_python.Prelude.Database.{Returns, Returns-read, Returns-bind}
use yastubo_python.Prelude.Rows.{
  AreDistinct, AreDistinct-append, AreDistinct-select, AreDistinct-update, All-append, All-select,
  All-update,
}
use yastubo_python.Plans.{
  PlanVersionRow, PlanVersionCoverage, Session, HttpError, Handler, get_version, data_error,
}
use yastubo_python.Plans.Coverages.{
  find_coverage, max_order, new_coverage, is_pair, insert_coverage, found_or_insert, pv_store,
  is_coverage_row, pv_destroy, place, pv_reorder, ValueRequest, set_value, is_value,
  pv_update_value,
}
use yastubo_python.Plans.Active.{get_version-is_key, Reads-get_version, Reads-find_coverage}

abbrev pub same_pair : PlanVersionCoverage → PlanVersionCoverage → Bool
same_pair x y = x.plan_version_id == y.plan_version_id && x.coverage_id == y.coverage_id

abbrev pub is_key_of : ℕ → PlanVersionRow → Bool
is_key_of k v = v.id == k

-- No version has a coverage twice, and every coverage of a version names a version that is there.
pub record IsCoverTable (s : Session) : Type 0 where
  pub pairs : AreDistinct same_pair s.plan_version_coverages
  pub named :
      All (λ x. any (is_key_of x.plan_version_id) s.versions ≡ true) s.plan_version_coverages

abbrev pub Covers : {A : Type 0} → A → Session → Type 0
Covers a s = IsCoverTable s

pub Covers-raise_if :
    {A : Type 0} (b : Bool) (e : HttpError) (f : Unit {0} → Handler A) (s : Session)
    → Returns Covers (f tt s)
    → Returns Covers ((raise_if b e >>= f) s)
Covers-raise_if true e f s h = tt
Covers-raise_if false e f s h = h

no_pair :
    (x : PlanVersionCoverage) (xs : List PlanVersionCoverage)
    → select (is_pair x.plan_version_id x.coverage_id) xs ≡ []
    → any (same_pair x) xs ≡ false
no_pair x [] e = refl
no_pair x (y ∷ ys) e = elim (Bool-cases (is_pair x.plan_version_id x.coverage_id y)) [
  | inl t ↦ absurd (cc (rw t at e))
  | inr t ↦
      let other : same_pair x y ≡ false = ground (arith, t) in rw (other, no_pair x ys (rw t at e))
]

same_pair_comm : (x y : PlanVersionCoverage) → same_pair x y ≡ same_pair y x
same_pair_comm x y = ground arith

-- a change of rows that keeps the pairs
change_coverages :
    (q : PlanVersionCoverage → Bool) (f : PlanVersionCoverage → PlanVersionCoverage) (s : Session)
    → ((x : PlanVersionCoverage) → (f x).plan_version_id ≡ x.plan_version_id)
    → ((x : PlanVersionCoverage) → (f x).coverage_id ≡ x.coverage_id)
    → IsCoverTable s
    → IsCoverTable (record s { plan_version_coverages = update_where q f s.plan_version_coverages })
change_coverages q f s v c i = record {
  pairs =
      AreDistinct-update same_pair q f s.plan_version_coverages (λ x y. rw (v y, c y))
        (λ x y. rw (v x, c x)) i.pairs;
  named =
      All-update (λ x. any (is_key_of x.plan_version_id) s.versions ≡ true) q f
        s.plan_version_coverages (λ x h. rw (v x) h) i.named;
}

place-IsCoverTable :
    (k n : ℕ) (js : List ℕ) (s : Session)
    → IsCoverTable s
    → IsCoverTable (record s { plan_version_coverages = place k n js s.plan_version_coverages })
unfolding place
place-IsCoverTable k n [] s i = i
place-IsCoverTable k n (j ∷ js) s i = place-IsCoverTable k (n + 1) js _ (
    change_coverages (is_coverage_row k j) (λ x. record x { sort_order = some (n + 1) }) s
      (λ x. refl) (λ x. refl) i)

module _ (p k : ℕ) (s : Session) (i : IsCoverTable s) where
  abbrev appended : ℕ → PlanVersionCoverage
  appended c =
      new_coverage s.next_coverage k c
        (max_order (select (λ x. x.plan_version_id == k) s.plan_version_coverages) + 1)

  found_or_insert-Covers :
      (c : ℕ) (rows : List PlanVersionCoverage)
      → select (is_pair k c) s.plan_version_coverages ≡ rows
      → any (is_key_of k) s.versions ≡ true
      → Returns Covers (found_or_insert k c rows s)
  unfolding found_or_insert insert_coverage
  found_or_insert-Covers c [] e h = elim (Bool-cases (any (λ x. x.id == c) s.coverages)) [
    | inl t ↦
        rw (t, found_or_insert)
          record {
            pairs =
                AreDistinct-append same_pair same_pair_comm s.plan_version_coverages (appended c)
                  (no_pair (appended c) s.plan_version_coverages e) i.pairs;
            named = All-append _ s.plan_version_coverages (appended c) i.named h;
          }
    | inr t ↦ rw (t, found_or_insert) tt
  ]
  found_or_insert-Covers c (x ∷ []) e h = i
  found_or_insert-Covers c (x ∷ y ∷ ys) e h = tt

  pub pv_store-Covers : (c : ℕ) → Returns Covers (pv_store p k c s)
  unfolding pv_store
  pv_store-Covers c = Returns-read Covers (get_version p k) _ s (Reads-get_version p k) λ v e.
      let rows = select (is_pair k c) s.plan_version_coverages in
      Returns-bind Covers Covers (found_or_insert k c rows) _ s
        (found_or_insert-Covers c rows refl (get_version-is_key p k s v e)) λ x s' h. h

  pub pv_destroy-Covers : (j : ℕ) → Returns Covers (pv_destroy p k j s)
  unfolding pv_destroy
  pv_destroy-Covers j =
      Returns-read Covers (find_coverage p k j) _ s (Reads-find_coverage p k j) λ x _. record {
        pairs = AreDistinct-select same_pair _ s.plan_version_coverages i.pairs;
        named = All-select _ _ s.plan_version_coverages i.named;
      }

  pub pv_reorder-Covers : (js : List ℕ) → Returns Covers (pv_reorder p k js s)
  unfolding pv_reorder
  pv_reorder-Covers js =
      Returns-read Covers (get_version p k) _ s (Reads-get_version p k)
        λ v _. place-IsCoverTable k 0 js s i

  pub pv_update_value-Covers :
      (j : ℕ) (r : ValueRequest) → Returns Covers (pv_update_value p k j r s)
  unfolding pv_update_value set_value
  pv_update_value-Covers j r =
      Returns-read Covers (find_coverage p k j) _ s (Reads-find_coverage p k j) λ x _.
        Covers-raise_if (not (is_value (set_value r x))) data_error _ s
          (change_coverages (λ y. y.id == x.id) (set_value r) s (λ x. refl) (λ x. refl) i)
