-- ===== src/Plans/Table.antt =====
-- The table of versions after any requests of plan_versions_controller.py, and of coverages_controller.py on versions.
use yastubo_python.Prelude.{
  any, select, inl, inr, Bool-cases, ◌==◌, ℕ, refl, ◌||◌, not, Option, none, some, List, [], ◌∷◌,
}
use yastubo_python.Prelude.Database.{Returns, Returns-read, Returns-bind, Returns-get_db}
use yastubo_python.Prelude.Int.{ℤ}
use yastubo_python.Plans.{Session, PlanVersionCoverage, integrity_error, data_error, get_version}
use yastubo_python.Plans.Surcharges.{
  get_surcharge, are_surcharge_columns, insert_surcharge, age_surcharges_store, SurchargeRequest,
  is_null, set_surcharge, age_surcharges_update, age_surcharges_destroy,
}
use yastubo_python.Plans.Versions.{store, update, destroy}
use yastubo_python.Plans.Clones.{clone}
use yastubo_python.Plans.Coverages.{
  find_coverage, is_pair, insert_coverage, found_or_insert, pv_store, pv_destroy, pv_reorder,
  ValueRequest, is_value, set_value, pv_update_value,
}
use yastubo_python.Plans.Terms.{update_terms_html}
use yastubo_python.Plans.Requests.{
  Request, post_version, put_version, delete_plan, post_clone, patch_terms, post_surcharge,
  patch_surcharge, delete_surcharge, post_coverage, delete_coverage, post_reorder, patch_coverage,
  handle, run,
}
use yastubo_python.Plans.Active.{
  Reads-get_surcharge, Reads-find_coverage, IsPlanTable, Kept, Reads-get_version,
}
use yastubo_python.Plans.Activation.{Kept-raise_if}
use yastubo_python.Plans.Writes.{
  same-IsPlanTable, update-Kept, store-Kept, destroy-Kept, clone-Kept, update_terms_html-Kept,
}

module _ (p k : ℕ) (s : Session) (i : IsPlanTable s) where
  insert_surcharge-Kept :
      (a b : Option ℕ) (c : Option ℤ) → Returns Kept (insert_surcharge k a b c s)
  unfolding insert_surcharge
  insert_surcharge-Kept (some a) (some b) c = same-IsPlanTable s _ refl refl i
  insert_surcharge-Kept (some a) none c = tt
  insert_surcharge-Kept none b c = tt

  age_surcharges_store-Kept :
      (a b : Option ℕ) (c : Option ℤ) → Returns Kept (age_surcharges_store p k a b c s)
  unfolding age_surcharges_store
  age_surcharges_store-Kept a b c =
      Returns-read Kept (get_version p k) _ s (Reads-get_version p k) λ v _.
        Kept-raise_if (not (are_surcharge_columns a b c)) data_error _ s
          (insert_surcharge-Kept a b c)

  age_surcharges_update-Kept :
      (j : ℕ) (r : SurchargeRequest) → Returns Kept (age_surcharges_update p k j r s)
  unfolding age_surcharges_update
  age_surcharges_update-Kept j r =
      Returns-read Kept (get_surcharge p k j) _ s (Reads-get_surcharge p k j) λ x _.
        let y = set_surcharge r x in
        Kept-raise_if
          (not (are_surcharge_columns (some y.age_from) (some y.age_to) y.surcharge_percent))
          data_error _ s
          (Kept-raise_if (is_null r.age_from || is_null r.age_to) integrity_error _ s
            (same-IsPlanTable s _ refl refl i))

  age_surcharges_destroy-Kept : (j : ℕ) → Returns Kept (age_surcharges_destroy p k j s)
  unfolding age_surcharges_destroy
  age_surcharges_destroy-Kept j =
      Returns-read Kept (get_surcharge p k j) _ s (Reads-get_surcharge p k j)
        λ x _. same-IsPlanTable s _ refl refl i

module _ (p k : ℕ) (s : Session) (i : IsPlanTable s) where
  found_or_insert-Kept :
      (c : ℕ) (rows : List PlanVersionCoverage) → Returns Kept (found_or_insert k c rows s)
  unfolding found_or_insert insert_coverage
  found_or_insert-Kept c [] = elim (Bool-cases (any (λ x. x.id == c) s.coverages)) [
    | inl t ↦ rw (t, found_or_insert) (same-IsPlanTable s _ refl refl i)
    | inr t ↦ rw (t, found_or_insert) tt
  ]
  found_or_insert-Kept c (x ∷ []) = i
  found_or_insert-Kept c (x ∷ y ∷ ys) = tt

  pv_store-Kept : (c : ℕ) → Returns Kept (pv_store p k c s)
  unfolding pv_store
  pv_store-Kept c = Returns-read Kept (get_version p k) _ s (Reads-get_version p k) λ v _.
      let rows = select (is_pair k c) s.plan_version_coverages in
      Returns-bind Kept Kept (found_or_insert k c rows) _ s (found_or_insert-Kept c rows)
        λ x s' h. h

  pv_destroy-Kept : (j : ℕ) → Returns Kept (pv_destroy p k j s)
  unfolding pv_destroy
  pv_destroy-Kept j =
      Returns-read Kept (find_coverage p k j) _ s (Reads-find_coverage p k j)
        λ x _. same-IsPlanTable s _ refl refl i

  pv_reorder-Kept : (js : List ℕ) → Returns Kept (pv_reorder p k js s)
  unfolding pv_reorder
  pv_reorder-Kept js =
      Returns-read Kept (get_version p k) _ s (Reads-get_version p k)
        λ v _. same-IsPlanTable s _ refl refl i

  pv_update_value-Kept : (j : ℕ) (r : ValueRequest) → Returns Kept (pv_update_value p k j r s)
  unfolding pv_update_value
  pv_update_value-Kept j r =
      Returns-read Kept (find_coverage p k j) _ s (Reads-find_coverage p k j) λ x _.
        Kept-raise_if (not (is_value (set_value r x))) data_error _ s
          (same-IsPlanTable s _ refl refl i)

handle-IsPlanTable : (r : Request) (s : Session) → IsPlanTable s → IsPlanTable (handle r s)
unfolding handle
handle-IsPlanTable (post_version p name) s i =
    Returns-get_db IsPlanTable (store p name) s i (store-Kept p 0 s i name)
handle-IsPlanTable (put_version p v r) s i =
    Returns-get_db IsPlanTable (update p v r) s i (update-Kept p v s i r)
handle-IsPlanTable (delete_plan p v) s i =
    Returns-get_db IsPlanTable (destroy p v) s i (destroy-Kept p v s i)
handle-IsPlanTable (post_clone p v name) s i =
    Returns-get_db IsPlanTable (clone p v name) s i (clone-Kept p v s i name)
handle-IsPlanTable (patch_terms p v l html) s i =
    Returns-get_db IsPlanTable (update_terms_html p v l html) s i
      (update_terms_html-Kept p v s i l html)
handle-IsPlanTable (post_surcharge p v a b c) s i =
    Returns-get_db IsPlanTable (age_surcharges_store p v a b c) s i
      (age_surcharges_store-Kept p v s i a b c)
handle-IsPlanTable (patch_surcharge p v k r) s i =
    Returns-get_db IsPlanTable (age_surcharges_update p v k r) s i
      (age_surcharges_update-Kept p v s i k r)
handle-IsPlanTable (delete_surcharge p v k) s i =
    Returns-get_db IsPlanTable (age_surcharges_destroy p v k) s i
      (age_surcharges_destroy-Kept p v s i k)
handle-IsPlanTable (post_coverage p v c) s i =
    Returns-get_db IsPlanTable (pv_store p v c) s i (pv_store-Kept p v s i c)
handle-IsPlanTable (delete_coverage p v k) s i =
    Returns-get_db IsPlanTable (pv_destroy p v k) s i (pv_destroy-Kept p v s i k)
handle-IsPlanTable (post_reorder p v ks) s i =
    Returns-get_db IsPlanTable (pv_reorder p v ks) s i (pv_reorder-Kept p v s i ks)
handle-IsPlanTable (patch_coverage p v k r) s i =
    Returns-get_db IsPlanTable (pv_update_value p v k r) s i (pv_update_value-Kept p v s i k r)

-- If the keys of the versions stand once and are below the next key, and no product has two active
-- versions, then the same holds after any requests that write versions, terms, surcharges or coverages
-- of versions, whether they are answered or fail.
pub run-IsPlanTable : (rs : List Request) (s : Session) → IsPlanTable s → IsPlanTable (run rs s)
unfolding run
run-IsPlanTable [] s i = i
run-IsPlanTable (r ∷ rs) s i = run-IsPlanTable rs (handle r s) (handle-IsPlanTable r s i)
