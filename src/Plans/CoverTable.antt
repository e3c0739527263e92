-- ===== src/Plans/CoverTable.antt =====
-- The coverages of versions after any requests of plan_versions_controller.py, and of
-- coverages_controller.py on versions.
use yastubo_python.Prelude.{ℕ, refl, not, ◌||◌, Option, none, some, List, [], ◌∷◌}
use yastubo_python.Prelude.Database.{Returns, Returns-read, Returns-get_db}
use yastubo_python.Prelude.Int.{ℤ}
use yastubo_python.Plans.{Session, get_version, integrity_error, data_error}
use yastubo_python.Plans.Surcharges.{
  get_surcharge, are_surcharge_columns, insert_surcharge, age_surcharges_store, SurchargeRequest,
  is_null, set_surcharge, age_surcharges_update, age_surcharges_destroy,
}
use yastubo_python.Plans.Versions.{store, update, destroy}
use yastubo_python.Plans.Clones.{clone}
use yastubo_python.Plans.Coverages.{pv_store, pv_destroy, pv_reorder, pv_update_value}
use yastubo_python.Plans.Terms.{update_terms_html}
use yastubo_python.Plans.Requests.{
  Request, post_version, put_version, delete_plan, post_clone, patch_terms, post_surcharge,
  patch_surcharge, delete_surcharge, post_coverage, delete_coverage, post_reorder, patch_coverage,
  handle, run,
}
use yastubo_python.Plans.Active.{Reads-get_version, Reads-get_surcharge}
use yastubo_python.Plans.Covered.{
  IsCoverTable, Covers, Covers-raise_if, pv_store-Covers, pv_destroy-Covers, pv_reorder-Covers,
  pv_update_value-Covers,
}
use yastubo_python.Plans.Named.{
  stay-IsCoverTable, update-Covers, store-Covers, destroy-Covers, clone-Covers,
  update_terms_html-Covers,
}

module _ (p k : ℕ) (s : Session) (i : IsCoverTable s) where
  insert_surcharge-Covers :
      (a b : Option ℕ) (c : Option ℤ) → Returns Covers (insert_surcharge k a b c s)
  unfolding insert_surcharge
  insert_surcharge-Covers (some a) (some b) c = stay-IsCoverTable s _ refl (λ j h. h) i
  insert_surcharge-Covers (some a) none c = tt
  insert_surcharge-Covers none b c = tt

  age_surcharges_store-Covers :
      (a b : Option ℕ) (c : Option ℤ) → Returns Covers (age_surcharges_store p k a b c s)
  unfolding age_surcharges_store
  age_surcharges_store-Covers a b c =
      Returns-read Covers (get_version p k) _ s (Reads-get_version p k) λ v _.
        Covers-raise_if (not (are_surcharge_columns a b c)) data_error _ s
          (insert_surcharge-Covers a b c)

  age_surcharges_update-Covers :
      (j : ℕ) (r : SurchargeRequest) → Returns Covers (age_surcharges_update p k j r s)
  unfolding age_surcharges_update
  age_surcharges_update-Covers j r =
      Returns-read Covers (get_surcharge p k j) _ s (Reads-get_surcharge p k j) λ x _.
        let y = set_surcharge r x in
        Covers-raise_if
          (not (are_surcharge_columns (some y.age_from) (some y.age_to) y.surcharge_percent))
          data_error _ s
          (Covers-raise_if (is_null r.age_from || is_null r.age_to) integrity_error _ s
            (stay-IsCoverTable s _ refl (λ j h. h) i))

  age_surcharges_destroy-Covers : (j : ℕ) → Returns Covers (age_surcharges_destroy p k j s)
  unfolding age_surcharges_destroy
  age_surcharges_destroy-Covers j =
      Returns-read Covers (get_surcharge p k j) _ s (Reads-get_surcharge p k j)
        λ x _. stay-IsCoverTable s _ refl (λ j h. h) i

handle-IsCoverTable : (r : Request) (s : Session) → IsCoverTable s → IsCoverTable (handle r s)
unfolding handle
handle-IsCoverTable (post_version p name) s i =
    Returns-get_db IsCoverTable (store p name) s i (store-Covers p 0 s i name)
handle-IsCoverTable (put_version p v r) s i =
    Returns-get_db IsCoverTable (update p v r) s i (update-Covers p v s i r)
handle-IsCoverTable (delete_plan p v) s i =
    Returns-get_db IsCoverTable (destroy p v) s i (destroy-Covers p v s i)
handle-IsCoverTable (post_clone p v name) s i =
    Returns-get_db IsCoverTable (clone p v name) s i (clone-Covers p v s i name)
handle-IsCoverTable (patch_terms p v l html) s i =
    Returns-get_db IsCoverTable (update_terms_html p v l html) s i
      (update_terms_html-Covers p v s i l html)
handle-IsCoverTable (post_surcharge p v a b c) s i =
    Returns-get_db IsCoverTable (age_surcharges_store p v a b c) s i
      (age_surcharges_store-Covers p v s i a b c)
handle-IsCoverTable (patch_surcharge p v k r) s i =
    Returns-get_db IsCoverTable (age_surcharges_update p v k r) s i
      (age_surcharges_update-Covers p v s i k r)
handle-IsCoverTable (delete_surcharge p v k) s i =
    Returns-get_db IsCoverTable (age_surcharges_destroy p v k) s i
      (age_surcharges_destroy-Covers p v s i k)
handle-IsCoverTable (post_coverage p v c) s i =
    Returns-get_db IsCoverTable (pv_store p v c) s i (pv_store-Covers p v s i c)
handle-IsCoverTable (delete_coverage p v k) s i =
    Returns-get_db IsCoverTable (pv_destroy p v k) s i (pv_destroy-Covers p v s i k)
handle-IsCoverTable (post_reorder p v ks) s i =
    Returns-get_db IsCoverTable (pv_reorder p v ks) s i (pv_reorder-Covers p v s i ks)
handle-IsCoverTable (patch_coverage p v k r) s i =
    Returns-get_db IsCoverTable (pv_update_value p v k r) s i (pv_update_value-Covers p v s i k r)

-- If no version has a coverage twice and every coverage of a version names a version that is there, then
-- the same holds after any requests that write versions, terms, surcharges or coverages of versions,
-- whether they are answered or fail.
pub run-IsCoverTable : (rs : List Request) (s : Session) → IsCoverTable s → IsCoverTable (run rs s)
unfolding run
run-IsCoverTable [] s i = i
run-IsCoverTable (r ∷ rs) s i = run-IsCoverTable rs (handle r s) (handle-IsCoverTable r s i)
