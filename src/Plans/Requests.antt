-- ===== src/Plans/Requests.antt =====
-- The requests of plan_versions_controller.py, and of coverages_controller.py on versions, that write, one after another.
use yastubo_python.Prelude.{ℕ, Option, List, [], ◌∷◌, Text}
use yastubo_python.Prelude.Database.{get_db}
use yastubo_python.Prelude.Int.{ℤ}
use yastubo_python.Plans.{Session}
use yastubo_python.Plans.Versions.{store, UpdateRequest, update, destroy}
use yastubo_python.Plans.Clones.{clone}
use yastubo_python.Plans.Surcharges.{
  age_surcharges_store, SurchargeRequest, age_surcharges_update, age_surcharges_destroy,
}
use yastubo_python.Plans.Coverages.{pv_store, pv_destroy, pv_reorder, ValueRequest, pv_update_value}
use yastubo_python.Plans.Terms.{Locale, update_terms_html}

pub data Request : Type 0 where
  post_version : ℕ → Text → Request
  put_version : ℕ → ℕ → UpdateRequest → Request
  delete_plan : ℕ → ℕ → Request
  post_clone : ℕ → ℕ → Text → Request
  patch_terms : ℕ → ℕ → Locale → Option Text → Request
  post_surcharge : ℕ → ℕ → Option ℕ → Option ℕ → Option ℤ → Request
  patch_surcharge : ℕ → ℕ → ℕ → SurchargeRequest → Request
  delete_surcharge : ℕ → ℕ → ℕ → Request
  post_coverage : ℕ → ℕ → ℕ → Request
  delete_coverage : ℕ → ℕ → ℕ → Request
  post_reorder : ℕ → ℕ → List ℕ → Request
  patch_coverage : ℕ → ℕ → ℕ → ValueRequest → Request

-- the tables after a request
unfoldable pub handle : Request → Session → Session
handle (post_version p name) s = (get_db (store p name) s).1
handle (put_version p v r) s = (get_db (update p v r) s).1
handle (delete_plan p v) s = (get_db (destroy p v) s).1
handle (post_clone p v name) s = (get_db (clone p v name) s).1
handle (patch_terms p v l html) s = (get_db (update_terms_html p v l html) s).1
handle (post_surcharge p v a b c) s = (get_db (age_surcharges_store p v a b c) s).1
handle (patch_surcharge p v k r) s = (get_db (age_surcharges_update p v k r) s).1
handle (delete_surcharge p v k) s = (get_db (age_surcharges_destroy p v k) s).1
handle (post_coverage p v c) s = (get_db (pv_store p v c) s).1
handle (delete_coverage p v k) s = (get_db (pv_destroy p v k) s).1
handle (post_reorder p v ks) s = (get_db (pv_reorder p v ks) s).1
handle (patch_coverage p v k r) s = (get_db (pv_update_value p v k r) s).1

-- the tables after some requests
unfoldable pub run : List Request → Session → Session
unfolding handle
run [] s = s
run (r ∷ rs) s = run rs (handle r s)
