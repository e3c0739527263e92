-- ===== src/Plans/Clones.antt =====
-- clone of plan_versions_controller.py.
use yastubo_python.Prelude.{ℕ, ◌+◌, List, [], ◌∷◌, ◌++◌, select, ◌==◌, length, Text, strip}
use yastubo_python.Prelude.Action.{ok, ◌>>=◌, ◌>>◌, pure}
use yastubo_python.Plans.{
  PlanVersionRow, AgeSurchargeRow, Handler, get_version, PlanVersionOut, build_version_out,
}
use yastubo_python.Plans.Versions.{new_version, insert_version}

-- the new row of `clone`
abbrev pub cloned : ℕ → PlanVersionRow → Text → ℕ → PlanVersionRow
cloned product_id source name key = record (new_version key product_id name) {
  max_entry_age = source.max_entry_age;
  max_renewal_age = source.max_renewal_age;
  wtime_suicide = source.wtime_suicide;
  wtime_preexisting_conditions = source.wtime_preexisting_conditions;
  wtime_accident = source.wtime_accident;
  country_id = source.country_id;
  zone_id = source.zone_id;
  price_1 = source.price_1;
  price_2 = source.price_2;
  price_3 = source.price_3;
  price_4 = source.price_4;
  terms_html = source.terms_html;
}

-- the loop over the surcharges of the source, with the next key
unfoldable pub clone_surcharges : ℕ → ℕ → List AgeSurchargeRow → List AgeSurchargeRow
clone_surcharges key version_id [] = []
clone_surcharges key version_id (x ∷ xs) =
    record x { id = key; plan_version_id = version_id } ∷ clone_surcharges (key + 1) version_id xs

abbrev pub surcharges_of : ℕ → List AgeSurchargeRow → List AgeSurchargeRow
surcharges_of version_id = select (λ x. x.plan_version_id == version_id)

abbrev pub insert_clones : ℕ → ℕ → Handler (Unit {0})
insert_clones source_id version_id s =
    let rows = surcharges_of source_id s.surcharges in
    (
      ok tt,
      record s {
        surcharges = s.surcharges ++ clone_surcharges s.next_surcharge version_id rows;
        next_surcharge = s.next_surcharge + length rows;
      },
    )

unfoldable pub clone : ℕ → ℕ → Text → Handler PlanVersionOut
unfolding strip build_version_out
clone product_id version_id name = do
  source ← get_version product_id version_id
  version ← insert_version (cloned product_id source (strip name))
  insert_clones source.id version.id
  pure (build_version_out version)
