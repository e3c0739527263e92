-- ===== src/Plans/Tests.antt =====
-- Requests to plan_versions_controller.py on a small table.
use yastubo_python.Prelude.{
  ◌≡◌, refl, Bool, true, ◌&&◌, not, none, some, List, [], ◌∷◌, map, select, codes, arith, ◌==◌,
}
use yastubo_python.Prelude.Action.{ok, err}
use yastubo_python.Prelude.Int.{pos}
use yastubo_python.Plans.{
  active, plain, Coverage, PlanVersionCoverage, PlanVersionRow, AgeSurchargeRow, Session,
  integrity_error, is_active, get_version, build_version_out,
}
use yastubo_python.Plans.Versions.{
  deactivate_others, UpdateRequest, new_version, set_fields, are_storable, are_keys, update,
  destroy, delete_version,
}
use yastubo_python.Plans.Clones.{clone}
use yastubo_python.Plans.Surcharges.{age_surcharges_index, age_surcharges_store, insert_surcharge}
use yastubo_python.Plans.Terms.{english, update_terms_html, parse_terms_html}
use yastubo_python.Plans.Requests.{
  Request, post_coverage, delete_plan, post_reorder, put_version, post_clone, post_surcharge, run,
  handle,
}
use yastubo_python.Plans.Active.{IsPlanTable}
use yastubo_python.Plans.Coverages.{
  new_coverage, pv_store, insert_coverage, found_or_insert, pv_reorder, place,
}
use yastubo_python.Plans.Covered.{IsCoverTable}
use yastubo_python.Plans.CoverTable.{run-IsCoverTable}
use yastubo_python.Plans.Again.{is_answered, pv_store_again}
use yastubo_python.Plans.Table.{run-IsPlanTable}
use yastubo_python.Plans.Sole.{update_activation}

abbrev sold : PlanVersionRow
sold = record (new_version 1 1 (codes "2024")) { status = active; terms_html = plain (codes "x") }

abbrev draft : PlanVersionRow
draft = new_version 2 1 (codes "2025")

abbrev young : AgeSurchargeRow
young = record {
  id = 1;
  plan_version_id = 1;
  age_from = 0;
  age_to = 17;
  surcharge_percent = some (pos 250);
}

abbrev old : AgeSurchargeRow
old = record young { id = 2; age_from = 65; age_to = 80; surcharge_percent = none }

abbrev hospital : Coverage
hospital = record {
  id = 7;
  category_id = none;
  unit_id = none;
  name = some (record { es = some (codes "Hospital"); en = none });
  description = none;
}

abbrev covered : PlanVersionCoverage
covered = new_coverage 1 1 7 1

abbrev tables : Session
tables = record {
  product_ids = 1 ∷ 2 ∷ [];
  country_ids = 1 ∷ [];
  zone_ids = [];
  file_ids = [];
  versions = sold ∷ draft ∷ [];
  surcharges = old ∷ young ∷ [];
  countries = [];
  repatriation_countries = [];
  coverages = hospital ∷ [];
  units = [];
  categories = [];
  plan_version_coverages = covered ∷ [];
  loaded_versions = [];
  next_version = 3;
  next_surcharge = 3;
  next_coverage = 2;
}

tables-IsPlanTable : IsPlanTable tables
tables-IsPlanTable = record {
  keys = (refl, (refl, tt));
  below = (ground arith, (ground arith, tt));
  active_once = (refl, (refl, tt));
}

abbrev activation : UpdateRequest
activation = record {
  name = some none;
  status = some (some active);
  max_entry_age = some (some 70);
  max_renewal_age = none;
  wtime_suicide = none;
  wtime_preexisting_conditions = none;
  wtime_accident = none;
  country_id = some (some 1);
  zone_id = none;
  price_1 = none;
  price_2 = none;
  price_3 = none;
  price_4 = none;
  terms_file_es_id = none;
  terms_file_en_id = none;
}

abbrev requests : List Request
requests =
    put_version 1 2 activation
    ∷ post_clone 1 2 (codes " copy ")
    ∷ put_version 1 3 activation
    ∷ post_surcharge 1 3 (some 1) none none
    ∷ post_coverage 1 3 7
    ∷ delete_plan 1 1
    ∷ post_reorder 1 3 (2 ∷ [])
    ∷ []

active_keys : map (λ v. v.id) (select is_active (run requests tables).versions) ≡ 3 ∷ []
unfolding run handle age_surcharges_store get_version update clone set_fields deactivate_others
    insert_surcharge pv_reorder place destroy pv_store found_or_insert insert_coverage
    delete_version
active_keys = refl

-- a version with coverages cannot be deleted
destroy_covered : (destroy 1 1 tables).0 ≡ err integrity_error
unfolding destroy get_version delete_version
destroy_covered = refl

-- an older text counts as the Spanish one
keeps_plain :
    (update_terms_html 1 1 english (some (codes "y")) tables).0
    ≡ ok (record { es = some (codes "x"); en = some (codes "y") })
unfolding update_terms_html get_version parse_terms_html
keeps_plain = refl

sorted_by_age : (age_surcharges_index 1 1 tables).0 ≡ ok (young ∷ old ∷ [])
unfolding age_surcharges_index get_version
sorted_by_age = refl

run-IsPlanTable_example : IsPlanTable (run requests tables)
run-IsPlanTable_example = run-IsPlanTable requests tables tables-IsPlanTable

update_activation_example :
    let (res, s') = update 1 2 activation tables in
    let is_other : PlanVersionRow → Bool = λ x. not (x.product_id == 1) in
    (res ≡ ok (build_version_out (set_fields activation draft)))
    × (select (λ x. x.product_id == 1 && is_active x) s'.versions
        ≡ set_fields activation draft ∷ [])
    × (select is_other s'.versions ≡ select is_other tables.versions)
unfolding are_storable are_keys set_fields
update_activation_example =
    update_activation 1 2 activation tables draft refl tables-IsPlanTable.keys refl refl refl refl

-- the new row keeps its coverage, and the deletion of the covered version failed
coverages_after :
    map (λ x. x.plan_version_id) (run requests tables).plan_version_coverages ≡ 1 ∷ 3 ∷ []
unfolding run handle age_surcharges_store get_version update clone set_fields deactivate_others
    insert_surcharge pv_reorder place destroy pv_store found_or_insert insert_coverage
    delete_version
coverages_after = refl

tables-IsCoverTable : IsCoverTable tables
tables-IsCoverTable = record { pairs = (refl, tt); named = (refl, tt) }

run-IsCoverTable_example : IsCoverTable (run requests tables)
run-IsCoverTable_example = run-IsCoverTable requests tables tables-IsCoverTable

pv_store_again_example :
    let (r, s') = pv_store 1 2 7 tables in (is_answered r ≡ true) × (pv_store 1 2 7 s' ≡ (r, s'))
unfolding get_version
pv_store_again_example = pv_store_again 1 2 7 tables draft refl refl tables-IsCoverTable.pairs
