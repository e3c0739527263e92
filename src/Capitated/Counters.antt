-- ===== src/Capitated/Counters.antt =====
-- The counters of a load and the log of its rows: `_process_spreadsheet_rows` of
-- common/services/capitated/capitated_batch_processor.py.
use yastubo_python.Prelude.{ℕ, ◌+◌, Bool, Option, none, some, [], ◌==◌, if◌then◌else◌}
use yastubo_python.Prelude.Action.{pure, gets, ◌>>=◌}
use yastubo_python.Capitated.Tables.{
  Person, Contract, Outcome, applied, rejected, incongruence, duplicated, RejectionCode,
  plan_invalid_product, plan_no_active_version, plan_structure_invalid, person_sex_invalid,
  person_age_invalid, person_country_code_not_found, person_residence_not_allowed,
  person_repatriation_not_allowed, person_incongruence, person_duplicated, continuity_break,
  retroactive_not_allowed, unknown_error, ItemLog, Catalog,
}
use yastubo_python.Capitated.Session.{Step, insert_item}
use yastubo_python.Capitated.Row.{Context, Input, Row, is_sex}
use yastubo_python.Capitated.Persons.{country_id}

abbrev pub code_number : RejectionCode → ℕ
code_number plan_invalid_product = 0
code_number plan_no_active_version = 1
code_number plan_structure_invalid = 2
code_number person_sex_invalid = 3
code_number person_age_invalid = 4
code_number person_country_code_not_found = 5
code_number person_residence_not_allowed = 6
code_number person_repatriation_not_allowed = 7
code_number person_incongruence = 8
code_number person_duplicated = 9
code_number continuity_break = 10
code_number retroactive_not_allowed = 11
code_number unknown_error = 12

-- the counters; `errors_by_code` is a dictionary with 0 for a missing code
pub record Counters : Type 0 where
  pub total_rows : ℕ
  pub total_applied : ℕ
  pub total_rejected : ℕ
  pub total_duplicated : ℕ
  pub total_incongruences : ℕ
  pub errors_by_code : RejectionCode → ℕ

abbrev pub no_counts : Counters
no_counts = record {
  total_rows = 0;
  total_applied = 0;
  total_rejected = 0;
  total_duplicated = 0;
  total_incongruences = 0;
  errors_by_code = λ _. 0;
}

abbrev pub count_result : Outcome → Counters → Counters
count_result applied c = record c { total_applied = c.total_applied + 1 }
count_result rejected c = record c { total_rejected = c.total_rejected + 1 }
count_result duplicated c = record c { total_duplicated = c.total_duplicated + 1 }
count_result incongruence c = record c { total_incongruences = c.total_incongruences + 1 }

abbrev pub count_code : Option RejectionCode → Counters → Counters
count_code none c = c
count_code (some code) c = record c {
  errors_by_code = λ k. (if code_number k == code_number code then 1 else 0) + c.errors_by_code k;
}

unfoldable pub count_row : Row → Counters → Counters
count_row row c =
    count_code row.rejection_code
      (count_result row.result (record c { total_rows = c.total_rows + 1 }))

-- `should_log`
abbrev pub should_log : Catalog → Outcome → Bool
should_log catalog applied = catalog.log_applied
should_log catalog rejected = catalog.log_rejected
should_log catalog incongruence = catalog.log_incongruence
should_log catalog duplicated = catalog.log_duplicated

abbrev pub person_id : Option Person → Option ℕ
person_id none = none
person_id (some p) = some p.id

abbrev pub contract_id : Option Contract → Option ℕ
contract_id none = none
contract_id (some c) = some c.id

unfoldable pub item_of : Context → ℕ → Input → Row → ℕ → ItemLog
item_of x row_idx i row batch_id = record {
  batch_id = batch_id;
  sheet_name = x.sheet_name;
  row_number = row_idx;
  product_id = x.meta.product.id;
  plan_version_id = x.meta.plan_version.id;
  residence_raw = i.res_raw;
  residence_code_extracted = row.res_iso3;
  residence_country_id = country_id row.res_country;
  repatriation_raw = i.rep_raw;
  repatriation_code_extracted = row.rep_iso3;
  repatriation_country_id = country_id row.rep_country;
  document_number = i.document_number;
  full_name = i.full_name;
  sex = if is_sex i.sex then i.sex else [];
  age_reported = row.age;
  result = row.result;
  rejection_code = row.rejection_code;
  person_id = person_id row.person;
  contract_id = contract_id row.contract;
  monthly_record_id = row.monthly_record_id;
  duplicated_record_id = row.duplicated_record_id;
}

unfoldable pub log_row : Context → ℕ → Input → Row → Step (Unit {0})
log_row x row_idx i row =
    if should_log x.catalog row.result
    then (do batch_id ← gets (λ s. s.batch.id); insert_item (item_of x row_idx i row batch_id))
    else pure tt
