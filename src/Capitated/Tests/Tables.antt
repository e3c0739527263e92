-- ===== src/Capitated/Tests/Tables.antt =====
-- The tables of the sample: a person, a contract and two monthly records, before and after a rollback.
use yastubo_python.Prelude.{ℕ, true, Option, none, some, List, [], ◌∷◌, codes}
use yastubo_python.Prelude.Int.{pos}
use yastubo_python.Dates.{Date}
use yastubo_python.Capitated.Tables.{
  RowStatus, ContractStatus, Person, Contract, MonthlyRecord, PriceSource, Batch, BatchStatus,
}
use yastubo_python.Capitated.Session.{Session}
use yastubo_python.Capitated.Row.{Row, start_row}
use yastubo_python.Capitated.Excel.{Upload}
use yastubo_python.Capitated.Rollback.{Request}
use yastubo_python.Capitated.Tests.{spain, may, june, sheet}

abbrev pub batch : Batch
batch = record {
  id = 2;
  company_id = 7;
  coverage_month = june;
  source_file_id = none;
  file_hash = none;
  created_by_user_id = 1;
  status = BatchStatus.processed;
  processed_at = none;
  total_rows = 1;
  total_applied = 1;
  total_rejected = 0;
  total_duplicated = 0;
  total_incongruences = 0;
  total_plan_errors = 0;
  total_rolled_back = 0;
  is_any_month_allowed = true;
  cutoff_day = none;
  summary_json = none;
  rolled_back_at = none;
  rolled_back_by_user_id = none;
}

abbrev pub ana : Person
ana = record {
  id = 1;
  company_id = 7;
  product_id = 3;
  document_number = codes "X1";
  full_name = codes "Ana";
  sex = codes "F";
  residence_country_id = some 1;
  repatriation_country_id = some 1;
  age_reported = some (pos 41);
  status = RowStatus.active;
  rolled_back_at = none;
  rolled_back_by_user_id = none;
}

abbrev pub contract : Contract
contract = record {
  id = 1;
  company_id = 7;
  product_id = 3;
  person_id = 1;
  status = ContractStatus.active;
  entry_date = may;
  valid_until = some (record { year = 2025; month = 6; day = 30 });
  entry_age = some (pos 41);
  wtime_suicide_ends_at = none;
  wtime_preexisting_conditions_ends_at = none;
  wtime_accident_ends_at = none;
  terminated_at = none;
  termination_reason = none;
}

-- a record of the contract
abbrev pub record_of : ℕ → Date → ℕ → RowStatus → MonthlyRecord
record_of id month batch_id status = record {
  id = id;
  company_id = 7;
  product_id = 3;
  person_id = 1;
  contract_id = 1;
  coverage_month = month;
  plan_version_id = 4;
  load_batch_id = batch_id;
  full_name = codes "Ana";
  sex = codes "F";
  age_reported = some (pos 41);
  residence_country_id = some 1;
  repatriation_country_id = some 1;
  price_base = pos 1500;
  price_source = PriceSource.global;
  age_surcharge_rule_id = none;
  age_surcharge_percent = none;
  age_surcharge_amount = none;
  price_final = pos 1500;
  status = status;
  rolled_back_at = none;
  rolled_back_by_user_id = none;
}

abbrev pub session_of : List Person → List Contract → List MonthlyRecord → Session
session_of persons contracts records = record {
  persons = persons;
  contracts = contracts;
  records = records;
  items = [];
  next_person = 2;
  next_contract = 2;
  next_record = 3;
  next_batch = 3;
  batch = batch;
}

abbrev pub empty : Session
empty = session_of [] [] []

-- May of batch 1
abbrev pub may_only : Session
may_only = session_of (ana ∷ []) (contract ∷ []) (record_of 1 may 1 RowStatus.active ∷ [])

-- May of batch 1 and June of batch 2, both active
abbrev pub loaded : Session
loaded =
    session_of (ana ∷ []) (contract ∷ [])
      (record_of 1 may 1 RowStatus.active ∷ record_of 2 june 2 RowStatus.active ∷ [])

-- June was loaded and rolled back
abbrev pub rolled : Session
rolled =
    session_of (ana ∷ []) (contract ∷ [])
      (record_of 1 may 1 RowStatus.active ∷ record_of 2 june 2 RowStatus.rolled_back ∷ [])

abbrev pub no_invoice : Batch → Option ℕ
no_invoice _ = none

abbrev pub upload : Upload
upload = record {
  has_filename = true;
  stored = some (9, none);
  openpyxl_installed = true;
  workbook = some (sheet ∷ []);
  is_any_month_allowed = true;
  cutoff_day = none;
  user_id = 1;
}

abbrev pub request : Request
request = record {
  company_id = 7;
  user_id = 1;
  now = 200;
  today = record { year = 2025; month = 6; day = 20 };
}

abbrev pub known_row : Row
known_row = record start_row { age = some (pos 41); res_country = some spain; person = some ana }
