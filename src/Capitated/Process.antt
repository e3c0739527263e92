-- ===== src/Capitated/Process.antt =====
-- The loops of `_process_spreadsheet_rows`, `_refresh_contracts_status` and `process_excel` of
-- common/services/capitated/capitated_batch_processor.py.
pub mod Frame
pub mod Settled
pub mod Identity
pub mod Billing
pub mod Refresh
pub mod Reload
pub mod Unbroken
pub mod Covered
pub mod Coverage
pub mod Totals
pub mod Report
use yastubo_python.Prelude.{
  ℕ, suc, ◌+◌, Bool, true, false, ◌&&◌, ◌||◌, not, Option, none, some, List, [], ◌∷◌, ◌++◌, ◌==◌,
  ltb, if◌then◌else◌, Text, Dict, update_where, count_where, length,
}
use yastubo_python.Prelude.Action.{Result, ok, err, pure, raise, gets, ◌>>=◌, ◌>>◌}
use yastubo_python.Dates.{Date, date_leb, normalize_coverage_month}
use yastubo_python.Capitated.Tables.{
  ContractStatus, is_open, Person, Contract, Outcome, applied, rejected, incongruence, duplicated,
  RejectionCode, plan_invalid_product, plan_no_active_version, plan_structure_invalid,
  person_sex_invalid, person_age_invalid, person_country_code_not_found,
  person_residence_not_allowed, person_repatriation_not_allowed, person_incongruence,
  person_duplicated, continuity_break, retroactive_not_allowed, unknown_error, ItemLog, Batch,
  BatchStatus, Summary, Company, Catalog,
}
use yastubo_python.Capitated.Session.{
  Session, Step, ProcessError, plan_errors_found, integrity_error, insert_item, set_batch,
}
use yastubo_python.Capitated.Sheets.{
  Sheet, Cells, SheetMeta, Metas, build_sheet_metas, read_row, is_row_empty,
}
use yastubo_python.Capitated.Row.{
  Floats, Context, Input, input_of, Row, start_row, when_applied, check_identity, check_age,
  resolve_residence, resolve_repatriation, check_residence, check_repatriation, is_sex,
}
use yastubo_python.Capitated.Persons.{resolve_person, country_id}
use yastubo_python.Capitated.Contracts.{resolve_contract}
use yastubo_python.Capitated.Counters.{Counters, no_counts, count_row, log_row}

-- the body of the loop, up to the counters
unfoldable pub process_row : Context → Input → Step Row
process_row x i = do
  a ← check_identity i start_row
  b ← when_applied (check_age x.floats i) a
  c ← when_applied (resolve_residence x.catalog i) b
  d ← when_applied (resolve_repatriation x.catalog i) c
  e ← when_applied (check_residence x.meta) d
  f ← when_applied (check_repatriation x.meta) e
  g ← when_applied (resolve_person x i) f
  when_applied (resolve_contract x i) g

-- the rows of one sheet, up to the first empty one
unfoldable pub process_rows : Context → ℕ → List Cells → Counters → Step Counters
process_rows x row_idx [] c = pure c
process_rows x row_idx (cells ∷ rest) c =
    let values = read_row x.meta.columns cells in
    if is_row_empty values then pure c else do
      row ← process_row x (input_of values)
      log_row x row_idx (input_of values) row
      process_rows x (row_idx + 1) rest (count_row row c)

-- what a load is given besides its sheets
pub record Load : Type 0 where
  pub floats : Floats
  pub catalog : Catalog
  pub company : Company
  pub coverage_month : Date
  pub now : ℕ
  pub today : Date

abbrev pub context_of : Load → Text → SheetMeta → Context
context_of l name meta = record {
  floats = l.floats;
  catalog = l.catalog;
  company_id = l.company.id;
  coverage_month = l.coverage_month;
  now = l.now;
  sheet_name = name;
  meta = meta;
}

-- the loop over `sheet_metas`
unfoldable pub process_sheets : Load → Dict SheetMeta → Counters → Step Counters
process_sheets l [] c = pure c
process_sheets l ((name, meta) ∷ rest) c = do
  c' ← process_rows (context_of l name meta) 2 meta.sheet.rows c
  process_sheets l rest c'

-- a structure error fails the batch before any row is read
unfoldable pub fail_with_plan_errors : ℕ → List RejectionCode → Batch → Batch
fail_with_plan_errors now errors b = record b {
  status = BatchStatus.failed;
  total_plan_errors = length errors;
  total_rows = 0;
  total_applied = 0;
  total_rejected = 0;
  total_duplicated = 0;
  total_incongruences = 0;
  total_rolled_back = 0;
  processed_at = some now;
  summary_json = some (Summary.plan_errors errors);
}

-- step 4, the summary of the batch
unfoldable pub summarize : ℕ → Counters → Batch → Batch
summarize now c b = record b {
  status = if ltb 0 c.total_applied then BatchStatus.processed else BatchStatus.processed_zero;
  processed_at = some now;
  total_rows = c.total_rows;
  total_applied = c.total_applied;
  total_rejected = c.total_rejected;
  total_duplicated = c.total_duplicated;
  total_incongruences = c.total_incongruences;
  total_plan_errors = 0;
  total_rolled_back = 0;
  summary_json = some (Summary.errors_by_code c.errors_by_code);
}

-- Step 5: `invoice` is what the billing service returns for the batch, with no value also where it
-- raises, since that is caught.
abbrev pub add_invoice : Option ℕ → Counters → Batch → Batch
add_invoice none c b = b
add_invoice (some invoice) c b = record b {
  summary_json = some (Summary.with_invoice c.errors_by_code invoice);
}

unfoldable pub bill_batch : (Batch → Option ℕ) → Company → Counters → Step (Unit {0})
bill_batch invoice company c =
    if ltb 0 c.total_applied && company.has_stripe_customer
    then (do b ← gets (λ s. s.batch); set_batch (add_invoice (invoice b) c))
    else pure tt

-- from step 2 on, once the sheets are known to be sound
unfoldable pub process_metas : Load → (Batch → Option ℕ) → Dict SheetMeta → Step (Unit {0})
process_metas l invoice metas = do
  c ← process_sheets l metas no_counts
  set_batch (summarize l.now c)
  bill_batch invoice l.company c

unfoldable pub process_checked : Load → (Batch → Option ℕ) → Metas → Step (Unit {0})
process_checked l invoice (metas, []) = process_metas l invoice metas
process_checked l invoice (metas, e ∷ errors) = do
  set_batch (fail_with_plan_errors l.now (e ∷ errors))
  raise plan_errors_found

-- `_process_spreadsheet_rows`
unfoldable pub process_spreadsheet_rows : Load → (Batch → Option ℕ) → List Sheet → Step (Unit {0})
process_spreadsheet_rows l invoice sheets = do
  found ← build_sheet_metas l.catalog l.company sheets ([], [])
  process_checked l invoice found

-- `CASE WHEN valid_until >= today THEN 'active' ELSE 'expired' END`
abbrev pub status_at : Date → Option Date → ContractStatus
status_at today none = ContractStatus.expired
status_at today (some d) =
    if date_leb today d then ContractStatus.active else ContractStatus.expired

abbrev pub is_open_of : ℕ → Contract → Bool
is_open_of company_id c = c.company_id == company_id && is_open c.status

abbrev pub refreshed : Date → Contract → Contract
refreshed today c = record c { status = status_at today c.valid_until }

-- `_refresh_contracts_status`
unfoldable pub refresh_contracts_status : Date → ℕ → Step ℕ
refresh_contracts_status today company_id s = (
  ok (count_where (is_open_of company_id) s.contracts),
  record s { contracts = update_where (is_open_of company_id) (refreshed today) s.contracts },
)
