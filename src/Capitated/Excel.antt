-- ===== src/Capitated/Excel.antt =====
-- `process_excel`, the entry point of common/services/capitated/capitated_batch_processor.py.
pub mod Failure
use yastubo_python.Prelude.{
  ℕ, ◌+◌, Bool, true, false, Option, none, some, List, [], ◌∷◌, Text, if◌then◌else◌,
}
use yastubo_python.Prelude.Action.{Result, ok, err, pure, raise, gets, continue, ◌>>=◌, ◌>>◌}
use yastubo_python.Dates.{Date, normalize_coverage_month}
use yastubo_python.Capitated.Tables.{Batch, BatchStatus, Summary}
use yastubo_python.Capitated.Session.{
  Session, Step, ProcessError, integrity_error, store_failed, set_batch,
}
use yastubo_python.Capitated.Sheets.{Sheet}
use yastubo_python.Capitated.Process.{Load, process_spreadsheet_rows, refresh_contracts_status}

-- The uploaded file, and what the code outside of this service makes of it: the row and the hash of
-- the stored file (no value where storing raises), and the workbook (no value where the reader
-- raises).
pub record Upload : Type 0 where
  pub has_filename : Bool
  pub stored : Option (ℕ × Option Text)
  pub openpyxl_installed : Bool
  pub workbook : Option (List Sheet)
  pub is_any_month_allowed : Bool
  pub cutoff_day : Option ℕ
  pub user_id : ℕ

abbrev pub is_failed : BatchStatus → Bool
is_failed BatchStatus.failed = true
is_failed _ = false

unfoldable pub draft_batch : Load → Upload → ℕ → Batch
draft_batch l u id = record {
  id = id;
  company_id = l.company.id;
  coverage_month = l.coverage_month;
  source_file_id = none;
  file_hash = none;
  created_by_user_id = u.user_id;
  status = BatchStatus.draft;
  processed_at = none;
  total_rows = 0;
  total_applied = 0;
  total_rejected = 0;
  total_duplicated = 0;
  total_incongruences = 0;
  total_plan_errors = 0;
  total_rolled_back = 0;
  is_any_month_allowed = u.is_any_month_allowed;
  cutoff_day = u.cutoff_day;
  summary_json = none;
  rolled_back_at = none;
  rolled_back_by_user_id = none;
}

abbrev pub failed_with : ℕ → Summary → Batch → Batch
failed_with now summary b = record b {
  status = BatchStatus.failed;
  processed_at = some now;
  summary_json = some summary;
}

unfoldable pub insert_batch : Batch → Step (Unit {0})
insert_batch b s = (ok tt, record s { batch = b; next_batch = s.next_batch + 1 })

-- `batch.status = FAILED …; return batch`
unfoldable pub fail_batch : ℕ → Summary → Step Batch
unfolding set_batch
fail_batch now summary = do set_batch (failed_with now summary); gets (λ s. s.batch)

-- the batch as the handler leaves it
unfoldable pub mark_failed : ℕ → Batch → Batch
mark_failed now b = if is_failed b.status then b else failed_with now Summary.exception_text b

-- The `except` of the row loop. What was written to the tables stays, but for a failed flush: that
-- has undone the transaction, the new batch included, so the flush of the handler finds nothing to
-- write, and the batch is returned over the tables from before the load.
unfoldable pub recover : Load → Session → ProcessError → Step Batch
recover l before integrity_error s = (ok (mark_failed l.now s.batch), before)
recover l before e s = let b = mark_failed l.now s.batch in (ok b, record s { batch = b })

abbrev pub caught :
    {A : Type 0}
    → (ProcessError → Step A)
    → Result ProcessError A × Session
    → Result ProcessError A × Session
caught handler (ok a, s) = (ok a, s)
caught handler (err e, s) = handler e s

abbrev pub try_except : {A : Type 0} → Step A → (ProcessError → Step A) → Step A
try_except m handler s = caught handler (m s)

-- the `try` block
unfoldable pub load_rows : Load → (Batch → Option ℕ) → List Sheet → Step Batch
load_rows l invoice sheets = do
  process_spreadsheet_rows l invoice sheets
  refresh_contracts_status l.today l.company.id
  gets (λ s. s.batch)

-- steps 3 and 4, once the file is stored
unfoldable pub read_workbook : Load → (Batch → Option ℕ) → Upload → Session → Step Batch
read_workbook l invoice u before =
    if u.openpyxl_installed
    then elim u.workbook [
      | none ↦ fail_batch l.now Summary.unreadable_file
      | some sheets ↦ try_except (load_rows l invoice sheets) (recover l before)
    ]
    else fail_batch l.now Summary.openpyxl_missing

abbrev set_file : ℕ × Option Text → Batch → Batch
set_file (file_id, hash) b = record b { source_file_id = some file_id; file_hash = hash }

-- step 2
unfoldable pub store_file :
    Load → (Batch → Option ℕ) → Upload → Session → Option (ℕ × Option Text) → Step Batch
store_file l invoice u before none = raise store_failed
store_file l invoice u before (some file) = do
  set_batch (set_file file)
  read_workbook l invoice u before

unfoldable pub process_month : Load → (Batch → Option ℕ) → Upload → Step Batch
process_month l invoice u before =
    let draft = draft_batch l u before.next_batch in
    if u.has_filename
    then (do insert_batch draft; store_file l invoice u before u.stored) before
    else (do insert_batch draft; fail_batch l.now Summary.invalid_file) before

-- the month of the load is the first day of the month that is given
unfoldable pub process_excel : Load → (Batch → Option ℕ) → Upload → Step Batch
process_excel l invoice u =
    process_month (record l { coverage_month = normalize_coverage_month l.coverage_month }) invoice
      u
