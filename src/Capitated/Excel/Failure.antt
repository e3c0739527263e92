-- ===== src/Capitated/Excel/Failure.antt =====
-- The exception handler of process_excel, and the rollback after it.
use yastubo_python.Prelude.{◌≡◌, ◌≢◌, ◌⊎◌}
use yastubo_python.Prelude.Action.{Result, ok, err}
use yastubo_python.Capitated.Tables.{Batch, BatchStatus}
use yastubo_python.Capitated.Session.{Session, ProcessError, integrity_error}
use yastubo_python.Capitated.Rollback.{Request, rollback_batch}

-- What an exception in the rows leaves behind: a failed batch, every row that was written before the
-- exception, and no way to roll the batch back.
pub record IsStranded (before : Session) (r : Result ProcessError Batch) (after : Session)
    : Type 0 where
  pub returned : r ≡ ok after.batch
  pub failed : after.batch.status ≡ BatchStatus.failed
  pub persons : after.persons ≡ before.persons
  pub contracts : after.contracts ≡ before.contracts
  pub records : after.records ≡ before.records
  pub kept : (q : Request) → (e : ProcessError) × (rollback_batch q after ≡ (err e, after))

-- what a failed flush leaves behind: a failed batch that is in no table, and the tables as they were
pub record IsUndone (before : Session) (r : Result ProcessError Batch) (after : Session)
    : Type 0 where
  pub batch : Batch
  pub returned : r ≡ ok batch
  pub failed : batch.status ≡ BatchStatus.failed
  pub same : after ≡ before

-- the session and the answer after the handler
abbrev pub IsHandled :
    Session → ProcessError → Session → Result ProcessError Batch × Session → Type 0
IsHandled before e t (r, after) =
    ((e ≢ integrity_error) × IsStranded t r after)
    ⊎ ((e ≡ integrity_error) × IsUndone before r after)
