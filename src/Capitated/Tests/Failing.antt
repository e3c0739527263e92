-- ===== src/Capitated/Tests/Failing.antt =====
-- The theorem on failed loads at a workbook whose first row is written and whose second one raises.
use yastubo_python.Prelude.{Bool, false, [], ◌∷◌, length, ◌==◌, some}
use yastubo_python.Prelude.Action.{Result, ok, err}
use yastubo_python.Capitated.Session.{Session, ProcessError, value_error}
use yastubo_python.Capitated.Excel.{Upload, load_rows}
use yastubo_python.Capitated.Tests.{load, bad_sheet}
use yastubo_python.Capitated.Tests.Tables.{empty, no_invoice, upload}

abbrev bad_upload : Upload
bad_upload = record upload { workbook = some (bad_sheet ∷ []) }

abbrev after_bad : Session
after_bad = (load_rows load no_invoice (bad_sheet ∷ []) empty).1

-- a value error after one row was written
is_bad : {A : Type 0} → Result ProcessError A × Session → Bool
is_bad (ok a, t) = false
is_bad (err value_error, t) = length t.records == 1
is_bad (err _, t) = false
