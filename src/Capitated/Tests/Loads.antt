-- ===== src/Capitated/Tests/Loads.antt =====
-- The theorems on loads at the sample.
use yastubo_python.Prelude.{◌≢◌, refl, none, [], ◌∷◌, select}
use yastubo_python.Prelude.Action.{err}
use yastubo_python.Capitated.Tables.{applied}
use yastubo_python.Capitated.Session.{integrity_error, latest, is_active_of}
use yastubo_python.Capitated.Contracts.{after_existing, resolve_contract}
use yastubo_python.Capitated.Process.{process_row, process_spreadsheet_rows}
use yastubo_python.Capitated.Process.Billing.{Billed, process_row-Billed}
use yastubo_python.Capitated.Process.Coverage.{after_existing-IsCovered}
use yastubo_python.Capitated.Process.Covered.{IsCovered}
use yastubo_python.Capitated.Process.Report.{IsSummed, process_spreadsheet_rows-IsSummed}
use yastubo_python.Capitated.Process.Unbroken.{resolve_contract_unbroken}
use yastubo_python.Capitated.Process.Reload.{resolve_contract_again}
use yastubo_python.Capitated.Frame.{Ensures}
use yastubo_python.Capitated.Tests.{load, context, input, sheet}
use yastubo_python.Capitated.Tests.Tables.{
  empty, may_only, loaded, rolled, ana, known_row, no_invoice,
}

process_row-Billed_example : Ensures (Billed context empty) (process_row context input empty)
process_row-Billed_example = process_row-Billed context input empty

after_existing-IsCovered_example :
    let mine =
      select (is_active_of context.company_id context.meta.product.id ana.id) may_only.records in
    Ensures
      (IsCovered context ana known_row may_only (latest mine))
      (after_existing context input ana known_row none may_only)
after_existing-IsCovered_example =
    after_existing-IsCovered context input ana known_row none may_only

process_spreadsheet_rows-IsSummed_example :
    Ensures
      (λ _ t. IsSummed 7 empty t)
      (process_spreadsheet_rows load no_invoice (sheet ∷ []) empty)
process_spreadsheet_rows-IsSummed_example =
    process_spreadsheet_rows-IsSummed load no_invoice (sheet ∷ []) empty

resolve_contract_again_example :
    Ensures (λ r _. r.result ≢ applied) (resolve_contract context input known_row rolled)
resolve_contract_again_example = resolve_contract_again context input known_row ana rolled refl refl

resolve_contract_unbroken_example :
    (resolve_contract context input known_row loaded).0 ≢ err integrity_error
resolve_contract_unbroken_example =
    resolve_contract_unbroken context input known_row loaded (refl, (refl, tt))
