-- ===== src/Capitated/Tests/Rollbacks.antt =====
-- The theorems on rollbacks at the sample.
use yastubo_python.Prelude.{◌≡◌, refl, true, [], ◌∷◌}
use yastubo_python.Capitated.Tables.{RowStatus}
use yastubo_python.Capitated.Process.{process_spreadsheet_rows}
use yastubo_python.Capitated.Rollback.{
  recalculate_batch_stats, rollback_monthly_record_inner, rollback_batch,
}
use yastubo_python.Capitated.Rollback.Stats.{recalculate_after_load}
use yastubo_python.Capitated.Rollback.Records.{Rolls, rollback_monthly_record_inner-records}
use yastubo_python.Capitated.Rollback.Others.{others, rollback_batch-others}
use yastubo_python.Capitated.Frame.{Ensures}
use yastubo_python.Capitated.Tests.{load, sheet, june}
use yastubo_python.Capitated.Tests.Tables.{no_invoice, empty, loaded, record_of, request}

recalculate_after_load_example :
    Ensures
      (λ _ t.
        ((recalculate_batch_stats request t).1.batch.total_applied ≡ t.batch.total_applied)
        × ((recalculate_batch_stats request t).1.batch.total_rolled_back ≡ 0))
      (process_spreadsheet_rows load no_invoice (sheet ∷ []) empty)
recalculate_after_load_example =
    recalculate_after_load load no_invoice (sheet ∷ []) request empty refl refl

rollback_monthly_record_inner-records_example :
    let (o, t) =
      rollback_monthly_record_inner request (record_of 2 june 2 RowStatus.active) true loaded in
    Rolls request (record_of 2 june 2 RowStatus.active) loaded o t
rollback_monthly_record_inner-records_example =
    rollback_monthly_record_inner-records request (record_of 2 june 2 RowStatus.active) true loaded

rollback_batch-others_example :
    others 7 2 (rollback_batch request loaded).1.records ≡ others 7 2 loaded.records
rollback_batch-others_example = rollback_batch-others request loaded (refl, (refl, tt))
