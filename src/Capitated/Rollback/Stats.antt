-- ===== src/Capitated/Rollback/Stats.antt =====
-- _recalculate_batch_stats, the records of the batch and the counters of a load.
use yastubo_python.Prelude.{
  ℕ, ◌+◌, ◌≡◌, refl, ◌∙◌, ◌&&◌, Option, List, [], ◌∷◌, ◌++◌, if◌then◌else◌, arith, length, All, ltb,
  ◌==◌, ==_refl, count_where, count_where-append,
}
use yastubo_python.Capitated.Tables.{MonthlyRecord, Batch, BatchStatus}
use yastubo_python.Capitated.Session.{Session}
use yastubo_python.Capitated.Sheets.{Sheet}
use yastubo_python.Capitated.Frame.{Ensures, Ensures-map}
use yastubo_python.Capitated.Process.{Load, process_spreadsheet_rows}
use yastubo_python.Capitated.Process.Totals.{IsLoaded}
use yastubo_python.Capitated.Process.Report.{IsSummed, process_spreadsheet_rows-IsSummed}
use yastubo_python.Capitated.Rollback.{
  Request, is_of_batch, is_active_of_batch, is_rolled_back_of_batch, recalculate_batch_stats,
}

count_split :
    (k b : ℕ) (rs : List MonthlyRecord)
    → count_where (is_active_of_batch k b) rs + count_where (is_rolled_back_of_batch k b) rs
      ≡ count_where (is_of_batch k b) rs
count_split k b [] = omega arith
count_split k b (r ∷ rs) = ground (arith, count_split k b rs)

-- The recalculated totals of a batch add up to the number of its monthly records, and the batch is
-- marked as rolled back exactly when it has records and none of them is active.
pub recalculate_batch_stats_lem :
    (q : Request) (s : Session)
    → let b = (recalculate_batch_stats q s).1.batch in
      let total = count_where (is_of_batch s.batch.company_id s.batch.id) s.records in
      let active = count_where (is_active_of_batch s.batch.company_id s.batch.id) s.records in
      (b.total_applied + b.total_rolled_back ≡ total)
      × (b.total_applied ≡ active)
      × (b.status
          ≡ (if active == 0 && ltb 0 total then BatchStatus.rolled_back else s.batch.status))
unfolding recalculate_batch_stats
recalculate_batch_stats_lem q s =
    ground (arith, count_split s.batch.company_id s.batch.id s.records)

loaded_active :
    (k b : ℕ) (rs : List MonthlyRecord)
    → All (IsLoaded k b) rs
    → count_where (is_active_of_batch k b) rs ≡ length rs
loaded_active k b [] h = refl
loaded_active k b (r ∷ rs) h =
    ground (arith, loaded_active k b rs h.1, h.0.0, h.0.1, h.0.2, ==_refl k, ==_refl b)

loaded_all :
    (k b : ℕ) (rs : List MonthlyRecord)
    → All (IsLoaded k b) rs
    → count_where (is_of_batch k b) rs ≡ length rs
loaded_all k b [] h = refl
loaded_all k b (r ∷ rs) h =
    ground (arith, loaded_all k b rs h.1, h.0.0, h.0.1, ==_refl k, ==_refl b)

-- The records of a batch that has just been loaded, by their status.
summed_counts :
    (k : ℕ) (s t : Session)
    → IsSummed k s t
    → s.batch.company_id ≡ k
    → count_where (is_of_batch k s.batch.id) s.records ≡ 0
    → (count_where (is_active_of_batch t.batch.company_id t.batch.id) t.records
        ≡ t.batch.total_applied)
      × (count_where (is_of_batch t.batch.company_id t.batch.id) t.records ≡ t.batch.total_applied)
summed_counts k s t h c z =
    let b : ℕ = s.batch.id in
    let ec : t.batch.company_id ≡ k = h.batch_company ∙ c in
    let active : count_where (is_active_of_batch t.batch.company_id t.batch.id) t.records
        ≡ count_where (is_active_of_batch k b) (s.records ++ h.new) =
      λ i. count_where (is_active_of_batch (ec i) (h.batch_id i)) (h.appended i) in
    let all : count_where (is_of_batch t.batch.company_id t.batch.id) t.records
        ≡ count_where (is_of_batch k b) (s.records ++ h.new) =
      λ i. count_where (is_of_batch (ec i) (h.batch_id i)) (h.appended i) in
    (
      omega (
        arith,
        active,
        z,
        h.total_applied,
        count_where-append (is_active_of_batch k b) s.records h.new,
        loaded_active k b h.new h.loaded,
        count_split k b s.records,
      ),
      omega (
        arith,
        all,
        z,
        h.total_applied,
        count_where-append (is_of_batch k b) s.records h.new,
        loaded_all k b h.new h.loaded,
      ),
    )

-- Straight after a load that returned, for a batch that had no record before and belongs to the
-- company of the load, a recalculation finds the total of applied rows that the load counted.
pub recalculate_after_load :
    (l : Load) (invoice : Batch → Option ℕ) (sheets : List Sheet) (q : Request) (s : Session)
    → s.batch.company_id ≡ l.company.id
    → count_where (is_of_batch l.company.id s.batch.id) s.records ≡ 0
    → Ensures
        (λ _ t.
          ((recalculate_batch_stats q t).1.batch.total_applied ≡ t.batch.total_applied)
          × ((recalculate_batch_stats q t).1.batch.total_rolled_back ≡ 0))
        (process_spreadsheet_rows l invoice sheets s)
recalculate_after_load l invoice sheets q s c z =
    Ensures-map (λ _ t. IsSummed l.company.id s t) _ _
      (λ _ t h.
        let (active, all) = summed_counts l.company.id s t h c z in
        let (sum, applied, _) = recalculate_batch_stats_lem q t in
        (applied ∙ active, omega (arith, sum, applied, active, all)))
      (process_spreadsheet_rows-IsSummed l invoice sheets s)
