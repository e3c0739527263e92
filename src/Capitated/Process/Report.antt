-- ===== src/Capitated/Process/Report.antt =====
-- _process_spreadsheet_rows as a whole, and the totals of the batch.
use yastubo_python.Prelude.{
  ℕ, ◌+◌, ◌≡◌, refl, ap, ◌∙◌, subst, ◌&&◌, Option, none, some, List, [], ◌∷◌, ◌++◌, if◌then◌else◌,
  Bool-cases, inl, inr, arith, length, All, ltb, Dict,
}
use yastubo_python.Capitated.Tables.{
  MonthlyRecord, Batch, BatchStatus, Company, Catalog, Product, PlanVersion,
}
use yastubo_python.Capitated.Session.{Session, set_batch}
use yastubo_python.Capitated.Sheets.{
  Sheet, SheetMeta, Metas, with_version, with_product, with_title, sheet_result, build_sheet_metas,
}
use yastubo_python.Capitated.Process.{
  Load, process_sheets, summarize, add_invoice, bill_batch, process_metas, process_checked,
  process_spreadsheet_rows,
}
use yastubo_python.Capitated.Counters.{Counters, no_counts}
use yastubo_python.Capitated.Process.Frame.{frame, scalar-frame}
use yastubo_python.Capitated.Process.Totals.{IsLoaded, Loads, process_sheets-Loads}
use yastubo_python.Capitated.Frame.{
  Keeps, Keeps-pure, keeps_rules, Ensures, Ensures-bind, Ensures-after, ensured, Ensures-map,
}

with_version-frame :
    (s : Sheet) (p : Product) (v : Option PlanVersion) → Keeps frame (with_version s p v)
unfolding with_version
with_version-frame s p none = Keeps-pure _
with_version-frame s p (some v) = Keeps-pure _

with_product-frame :
    (k : Catalog) (s : Sheet) (p : Option Product) → Keeps frame (with_product k s p)
unfolding with_product
with_product-frame k s none = Keeps-pure _
with_product-frame k s (some p) = search (keeps_rules, scalar-frame, with_version-frame)

with_title-frame :
    (k : Catalog) (c : Company) (s : Sheet) (o : Option ℕ) → Keeps frame (with_title k c s o)
unfolding with_title
with_title-frame k c s none = Keeps-pure _
with_title-frame k c s (some i) = search (keeps_rules, scalar-frame, with_product-frame)

sheet_result-frame : (k : Catalog) (c : Company) (s : Sheet) → Keeps frame (sheet_result k c s)
unfolding sheet_result
sheet_result-frame k c s = with_title-frame k c s _

pub build_sheet_metas-frame :
    (k : Catalog) (c : Company) (sheets : List Sheet) (m : Metas)
    → Keeps frame (build_sheet_metas k c sheets m)
unfolding build_sheet_metas
build_sheet_metas-frame k c [] m = Keeps-pure m
build_sheet_metas-frame k c (s ∷ sheets) m =
    search
      (keeps_rules, sheet_result-frame k c s, λ (n : Metas). build_sheet_metas-frame k c sheets n)

-- The session after a load that returned: it has new records of the batch, and the totals of the
-- batch tell how many, and that every row is counted once.
pub record IsSummed (company_id : ℕ) (before after : Session) : Type 0 where
  pub new : List MonthlyRecord
  pub appended : after.records ≡ before.records ++ new
  pub loaded : All (IsLoaded company_id before.batch.id) new
  pub total_applied : after.batch.total_applied ≡ length new
  pub total_rows :
      after.batch.total_rows
      ≡ after.batch.total_applied + after.batch.total_rejected + after.batch.total_duplicated
        + after.batch.total_incongruences
  pub status :
      after.batch.status
      ≡ (if ltb 0 (length new) then BatchStatus.processed else BatchStatus.processed_zero)
  pub batch_id : after.batch.id ≡ before.batch.id
  pub batch_company : after.batch.company_id ≡ before.batch.company_id

summarize-IsSummed :
    (k now : ℕ) (c : Counters) (s t : Session)
    → Loads k no_counts s c t
    → IsSummed k s (record t { batch = summarize now c t.batch })
unfolding summarize
summarize-IsSummed k now c s t h = record {
  new = h.new;
  appended = h.appended;
  loaded = h.loaded;
  total_applied = omega (arith, h.counted);
  total_rows = h.balanced refl;
  status = rw (h.counted) (
      ap (λ n. if ltb 0 n then BatchStatus.processed else BatchStatus.processed_zero)
        (omega arith));
  batch_id = ap (λ (b : Batch). b.id) h.batch;
  batch_company = ap (λ (b : Batch). b.company_id) h.batch;
}

-- an invoice changes the summary text alone
add_invoice-IsSummed :
    (k : ℕ) (o : Option ℕ) (c : Counters) (s t : Session)
    → IsSummed k s t
    → IsSummed k s (record t { batch = add_invoice o c t.batch })
add_invoice-IsSummed k none c s t h = h
add_invoice-IsSummed k (some i) c s t h = record {
  new = h.new;
  appended = h.appended;
  loaded = h.loaded;
  total_applied = h.total_applied;
  total_rows = h.total_rows;
  status = h.status;
  batch_id = h.batch_id;
  batch_company = h.batch_company;
}

bill_batch-IsSummed :
    (k : ℕ) (invoice : Batch → Option ℕ) (company : Company) (c : Counters) (s t : Session)
    → IsSummed k s t
    → Ensures (λ _ u. IsSummed k s u) (bill_batch invoice company c t)
unfolding bill_batch set_batch
bill_batch-IsSummed k invoice company c s t h =
    elim (Bool-cases (ltb 0 c.total_applied && company.has_stripe_customer)) [
      | inl e ↦ rw e (add_invoice-IsSummed k (invoice t.batch) c s t h)
      | inr e ↦ rw e h
    ]

process_metas-IsSummed :
    (l : Load) (invoice : Batch → Option ℕ) (metas : Dict SheetMeta) (s : Session)
    → Ensures (λ _ t. IsSummed l.company.id s t) (process_metas l invoice metas s)
unfolding process_metas set_batch
process_metas-IsSummed l invoice metas s =
    Ensures-bind (λ _ t. IsSummed l.company.id s t) (process_sheets l metas no_counts) _ s
      (λ c t e.
        bill_batch-IsSummed l.company.id invoice l.company c s
          (record t { batch = summarize l.now c t.batch })
          (summarize-IsSummed l.company.id l.now c s t (
            ensured (Loads l.company.id no_counts s) (process_sheets l metas no_counts s) c t
              (process_sheets-Loads l metas no_counts s) e)))

IsSummed-before : (k : ℕ) (a b t : Session) → frame a ≡ frame b → IsSummed k a t → IsSummed k b t
IsSummed-before k a b t e h = record {
  new = h.new;
  appended = h.appended ∙ ap (λ (q : List MonthlyRecord × Batch). q.0 ++ h.new) e;
  loaded = subst (λ (z : List MonthlyRecord × Batch). All (IsLoaded k z.1.id) h.new) e h.loaded;
  total_applied = h.total_applied;
  total_rows = h.total_rows;
  status = h.status;
  batch_id = h.batch_id ∙ ap (λ (q : List MonthlyRecord × Batch). q.1.id) e;
  batch_company = h.batch_company ∙ ap (λ (q : List MonthlyRecord × Batch). q.1.company_id) e;
}

process_checked-IsSummed :
    (l : Load) (invoice : Batch → Option ℕ) (m : Metas) (s : Session)
    → Ensures (λ _ t. IsSummed l.company.id s t) (process_checked l invoice m s)
unfolding process_checked set_batch
process_checked-IsSummed l invoice (metas, []) s = process_metas-IsSummed l invoice metas s
process_checked-IsSummed l invoice (metas, e ∷ errors) s = tt

-- When the rows of a workbook are processed without an exception, the session has new monthly
-- records, all active and of the batch and the company; the batch's `total_applied` is their
-- number; `total_rows` is the sum of the rows applied, rejected, duplicated and incongruent; and
-- the status is `processed` if a record was added and `processed_zero` if none was.
pub process_spreadsheet_rows-IsSummed :
    (l : Load) (invoice : Batch → Option ℕ) (sheets : List Sheet) (s : Session)
    → Ensures (λ _ t. IsSummed l.company.id s t) (process_spreadsheet_rows l invoice sheets s)
unfolding process_spreadsheet_rows
process_spreadsheet_rows-IsSummed l invoice sheets s =
    Ensures-after (λ _ t. IsSummed l.company.id s t)
      (build_sheet_metas l.catalog l.company sheets ([], [])) _ s
      (build_sheet_metas-frame l.catalog l.company sheets ([], []))
      (λ m t e.
        Ensures-map (λ _ u. IsSummed l.company.id t u) (λ _ u. IsSummed l.company.id s u) _
          (λ _ u. IsSummed-before l.company.id t s u e) (process_checked-IsSummed l invoice m t))
