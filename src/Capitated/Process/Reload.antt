-- ===== src/Capitated/Process/Reload.antt =====
-- A row of _process_spreadsheet_rows whose month is in the table of monthly records.
use yastubo_python.Prelude.{
  ◌≡◌, ◌≢◌, ap, ◌∙◌, sym, subst, true, Option, none, some, List, any, inl, inr,
}
use yastubo_python.Capitated.Tables.{MonthlyRecord, Batch, Person, Contract, applied}
use yastubo_python.Capitated.Session.{
  Session, is_month, insert_record, find_active_monthly_record, find_last_active_record,
}
use yastubo_python.Capitated.Row.{Context, Input, Row, when_applied}
use yastubo_python.Capitated.Contracts.{
  add_record, bill_contract, bill, after_last, after_existing, with_person, resolve_contract,
  new_record,
}
use yastubo_python.Capitated.Prices.{Price, row_price}
use yastubo_python.Capitated.Process.Frame.{
  frame, find_last_active_record-frame, find_active_monthly_record-frame,
}
use yastubo_python.Capitated.Process.Settled.{Settled, after_last-Settled, after_last-frame}
use yastubo_python.Capitated.Frame.{
  Ensures, Ensures-bind, Ensures-after, ensured, when_applied-cases,
}

abbrev IsNotApplied : Row → Session → Type 0
IsNotApplied row s = row.result ≢ applied

module _ (x : Context) (i : Input) (p : Person) where
  -- the table has a record of the person for the month of the load
  abbrev HasMonth : Session → Type 0
  HasMonth s = any (is_month x.company_id x.meta.product.id p.id x.coverage_month) s.records ≡ true

  HasMonth-frame : (s t : Session) → frame t ≡ frame s → HasMonth s → HasMonth t
  HasMonth-frame s t e h =
      ap
        (λ (q : List MonthlyRecord × Batch).
          any (is_month x.company_id x.meta.product.id p.id x.coverage_month) q.0)
        e
      ∙ h

  add_record_again :
      (row : Row) (c : Contract) (price : Option Price) (s : Session)
      → HasMonth s
      → Ensures IsNotApplied (add_record x i row p c price s)
  unfolding add_record insert_record new_record
  add_record_again row c none s h = λ e. cc
  add_record_again row c (some price) s h = rw h tt

  bill_again :
      (row : Row) (o : Option Contract) (s : Session)
      → HasMonth s
      → (c : Contract) × (o ≡ some c)
      → Ensures IsNotApplied (bill_contract x i p row o s)
  bill_again row none s h (c, e) = absurd (cc)
  bill_again row (some c) s h k = add_record_again row c (row_price x row) s h

  when_bill_again :
      (row : Row) (s : Session)
      → HasMonth s
      → Settled row
      → Ensures IsNotApplied (when_applied (bill x i p) row s)
  unfolding bill
  when_bill_again row s h k = elim (when_applied-cases (bill x i p) row) [
    | inl (e, w) ↦ rw w (bill_again row row.contract s h (k e))
    | inr (ne, w) ↦ rw w ne
  ]

  after_existing_again :
      (row : Row) (o : Option MonthlyRecord) (s : Session)
      → HasMonth s
      → Ensures IsNotApplied (after_existing x i p row o s)
  unfolding after_existing
  after_existing_again row (some r) s h = λ e. cc
  after_existing_again row none s h =
      Ensures-after IsNotApplied (find_last_active_record x.company_id x.meta.product.id p.id) _ s
        (find_last_active_record-frame x.company_id x.meta.product.id p.id)
        (λ last t et. Ensures-bind IsNotApplied (after_last x p row last) _ t (λ r u eu.
          when_bill_again r u
            (HasMonth-frame s u
              (ap (λ q. frame q.1) (sym eu) ∙ (after_last-frame x p row last).at t ∙ et) h)
            (ensured (λ a _. Settled a) (after_last x p row last t) r u
              ((after_last-Settled x p row last).at t) eu)))

  with_person_again :
      (row : Row) (s : Session) → HasMonth s → Ensures IsNotApplied (with_person x i row (some p) s)
  with_person_again row s h =
      Ensures-after IsNotApplied
        (find_active_monthly_record x.company_id x.meta.product.id p.id x.coverage_month) _ s
        (find_active_monthly_record-frame x.company_id x.meta.product.id p.id x.coverage_month)
        (λ o t e. after_existing_again row o t (HasMonth-frame s t e h))

-- A row is not applied, by a return or by an exception, when its person already has a monthly record
-- for the month: also when that record was rolled back.
pub resolve_contract_again :
    (x : Context) (i : Input) (row : Row) (p : Person) (s : Session)
    → row.person ≡ some p
    → any (is_month x.company_id x.meta.product.id p.id x.coverage_month) s.records ≡ true
    → Ensures (λ r _. r.result ≢ applied) (resolve_contract x i row s)
unfolding resolve_contract
resolve_contract_again x i row p s e h =
    subst (λ o. Ensures (λ r _. r.result ≢ applied) (with_person x i row o s)) (sym e)
      (with_person_again x i p row s h)
