-- ===== src/Capitated/Process/Billing.antt =====
-- One row of _process_spreadsheet_rows and the monthly records.
use yastubo_python.Prelude.{
  ◌≡◌, ◌≢◌, refl, sym, ap, ◌∙◌, Option, none, some, List, [], ◌∷◌, ◌++◌, any, Bool-cases, inl, inr,
}
use yastubo_python.Prelude.Action.{ok, pure, ◌>>=◌}
use yastubo_python.Capitated.Tables.{
  RowStatus, MonthlyRecord, Batch, Person, Contract, Outcome, applied, rejected, duplicated,
  incongruence,
}
use yastubo_python.Capitated.Session.{
  Session, Step, insert_record, is_month, find_last_active_record, find_active_monthly_record,
}
use yastubo_python.Capitated.Row.{
  Context, Input, Row, start_row, check_identity, check_age, resolve_residence,
  resolve_repatriation, check_residence, check_repatriation, when_applied,
}
use yastubo_python.Capitated.Persons.{resolve_person}
use yastubo_python.Capitated.Contracts.{
  after_last, add_record, bill_contract, bill, after_existing, with_person, resolve_contract,
  new_record,
}
use yastubo_python.Capitated.Prices.{Price, row_price, base_price}
use yastubo_python.Capitated.Process.{process_row}
use yastubo_python.Capitated.Process.Settled.{Settled, after_last-Settled, after_last-frame}
use yastubo_python.Capitated.Process.Frame.{
  frame, frame_rules, find_last_active_record-frame, find_active_monthly_record-frame,
}
use yastubo_python.Capitated.Frame.{
  Keeps, Ensures, Ensures-bind, ensured, Ensures-map, when_applied-cases,
}
use yastubo_python.Capitated.Process.Identity.{Identified, resolve_person-Identified, Gives-when}

-- The record that an applied row adds: it is the last one, it is active, and it belongs to the
-- batch, the company, the product and the month of the load.
pub record IsNewRecord (x : Context) (row : Row) (before after : Session) : Type 0 where
  pub new : MonthlyRecord
  pub appended : after.records ≡ before.records ++ new ∷ []
  pub batch_id : new.load_batch_id ≡ before.batch.id
  pub is_active : new.status ≡ RowStatus.active
  pub company_id : new.company_id ≡ x.company_id
  pub month : new.coverage_month ≡ x.coverage_month
  pub logged : row.monthly_record_id ≡ some new.id

abbrev pub BilledAs : Outcome → Context → Row → Session → Session → Type 0
BilledAs applied x row before after = IsNewRecord x row before after
BilledAs rejected x row before after = after.records ≡ before.records
BilledAs duplicated x row before after = after.records ≡ before.records
BilledAs incongruence x row before after = after.records ≡ before.records

-- What a row does to the monthly records, by its result; the batch stays as it is.
abbrev pub Billed : Context → Session → Row → Session → Type 0
Billed x before row after = BilledAs row.result x row before after × (after.batch ≡ before.batch)

-- A row that is not applied adds nothing.
Billed-same :
    (x : Context) (row : Row) (before after : Session)
    → (row.result ≢ applied)
    → frame after ≡ frame before
    → Billed x before row after
Billed-same x row before after ne e =
    (go row.result ne, ap (λ (q : List MonthlyRecord × Batch). q.1) e)
  where
    go : (o : Outcome) → o ≢ applied → BilledAs o x row before after
    go applied h = absurd (h refl)
    go rejected h = ap (λ (q : List MonthlyRecord × Batch). q.0) e
    go duplicated h = ap (λ (q : List MonthlyRecord × Batch). q.0) e
    go incongruence h = ap (λ (q : List MonthlyRecord × Batch). q.0) e

abbrev Inserted : MonthlyRecord → Session → MonthlyRecord → Session → Type 0
Inserted r before a after =
    (a ≡ r) × (after.records ≡ before.records ++ r ∷ []) × (after.batch ≡ before.batch)

insert_record-Inserted :
    (r : MonthlyRecord) (s : Session) → Ensures (Inserted r s) (insert_record r s)
unfolding insert_record
insert_record-Inserted r s =
    elim (Bool-cases
      (any (is_month r.company_id r.product_id r.person_id r.coverage_month) s.records)) [
        | inl e ↦ rw e tt
        | inr e ↦ rw e (refl, refl, refl)
      ]

add_record-Billed :
    (x : Context) (i : Input) (row : Row) (p : Person) (c : Contract) (price : Option Price)
    (s : Session)
    → row.result ≡ applied
    → Ensures (Billed x s) (add_record x i row p c price s)
unfolding add_record new_record
add_record-Billed x i row p c none s h = (refl, refl)
add_record-Billed x i row p c (some price) s h =
    let r : MonthlyRecord =
      new_record x i row p c (base_price x row) price s.batch.id s.next_record in
    let finish : MonthlyRecord → Step Row =
      λ a. pure (record row { monthly_record_id = some a.id }) in
    Ensures-bind (Billed x s) (insert_record r) finish s (λ a s' e.
      let (same, appended, batch) =
        ensured (Inserted r s) (insert_record r s) a s' (insert_record-Inserted r s) e in
      rw h (
        record {
          new = r;
          appended = appended;
          batch_id = refl;
          is_active = refl;
          company_id = refl;
          month = refl;
          logged = ap (λ (b : MonthlyRecord). some b.id) same;
        },
        batch,
      ))

bill_contract-Billed :
    (x : Context) (i : Input) (p : Person) (row : Row) (o : Option Contract) (s : Session)
    → row.result ≡ applied
    → (c : Contract) × (o ≡ some c)
    → Ensures (Billed x s) (bill_contract x i p row o s)
bill_contract-Billed x i p row none s h (c, e) = absurd (cc)
bill_contract-Billed x i p row (some c) s h k = add_record-Billed x i row p c (row_price x row) s h

bill-Billed :
    (x : Context) (i : Input) (p : Person) (row : Row) (s : Session)
    → row.result ≡ applied
    → Settled row
    → Ensures (Billed x s) (bill x i p row s)
unfolding bill
bill-Billed x i p row s h k = bill_contract-Billed x i p row row.contract s h (k h)

-- `Billed` looks at the records and the batch before the step alone.
Billed-before :
    (x : Context) (row : Row) (a b after : Session)
    → frame a ≡ frame b
    → Billed x a row after
    → Billed x b row after
Billed-before x row a b after e (h, k) =
    (go row.result h, k ∙ ap (λ (q : List MonthlyRecord × Batch). q.1) e)
  where
    records : a.records ≡ b.records
    records = ap (λ (q : List MonthlyRecord × Batch). q.0) e

    go : (o : Outcome) → BilledAs o x row a after → BilledAs o x row b after
    go applied n = record {
      new = n.new;
      appended = n.appended ∙ ap (λ (l : List MonthlyRecord). l ++ n.new ∷ []) records;
      batch_id = n.batch_id ∙ ap (λ (q : List MonthlyRecord × Batch). q.1.id) e;
      is_active = n.is_active;
      company_id = n.company_id;
      month = n.month;
      logged = n.logged;
    }
    go rejected n = n ∙ records
    go duplicated n = n ∙ records
    go incongruence n = n ∙ records

when_bill :
    (x : Context) (i : Input) (p : Person) (row : Row) (s : Session)
    → Settled row
    → Ensures (Billed x s) (when_applied (bill x i p) row s)
when_bill x i p row s k = elim (when_applied-cases (bill x i p) row) [
  | inl (e, w) ↦ rw w (bill-Billed x i p row s e k)
  | inr (ne, w) ↦ rw w (Billed-same x row s s ne refl)
]

-- a step that leaves the records alone, before one that bills
Billed-after :
    {A : Type 0} (x : Context) (m : Step A) (f : A → Step Row) (s : Session)
    → Keeps frame m
    → ((a : A) (t : Session) → m s ≡ (ok a, t) → Ensures (Billed x t) (f a t))
    → Ensures (Billed x s) ((m >>= f) s)
Billed-after x m f s k rest = Ensures-bind (Billed x s) m f s (λ a t e.
    Ensures-map (Billed x t) (Billed x s) (f a t)
      (λ row after. Billed-before x row t s after (ap (λ q. frame q.1) (sym e) ∙ k.at s))
      (rest a t e))

after_existing-Billed :
    (x : Context) (i : Input) (p : Person) (row : Row) (o : Option MonthlyRecord) (s : Session)
    → Ensures (Billed x s) (after_existing x i p row o s)
unfolding after_existing
after_existing-Billed x i p row (some r) s = (refl, refl)
after_existing-Billed x i p row none s =
    Billed-after x (find_last_active_record x.company_id x.meta.product.id p.id) _ s
      (find_last_active_record-frame x.company_id x.meta.product.id p.id)
      (λ last t et.
        Billed-after x (after_last x p row last) _ t (after_last-frame x p row last) (λ r u eu.
          when_bill x i p r u (
            ensured (λ a _. Settled a) (after_last x p row last t) r u
              ((after_last-Settled x p row last).at t) eu)))

with_person-Billed :
    (x : Context) (i : Input) (row : Row) (o : Option Person) (s : Session)
    → (p : Person) × (o ≡ some p)
    → Ensures (Billed x s) (with_person x i row o s)
with_person-Billed x i row none s (p, e) = absurd (cc)
with_person-Billed x i row (some p) s k =
    Billed-after x (find_active_monthly_record x.company_id x.meta.product.id p.id x.coverage_month)
      _ s (find_active_monthly_record-frame x.company_id x.meta.product.id p.id x.coverage_month)
      (λ o t _. after_existing-Billed x i p row o t)

when_resolve :
    (x : Context) (i : Input) (row : Row) (s : Session)
    → Identified row
    → Ensures (Billed x s) (when_applied (resolve_contract x i) row s)
unfolding resolve_contract
when_resolve x i row s k = elim (when_applied-cases (resolve_contract x i) row) [
  | inl (e, w) ↦ rw w (with_person-Billed x i row row.person s (k e))
  | inr (ne, w) ↦ rw w (Billed-same x row s s ne refl)
]

-- A row that the load gets through without an exception adds to the monthly records exactly one
-- when its result is `applied`: an active record of the batch, the company and the month of the
-- load, which the row's log names; with any other result the monthly records stay as they are. The
-- batch stays as it is.
pub process_row-Billed :
    (x : Context) (i : Input) (s : Session) → Ensures (Billed x s) (process_row x i s)
unfolding process_row
process_row-Billed x i s =
    Billed-after x (check_identity i start_row) _ s (search frame_rules) (λ a s1 _.
      Billed-after x (when_applied (check_age x.floats i) a) _ s1 (search frame_rules) (λ b s2 _.
        Billed-after x (when_applied (resolve_residence x.catalog i) b) _ s2 (search frame_rules)
          (λ c s3 _.
            Billed-after x (when_applied (resolve_repatriation x.catalog i) c) _ s3
              (search frame_rules)
              (λ d s4 _.
                Billed-after x (when_applied (check_residence x.meta) d) _ s4 (search frame_rules)
                  (λ e s5 _.
                    Billed-after x (when_applied (check_repatriation x.meta) e) _ s5
                      (search frame_rules)
                      (λ f s6 _.
                        Billed-after x (when_applied (resolve_person x i) f) _ s6
                          (search frame_rules)
                          (λ g s7 q. when_resolve x i g s7 (
                            ensured (λ a _. Identified a) (when_applied (resolve_person x i) f s6) g
                              s7
                              ((Gives-when (resolve_person x i) f
                                  (resolve_person-Identified x i f)).at
                                s6)
                              q))))))))
