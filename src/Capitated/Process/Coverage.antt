-- ===== src/Capitated/Process/Coverage.antt =====
-- The contract that a row of _process_spreadsheet_rows leaves in the table.
use yastubo_python.Prelude.{
  ◌≡◌, refl, ◌⊎◌, inl, inr, Option, none, some, List, [], ◌∷◌, select, any, Bool-cases,
}
use yastubo_python.Prelude.Action.{◌>>=◌}
use yastubo_python.Dates.{date_ltb, normalize_coverage_month}
use yastubo_python.Capitated.Tables.{MonthlyRecord, Person, Contract}
use yastubo_python.Capitated.Session.{
  Session, is_active_of, latest, scalar_one_or_none, find_last_active_record,
  find_contract_for_record, is_month, insert_record,
}
use yastubo_python.Capitated.Row.{Context, Input, Row, when_applied}
use yastubo_python.Capitated.Contracts.{
  on_continuity, after_last, add_record, bill_contract, bill, after_existing, new_record,
}
use yastubo_python.Capitated.Prices.{Price, row_price}
use yastubo_python.Capitated.Frame.{Ensures, Ensures-bind, ensured, when_applied-cases}
use yastubo_python.Capitated.Process.Covered.{
  is_open_key, is_late, Covered, IsCovered, enter-IsCovered, break-IsCovered, continue-IsCovered,
}

module _ (x : Context) (p : Person) (row : Row) (s : Session) where
  on_continuity-IsCovered :
      (l : MonthlyRecord) (o : Option Contract)
      → ((o ≡ none) × (select (is_open_key l.contract_id) s.contracts ≡ []))
        ⊎ ((d : Contract) × (o ≡ some d)
            × (select (is_open_key l.contract_id) s.contracts ≡ d ∷ []))
      → Ensures
          (IsCovered x p row s (some l))
          (on_continuity x p row (normalize_coverage_month l.coverage_month) o s)
  unfolding on_continuity
  on_continuity-IsCovered l o found = elim (Bool-cases (is_late x p row s l)) [
    | inl e ↦ rw e (break-IsCovered x p row s l o e)
    | inr e ↦ rw e (continue-IsCovered x p row s l o e found)
  ]

  after_found-IsCovered :
      (l : MonthlyRecord) (cs : List Contract)
      → select (is_open_key l.contract_id) s.contracts ≡ cs
      → Ensures (IsCovered x p row s (some l)) (
          (scalar_one_or_none cs
              >>= on_continuity x p row (normalize_coverage_month l.coverage_month))
            s)
  unfolding scalar_one_or_none
  after_found-IsCovered l [] e = on_continuity-IsCovered l none (inl (refl, e))
  after_found-IsCovered l (c ∷ []) e = on_continuity-IsCovered l (some c) (inr (c, refl, e))
  after_found-IsCovered l (c ∷ d ∷ cs) e = tt

  after_last-IsCovered :
      (last : Option MonthlyRecord) → Ensures (IsCovered x p row s last) (after_last x p row last s)
  unfolding after_last find_contract_for_record
  after_last-IsCovered none = enter-IsCovered x p row s none (inl refl)
  after_last-IsCovered (some l) =
      elim (Bool-cases (date_ltb x.coverage_month (normalize_coverage_month l.coverage_month))) [
        | inl e ↦ rw e (inl (λ h. cc))
        | inr e ↦
            rw e (after_found-IsCovered l (select (is_open_key l.contract_id) s.contracts) refl)
      ]

  module _ (i : Input) (last : Option MonthlyRecord) where
    -- the monthly record leaves the contracts alone
    add_record-IsCovered :
        (r : Row) (c : Contract) (price : Option Price) (t : Session)
        → Covered x p row s last r t
        → Ensures (IsCovered x p row s last) (add_record x i r p c price t)
    unfolding add_record insert_record new_record
    add_record-IsCovered r c none t h = inl (λ e. cc)
    add_record-IsCovered r c (some price) t h =
        let f = is_month x.company_id x.meta.product.id p.id x.coverage_month in
        elim (Bool-cases (any f t.records)) [
          | inl e ↦ rw e tt
          | inr e ↦ rw e (
              inr (record {
                contract = h.contract;
                is_contract = h.is_contract;
                stands = h.stands;
                is_active = h.is_active;
                valid_until = h.valid_until;
                origin = h.origin;
              }))
        ]

    bill_contract-IsCovered :
        (r : Row) (o : Option Contract) (t : Session)
        → Covered x p row s last r t
        → Ensures (IsCovered x p row s last) (bill_contract x i p r o t)
    bill_contract-IsCovered r none t h = inr h
    bill_contract-IsCovered r (some c) t h = add_record-IsCovered r c (row_price x r) t h

    bill-IsCovered :
        (r : Row) (t : Session)
        → IsCovered x p row s last r t
        → Ensures (IsCovered x p row s last) (when_applied (bill x i p) r t)
    unfolding bill
    bill-IsCovered r t h = elim (when_applied-cases (bill x i p) r) [
      | inr (ne, w) ↦ rw w (inl ne)
      | inl (e, w) ↦ elim h [
        | inl ne ↦ absurd (ne e)
        | inr k ↦ rw w (bill_contract-IsCovered r r.contract t k)
      ]
    ]

-- A row of a known person that comes out applied has its contract in the table of contracts, active to
-- the end of the month of the load. Either the contract is new, where the person has no last active
-- month, or a month is missing after it, or its contract is not there or not open, and then the age is
-- within the limit for an entry, and the contract has the next number, the person and the age of the
-- row; or it is the open contract of the last active month, no month is missing, the age is within the
-- limit for a renewal, and the contract keeps its key and its date of entry.
pub after_existing-IsCovered :
    (x : Context) (i : Input) (p : Person) (row : Row) (existing : Option MonthlyRecord)
    (s : Session)
    → let mine = select (is_active_of x.company_id x.meta.product.id p.id) s.records in
      Ensures (IsCovered x p row s (latest mine)) (after_existing x i p row existing s)
unfolding after_existing find_last_active_record
after_existing-IsCovered x i p row (some e) s = inl (λ h. cc)
after_existing-IsCovered x i p row none s =
    let last = latest (select (is_active_of x.company_id x.meta.product.id p.id) s.records) in
    Ensures-bind (IsCovered x p row s last) (after_last x p row last) (when_applied (bill x i p)) s
      (λ r t e. bill-IsCovered x p row s i last r t (
        ensured (IsCovered x p row s last) (after_last x p row last s) r t
          (after_last-IsCovered x p row s last) e))
