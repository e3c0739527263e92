-- ===== src/Capitated/Rollback.antt =====
-- The rollback of a batch and of a monthly record:
-- common/services/capitated/capitated_batch_processor.py.
pub mod Stats
pub mod Records
pub mod Others
use yastubo_python.Prelude.{
  ℕ, suc, ◌+◌, Bool, true, false, ◌&&◌, ◌||◌, not, Option, none, some, List, [], ◌∷◌, select, any,
  ◌==◌, ltb, if◌then◌else◌, update_where, count_where,
}
use yastubo_python.Prelude.Action.{Result, ok, err, pure, raise, raise_if, gets, ◌>>=◌, ◌>>◌}
use yastubo_python.Dates.{Date, date_ltb, end_of_month}
use yastubo_python.Capitated.Tables.{
  RowStatus, is_active, ContractStatus, is_open, is_rolled_back_contract, Reason, no_active_records,
  Person, Contract, MonthlyRecord, Batch, BatchStatus,
}
use yastubo_python.Capitated.Session.{
  Session, Step, wrong_company, not_eligible, wrong_record, scalar_one_or_none, save_contract,
  save_person, latest, set_batch,
}
use yastubo_python.Capitated.Process.{refresh_contracts_status}

-- Who rolls back, when, and the day that contracts are held against.
pub record Request : Type 0 where
  pub company_id : ℕ
  pub user_id : ℕ
  pub now : ℕ
  pub today : Date

abbrev pub is_processed : BatchStatus → Bool
is_processed BatchStatus.processed = true
is_processed _ = false

-- the records of a batch
abbrev pub is_of_batch : ℕ → ℕ → MonthlyRecord → Bool
is_of_batch company_id batch_id r = r.company_id == company_id && r.load_batch_id == batch_id

abbrev pub is_active_of_batch : ℕ → ℕ → MonthlyRecord → Bool
is_active_of_batch company_id batch_id r = is_of_batch company_id batch_id r && is_active r.status

abbrev pub is_rolled_back_of_batch : ℕ → ℕ → MonthlyRecord → Bool
is_rolled_back_of_batch company_id batch_id r =
    is_of_batch company_id batch_id r && not (is_active r.status)

-- `can_rollback_batch`
unfoldable pub can_rollback_batch : Session → Bool
can_rollback_batch s =
    is_processed s.batch.status && any (is_active_of_batch s.batch.company_id s.batch.id) s.records

-- an active record of the same contract for a later month
abbrev pub is_later : MonthlyRecord → MonthlyRecord → Bool
is_later r q =
    q.company_id == r.company_id
    && (q.contract_id == r.contract_id
        && (date_ltb r.coverage_month q.coverage_month && is_active q.status))

-- `can_rollback_monthly_record`
unfoldable pub can_rollback_monthly_record : MonthlyRecord → Session → Bool
can_rollback_monthly_record r s =
    is_active r.status && (not (r.contract_id == 0) && not (any (is_later r) s.records))

abbrev pub rolled_back_record : Request → MonthlyRecord → MonthlyRecord
rolled_back_record q r = record r {
  status = RowStatus.rolled_back;
  rolled_back_at = some q.now;
  rolled_back_by_user_id = some q.user_id;
}

unfoldable pub mark_record : Request → MonthlyRecord → Step (Unit {0})
mark_record q r s = (
  ok tt,
  record s { records = update_where (λ m. m.id == r.id) (rolled_back_record q) s.records },
)

abbrev pub rolled_back_person : Request → Person → Person
rolled_back_person q p = record p {
  status = RowStatus.rolled_back;
  rolled_back_at = some q.now;
  rolled_back_by_user_id = some q.user_id;
}

abbrev pub mark_person : Request → Option Person → Step (Unit {0})
mark_person q none = pure tt
mark_person q (some p) = save_person (rolled_back_person q p)

-- `_rollback_person`
unfoldable pub rollback_person : Request → ℕ → Step (Unit {0})
rollback_person q person_id = if person_id == 0 then pure tt else (do
  persons ← gets (λ s. s.persons)
  found ← scalar_one_or_none (select (λ p. p.id == person_id) persons)
  mark_person q found)

abbrev pub rolled_back_contract : Request → Contract → Contract
rolled_back_contract q c = record c {
  status = ContractStatus.rolled_back;
  terminated_at = some q.now;
  termination_reason = some no_active_records;
}

-- another contract of the person for the product that is active or expired
abbrev pub is_open_like : Contract → Contract → Bool
is_open_like c d =
    d.company_id == c.company_id
    && (d.product_id == c.product_id && (d.person_id == c.person_id && is_open d.status))

-- `_rollback_contract`
unfoldable pub rollback_contract : Request → Contract → Step (Unit {0})
rollback_contract q c = if is_rolled_back_contract c.status then pure tt else (do
  save_contract (rolled_back_contract q c)
  has_active ← gets (λ s. any (is_open_like c) s.contracts)
  (if has_active then pure tt else rollback_person q c.person_id))

abbrev pub is_active_under : ℕ → ℕ → MonthlyRecord → Bool
is_active_under company_id contract_id r =
    r.company_id == company_id && (r.contract_id == contract_id && is_active r.status)

abbrev pub reopened : MonthlyRecord → Contract → Contract
reopened last c = record c {
  status = ContractStatus.active;
  valid_until = some (end_of_month last.coverage_month);
}

-- the contract ends with its last active record, or is rolled back with the last of them
unfoldable pub settle_contract : Request → Contract → Option MonthlyRecord → Step (Unit {0})
settle_contract q c none = rollback_contract q c
settle_contract q c (some last) = save_contract (reopened last c)

abbrev pub adjust_found : Request → MonthlyRecord → Option Contract → Step (Unit {0})
adjust_found q r none = pure tt
adjust_found q r (some c) = do
  last ← gets (λ s. latest (select (is_active_under r.company_id c.id) s.records))
  settle_contract q c last

unfoldable pub adjust_contract : Request → MonthlyRecord → Step (Unit {0})
adjust_contract q r = if r.contract_id == 0 then pure tt else (do
  contracts ← gets (λ s. s.contracts)
  found ← scalar_one_or_none (select (λ c. c.id == r.contract_id) contracts)
  adjust_found q r found)

abbrev pub recalculated : ℕ → ℕ → Batch → Batch
recalculated total_active total_rolled_back b = record b {
  total_applied = total_active;
  total_rolled_back = total_rolled_back;
}

abbrev pub closed_batch : Request → Batch → Batch
closed_batch q b = record b {
  status = BatchStatus.rolled_back;
  rolled_back_at = some q.now;
  rolled_back_by_user_id = some q.user_id;
}

-- `_recalculate_batch_stats`
unfoldable pub recalculate_batch_stats : Request → Step (Unit {0})
recalculate_batch_stats q s =
    let total_active = count_where (is_active_of_batch s.batch.company_id s.batch.id) s.records in
    let total_rolled_back =
      count_where (is_rolled_back_of_batch s.batch.company_id s.batch.id) s.records in
    let b = recalculated total_active total_rolled_back s.batch in
    (
      ok tt,
      record s {
        batch = if total_active == 0 && ltb 0 total_rolled_back then closed_batch q b else b;
      },
    )

-- the statistics and the contracts of the company
unfoldable pub refresh : Request → Step (Unit {0})
refresh q = do recalculate_batch_stats q; refresh_contracts_status q.today q.company_id; pure tt

-- `_rollback_monthly_record_inner`
unfoldable pub rollback_monthly_record_inner : Request → MonthlyRecord → Bool → Step (Unit {0})
rollback_monthly_record_inner q r recalculate = do
  batch_id ← gets (λ s. s.batch.id)
  raise_if (not (r.company_id == q.company_id && r.load_batch_id == batch_id)) wrong_record
  eligible ← gets (can_rollback_monthly_record r)
  raise_if (not eligible) not_eligible
  mark_record q r
  adjust_contract q r
  (if recalculate then refresh q else pure tt)

-- `rollback_monthly_record`
unfoldable pub rollback_monthly_record : Request → MonthlyRecord → Step (Unit {0})
rollback_monthly_record q r = rollback_monthly_record_inner q r true

-- the loop of `rollback_batch`: what cannot be rolled back is passed over
unfoldable pub rollback_records : Request → List MonthlyRecord → Step (Unit {0})
rollback_records q [] = pure tt
rollback_records q (r ∷ rs) = do
  eligible ← gets (can_rollback_monthly_record r)
  (if eligible then rollback_monthly_record_inner q r false else pure tt)
  rollback_records q rs

-- the end of `rollback_batch`, over the records that were found
unfoldable pub rollback_found : Request → List MonthlyRecord → Step (Unit {0})
rollback_found q [] = pure tt
rollback_found q (r ∷ rs) = do rollback_records q (r ∷ rs); refresh q

-- `rollback_batch`
unfoldable pub rollback_batch : Request → Step (Unit {0})
rollback_batch q = do
  company_id ← gets (λ s. s.batch.company_id)
  raise_if (not (company_id == q.company_id)) wrong_company
  eligible ← gets can_rollback_batch
  raise_if (not eligible) not_eligible
  found ← gets (λ s. select (is_of_batch q.company_id s.batch.id) s.records)
  rollback_found q found
