-- ===== src/Capitated/Rollback/Records.antt =====
-- _rollback_monthly_record_inner and the table of monthly records.
use yastubo_python.Prelude.{
  ℕ, ◌≡◌, refl, Bool, true, false, ◌&&◌, inl, inr, Option, none, some, List, [], ◌∷◌, ◌==◌,
  if◌then◌else◌, Bool-cases, update_where,
}
use yastubo_python.Prelude.Action.{Result, err, pure}
use yastubo_python.Dates.{Date}
use yastubo_python.Capitated.Tables.{RowStatus, MonthlyRecord, Contract, Person}
use yastubo_python.Capitated.Session.{
  ProcessError, wrong_record, not_eligible, Session, scalar_one_or_none, save_contract, save_person,
}
use yastubo_python.Capitated.Process.{refresh_contracts_status}
use yastubo_python.Capitated.Frame.{Keeps, Keeps-pure, Keeps-bind, keeps_rules}
use yastubo_python.Capitated.Rollback.{
  Request, can_rollback_monthly_record, mark_record, mark_person, rollback_person,
  rollback_contract, settle_contract, adjust_found, adjust_contract, recalculate_batch_stats,
  refresh, rollback_monthly_record_inner,
}

abbrev pub records_of : Session → List MonthlyRecord
records_of s = s.records

scalar-records : {A : Type 0} (xs : List A) → Keeps records_of (scalar_one_or_none xs)
unfolding scalar_one_or_none
scalar-records [] = record { at = λ s. refl }
scalar-records (x ∷ []) = record { at = λ s. refl }
scalar-records (x ∷ y ∷ xs) = record { at = λ s. refl }

save_contract-records : (c : Contract) → Keeps records_of (save_contract c)
unfolding save_contract
save_contract-records c = record { at = λ s. refl }

save_person-records : (p : Person) → Keeps records_of (save_person p)
unfolding save_person
save_person-records p = record { at = λ s. refl }

mark_person-records : (q : Request) (p : Option Person) → Keeps records_of (mark_person q p)
mark_person-records q none = Keeps-pure tt
mark_person-records q (some p) = save_person-records _

rollback_person-records : (q : Request) (k : ℕ) → Keeps records_of (rollback_person q k)
unfolding rollback_person
rollback_person-records q k = search (keeps_rules, scalar-records, mark_person-records)

rollback_contract-records : (q : Request) (c : Contract) → Keeps records_of (rollback_contract q c)
unfolding rollback_contract
rollback_contract-records q c = search (keeps_rules, save_contract-records, rollback_person-records)

settle_contract-records :
    (q : Request) (c : Contract) (l : Option MonthlyRecord)
    → Keeps records_of (settle_contract q c l)
unfolding settle_contract
settle_contract-records q c none = rollback_contract-records q c
settle_contract-records q c (some l) = save_contract-records _

adjust_found-records :
    (q : Request) (r : MonthlyRecord) (c : Option Contract) → Keeps records_of (adjust_found q r c)
adjust_found-records q r none = Keeps-pure tt
adjust_found-records q r (some c) = search (keeps_rules, settle_contract-records)

adjust_contract-records : (q : Request) (r : MonthlyRecord) → Keeps records_of (adjust_contract q r)
unfolding adjust_contract
adjust_contract-records q r = search (keeps_rules, scalar-records, adjust_found-records)

recalculate-records : (q : Request) → Keeps records_of (recalculate_batch_stats q)
unfolding recalculate_batch_stats
recalculate-records q = record { at = λ s. refl }

refresh_contracts-records : (d : Date) (k : ℕ) → Keeps records_of (refresh_contracts_status d k)
unfolding refresh_contracts_status
refresh_contracts-records d k = record { at = λ s. refl }

pub refresh-records : (q : Request) → Keeps records_of (refresh q)
unfolding refresh
refresh-records q = search (keeps_rules, recalculate-records, refresh_contracts-records)

-- the table with one record marked: who rolled it back, and when
abbrev pub marked : Request → MonthlyRecord → List MonthlyRecord → List MonthlyRecord
marked q r =
    update_where (λ m. m.id == r.id)
      (λ m. record m {
        status = RowStatus.rolled_back;
        rolled_back_at = some q.now;
        rolled_back_by_user_id = some q.user_id;
      })

-- What a rollback of a record does: it is refused and leaves the session alone, since the record is not
-- of the company and the batch, or since it is not eligible; or the record is marked.
pub data Rolls (q : Request) (r : MonthlyRecord) (s : Session) (o : Result ProcessError (Unit {0}))
    (t : Session) : Type 0 where
  is_wrong :
      (r.company_id == q.company_id && r.load_batch_id == s.batch.id) ≡ false
      → o ≡ err wrong_record
      → t ≡ s
      → Rolls q r s o t
  is_refused :
      (r.company_id == q.company_id && r.load_batch_id == s.batch.id) ≡ true
      → can_rollback_monthly_record r s ≡ false
      → o ≡ err not_eligible
      → t ≡ s
      → Rolls q r s o t
  is_marked :
      (r.company_id == q.company_id && r.load_batch_id == s.batch.id) ≡ true
      → can_rollback_monthly_record r s ≡ true
      → t.records ≡ marked q r s.records
      → Rolls q r s o t

-- The rollback of a record that is not of the company of the request and the batch of the session, or
-- that is not eligible, raises that error and changes nothing; that of any other record gives exactly
-- the rows with its key the status rolled back, the time and the user of the request, and leaves the
-- other monthly records as they are.
pub rollback_monthly_record_inner-records :
    (q : Request) (r : MonthlyRecord) (b : Bool) (s : Session)
    → let (o, t) = rollback_monthly_record_inner q r b s in Rolls q r s o t
unfolding rollback_monthly_record_inner mark_record
rollback_monthly_record_inner-records q r b s =
    elim (Bool-cases (r.company_id == q.company_id && r.load_batch_id == s.batch.id)) [
      | inr e ↦ rw e (is_wrong e refl refl)
      | inl e ↦ elim (Bool-cases (can_rollback_monthly_record r s)) [
        | inr f ↦ rw e (rw f (is_refused e f refl refl))
        | inl f ↦ rw e (
            rw f (
              is_marked e f (
                (Keeps-bind (adjust_contract q r) (λ _. if b then refresh q else pure tt)
                    (adjust_contract-records q r) (λ _. search (keeps_rules, refresh-records))).at
                  (record s { records = marked q r s.records }))))
      ]
    ]
