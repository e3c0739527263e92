-- ===== src/Capitated/Session.antt =====
-- The session of a capitated load: the tables that it writes, and the queries of
-- `CapitatedBatchProcessor`. A flush is no step of its own, since every query sees what was written
-- before it.
use yastubo_python.Prelude.{
  ℕ, ◌+◌, Bool, ◌&&◌, ◌||◌, Option, none, some, List, [], ◌∷◌, ◌++◌, any, select, ◌==◌, ltb,
  if◌then◌else◌, update_where, Text, text_eq,
}
use yastubo_python.Prelude.Action.{Action, ok, err}
use yastubo_python.Dates.{Date, date_ltb, date_eq}
use yastubo_python.Capitated.Tables.{
  Person, Contract, MonthlyRecord, ItemLog, Batch, is_active, is_open,
}

pub record Session : Type 0 where
  pub persons : List Person
  pub contracts : List Contract
  pub records : List MonthlyRecord
  pub items : List ItemLog
  pub next_person : ℕ
  pub next_contract : ℕ
  pub next_record : ℕ
  pub next_batch : ℕ
  pub batch : Batch

-- What a step raises: two rows where one is expected, a unique constraint, `float` of a text that is
-- no number, the `RuntimeError`s, and a file that could not be stored.
pub data ProcessError : Type 0 where
  multiple_results integrity_error value_error : ProcessError
  plan_errors_found wrong_company not_eligible wrong_record : ProcessError
  store_failed : ProcessError

abbrev pub Step : Type 0 → Type 0
Step A = Action Session ProcessError A

-- `scalar_one_or_none()`
unfoldable pub scalar_one_or_none : {A : Type 0} → List A → Step (Option A)
scalar_one_or_none [] s = (ok none, s)
scalar_one_or_none (x ∷ []) s = (ok (some x), s)
scalar_one_or_none (x ∷ y ∷ xs) s = (err multiple_results, s)

abbrev pub is_person : ℕ → ℕ → Text → Person → Bool
is_person company_id product_id document_number p =
    p.company_id == company_id
    && (p.product_id == product_id && text_eq p.document_number document_number)

-- `_find_person`
unfoldable pub find_person : ℕ → ℕ → Text → Step (Option Person)
unfolding scalar_one_or_none
find_person company_id product_id document_number s =
    scalar_one_or_none
      (select (λ p. is_person company_id product_id document_number p && is_active p.status)
        s.persons)
      s

-- the columns of `capitados_monthly_records_unique`
abbrev pub is_month : ℕ → ℕ → ℕ → Date → MonthlyRecord → Bool
is_month company_id product_id person_id month r =
    r.company_id == company_id
    && (r.product_id == product_id && (r.person_id == person_id && date_eq r.coverage_month month))

-- `_find_active_monthly_record`
unfoldable pub find_active_monthly_record : ℕ → ℕ → ℕ → Date → Step (Option MonthlyRecord)
unfolding scalar_one_or_none
find_active_monthly_record company_id product_id person_id month s =
    scalar_one_or_none
      (select (λ r. is_month company_id product_id person_id month r && is_active r.status)
        s.records)
      s

-- `ORDER BY coverage_month DESC, id DESC LIMIT 1`
abbrev pub is_before : MonthlyRecord → MonthlyRecord → Bool
is_before a b =
    date_ltb a.coverage_month b.coverage_month
    || date_eq a.coverage_month b.coverage_month && ltb a.id b.id

unfoldable pub latest : List MonthlyRecord → Option MonthlyRecord
latest [] = none
latest (r ∷ rs) = elim (latest rs) [
  | none ↦ some r
  | some m ↦ some (if is_before r m then m else r)
]

abbrev pub is_active_of : ℕ → ℕ → ℕ → MonthlyRecord → Bool
is_active_of company_id product_id person_id r =
    r.company_id == company_id
    && (r.product_id == product_id && (r.person_id == person_id && is_active r.status))

-- `_find_last_active_record`
unfoldable pub find_last_active_record : ℕ → ℕ → ℕ → Step (Option MonthlyRecord)
find_last_active_record company_id product_id person_id s =
    (ok (latest (select (is_active_of company_id product_id person_id) s.records)), s)

-- `_find_contract_for_record`
unfoldable pub find_contract_for_record : ℕ → Step (Option Contract)
unfolding scalar_one_or_none
find_contract_for_record contract_id s =
    scalar_one_or_none (select (λ c. c.id == contract_id && is_open c.status) s.contracts) s

-- `db.add(person)`: the unique constraint covers the rows that were rolled back too
unfoldable pub insert_person : Person → Step Person
insert_person p s =
    if any (is_person p.company_id p.product_id p.document_number) s.persons
    then (err integrity_error, s)
    else (ok p, record s { persons = s.persons ++ p ∷ []; next_person = s.next_person + 1 })

unfoldable pub save_person : Person → Step (Unit {0})
save_person p s =
    (ok tt, record s { persons = update_where (λ q. q.id == p.id) (λ _. p) s.persons })

unfoldable pub insert_contract : Contract → Step Contract
insert_contract c s =
    (ok c, record s { contracts = s.contracts ++ c ∷ []; next_contract = s.next_contract + 1 })

unfoldable pub save_contract : Contract → Step (Unit {0})
save_contract c s =
    (ok tt, record s { contracts = update_where (λ d. d.id == c.id) (λ _. c) s.contracts })

-- `db.add(monthly_record)`, with its unique constraint
unfoldable pub insert_record : MonthlyRecord → Step MonthlyRecord
insert_record r s =
    if any (is_month r.company_id r.product_id r.person_id r.coverage_month) s.records
    then (err integrity_error, s)
    else (ok r, record s { records = s.records ++ r ∷ []; next_record = s.next_record + 1 })

unfoldable pub insert_item : ItemLog → Step (Unit {0})
insert_item i s = (ok tt, record s { items = s.items ++ i ∷ [] })

unfoldable pub set_batch : (Batch → Batch) → Step (Unit {0})
set_batch f s = (ok tt, record s { batch = f s.batch })
