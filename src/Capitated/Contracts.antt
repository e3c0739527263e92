-- ===== src/Capitated/Contracts.antt =====
-- One row of the load, from the contract to the monthly record and its price:
-- `_process_spreadsheet_rows` and `_create_new_contract` of
-- common/services/capitated/capitated_batch_processor.py.
use yastubo_python.Prelude.{ℕ, Bool, false, ◌&&◌, not, Option, none, some, ◌==◌, if◌then◌else◌}
use yastubo_python.Prelude.Action.{pure, gets, ◌>>=◌, ◌>>◌}
use yastubo_python.Prelude.Int.{ℤ, pos, ltb_ℤ}
use yastubo_python.Dates.{
  Date, date_ltb, normalize_coverage_month, add_month, end_of_month, add_days,
}
use yastubo_python.Capitated.Tables.{
  RowStatus, ContractStatus, is_active_contract, Person, Contract, MonthlyRecord, PriceSource,
  continuity_break_at, incongruence, duplicated, person_age_invalid, person_incongruence,
  person_duplicated, continuity_break, retroactive_not_allowed,
}
use yastubo_python.Capitated.Session.{
  Step, find_active_monthly_record, find_last_active_record, find_contract_for_record,
  insert_contract, save_contract, insert_record,
}
use yastubo_python.Capitated.Row.{Context, Input, Row, reject, when_applied}
use yastubo_python.Capitated.Persons.{country_id}
use yastubo_python.Capitated.Prices.{base_price, Price, row_price}

-- `limit and age is not None and age > limit`
abbrev pub exceeds : Option ℕ → Option ℤ → Bool
exceeds none age = false
exceeds (some limit) none = false
exceeds (some limit) (some age) = not (limit == 0) && ltb_ℤ (pos limit) age

-- `entry_date + timedelta(days=int(days)) if days else None`
abbrev pub waiting_end : Date → Option ℕ → Option Date
waiting_end entry none = none
waiting_end entry (some days) = if days == 0 then none else some (add_days days entry)

-- the row that `_create_new_contract` adds
unfoldable pub new_contract : Context → Person → Option ℤ → ℕ → Contract
unfolding normalize_coverage_month end_of_month add_days
new_contract x person age id =
    let entry = normalize_coverage_month x.coverage_month in
    let plan = x.meta.plan_version in
    record {
      id = id;
      company_id = x.company_id;
      product_id = x.meta.product.id;
      person_id = person.id;
      status = ContractStatus.active;
      entry_date = entry;
      valid_until = some (end_of_month x.coverage_month);
      entry_age = age;
      wtime_suicide_ends_at = waiting_end entry plan.wtime_suicide;
      wtime_preexisting_conditions_ends_at = waiting_end entry plan.wtime_preexisting_conditions;
      wtime_accident_ends_at = waiting_end entry plan.wtime_accident;
      terminated_at = none;
      termination_reason = none;
    }

unfoldable pub create_new_contract : Context → Person → Option ℤ → Step Contract
create_new_contract x person age = do
  id ← gets (λ s. s.next_contract)
  insert_contract (new_contract x person age id)

-- a new contract, if the age allows one
unfoldable pub enter : Context → Person → Row → Step Row
enter x person row =
    if exceeds x.meta.plan_version.max_entry_age row.age
    then pure (reject person_age_invalid row)
    else do c ← create_new_contract x person row.age; pure (record row { contract = some c })

-- the contract that a break of continuity ends
unfoldable pub expire_contract : Context → Option Contract → Step (Unit {0})
expire_contract x none = pure tt
expire_contract x (some c) =
    if is_active_contract c.status
    then save_contract (record c {
      status = ContractStatus.expired;
      terminated_at = some x.now;
      termination_reason = some (continuity_break_at x.coverage_month);
    })
    else pure tt

-- a month is missing: a new contract, and the old one ends
unfoldable pub break_continuity : Context → Person → Row → Option Contract → Step Row
break_continuity x person row existing =
    if exceeds x.meta.plan_version.max_entry_age row.age
    then pure (reject person_age_invalid row)
    else do
      expire_contract x existing
      c ← create_new_contract x person row.age
      pure (record row { contract = some c; rejection_code = some continuity_break })

unfoldable pub renewed : Date → Contract → Contract
renewed month c = record c {
  status = ContractStatus.active;
  valid_until = some (end_of_month month);
}

-- the same or the next month: the contract goes on
unfoldable pub continue_contract : Context → Person → Row → Option Contract → Step Row
continue_contract x person row none = enter x person row
continue_contract x person row (some c) =
    if exceeds x.meta.plan_version.max_renewal_age row.age
    then pure (reject person_age_invalid row)
    else do
      save_contract (renewed x.coverage_month c)
      pure (record row { contract = some (renewed x.coverage_month c) })

-- a break, if the month comes after the one that follows the last
unfoldable pub on_continuity : Context → Person → Row → Date → Option Contract → Step Row
on_continuity x person row last_month existing =
    if date_ltb (add_month last_month) x.coverage_month
    then break_continuity x person row existing
    else continue_contract x person row existing

-- the contract for a person whose last active record is known
unfoldable pub after_last : Context → Person → Row → Option MonthlyRecord → Step Row
after_last x person row none = enter x person row
after_last x person row (some last) =
    let last_month = normalize_coverage_month last.coverage_month in
    if date_ltb x.coverage_month last_month then pure (reject retroactive_not_allowed row) else do
      existing ← find_contract_for_record last.contract_id
      on_continuity x person row last_month existing

unfoldable pub new_record :
    Context → Input → Row → Person → Contract → ℤ × PriceSource → Price → ℕ → ℕ → MonthlyRecord
new_record x i row person contract base price batch_id id = record {
  id = id;
  company_id = x.company_id;
  product_id = x.meta.product.id;
  person_id = person.id;
  contract_id = contract.id;
  coverage_month = x.coverage_month;
  plan_version_id = x.meta.plan_version.id;
  load_batch_id = batch_id;
  full_name = i.full_name;
  sex = i.sex;
  age_reported = row.age;
  residence_country_id = country_id row.res_country;
  repatriation_country_id = country_id row.rep_country;
  price_base = base.0;
  price_source = base.1;
  age_surcharge_rule_id = price.rule_id;
  age_surcharge_percent = price.percent;
  age_surcharge_amount = price.amount;
  price_final = price.final;
  status = RowStatus.active;
  rolled_back_at = none;
  rolled_back_by_user_id = none;
}

unfoldable pub add_record : Context → Input → Row → Person → Contract → Option Price → Step Row
add_record x i row person contract none =
    pure (record row { result = incongruence; rejection_code = some person_incongruence })
add_record x i row person contract (some price) = do
  id ← gets (λ s. s.next_record)
  batch_id ← gets (λ s. s.batch.id)
  r ← insert_record (new_record x i row person contract (base_price x row) price batch_id id)
  pure (record row { monthly_record_id = some r.id })

abbrev pub bill_contract : Context → Input → Person → Row → Option Contract → Step Row
bill_contract x i person row none = pure row
bill_contract x i person row (some contract) = add_record x i row person contract (row_price x row)

-- `if result == "applied" and contract:`
unfoldable pub bill : Context → Input → Person → Row → Step Row
bill x i person row = bill_contract x i person row row.contract

-- a month that is active already, or the contract and the monthly record
unfoldable pub after_existing : Context → Input → Person → Row → Option MonthlyRecord → Step Row
after_existing x i person row (some existing) = pure (record row {
  result = duplicated;
  rejection_code = some person_duplicated;
  duplicated_record_id = some existing.id;
})
after_existing x i person row none = do
  last ← find_last_active_record x.company_id x.meta.product.id person.id
  r ← after_last x person row last
  when_applied (bill x i person) r

abbrev pub with_person : Context → Input → Row → Option Person → Step Row
with_person x i row none = pure row
with_person x i row (some person) = do
  existing ← find_active_monthly_record x.company_id x.meta.product.id person.id x.coverage_month
  after_existing x i person row existing

-- `if result == "applied" and person:`
unfoldable pub resolve_contract : Context → Input → Row → Step Row
resolve_contract x i row = with_person x i row row.person
