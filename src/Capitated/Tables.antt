-- ===== src/Capitated/Tables.antt =====
-- The rows that a capitated load reads and writes: common/models/capitated_product_insured.py,
-- capitated_contract.py, capitated_monthly_record.py, capitated_batch_item_log.py,
-- capitated_batch_log.py, country.py, product.py, plan_version.py, plan_version_age_surcharge.py and
-- common/support/capitated_rejection_codes.py. Prices and percentages are integers in the unit of
-- their column (0.01), instants are numbers, and a missing iso code is the empty text.
use yastubo_python.Prelude.{ℕ, Bool, true, false, Option, List, Text}
use yastubo_python.Prelude.Int.{ℤ}
use yastubo_python.Dates.{Date}

-- `status` of a person and of a monthly record
pub data RowStatus : Type 0 where
  active rolled_back : RowStatus

abbrev pub is_active : RowStatus → Bool
is_active RowStatus.active = true
is_active RowStatus.rolled_back = false

pub data ContractStatus : Type 0 where
  active expired voided rolled_back : ContractStatus

abbrev pub is_active_contract : ContractStatus → Bool
is_active_contract ContractStatus.active = true
is_active_contract _ = false

-- `status.in_([STATUS_ACTIVE, STATUS_EXPIRED])`
abbrev pub is_open : ContractStatus → Bool
is_open ContractStatus.active = true
is_open ContractStatus.expired = true
is_open ContractStatus.voided = false
is_open ContractStatus.rolled_back = false

abbrev pub is_rolled_back_contract : ContractStatus → Bool
is_rolled_back_contract ContractStatus.rolled_back = true
is_rolled_back_contract _ = false

-- `CapitatedProductInsured`
pub record Person : Type 0 where
  pub id : ℕ
  pub company_id : ℕ
  pub product_id : ℕ
  pub document_number : Text
  pub full_name : Text
  pub sex : Text
  pub residence_country_id : Option ℕ
  pub repatriation_country_id : Option ℕ
  pub age_reported : Option ℤ
  pub status : RowStatus
  pub rolled_back_at : Option ℕ
  pub rolled_back_by_user_id : Option ℕ

-- `termination_reason`
pub data Reason : Type 0 where
  continuity_break_at : Date → Reason
  no_active_records : Reason

-- `CapitatedContract`
pub record Contract : Type 0 where
  pub id : ℕ
  pub company_id : ℕ
  pub product_id : ℕ
  pub person_id : ℕ
  pub status : ContractStatus
  pub entry_date : Date
  pub valid_until : Option Date
  pub entry_age : Option ℤ
  pub wtime_suicide_ends_at : Option Date
  pub wtime_preexisting_conditions_ends_at : Option Date
  pub wtime_accident_ends_at : Option Date
  pub terminated_at : Option ℕ
  pub termination_reason : Option Reason

pub data PriceSource : Type 0 where
  country global : PriceSource

-- `CapitatedMonthlyRecord`
pub record MonthlyRecord : Type 0 where
  pub id : ℕ
  pub company_id : ℕ
  pub product_id : ℕ
  pub person_id : ℕ
  pub contract_id : ℕ
  pub coverage_month : Date
  pub plan_version_id : ℕ
  pub load_batch_id : ℕ
  pub full_name : Text
  pub sex : Text
  pub age_reported : Option ℤ
  pub residence_country_id : Option ℕ
  pub repatriation_country_id : Option ℕ
  pub price_base : ℤ
  pub price_source : PriceSource
  pub age_surcharge_rule_id : Option ℕ
  pub age_surcharge_percent : Option ℤ
  pub age_surcharge_amount : Option ℤ
  pub price_final : ℤ
  pub status : RowStatus
  pub rolled_back_at : Option ℕ
  pub rolled_back_by_user_id : Option ℕ

-- `CapitatedRejectionCodes`
pub data RejectionCode : Type 0 where
  plan_invalid_product plan_no_active_version plan_structure_invalid : RejectionCode
  person_sex_invalid person_age_invalid : RejectionCode
  person_country_code_not_found person_residence_not_allowed : RejectionCode
  person_repatriation_not_allowed : RejectionCode
  person_incongruence person_duplicated : RejectionCode
  continuity_break retroactive_not_allowed unknown_error : RejectionCode

-- the result of a row
pub data Outcome : Type 0 where
  applied rejected incongruence duplicated : Outcome

-- `CapitatedBatchItemLog`, without the readable `rejection_detail`
pub record ItemLog : Type 0 where
  pub batch_id : ℕ
  pub sheet_name : Text
  pub row_number : ℕ
  pub product_id : ℕ
  pub plan_version_id : ℕ
  pub residence_raw : Text
  pub residence_code_extracted : Option Text
  pub residence_country_id : Option ℕ
  pub repatriation_raw : Text
  pub repatriation_code_extracted : Option Text
  pub repatriation_country_id : Option ℕ
  pub document_number : Text
  pub full_name : Text
  pub sex : Text
  pub age_reported : Option ℤ
  pub result : Outcome
  pub rejection_code : Option RejectionCode
  pub person_id : Option ℕ
  pub contract_id : Option ℕ
  pub monthly_record_id : Option ℕ
  pub duplicated_record_id : Option ℕ

pub data BatchStatus : Type 0 where
  draft processed processed_zero failed rolled_back : BatchStatus

-- what `summary_json` says
pub data Summary : Type 0 where
  invalid_file openpyxl_missing unreadable_file : Summary
  plan_errors : List RejectionCode → Summary
  exception_text : Summary
  errors_by_code : (RejectionCode → ℕ) → Summary
  with_invoice : (RejectionCode → ℕ) → ℕ → Summary

-- `CapitatedBatchLog`
pub record Batch : Type 0 where
  pub id : ℕ
  pub company_id : ℕ
  pub coverage_month : Date
  pub source_file_id : Option ℕ
  pub file_hash : Option Text
  pub created_by_user_id : ℕ
  pub status : BatchStatus
  pub processed_at : Option ℕ
  pub total_rows : ℕ
  pub total_applied : ℕ
  pub total_rejected : ℕ
  pub total_duplicated : ℕ
  pub total_incongruences : ℕ
  pub total_plan_errors : ℕ
  pub total_rolled_back : ℕ
  pub is_any_month_allowed : Bool
  pub cutoff_day : Option ℕ
  pub summary_json : Option Summary
  pub rolled_back_at : Option ℕ
  pub rolled_back_by_user_id : Option ℕ

pub record Company : Type 0 where
  pub id : ℕ
  pub has_stripe_customer : Bool

pub record Country : Type 0 where
  pub id : ℕ
  pub iso2 : Text
  pub iso3 : Text

pub record Product : Type 0 where
  pub id : ℕ
  pub company_id : ℕ
  pub is_plan_capitado : Bool

-- `PlanVersionAgeSurcharge`
pub record AgeSurcharge : Type 0 where
  pub id : ℕ
  pub age_from : Option ℕ
  pub age_to : Option ℕ
  pub surcharge_percent : Option ℤ

-- a row of the pivot table `plan_version_countries`
pub record CountryPrice : Type 0 where
  pub country_id : ℕ
  pub price : Option ℤ

-- `PlanVersion`, with its relations
pub record PlanVersion : Type 0 where
  pub id : ℕ
  pub product_id : ℕ
  pub is_active : Bool
  pub countries : List Country
  pub country_prices : List CountryPrice
  pub repatriation_countries : List Country
  pub age_surcharges : List AgeSurcharge
  pub price_1 : Option ℤ
  pub max_entry_age : Option ℕ
  pub max_renewal_age : Option ℕ
  pub wtime_suicide : Option ℕ
  pub wtime_preexisting_conditions : Option ℕ
  pub wtime_accident : Option ℕ

-- The tables that a load only reads, and the flags of the settings.
pub record Catalog : Type 0 where
  pub countries : List Country
  pub products : List Product
  pub plan_versions : List PlanVersion
  pub log_applied : Bool
  pub log_rejected : Bool
  pub log_incongruence : Bool
  pub log_duplicated : Bool
