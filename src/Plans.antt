-- ===== src/Plans.antt =====
-- The controller of plan versions, services/products/app/controllers/plan_versions_controller.py: the
-- tables, the errors and the helpers of its handlers.
pub mod Versions
pub mod Clones
pub mod Surcharges
pub mod Terms
pub mod Coverages
pub mod Requests
pub mod Active
pub mod Activation
pub mod Writes
pub mod Table
pub mod Effects
pub mod Covered
pub mod Named
pub mod CoverTable
pub mod Again
pub mod Sole
mod Tests
use yastubo_python.Prelude.{
  ℕ, Bool, true, false, ◌&&◌, not, Option, none, some, List, [], ◌∷◌, select, ◌==◌, leb, member,
  if◌then◌else◌, update_where, Text,
}
use yastubo_python.Prelude.Action.{Result, ok, err, Action, ◌>>=◌, gets}
use yastubo_python.Prelude.Database.{require}
use yastubo_python.Prelude.Int.{ℤ}

-- `PlanVersion.STATUS_…`
pub data PlanVersionStatus : Type 0 where
  inactive active archived : PlanVersionStatus

-- The column `terms_html`: null, a text that is no JSON object, or an object with the texts of the two
-- languages.
pub data TermsHtml : Type 0 where
  no_terms : TermsHtml
  plain : Text → TermsHtml
  document : Option Text → Option Text → TermsHtml

-- A row of `plan_versions`; prices are in cents.
pub record PlanVersionRow : Type 0 where
  pub id : ℕ
  pub product_id : ℕ
  pub name : Text
  pub status : PlanVersionStatus
  pub terms_html : TermsHtml
  pub price_1 : Option ℕ
  pub price_2 : Option ℕ
  pub price_3 : Option ℕ
  pub price_4 : Option ℕ
  pub max_entry_age : Option ℕ
  pub max_renewal_age : Option ℕ
  pub wtime_preexisting_conditions : Option ℕ
  pub wtime_accident : Option ℕ
  pub wtime_suicide : Option ℕ
  pub terms_file_es_id : Option ℕ
  pub terms_file_en_id : Option ℕ
  pub zone_id : Option ℕ
  pub country_id : Option ℕ

-- A row of `plan_version_age_surcharges`; the percentage is in hundredths.
pub record AgeSurchargeRow : Type 0 where
  pub id : ℕ
  pub plan_version_id : ℕ
  pub age_from : ℕ
  pub age_to : ℕ
  pub surcharge_percent : Option ℤ

-- A row of `plan_version_countries` or of `plan_version_repatriation_countries`.
pub record CountryLink : Type 0 where
  pub plan_version_id : ℕ
  pub country_id : ℕ
  pub price : Option ℕ

-- `{"es": …, "en": …}` in a column
pub record Translation : Type 0 where
  pub es : Option Text
  pub en : Option Text

-- A row of `plan_version_coverages`; the decimal value is in hundredths.
pub record PlanVersionCoverage : Type 0 where
  pub id : ℕ
  pub plan_version_id : ℕ
  pub coverage_id : ℕ
  pub sort_order : Option ℕ
  pub value_int : Option ℤ
  pub value_decimal : Option ℤ
  pub value_text : Option Translation
  pub notes : Option Translation

-- the columns of `coverages`, `units_of_measure` and `coverage_categories` that an answer shows
pub record Coverage : Type 0 where
  pub id : ℕ
  pub category_id : Option ℕ
  pub unit_id : Option ℕ
  pub name : Option Translation
  pub description : Option Translation

pub record UnitOfMeasure : Type 0 where
  pub id : ℕ
  pub name : Option Translation
  pub measure_type : Text

pub record CoverageCategory : Type 0 where
  pub id : ℕ
  pub name : Option Translation

-- The tables. Of products, countries, zones and files only the keys are read, of the logs and records
-- of loads only the versions that they name.
pub record Session : Type 0 where
  pub product_ids : List ℕ
  pub country_ids : List ℕ
  pub zone_ids : List ℕ
  pub file_ids : List ℕ
  pub versions : List PlanVersionRow
  pub surcharges : List AgeSurchargeRow
  pub countries : List CountryLink
  pub repatriation_countries : List CountryLink
  pub coverages : List Coverage
  pub units : List UnitOfMeasure
  pub categories : List CoverageCategory
  pub plan_version_coverages : List PlanVersionCoverage
  pub loaded_versions : List ℕ
  pub next_version : ℕ
  pub next_surcharge : ℕ
  pub next_coverage : ℕ

pub data HttpError : Type 0 where
  product_not_found version_not_found surcharge_not_found version_in_use : HttpError
  coverage_not_found several_rows integrity_error data_error : HttpError

abbrev pub Handler : Type 0 → Type 0
Handler A = Action Session HttpError A

-- a query by a primary key, which has one row at most
abbrev pub first_row : {A : Type 0} → List A → Option A
first_row [] = none
first_row (x ∷ xs) = some x

-- `_get_product`
unfoldable pub get_product : ℕ → Handler (Unit {0})
get_product product_id s =
    if member product_id s.product_ids then (ok tt, s) else (err product_not_found, s)

abbrev pub is_version : ℕ → ℕ → PlanVersionRow → Bool
is_version product_id version_id v = v.id == version_id && v.product_id == product_id

-- `_get_version`
unfoldable pub get_version : ℕ → ℕ → Handler PlanVersionRow
get_version product_id version_id s =
    require version_not_found (first_row (select (is_version product_id version_id) s.versions)) s

abbrev pub is_active : PlanVersionRow → Bool
is_active v = elim v.status [ active ↦ true | _ ↦ false ]

abbrev pub can_be_activated : PlanVersionRow → Bool
can_be_activated v = true

abbrev pub is_in_use : PlanVersionRow → Bool
is_in_use v = false

abbrev pub is_deletable : PlanVersionRow → Bool
is_deletable v = not (is_in_use v)

-- `PlanVersionOut`, with the row for its columns
pub record PlanVersionOut : Type 0 where
  pub row : PlanVersionRow
  pub can_be_activated : Bool
  pub is_in_use : Bool
  pub is_deletable : Bool

-- `_build_version_out`
unfoldable pub build_version_out : PlanVersionRow → PlanVersionOut
build_version_out v = record {
  row = v;
  can_be_activated = can_be_activated v;
  is_in_use = is_in_use v;
  is_deletable = is_deletable v;
}

-- an attribute of the version with a key is written
abbrev pub set_version : ℕ → (PlanVersionRow → PlanVersionRow) → Handler (Unit {0})
set_version version_id f s =
    (ok tt, record s { versions = update_where (λ v. v.id == version_id) f s.versions })
