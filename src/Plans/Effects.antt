-- ===== src/Plans/Effects.antt =====
-- What clone and an activation by update of plan_versions_controller.py leave in the tables.
use yastubo_python.Prelude.{ℕ, ◌≡◌, none, Option, Text}
use yastubo_python.Prelude.Int.{ℤ}
use yastubo_python.Plans.{inactive, TermsHtml, PlanVersionRow, AgeSurchargeRow}

-- the columns of a surcharge without its keys
abbrev pub surcharge_of : AgeSurchargeRow → ℕ × ℕ × Option ℤ
surcharge_of x = (x.age_from, x.age_to, x.surcharge_percent)

-- what an administrator sets for a version, but for its name, its status and its files
pub record Settings : Type 0 where
  pub ages : Option ℕ × Option ℕ
  pub waiting_times : Option ℕ × Option ℕ × Option ℕ
  pub place : Option ℕ × Option ℕ
  pub prices : Option ℕ × Option ℕ × Option ℕ × Option ℕ
  pub terms : TermsHtml

abbrev pub settings_of : PlanVersionRow → Settings
settings_of v = record {
  ages = (v.max_entry_age, v.max_renewal_age);
  waiting_times = (v.wtime_preexisting_conditions, v.wtime_accident, v.wtime_suicide);
  place = (v.country_id, v.zone_id);
  prices = (v.price_1, v.price_2, v.price_3, v.price_4);
  terms = v.terms_html;
}

-- a new row for a product, with a name, the settings of another row, and no file
pub record IsClone (p : ℕ) (name : Text) (v new : PlanVersionRow) : Type 0 where
  pub product_id : new.product_id ≡ p
  pub name_is : new.name ≡ name
  pub inactive_first : new.status ≡ inactive
  pub settings : settings_of new ≡ settings_of v
  pub no_file_es : new.terms_file_es_id ≡ none
  pub no_file_en : new.terms_file_en_id ≡ none
