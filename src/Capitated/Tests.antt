-- ===== src/Capitated/Tests.antt =====
-- A small load: a company, a product with one country, and a sheet with one row.
mod Tables
mod Applied
mod Failing
mod Loads
mod Rollbacks
use yastubo_python.Prelude.{
  ℕ, Bool, true, false, Option, none, some, List, [], ◌∷◌, Text, codes, if◌then◌else◌,
}
use yastubo_python.Prelude.Int.{pos}
use yastubo_python.Dates.{Date}
use yastubo_python.Capitated.Tables.{
  RowStatus, ContractStatus, Person, Contract, MonthlyRecord, PriceSource, Batch, BatchStatus,
  Company, Country, Product, PlanVersion, Catalog,
}
use yastubo_python.Capitated.Session.{Session}
use yastubo_python.Capitated.Sheets.{Sheet, Cells, Columns, SheetMeta, digits_value}
use yastubo_python.Capitated.Row.{Floats, Context, Input, Row, start_row, is_digits}
use yastubo_python.Capitated.Process.{Load, context_of}
use yastubo_python.Capitated.Excel.{Upload}
use yastubo_python.Capitated.Rollback.{Request}

-- whole numbers, and no surcharge
abbrev pub floats : Floats
floats = record {
  int_float = λ t. if is_digits t then some (pos (digits_value 0 t)) else none;
  surcharged = λ price percent. price;
}

abbrev pub spain : Country
spain = record { id = 1; iso2 = codes "ES"; iso3 = codes "ESP" }

abbrev pub company : Company
company = record { id = 7; has_stripe_customer = true }

abbrev pub product : Product
product = record { id = 3; company_id = 7; is_plan_capitado = true }

abbrev pub plan : PlanVersion
plan = record {
  id = 4;
  product_id = 3;
  is_active = true;
  countries = spain ∷ [];
  country_prices = [];
  repatriation_countries = [];
  age_surcharges = [];
  price_1 = some (pos 1500);
  max_entry_age = some 70;
  max_renewal_age = some 75;
  wtime_suicide = none;
  wtime_preexisting_conditions = none;
  wtime_accident = some 30;
}

abbrev pub catalog : Catalog
catalog = record {
  countries = spain ∷ [];
  products = product ∷ [];
  plan_versions = plan ∷ [];
  log_applied = true;
  log_rejected = true;
  log_incongruence = true;
  log_duplicated = true;
}

abbrev pub may : Date
may = record { year = 2025; month = 5; day = 1 }

abbrev pub june : Date
june = record { year = 2025; month = 6; day = 1 }

abbrev pub load : Load
load = record {
  floats = floats;
  catalog = catalog;
  company = company;
  coverage_month = june;
  now = 100;
  today = record { year = 2025; month = 6; day = 15 };
}

abbrev pub header : Cells
header =
    some (codes "ID")
    ∷ some (codes "NOMBRE")
    ∷ some (codes "RESIDENCIA")
    ∷ some (codes "NACIONALIDAD")
    ∷ some (codes "SEXO")
    ∷ some (codes "EDAD")
    ∷ []

abbrev pub row_of : Text → Cells
row_of age =
    some (codes "X1")
    ∷ some (codes "Ana")
    ∷ some (codes "ESP")
    ∷ some (codes "ES")
    ∷ some (codes "F")
    ∷ some age
    ∷ []

abbrev pub sheet : Sheet
sheet = record { title = codes "(3) Plan"; first_row = header; rows = row_of (codes "41") ∷ [] }

-- a good row, and one whose age passes the test on its characters and is no number
abbrev pub bad_sheet : Sheet
bad_sheet = record sheet { rows = row_of (codes "41") ∷ row_of (codes "--5") ∷ [] }

abbrev pub meta : SheetMeta
meta = record {
  sheet = sheet;
  product = product;
  plan_version = plan;
  columns = record { id = 1; nombre = 2; residencia = 3; nacionalidad = 4; sexo = 5; edad = 6 };
  residence_iso3 = codes "ESP" ∷ [];
  repatriation_iso3 = [];
  country_prices = [];
}

abbrev pub context : Context
context = context_of load (codes "(3) Plan") meta

abbrev pub input : Input
input = record {
  document_number = codes "X1";
  full_name = codes "Ana";
  sex = codes "F";
  age_raw = codes "41";
  res_raw = codes "ESP";
  rep_raw = codes "ES";
}
