-- ===== src/Capitated/Row.antt =====
-- One row of the load: the checks of `_process_spreadsheet_rows` in
-- common/services/capitated/capitated_batch_processor.py up to the person.
use yastubo_python.Prelude.{
  ℕ, Bool, true, false, ◌&&◌, ◌||◌, not, Option, none, some, List, [], ◌∷◌, any, all, ◌==◌,
  if◌then◌else◌, Text, codes, text_eq, strip, upper, is_digit,
}
use yastubo_python.Prelude.Action.{pure, raise, ◌>>=◌}
use yastubo_python.Prelude.Int.{ℤ, pos, ltb_ℤ}
use yastubo_python.Dates.{Date}
use yastubo_python.Capitated.Tables.{
  Person, Contract, Outcome, applied, rejected, RejectionCode, person_sex_invalid,
  person_age_invalid, person_country_code_not_found, person_residence_not_allowed,
  person_repatriation_not_allowed, unknown_error, Country, Catalog,
}
use yastubo_python.Capitated.Session.{Step, value_error}
use yastubo_python.Capitated.Countries.{normalize_country_to_iso3, find_country_by_iso3}
use yastubo_python.Capitated.Sheets.{Values, SheetMeta}

-- Binary floating point, which the language has and this development has not: `int(float(text))`,
-- with no value where that raises, and `round(price * (100.0 + percent) / 100, 2)`, both arguments
-- and the result in hundredths.
pub record Floats : Type 0 where
  pub int_float : Text → Option ℤ
  pub surcharged : ℤ → ℤ → ℤ

-- What is fixed while the rows of a sheet are processed; `now` stands for `datetime.utcnow()`.
pub record Context : Type 0 where
  pub floats : Floats
  pub catalog : Catalog
  pub company_id : ℕ
  pub coverage_month : Date
  pub now : ℕ
  pub sheet_name : Text
  pub meta : SheetMeta

-- the texts of a row as the checks read them
pub record Input : Type 0 where
  pub document_number : Text
  pub full_name : Text
  pub sex : Text
  pub age_raw : Text
  pub res_raw : Text
  pub rep_raw : Text

-- `s[:1]`
abbrev pub first_char : Text → Text
first_char [] = []
first_char (c ∷ s) = c ∷ []

unfoldable pub input_of : Values → Input
input_of v = record {
  document_number = strip v.id;
  full_name = strip v.nombre;
  sex = first_char (upper (strip v.sexo));
  age_raw = strip v.edad;
  res_raw = v.residencia;
  rep_raw = v.nacionalidad;
}

-- the local variables of the loop
pub record Row : Type 0 where
  pub result : Outcome
  pub rejection_code : Option RejectionCode
  pub age : Option ℤ
  pub res_iso3 : Option Text
  pub rep_iso3 : Option Text
  pub res_country : Option Country
  pub rep_country : Option Country
  pub person : Option Person
  pub contract : Option Contract
  pub monthly_record_id : Option ℕ
  pub duplicated_record_id : Option ℕ

abbrev pub start_row : Row
start_row = record {
  result = applied;
  rejection_code = none;
  age = none;
  res_iso3 = none;
  rep_iso3 = none;
  res_country = none;
  rep_country = none;
  person = none;
  contract = none;
  monthly_record_id = none;
  duplicated_record_id = none;
}

abbrev pub reject : RejectionCode → Row → Row
reject c row = record row { result = rejected; rejection_code = some c }

-- `if result == "applied":`
unfoldable pub when_applied : (Row → Step Row) → Row → Step Row
when_applied f row = elim row.result [ applied ↦ f row | _ ↦ pure row ]

abbrev pub is_empty_input : Text → Bool
is_empty_input [] = true
is_empty_input (c ∷ s) = false

abbrev pub is_sex : Text → Bool
is_sex s = text_eq s (codes "M") || text_eq s (codes "F")

-- the first three checks
unfoldable pub check_identity : Input → Row → Step Row
check_identity i row = pure (
    if is_empty_input i.document_number
    then reject unknown_error row
    else if is_empty_input i.full_name
    then reject unknown_error row
    else if not (is_sex i.sex)
    then reject person_sex_invalid row
    else row)

-- `s.replace(".", "", 1)`
unfoldable pub remove_dot : Text → Text
remove_dot [] = []
remove_dot (c ∷ s) = let rest = remove_dot s in if c == b'.' then s else c ∷ rest

-- `s.lstrip("-")`
unfoldable pub strip_dashes : Text → Text
strip_dashes [] = []
strip_dashes (c ∷ s) = let rest = strip_dashes s in if c == b'-' then rest else c ∷ s

-- `s.isdigit()`
abbrev pub is_digits : Text → Bool
is_digits [] = false
is_digits (c ∷ s) = all is_digit (c ∷ s)

-- the test that `age_raw` passes before it goes to `float`
unfoldable pub is_age_text : Text → Bool
unfolding remove_dot strip_dashes
is_age_text s = not (is_empty_input s) && is_digits (strip_dashes (remove_dot s))

-- a negative age stays in the row that it rejects
abbrev pub set_age : ℤ → Row → Row
set_age a row =
    if ltb_ℤ a (pos 0)
    then record (reject person_age_invalid row) { age = some a }
    else record row { age = some a }

abbrev pub use_age : Option ℤ → Row → Step Row
use_age none row = raise value_error
use_age (some a) row = pure (set_age a row)

unfoldable pub check_age : Floats → Input → Row → Step Row
unfolding is_age_text
check_age floats i row =
    if is_age_text i.age_raw
    then use_age (floats.int_float i.age_raw) row
    else pure (reject person_age_invalid row)

abbrev pub use_residence : Text → Option Country → Row → Row
use_residence iso3 none row = record (reject person_country_code_not_found row) {
  res_iso3 = some iso3;
}
use_residence iso3 (some c) row = record row { res_iso3 = some iso3; res_country = some c }

abbrev pub find_residence : Catalog → Option Text → Row → Step Row
find_residence catalog none row = pure (reject person_country_code_not_found row)
find_residence catalog (some iso3) row = do
  found ← find_country_by_iso3 catalog iso3
  pure (use_residence iso3 found row)

-- the country of residence
unfoldable pub resolve_residence : Catalog → Input → Row → Step Row
resolve_residence catalog i row = do
  iso3 ← normalize_country_to_iso3 catalog i.res_raw
  find_residence catalog iso3 row

abbrev pub use_repatriation : Text → Option Country → Row → Row
use_repatriation iso3 none row = record (reject person_country_code_not_found row) {
  rep_iso3 = some iso3;
}
use_repatriation iso3 (some c) row = record row { rep_iso3 = some iso3; rep_country = some c }

abbrev pub find_repatriation : Catalog → Option Text → Row → Step Row
find_repatriation catalog none row = pure (reject person_country_code_not_found row)
find_repatriation catalog (some iso3) row = do
  found ← find_country_by_iso3 catalog iso3
  pure (use_repatriation iso3 found row)

-- the country of repatriation
unfoldable pub resolve_repatriation : Catalog → Input → Row → Step Row
resolve_repatriation catalog i row = do
  iso3 ← normalize_country_to_iso3 catalog i.rep_raw
  find_repatriation catalog iso3 row

-- `iso3 in allowed`
abbrev pub is_allowed : Option Text → List Text → Bool
is_allowed none allowed = false
is_allowed (some iso3) allowed = any (text_eq iso3) allowed

unfoldable pub check_residence : SheetMeta → Row → Step Row
check_residence meta row = pure (
    if is_allowed row.res_iso3 meta.residence_iso3
    then row
    else reject person_residence_not_allowed row)

-- an empty list of countries of repatriation allows all of them
unfoldable pub check_repatriation : SheetMeta → Row → Step Row
check_repatriation meta row = pure (elim meta.repatriation_iso3 [
  | [] ↦ row
  | t ∷ ts ↦
      if is_allowed row.rep_iso3 (t ∷ ts) then row else reject person_repatriation_not_allowed row
])
