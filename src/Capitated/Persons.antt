-- ===== src/Capitated/Persons.antt =====
-- The person of a row: `_process_spreadsheet_rows` of
-- common/services/capitated/capitated_batch_processor.py.
use yastubo_python.Prelude.{
  ℕ, Bool, ◌&&◌, ◌||◌, not, Option, none, some, if◌then◌else◌, text_eq, strip, upper,
}
use yastubo_python.Prelude.Action.{pure, gets, ◌>>=◌, ◌>>◌}
use yastubo_python.Capitated.Tables.{RowStatus, Person, incongruence, person_incongruence, Country}
use yastubo_python.Capitated.Session.{Step, find_person, insert_person, save_person}
use yastubo_python.Capitated.Row.{Context, Input, Row, is_empty_input}

abbrev pub country_id : Option Country → Option ℕ
country_id none = none
country_id (some c) = some c.id

-- the test on an existing person's name and sex
unfoldable pub disagrees : Input → Person → Bool
unfolding strip upper
disagrees i p =
    not (is_empty_input (strip p.full_name)) && not (text_eq (strip p.full_name) i.full_name)
    || not (is_empty_input (upper p.sex)) && not (text_eq (upper p.sex) i.sex)

unfoldable pub updated_person : Input → Row → Person → Person
updated_person i row p = record p {
  full_name = i.full_name;
  sex = i.sex;
  residence_country_id = country_id row.res_country;
  repatriation_country_id = country_id row.rep_country;
  age_reported = row.age;
}

unfoldable pub new_person : Context → Input → Row → ℕ → Person
new_person x i row id = record {
  id = id;
  company_id = x.company_id;
  product_id = x.meta.product.id;
  document_number = i.document_number;
  full_name = i.full_name;
  sex = i.sex;
  residence_country_id = country_id row.res_country;
  repatriation_country_id = country_id row.rep_country;
  age_reported = row.age;
  status = RowStatus.active;
  rolled_back_at = none;
  rolled_back_by_user_id = none;
}

-- a new person is active; an existing one is brought up to date, unless the data disagree
unfoldable pub use_person : Context → Input → Row → Option Person → Step Row
use_person x i row none = do
  id ← gets (λ s. s.next_person)
  p ← insert_person (new_person x i row id)
  pure (record row { person = some p })
use_person x i row (some p) =
    if disagrees i p
    then pure (record row {
      result = incongruence;
      rejection_code = some person_incongruence;
      person = some p;
    })
    else do
      save_person (updated_person i row p)
      pure (record row { person = some (updated_person i row p) })

unfoldable pub resolve_person : Context → Input → Row → Step Row
resolve_person x i row = do
  found ← find_person x.company_id x.meta.product.id i.document_number
  use_person x i row found
