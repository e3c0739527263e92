-- ===== src/Capitated/Process/Frame.antt =====
-- The steps of a row up to its person, against the monthly records and the batch.
use yastubo_python.Prelude.{ℕ, refl, Option, none, some, List, [], ◌∷◌, select, Text, arith}
use yastubo_python.Dates.{Date}
use yastubo_python.Capitated.Tables.{
  ItemLog, MonthlyRecord, Batch, Person, Contract, Catalog, Country,
}
use yastubo_python.Capitated.Session.{
  Session, scalar_one_or_none, find_person, find_active_monthly_record, find_last_active_record,
  find_contract_for_record, insert_person, save_person, insert_contract, save_contract, insert_item,
}
use yastubo_python.Capitated.Countries.{
  find_country_by_iso3, find_country_by_iso2, probe_iso2, probe_token, or_probe_iso2,
  normalize_country_to_iso3,
}
use yastubo_python.Capitated.Sheets.{SheetMeta}
use yastubo_python.Capitated.Row.{
  Floats, Context, Input, Row, check_identity, check_age, use_age, resolve_residence,
  find_residence, resolve_repatriation, find_repatriation, check_residence, check_repatriation,
}
use yastubo_python.Capitated.Persons.{resolve_person, use_person}
use yastubo_python.Capitated.Frame.{Keeps, Keeps-pure, Keeps-raise, keeps_rules}

-- the monthly records and the batch
abbrev pub frame : Session → List MonthlyRecord × Batch
frame s = (s.records, s.batch)

pub scalar-frame : {A : Type 0} (xs : List A) → Keeps frame (scalar_one_or_none xs)
unfolding scalar_one_or_none
scalar-frame [] = record { at = λ s. refl }
scalar-frame (x ∷ []) = record { at = λ s. refl }
scalar-frame (x ∷ y ∷ xs) = record { at = λ s. refl }

find_person-frame : (c p : ℕ) (d : Text) → Keeps frame (find_person c p d)
unfolding find_person
find_person-frame c p d = record { at = λ s. (scalar-frame (select _ s.persons)).at s }

pub find_active_monthly_record-frame :
    (c p k : ℕ) (d : Date) → Keeps frame (find_active_monthly_record c p k d)
unfolding find_active_monthly_record
find_active_monthly_record-frame c p k d = record {
  at = λ s. (scalar-frame (select _ s.records)).at s;
}

pub find_last_active_record-frame : (c p k : ℕ) → Keeps frame (find_last_active_record c p k)
unfolding find_last_active_record
find_last_active_record-frame c p k = record { at = λ s. refl }

pub find_contract_for_record-frame : (k : ℕ) → Keeps frame (find_contract_for_record k)
unfolding find_contract_for_record
find_contract_for_record-frame k = record { at = λ s. (scalar-frame (select _ s.contracts)).at s }

insert_person-frame : (p : Person) → Keeps frame (insert_person p)
unfolding insert_person
insert_person-frame p = record { at = λ s. ground arith }

save_person-frame : (p : Person) → Keeps frame (save_person p)
unfolding save_person
save_person-frame p = record { at = λ s. refl }

pub insert_contract-frame : (c : Contract) → Keeps frame (insert_contract c)
unfolding insert_contract
insert_contract-frame c = record { at = λ s. refl }

pub save_contract-frame : (c : Contract) → Keeps frame (save_contract c)
unfolding save_contract
save_contract-frame c = record { at = λ s. refl }

pub insert_item-frame : (i : ItemLog) → Keeps frame (insert_item i)
unfolding insert_item
insert_item-frame i = record { at = λ s. refl }

iso3-frame : (k : Catalog) (t : Text) → Keeps frame (find_country_by_iso3 k t)
unfolding find_country_by_iso3
iso3-frame k t = search (scalar-frame)

iso2-frame : (k : Catalog) (t : Text) → Keeps frame (find_country_by_iso2 k t)
unfolding find_country_by_iso2
iso2-frame k t = search (scalar-frame)

probe_iso2-frame : (k : Catalog) (t : Text) → Keeps frame (probe_iso2 k t)
unfolding probe_iso2
probe_iso2-frame k (a ∷ b ∷ s) = search (keeps_rules, iso2-frame)
probe_iso2-frame k _ = Keeps-pure none

or_probe-frame : (k : Catalog) (t : Text) (c : Option Country) → Keeps frame (or_probe_iso2 k t c)
or_probe-frame k t none = probe_iso2-frame k t
or_probe-frame k t (some c) = Keeps-pure _

probe_token-frame : (k : Catalog) (t : Text) → Keeps frame (probe_token k t)
unfolding probe_token
probe_token-frame k t = search (keeps_rules, iso3-frame, probe_iso2-frame, or_probe-frame)

normalize-frame : (k : Catalog) (t : Text) → Keeps frame (normalize_country_to_iso3 k t)
unfolding normalize_country_to_iso3
normalize-frame k t = probe_token-frame k _

pub check_identity-frame : (i : Input) (row : Row) → Keeps frame (check_identity i row)
unfolding check_identity
check_identity-frame i row = Keeps-pure _

use_age-frame : (a : Option _) (row : Row) → Keeps frame (use_age a row)
use_age-frame none row = Keeps-raise _
use_age-frame (some a) row = Keeps-pure _

pub check_age-frame : (f : Floats) (i : Input) (row : Row) → Keeps frame (check_age f i row)
unfolding check_age
check_age-frame f i row = search (keeps_rules, use_age-frame)

find_residence-frame :
    (k : Catalog) (t : Option Text) (row : Row) → Keeps frame (find_residence k t row)
find_residence-frame k none row = Keeps-pure _
find_residence-frame k (some t) row = search (keeps_rules, iso3-frame)

pub resolve_residence-frame :
    (k : Catalog) (i : Input) (row : Row) → Keeps frame (resolve_residence k i row)
unfolding resolve_residence
resolve_residence-frame k i row = search (keeps_rules, normalize-frame, find_residence-frame)

find_repatriation-frame :
    (k : Catalog) (t : Option Text) (row : Row) → Keeps frame (find_repatriation k t row)
find_repatriation-frame k none row = Keeps-pure _
find_repatriation-frame k (some t) row = search (keeps_rules, iso3-frame)

pub resolve_repatriation-frame :
    (k : Catalog) (i : Input) (row : Row) → Keeps frame (resolve_repatriation k i row)
unfolding resolve_repatriation
resolve_repatriation-frame k i row = search (keeps_rules, normalize-frame, find_repatriation-frame)

pub check_residence-frame : (m : SheetMeta) (row : Row) → Keeps frame (check_residence m row)
unfolding check_residence
check_residence-frame m row = Keeps-pure _

pub check_repatriation-frame : (m : SheetMeta) (row : Row) → Keeps frame (check_repatriation m row)
unfolding check_repatriation
check_repatriation-frame m row = Keeps-pure _

use_person-frame :
    (x : Context) (i : Input) (row : Row) (p : Option Person) → Keeps frame (use_person x i row p)
unfolding use_person
use_person-frame x i row none = search (keeps_rules, insert_person-frame)
use_person-frame x i row (some p) = search (keeps_rules, save_person-frame)

pub resolve_person-frame :
    (x : Context) (i : Input) (row : Row) → Keeps frame (resolve_person x i row)
unfolding resolve_person
resolve_person-frame x i row = search (keeps_rules, find_person-frame, use_person-frame)

pub ruleset frame_rules = (
  keeps_rules, check_identity-frame, check_age-frame, resolve_residence-frame,
  resolve_repatriation-frame, check_residence-frame, check_repatriation-frame, resolve_person-frame,
)
