-- ===== src/Capitated/Tests/Applied.antt =====
-- The run of one row at the sample.
use yastubo_python.Prelude.{◌≡◌, refl, Bool, true, false, strip, lstrip, upper}
use yastubo_python.Prelude.Action.{Result, ok, err}
use yastubo_python.Capitated.Session.{
  Session, ProcessError, scalar_one_or_none, find_person, insert_person, find_active_monthly_record,
  find_last_active_record, latest, insert_contract, insert_record,
}
use yastubo_python.Capitated.Countries.{
  normalize_country_to_iso3, capitals, probe_token, probe_iso2, find_country_by_iso3,
  find_country_by_iso2,
}
use yastubo_python.Capitated.Sheets.{digits_value}
use yastubo_python.Capitated.Row.{
  Row, check_identity, when_applied, check_age, is_age_text, remove_dot, strip_dashes,
  resolve_residence, resolve_repatriation, check_residence, check_repatriation,
}
use yastubo_python.Capitated.Persons.{resolve_person, use_person, new_person}
use yastubo_python.Capitated.Contracts.{
  after_last, enter, create_new_contract, new_contract, bill, after_existing, resolve_contract,
  add_record, new_record,
}
use yastubo_python.Capitated.Prices.{row_price, price_with, base_price}
use yastubo_python.Capitated.Tables.{applied}
use yastubo_python.Capitated.Process.{process_row}
use yastubo_python.Capitated.Tests.{context, input}
use yastubo_python.Capitated.Tests.Tables.{empty}

is_applied : Result ProcessError Row × Session → Bool
is_applied (ok row, s) = elim row.result [ applied ↦ true | _ ↦ false ]
is_applied (err e, s) = false

-- the row of the sample is applied
sample_applied : is_applied (process_row context input empty) ≡ true
unfolding is_applied process_row check_identity when_applied check_age is_age_text remove_dot
    strip_dashes digits_value resolve_residence normalize_country_to_iso3 strip lstrip upper
    capitals probe_token probe_iso2 find_country_by_iso3 find_country_by_iso2 scalar_one_or_none
    resolve_repatriation check_residence check_repatriation resolve_person find_person use_person
    new_person insert_person resolve_contract find_active_monthly_record after_existing
    find_last_active_record latest after_last enter create_new_contract new_contract insert_contract
    bill row_price price_with base_price add_record new_record insert_record
sample_applied = refl
