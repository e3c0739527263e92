-- ===== src/Capitated/Process/Settled.antt =====
-- The steps of _process_spreadsheet_rows that find the contract of a row.
use yastubo_python.Prelude.{◌≡◌, refl, Option, none, some}
use yastubo_python.Prelude.Int.{ℤ}
use yastubo_python.Dates.{Date}
use yastubo_python.Capitated.Tables.{MonthlyRecord, Person, Contract, applied, RejectionCode}
use yastubo_python.Capitated.Row.{Context, Row, reject}
use yastubo_python.Capitated.Contracts.{
  create_new_contract, enter, expire_contract, break_continuity, continue_contract, on_continuity,
  after_last,
}
use yastubo_python.Capitated.Process.Frame.{
  frame, insert_contract-frame, save_contract-frame, find_contract_for_record-frame,
}
use yastubo_python.Capitated.Frame.{Keeps, Keeps-pure, keeps_rules, Gives, gives_rules}

create-frame : (x : Context) (p : Person) (a : Option ℤ) → Keeps frame (create_new_contract x p a)
unfolding create_new_contract
create-frame x p a = search (keeps_rules, insert_contract-frame)

enter-frame : (x : Context) (p : Person) (row : Row) → Keeps frame (enter x p row)
unfolding enter
enter-frame x p row = search (keeps_rules, create-frame)

expire-frame : (x : Context) (c : Option Contract) → Keeps frame (expire_contract x c)
unfolding expire_contract
expire-frame x none = Keeps-pure tt
expire-frame x (some c) = search (keeps_rules, save_contract-frame)

break-frame :
    (x : Context) (p : Person) (row : Row) (c : Option Contract)
    → Keeps frame (break_continuity x p row c)
unfolding break_continuity
break-frame x p row c = search (keeps_rules, expire-frame, create-frame)

continue-frame :
    (x : Context) (p : Person) (row : Row) (c : Option Contract)
    → Keeps frame (continue_contract x p row c)
unfolding continue_contract
continue-frame x p row none = enter-frame x p row
continue-frame x p row (some c) = search (keeps_rules, save_contract-frame)

on_continuity-frame :
    (x : Context) (p : Person) (row : Row) (d : Date) (c : Option Contract)
    → Keeps frame (on_continuity x p row d c)
unfolding on_continuity
on_continuity-frame x p row d c = search (keeps_rules, break-frame, continue-frame)

pub after_last-frame :
    (x : Context) (p : Person) (row : Row) (l : Option MonthlyRecord)
    → Keeps frame (after_last x p row l)
unfolding after_last
after_last-frame x p row none = enter-frame x p row
after_last-frame x p row (some l) =
    search (keeps_rules, find_contract_for_record-frame, on_continuity-frame)

-- an applied row has its contract
abbrev pub Settled : Row → Type 0
Settled row = row.result ≡ applied → (c : Contract) × (row.contract ≡ some c)

Settled-reject : (k : RejectionCode) (row : Row) → Settled (reject k row)
Settled-reject k row h = absurd (cc)

Settled-contract : (row : Row) (c : Contract) → Settled (record row { contract = some c })
Settled-contract row c h = (c, refl)

Settled-break :
    (row : Row) (c : Contract) (k : Option RejectionCode)
    → Settled (record row { contract = some c; rejection_code = k })
Settled-break row c k h = (c, refl)

enter-Settled : (x : Context) (p : Person) (row : Row) → Gives Settled (enter x p row)
unfolding enter
enter-Settled x p row = search (gives_rules, Settled-reject, Settled-contract)

break-Settled :
    (x : Context) (p : Person) (row : Row) (c : Option Contract)
    → Gives Settled (break_continuity x p row c)
unfolding break_continuity
break-Settled x p row c = search (gives_rules, Settled-reject, Settled-break)

continue-Settled :
    (x : Context) (p : Person) (row : Row) (c : Option Contract)
    → Gives Settled (continue_contract x p row c)
unfolding continue_contract
continue-Settled x p row none = enter-Settled x p row
continue-Settled x p row (some c) = search (gives_rules, Settled-reject, Settled-contract)

on_continuity-Settled :
    (x : Context) (p : Person) (row : Row) (d : Date) (c : Option Contract)
    → Gives Settled (on_continuity x p row d c)
unfolding on_continuity
on_continuity-Settled x p row d c = search (gives_rules, break-Settled, continue-Settled)

pub after_last-Settled :
    (x : Context) (p : Person) (row : Row) (l : Option MonthlyRecord)
    → Gives Settled (after_last x p row l)
unfolding after_last
after_last-Settled x p row none = enter-Settled x p row
after_last-Settled x p row (some l) = search (gives_rules, Settled-reject, on_continuity-Settled)
