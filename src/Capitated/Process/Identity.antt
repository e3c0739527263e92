-- ===== src/Capitated/Process/Identity.antt =====
-- One row of _process_spreadsheet_rows and its person.
use yastubo_python.Prelude.{◌≡◌, refl, Option, none, some, inl, inr}
use yastubo_python.Capitated.Tables.{Person, applied, incongruence, RejectionCode}
use yastubo_python.Capitated.Session.{Step}
use yastubo_python.Capitated.Row.{Context, Input, Row, when_applied}
use yastubo_python.Capitated.Persons.{resolve_person, use_person}
use yastubo_python.Capitated.Frame.{Gives, when_applied-cases, gives_rules, Gives-pure}

-- an applied row has its person
abbrev pub Identified : Row → Type 0
Identified row = row.result ≡ applied → (p : Person) × (row.person ≡ some p)

Identified-person : (row : Row) (p : Person) → Identified (record row { person = some p })
Identified-person row p h = (p, refl)

Identified-incongruence :
    (row : Row) (c : Option RejectionCode) (p : Option Person)
    → Identified (record row { result = incongruence; rejection_code = c; person = p })
Identified-incongruence row c p h = absurd (cc)

use_person-Identified :
    (x : Context) (i : Input) (row : Row) (o : Option Person)
    → Gives Identified (use_person x i row o)
unfolding use_person
use_person-Identified x i row none = search (gives_rules, Identified-person)
use_person-Identified x i row (some p) =
    search (gives_rules, Identified-person, Identified-incongruence)

pub resolve_person-Identified :
    (x : Context) (i : Input) (row : Row) → Gives Identified (resolve_person x i row)
unfolding resolve_person
resolve_person-Identified x i row = search (gives_rules, use_person-Identified)

pub Gives-when :
    (f : Row → Step Row) (row : Row)
    → Gives Identified (f row)
    → Gives Identified (when_applied f row)
Gives-when f row g = elim (when_applied-cases f row) [
  | inl (e, w) ↦ rw w g
  | inr (ne, w) ↦ rw w (Gives-pure row (λ h. absurd (ne h)))
]
