-- ===== src/Capitated/Process/Refresh.antt =====
-- The statuses that _refresh_contracts_status sets.
use yastubo_python.Prelude.{some, ℕ, ◌≡◌, ◌⊎◌, true, false}
use yastubo_python.Dates.{Date, date_leb}
use yastubo_python.Capitated.Tables.{Contract, ContractStatus}
use yastubo_python.Capitated.Session.{Session}
use yastubo_python.Capitated.Process.{is_open_of}

-- the contract has a last day, and that is the given day or a later one
pub record IsValid (today : Date) (c : Contract) : Type 0 where
  pub until : Date
  pub at : c.valid_until ≡ some until
  pub later : date_leb today until ≡ true

module _ (today : Date) (k : ℕ) where
  -- the contract is no open one of the company, or it is active and valid today, or expired and not
  abbrev pub IsCurrent : Contract → Type 0
  IsCurrent c =
      (is_open_of k c ≡ false)
      ⊎ ((c.status ≡ ContractStatus.active × IsValid today c)
          ⊎ (c.status ≡ ContractStatus.expired × ¬ (IsValid today c)))
