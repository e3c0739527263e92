-- ===== src/BusinessUnits/Commissions.antt =====
-- The royalties of a unit in business_units_controller.py, over the rows of
-- common/models/regalia.py.
use yastubo_python.Prelude.{
  ℕ, ◌+◌, ◌&&◌, not, Option, none, some, List, ◌∷◌, map, select, ◌==◌, update_where, Text,
}
use yastubo_python.Prelude.Action.{ok, ◌>>=◌, ◌>>◌, gets, modify}
use yastubo_python.Prelude.Int.{ℤ, pos}
use yastubo_python.Prelude.Pages.{order_by}
use yastubo_python.Regalias.Rules.{SourceType, Regalia}
use yastubo_python.Prelude.Database.{require}
use yastubo_python.BusinessUnits.{
  Session, Handler, scalar_one_or_none, get_unit, user_not_found, already_has_commission,
  commission_not_found,
}
use yastubo_python.BusinessUnits.Listing.{is_unit_regalia}
use yastubo_python.BusinessUnits.Members.{find_user, refuse_row}
use yastubo_python.BusinessUnits.Users.{full_name, is_active}

-- `GSACommissionOut`, with the row for its columns
pub record CommissionOut : Type 0 where
  pub row : Regalia
  pub user_email : Option Text
  pub user_display_name : Option Text

unfoldable pub commission_out : Session → Regalia → CommissionOut
unfolding full_name find_user
commission_out s r = record {
  row = r;
  user_email = elim (find_user r.beneficiary_user_id s.users) [
    | none ↦ none
    | some u ↦ some u.email
  ];
  user_display_name = elim (find_user r.beneficiary_user_id s.users) [
    | none ↦ none
    | some u ↦ some (full_name u)
  ];
}

unfoldable pub gsa_commissions : ℕ → Handler (List CommissionOut)
unfolding commission_out
gsa_commissions unit_id = do
  get_unit unit_id
  gets (λ s.
      map (commission_out s) (order_by (λ r. r.id) (select (is_unit_regalia unit_id) s.regalias)))

abbrev pub new_commission : ℕ → ℕ → Session → Regalia
new_commission unit_id user_id s = record {
  id = s.next_regalia;
  source_type = SourceType.unit;
  source_id = unit_id;
  beneficiary_user_id = user_id;
  commission = some (pos 0);
}

-- `db.add(reg)` and the commit
unfoldable pub insert_commission : ℕ → ℕ → Handler Regalia
insert_commission unit_id user_id s = (
  ok (new_commission unit_id user_id s),
  record s {
    regalias = new_commission unit_id user_id s ∷ s.regalias;
    next_regalia = s.next_regalia + 1;
  },
)

unfoldable pub gsa_commissions_store : ℕ → ℕ → Handler CommissionOut
unfolding commission_out
gsa_commissions_store unit_id user_id = do
  get_unit unit_id
  users ← gets (λ s. select (λ u. u.id == user_id && is_active u) s.users)
  found ← scalar_one_or_none users
  require user_not_found found
  existing ←
      gets (λ s.
        select (λ r. is_unit_regalia unit_id r && r.beneficiary_user_id == user_id) s.regalias)
  refuse_row existing already_has_commission
  r ← insert_commission unit_id user_id
  gets (λ s. commission_out s r)

-- the query for a royalty of the unit, which raises when there is none
unfoldable pub find_commission : ℕ → ℕ → Handler Regalia
find_commission unit_id regalia_id = do
  rows ← gets (λ s. select (λ r. r.id == regalia_id && is_unit_regalia unit_id r) s.regalias)
  row ← scalar_one_or_none rows
  require commission_not_found row

-- The body of an update: the field was not sent, or it has a value, which may be none.
abbrev pub sent_or : Option ℤ → Option (Option ℤ) → Option ℤ
sent_or old none = old
sent_or old (some value) = value

unfoldable pub gsa_commissions_update : ℕ → ℕ → Option (Option ℤ) → Handler CommissionOut
unfolding commission_out
gsa_commissions_update unit_id regalia_id sent = do
  reg ← find_commission unit_id regalia_id
  modify (λ s. record s {
    regalias =
        update_where (λ r. r.id == reg.id)
          (λ r. record r { commission = sent_or r.commission sent }) s.regalias;
  })
  gets (λ s. commission_out s (record reg { commission = sent_or reg.commission sent }))

unfoldable pub gsa_commissions_destroy : ℕ → ℕ → Handler (Unit {0})
gsa_commissions_destroy unit_id regalia_id = do
  reg ← find_commission unit_id regalia_id
  modify (λ s. record s { regalias = select (λ r. not (r.id == reg.id)) s.regalias })
