-- ===== src/BusinessUnits/Register/Royalties.antt =====
-- The royalties of a unit in business_units_controller.py.
use yastubo_python.Prelude.{ℕ, ◌≡◌, refl, ◌∙◌, ◌&&◌, not, Option, none, some, select, ◌==◌, arith}
use yastubo_python.Prelude.Action.{gets, ◌>>=◌}
use yastubo_python.Prelude.Rows.{
  AreDistinct-select, AreDistinct-update, All-select, All-update, All-unit, any_cong,
}
use yastubo_python.Prelude.Int.{ℤ}
use yastubo_python.Regalias.Rules.{SourceType, Regalia}
use yastubo_python.Regalias.{is_same}
use yastubo_python.Regalias.Invariant.{is_twin, IsPercentOrNone}
use yastubo_python.Prelude.Database.{
  Reads, Returns, Reads-gets, Reads-require, Reads-bind, Returns-read,
}
use yastubo_python.BusinessUnits.{
  commission_not_found, already_has_commission, user_not_found, Session, Handler,
  scalar_one_or_none,
}
use yastubo_python.BusinessUnits.Listing.{is_unit_regalia}
use yastubo_python.BusinessUnits.Commissions.{
  gsa_commissions_store, gsa_commissions_update, gsa_commissions_destroy, find_commission,
  insert_commission, sent_or,
}
use yastubo_python.BusinessUnits.Users.{is_active}
use yastubo_python.BusinessUnits.Reading.{
  Reads-scalar, Returns-get_unit, Returns-refused, Returns-found,
}
use yastubo_python.BusinessUnits.Register.{IsRegister, Kept}

Reads-find_commission : (k n : ℕ) → Reads (find_commission k n)
unfolding find_commission
Reads-find_commission k n =
    Reads-bind (gets (λ s. select (λ r. r.id == n && is_unit_regalia k r) s.regalias)) _
      (Reads-gets _)
      λ rows.
        Reads-bind (scalar_one_or_none rows) _ (Reads-scalar rows)
          λ row. Reads-require commission_not_found row

Returns-find_commission :
    {B : Type 0} (Q : B → Session → Type 0) (k n : ℕ) (f : Regalia → Handler B) (s : Session)
    → ((r : Regalia) → Returns Q (f r s))
    → Returns Q ((find_commission k n >>= f) s)
Returns-find_commission Q k n f s h =
    Returns-read Q (find_commission k n) f s (Reads-find_commission k n) (λ r _. h r)

-- the two orders of the conditions of a duplicate
pub is_same-order :
    (k user_id : ℕ) (r : Regalia)
    → is_same user_id SourceType.unit k r
      ≡ (is_unit_regalia k r && r.beneficiary_user_id == user_id)
is_same-order k user_id r = ground arith

pub gsa_commissions_store-Kept :
    (k user_id : ℕ) (s : Session) → IsRegister s → Returns Kept (gsa_commissions_store k user_id s)
unfolding gsa_commissions_store insert_commission
gsa_commissions_store-Kept k user_id s r = Returns-get_unit Kept k _ s λ l.
    Returns-found Kept (λ _. Unit) (λ u. u.id == user_id && is_active u) s.users user_not_found _ s
      (All-unit s.users)
      λ user _ _.
        Returns-refused Kept (λ r. is_unit_regalia k r && r.beneficiary_user_id == user_id)
          s.regalias already_has_commission _ s
          λ free. record {
            members = r.members;
            royalties = (
              any_cong (is_same user_id SourceType.unit k)
                    (λ r. is_unit_regalia k r && r.beneficiary_user_id == user_id) s.regalias
                    (is_same-order k user_id)
                  ∙ free,
              r.royalties,
            );
            percents = (ground arith, r.percents);
            users_below = r.users_below;
            members_below = r.members_below;
          }

-- what the request allows: no value, or one from 0 to 100
abbrev pub IsSentPercent : Option (Option ℤ) → Type 0
IsSentPercent none = Unit
IsSentPercent (some c) = IsPercentOrNone c

sent_or-IsPercentOrNone :
    (old : Option ℤ) (sent : Option (Option ℤ))
    → IsSentPercent sent
    → IsPercentOrNone old
    → IsPercentOrNone (sent_or old sent)
sent_or-IsPercentOrNone old none p o = o
sent_or-IsPercentOrNone old (some c) p o = p

pub gsa_commissions_update-Kept :
    (k n : ℕ) (sent : Option (Option ℤ)) (s : Session)
    → IsSentPercent sent
    → IsRegister s
    → Returns Kept (gsa_commissions_update k n sent s)
unfolding gsa_commissions_update
gsa_commissions_update-Kept k n sent s p r = Returns-find_commission Kept k n _ s λ reg. record {
  members = r.members;
  royalties =
      AreDistinct-update is_twin (λ x. x.id == reg.id)
        (λ x. record x { commission = sent_or x.commission sent }) s.regalias (λ x y. refl)
        (λ x y. refl) r.royalties;
  percents =
      All-update (λ x. IsPercentOrNone x.commission) (λ x. x.id == reg.id)
        (λ x. record x { commission = sent_or x.commission sent }) s.regalias
        (λ x h. sent_or-IsPercentOrNone x.commission sent p h) r.percents;
  users_below = r.users_below;
  members_below = r.members_below;
}

pub gsa_commissions_destroy-Kept :
    (k n : ℕ) (s : Session) → IsRegister s → Returns Kept (gsa_commissions_destroy k n s)
unfolding gsa_commissions_destroy
gsa_commissions_destroy-Kept k n s r = Returns-find_commission Kept k n _ s λ reg. record {
  members = r.members;
  royalties = AreDistinct-select is_twin (λ x. not (x.id == reg.id)) s.regalias r.royalties;
  percents =
      All-select (λ x. IsPercentOrNone x.commission) (λ x. not (x.id == reg.id)) s.regalias
        r.percents;
  users_below = r.users_below;
  members_below = r.members_below;
}
