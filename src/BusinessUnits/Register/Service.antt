-- ===== src/BusinessUnits/Register/Service.antt =====
-- gsa_commissions_store of business_units_controller.py beside create_regalia of
-- common/services/regalias/regalias_service.py, over the same tables.
use yastubo_python.Prelude.{
  ℕ, ◌≡◌, refl, sym, ◌∙◌, false, ◌&&◌, some, [], ◌∷◌, any, select, ◌==◌, map,
}
use yastubo_python.Prelude.Action.{ok, ◌>>◌}
use yastubo_python.Prelude.Rows.{any_cong}
use yastubo_python.Units.{BusinessUnit, find_unit}
use yastubo_python.Regalias.Rules.{SourceType}
use yastubo_python.Regalias
use yastubo_python.Regalias.{is_same, check_source, check_duplicate, insert_regalia}
use yastubo_python.BusinessUnits.{Session, get_unit}
use yastubo_python.BusinessUnits.Users.{UserRow, is_admin, is_active}
use yastubo_python.BusinessUnits.Listing.{is_unit_regalia}
use yastubo_python.BusinessUnits.Commissions.{
  new_commission, insert_commission, commission_out, gsa_commissions_store,
}
use yastubo_python.BusinessUnits.Register.Royalties.{is_same-order}
use yastubo_python.BusinessUnits.Register.Links.{select-none}

-- the tables as the service sees them
abbrev pub service : Session → Regalias.Session
service s = record {
  regalias = s.regalias;
  users = map (λ u. record { id = u.id; is_admin = is_admin u }) s.users;
  units = s.units;
  next_id = s.next_regalia;
}

-- If the unit is there, exactly one active user has the key and the user has no royalty of the unit yet:
-- `gsa_commissions_store` is answered, and leaves the table of royalties that `create_regalia` leaves
-- without its check for redundant units.
pub gsa_commissions_store-unchecked :
    (k user_id : ℕ) (s : Session) (u : BusinessUnit) (user : UserRow)
    → find_unit k s.units ≡ some u
    → select (λ x. x.id == user_id && is_active x) s.users ≡ user ∷ []
    → any (is_same user_id SourceType.unit k) s.regalias ≡ false
    → let (r, s') = gsa_commissions_store k user_id s in
      (r ≡ ok (commission_out s' (new_commission k user_id s)))
      × (service s'
          ≡ ((check_source SourceType.unit k
                >> check_duplicate user_id SourceType.unit k
                >> insert_regalia user_id SourceType.unit k)
              (service s)).1)
unfolding gsa_commissions_store get_unit insert_commission check_source check_duplicate
gsa_commissions_store-unchecked k user_id s u user found chosen free =
    let free' : any (λ r. is_unit_regalia k r && r.beneficiary_user_id == user_id) s.regalias
        ≡ false =
      sym (
        any_cong (is_same user_id SourceType.unit k)
          (λ r. is_unit_regalia k r && r.beneficiary_user_id == user_id) s.regalias
          (is_same-order k user_id))
      ∙ free in
    rw (found, get_unit, check_source)
      (rw chosen (rw (select-none _ _ free') (rw (free, check_duplicate) (refl, refl))))
