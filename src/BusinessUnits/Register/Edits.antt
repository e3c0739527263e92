-- ===== src/BusinessUnits/Register/Edits.antt =====
-- The changes and the removal of a member in business_units_controller.py.
use yastubo_python.Prelude.{ℕ, ◌<◌, ◌≡◌, refl, not, some, select, ◌==◌}
use yastubo_python.Prelude.Action.{gets, ◌>>=◌}
use yastubo_python.Prelude.Rows.{AreDistinct-select, AreDistinct-update, All-select, All-update}
use yastubo_python.Prelude.Database.{
  Reads, Returns, Reads-gets, Reads-require, Reads-bind, Returns-read,
}
use yastubo_python.Units.{UnitStatus}
use yastubo_python.BusinessUnits.{
  membership_not_found, integrity_error, Session, BusinessUnitMembership, Handler,
  scalar_one_or_none,
}
use yastubo_python.BusinessUnits.Members.{
  is_member_row, is_role_key, member_update_role, member_update_status, member_remove,
  find_membership, set_membership,
}
use yastubo_python.BusinessUnits.Reading.{Reads-scalar, Returns-raise_if}
use yastubo_python.BusinessUnits.Register.{is_same_member, IsRegister, Kept}

Reads-find_membership : (k n : ℕ) → Reads (find_membership k n)
unfolding find_membership
Reads-find_membership k n =
    Reads-bind (gets (λ s. select (is_member_row k n) s.memberships)) _ (Reads-gets _) λ rows.
      Reads-bind (scalar_one_or_none rows) _ (Reads-scalar rows)
        λ row. Reads-require membership_not_found row

Returns-find_membership :
    {B : Type 0} (Q : B → Session → Type 0) (k membership_id : ℕ)
    (f : BusinessUnitMembership → Handler B) (s : Session)
    → ((m : BusinessUnitMembership) → Returns Q (f m s))
    → Returns Q ((find_membership k membership_id >>= f) s)
Returns-find_membership Q k membership_id f s h =
    Returns-read Q (find_membership k membership_id) f s (Reads-find_membership k membership_id)
      (λ m _. h m)

set_membership-IsRegister :
    (n : ℕ) (f : BusinessUnitMembership → BusinessUnitMembership) (s : Session)
    → ((m : BusinessUnitMembership)
        → ((f m).business_unit_id ≡ m.business_unit_id) × ((f m).user_id ≡ m.user_id))
    → IsRegister s
    → IsRegister (set_membership n f s).1
set_membership-IsRegister n f s keep r = record {
  members =
      AreDistinct-update is_same_member (λ m. m.id == n) f s.memberships
        (λ x y. rw ((keep y).0, (keep y).1)) (λ x y. rw ((keep x).0, (keep x).1)) r.members;
  royalties = r.royalties;
  percents = r.percents;
  users_below = r.users_below;
  members_below =
      All-update (λ m. m.user_id < s.next_user) (λ m. m.id == n) f s.memberships
        (λ m h. rw (keep m).1 h) r.members_below;
}

pub member_update_role-Kept :
    (k n role_id : ℕ) (s : Session) → IsRegister s → Returns Kept (member_update_role k n role_id s)
unfolding member_update_role
member_update_role-Kept k n role_id s r = Returns-find_membership Kept k n _ s λ m.
    Returns-raise_if Kept (not (is_role_key (some role_id) s)) integrity_error _ s (
      set_membership-IsRegister m.id (λ x. record x { role_id = some role_id }) s
        (λ x. (refl, refl)) r)

pub member_update_status-Kept :
    (k n : ℕ) (status : UnitStatus) (s : Session)
    → IsRegister s
    → Returns Kept (member_update_status k n status s)
unfolding member_update_status
member_update_status-Kept k n status s r = Returns-find_membership Kept k n _ s λ m.
    set_membership-IsRegister m.id (λ x. record x { status = some status }) s (λ x. (refl, refl)) r

pub member_remove-Kept : (k n : ℕ) (s : Session) → IsRegister s → Returns Kept (member_remove k n s)
unfolding member_remove
member_remove-Kept k n s r = Returns-find_membership Kept k n _ s λ m. record {
  members = AreDistinct-select is_same_member (λ x. not (x.id == m.id)) s.memberships r.members;
  royalties = r.royalties;
  percents = r.percents;
  users_below = r.users_below;
  members_below =
      All-select (λ x. x.user_id < s.next_user) (λ x. not (x.id == m.id)) s.memberships
        r.members_below;
}
