-- ===== src/BusinessUnits/Members.antt =====
-- The members of a unit in business_units_controller.py.
use yastubo_python.Prelude.{
  ℕ, ◌+◌, Bool, true, false, ◌&&◌, ◌||◌, not, Option, none, some, List, [], ◌∷◌, ◌++◌, map, select,
  any, length, ◌==◌, leb, is_some, update_where, if◌then◌else◌, Text, text_eq, codes, strip, lower,
}
use yastubo_python.Prelude.Action.{ok, err, ◌>>=◌, ◌>>◌, gets, modify, raise_if}
use yastubo_python.Prelude.Pages.{order_by}
use yastubo_python.Prelude.Database.{require}
use yastubo_python.Units.{UnitStatus}
use yastubo_python.BusinessUnits.{
  Session, BusinessUnitMembership, HttpError, Handler, scalar_one_or_none, get_unit, user_not_found,
  already_member, user_creation_not_allowed, invalid_role, email_taken, missing_names,
  membership_not_found, integrity_error, data_error,
}
use yastubo_python.BusinessUnits.Crud.{is_freelance}
use yastubo_python.BusinessUnits.Users.{
  UserRow, UserStatus, Realm, RoleRow, full_name, is_active, is_unit_scope,
}

-- `MemberOut`, without the columns of the row
pub record MemberOut : Type 0 where
  pub row : BusinessUnitMembership
  pub user_email : Option Text
  pub user_display_name : Option Text
  pub role_name : Option Text

-- the row that a key names
unfoldable pub find_user : ℕ → List UserRow → Option UserRow
find_user k [] = none
find_user k (u ∷ us) = if k == u.id then some u else find_user k us

unfoldable pub find_role : Option ℕ → List RoleRow → Option RoleRow
find_role none rs = none
find_role (some k) [] = none
find_role (some k) (r ∷ rs) = if k == r.id then some r else find_role (some k) rs

-- `_member_out`
unfoldable pub member_out : Session → BusinessUnitMembership → MemberOut
unfolding full_name find_user find_role
member_out s m = record {
  row = m;
  user_email = elim (find_user m.user_id s.users) [ none ↦ none | some u ↦ some u.email ];
  user_display_name = elim (find_user m.user_id s.users) [
    | none ↦ none
    | some u ↦ some (full_name u)
  ];
  role_name = elim (find_role m.role_id s.roles) [ none ↦ none | some r ↦ some r.name ];
}

-- `members`
unfoldable pub members : ℕ → Handler (List MemberOut)
unfolding member_out
members unit_id = do
  get_unit unit_id
  gets (λ s.
      map (member_out s)
        (order_by (λ m. m.id) (select (λ m. m.business_unit_id == unit_id) s.memberships)))

-- the foreign key of a role
unfoldable pub is_role_key : Option ℕ → Session → Bool
is_role_key none s = true
is_role_key (some k) s = any (λ r. r.id == k) s.roles

abbrev pub is_membership : ℕ → ℕ → BusinessUnitMembership → Bool
is_membership unit_id user_id m = m.business_unit_id == unit_id && m.user_id == user_id

abbrev pub new_membership : ℕ → ℕ → Option ℕ → Session → BusinessUnitMembership
new_membership unit_id user_id role_id s = record {
  id = s.next_membership;
  business_unit_id = unit_id;
  user_id = user_id;
  role_id = role_id;
  status = some UnitStatus.active;
}

-- `db.add(membership)` and the commit
unfoldable pub insert_membership : ℕ → ℕ → Option ℕ → Handler BusinessUnitMembership
insert_membership unit_id user_id role_id s =
    if is_role_key role_id s
    then (
      ok (new_membership unit_id user_id role_id s),
      record s {
        memberships = s.memberships ++ new_membership unit_id user_id role_id s ∷ [];
        next_membership = s.next_membership + 1;
      },
    )
    else (err integrity_error, s)

-- `if existing.scalar_one_or_none() is not None: raise e`
abbrev pub refuse_row : {A : Type 0} → List A → HttpError → Handler (Unit {0})
refuse_row rows e = do row ← scalar_one_or_none rows; raise_if (is_some row) e

unfoldable pub member_link : ℕ → ℕ → Option ℕ → Handler MemberOut
unfolding member_out
member_link unit_id user_id role_id = do
  get_unit unit_id
  users ← gets (λ s. select (λ u. u.id == user_id && is_active u) s.users)
  user ← scalar_one_or_none users
  require user_not_found user
  existing ← gets (λ s. select (is_membership unit_id user_id) s.memberships)
  refuse_row existing already_member
  m ← insert_membership unit_id user_id role_id
  gets (λ s. member_out s m)

abbrev pub is_empty : Text → Bool
is_empty [] = true
is_empty (c ∷ t) = false

-- the new row of `member_create_user`
unfoldable pub new_user : Text → Text → Text → Session → UserRow
unfolding strip
new_user email first_name last_name s = record {
  id = s.next_user;
  realm = Realm.admin;
  email = email;
  password = [];
  first_name = first_name;
  last_name = last_name;
  display_name = some (strip (first_name ++ b' ' ∷ last_name));
  status = UserStatus.active;
  is_deleted = false;
}

-- the lengths of the columns, which are shorter than those that the request allows
abbrev pub fits : Text → Text → Bool
fits first_name last_name =
    leb (length first_name) 100
    && (leb (length last_name) 120 && leb (length (strip (first_name ++ b' ' ∷ last_name))) 120)

-- `db.add(new_user)` and the flush
unfoldable pub insert_user : Text → Text → Text → Handler UserRow
unfolding new_user
insert_user email first_name last_name s =
    if fits first_name last_name
    then (
      ok (new_user email first_name last_name s),
      record s {
        users = s.users ++ new_user email first_name last_name s ∷ [];
        next_user = s.next_user + 1;
      },
    )
    else (err data_error, s)

unfoldable pub member_create_user : ℕ → Text → Text → Text → ℕ → Handler MemberOut
unfolding strip lower member_out
member_create_user unit_id first_name last_name email role_id = do
  unit ← get_unit unit_id
  raise_if (is_freelance unit.row) user_creation_not_allowed
  roles ← gets (λ s.
      select (λ r. r.id == role_id && (text_eq r.guard_name (codes "admin") && is_unit_scope r))
        s.roles)
  found ← scalar_one_or_none roles
  role ← require invalid_role found
  existing ← gets (λ s. select (λ u. text_eq u.email (lower (strip email))) s.users)
  refuse_row existing email_taken
  raise_if
      (is_empty (strip first_name)
        || (is_empty (strip last_name) || is_empty (lower (strip email))))
      missing_names
  user ← insert_user (lower (strip email)) (strip first_name) (strip last_name)
  m ← insert_membership unit_id user.id (some role.id)
  gets (λ s. member_out s m)

abbrev pub is_member_row : ℕ → ℕ → BusinessUnitMembership → Bool
is_member_row unit_id membership_id m = m.id == membership_id && m.business_unit_id == unit_id

-- the query for a membership of the unit, which raises when there is none
unfoldable pub find_membership : ℕ → ℕ → Handler BusinessUnitMembership
find_membership unit_id membership_id = do
  rows ← gets (λ s. select (is_member_row unit_id membership_id) s.memberships)
  row ← scalar_one_or_none rows
  require membership_not_found row

abbrev pub set_membership :
    ℕ → (BusinessUnitMembership → BusinessUnitMembership) → Handler (Unit {0})
set_membership k f =
    modify (λ s. record s { memberships = update_where (λ m. m.id == k) f s.memberships })

unfoldable pub member_update_role : ℕ → ℕ → ℕ → Handler MemberOut
unfolding member_out is_role_key
member_update_role unit_id membership_id role_id = do
  m ← find_membership unit_id membership_id
  known ← gets (is_role_key (some role_id))
  raise_if (not known) integrity_error
  set_membership m.id (λ r. record r { role_id = some role_id })
  gets (λ s. member_out s (record m { role_id = some role_id }))

unfoldable pub member_update_status : ℕ → ℕ → UnitStatus → Handler MemberOut
unfolding member_out
member_update_status unit_id membership_id status = do
  m ← find_membership unit_id membership_id
  set_membership m.id (λ r. record r { status = some status })
  gets (λ s. member_out s (record m { status = some status }))

unfoldable pub member_remove : ℕ → ℕ → Handler (Unit {0})
member_remove unit_id membership_id = do
  m ← find_membership unit_id membership_id
  modify (λ s. record s { memberships = select (λ r. not (r.id == m.id)) s.memberships })
