-- ===== src/BusinessUnits/Register.antt =====
-- The requests of business_units_controller.py that write members and royalties, and what they keep.
pub mod Edits
pub mod Royalties
pub mod Requests
pub mod Links
pub mod Service
use yastubo_python.Prelude.{
  ℕ, ◌+◌, ◌<◌, ◌≡◌, refl, ◌⊎◌, inl, inr, Bool, true, false, ◌&&◌, ◌||◌, not, Option, none, some,
  List, [], ◌∷◌, ◌++◌, any, select, update_where, ◌==◌, Text, codes, text_eq, strip, lower, All,
  Bool-cases, arith, if◌then◌else◌,
}
use yastubo_python.Prelude.Action.{Result, ok, err, gets, modify, raise_if, ◌>>=◌}
use yastubo_python.Prelude.Rows.{
  AreDistinct, AreDistinct-append, AreDistinct-select, AreDistinct-update, All-append, All-select,
  All-update, All-weaken, All-unit,
}
use yastubo_python.Prelude.Int.{ℤ, pos, ltb_ℤ, ◌≤ℤ◌}
use yastubo_python.Prelude.Database.{Returns, Returns-bind}
use yastubo_python.Units.{UnitStatus}
use yastubo_python.Regalias.Rules.{SourceType, Regalia, source_type_eq, full}
use yastubo_python.Regalias.{is_same}
use yastubo_python.Regalias.Invariant.{is_twin, IsUnique, IsPercent, IsPercentOrNone, ArePercents}
use yastubo_python.BusinessUnits.{
  membership_not_found, integrity_error, user_creation_not_allowed, invalid_role, email_taken,
  missing_names, user_not_found, already_member, Session, BusinessUnitMembership, HttpError,
  Handler, scalar_one_or_none, get_unit,
}
use yastubo_python.BusinessUnits.Crud.{is_freelance}
use yastubo_python.BusinessUnits.Listing.{is_unit_regalia}
use yastubo_python.BusinessUnits.Members.{
  is_membership, is_member_row, new_membership, is_role_key, insert_user, new_user, fits, is_empty,
  insert_membership, refuse_row, member_link, member_create_user, member_update_role,
  member_update_status, member_remove, find_membership, set_membership,
}
use yastubo_python.BusinessUnits.Commissions.{
  gsa_commissions_store, gsa_commissions_update, gsa_commissions_destroy, find_commission,
  insert_commission, sent_or,
}
use yastubo_python.BusinessUnits.Users.{UserRow, is_active, is_unit_scope}
use yastubo_python.BusinessUnits.Reading.{
  Reads-scalar, Returns-get_unit, Returns-raise_if, Returns-refused, Returns-found,
}

abbrev pub is_same_member : BusinessUnitMembership → BusinessUnitMembership → Bool
is_same_member m n = is_membership m.business_unit_id m.user_id n

-- No user is a member of a unit twice, no user has two royalties of one source, every royalty that is
-- set is a percentage, and the keys of users are below the next one.
pub record IsRegister (s : Session) : Type 0 where
  pub members : AreDistinct is_same_member s.memberships
  pub royalties : IsUnique s.regalias
  pub percents : ArePercents s.regalias
  pub users_below : All (λ u. u.id < s.next_user) s.users
  pub members_below : All (λ m. m.user_id < s.next_user) s.memberships

abbrev pub Kept : {A : Type 0} → A → Session → Type 0
Kept a s = IsRegister s

is_membership_comm : (m n : BusinessUnitMembership) → is_same_member m n ≡ is_same_member n m
is_membership_comm m n = ground arith

insert_membership-Kept :
    (k user_id : ℕ) (role_id : Option ℕ) (s : Session)
    → IsRegister s
    → user_id < s.next_user
    → any (is_membership k user_id) s.memberships ≡ false
    → Returns Kept (insert_membership k user_id role_id s)
unfolding insert_membership
insert_membership-Kept k user_id role_id s r below free =
    elim (Bool-cases (is_role_key role_id s)) [
      | inr t ↦ rw t tt
      | inl t ↦ rw t (record {
        members =
            AreDistinct-append is_same_member is_membership_comm s.memberships
              (new_membership k user_id role_id s) free r.members;
        royalties = r.royalties;
        percents = r.percents;
        users_below = r.users_below;
        members_below =
            All-append (λ m. m.user_id < s.next_user) s.memberships
              (new_membership k user_id role_id s) r.members_below below;
      })
    ]

no_member :
    (k n : ℕ) (ms : List BusinessUnitMembership)
    → All (λ m. m.user_id < n) ms
    → any (is_membership k n) ms ≡ false
no_member k n [] h = refl
no_member k n (m ∷ ms) h =
    let other : (m.user_id == n) ≡ false = ground (arith, h.0) in
    rw (other, no_member k n ms h.1) (ground arith)

pub member_link-Kept :
    (k user_id : ℕ) (role_id : Option ℕ) (s : Session)
    → IsRegister s
    → Returns Kept (member_link k user_id role_id s)
unfolding member_link
member_link-Kept k user_id role_id s r = Returns-get_unit Kept k _ s λ l.
    Returns-found Kept (λ u. u.id < s.next_user) (λ u. u.id == user_id && is_active u) s.users
      user_not_found _ s r.users_below
      λ user below test.
        Returns-refused Kept (is_membership k user_id) s.memberships already_member _ s λ free.
          let key : user.id ≡ user_id = ground arith in
          Returns-bind Kept Kept (insert_membership k user_id role_id) _ s
            (insert_membership-Kept k user_id role_id s r (rw key at below) free) (λ m s' r'. r')

insert_user-Kept :
    (k : ℕ) (email first_name last_name : Text) (s : Session)
    → IsRegister s
    → Returns
        (λ u s'.
          IsRegister s'
          × (u.id < s'.next_user)
          × (any (is_membership k u.id) s'.memberships ≡ false))
        (insert_user email first_name last_name s)
unfolding insert_user new_user
insert_user-Kept k email first_name last_name s r = elim (Bool-cases (fits first_name last_name)) [
  | inr t ↦ rw t tt
  | inl t ↦ rw t (
    record {
      members = r.members;
      royalties = r.royalties;
      percents = r.percents;
      users_below =
          All-append (λ u. u.id < s.next_user + 1) s.users (new_user email first_name last_name s)
            (All-weaken (λ u. u.id < s.next_user) (λ u. u.id < s.next_user + 1) s.users
              (λ u h. omega arith) r.users_below)
            (omega arith);
      members_below =
          All-weaken (λ m. m.user_id < s.next_user) (λ m. m.user_id < s.next_user + 1) s.memberships
            (λ m h. omega arith) r.members_below;
    },
    omega arith,
    no_member k s.next_user s.memberships r.members_below,
  )
]

pub member_create_user-Kept :
    (k : ℕ) (first_name last_name email : Text) (role_id : ℕ) (s : Session)
    → IsRegister s
    → Returns Kept (member_create_user k first_name last_name email role_id s)
unfolding member_create_user
member_create_user-Kept k first_name last_name email role_id s r = Returns-get_unit Kept k _ s λ l.
    Returns-raise_if Kept (is_freelance l.row) user_creation_not_allowed _ s (
      Returns-found Kept (λ _. Unit)
        (λ r. r.id == role_id && (text_eq r.guard_name (codes "admin") && is_unit_scope r)) s.roles
        invalid_role _ s (All-unit s.roles)
        λ role _ _.
          Returns-refused Kept (λ u. text_eq u.email (lower (strip email))) s.users email_taken _ s
            λ _.
              Returns-raise_if Kept
                (is_empty (strip first_name)
                  || (is_empty (strip last_name) || is_empty (lower (strip email))))
                missing_names _ s
                (Returns-bind _ Kept
                  (insert_user (lower (strip email)) (strip first_name) (strip last_name)) _ s
                  (insert_user-Kept k (lower (strip email)) (strip first_name) (strip last_name) s
                    r)
                  λ u s' h.
                    Returns-bind Kept Kept (insert_membership k u.id (some role.id)) _ s'
                      (insert_membership-Kept k u.id (some role.id) s' h.0 h.1 h.2)
                      (λ m s'' r''. r'')))
