-- ===== src/BusinessUnits/Register/Links.antt =====
-- When member_link and gsa_commissions_store of business_units_controller.py are answered, against
-- member_remove and against regalias_service.py.
use yastubo_python.Prelude.{
  ℕ, ◌+◌, ◌<◌, ◌≡◌, refl, ap, inl, inr, Bool, true, false, ◌&&◌, not, Option, some, List, [], ◌∷◌,
  ◌++◌, any, select, ◌==◌, All, Bool-cases, ==_refl, arith,
}
use yastubo_python.Prelude.Action.{ok}
use yastubo_python.Units.{BusinessUnit, find_unit}
use yastubo_python.BusinessUnits.{Session, BusinessUnitMembership, get_unit}
use yastubo_python.BusinessUnits.Users.{UserRow, is_active}
use yastubo_python.BusinessUnits.Members.{
  is_membership, is_member_row, new_membership, insert_membership, is_role_key, member_out,
  member_link, member_remove, find_membership,
}

pub select-none : {A : Type 0} (p : A → Bool) (xs : List A) → any p xs ≡ false → select p xs ≡ []
select-none p [] h = refl
select-none p (x ∷ xs) h = elim (Bool-cases (p x)) [
  | inl t ↦ absurd (cc (rw t at h))
  | inr t ↦ rw t (select-none p xs (rw t at h))
]

-- the tables after a new membership
abbrev pub linked : ℕ → ℕ → Option ℕ → Session → Session
linked k user_id role_id s = record s {
  memberships = s.memberships ++ new_membership k user_id role_id s ∷ [];
  next_membership = s.next_membership + 1;
}

abbrev is_chosen : ℕ → UserRow → Bool
is_chosen user_id u = u.id == user_id && is_active u

member_link_ok :
    (k user_id : ℕ) (role_id : Option ℕ) (s : Session) (u : BusinessUnit) (user : UserRow)
    → find_unit k s.units ≡ some u
    → select (is_chosen user_id) s.users ≡ user ∷ []
    → any (is_membership k user_id) s.memberships ≡ false
    → is_role_key role_id s ≡ true
    → member_link k user_id role_id s ≡ (
      ok (member_out (linked k user_id role_id s) (new_membership k user_id role_id s)),
      linked k user_id role_id s,
    )
unfolding member_link get_unit insert_membership
member_link_ok k user_id role_id s u user found chosen free role =
    rw (found, get_unit) (rw chosen (rw (select-none _ _ free) (rw (role, insert_membership))))

module _ (k n : ℕ) (m : BusinessUnitMembership) (is_new : m.id ≡ n)
    (of_unit : m.business_unit_id ≡ k) where
  select_new :
      (ms : List BusinessUnitMembership)
      → All (λ x. x.id < n) ms
      → select (is_member_row k n) (ms ++ m ∷ []) ≡ m ∷ []
  select_new [] h = rw (is_new, of_unit, ==_refl n, ==_refl k)
  select_new (x ∷ ms) h =
      let other : (x.id == n) ≡ false = ground (arith, h.0) in rw other (select_new ms h.1)

  select_old :
      (ms : List BusinessUnitMembership)
      → All (λ x. x.id < n) ms
      → select (λ x. not (x.id == n)) (ms ++ m ∷ []) ≡ ms
  select_old [] h = rw (is_new, ==_refl n)
  select_old (x ∷ ms) h =
      let other : (x.id == n) ≡ false = ground (arith, h.0) in
      rw other (ap (λ l. x ∷ l) (select_old ms h.1))

-- If the unit is there, exactly one active user has the key, the user is no member yet and the role is
-- there or none is given: linking the user is answered with the new membership, and a request to remove
-- that membership is answered and gives back the table of memberships. The keys in the table are to be
-- below the next one.
pub member_remove-member_link :
    (k user_id : ℕ) (role_id : Option ℕ) (s : Session) (u : BusinessUnit) (user : UserRow)
    → find_unit k s.units ≡ some u
    → select (λ x. x.id == user_id && is_active x) s.users ≡ user ∷ []
    → any (is_membership k user_id) s.memberships ≡ false
    → is_role_key role_id s ≡ true
    → All (λ m. m.id < s.next_membership) s.memberships
    → let (r, s') = member_link k user_id role_id s in
      (r ≡ ok (member_out s' (new_membership k user_id role_id s)))
      × ((member_remove k s.next_membership s').0 ≡ ok tt)
      × ((member_remove k s.next_membership s').1.memberships ≡ s.memberships)
unfolding member_remove find_membership
member_remove-member_link k user_id role_id s u user found chosen free role below =
    let m = new_membership k user_id role_id s in
    let one = select_new k s.next_membership m refl refl s.memberships below in
    rw (member_link_ok k user_id role_id s u user found chosen free role) (
      refl,
      rw (one, find_membership),
      rw (one, find_membership) (select_old k s.next_membership m refl refl s.memberships below),
    )
