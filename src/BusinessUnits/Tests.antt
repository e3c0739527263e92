-- ===== src/BusinessUnits/Tests.antt =====
-- Requests to business_units_controller.py on small tables.
mod Pages
use yastubo_python.Prelude.{
  ◌≡◌, ◌⊎◌, refl, Bool, true, false, none, some, List, [], ◌∷◌, map, Text, codes, arith, strip,
}
use yastubo_python.Prelude.Action.{ok, err, ◌>>◌}
use yastubo_python.Prelude.Int.{pos}
use yastubo_python.Units.{
  office, counter, UnitStatus, BusinessUnit, new_unit, find_unit, parent_of, chain_from,
  ancestor_chain,
}
use yastubo_python.Regalias.Rules.{
  SourceType, unit_redundancy, would_create_unit_redundancy_cycle, existing_unit_ids,
  redundant_among, redundant_with, candidate_above, with_parents,
}
use yastubo_python.Regalias.{
  create_regalia, check_source, check_duplicate, check_cycles, insert_regalia,
}
use yastubo_python.BusinessUnits.{
  Session, parent_cycle, invalid_parent, load, unit_out, get_unit, validate_parent_rules, set_unit,
}
use yastubo_python.BusinessUnits.Users.{UserRow, UserStatus, Realm, RoleRow, Scope}
use yastubo_python.BusinessUnits.Crud.{find_new_parent, insert_unit, store, reload, commit_unit}
use yastubo_python.BusinessUnits.Hierarchy.{
  converted_type, change_type, parent_id_of, walk_up, check_parent, move,
}
use yastubo_python.BusinessUnits.Forest.{Climbs}
use yastubo_python.BusinessUnits.Walk.{check_parent_iff}
use yastubo_python.BusinessUnits.Steps.{Refuses, edited, converted}
use yastubo_python.BusinessUnits.Requests.{
  Request, post_unit, post_change_type, post_move, handle, run,
}
use yastubo_python.BusinessUnits.Tree.{IsTree}
use yastubo_python.BusinessUnits.Invariant.{run-IsTree}
use yastubo_python.BusinessUnits.Conversions.{
  Converts, change_type-refines, CanConsolidate, change_type-CanConsolidate,
}
use yastubo_python.BusinessUnits.Members.{
  new_membership, is_role_key, member_out, member_link, member_remove,
}
use yastubo_python.BusinessUnits.Commissions.{gsa_commissions_store, new_commission, commission_out}
use yastubo_python.BusinessUnits.Register.{IsRegister}
use yastubo_python.BusinessUnits.Register.Requests.{
  RegisterRequest, post_member, post_user, patch_role, delete_member, post_commission,
  patch_commission, run_register, run_register-IsRegister,
}
use yastubo_python.BusinessUnits.Register.Links.{member_remove-member_link}
use yastubo_python.BusinessUnits.Register.Service.{service, gsa_commissions_store-unchecked}

abbrev pub root : BusinessUnit
root = new_unit 1 (codes "root") (some office) (some UnitStatus.active) none

abbrev pub child : BusinessUnit
child = new_unit 2 (codes "child") (some counter) (some UnitStatus.active) (some 1)

abbrev seller : UserRow
seller = record {
  id = 5;
  realm = Realm.admin;
  email = codes "a@b.c";
  password = [];
  first_name = codes "Ana";
  last_name = codes "Paz";
  display_name = none;
  status = UserStatus.active;
  is_deleted = false;
}

abbrev seller_role : RoleRow
seller_role = record {
  id = 3;
  name = codes "seller";
  guard_name = codes "admin";
  scope = some Scope.unit;
  level = none;
}

abbrev pub two_units : Session
two_units = record {
  units = root ∷ child ∷ [];
  memberships = [];
  users = seller ∷ [];
  roles = seller_role ∷ [];
  regalias = [];
  next_unit = 3;
  next_membership = 1;
  next_user = 6;
  next_regalia = 1;
}

abbrev no_units : Session
no_units = record two_units { units = []; next_unit = 1 }

no_units-IsTree : IsTree no_units
unfolding find_unit parent_id_of
no_units-IsTree = record {
  fresh = λ k (u, e). absurd (cc);
  linked = λ a b e. absurd (cc);
  forest = λ a b e c. cc;
  rules = λ k u e. absurd (cc);
}

abbrev requests : List Request
requests =
    post_unit (codes " root ") office none
    ∷ post_unit (codes "child") counter (some 1)
    ∷ post_move 1 (some 2)
    ∷ post_change_type 2 office false
    ∷ post_move 1 (some 2)
    ∷ []

run-IsTree_example : IsTree (run requests no_units)
run-IsTree_example = run-IsTree requests no_units no_units-IsTree

-- The first move is refused, since it would close a cycle; the second one is not.
run-requests : map (λ u. u.parent_id) (run requests no_units).units ≡ some 2 ∷ none ∷ []
unfolding run handle store insert_unit find_new_parent find_unit get_unit load unit_out strip move
    validate_parent_rules check_parent walk_up parent_id_of commit_unit set_unit reload change_type
    converted_type
run-requests = refl

check_parent_iff_example :
    (check_parent (root ∷ child ∷ []) 1 (some child) ≡ ok tt)
      × (¬ (Climbs (parent_id_of (root ∷ child ∷ [])) 2 1))
    ⊎ (check_parent (root ∷ child ∷ []) 1 (some child) ≡ err invalid_parent) × (child.id ≡ root.id)
    ⊎ (check_parent (root ∷ child ∷ []) 1 (some child) ≡ err parent_cycle)
      × (¬ (child.id ≡ root.id))
      × Climbs (parent_id_of (root ∷ child ∷ [])) 2 1
unfolding find_unit
check_parent_iff_example = check_parent_iff (root ∷ child ∷ []) 1 2 child refl

change_type-refines_example :
    Converts (some counter) (some 1) false office
      × (handle (post_change_type 2 office false) two_units ≡ edited 2 (converted office) two_units)
    ⊎ (¬ (Converts (some counter) (some 1) false office))
      × Refuses (change_type 2 office false) two_units
      × (handle (post_change_type 2 office false) two_units ≡ two_units)
unfolding find_unit
change_type-refines_example = change_type-refines 2 office false two_units child refl

change_type-CanConsolidate_example : CanConsolidate 2 two_units
unfolding find_unit
change_type-CanConsolidate_example = change_type-CanConsolidate 2 two_units child counter refl refl

-- a comparison that ignores the pattern
abbrev pub any_text : Text → Text → Bool
any_text pattern t = true

two_units-IsRegister : IsRegister two_units
two_units-IsRegister = record {
  members = tt;
  royalties = tt;
  percents = tt;
  users_below = (omega arith, tt);
  members_below = tt;
}

abbrev register_requests : List RegisterRequest
register_requests =
    post_member 2 5 (some 3)
    ∷ post_member 2 5 none
    ∷ post_user 2 (codes "Eva") (codes "Sol") (codes "E@b.c") 3
    ∷ patch_role 2 1 9
    ∷ post_commission 2 5
    ∷ patch_commission 2 1 (some (some (pos 250000)))
    ∷ delete_member 2 2
    ∷ []

run_register-IsRegister_example : IsRegister (run_register register_requests two_units)
run_register-IsRegister_example =
    run_register-IsRegister register_requests two_units two_units-IsRegister

member_remove-member_link_example :
    let (r, s) = member_link 2 5 (some 3) two_units in
    (r ≡ ok (member_out s (new_membership 2 5 (some 3) two_units)))
    × ((member_remove 2 1 s).0 ≡ ok tt)
    × ((member_remove 2 1 s).1.memberships ≡ [])
unfolding find_unit is_role_key
member_remove-member_link_example =
    member_remove-member_link 2 5 (some 3) two_units child seller refl refl refl refl tt

abbrev paid : Session
paid = record two_units {
  units = root ∷ child ∷ [];
  regalias =
      record {
        id = 1;
        source_type = SourceType.unit;
        source_id = 1;
        beneficiary_user_id = 5;
        commission = none;
      }
      ∷ [];
  next_regalia = 2;
}

gsa_commissions_store-unchecked_example :
    let (r, s) = gsa_commissions_store 2 5 paid in
    (r ≡ ok (commission_out s (new_commission 2 5 paid)))
    × (service s
        ≡ ((check_source SourceType.unit 2
              >> check_duplicate 5 SourceType.unit 2
              >> insert_regalia 5 SourceType.unit 2)
            (service paid)).1)
unfolding find_unit
gsa_commissions_store-unchecked_example =
    gsa_commissions_store-unchecked 2 5 paid child seller refl refl refl

-- The service refuses what the controller stores: the user has the parent already.
create_regalia_refuses : (create_regalia 5 SourceType.unit 2 (service paid)).0 ≡ err unit_redundancy
unfolding create_regalia check_source check_duplicate check_cycles find_unit
    would_create_unit_redundancy_cycle existing_unit_ids redundant_among redundant_with
    candidate_above with_parents ancestor_chain chain_from parent_of
create_regalia_refuses = refl
