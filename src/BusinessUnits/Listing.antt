-- ===== src/BusinessUnits/Listing.antt =====
-- The listings of business_units_controller.py. The comparison `ILIKE` and the order of texts are the
-- database's: they are parameters.
use yastubo_python.Prelude.{
  ℕ, Bool, true, false, ◌&&◌, ◌||◌, Option, none, some, List, [], ◌∷◌, ◌++◌, map, select, any,
  length, member, ◌==◌, Text, codes, text_eq, strip, if◌then◌else◌,
}
use yastubo_python.Prelude.Action.{ok, ◌>>=◌, pure, gets}
use yastubo_python.Prelude.Pages.{page_of, last_page}
use yastubo_python.Units.{
  UnitType, consolidator, office, counter, freelance, UnitStatus, BusinessUnit,
}
use yastubo_python.Regalias.Rules.{SourceType, Regalia, source_type_eq}
use yastubo_python.BusinessUnits.{Session, Handler, load, get_unit, UnitOut, unit_out}
use yastubo_python.BusinessUnits.Users.{
  UserRow, UserStatus, RoleRow, is_available, full_name, is_unit_scope,
}

abbrev pub type_text : UnitType → Text
type_text consolidator = codes "consolidator"
type_text office = codes "office"
type_text counter = codes "counter"
type_text freelance = codes "freelance"

abbrev pub status_text : UnitStatus → Text
status_text UnitStatus.active = codes "active"
status_text UnitStatus.inactive = codes "inactive"

-- `PaginationMeta`
pub record PaginationMeta : Type 0 where
  pub current_page : ℕ
  pub last_page : ℕ
  pub per_page : ℕ
  pub total : ℕ

-- `_pagination_meta`
unfoldable pub pagination_meta : ℕ → ℕ → ℕ → PaginationMeta
unfolding last_page
pagination_meta total page per_page = record {
  current_page = page;
  last_page = last_page total per_page;
  per_page = per_page;
  total = total;
}

-- a column that is not null has the text
abbrev pub has_text : {A : Type 0} → (A → Text) → Text → Option A → Bool
has_text text t none = false
has_text text t (some a) = text_eq (text a) t

-- `if type: … WHERE type = …`
abbrev pub is_of_type : Option Text → BusinessUnit → Bool
is_of_type none u = true
is_of_type (some []) u = true
is_of_type (some (c ∷ t)) u = has_text type_text (c ∷ t) u.type

-- `if status in ("active", "inactive"): … WHERE status = …`
abbrev pub is_of_status : Text → BusinessUnit → Bool
is_of_status t u =
    if text_eq t (codes "active") || text_eq t (codes "inactive")
    then has_text status_text t u.status
    else true

-- `f"%{search}%"`
abbrev pub like : Text → Text
like search = b'%' ∷ search ++ b'%' ∷ []

-- `ActiveUserOut`
pub record ActiveUserOut : Type 0 where
  pub id : ℕ
  pub email : Text
  pub display_name : Text
  pub status : UserStatus

unfoldable pub active_user_out : UserRow → ActiveUserOut
unfolding full_name
active_user_out u = record {
  id = u.id;
  email = u.email;
  display_name = full_name u;
  status = u.status;
}

-- `AvailableGSAUserItem`
pub record AvailableUser : Type 0 where
  pub id : ℕ
  pub email : Text
  pub display_name : Text
  pub is_assigned : Bool

-- a royalty of the unit
abbrev pub is_unit_regalia : ℕ → Regalia → Bool
is_unit_regalia unit_id r = source_type_eq r.source_type SourceType.unit && r.source_id == unit_id

abbrev pub display_texts : Option Text → List Text
display_texts none = []
display_texts (some t) = t ∷ []

module _ (ilike : Text → Text → Bool) where
  -- `if search: … WHERE … ILIKE …`
  unfoldable pub matches : Text → List Text → Bool
  unfolding strip
  matches q columns = elim (strip q) [ [] ↦ true | c ∷ t ↦ any (ilike (like (c ∷ t))) columns ]

module _ (ilike : Text → Text → Bool) (order_by_name : List BusinessUnit → List BusinessUnit) where
  -- The query of `list_units`. Names are not unique, so each page may have its own `order_by_name`.
  unfoldable pub listed_units : Option Text → Text → Text → Session → List BusinessUnit
  unfolding matches
  listed_units type status q s = order_by_name (
      select (λ u. is_of_type type u && (is_of_status status u && matches ilike q (u.name ∷ [])))
        s.units)

  unfoldable pub list_units :
      Option Text → Text → Text → ℕ → ℕ → Handler (List UnitOut × PaginationMeta)
  unfolding listed_units pagination_meta load unit_out
  list_units type status q page per_page s =
      let rows = listed_units type status q s in
      (
        ok (
          map (λ u. unit_out (load s u)) (page_of page per_page rows),
          pagination_meta (length rows) page per_page,
        ),
        s,
      )

module _ (order_by_name : List BusinessUnit → List BusinessUnit) where
  -- `children`
  unfoldable pub children : ℕ → Handler (List UnitOut)
  unfolding load unit_out
  children unit_id = do
    unit ← get_unit unit_id
    rows ← gets (λ s. select (λ u. member u.id (map (λ c. c.id) unit.children)) s.units)
    outs ← gets (λ s. map (λ u. unit_out (load s u)) (order_by_name rows))
    pure outs

module _ (ilike : Text → Text → Bool) (order_by_email : List UserRow → List UserRow) where
  -- `users_search_active`
  unfoldable pub users_search_active : Text → ℕ → ℕ → Handler (List ActiveUserOut × PaginationMeta)
  unfolding matches pagination_meta active_user_out
  users_search_active q page per_page s =
      let found = λ (u : UserRow).
        is_available u
        && matches ilike q (u.email ∷ u.first_name ∷ u.last_name ∷ display_texts u.display_name) in
      let rows = order_by_email (select found s.users) in
      (
        ok (
          map active_user_out (page_of page per_page rows),
          pagination_meta (length rows) page per_page,
        ),
        s,
      )

module _ (order_roles : List RoleRow → List RoleRow) where
  -- `roles_unit_scope`
  unfoldable pub roles_unit_scope : Handler (List RoleRow)
  roles_unit_scope s = (
    ok (
        order_roles
          (select (λ r. is_unit_scope r && text_eq r.guard_name (codes "admin")) s.roles)),
    s,
  )

module _ (ilike : Text → Text → Bool) (order_by_names : List UserRow → List UserRow) where
  -- `gsa_commissions_available`
  unfoldable pub gsa_commissions_available :
      ℕ → Text → ℕ → ℕ → Handler (List AvailableUser × PaginationMeta)
  unfolding matches pagination_meta full_name
  gsa_commissions_available unit_id q page per_page = do
    unit ← get_unit unit_id
    rows ← gets (λ s. order_by_names (
        select (λ u. is_available u && matches ilike q (u.email ∷ u.first_name ∷ u.last_name ∷ []))
          s.users))
    assigned_ids ←
        gets (λ s. map (λ r. r.beneficiary_user_id) (select (is_unit_regalia unit_id) s.regalias))
    pure (
      map
          (λ u. record {
            id = u.id;
            email = u.email;
            display_name = full_name u;
            is_assigned = member u.id assigned_ids;
          })
          (page_of page per_page rows),
      pagination_meta (length rows) page per_page,
    )
