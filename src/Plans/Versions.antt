-- ===== src/Plans/Versions.antt =====
-- The handlers of plan_versions_controller.py on versions.
use yastubo_python.Prelude.{
  any, ℕ, ◌+◌, Bool, true, ◌&&◌, not, Option, none, some, List, [], ◌∷◌, ◌++◌, map, select, ◌==◌,
  ltb, member, if◌then◌else◌, update_where, Text, strip,
}
use yastubo_python.Prelude.Action.{ok, err, ◌>>=◌, ◌>>◌, pure, gets, modify, raise_if}
use yastubo_python.Prelude.Pages.{order_by}
use mathlib.Core.List.{reverse}
use yastubo_python.Plans.{
  PlanVersionStatus, inactive, no_terms, PlanVersionRow, Session, version_in_use, integrity_error,
  data_error, Handler, get_product, get_version, is_active, is_deletable, PlanVersionOut,
  build_version_out, set_version,
}

-- `index`
unfoldable pub index : ℕ → Handler (List PlanVersionOut)
unfolding build_version_out
index product_id = do
  get_product product_id
  gets (λ s.
      map build_version_out
        (reverse (order_by (λ v. v.id) (select (λ v. v.product_id == product_id) s.versions))))

-- a row with a key, a product and a name, which is inactive
abbrev pub new_version : ℕ → ℕ → Text → PlanVersionRow
new_version key product_id name = record {
  id = key;
  product_id = product_id;
  name = name;
  status = inactive;
  terms_html = no_terms;
  price_1 = none;
  price_2 = none;
  price_3 = none;
  price_4 = none;
  max_entry_age = none;
  max_renewal_age = none;
  wtime_preexisting_conditions = none;
  wtime_accident = none;
  wtime_suicide = none;
  terms_file_es_id = none;
  terms_file_en_id = none;
  zone_id = none;
  country_id = none;
}

-- `db.add(version)` and the flush
abbrev pub insert_version : (ℕ → PlanVersionRow) → Handler PlanVersionRow
insert_version make s = (
  ok (make s.next_version),
  record s { versions = s.versions ++ make s.next_version ∷ []; next_version = s.next_version + 1 },
)

unfoldable pub store : ℕ → Text → Handler PlanVersionOut
unfolding strip build_version_out
store product_id name = do
  get_product product_id
  version ← insert_version (λ k. new_version k product_id (strip name))
  pure (build_version_out version)

unfoldable pub show : ℕ → ℕ → Handler PlanVersionOut
unfolding build_version_out
show product_id version_id = do
  version ← get_version product_id version_id
  pure (build_version_out version)

-- a field of a request: not sent, or sent with a value that may be none
abbrev pub Sent : Type 0 → Type 0
Sent A = Option (Option A)

-- `UpdatePlanVersionRequest`
pub record UpdateRequest : Type 0 where
  pub name : Sent Text
  pub status : Sent PlanVersionStatus
  pub max_entry_age : Sent ℕ
  pub max_renewal_age : Sent ℕ
  pub wtime_suicide : Sent ℕ
  pub wtime_preexisting_conditions : Sent ℕ
  pub wtime_accident : Sent ℕ
  pub country_id : Sent ℕ
  pub zone_id : Sent ℕ
  pub price_1 : Sent ℕ
  pub price_2 : Sent ℕ
  pub price_3 : Sent ℕ
  pub price_4 : Sent ℕ
  pub terms_file_es_id : Sent ℕ
  pub terms_file_en_id : Sent ℕ

-- a field that can be set to none
abbrev pub set_or : {A : Type 0} → Option A → Sent A → Option A
set_or old none = old
set_or old (some value) = value

-- a field that cannot: none is passed over
abbrev pub value_or : {A : Type 0} → A → Sent A → A
value_or old (some (some value)) = value
value_or old _ = old

-- the loop over the fields of the request
unfoldable pub set_fields : UpdateRequest → PlanVersionRow → PlanVersionRow
set_fields r v = record v {
  name = value_or v.name r.name;
  status = value_or v.status r.status;
  max_entry_age = set_or v.max_entry_age r.max_entry_age;
  max_renewal_age = set_or v.max_renewal_age r.max_renewal_age;
  wtime_suicide = set_or v.wtime_suicide r.wtime_suicide;
  wtime_preexisting_conditions =
      set_or v.wtime_preexisting_conditions r.wtime_preexisting_conditions;
  wtime_accident = set_or v.wtime_accident r.wtime_accident;
  country_id = set_or v.country_id r.country_id;
  zone_id = set_or v.zone_id r.zone_id;
  price_1 = set_or v.price_1 r.price_1;
  price_2 = set_or v.price_2 r.price_2;
  price_3 = set_or v.price_3 r.price_3;
  price_4 = set_or v.price_4 r.price_4;
  terms_file_es_id = set_or v.terms_file_es_id r.terms_file_es_id;
  terms_file_en_id = set_or v.terms_file_en_id r.terms_file_en_id;
}

-- a foreign key of the row
abbrev pub is_key : Option ℕ → List ℕ → Bool
is_key none keys = true
is_key (some k) keys = member k keys

unfoldable pub are_keys : PlanVersionRow → Session → Bool
are_keys v s =
    is_key v.country_id s.country_ids
    && (is_key v.zone_id s.zone_ids
        && (is_key v.terms_file_es_id s.file_ids && is_key v.terms_file_en_id s.file_ids))

-- what a column of a type holds
abbrev pub is_below : ℕ → Option ℕ → Bool
is_below bound none = true
is_below bound (some n) = ltb n bound

abbrev pub is_integer : Option ℕ → Bool
is_integer = is_below 2_147_483_648

-- `Numeric(10, 2)` in cents
abbrev pub is_price : Option ℕ → Bool
is_price = is_below 10_000_000_000

unfoldable pub are_storable : PlanVersionRow → Bool
are_storable v =
    is_integer v.max_entry_age
    && (is_integer v.max_renewal_age
        && (is_integer v.wtime_suicide
            && (is_integer v.wtime_preexisting_conditions
                && (is_integer v.wtime_accident
                    && (is_price v.price_1
                        && (is_price v.price_2 && (is_price v.price_3 && is_price v.price_4)))))))

-- the update that deactivates the other versions of the product
unfoldable pub deactivate_others : ℕ → ℕ → Session → Session
deactivate_others product_id version_id s = record s {
  versions =
      update_where (λ v. v.product_id == product_id && (not (v.id == version_id) && is_active v))
        (λ v. record v { status = inactive }) s.versions;
}

unfoldable pub update : ℕ → ℕ → UpdateRequest → Handler PlanVersionOut
unfolding build_version_out are_keys are_storable
update product_id version_id r = do
  version ← get_version product_id version_id
  raise_if (not (are_storable (set_fields r version))) data_error
  known ← gets (are_keys (set_fields r version))
  raise_if (not known) integrity_error
  set_version version_id (set_fields r)
  modify (λ s.
      if is_active (set_fields r version) && not (is_active version)
      then deactivate_others product_id version_id s
      else s)
  pure (build_version_out (set_fields r version))

-- The deletion takes the surcharges and the countries along, and fails while coverages or loads name
-- the version.
unfoldable pub delete_version : ℕ → Handler (Unit {0})
delete_version version_id s =
    if any (λ c. c.plan_version_id == version_id) s.plan_version_coverages
    then (err integrity_error, s)
    else if member version_id s.loaded_versions
    then (err integrity_error, s)
    else (
      ok tt,
      record s {
        versions = select (λ v. not (v.id == version_id)) s.versions;
        surcharges = select (λ x. not (x.plan_version_id == version_id)) s.surcharges;
        countries = select (λ x. not (x.plan_version_id == version_id)) s.countries;
        repatriation_countries =
            select (λ x. not (x.plan_version_id == version_id)) s.repatriation_countries;
      },
    )

unfoldable pub destroy : ℕ → ℕ → Handler (Unit {0})
destroy product_id version_id = do
  version ← get_version product_id version_id
  raise_if (not (is_deletable version)) version_in_use
  delete_version version.id
