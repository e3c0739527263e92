-- ===== src/Plans/Coverages.antt =====
-- The coverages of a version in coverages_controller.py.
use yastubo_python.Prelude.{
  ℕ, ◌+◌, Bool, true, ◌&&◌, not, Option, none, some, List, [], ◌∷◌, ◌++◌, any, select, ◌==◌, ltb,
  leb, if◌then◌else◌, update_where, Text,
}
use yastubo_python.Prelude.Action.{ok, err, ◌>>=◌, ◌>>◌, gets, modify, raise_if}
use yastubo_python.Prelude.Database.{require}
use yastubo_python.Prelude.Int.{ℤ, pos, negsuc}
use yastubo_python.Plans.{
  Translation, PlanVersionCoverage, Coverage, UnitOfMeasure, CoverageCategory, Session,
  coverage_not_found, several_rows, integrity_error, data_error, Handler, first_row, get_version,
}
use yastubo_python.Plans.Versions.{Sent, set_or}

-- `PlanVersionCoverageOut`, with the row for its columns
pub record PlanVersionCoverageOut : Type 0 where
  pub row : PlanVersionCoverage
  pub coverage_name : Option Translation
  pub coverage_description : Option Translation
  pub unit_name : Option Translation
  pub unit_measure_type : Option Text
  pub category_id : Option ℕ
  pub category_name : Option Translation

-- a relation whose foreign key may be null
abbrev pub related : {A : Type 0} → (A → ℕ) → Option ℕ → List A → Option A
related key none rows = none
related key (some k) rows = first_row (select (λ x. key x == k) rows)

abbrev pub unit_of : Option Coverage → Session → Option UnitOfMeasure
unit_of none s = none
unit_of (some c) s = related (λ u. u.id) c.unit_id s.units

abbrev pub category_of : Option Coverage → Session → Option CoverageCategory
category_of none s = none
category_of (some c) s = related (λ x. x.id) c.category_id s.categories

abbrev pub then_get : {A B : Type 0} → Option A → (A → Option B) → Option B
then_get none f = none
then_get (some a) f = f a

-- `_pv_coverage_out`
unfoldable pub pv_coverage_out : Session → PlanVersionCoverage → PlanVersionCoverageOut
pv_coverage_out s x =
    let coverage = related (λ c. c.id) (some x.coverage_id) s.coverages in
    let unit = unit_of coverage s in
    let category = category_of coverage s in
    record {
      row = x;
      coverage_name = then_get coverage (λ c. c.name);
      coverage_description = then_get coverage (λ c. c.description);
      unit_name = then_get unit (λ u. u.name);
      unit_measure_type = then_get unit (λ u. some u.measure_type);
      category_id = then_get category (λ c. some c.id);
      category_name = then_get category (λ c. c.name);
    }

abbrev pub is_pair : ℕ → ℕ → PlanVersionCoverage → Bool
is_pair version_id coverage_id x = x.plan_version_id == version_id && x.coverage_id == coverage_id

-- `coalesce(max(sort_order), 0)`
unfoldable pub max_order : List PlanVersionCoverage → ℕ
max_order [] = 0
max_order (x ∷ xs) =
    let rest = max_order xs in
    elim x.sort_order [ some n ↦ if leb n rest then rest else n | none ↦ rest ]

abbrev pub new_coverage : ℕ → ℕ → ℕ → ℕ → PlanVersionCoverage
new_coverage key version_id coverage_id order = record {
  id = key;
  plan_version_id = version_id;
  coverage_id = coverage_id;
  sort_order = some order;
  value_int = none;
  value_decimal = none;
  value_text = none;
  notes = none;
}

-- `db.add(pvc)` and the commit
unfoldable pub insert_coverage : ℕ → ℕ → Handler PlanVersionCoverage
unfolding max_order
insert_coverage version_id coverage_id s =
    let order =
      max_order (select (λ x. x.plan_version_id == version_id) s.plan_version_coverages) in
    let x = new_coverage s.next_coverage version_id coverage_id (order + 1) in
    if any (λ c. c.id == coverage_id) s.coverages
    then (
      ok x,
      record s {
        plan_version_coverages = s.plan_version_coverages ++ x ∷ [];
        next_coverage = s.next_coverage + 1;
      },
    )
    else (err integrity_error, s)

-- the row that is there already, if it is the only one, or else a new one
unfoldable pub found_or_insert : ℕ → ℕ → List PlanVersionCoverage → Handler PlanVersionCoverage
found_or_insert version_id coverage_id [] s = insert_coverage version_id coverage_id s
found_or_insert version_id coverage_id (x ∷ []) s = (ok x, s)
found_or_insert version_id coverage_id (x ∷ y ∷ ys) s = (err several_rows, s)

unfoldable pub pv_store : ℕ → ℕ → ℕ → Handler PlanVersionCoverageOut
pv_store product_id version_id coverage_id = do
  get_version product_id version_id
  rows ← gets (λ s. select (is_pair version_id coverage_id) s.plan_version_coverages)
  x ← found_or_insert version_id coverage_id rows
  gets (λ s. pv_coverage_out s x)

abbrev pub is_coverage_row : ℕ → ℕ → PlanVersionCoverage → Bool
is_coverage_row version_id key x = x.id == key && x.plan_version_id == version_id

-- the query by which pv_destroy and pv_update_value find a row
unfoldable pub find_coverage : ℕ → ℕ → ℕ → Handler PlanVersionCoverage
find_coverage product_id version_id key = do
  get_version product_id version_id
  row ← gets (λ s. first_row (select (is_coverage_row version_id key) s.plan_version_coverages))
  require coverage_not_found row

unfoldable pub pv_destroy : ℕ → ℕ → ℕ → Handler (Unit {0})
pv_destroy product_id version_id key = do
  x ← find_coverage product_id version_id key
  modify (λ s. record s {
    plan_version_coverages = select (λ y. not (y.id == x.id)) s.plan_version_coverages;
  })

-- the loop over `enumerate(body.coverage_ids)`, from an index on
unfoldable pub place : ℕ → ℕ → List ℕ → List PlanVersionCoverage → List PlanVersionCoverage
place version_id index [] rows = rows
place version_id index (key ∷ keys) rows = place version_id (index + 1) keys (
    update_where (is_coverage_row version_id key) (λ x. record x { sort_order = some (index + 1) })
      rows)

unfoldable pub pv_reorder : ℕ → ℕ → List ℕ → Handler (Unit {0})
unfolding place
pv_reorder product_id version_id coverage_ids = do
  get_version product_id version_id
  modify (λ s. record s {
    plan_version_coverages = place version_id 0 coverage_ids s.plan_version_coverages;
  })

-- `UpdatePVCoverageValueRequest`
pub record ValueRequest : Type 0 where
  pub value_int : Sent ℤ
  pub value_decimal : Sent ℤ
  pub value_text : Sent Translation
  pub notes : Sent Translation

unfoldable pub set_value : ValueRequest → PlanVersionCoverage → PlanVersionCoverage
set_value r x = record x {
  value_int = set_or x.value_int r.value_int;
  value_decimal = set_or x.value_decimal r.value_decimal;
  value_text = set_or x.value_text r.value_text;
  notes = set_or x.notes r.notes;
}

-- what the columns of values hold: `Integer`, and `Numeric(15, 2)` in hundredths
unfoldable pub is_value : PlanVersionCoverage → Bool
is_value x =
    elim x.value_int [
      | none ↦ true
      | some (pos n) ↦ ltb n 2_147_483_648
      | some (negsuc n) ↦ ltb n 2_147_483_648
    ]
    && elim x.value_decimal [
      | none ↦ true
      | some (pos n) ↦ ltb n 1_000_000_000_000_000
      | some (negsuc n) ↦ ltb (n + 1) 1_000_000_000_000_000
    ]

unfoldable pub pv_update_value : ℕ → ℕ → ℕ → ValueRequest → Handler PlanVersionCoverageOut
unfolding set_value is_value
pv_update_value product_id version_id key r = do
  x ← find_coverage product_id version_id key
  raise_if (not (is_value (set_value r x))) data_error
  modify (λ s. record s {
    plan_version_coverages =
        update_where (λ y. y.id == x.id) (set_value r) s.plan_version_coverages;
  })
  gets (λ s. pv_coverage_out s (set_value r x))
