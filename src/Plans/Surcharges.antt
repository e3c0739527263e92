-- ===== src/Plans/Surcharges.antt =====
-- The handlers of plan_versions_controller.py on surcharges by age.
use yastubo_python.Prelude.{
  ℕ, ◌+◌, Bool, true, false, ◌&&◌, ◌||◌, not, Option, none, some, List, [], ◌∷◌, ◌++◌, select, ◌==◌,
  ltb, update_where,
}
use yastubo_python.Prelude.Action.{ok, err, ◌>>=◌, ◌>>◌, pure, gets, modify, raise_if}
use yastubo_python.Prelude.Database.{require}
use yastubo_python.Prelude.Int.{ℤ, pos, negsuc}
use yastubo_python.Prelude.Pages.{order_by}
use yastubo_python.Plans.{
  AgeSurchargeRow, surcharge_not_found, integrity_error, data_error, Handler, first_row,
  get_version,
}
use yastubo_python.Plans.Versions.{Sent, is_integer}
use yastubo_python.Plans.Clones.{surcharges_of}

-- `_get_surcharge`
unfoldable pub get_surcharge : ℕ → ℕ → ℕ → Handler AgeSurchargeRow
get_surcharge product_id version_id surcharge_id = do
  version ← get_version product_id version_id
  row ← gets (λ s.
      first_row
        (select (λ x. x.id == surcharge_id && x.plan_version_id == version.id) s.surcharges))
  require surcharge_not_found row

-- `ORDER BY age_from, age_to`: two stable sorts, the second key first
unfoldable pub age_surcharges_index : ℕ → ℕ → Handler (List AgeSurchargeRow)
age_surcharges_index product_id version_id = do
  get_version product_id version_id
  gets (λ s.
      order_by (λ x. x.age_from) (order_by (λ x. x.age_to) (surcharges_of version_id s.surcharges)))

-- `Numeric(6, 2)` in hundredths
abbrev pub is_percent : Option ℤ → Bool
is_percent none = true
is_percent (some (pos n)) = ltb n 1_000_000
is_percent (some (negsuc n)) = ltb (n + 1) 1_000_000

-- what the columns of a surcharge hold
unfoldable pub are_surcharge_columns : Option ℕ → Option ℕ → Option ℤ → Bool
are_surcharge_columns age_from age_to percent =
    is_integer age_from && (is_integer age_to && is_percent percent)

-- `db.add(surcharge)` and the commit: the ages must not be null
unfoldable pub insert_surcharge : ℕ → Option ℕ → Option ℕ → Option ℤ → Handler AgeSurchargeRow
insert_surcharge version_id (some age_from) (some age_to) percent s =
    let x : AgeSurchargeRow = record {
      id = s.next_surcharge;
      plan_version_id = version_id;
      age_from = age_from;
      age_to = age_to;
      surcharge_percent = percent;
    } in
    (ok x, record s { surcharges = s.surcharges ++ x ∷ []; next_surcharge = s.next_surcharge + 1 })
insert_surcharge version_id _ _ percent s = (err integrity_error, s)

unfoldable pub age_surcharges_store :
    ℕ → ℕ → Option ℕ → Option ℕ → Option ℤ → Handler AgeSurchargeRow
unfolding are_surcharge_columns
age_surcharges_store product_id version_id age_from age_to percent = do
  get_version product_id version_id
  raise_if (not (are_surcharge_columns age_from age_to percent)) data_error
  insert_surcharge version_id age_from age_to percent

-- `UpdateAgeSurchargeRequest`
pub record SurchargeRequest : Type 0 where
  pub age_from : Sent ℕ
  pub age_to : Sent ℕ
  pub surcharge_percent : Sent ℤ

abbrev pub is_null : Sent ℕ → Bool
is_null (some none) = true
is_null _ = false

abbrev pub age_or : ℕ → Sent ℕ → ℕ
age_or old (some (some age)) = age
age_or old _ = old

abbrev pub percent_or : Option ℤ → Sent ℤ → Option ℤ
percent_or old none = old
percent_or old (some percent) = percent

unfoldable pub set_surcharge : SurchargeRequest → AgeSurchargeRow → AgeSurchargeRow
set_surcharge r x = record x {
  age_from = age_or x.age_from r.age_from;
  age_to = age_or x.age_to r.age_to;
  surcharge_percent = percent_or x.surcharge_percent r.surcharge_percent;
}

unfoldable pub age_surcharges_update : ℕ → ℕ → ℕ → SurchargeRequest → Handler AgeSurchargeRow
unfolding set_surcharge are_surcharge_columns
age_surcharges_update product_id version_id surcharge_id r = do
  x ← get_surcharge product_id version_id surcharge_id
  let y = set_surcharge r x
  raise_if (not (are_surcharge_columns (some y.age_from) (some y.age_to) y.surcharge_percent))
      data_error
  raise_if (is_null r.age_from || is_null r.age_to) integrity_error
  modify (λ s. record s {
    surcharges = update_where (λ y. y.id == x.id) (set_surcharge r) s.surcharges;
  })
  pure (set_surcharge r x)

unfoldable pub age_surcharges_destroy : ℕ → ℕ → ℕ → Handler ℕ
age_surcharges_destroy product_id version_id surcharge_id = do
  x ← get_surcharge product_id version_id surcharge_id
  modify (λ s. record s { surcharges = select (λ y. not (y.id == x.id)) s.surcharges })
  pure x.id
