-- ===== src/Capitated/Prices.antt =====
-- The price of a row: `_process_spreadsheet_rows` of
-- common/services/capitated/capitated_batch_processor.py.
use yastubo_python.Prelude.{
  ℕ, Bool, false, ◌&&◌, not, Option, none, some, List, [], ◌∷◌, select, lookup,
}
use yastubo_python.Prelude.Int.{ℤ, pos, ltb_ℤ, ◌-ℤ◌}
use yastubo_python.Capitated.Tables.{PriceSource, AgeSurcharge}
use yastubo_python.Capitated.Row.{Floats, Context, Row}

-- the base price, and where it comes from
unfoldable pub base_price : Context → Row → ℤ × PriceSource
base_price x row =
    let fallback : ℤ × PriceSource =
      (elim x.meta.plan_version.price_1 [ none ↦ pos 0 | some p ↦ p ], PriceSource.global) in
    elim row.res_iso3 [
      | none ↦ fallback
      | some iso3 ↦ elim (lookup iso3 x.meta.country_prices) [
        | none ↦ fallback
        | some p ↦ (p, PriceSource.country)
      ]
    ]

-- `rule.age_from <= age <= rule.age_to`, for a rule with both ends and a known age
abbrev pub matches : Option ℤ → AgeSurcharge → Bool
matches none rule = false
matches (some age) rule = elim rule.age_from [
  | none ↦ false
  | some from ↦ elim rule.age_to [
    | none ↦ false
    | some to ↦ not (ltb_ℤ age (pos from)) && not (ltb_ℤ (pos to) age)
  ]
]

-- what the rules that match make of a price: two or more of them make no price
pub record Price : Type 0 where
  pub rule_id : Option ℕ
  pub percent : Option ℤ
  pub amount : Option ℤ
  pub final : ℤ

unfoldable pub price_with : Floats → ℤ → List AgeSurcharge → Option Price
unfolding ◌-ℤ◌
price_with floats base [] =
    some (record { rule_id = none; percent = none; amount = none; final = base })
price_with floats base (rule ∷ []) =
    let percent : ℤ = elim rule.surcharge_percent [ none ↦ pos 0 | some p ↦ p ] in
    let final = floats.surcharged base percent in
    some (record {
      rule_id = some rule.id;
      percent = some percent;
      amount = some (final -ℤ base);
      final = final;
    })
price_with floats base (rule ∷ other ∷ rules) = none

-- the price of the row, by the rules for its age
unfoldable pub row_price : Context → Row → Option Price
unfolding price_with base_price
row_price x row =
    price_with x.floats (base_price x row).0
      (select (matches row.age) x.meta.plan_version.age_surcharges)
