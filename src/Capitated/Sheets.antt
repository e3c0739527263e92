-- ===== src/Capitated/Sheets.antt =====
-- `_build_sheet_metas`, `_cell_str` and `_is_row_empty` of
-- common/services/capitated/capitated_batch_processor.py. A workbook is what the spreadsheet reader
-- hands over: titles, and cells as `str(value)` where the value is not `None`.
use yastubo_python.Prelude.{
  ℕ, ◌+◌, ◌-◌, ◌*◌, Bool, true, false, ◌&&◌, Option, none, some, List, [], ◌∷◌, ◌++◌, map, select,
  all, ◌==◌, if◌then◌else◌, Text, codes, strip, upper, is_digit, Dict, lookup, insert, get_elem?,
}
use yastubo_python.Prelude.Action.{pure, ◌>>=◌}
use yastubo_python.Prelude.Int.{ℤ}
use yastubo_python.Capitated.Tables.{
  Company, Country, Product, CountryPrice, PlanVersion, Catalog, RejectionCode,
  plan_invalid_product, plan_no_active_version, plan_structure_invalid,
}
use yastubo_python.Capitated.Session.{Step, scalar_one_or_none}

abbrev pub Cells : Type 0
Cells = List (Option Text)

pub record Sheet : Type 0 where
  pub title : Text
  pub first_row : Cells
  -- the rows from the second on
  pub rows : List Cells

-- the columns, from 1, of the required headers
pub record Columns : Type 0 where
  pub id : ℕ
  pub nombre : ℕ
  pub residencia : ℕ
  pub nacionalidad : ℕ
  pub sexo : ℕ
  pub edad : ℕ

-- the dictionary that `_build_sheet_metas` keeps for a sheet
pub record SheetMeta : Type 0 where
  pub sheet : Sheet
  pub product : Product
  pub plan_version : PlanVersion
  pub columns : Columns
  pub residence_iso3 : List Text
  pub repatriation_iso3 : List Text
  pub country_prices : Dict ℤ

unfoldable pub digits_value : ℕ → Text → ℕ
digits_value n [] = n
digits_value n (c ∷ s) = digits_value (n * 10 + (c - b'0')) s

-- `^\s*\((\d+)\)\s*(.+)$` on a stripped title without line feeds, from behind the parenthesis:
-- `digits` are those that were read
unfoldable pub title_number : ℕ → Bool → Text → Option ℕ
title_number n seen [] = none
title_number n seen (c ∷ s) =
    let more = title_number (n * 10 + (c - b'0')) true s in
    if is_digit c
    then more
    else if seen && c == b')'
    then elim s [ [] ↦ none | _ ↦ some n ]
    else none

unfoldable pub sheet_product_id : Text → Option ℕ
unfolding title_number
sheet_product_id [] = none
sheet_product_id (c ∷ s) = if c == b'(' then title_number 0 false s else none

-- `headers[normalized] = cell.column`, if there is a header
abbrev put_header : Text → ℕ → Dict ℕ → Dict ℕ
put_header [] column found = found
put_header (c ∷ s) column found = insert (c ∷ s) column found

-- the headers of the first row; one that stands twice has its last column
unfoldable pub headers_from : ℕ → Dict ℕ → Cells → Dict ℕ
headers_from column found [] = found
headers_from column found (none ∷ cells) = headers_from (column + 1) found cells
headers_from column found (some value ∷ cells) =
    headers_from (column + 1) (put_header (upper (strip value)) column found) cells

-- `{h: headers[h] for h in required}`, or `none` if a header is missing
unfoldable pub required_columns : Dict ℕ → Option Columns
required_columns headers = elim (lookup (codes "ID") headers) [
  | none ↦ none
  | some a ↦ elim (lookup (codes "NOMBRE") headers) [
    | none ↦ none
    | some b ↦ elim (lookup (codes "RESIDENCIA") headers) [
      | none ↦ none
      | some c ↦ elim (lookup (codes "NACIONALIDAD") headers) [
        | none ↦ none
        | some d ↦ elim (lookup (codes "SEXO") headers) [
          | none ↦ none
          | some e ↦ elim (lookup (codes "EDAD") headers) [
            | none ↦ none
            | some f ↦ some (record {
              id = a;
              nombre = b;
              residencia = c;
              nacionalidad = d;
              sexo = e;
              edad = f;
            })
          ]
        ]
      ]
    ]
  ]
]

-- `pivot_by_country_id[id]`, where it is a price; the key of the table allows one row for a country
unfoldable pub pivot_price : ℕ → List CountryPrice → Option ℤ
pivot_price k [] = none
pivot_price k (p ∷ ps) = if p.country_id == k then p.price else pivot_price k ps

-- `country_prices_map`; a later country with the same iso code overwrites
unfoldable pub prices_by_iso3 : List CountryPrice → List Country → Dict ℤ → Dict ℤ
unfolding pivot_price
prices_by_iso3 pivot [] found = found
prices_by_iso3 pivot (c ∷ cs) found =
    prices_by_iso3 pivot cs
      (elim (pivot_price c.id pivot) [ none ↦ found | some p ↦ insert (upper c.iso3) p found ])

abbrev pub iso3_codes : List Country → List Text
iso3_codes = map (λ c. upper c.iso3)

-- the rows `product` and `plan_version` of a sheet
abbrev pub is_product : ℕ → Company → Product → Bool
is_product product_id company p =
    p.id == product_id && (p.company_id == company.id && p.is_plan_capitado)

-- what one sheet adds: nothing, a plan error, or its entry
pub data SheetResult : Type 0 where
  skipped : SheetResult
  plan_error : RejectionCode → SheetResult
  entry : SheetMeta → SheetResult

unfoldable pub sheet_columns : Sheet → Product → PlanVersion → SheetResult
unfolding headers_from required_columns prices_by_iso3
sheet_columns sheet product plan = elim (required_columns (headers_from 1 [] sheet.first_row)) [
  | none ↦ plan_error plan_structure_invalid
  | some columns ↦ entry (record {
    sheet = sheet;
    product = product;
    plan_version = plan;
    columns = columns;
    residence_iso3 = iso3_codes plan.countries;
    repatriation_iso3 = iso3_codes plan.repatriation_countries;
    country_prices = prices_by_iso3 plan.country_prices plan.countries [];
  })
]

unfoldable pub with_version : Sheet → Product → Option PlanVersion → Step SheetResult
unfolding sheet_columns
with_version sheet product none = pure (plan_error plan_no_active_version)
with_version sheet product (some plan) = pure (sheet_columns sheet product plan)

unfoldable pub with_product : Catalog → Sheet → Option Product → Step SheetResult
with_product catalog sheet none = pure (plan_error plan_invalid_product)
with_product catalog sheet (some product) = do
  version ←
      scalar_one_or_none
        (select (λ v. v.product_id == product.id && v.is_active) catalog.plan_versions)
  with_version sheet product version

-- a title of another form passes the sheet over
unfoldable pub with_title : Catalog → Company → Sheet → Option ℕ → Step SheetResult
with_title catalog company sheet none = pure skipped
with_title catalog company sheet (some product_id) = do
  product ← scalar_one_or_none (select (is_product product_id company) catalog.products)
  with_product catalog sheet product

-- the body of the loop over the worksheets
unfoldable pub sheet_result : Catalog → Company → Sheet → Step SheetResult
sheet_result catalog company sheet =
    with_title catalog company sheet (sheet_product_id (strip sheet.title))

abbrev pub Metas : Type 0
Metas = Dict SheetMeta × List RejectionCode

abbrev pub add_result : Text → SheetResult → Metas → Metas
add_result name skipped m = m
add_result name (plan_error c) (metas, errors) = (metas, errors ++ c ∷ [])
add_result name (entry e) (metas, errors) = (insert name e metas, errors)

-- `_build_sheet_metas`
unfoldable pub build_sheet_metas : Catalog → Company → List Sheet → Metas → Step Metas
build_sheet_metas catalog company [] found = pure found
build_sheet_metas catalog company (sheet ∷ sheets) found = do
  result ← sheet_result catalog company sheet
  build_sheet_metas catalog company sheets (add_result (strip sheet.title) result found)

-- `_cell_str`
unfoldable pub cell_str : Cells → ℕ → Text
cell_str cells column = elim (get_elem? cells (column - 1)) [
  | some (some value) ↦ strip value
  | _ ↦ []
]

-- the texts of a row
pub record Values : Type 0 where
  pub id : Text
  pub nombre : Text
  pub residencia : Text
  pub nacionalidad : Text
  pub sexo : Text
  pub edad : Text

unfoldable pub read_row : Columns → Cells → Values
unfolding cell_str
read_row columns cells = record {
  id = cell_str cells columns.id;
  nombre = cell_str cells columns.nombre;
  residencia = cell_str cells columns.residencia;
  nacionalidad = cell_str cells columns.nacionalidad;
  sexo = cell_str cells columns.sexo;
  edad = cell_str cells columns.edad;
}

abbrev pub is_empty_text : Text → Bool
is_empty_text [] = true
is_empty_text (c ∷ s) = false

-- `_is_row_empty`
unfoldable pub is_row_empty : Values → Bool
is_row_empty v =
    all (λ t. is_empty_text (strip t))
      (v.id ∷ v.nombre ∷ v.residencia ∷ v.nacionalidad ∷ v.sexo ∷ v.edad ∷ [])
