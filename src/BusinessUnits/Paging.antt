-- ===== src/BusinessUnits/Paging.antt =====
-- The pages of list_units of business_units_controller.py.
use yastubo_python.Prelude.{
  ℕ, zero, suc, ◌+◌, ◌≤◌, ◌≡◌, refl, ap, ◌∙◌, Option, List, [], ◌∷◌, ◌++◌, map, length, Text, Bool,
}
use yastubo_python.Prelude.Action.{Result, ok, err}
use yastubo_python.Prelude.Pages.{page_of, last_page, concat_pages, all_pages}
use yastubo_python.Prelude.Ordered.{Pairs, AreApart, IsOrder, Orders, Orders-unique}
use yastubo_python.Units.{BusinessUnit}
use yastubo_python.BusinessUnits.{Session, HttpError, load, UnitOut, unit_out}
use yastubo_python.BusinessUnits.Listing.{PaginationMeta, pagination_meta, listed_units, list_units}

map-concat : {A B : Type 0} (f : A → B) (xs ys : List A) → map f (xs ++ ys) ≡ map f xs ++ map f ys
map-concat f [] ys = refl
map-concat f (x ∷ xs) ys = ap (λ l. f x ∷ l) (map-concat f xs ys)

map-pages :
    {A B : Type 0} (f : A → B) (read : ℕ → List A) (n i : ℕ)
    → concat_pages (λ page. map f (read page)) n i ≡ map f (concat_pages read n i)
map-pages f read zero i = refl
map-pages f read (suc n) i =
    rw (map-pages f read n (i + 1), map-concat f (read i) (concat_pages read n (i + 1)))

pages_same :
    {A : Type 0} (f g : ℕ → List A)
    → ((page : ℕ) → f page ≡ g page)
    → (n i : ℕ) → concat_pages f n i ≡ concat_pages g n i
pages_same f g e zero i = refl
pages_same f g e (suc n) i = rw (e i, pages_same f g e n (i + 1)) refl

-- the rows and the number of the last page in an answer
abbrev pub data_of : Result HttpError (List UnitOut × PaginationMeta) → List UnitOut
data_of (ok (outs, meta)) = outs
data_of (err e) = []

abbrev pub last_page_of : Result HttpError (List UnitOut × PaginationMeta) → ℕ
last_page_of (ok (outs, meta)) = meta.last_page
last_page_of (err e) = 0

abbrev pub by_name : (Text → Text → Bool) → BusinessUnit → BusinessUnit → Bool
by_name before a b = before a.name b.name

-- the rows that pass the filters, before they are put in order
abbrev pub selected_units :
    (Text → Text → Bool) → Option Text → Text → Text → Session → List BusinessUnit
selected_units ilike = listed_units ilike (λ rows. rows)

-- Where the query of each page puts the rows in an order by name, and the rows that pass the filters
-- have names that the order tells apart: for a size of at least 1, the pages 1 to `last_page` of the
-- listing, put one after another, are the rows that pass the filters, each exactly once, in order.
pub list_units_pages :
    (ilike : Text → Text → Bool) (order_by_name : ℕ → List BusinessUnit → List BusinessUnit)
    (before : Text → Text → Bool) (type : Option Text) (status q : Text) (per_page : ℕ)
    (s : Session)
    → IsOrder (by_name before)
    → ((page : ℕ)
        → let rows = selected_units ilike type status q s in
          Orders (by_name before) rows (order_by_name page rows))
    → Pairs (AreApart (by_name before)) (selected_units ilike type status q s)
    → 1 ≤ per_page
    → (rows : List BusinessUnit) × Orders
        (by_name before)
        (selected_units ilike type status q s)
        rows
      × (concat_pages
            (λ page.
              data_of (list_units ilike (order_by_name page) type status q page per_page s).0)
            (last_page_of (list_units ilike (order_by_name 1) type status q 1 per_page s).0)
            1
          ≡ map (λ u. unit_out (load s u)) rows)
unfolding list_units listed_units pagination_meta
list_units_pages ilike order_by_name before type status q per_page s o sorts apart h =
    let chosen = selected_units ilike type status q s in
    let rows = order_by_name 1 chosen in
    let out : BusinessUnit → UnitOut = λ u. unit_out (load s u) in
    let same : (page : ℕ) → order_by_name page chosen ≡ rows = λ page.
      Orders-unique (by_name before) o chosen (order_by_name page chosen) rows apart (sorts page)
        (sorts 1) in
    (
      rows,
      sorts 1,
      pages_same (λ page. map out (page_of page per_page (order_by_name page chosen)))
            (λ page. map out (page_of page per_page rows))
            (λ page. ap (λ l. map out (page_of page per_page l)) (same page))
            (last_page (length rows) per_page) 1
          ∙ (map-pages out (λ page. page_of page per_page rows) (last_page (length rows) per_page) 1
              ∙ ap (λ l. map out l) (all_pages per_page rows h)),
    )
