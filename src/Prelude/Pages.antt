-- ===== src/Prelude/Pages.antt =====
-- OFFSET and LIMIT, pages, and ORDER BY a numeric key.
use Prim.Native.Nat.{ℕ, zero, suc, ◌+◌, ◌-◌, ◌*◌, ◌/◌, ◌≤◌}
use mathlib.Core.Path.{◌≡◌, refl, ap, ◌∙◌}
use mathlib.Core.List.{List, [], ◌∷◌, ◌++◌}
use native.Mathlib.Omega.{arith}
use yastubo_python.Prelude.Tests.{leb, if◌then◌else◌}
use yastubo_python.Prelude.Lists.{length}

module _ {ℓ} {A : Type ℓ} where
  -- `LIMIT n`
  abbrev pub take : ℕ → List A → List A
  take zero xs = []
  take (suc n) [] = []
  take (suc n) (x ∷ xs) = x ∷ take n xs

  -- `OFFSET n`
  abbrev pub drop : ℕ → List A → List A
  drop zero xs = xs
  drop (suc n) [] = []
  drop (suc n) (x ∷ xs) = drop n xs

  -- `ORDER BY key`
  abbrev pub insert_by : (A → ℕ) → A → List A → List A
  insert_by key x [] = x ∷ []
  insert_by key x (y ∷ ys) =
      let rest = insert_by key x ys in if leb (key x) (key y) then x ∷ y ∷ ys else y ∷ rest

  abbrev pub order_by : (A → ℕ) → List A → List A
  order_by key [] = []
  order_by key (x ∷ xs) = insert_by key x (order_by key xs)

  take_all : (n : ℕ) (xs : List A) → length xs ≤ n → take n xs ≡ xs
  take_all zero [] h = refl
  take_all zero (x ∷ xs) h = absurd (omega arith)
  take_all (suc n) [] h = refl
  take_all (suc n) (x ∷ xs) h = ap (λ ys. x ∷ ys) (take_all n xs (omega arith))

  take-drop : (m n k : ℕ) (xs : List A) → k ≡ m + n → take m xs ++ take n (drop m xs) ≡ take k xs
  take-drop zero n k xs e = let e' : k ≡ n = omega arith in rw e'
  take-drop (suc m) zero k [] e = let e' : k ≡ suc m = omega arith in rw e'
  take-drop (suc m) (suc n) k [] e = let e' : k ≡ suc (m + suc n) = omega arith in rw e'
  take-drop (suc m) n k (x ∷ xs) e =
      let e' : k ≡ suc (m + n) = omega arith in
      rw e' (ap (λ ys. x ∷ ys) (take-drop m n (m + n) xs refl))

  drop-drop : (m n k : ℕ) (xs : List A) → k ≡ m + n → drop n (drop m xs) ≡ drop k xs
  drop-drop zero n k xs e = let e' : k ≡ n = omega arith in rw e'
  drop-drop (suc m) zero k [] e = let e' : k ≡ suc m = omega arith in rw e'
  drop-drop (suc m) (suc n) k [] e = let e' : k ≡ suc (m + suc n) = omega arith in rw e'
  drop-drop (suc m) n k (x ∷ xs) e =
      let e' : k ≡ suc (m + n) = omega arith in rw e' (drop-drop m n (m + n) xs refl)

  -- the rows of a page, the first of which has the number 1
  abbrev pub page_of : ℕ → ℕ → List A → List A
  page_of page per_page rows = take per_page (drop ((page - 1) * per_page) rows)

  -- the pages `i`, `i + 1`, …, `n` of them
  abbrev pub concat_pages : (ℕ → List A) → ℕ → ℕ → List A
  concat_pages read zero i = []
  concat_pages read (suc n) i = read i ++ concat_pages read n (i + 1)

  pages_take :
      (per_page n i : ℕ) (rows : List A)
      → concat_pages (λ page. page_of page per_page rows) n (i + 1)
        ≡ take (n * per_page) (drop (i * per_page) rows)
  pages_take per_page zero i rows = let e : 0 * per_page ≡ 0 = grind arith in rw e
  pages_take per_page (suc n) i rows =
      let start : (i + 1 - 1) * per_page ≡ i * per_page = grind arith in
      let next : (i + 1) * per_page ≡ i * per_page + per_page = grind arith in
      let size : suc n * per_page ≡ per_page + n * per_page = grind arith in
      rw (start, pages_take per_page n (i + 1) rows, next)
        (rw (← drop-drop (i * per_page) per_page (i * per_page + per_page) rows refl)
          (take-drop per_page (n * per_page) (suc n * per_page) (drop (i * per_page) rows) size))

-- `max(1, math.ceil(total / per_page))`
unfoldable pub last_page : ℕ → ℕ → ℕ
last_page total per_page =
    let pages = (total + per_page - 1) / per_page in if leb 1 pages then pages else 1

div_enough : (x p : ℕ) → 1 ≤ p → x + 1 ≤ (x / p) * p + p
div_enough x p h = grind arith

last_page_enough : (total per_page : ℕ) → 1 ≤ per_page → total ≤ last_page total per_page * per_page
unfolding last_page
last_page_enough total per_page h = ground (arith, div_enough (total + per_page - 1) per_page h)

-- The pages from the first to the last one hold every row once, in order.
pub all_pages :
    {A : Type 0} (per_page : ℕ) (rows : List A)
    → 1 ≤ per_page
    → concat_pages (λ page. page_of page per_page rows) (last_page (length rows) per_page) 1 ≡ rows
all_pages per_page rows h =
    let zeroth : 0 * per_page ≡ 0 = grind arith in
    pages_take per_page (last_page (length rows) per_page) 0 rows
    ∙ rw zeroth (
        take_all (last_page (length rows) per_page * per_page) rows
          (last_page_enough (length rows) per_page h))
