-- ===== src/BusinessUnits/Tests/Pages.antt =====
-- The theorem on the pages of list_units at two units, with pages of one unit.
use yastubo_python.Prelude.{
  ◌≡◌, refl, Bool, true, false, ◌&&◌, ◌||◌, none, List, [], ◌∷◌, map, Text, codes, ltb, ◌==◌, inr,
  arith,
}
use mathlib.Core.List.{Permᴰ}
use yastubo_python.Prelude.Pages.{concat_pages}
use yastubo_python.Prelude.Ordered.{IsOrder, Orders}
use yastubo_python.Units.{BusinessUnit}
use yastubo_python.BusinessUnits.{unit_out, load}
use yastubo_python.BusinessUnits.Listing.{listed_units, list_units, matches}
use yastubo_python.BusinessUnits.Paging.{
  data_of, last_page_of, by_name, selected_units, list_units_pages,
}
use yastubo_python.BusinessUnits.Tests.{two_units, any_text}

-- the order of the code points
abbrev text_before : Text → Text → Bool
text_before a [] = false
text_before [] (d ∷ b) = true
text_before (c ∷ a) (d ∷ b) = ltb c d || (c == d && text_before a b)

before_never : (a : Text) → text_before a a ≡ false
before_never [] = refl
before_never (c ∷ a) = ground (arith, before_never a)

before_through :
    (a b c : Text) → text_before a b ≡ true → text_before b c ≡ true → text_before a c ≡ true
before_through [] (y ∷ b) (z ∷ c) h k = refl
before_through a [] c h k = absurd (cc)
before_through a (y ∷ b) [] h k = absurd (cc)
before_through (x ∷ a) (y ∷ b) (z ∷ c) h k = ground (arith, before_through a b c)

text_before-IsOrder : IsOrder (by_name text_before)
text_before-IsOrder = record {
  never = λ x. before_never x.name;
  through = λ x y z. before_through x.name y.name z.name;
}

-- the child before the root
abbrev turned : List BusinessUnit → List BusinessUnit
turned (a ∷ b ∷ []) = b ∷ a ∷ []
turned units = units

list_units_pages_example :
    (rows : List BusinessUnit) × Orders
      (by_name text_before)
      (selected_units any_text none (codes "active") [] two_units)
      rows
    × (concat_pages
          (λ page. data_of (list_units any_text turned none (codes "active") [] page 1 two_units).0)
          (last_page_of (list_units any_text turned none (codes "active") [] 1 1 two_units).0)
          1
        ≡ map (λ u. unit_out (load two_units u)) rows)
unfolding listed_units matches
list_units_pages_example =
    list_units_pages any_text (λ page. turned) text_before none (codes "active") [] 1 two_units
      text_before-IsOrder
      (λ page. record { perm = Permᴰ.swap refl refl; sorted = ((refl, tt), (tt, tt)) })
      ((inr refl, tt), (tt, tt)) (omega arith)
