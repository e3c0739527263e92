-- ===== src/Capitated/Countries.antt =====
-- `_normalize_country_to_iso3` and `_find_country_by_iso3` of
-- common/services/capitated/capitated_batch_processor.py.
use yastubo_python.Prelude.{
  ℕ, zero, suc, ◌&&◌, Option, none, some, [], ◌∷◌, select, leb, ltb, if◌then◌else◌, Text, text_eq,
  strip, upper, length,
}
use yastubo_python.Prelude.Action.{pure, ◌>>=◌}
use yastubo_python.Capitated.Tables.{Country, Catalog}
use yastubo_python.Capitated.Session.{Step, scalar_one_or_none}

-- `re.match(r"^([A-Z]{2,3})", raw)`: at most `n` capital letters from the front
unfoldable pub capitals : ℕ → Text → Text
capitals zero s = []
capitals (suc n) [] = []
capitals (suc n) (c ∷ s) =
    let rest = capitals n s in if leb b'A' c && leb c b'Z' then c ∷ rest else []

unfoldable pub find_country_by_iso3 : Catalog → Text → Step (Option Country)
unfolding scalar_one_or_none
find_country_by_iso3 catalog iso3 =
    scalar_one_or_none (select (λ c. text_eq c.iso3 iso3) catalog.countries)

unfoldable pub find_country_by_iso2 : Catalog → Text → Step (Option Country)
unfolding scalar_one_or_none
find_country_by_iso2 catalog iso2 =
    scalar_one_or_none (select (λ c. text_eq c.iso2 iso2) catalog.countries)

-- `country.iso3 if country else None`; an empty iso code is `None` to the callers
abbrev pub iso3_of : Option Country → Option Text
iso3_of none = none
iso3_of (some c) = elim c.iso3 [ [] ↦ none | l ∷ ls ↦ some (l ∷ ls) ]

unfoldable pub probe_iso2 : Catalog → Text → Step (Option Text)
unfolding find_country_by_iso2
probe_iso2 catalog (a ∷ b ∷ s) = do
  found ← find_country_by_iso2 catalog (a ∷ b ∷ [])
  pure (iso3_of found)
probe_iso2 catalog _ = pure none

abbrev pub or_probe_iso2 : Catalog → Text → Option Country → Step (Option Text)
or_probe_iso2 catalog token none = probe_iso2 catalog token
or_probe_iso2 catalog token (some c) = pure (iso3_of (some c))

-- the letters that were matched: three are tried as ISO3 first, two as ISO2 only
unfoldable pub probe_token : Catalog → Text → Step (Option Text)
unfolding find_country_by_iso3 probe_iso2
probe_token catalog token =
    if ltb (length token) 3
    then probe_iso2 catalog token
    else do found ← find_country_by_iso3 catalog token; or_probe_iso2 catalog token found

unfoldable pub normalize_country_to_iso3 : Catalog → Text → Step (Option Text)
unfolding strip upper capitals probe_token
normalize_country_to_iso3 catalog raw = probe_token catalog (capitals 3 (upper (strip raw)))
