-- ===== src/Plans/Terms.antt =====
-- The terms of a version in plan_versions_controller.py.
use yastubo_python.Prelude.{ℕ, Option, none, some, Text}
use yastubo_python.Prelude.Action.{◌>>=◌, ◌>>◌, pure}
use yastubo_python.Plans.{TermsHtml, no_terms, plain, document, Handler, get_version, set_version}

-- `{"es": …, "en": …}`
pub record Terms : Type 0 where
  pub es : Option Text
  pub en : Option Text

-- `_parse_terms_html`
unfoldable pub parse_terms_html : TermsHtml → Terms
parse_terms_html no_terms = record { es = none; en = none }
parse_terms_html (plain t) = record { es = some t; en = none }
parse_terms_html (document es en) = record { es = es; en = en }

-- `UpdateTermsHtmlRequest.locale`
pub data Locale : Type 0 where
  spanish english : Locale

-- `current[locale] = html`
abbrev pub set_terms : Locale → Option Text → Terms → Terms
set_terms spanish html t = record t { es = html }
set_terms english html t = record t { en = html }

-- `json.dumps` of the two texts
abbrev pub dump : Terms → TermsHtml
dump t = document t.es t.en

unfoldable pub show_terms_html : ℕ → ℕ → Handler Terms
show_terms_html product_id version_id = do
  version ← get_version product_id version_id
  pure (parse_terms_html version.terms_html)

unfoldable pub update_terms_html : ℕ → ℕ → Locale → Option Text → Handler Terms
update_terms_html product_id version_id locale html = do
  version ← get_version product_id version_id
  set_version version_id (λ v. record v {
    terms_html = dump (set_terms locale html (parse_terms_html version.terms_html));
  })
  pure (parse_terms_html (dump (set_terms locale html (parse_terms_html version.terms_html))))
