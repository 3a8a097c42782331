-- ===== src/Scopes.antt =====
-- backend/apps/records/classification.py, `record_scope` and what it reads: whose record a result can
-- be at each level. The countries of reference_data/countries.json, by upper-case code, are a
-- parameter.
use cubingnow.Prelude.{Option, none, some, [], Text, text, upper, or_text}
use cubingnow.Models.{RecordLevel, world, continental, national, personal, Facts}

-- One country of the file; a missing entry is the empty text.
pub record Country : Type 0 where
  pub display_name : Text
  pub wca_name : Text
  pub wca_records_name : Text
  pub continent : Text

abbrev pub Countries : Type 0
Countries = Text → Option Country

module _ (countries : Countries) where
  unfoldable pub country_name : Text → Text
  unfolding upper
  country_name country_code = elim (countries (upper country_code)) [
    | none ↦ []
    | some country ↦ or_text country.wca_name (or_text country.display_name [])
  ]

  unfoldable pub continent_name : Text → Text
  unfolding upper
  continent_name country_code = elim (countries (upper country_code)) [
    | none ↦ []
    | some country ↦ country.continent
  ]

  unfoldable pub record_scope : Facts → RecordLevel → Text
  unfolding country_name continent_name upper
  record_scope result world = text "World"
  record_scope result continental = continent_name result.country_code
  record_scope result national = country_name result.country_code
  record_scope result personal = upper result.competitor_wca_id
