-- ===== src/RecordValidation.antt =====
-- backend/integrations/wca/record_validation.py: results against the official record benchmarks of a
-- stored snapshot. `validate_result_against_snapshot` returns the validation rows that the result is
-- left with, and the result. A snapshot is the list of its keys and values.
pub mod Verdict
pub mod Batch
mod Tests
use cubingnow.Prelude.{
  ℕ, ℤ, Bool, true, false, not, ◌&&◌, ◌||◌, Option, none, some, List, [], ◌∷◌, ◌++◌, map, Text,
  text, text_eq, eq_ℤ, upper, nonempty, or_text, if◌then◌else◌, any, is_some, length, ltb,
}
use cubingnow.Models.{
  Kind, RecordLevel, world, continental, national, personal, CanonicalResult, ValidationStatus,
  ResultObservation, ObservationStatus, Source, wca_live, cubingchina, Facts,
}
use cubingnow.ResultValues.{comparison_key, key_le, is_complete}
use cubingnow.Observation.{kind_text, bar}
use cubingnow.Scopes.{Country, Countries, continent_name}

abbrev pub level_text : RecordLevel → Text
level_text world = text "WR"
level_text continental = text "CR"
level_text national = text "NR"
level_text personal = text "PR"

-- `_key`
unfoldable pub record_key : RecordLevel → Text → Kind → Text → Text
record_key level event_id kind region =
    bar (level_text level) (bar event_id (bar (kind_text kind) region))

-- `WCARecordSnapshot.records`, and its `get`.
abbrev pub Snapshot : Type 0
Snapshot = List (Text × ℤ)

unfoldable pub benchmark_of : Snapshot → Text → Option ℤ
unfolding text_eq
benchmark_of [] key = none
benchmark_of ((k, value) ∷ rest) key =
    let later = benchmark_of rest key in if text_eq k key then some value else later

-- `RecordValidation` of one result; `matches` stands for its status and reason.
pub record Validation : Type 0 where
  pub level : RecordLevel
  pub region_code : Text
  pub result_value : ℤ
  pub benchmark_value : ℤ
  pub matches : Bool

-- `_country_name`
records_country_name : Countries → Text → Text
unfolding upper
records_country_name countries country_code = elim (countries (upper country_code)) [
  | none ↦ []
  | some country ↦ or_text country.wca_records_name (or_text country.display_name country.wca_name)
]

abbrev region_when : RecordLevel → Text → Text → List (RecordLevel × Text)
region_when level [] region = []
region_when level (c ∷ name) region = (level, region) ∷ []

unfoldable pub validation_regions : Countries → Text → List (RecordLevel × Text)
unfolding continent_name records_country_name
validation_regions countries country_code =
    let continent = continent_name countries country_code in
    let country = records_country_name countries country_code in
    (world, [])
    ∷ (region_when continental continent (b'_' ∷ continent) ++ region_when national country country)

abbrev pub is_active : ResultObservation → Bool
is_active o = elim o.status [
  | ObservationStatus.active ↦ true
  | ObservationStatus.retracted ↦ false
]

abbrev is_cubingchina : Source → Bool
is_cubingchina cubingchina = true
is_cubingchina wca_live = false

-- The observations are those of the result.
unfoldable pub has_current_cubingchina_evidence : List ResultObservation → ℤ → Bool
has_current_cubingchina_evidence observations value =
    any (λ o. is_cubingchina o.source && is_active o && eq_ℤ o.value value) observations

unfoldable pub has_trusted_evidence : List ResultObservation → ℤ → Bool
has_trusted_evidence observations value =
    any (λ o. is_active o && o.result_evidence_trusted && eq_ℤ o.value value) observations

abbrev pub validation_row : Facts → RecordLevel → Text → ℤ → Validation
validation_row facts level region benchmark = record {
  level = level;
  region_code = region;
  result_value = facts.value;
  benchmark_value = benchmark;
  matches =
      key_le (comparison_key facts.event_id (some facts.value))
        (comparison_key facts.event_id (some benchmark));
}

abbrev pub with_row : Facts → RecordLevel → Text → Option ℤ → List Validation → List Validation
with_row facts level region none rows = rows
with_row facts level region (some benchmark) rows =
    validation_row facts level region benchmark ∷ rows

-- The loop over the regions: a row for each that has a benchmark.
unfoldable pub validate_regions : Snapshot → Facts → List (RecordLevel × Text) → List Validation
validate_regions snapshot facts [] = []
validate_regions snapshot facts ((level, region) ∷ rest) =
    with_row facts level region
      (benchmark_of snapshot (record_key level facts.event_id facts.kind region))
      (validate_regions snapshot facts rest)

abbrev pub any_match : List Validation → Bool
any_match rows = any (λ v. v.matches) rows

abbrev pub disagreement : Text
disagreement = text "trusted_source_disagreement"

unfoldable pub judged : Bool → CanonicalResult → CanonicalResult
judged verified result = record result {
  facts = record result.facts {
    validation_status = if verified then ValidationStatus.verified else ValidationStatus.pending;
    validation_reason =
        if verified
        then text "wca_records_api_record_match"
        else text "wca_records_api_no_record_match";
  };
}

unfoldable pub validate_result_against_snapshot :
    Countries
    → Snapshot
    → List ResultObservation
    → CanonicalResult
    → List Validation × CanonicalResult
unfolding validate_regions judged
validate_result_against_snapshot countries snapshot observations result =
    let rows =
      validate_regions snapshot result.facts (validation_regions countries result.country_code) in
    if not (has_current_cubingchina_evidence observations result.value)
      || not (is_complete (some result.value))
    then ([], result)
    else if not (has_trusted_evidence observations result.value)
        && not (text_eq result.validation_reason disagreement)
    then (rows, judged (any_match rows) result)
    else (rows, result)

-- Without a stored snapshot nothing changes.
unfoldable pub validate_result_against_latest_snapshot :
    Countries → Option Snapshot → List ResultObservation → CanonicalResult → CanonicalResult
unfolding validate_result_against_snapshot
validate_result_against_latest_snapshot countries none observations result = result
validate_result_against_latest_snapshot countries (some snapshot) observations result =
    (validate_result_against_snapshot countries snapshot observations result).1
