-- ===== src/RecordValidation/Tests.antt =====
-- A concrete validation: a national record of one country, with the world's and the country's
-- benchmark in the snapshot.
use cubingnow.Prelude.{
  pos, true, false, none, some, [], ◌∷◌, text, text_eq, ◌≡◌, ◌↔◌, refl, Exists, List,
}
use cubingnow.Models.{
  single, Facts, CanonicalResult, ResultObservation, ObservationStatus, Status, ValidationStatus,
  cubingchina,
}
use cubingnow.ResultValues.{is_complete}
use cubingnow.Scopes.{Countries}
use cubingnow.RecordValidation.{
  Snapshot, validation_regions, validate_result_against_snapshot, disagreement,
  has_current_cubingchina_evidence, has_trusted_evidence,
}
use cubingnow.RecordValidation.{Validation}
use cubingnow.RecordValidation.Batch.{desired_rows, result_update}
use cubingnow.RecordValidation.Batch.Single.{updated, result_update-eq-validate}
use cubingnow.RecordValidation.Verdict.{Meets, validated_iff}

abbrev countries : Countries
countries code = some (record {
  display_name = text "China";
  wca_name = text "China";
  wca_records_name = [];
  continent = text "Asia";
})

abbrev snapshot : Snapshot
snapshot = (text "WR|333|single|", pos 305) ∷ (text "NR|333|single|China", pos 350) ∷ []

abbrev facts : Facts
facts = record {
  identity_key = text "k";
  wca_competition_id = [];
  competition_name = text "Open";
  competition_country_code = text "CN";
  competition_start_date = none;
  competition_end_date = none;
  competition_timezone = [];
  competition_local_date = none;
  timezone_resolution_status = text "unresolved";
  timezone_resolution_reason = [];
  round_id = [];
  round_number = none;
  round_name = [];
  event_id = text "333";
  event_name = [];
  competitor_name = [];
  competitor_wca_id = [];
  country_code = text "CN";
  kind = single;
  value = pos 340;
  formatted_result = [];
  entered_at = none;
  first_observed_at = 4;
  source_url = [];
  validation_status = ValidationStatus.pending;
  validation_reason = text "untrusted_source_only";
}

abbrev head : CanonicalResult
head = record {
  pk = 1;
  facts = facts;
  identity_scope = none;
  last_observed_at = 4;
  status = Status.active;
  revision = 1;
  current_observation = some 1;
}

abbrev seen : ResultObservation
seen = record {
  pk = 1;
  observation_key = text "o";
  canonical_result = 1;
  raw_observation = none;
  source = cubingchina;
  ingestion_method = text "cubingchina_websocket";
  source_result_identity = text "r";
  source_competition_id = [];
  source_competitor_id = [];
  kind = single;
  value = pos 340;
  source_record_tag = [];
  source_claim_trusted = false;
  result_evidence_trusted = false;
  entered_at = none;
  first_observed_at = 4;
  last_observed_at = 4;
  status = ObservationStatus.active;
  revision = 1;
  normalized_payload = [];
}

has_evidence : has_current_cubingchina_evidence (seen ∷ []) (pos 340) ≡ true
unfolding has_current_cubingchina_evidence
has_evidence = refl

success : is_complete (some (pos 340)) ≡ true
unfolding is_complete
success = refl

no_trust : has_trusted_evidence (seen ∷ []) (pos 340) ≡ false
unfolding has_trusted_evidence
no_trust = refl

no_conflict : text_eq head.validation_reason disagreement ≡ false
unfolding text_eq
no_conflict = refl

validated_iff_example :
    ((validate_result_against_snapshot countries snapshot (seen ∷ []) head).1.validation_status
      ≡ ValidationStatus.verified)
    ↔ Exists (Meets snapshot facts) (validation_regions countries (text "CN"))
validated_iff_example =
    validated_iff countries snapshot (seen ∷ []) head has_evidence success no_trust no_conflict

result_update-eq-validate_example :
    let turn : List Validation × CanonicalResult = (
      desired_rows countries snapshot (seen ∷ []) head,
      updated (result_update countries snapshot (seen ∷ []) head) head,
    ) in
    turn ≡ validate_result_against_snapshot countries snapshot (seen ∷ []) head
result_update-eq-validate_example = result_update-eq-validate countries snapshot (seen ∷ []) head
