-- ===== src/Retention/Tests.antt =====
-- Concrete frames: three of five days, of which two have expired.
use cubingnow.Prelude.{ℕ, ◌*◌, true, pos, none, some, [], ◌∷◌, text, ◌≡◌, length, arith}
use cubingnow.Models.{ResultObservation, ObservationStatus, wca_live, single}
use cubingnow.Retention.{SourceObservation, Frames, day, purge_expired_source_observations}
use cubingnow.Retention.Batches.{HasUniqueKeys, expired}
use cubingnow.Retention.Purge.{purged, purge_expired_source_observations-eq}

abbrev frame : ℕ → ℕ → SourceObservation
frame pk observed_at = record {
  pk = pk;
  source = text "wca_live";
  ingestion_method = text "api_polling";
  external_id = [];
  event_type = text "round";
  observed_at = observed_at;
  payload = text "{}";
  payload_hash = text "h";
  ingestion_run = none;
  processed_at = none;
  processing_error = [];
}

abbrev observation : ℕ → ℕ → ResultObservation
observation pk raw = record {
  pk = pk;
  observation_key = text "k";
  canonical_result = 1;
  raw_observation = some raw;
  source = wca_live;
  ingestion_method = text "api_polling";
  source_result_identity = [];
  source_competition_id = [];
  source_competitor_id = [];
  kind = single;
  value = pos 700;
  source_record_tag = [];
  source_claim_trusted = true;
  result_evidence_trusted = true;
  entered_at = none;
  first_observed_at = 1;
  last_observed_at = 1;
  status = ObservationStatus.active;
  revision = 1;
  normalized_payload = text "{}";
}

abbrev tables : Frames
tables = record {
  frames = frame 7 (2 * day) ∷ frame 3 day ∷ frame 5 (5 * day) ∷ [];
  observations = observation 1 7 ∷ observation 2 5 ∷ [];
}

three_keys : HasUniqueKeys tables.frames
three_keys =
    (((λ e. ground arith), ((λ e. ground arith), tt)), (((λ e. ground arith), tt), (tt, tt)))

purge_expired_source_observations-eq_example :
    purge_expired_source_observations (5 * day) (pos 2) (pos 1) tables
    ≡ some (length (expired (3 * day) tables.frames), purged (3 * day) tables)
purge_expired_source_observations-eq_example =
    purge_expired_source_observations-eq (5 * day) 1 (pos 1) tables three_keys
