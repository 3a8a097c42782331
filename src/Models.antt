-- ===== src/Models.antt =====
-- backend/apps/records/models.py: the rows that reconciliation and classification share. A moment is
-- a number of microseconds, a date an ordinal, a primary key a number, a missing value `none`.
-- Columns that only record bookkeeping times (`created_at`, `updated_at`, `classified_at`) and the
-- always-null `attempt_number` have no field here.
use cubingnow.Prelude.{ℕ, ℤ, Option, Bool, Text, ℕ_discrete}

pub data Kind : Type 0 where
  single average : Kind

pub data RecordLevel : Type 0 where
  world continental national personal : RecordLevel

-- `CanonicalResult.Status`
pub data Status : Type 0 where
  active corrected retracted : Status

-- `CanonicalResult.ValidationStatus`
pub data ValidationStatus : Type 0 where
  pending verified rejected : ValidationStatus

-- `CanonicalResultRevision.Action`
pub data Action : Type 0 where
  active corrected retracted : Action

-- The columns of `REVISION_FIELDS`, which heads, revisions and processed results all carry.
pub record Facts : Type 0 where
  pub identity_key : Text
  pub wca_competition_id : Text
  pub competition_name : Text
  pub competition_country_code : Text
  pub competition_start_date : Option ℕ
  pub competition_end_date : Option ℕ
  pub competition_timezone : Text
  pub competition_local_date : Option ℕ
  pub timezone_resolution_status : Text
  pub timezone_resolution_reason : Text
  pub round_id : Text
  pub round_number : Option ℕ
  pub round_name : Text
  pub event_id : Text
  pub event_name : Text
  pub competitor_name : Text
  pub competitor_wca_id : Text
  pub country_code : Text
  pub kind : Kind
  pub value : ℤ
  pub formatted_result : Text
  pub entered_at : Option ℕ
  pub first_observed_at : ℕ
  pub source_url : Text
  pub validation_status : ValidationStatus
  pub validation_reason : Text

unfoldable pub ℤ-discrete : Discrete ℤ
ℤ-discrete = hlevel ℕ_discrete

unfoldable pub Text-discrete : Discrete Text
Text-discrete = hlevel ℕ_discrete

unfoldable pub Kind-discrete : Discrete Kind
Kind-discrete = hlevel

unfoldable pub RecordLevel-discrete : Discrete RecordLevel
RecordLevel-discrete = hlevel

unfoldable pub Facts-discrete : Discrete Facts
Facts-discrete = hlevel ℕ_discrete

pub record CanonicalResult : Type 0 where
  pub pk : ℕ
  pub facts : Facts
  pub open facts use *
  pub identity_scope : Option Text
  pub last_observed_at : ℕ
  pub status : Status
  pub revision : ℕ
  pub current_observation : Option ℕ

pub record CanonicalResultRevision : Type 0 where
  pub pk : ℕ
  pub canonical_result : ℕ
  pub revision : ℕ
  pub action : Action
  pub facts : Facts
  pub open facts use *
  pub canonical_status : Status
  pub last_observed_at : ℕ

-- `ResultObservation.Source`
pub data Source : Type 0 where
  wca_live cubingchina : Source

-- `ResultObservation.Status`
pub data ObservationStatus : Type 0 where
  active retracted : ObservationStatus

-- `ResultObservation`; the payload is its JSON text.
pub record ResultObservation : Type 0 where
  pub pk : ℕ
  pub observation_key : Text
  pub canonical_result : ℕ
  pub raw_observation : Option ℕ
  pub source : Source
  pub ingestion_method : Text
  pub source_result_identity : Text
  pub source_competition_id : Text
  pub source_competitor_id : Text
  pub kind : Kind
  pub value : ℤ
  pub source_record_tag : Text
  pub source_claim_trusted : Bool
  pub result_evidence_trusted : Bool
  pub entered_at : Option ℕ
  pub first_observed_at : ℕ
  pub last_observed_at : ℕ
  pub status : ObservationStatus
  pub revision : ℕ
  pub normalized_payload : Text

pub record ProcessedResult : Type 0 where
  pub pk : ℕ
  pub canonical_result : ℕ
  pub canonical_revision : ℕ
  pub facts : Facts
  pub open facts use *
  pub last_observed_at : ℕ
  pub canonical_status : Status
  pub classification_at : ℕ
  pub is_valid_result : Bool
  pub invalidity_reason : Text
  pub replacement : Option ℕ

-- `ProcessedResultRecordLevel.ClassificationOutcome`
pub data Outcome : Type 0 where
  none broken tied : Outcome

-- `ProcessedResultRecordLevel.RecognitionStatus`
pub data Recognition : Type 0 where
  not_applicable recognized superseded_same_round superseded_same_day : Recognition

-- `ProcessedResultRecordLevel.CeasedHoldingReason`, with `blank` for the empty text.
pub data CeasedHoldingReason : Type 0 where
  blank self_later_round other_later_round self_other_competition other_other_competition :
      CeasedHoldingReason

-- `ProcessedResultRecordLevel`; its row is keyed by the processed result and the level.
pub record Level : Type 0 where
  pub record_level : RecordLevel
  pub record_scope : Text
  pub incumbent_value : Option ℤ
  pub classification_outcome : Outcome
  pub recognition_status : Recognition
  pub is_shared_tie : Bool
  pub currently_holds : Bool
  pub ceased_holding_reason : CeasedHoldingReason
  pub ceased_holding_by : Option ℕ
  pub superseded_by : Option ℕ
