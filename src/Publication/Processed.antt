-- ===== src/Publication/Processed.antt =====
-- backend/apps/notifications/services.py, the publication of a processed result. Validations are those
-- of the WCA records API, each with the key of its result.
use cubingnow.Prelude.{
  ℕ, Bool, true, false, ◌&&◌, ◌||◌, Option, none, some, List, [], ◌∷◌, ◌++◌, text, text_eq, eq_ℤ,
  ◌==◌, if◌then◌else◌, any, select, is_some,
}
use cubingnow.Models.{
  RecordLevel, world, continental, national, CanonicalResult, ProcessedResult, Outcome, broken,
  tied, Recognition, recognized, ValidationStatus,
}
use cubingnow.ResultValues.{decimal}
use cubingnow.RecordValidation.{level_text, Validation}
use cubingnow.Reconciliation.Rows.{find_result}
use cubingnow.Classification.Rows.{Row, level_of}
use cubingnow.Publication.{
  NotificationEvent, Board, Published, save_event, publish_record_notification,
}
use cubingnow.Publication.Payload.{Reference, Notice, notification_type_of}

abbrev pub is_verified : ValidationStatus → Bool
is_verified ValidationStatus.verified = true
is_verified ValidationStatus.pending = false
is_verified ValidationStatus.rejected = false

abbrev pub is_recognized : Recognition → Bool
is_recognized recognized = true
is_recognized Recognition.not_applicable = false
is_recognized Recognition.superseded_same_round = false
is_recognized Recognition.superseded_same_day = false

abbrev pub is_record : Outcome → Bool
is_record broken = true
is_record tied = true
is_record Outcome.none = false

abbrev pub trusted_result : ProcessedResult → Bool
trusted_result result =
    is_verified result.validation_status
    && text_eq result.validation_reason (text "trusted_source_observation")

abbrev pub validates : ProcessedResult → RecordLevel → ℕ × Validation → Bool
validates result level (owner, v) =
    (owner == result.canonical_result)
    && text_eq (level_text v.level) (level_text level)
    && eq_ℤ v.result_value result.value
    && v.matches

abbrev pub independently_verified : List (ℕ × Validation) → ProcessedResult → RecordLevel → Bool
independently_verified validations result level = any (validates result level) validations

-- The guard of `publish_processed_result_notification`.
unfoldable pub is_publishable : List (ℕ × Validation) → CanonicalResult → Row → RecordLevel → Bool
unfolding text_eq
is_publishable validations head row level =
    row.result.is_valid_result
    && (trusted_result row.result || independently_verified validations row.result level)
    && (head.revision == row.result.canonical_revision)
    && is_some (notification_type_of level)
    && is_record (level_of level row).classification_outcome
    && is_recognized (level_of level row).recognition_status

-- The proxy of a processed record level.
unfoldable pub notice_of : ProcessedResult → RecordLevel → Notice
unfolding decimal
notice_of result level = record {
  pk = none;
  canonical_key =
      text "processed:"
      ++ decimal result.canonical_result
          (text ":" ++ decimal result.canonical_revision (text ":" ++ level_text level));
  record_level = level;
  event_id = result.event_id;
  event_name = result.event_name;
  formatted_result = result.formatted_result;
  competitor_name = result.competitor_name;
  country_code = result.country_code;
  competition_country_code = result.competition_country_code;
  competition_name = result.competition_name;
  kind = result.kind;
  detected_at = result.classification_at;
  venue_country = [];
}

-- How the publication of one level ends: `(None, False)`, an exception, or an event.
pub data Attempt : Type 0 where
  skipped failed : Attempt
  published : NotificationEvent → Bool → Board → Attempt

abbrev pub linked : ProcessedResult → RecordLevel → NotificationEvent → NotificationEvent
linked result level event = record event { processed_record_level = some (result.pk, level) }

unfoldable pub link_event : ProcessedResult → RecordLevel → Published → Attempt
unfolding save_event
link_event result level none = failed
link_event result level (some (event, created, board)) =
    published (linked result level event) created
      (record board { events = save_event (linked result level event) board.events })

-- The guards, with the head of the result.
unfoldable pub publish_at_head :
    Reference
    → ℕ
    → List (ℕ × Validation)
    → Row
    → Board
    → RecordLevel
    → Option CanonicalResult
    → Attempt
unfolding is_publishable notice_of publish_record_notification link_event
publish_at_head reference now validations row board level none = failed
publish_at_head reference now validations row board level (some head) =
    if is_publishable validations head row level
    then link_event row.result level
        (publish_record_notification reference false none now (notice_of row.result level) board)
    else skipped

unfoldable pub publish_processed_result_notification :
    Reference
    → ℕ
    → List CanonicalResult
    → List (ℕ × Validation)
    → Row
    → Board
    → RecordLevel
    → Attempt
unfolding publish_at_head find_result
publish_processed_result_notification reference now heads validations row board level =
    publish_at_head reference now validations row board level
      (find_result row.result.canonical_result heads)

-- The rows that `publish_safely` reads, the widest level first.
unfoldable pub published_levels : Row → List RecordLevel
published_levels row =
    select
      (λ level.
        is_record (level_of level row).classification_outcome
        && is_recognized (level_of level row).recognition_status)
      (world ∷ continental ∷ national ∷ [])

abbrev pub after_attempt : Attempt → Board → Board → Board
after_attempt skipped board rest = rest
after_attempt failed board rest = board
after_attempt (published event created after) board rest = after

-- `publish_safely`
unfoldable pub publish_levels : (RecordLevel → Attempt) → Board → List RecordLevel → Board
publish_levels attempt board [] = board
publish_levels attempt board (level ∷ rest) =
    after_attempt (attempt level) board (publish_levels attempt board rest)

-- `publish_processed_result_after_commit`
unfoldable pub publish_processed_result_after_commit :
    Reference → ℕ → List CanonicalResult → List (ℕ × Validation) → Row → Board → Board
unfolding publish_processed_result_notification publish_levels published_levels
publish_processed_result_after_commit reference now heads validations row board =
    publish_levels (publish_processed_result_notification reference now heads validations row board)
      board (published_levels row)
