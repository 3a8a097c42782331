-- ===== src/RecordValidation/Batch.antt =====
-- `_validate_scope_batch` of backend/integrations/wca/record_validation.py: a turn of its loop, which
-- wants rows for one result and may change the result.
pub mod Single
use cubingnow.Prelude.{
  ℕ, ℤ, Bool, true, false, not, ◌&&◌, ◌||◌, Option, none, some, List, [], ◌∷◌, ◌++◌, map, Text,
  text_eq, eq_ℤ, ◌==◌, if◌then◌else◌, any, select, length,
}
use cubingnow.Models.{
  RecordLevel, CanonicalResult, ValidationStatus, pending, verified, rejected, ResultObservation,
}
use cubingnow.ResultValues.{is_complete}
use cubingnow.Scopes.{Countries}
use cubingnow.RecordValidation.{
  level_text, Snapshot, Validation, validation_regions, is_active, is_cubingchina,
  has_current_cubingchina_evidence, has_trusted_evidence, validate_regions, any_match, disagreement,
  judged,
}

-- `relevant_observations`, which are fetched.
abbrev pub is_relevant : ResultObservation → Bool
is_relevant o = is_active o && (is_cubingchina o.source || o.result_evidence_trusted)

abbrev pub same_status : ValidationStatus → ValidationStatus → Bool
same_status pending pending = true
same_status verified verified = true
same_status rejected rejected = true
same_status _ _ = false

abbrev pub is_passed : List ResultObservation → CanonicalResult → Bool
is_passed fetched result =
    not (has_current_cubingchina_evidence fetched result.value)
    || not (is_complete (some result.value))

module _ (countries : Countries) (snapshot : Snapshot) where
  -- The rows that a turn of the loop wants for a result.
  unfoldable pub desired_rows : List ResultObservation → CanonicalResult → List Validation
  unfolding validate_regions validation_regions has_current_cubingchina_evidence
  desired_rows observations result =
      if is_passed (select is_relevant observations) result
      then []
      else validate_regions snapshot result.facts (validation_regions countries result.country_code)

  -- The update of the result in that turn, if it changes.
  unfoldable pub changed_result : CanonicalResult → CanonicalResult → Option CanonicalResult
  unfolding text_eq
  changed_result result after =
      if not (same_status result.validation_status after.validation_status)
        || not (text_eq result.validation_reason after.validation_reason)
      then some after
      else none

  unfoldable pub result_update : List ResultObservation → CanonicalResult → Option CanonicalResult
  unfolding desired_rows changed_result judged has_trusted_evidence
  result_update observations result =
      let fetched = select is_relevant observations in
      if is_passed fetched result
      then none
      else if not (has_trusted_evidence fetched result.value)
          && not (text_eq result.validation_reason disagreement)
      then changed_result result (judged (any_match (desired_rows observations result)) result)
      else none
