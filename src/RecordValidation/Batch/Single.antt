-- ===== src/RecordValidation/Batch/Single.antt =====
-- A turn of the batch does to its result what the validation of one result does.
use cubingnow.Prelude.{
  ℤ, Bool, true, false, not, ◌&&◌, ◌||◌, Option, none, some, List, [], ◌∷◌, Text, text_eq,
  text_eq_iff, eq_ℤ, ◌≡◌, refl, ap, ◌∙◌, inl, inr, arith, Bool-cases, if◌then◌else◌, any, select,
}
use cubingnow.Models.{
  CanonicalResult, ValidationStatus, pending, verified, rejected, ResultObservation,
}
use cubingnow.ResultValues.{is_complete}
use cubingnow.Scopes.{Countries}
use cubingnow.RecordValidation.{
  Snapshot, Validation, validation_regions, is_active, is_cubingchina,
  has_current_cubingchina_evidence, has_trusted_evidence, validate_regions, any_match, disagreement,
  judged, validate_result_against_snapshot,
}
use cubingnow.RecordValidation.Batch.{
  is_relevant, same_status, is_passed, desired_rows, changed_result, result_update,
}

-- The fetched observations are enough for both tests.
any-relevant :
    (p : ResultObservation → Bool) (os : List ResultObservation)
    → ((o : ResultObservation) → p o ≡ true → is_relevant o ≡ true)
    → any p (select is_relevant os) ≡ any p os
any-relevant p [] h = refl
any-relevant p (o ∷ os) h =
    let later = any-relevant p os h in
    elim (Bool-cases (is_relevant o)) [
      | inl e ↦ rw e (ap (λ b. p o || b) later)
      | inr e ↦ elim (Bool-cases (p o)) [ inl q ↦ absurd (cc (e, h o q)) | inr n ↦ rw (e, n) later ]
    ]

evidence-relevant :
    (os : List ResultObservation) (value : ℤ)
    → has_current_cubingchina_evidence (select is_relevant os) value
      ≡ has_current_cubingchina_evidence os value
unfolding has_current_cubingchina_evidence
evidence-relevant os value =
    any-relevant (λ o. is_cubingchina o.source && is_active o && eq_ℤ o.value value) os
      (λ o h. ground arith)

trusted-relevant :
    (os : List ResultObservation) (value : ℤ)
    → has_trusted_evidence (select is_relevant os) value ≡ has_trusted_evidence os value
unfolding has_trusted_evidence
trusted-relevant os value =
    any-relevant (λ o. is_active o && o.result_evidence_trusted && eq_ℤ o.value value) os
      (λ o h. ground arith)

same_status-eq : (a b : ValidationStatus) → same_status a b ≡ true → a ≡ b
same_status-eq pending pending h = refl
same_status-eq verified verified h = refl
same_status-eq rejected rejected h = refl
same_status-eq pending verified h = absurd (cc h)
same_status-eq pending rejected h = absurd (cc h)
same_status-eq verified pending h = absurd (cc h)
same_status-eq verified rejected h = absurd (cc h)
same_status-eq rejected pending h = absurd (cc h)
same_status-eq rejected verified h = absurd (cc h)

abbrev pub updated : Option CanonicalResult → CanonicalResult → CanonicalResult
updated none result = result
updated (some after) result = after

abbrev with_verdict : CanonicalResult → ValidationStatus → Text → CanonicalResult
with_verdict result status reason = record result {
  facts = record result.facts { validation_status = status; validation_reason = reason };
}

module _ (countries : Countries) (snapshot : Snapshot) where
  -- An update that is left out changes nothing.
  changed_lem :
      (result : CanonicalResult) (status : ValidationStatus) (reason : Text)
      → updated
          (changed_result countries snapshot result (with_verdict result status reason))
          result
        ≡ with_verdict result status reason
  unfolding changed_result
  changed_lem result status reason =
      elim (Bool-cases (same_status result.validation_status status)) [
        | inr e ↦ rw e refl
        | inl e ↦ elim (Bool-cases (text_eq result.validation_reason reason)) [
          | inr n ↦ rw (e, n) refl
          | inl t ↦
              rw (e, t)
                (ap (λ s. with_verdict result s result.validation_reason)
                    (same_status-eq result.validation_status status e)
                  ∙ ap (λ r. with_verdict result status r)
                      ((text_eq_iff result.validation_reason reason).0 t))
        ]
      ]

  module _ (observations : List ResultObservation) (result : CanonicalResult) where
    abbrev wanted : List Validation
    wanted =
        validate_regions snapshot result.facts (validation_regions countries result.country_code)

    -- What the validation of one result gives, by its two tests.
    abbrev single : Bool → Bool → List Validation × CanonicalResult
    single evidence trusted =
        if not evidence || not (is_complete (some result.value))
        then ([], result)
        else if not trusted && not (text_eq result.validation_reason disagreement)
        then (wanted, judged (any_match wanted) result)
        else (wanted, result)

    either :
        (passed unsure : Bool)
        → let turn : List Validation × CanonicalResult = (
          if passed then [] else wanted,
          updated
              (if passed
                then none
                else if unsure
                then changed_result countries snapshot result
                    (judged (any_match (if passed then [] else wanted)) result)
                else none)
              result,
        ) in
          turn ≡ (
            if passed
            then ([], result)
            else if unsure
            then (wanted, judged (any_match wanted) result)
            else (wanted, result))
    unfolding judged
    either true unsure = refl
    either false false = refl
    either false true = ap (λ (r : CanonicalResult). (wanted, r)) (changed_lem result _ _)

    -- For any result and its observations, the rows that a turn of the batch wants and the result with
    -- the update of that turn are what the validation of the one result gives, though the batch fetches
    -- only some of the observations and updates only what changes.
    pub result_update-eq-validate :
        let turn : List Validation × CanonicalResult = (
          desired_rows countries snapshot observations result,
          updated (result_update countries snapshot observations result) result,
        ) in
        turn ≡ validate_result_against_snapshot countries snapshot observations result
    unfolding desired_rows result_update validate_result_against_snapshot
    result_update-eq-validate =
        let fetched = select is_relevant observations in
        either (is_passed fetched result) (
          not (has_trusted_evidence fetched result.value)
          && not (text_eq result.validation_reason disagreement))
        ∙ (ap (λ e. single e (has_trusted_evidence fetched result.value))
              (evidence-relevant observations result.value)
            ∙ ap (λ t. single (has_current_cubingchina_evidence observations result.value) t)
                (trusted-relevant observations result.value))
