-- ===== src/RecordValidation/Verdict.antt =====
-- What a validation against a snapshot decides.
use cubingnow.Prelude.{
  ℤ, Bool, true, false, Option, none, some, List, [], ◌∷◌, Text, text_eq, ◌≡◌, ◌↔◌, refl, subst,
  inl, inr, ◌⊎◌, arith, Exists, Bool-cases,
}
use cubingnow.Models.{RecordLevel, Facts, CanonicalResult, ResultObservation, ValidationStatus}
use cubingnow.ResultValues.{is_complete}
use cubingnow.ResultValues.Order.{rank, ◌≼◌, comparison_key-le_iff}
use cubingnow.Scopes.{Countries}
use cubingnow.RecordValidation.{
  Snapshot, Validation, benchmark_of, record_key, validate_regions, validation_row, with_row,
  validation_regions, any_match, judged, disagreement, has_current_cubingchina_evidence,
  has_trusted_evidence, validate_result_against_snapshot,
}

-- The snapshot has a benchmark for the region, and the result is at least as good.
abbrev pub Meets : Snapshot → Facts → RecordLevel × Text → Type 0
Meets snapshot facts (level, region) =
    (b : ℤ) × (benchmark_of snapshot (record_key level facts.event_id facts.kind region) ≡ some b)
    × (rank (some facts.value) ≼ rank (some b))

module _ (snapshot : Snapshot) (facts : Facts) where
  abbrev region_key : RecordLevel × Text → Text
  region_key (level, region) = record_key level facts.event_id facts.kind region

  no_benchmark :
      (r : RecordLevel × Text)
      → benchmark_of snapshot (region_key r) ≡ none
      → ¬ (Meets snapshot facts r)
  no_benchmark r e (b, f, m) = cc (e, f)

  -- The test of a row is the order of the ranks.
  matches_iff :
      (level : RecordLevel) (region : Text) (b : ℤ)
      → benchmark_of snapshot (region_key (level, region)) ≡ some b
      → ((validation_row facts level region b).matches ≡ true)
        ↔ Meets snapshot facts (level, region)
  matches_iff level region b e =
      let (to, from) = comparison_key-le_iff facts.event_id (some facts.value) (some b) in
      (
        λ h. (b, e, to h),
        λ (b', f, m).
            let same : b' ≡ b = cc (e, f) in
            from (subst (λ (v : ℤ). rank (some facts.value) ≼ rank (some v)) same m),
      )

  first_or_later :
      (v : Validation) (rows : List Validation) (P Q : Type 0)
      → (v.matches ≡ true) ↔ P
      → (any_match rows ≡ true) ↔ Q
      → (any_match (v ∷ rows) ≡ true) ↔ (P ⊎ Q)
  first_or_later v rows P Q (to, from) (to', from') = (
    λ h. elim (Bool-cases v.matches) [
      | inl yes_here ↦ inl (to yes_here)
      | inr no_here ↦ inr (to' (ground arith))
    ],
    λ x. elim x [
      | inl m ↦ let here : v.matches ≡ true = from m in ground arith
      | inr q ↦ let later : any_match rows ≡ true = from' q in ground arith
    ],
  )

  region_iff :
      (level : RecordLevel) (region : Text) (found : Option ℤ) (rows : List Validation) (Q : Type 0)
      → benchmark_of snapshot (region_key (level, region)) ≡ found
      → (any_match rows ≡ true) ↔ Q
      → (any_match (with_row facts level region found rows) ≡ true)
        ↔ (Meets snapshot facts (level, region) ⊎ Q)
  region_iff level region none rows Q e (to, from) = (
    λ h. inr (to h),
    λ x. elim x [ inl m ↦ absurd (no_benchmark (level, region) e m) | inr later ↦ from later ],
  )
  region_iff level region (some b) rows Q e again =
      first_or_later (validation_row facts level region b) rows
        (Meets snapshot facts (level, region)) Q (matches_iff level region b e) again

  regions_iff :
      (regions : List (RecordLevel × Text))
      → (any_match (validate_regions snapshot facts regions) ≡ true)
        ↔ Exists (Meets snapshot facts) regions
  unfolding validate_regions
  regions_iff [] = (λ h. cc h, λ x. absurd x)
  regions_iff ((level, region) ∷ rest) =
      region_iff level region _ (validate_regions snapshot facts rest)
        (Exists (Meets snapshot facts) rest) refl (regions_iff rest)

-- A complete result with current CubingChina evidence, no trusted evidence for its value, and no
-- disagreement of trusted sources becomes verified exactly when it is at least as good as the
-- benchmark of the world, of its continent or of its country, where the snapshot has that benchmark.
pub validated_iff :
    (countries : Countries) (snapshot : Snapshot) (observations : List ResultObservation)
    (result : CanonicalResult)
    → has_current_cubingchina_evidence observations result.value ≡ true
    → is_complete (some result.value) ≡ true
    → has_trusted_evidence observations result.value ≡ false
    → text_eq result.validation_reason disagreement ≡ false
    → ((validate_result_against_snapshot countries snapshot observations result).1.validation_status
        ≡ ValidationStatus.verified)
      ↔ Exists (Meets snapshot result.facts) (validation_regions countries result.country_code)
unfolding validate_result_against_snapshot judged
validated_iff countries snapshot observations result seen complete untrusted agreed =
    let regions = validation_regions countries result.country_code in
    let (to, from) = regions_iff snapshot result.facts regions in
    rw (seen, complete, untrusted, agreed)
      (
        λ h. elim (Bool-cases (any_match (validate_regions snapshot result.facts regions))) [
          | inl m ↦ to m
          | inr n ↦ absurd (
              let h' : ValidationStatus.pending ≡ ValidationStatus.verified =
                subst
                  (λ (b : Bool). (judged b result).validation_status ≡ ValidationStatus.verified) n
                  h in
              cc h')
        ],
        λ x. rw (from x) refl,
      )
