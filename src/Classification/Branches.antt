-- ===== src/Classification/Branches.antt =====
-- The ways in which `classify_current` can end.
use cubingnow.Prelude.{
  ℕ, Bool, true, false, not, ◌||◌, ◌≡◌, refl, ◌⊎◌, inl, inr, if◌then◌else◌, ltb, ◌==◌,
}
use cubingnow.Models.{CanonicalResultRevision, ProcessedResult}
use cubingnow.Scopes.{Countries}
use cubingnow.Work.{Classified, current, superseded, raised}
use cubingnow.Classification.{
  classify_incremental, historical, supported, unsupported, repair_all, classify_current,
  is_out_of_order,
}
use cubingnow.Classification.Rows.{World}
use cubingnow.Classification.Revisions.{affected_scopes}
use cubingnow.Classification.Verdict.{results, results-repair_all, results-classify_incremental}

module _ (countries : Countries) (late : ℕ) (revision : CanonicalResultRevision)
    (processed : ProcessedResult) (w : World) where
  abbrev is_last : Bool
  is_last = late == revision.revision

  -- How `classify_current` can end.
  abbrev pub Branch : Classified × World → Type 0
  Branch out =
      ((out ≡ historical countries processed superseded w) × (is_last ≡ false))
      ⊎ (((out ≡ (raised (unsupported processed), w)) × (supported processed ≡ false))
          ⊎ ((out.0 ≡ current) × (results out.1 ≡ results w) × (is_last ≡ true)))

  repairs-Branch :
      (column same : Bool)
      → supported processed ≡ column
      → is_last ≡ same
      → Branch (
          if not column
          then (raised (unsupported processed), w)
          else if not same
          then historical countries processed superseded w
          else (current, repair_all processed (affected_scopes countries revision processed w) w))
  repairs-Branch false same c l = inr (inl (refl, c))
  repairs-Branch true false c l = inl (refl, l)
  repairs-Branch true true c l = inr (inr (refl, results-repair_all processed _ w, l))

  incremental-Branch :
      (same valid column : Bool)
      → supported processed ≡ column
      → is_last ≡ same
      → Branch (
          if not same
          then historical countries processed superseded w
          else if not valid
          then (current, w)
          else if not column
          then (raised (unsupported processed), w)
          else (current, classify_incremental countries processed w))
  incremental-Branch false valid column c l = inl (refl, l)
  incremental-Branch true false column c l = inr (inr (refl, refl, l))
  incremental-Branch true true false c l = inr (inl (refl, c))
  incremental-Branch true true true c l =
      inr (inr (refl, results-classify_incremental countries processed w, l))

  behind-Branch :
      (late_turn : Bool)
      → Branch (
          if late_turn
          then (if not (supported processed)
              then (raised (unsupported processed), w)
              else if not is_last
              then historical countries processed superseded w
              else (
                current,
                repair_all processed (affected_scopes countries revision processed w) w,
              ))
          else if not is_last
          then historical countries processed superseded w
          else if not processed.is_valid_result
          then (current, w)
          else if not (supported processed)
          then (raised (unsupported processed), w)
          else (current, classify_incremental countries processed w))
  behind-Branch true = repairs-Branch (supported processed) is_last refl refl
  behind-Branch false =
      incremental-Branch is_last processed.is_valid_result (supported processed) refl refl

  pub classify_current-Branch : Branch (classify_current countries late revision processed w)
  unfolding classify_current
  classify_current-Branch =
      behind-Branch (ltb 1 revision.revision || is_out_of_order countries processed w)
