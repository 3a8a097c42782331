-- ===== src/Reconciliation/Tests.antt =====
-- Concrete runs of reconciliation.
use cubingnow.Prelude.{
  ℕ, ℤ, pos, true, Option, none, some, [], ◌∷◌, text, ◌≡◌, ◌≢◌, refl, length, ℕ_discrete, inl, ◌↔◌,
  All, Exists,
}
use cubingnow.Models.{
  ResultObservation, ValidationStatus, wca_live, single, Facts-discrete, CanonicalResult,
  CanonicalResultRevision,
}
use cubingnow.Observation.{
  NormalizedResultObservation, natural_result_prefix, result_evidence_is_trusted,
}
use cubingnow.Timeline.{least}
use cubingnow.Work.{claim_next_work}
use cubingnow.Work.Valid.{IsValid}
use cubingnow.Reconciliation.Rows.{
  Store, save_result, new_pk, newest, revisions_of, observations_of, save_observation,
}
use cubingnow.Reconciliation.Head.{
  Setting, refreshed, trusted_values, created_result, update_canonical_context,
}
use cubingnow.Reconciliation.{refresh_and_enqueue, snapshot_and_enqueue, due}
use cubingnow.Reconciliation.Observe.{observed, reconcile_result_observation}
use cubingnow.Reconciliation.Enqueue.{IsCoherent, snapshot_and_enqueue-IsCoherent, AtMostOneRow}
use cubingnow.Reconciliation.Evidence.{AsTrusted, Agree, refreshed_lem}
use cubingnow.Reconciliation.Repeat.{saved, snapshot_and_enqueue-again}
use cubingnow.Reconciliation.Runs.{Run, begin, ingest, claims, reconcile, empty, Run-IsCoherent}

abbrev setting : Setting
setting = record { countries = λ code. none; snapshot = none; date_in = λ zone moment. some 9 }

abbrev solve : ℕ → ℤ → NormalizedResultObservation
solve at value = record {
  source = wca_live;
  ingestion_method = text "api_polling";
  source_result_identity = text "r1";
  source_competition_id = text "7";
  source_competitor_id = text "3";
  wca_competition_id = text "Open2026";
  competition_name = text "Open";
  competition_country_code = text "NL";
  competition_start_date = none;
  competition_end_date = none;
  round_id = text "333-r1";
  round_number = some 1;
  round_name = text "First";
  event_id = text "333";
  event_name = text "3x3";
  competitor_name = text "A";
  competitor_wca_id = text "2020aaaa01";
  country_code = text "NL";
  kind = single;
  value = value;
  source_record_tag = [];
  entered_at = none;
  observed_at = at;
  source_url = [];
  normalized_payload = [];
  competition_timezone = text "Europe/Amsterdam";
  competition_local_date = none;
  raw_observation_id = none;
}

abbrev once : Store
once = reconcile_result_observation setting 10 (solve 5 (pos 700)) empty

abbrev twice : Store
twice = reconcile_result_observation setting 20 (solve 15 (pos 650)) once

-- The same value again makes no revision, another value makes one.
counts :
    (length once.revisions ≡ 1)
    × (length (reconcile_result_observation setting 12 (solve 11 (pos 700)) once).revisions ≡ 1)
    × (length twice.revisions ≡ 2)
    × (length twice.results ≡ 1)
unfolding reconcile_result_observation natural_result_prefix save_result created_result new_pk
    update_canonical_context refresh_and_enqueue newest revisions_of observations_of
    save_observation least Facts-discrete ℕ_discrete result_evidence_is_trusted
counts = (refl, refl, refl, refl)

named : text "w" ≢ []
named e = cc e

abbrev claimed : Store
claimed = record twice { work = (claim_next_work true (text "w") 30 300 twice.work).1 }

corrected-Run : Run empty claimed
corrected-Run =
    claims
      (ingest (ingest begin (reconcile setting 10 (solve 5 (pos 700))))
        (reconcile setting 20 (solve 15 (pos 650))))
      true (text "w") 30 300 named

Run-IsCoherent_example : IsCoherent claimed × IsValid claimed.work
Run-IsCoherent_example = Run-IsCoherent corrected-Run

abbrev head : CanonicalResult
head = record (created_result setting (solve 5 (pos 700)) none 1) { current_observation = some 1 }

abbrev latest : Option CanonicalResultRevision
latest = newest (revisions_of 1 claimed.revisions)

abbrev after : Store
after = (snapshot_and_enqueue 40 head claimed).1

abbrev second_call : Option CanonicalResultRevision × Store
second_call = snapshot_and_enqueue 50 (saved head latest (due head latest)) after

snapshot_and_enqueue-again_example :
    (second_call.0 ≡ none)
    × (second_call.1.revisions ≡ after.revisions)
    × (second_call.1.work ≡ after.work)
unfolding created_result
snapshot_and_enqueue-again_example =
    snapshot_and_enqueue-again 40 50 head claimed (Run-IsCoherent corrected-Run).0 (inl refl)

abbrev kept : ResultObservation
kept = observed (solve 5 (pos 700)) 1 1 1 5 (text "o")

abbrev other : ResultObservation
other = observed (solve 8 (pos 690)) 2 1 1 8 (text "p")

refreshed_lem_example :
    ((best : ResultObservation) × Exists (λ x. best ≡ x) (kept ∷ other ∷ [])
      × All (AsTrusted best) (kept ∷ other ∷ [])
      × ((refreshed head (kept ∷ other ∷ [])).value ≡ best.value)
      × ((refreshed head (kept ∷ other ∷ [])).current_observation ≡ some best.pk))
    × (((refreshed head (kept ∷ other ∷ [])).validation_status ≡ ValidationStatus.rejected)
        ↔ (¬ (Agree (trusted_values (kept ∷ other ∷ [])))))
refreshed_lem_example = refreshed_lem head kept (other ∷ [])

snapshot_and_enqueue-IsCoherent_example : IsCoherent after × AtMostOneRow claimed.work after.work
snapshot_and_enqueue-IsCoherent_example =
    snapshot_and_enqueue-IsCoherent 40 head claimed (Run-IsCoherent corrected-Run).0
