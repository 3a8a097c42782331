-- ===== src/Observation.antt =====
-- backend/apps/records/domain.py and backend/apps/records/source_trust.py: the evidence that a source
-- gives about a result, its keys, and how far each ingestion method is trusted.
use cubingnow.Prelude.{
  ℕ, ℤ, Bool, ◌&&◌, ◌||◌, Option, none, some, [], ◌∷◌, ◌++◌, Text, text, text_eq, upper, nonempty,
  if◌then◌else◌,
}
use cubingnow.Models.{Kind, single, average, Source, wca_live, cubingchina}
use cubingnow.ResultValues.{decimal}

pub record NormalizedResultObservation : Type 0 where
  pub source : Source
  pub ingestion_method : Text
  pub source_result_identity : Text
  pub source_competition_id : Text
  pub source_competitor_id : Text
  pub wca_competition_id : Text
  pub competition_name : Text
  pub competition_country_code : Text
  pub competition_start_date : Option ℕ
  pub competition_end_date : Option ℕ
  pub round_id : Text
  pub round_number : Option ℕ
  pub round_name : Text
  pub event_id : Text
  pub event_name : Text
  pub competitor_name : Text
  pub competitor_wca_id : Text
  pub country_code : Text
  pub kind : Kind
  pub value : ℤ
  pub source_record_tag : Text
  pub entered_at : Option ℕ
  pub observed_at : ℕ
  pub source_url : Text
  pub normalized_payload : Text
  pub competition_timezone : Text
  pub competition_local_date : Option ℕ
  pub raw_observation_id : Option ℕ

abbrev pub source_text : Source → Text
source_text wca_live = text "wca_live"
source_text cubingchina = text "cubingchina"

abbrev pub kind_text : Kind → Text
kind_text single = text "single"
kind_text average = text "average"

-- `"|".join([s, …])`, the rest already joined.
abbrev pub bar : Text → Text → Text
bar s rest = s ++ b'|' ∷ rest

unfoldable pub finalized_observation_key : Source → Text → Text → Kind → Text
finalized_observation_key source ingestion_method source_result_identity kind =
    bar (source_text source)
      (bar ingestion_method (bar source_result_identity (bar (kind_text kind) (text "final"))))

unfoldable pub observation_key : NormalizedResultObservation → Text
unfolding finalized_observation_key
observation_key data' =
    finalized_observation_key data'.source data'.ingestion_method data'.source_result_identity
      data'.kind

prefix_of_round : NormalizedResultObservation → Option ℕ → Option Text
unfolding upper decimal
prefix_of_round data' none = none
prefix_of_round data' (some number) =
    if nonempty data'.wca_competition_id && nonempty data'.competitor_wca_id
    then some (
        bar (text "wca") (
          bar (upper data'.wca_competition_id) (
            bar (upper data'.competitor_wca_id)
              (bar data'.event_id (bar (decimal number []) (kind_text data'.kind))))))
    else none

unfoldable pub natural_result_prefix : NormalizedResultObservation → Option Text
unfolding prefix_of_round
natural_result_prefix data' = prefix_of_round data' data'.round_number

unfoldable pub proposed_identity_key : NormalizedResultObservation → Text
unfolding natural_result_prefix
proposed_identity_key data' = elim (natural_result_prefix data') [
  | some prefix ↦ prefix
  | none ↦ bar (text "source") (
      bar (source_text data'.source) (
        bar data'.source_competition_id (
          bar data'.source_result_identity
            (bar data'.event_id (bar (kind_text data'.kind) (text "final"))))))
]

unfoldable pub record_claim_is_trusted : Text → Bool
unfolding text_eq
record_claim_is_trusted ingestion_method =
    text_eq ingestion_method (text "api_polling")
    || text_eq ingestion_method (text "graphql_subscription")

unfoldable pub result_evidence_is_trusted : Text → Bool
unfolding text_eq
result_evidence_is_trusted ingestion_method =
    text_eq ingestion_method (text "api_polling")
    || text_eq ingestion_method (text "graphql_subscription")

unfoldable pub result_trust_rank : Text → ℕ
unfolding text_eq
result_trust_rank ingestion_method =
    if text_eq ingestion_method (text "api_polling")
    then 100
    else if text_eq ingestion_method (text "graphql_subscription")
    then 100
    else if text_eq ingestion_method (text "cubingchina_websocket")
    then 20
    else 0
