-- ===== src/Reconciliation/Head.antt =====
-- The head of a canonical result: how it is created, what evidence does to its context and its
-- values, and when a revision is due.
use cubingnow.Prelude.{
  ℕ, ℤ, min, max, Bool, false, not, ◌&&◌, ◌||◌, Option, none, some, List, [], ◌∷◌, map, Text, text,
  text_eq, eq_ℤ, nonempty, or_text, ltb, ◌==◌, if◌then◌else◌, select, any, is_some,
}
use cubingnow.Models.{Facts, CanonicalResult, ResultObservation, Status, ValidationStatus}
use cubingnow.ResultValues.{format_result}
use cubingnow.Observation.{
  NormalizedResultObservation, proposed_identity_key, result_trust_rank, kind_text,
}
use cubingnow.Scopes.{Countries}
use cubingnow.RecordValidation.{Snapshot, is_active, validate_result_against_latest_snapshot}
use cubingnow.Timeline.{least}

-- What the transactions read beside their tables: the countries, the stored record snapshot, and
-- `zoneinfo`, the date of a moment in a time zone, `none` for `ZoneInfoNotFoundError`.
pub record Setting : Type 0 where
  pub countries : Countries
  pub snapshot : Option Snapshot
  pub date_in : Text → ℕ → Option ℕ

-- `a or b` of optional values.
abbrev pub or_option {ℓ} : {A : Type ℓ} → Option A → Option A → Option A
or_option (some a) b = some a
or_option none b = b

instant_of : NormalizedResultObservation → ℕ
instant_of data' = elim data'.entered_at [ none ↦ data'.observed_at | some t ↦ t ]

-- `_local_date`
unfoldable pub local_date : Setting → NormalizedResultObservation → Option ℕ
unfolding instant_of
local_date setting data' = elim data'.competition_local_date [
  | some date ↦ some date
  | none ↦
      if nonempty data'.competition_timezone
      then setting.date_in data'.competition_timezone (instant_of data')
      else none
]

-- `_timezone_resolution`
unfoldable pub timezone_resolution : Setting → NormalizedResultObservation → Text × Text
unfolding local_date
timezone_resolution setting data' =
    if not (nonempty data'.competition_timezone)
    then (text "unresolved", text "missing_or_ambiguous_source_timezone")
    else if not (is_some (local_date setting data'))
    then (text "unresolved", text "invalid_source_timezone")
    else (text "resolved", text "provider_supplied_iana_timezone")

-- The row that `_create_canonical` inserts; a new head has revision 1, the column's default.
unfoldable pub created_result :
    Setting → NormalizedResultObservation → Option Text → ℕ → CanonicalResult
unfolding timezone_resolution local_date format_result proposed_identity_key
created_result setting data' scope pk = record {
  pk = pk;
  facts = record {
    identity_key = proposed_identity_key data';
    wca_competition_id = data'.wca_competition_id;
    competition_name = data'.competition_name;
    competition_country_code = data'.competition_country_code;
    competition_start_date = data'.competition_start_date;
    competition_end_date = data'.competition_end_date;
    competition_timezone = data'.competition_timezone;
    competition_local_date = local_date setting data';
    timezone_resolution_status = (timezone_resolution setting data').0;
    timezone_resolution_reason = (timezone_resolution setting data').1;
    round_id = data'.round_id;
    round_number = data'.round_number;
    round_name = data'.round_name;
    event_id = data'.event_id;
    event_name = data'.event_name;
    competitor_name = data'.competitor_name;
    competitor_wca_id = data'.competitor_wca_id;
    country_code = data'.country_code;
    kind = data'.kind;
    value = data'.value;
    formatted_result = format_result data'.event_id (kind_text data'.kind) (some data'.value);
    entered_at = data'.entered_at;
    first_observed_at = data'.observed_at;
    source_url = data'.source_url;
    validation_status = ValidationStatus.pending;
    validation_reason = [];
  };
  identity_scope = scope;
  last_observed_at = data'.observed_at;
  status = Status.active;
  revision = 1;
  current_observation = none;
}

-- `_update_canonical_context`
unfoldable pub updated_context : Setting → NormalizedResultObservation → Facts → Facts
unfolding local_date timezone_resolution text_eq
updated_context setting data' facts =
    let known = nonempty data'.competition_timezone in
    let zone = if known then data'.competition_timezone else facts.competition_timezone in
    let (status, reason) = timezone_resolution setting data' in
    let settled = text_eq status (text "resolved") || not (nonempty zone) in
    record facts {
      wca_competition_id = or_text data'.wca_competition_id facts.wca_competition_id;
      competition_name = or_text data'.competition_name facts.competition_name;
      competition_country_code =
          or_text data'.competition_country_code facts.competition_country_code;
      competition_start_date = or_option data'.competition_start_date facts.competition_start_date;
      competition_end_date = or_option data'.competition_end_date facts.competition_end_date;
      round_id = or_text data'.round_id facts.round_id;
      round_number = or_option data'.round_number facts.round_number;
      round_name = or_text data'.round_name facts.round_name;
      event_name = or_text data'.event_name facts.event_name;
      competitor_name = or_text data'.competitor_name facts.competitor_name;
      competitor_wca_id = or_text data'.competitor_wca_id facts.competitor_wca_id;
      country_code = or_text data'.country_code facts.country_code;
      source_url = or_text data'.source_url facts.source_url;
      competition_timezone = zone;
      competition_local_date =
          if known then local_date setting data' else facts.competition_local_date;
      timezone_resolution_status = if settled then status else facts.timezone_resolution_status;
      timezone_resolution_reason = if settled then reason else facts.timezone_resolution_reason;
    }

unfoldable pub update_canonical_context :
    Setting → NormalizedResultObservation → CanonicalResult → CanonicalResult
unfolding updated_context
update_canonical_context setting data' result = record result {
  facts = updated_context setting data' result.facts;
}

-- The order of the key of `max` in `_refresh_canonical_values`.
unfoldable pub less_trusted : ResultObservation → ResultObservation → Bool
less_trusted a b =
    let ra = result_trust_rank a.ingestion_method in
    let rb = result_trust_rank b.ingestion_method in
    ltb ra rb
    || ((ra == rb)
        && (ltb a.last_observed_at b.last_observed_at
            || ((a.last_observed_at == b.last_observed_at) && ltb a.pk b.pk)))

abbrev pub more_trusted : ResultObservation → ResultObservation → Bool
more_trusted a b = less_trusted b a

-- `chosen`: Python's `max` keeps the first of the greatest.
unfoldable pub chosen : ResultObservation → List ResultObservation → ResultObservation
chosen first rest = least more_trusted first rest

abbrev pub trusted_values : List ResultObservation → List ℤ
trusted_values observations =
    map (λ o. o.value) (select (λ o. o.result_evidence_trusted) observations)

-- `len(set(values)) > 1`
unfoldable pub disagree : List ℤ → Bool
disagree [] = false
disagree (v ∷ rest) = any (λ w. not (eq_ℤ v w)) rest

-- The validation that the values of the trusted observations call for.
unfoldable pub evidence_verdict : List ℤ → ValidationStatus × Text
unfolding disagree
evidence_verdict [] = (ValidationStatus.pending, text "untrusted_source_only")
evidence_verdict (v ∷ rest) =
    if disagree (v ∷ rest)
    then (ValidationStatus.rejected, text "trusted_source_disagreement")
    else (ValidationStatus.verified, text "trusted_source_observation")

first_seen : ℕ → List ResultObservation → ℕ
first_seen t [] = t
first_seen t (o ∷ rest) = first_seen (min t o.first_observed_at) rest

last_seen : ℕ → List ResultObservation → ℕ
last_seen t [] = t
last_seen t (o ∷ rest) = last_seen (max t o.last_observed_at) rest

-- `_refresh_canonical_values` on the active observations of the result.
unfoldable pub refreshed : CanonicalResult → List ResultObservation → CanonicalResult
unfolding chosen evidence_verdict first_seen last_seen format_result
refreshed result [] = record result {
  facts = record result.facts {
    validation_status = ValidationStatus.pending;
    validation_reason = text "all_source_observations_retracted";
  };
  current_observation = none;
}
refreshed result (o ∷ rest) =
    let best = chosen o rest in
    let (status, reason) = evidence_verdict (trusted_values (o ∷ rest)) in
    record result {
      facts = record result.facts {
        value = best.value;
        formatted_result =
            format_result result.event_id (kind_text result.facts.kind) (some best.value);
        entered_at = or_option best.entered_at result.entered_at;
        first_observed_at = first_seen o.first_observed_at rest;
        validation_status = status;
        validation_reason = reason;
      };
      last_observed_at = last_seen o.last_observed_at rest;
      current_observation = some best.pk;
    }

unfoldable pub refresh_canonical_values : List ResultObservation → CanonicalResult → CanonicalResult
unfolding refreshed
refresh_canonical_values observations result = refreshed result (select is_active observations)

-- `_refresh_and_enqueue`, up to the snapshot.
unfoldable pub refresh_and_validate :
    Setting → List ResultObservation → CanonicalResult → CanonicalResult
unfolding refresh_canonical_values validate_result_against_latest_snapshot
refresh_and_validate setting observations result =
    validate_result_against_latest_snapshot setting.countries setting.snapshot observations
      (refresh_canonical_values observations result)
