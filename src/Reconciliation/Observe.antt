-- ===== src/Reconciliation/Observe.antt =====
-- backend/apps/records/reconciliation.py, `reconcile_result_observation`: the head that an
-- observation belongs to, the observation's row, and the refreshed heads.
use cubingnow.Prelude.{
  ℕ, ◌+◌, Bool, true, false, not, ◌&&◌, ◌||◌, Option, none, some, [], ◌∷◌, ◌++◌, map, Text, text,
  text_eq, eq_ℤ, ◌==◌, if◌then◌else◌, any, is_some,
}
use cubingnow.Models.{CanonicalResult, ResultObservation, ObservationStatus}
use cubingnow.RecordValidation.{is_active}
use cubingnow.Observation.{
  NormalizedResultObservation, observation_key, natural_result_prefix, proposed_identity_key,
  record_claim_is_trusted, result_evidence_is_trusted,
}
use cubingnow.Reconciliation.Rows.{
  Store, find_result, result_by_key, new_pk, find_observation, save_observation,
  same_source_canonical,
}
use cubingnow.Reconciliation.Head.{Setting, update_canonical_context, created_result}
use cubingnow.Reconciliation.{with_result, refresh_at}

-- `s.startswith(prefix)`
unfoldable pub starts_with : Text → Text → Bool
starts_with [] s = true
starts_with (c ∷ prefix) [] = false
starts_with (c ∷ prefix) (d ∷ s) = (c == d) && starts_with prefix s

-- A provisional key gives way to the natural one.
unfoldable pub claim_key : Option Text → CanonicalResult → Store → CanonicalResult × Store
unfolding starts_with
claim_key none current store = (current, store)
claim_key (some key) current store =
    let renamed = record current { facts = record current.facts { identity_key = key } } in
    if starts_with (text "source|") current.identity_key
    then (renamed, with_result renamed store)
    else (current, store)

-- `_find_canonical` where the observation is known: `current` is its head.
unfoldable pub found_existing :
    Option Text → Option CanonicalResult → CanonicalResult → Store → CanonicalResult × Store
unfolding claim_key
found_existing key none current store = claim_key key current store
found_existing key (some natural) current store =
    if natural.pk == current.pk then claim_key key current store else (natural, store)

natural_result : Option Text → Store → Option CanonicalResult
unfolding result_by_key
natural_result none store = none
natural_result (some key) store = result_by_key key store.results

-- A head of the same source, where no natural one is known.
found_by_source : NormalizedResultObservation → Store → Option CanonicalResult
unfolding same_source_canonical find_result
found_by_source data' store = elim (same_source_canonical data' store) [
  | none ↦ none
  | some pk ↦ find_result pk store.results
]

-- `_find_canonical` where it is not.
unfoldable pub found_new :
    NormalizedResultObservation → Option CanonicalResult → Store → Option CanonicalResult × Store
unfolding found_by_source
found_new data' (some natural) store = (some natural, store)
found_new data' none store = (found_by_source data' store, store)

-- `_find_canonical`; `existing` is the head of the known observation.
unfoldable pub find_canonical :
    NormalizedResultObservation → Option CanonicalResult → Store → Option CanonicalResult × Store
unfolding found_existing natural_result found_new
find_canonical data' (some current) store =
    let key = natural_result_prefix data' in
    let (result, store') = found_existing key (natural_result key store) current store in
    (some result, store')
find_canonical data' none store =
    found_new data' (natural_result (natural_result_prefix data') store) store

-- The insert, or the head that has its key.
unfoldable pub inserted : CanonicalResult → Option CanonicalResult → Store → CanonicalResult × Store
inserted result (some there) store = (there, store)
inserted result none store = (result, record store { results = store.results ++ result ∷ [] })

-- `_create_canonical`: the head that has the key already, or a new one.
unfoldable pub create_canonical :
    Setting → NormalizedResultObservation → Option Text → Store → CanonicalResult × Store
unfolding result_by_key inserted
create_canonical setting data' scope store =
    let result = created_result setting data' scope (new_pk (map (λ r. r.pk) store.results)) in
    inserted result (result_by_key (proposed_identity_key data') store.results) store

unfoldable pub find_or_create :
    Setting
    → NormalizedResultObservation
    → Option Text
    → Option CanonicalResult × Store
    → CanonicalResult × Store
unfolding create_canonical
find_or_create setting data' scope (some result, store) = (result, store)
find_or_create setting data' scope (none, store) = create_canonical setting data' scope store

-- The head with the natural key, where there is one by now.
unfoldable pub prefer_natural : Option Text → CanonicalResult → Store → CanonicalResult × Store
unfolding text_eq result_by_key claim_key
prefer_natural none result store = (result, store)
prefer_natural (some key) result store =
    if text_eq result.identity_key key
    then (result, store)
    else elim (result_by_key key store.results) [
      | some natural ↦ (natural, store)
      | none ↦ claim_key (some key) result store
    ]

-- `ResultIdentityScope.objects.get_or_create`
unfoldable pub with_scope : Option Text → Store → Store
unfolding text_eq
with_scope none store = store
with_scope (some key) store =
    if any (text_eq key) store.scopes
    then store
    else record store { scopes = store.scopes ++ key ∷ [] }

abbrev pub scoped : Option Text → CanonicalResult → CanonicalResult
scoped scope result =
    if is_some result.identity_scope then result else record result { identity_scope = scope }

equal_moments : Option ℕ → Option ℕ → Bool
equal_moments none none = true
equal_moments (some a) (some b) = a == b
equal_moments none (some b) = false
equal_moments (some a) none = false

-- `changed` of an observation that was there.
unfoldable pub observation_changed : NormalizedResultObservation → ResultObservation → Bool
unfolding equal_moments
observation_changed data' o =
    not (eq_ℤ o.value data'.value)
    || not (is_active o)
    || not (equal_moments o.entered_at data'.entered_at)

-- The observation's row after the evidence: its key, revision and first sight are the given ones.
unfoldable pub observed : NormalizedResultObservation → ℕ → ℕ → ℕ → ℕ → Text → ResultObservation
observed data' pk result revision first key = record {
  pk = pk;
  observation_key = key;
  canonical_result = result;
  raw_observation = data'.raw_observation_id;
  source = data'.source;
  ingestion_method = data'.ingestion_method;
  source_result_identity = data'.source_result_identity;
  source_competition_id = data'.source_competition_id;
  source_competitor_id = data'.source_competitor_id;
  kind = data'.kind;
  value = data'.value;
  source_record_tag = data'.source_record_tag;
  source_claim_trusted = record_claim_is_trusted data'.ingestion_method;
  result_evidence_trusted = result_evidence_is_trusted data'.ingestion_method;
  entered_at = data'.entered_at;
  first_observed_at = first;
  last_observed_at = data'.observed_at;
  status = ObservationStatus.active;
  revision = revision;
  normalized_payload = data'.normalized_payload;
}

-- The observation, created or brought up to date, on the head `result`.
unfoldable pub record_observation :
    NormalizedResultObservation → ℕ → Option ResultObservation → Store → Store
unfolding observed observation_changed observation_key
record_observation data' result none store = record store {
  observations =
      store.observations
      ++ observed data' (new_pk (map (λ o. o.pk) store.observations)) result 1 data'.observed_at
          (observation_key data')
        ∷ [];
}
record_observation data' result (some o) store = record store {
  observations =
      save_observation
        (observed data' o.pk result
          (if observation_changed data' o then o.revision + 1 else o.revision) o.first_observed_at
          o.observation_key)
        store.observations;
}

-- The head of the known observation.
unfoldable pub previous_of : Option ResultObservation → Store → Option CanonicalResult
unfolding find_result
previous_of none store = none
previous_of (some o) store = find_result o.canonical_result store.results

-- A head that the observation has left is refreshed too.
unfoldable pub refresh_previous : Setting → ℕ → ℕ → Option CanonicalResult → Store → Store
unfolding refresh_at
refresh_previous setting now result none store = store
refresh_previous setting now result (some previous) store =
    if previous.pk == result then store else refresh_at setting now previous.pk store

-- `reconcile_result_observation`
unfoldable pub reconcile_result_observation :
    Setting → ℕ → NormalizedResultObservation → Store → Store
unfolding with_scope previous_of find_canonical find_or_create prefer_natural record_observation
    refresh_at refresh_previous find_observation
reconcile_result_observation setting now data' store =
    let key = natural_result_prefix data' in
    let scoped_store = with_scope key store in
    let existing = find_observation (observation_key data') scoped_store.observations in
    let previous = previous_of existing scoped_store in
    let (found, found_store) =
      find_or_create setting data' key (find_canonical data' previous scoped_store) in
    let (head, head_store) = prefer_natural key found found_store in
    let result = update_canonical_context setting data' (scoped key head) in
    let observed_store =
      record_observation data' result.pk existing (with_result result head_store) in
    refresh_previous setting now result.pk previous
      (refresh_at setting now result.pk observed_store)
