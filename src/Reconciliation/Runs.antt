-- ===== src/Reconciliation/Runs.antt =====
-- Runs of the transactions that write revisions and work: reconciliation in any order, and the workers
-- of Work on the same queue.
use cubingnow.Prelude.{ℕ, Bool, [], Text, ◌≢◌}
use cubingnow.Observation.{NormalizedResultObservation, natural_result_prefix, observation_key}
use cubingnow.Work.{Classified, ClaimedRevision, claim_next_work, process_claimed_work}
use cubingnow.Work.Valid.{IsValid}
use cubingnow.Reconciliation.Workers.{claim_next_work-IsBacked, process_claimed_work-IsBacked}
use cubingnow.Work.Reach.{claim, process, here, next, Reach-IsValid}
use cubingnow.Reconciliation.Rows.{Store, find_result, find_observation, revisions_of}
use cubingnow.Reconciliation.Head.{Setting, update_canonical_context}
use cubingnow.Reconciliation.{
  with_result, refresh_at, enqueue_current_canonical_state, retract_result_observation,
}
use cubingnow.Reconciliation.Observe.{
  scoped, previous_of, find_canonical, find_or_create, prefer_natural, with_scope,
  record_observation, reconcile_result_observation,
}
use cubingnow.Reconciliation.Enqueue.{IsCoherent}
use cubingnow.Reconciliation.Advances.{
  Keeps, Advances, Keeps-trans, Advances-trans, Keeps-IsCoherent, refresh_at-Advances,
  refresh_previous-Advances, enqueue_found-Advances, retract_found-Advances, find_canonical-Keeps,
  find_or_create-Keeps, prefer_natural-Keeps, with_scope-Keeps, record_observation-Keeps,
}

-- The transactions that write the store.
pub data Transaction (s : Store) : Store → Type 0 where
  reconcile :
      (setting : Setting) (now : ℕ) (data' : NormalizedResultObservation)
      → Transaction s (reconcile_result_observation setting now data' s)
  retract :
      (setting : Setting) (now : ℕ) (key : Text) (observed_at : ℕ)
      → Transaction s (retract_result_observation setting now key observed_at s).1
  enqueue_current : (now pk : ℕ) → Transaction s (enqueue_current_canonical_state now pk s)

reconcile-Advances :
    (setting : Setting) (now : ℕ) (data' : NormalizedResultObservation) (s : Store)
    → Advances s (reconcile_result_observation setting now data' s)
unfolding reconcile_result_observation
reconcile-Advances setting now data' s =
    let key = natural_result_prefix data' in
    let scoped_store = with_scope key s in
    let existing = find_observation (observation_key data') scoped_store.observations in
    let found = find_canonical data' (previous_of existing scoped_store) scoped_store in
    let made = find_or_create setting data' key found in
    let head = prefer_natural key made.0 made.1 in
    let result = update_canonical_context setting data' (scoped key head.0) in
    let saved = with_result result head.1 in
    let observed_store = record_observation data' result.pk existing saved in
    let refreshed_store = refresh_at setting now result.pk observed_store in
    let kept : Keeps s head.1 =
      Keeps-trans s found.1 head.1
        (Keeps-trans s scoped_store found.1 (with_scope-Keeps key s)
          (find_canonical-Keeps data' (previous_of existing scoped_store) scoped_store))
        (Keeps-trans found.1 made.1 head.1 (find_or_create-Keeps setting data' key found)
          (prefer_natural-Keeps key made.0 made.1)) in
    let all_kept : Keeps s observed_store =
      Keeps-trans s saved observed_store kept
        (record_observation-Keeps data' result.pk existing saved) in
    Advances-trans s observed_store _ (Keeps-IsCoherent s observed_store all_kept) (
      Advances-trans observed_store refreshed_store _
        (refresh_at-Advances setting now result.pk observed_store)
        (refresh_previous-Advances setting now result.pk (previous_of existing scoped_store)
          refreshed_store))

Transaction-Advances : {s s' : Store} → Transaction s s' → Advances s s'
unfolding enqueue_current_canonical_state retract_result_observation
Transaction-Advances {s = s} (reconcile setting now data') = reconcile-Advances setting now data' s
Transaction-Advances {s = s} (retract setting now key at) =
    retract_found-Advances setting now at (find_observation key s.observations) s
Transaction-Advances {s = s} (enqueue_current now pk) =
    enqueue_found-Advances now (find_result pk s.results) s

-- A run: ingestion and workers in any order.
pub data Run (s : Store) : Store → Type 0 where
  begin : Run s s
  ingest : {t u : Store} → Run s t → Transaction t u → Run s u
  claims :
      {t : Store}
      → Run s t
      → (baseline_active : Bool) (worker : Text) (now lease_seconds : ℕ) → worker ≢ []
      → Run s
          (record t { work = (claim_next_work baseline_active worker now lease_seconds t.work).1 })
  processes :
      {t : Store}
      → Run s t
      → (classified : Classified) (c : ClaimedRevision) (worker : Text) (now : ℕ) → worker ≢ []
      → Run s (record t { work = (process_claimed_work classified c worker now t.work).1 })

abbrev pub empty : Store
empty = record { scopes = []; results = []; observations = []; revisions = []; work = [] }

Run-Advances : {s t : Store} → Run s t → Advances s t
Run-Advances begin co = (co, here)
Run-Advances {s = s} (ingest {t = t} {u = u} r x) co =
    Advances-trans s t u (Run-Advances r) (Transaction-Advances x) co
Run-Advances (claims {t = t} r active worker now lease named) co =
    let (co', reach) = Run-Advances r co in
    (
      record {
        chains = co'.chains;
        backed = claim_next_work-IsBacked t.revisions active worker now lease t.work co'.backed;
      },
      next reach (claim active worker now lease named),
    )
Run-Advances (processes {t = t} r classified c worker now named) co =
    let (co', reach) = Run-Advances r co in
    (
      record {
        chains = co'.chains;
        backed =
            process_claimed_work-IsBacked t.revisions classified c worker now t.work co'.backed;
      },
      next reach (process classified c worker now named),
    )

-- In every run from the empty store, whatever the order of observations, retractions and workers:
-- the revisions of each result count from one without a gap and follow one another, every work row
-- names a revision that is there with its result and number, and the queue is valid.
pub Run-IsCoherent : {s : Store} → Run empty s → IsCoherent s × IsValid s.work
unfolding revisions_of
Run-IsCoherent r =
    let (co, reach) = Run-Advances r (record { chains = λ pk. tt; backed = tt }) in
    (co, Reach-IsValid reach)
