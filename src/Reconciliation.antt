-- ===== src/Reconciliation.antt =====
-- backend/apps/records/reconciliation.py, the transactions. Each runs alone on the store, so the
-- handlers of `IntegrityError` in `_find_canonical` and `reconcile_result_observation`, which only a
-- concurrent transaction reaches, have no clause; the one in `_create_canonical` has.
pub mod Rows
pub mod Head
pub mod Evidence
pub mod Observe
pub mod Chain
pub mod Enqueue
pub mod Advances
pub mod Workers
pub mod Runs
pub mod Repeat
mod Tests
use cubingnow.Prelude.{
  ℕ, ◌+◌, Bool, true, false, not, Option, none, some, List, [], ◌∷◌, map, Text, ◌==◌, if◌then◌else◌,
  any, is_some,
}
use cubingnow.Models.{
  Facts, Facts-discrete, CanonicalResult, CanonicalResultRevision, ResultObservation,
  ObservationStatus, Status, Action,
}
use cubingnow.RecordValidation.{is_active}
use cubingnow.Work.{Queue, ClassificationWork, WorkStatus}
use cubingnow.Reconciliation.Rows.{
  Store, find_result, save_result, new_pk, find_observation, save_observation, observations_of,
  newest, revisions_of,
}
use cubingnow.Reconciliation.Head.{Setting, refresh_and_validate}

abbrev latest_revision : CanonicalResult → Store → Option CanonicalResultRevision
latest_revision result store = newest (revisions_of result.pk store.revisions)

-- `_revision_changed`
unfoldable pub facts_differ : Facts → Facts → Bool
facts_differ a b = elim (Facts-discrete a b) [ yes _ ↦ false | no _ ↦ true ]

abbrev pub is_retracted : Status → Bool
is_retracted Status.retracted = true
is_retracted Status.active = false
is_retracted Status.corrected = false

-- The branches of `_snapshot_and_enqueue`: the action of the revision that is due, if one is, and
-- the status of the head.
unfoldable pub due : CanonicalResult → Option CanonicalResultRevision → Option Action × Status
unfolding facts_differ
due result none = (some Action.active, Status.active)
due result (some latest) =
    if not (is_some result.current_observation)
    then (if is_retracted latest.canonical_status
        then (none, latest.canonical_status)
        else (some Action.retracted, Status.retracted))
    else if is_retracted latest.canonical_status
    then (some Action.active, Status.active)
    else if facts_differ latest.facts result.facts
    then (some Action.corrected, Status.corrected)
    else (none, latest.canonical_status)

abbrev pub next_revision : Option CanonicalResultRevision → ℕ
next_revision none = 1
next_revision (some latest) = latest.revision + 1

-- The head, saved.
abbrev pub with_result : CanonicalResult → Store → Store
with_result result store = record store { results = save_result result store.results }

unfoldable pub work_row : ℕ → ℕ → CanonicalResultRevision → ClassificationWork
work_row now pk revision = record {
  pk = pk;
  canonical_result_revision = revision.pk;
  canonical_result = revision.canonical_result;
  revision = revision.revision;
  action = revision.action;
  status = WorkStatus.pending;
  attempts = 0;
  claimed_by = [];
  claimed_at = none;
  claim_expires_at = none;
  completed_at = none;
  last_error = [];
  created_at = now;
}

-- `ClassificationWork.objects.get_or_create`
unfoldable pub enqueue_revision : ℕ → CanonicalResultRevision → Queue → Queue
unfolding work_row
enqueue_revision now revision queue =
    if any (λ w. w.canonical_result_revision == revision.pk) queue
    then queue
    else work_row now (new_pk (map (λ w. w.pk) queue)) revision ∷ queue

-- The immutable copy of the head.
unfoldable pub snapshot_of : ℕ → Action → CanonicalResult → CanonicalResultRevision
snapshot_of pk action result = record {
  pk = pk;
  canonical_result = result.pk;
  revision = result.revision;
  action = action;
  facts = result.facts;
  canonical_status = result.status;
  last_observed_at = result.last_observed_at;
}

unfoldable pub record_revision :
    ℕ → Option Action → CanonicalResult → Store → Option CanonicalResultRevision × Store
unfolding enqueue_revision snapshot_of
record_revision now none head store = (none, with_result head store)
record_revision now (some action) head store =
    let revision = snapshot_of (new_pk (map (λ r. r.pk) store.revisions)) action head in
    (
      some revision,
      record (with_result head store) {
        revisions = revision ∷ store.revisions;
        work = enqueue_revision now revision store.work;
      },
    )

-- The head as `_snapshot_and_enqueue` saves it.
unfoldable pub settled_head :
    Option Action → Status → Option CanonicalResultRevision → CanonicalResult → CanonicalResult
settled_head none status latest result = record result { status = status }
settled_head (some _) status latest result = record result {
  status = status;
  revision = next_revision latest;
}

-- `_snapshot_and_enqueue`
unfoldable pub snapshot_and_enqueue :
    ℕ → CanonicalResult → Store → Option CanonicalResultRevision × Store
unfolding due record_revision settled_head
snapshot_and_enqueue now result store =
    let latest = latest_revision result store in
    let (action, status) = due result latest in
    record_revision now action (settled_head action status latest result) store

-- `_refresh_and_enqueue`
unfoldable pub refresh_and_enqueue :
    Setting → ℕ → CanonicalResult → Store → Option CanonicalResultRevision × Store
unfolding snapshot_and_enqueue refresh_and_validate
refresh_and_enqueue setting now result store =
    let observations = observations_of result.pk store.observations in
    snapshot_and_enqueue now (refresh_and_validate setting observations result) store

-- `get(pk=…)` and `_refresh_and_enqueue` of that head.
abbrev pub refresh_found : Setting → ℕ → Option CanonicalResult → Store → Store
refresh_found setting now none store = store
refresh_found setting now (some result) store = (refresh_and_enqueue setting now result store).1

unfoldable pub refresh_at : Setting → ℕ → ℕ → Store → Store
refresh_at setting now pk store = refresh_found setting now (find_result pk store.results) store

unfoldable pub enqueue_found : ℕ → Option CanonicalResult → Store → Store
enqueue_found now none store = store
enqueue_found now (some result) store = (snapshot_and_enqueue now result store).1

-- `enqueue_current_canonical_state`
unfoldable pub enqueue_current_canonical_state : ℕ → ℕ → Store → Store
unfolding enqueue_found
enqueue_current_canonical_state now pk store =
    enqueue_found now (find_result pk store.results) store

retracted_observation : ℕ → ResultObservation → ResultObservation
retracted_observation observed_at o = record o {
  status = ObservationStatus.retracted;
  last_observed_at = observed_at;
  revision = o.revision + 1;
}

unfoldable pub retract_found : Setting → ℕ → ℕ → Option ResultObservation → Store → Bool × Store
unfolding retracted_observation refresh_at
retract_found setting now observed_at none store = (false, store)
retract_found setting now observed_at (some o) store =
    if is_active o
    then (
      true,
      refresh_at setting now o.canonical_result (record store {
        observations = save_observation (retracted_observation observed_at o) store.observations;
      }),
    )
    else (false, store)

-- `retract_result_observation`
unfoldable pub retract_result_observation : Setting → ℕ → Text → ℕ → Store → Bool × Store
unfolding retract_found find_observation
retract_result_observation setting now key observed_at store =
    retract_found setting now observed_at (find_observation key store.observations) store
