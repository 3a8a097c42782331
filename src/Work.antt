-- ===== src/Work.antt =====
-- backend/apps/records/classification_work.py: the durable queue of revisions to classify. A
-- transaction runs as one step; times are microseconds. What `classify_revision` did to a claimed
-- revision is an argument of `process_claimed_work`.
pub mod Claims
pub mod Valid
pub mod Reach
pub mod Settled
mod Tests
use cubingnow.Prelude.{
  ℕ, zero, suc, ◌+◌, ◌*◌, max, Bool, true, false, not, ◌&&◌, ◌||◌, Option, none, some, List, [],
  ◌∷◌, ◌++◌, map, Text, text_eq, ltb, ◌==◌, if◌then◌else◌, any, select,
}
use cubingnow.Models.{Action}
use cubingnow.Timeline.{least}

pub data WorkStatus : Type 0 where
  pending processing completed failed stale : WorkStatus

pub record ClassificationWork : Type 0 where
  pub pk : ℕ
  pub canonical_result_revision : ℕ
  pub canonical_result : ℕ
  pub revision : ℕ
  pub action : Action
  pub status : WorkStatus
  pub attempts : ℕ
  pub claimed_by : Text
  pub claimed_at : Option ℕ
  pub claim_expires_at : Option ℕ
  pub completed_at : Option ℕ
  pub last_error : Text
  pub created_at : ℕ

abbrev pub Queue : Type 0
Queue = List ClassificationWork

pub record ClaimedRevision : Type 0 where
  pub work_id : ℕ
  pub canonical_result_revision_id : ℕ
  pub canonical_result_id : ℕ
  pub revision : ℕ
  pub action : Action

abbrev pub is_unsettled : WorkStatus → Bool
is_unsettled pending = true
is_unsettled processing = true
is_unsettled failed = true
is_unsettled completed = false
is_unsettled stale = false

abbrev pub is_processing : WorkStatus → Bool
is_processing processing = true
is_processing pending = false
is_processing failed = false
is_processing completed = false
is_processing stale = false

-- `unsettled_earlier`
abbrev pub is_unsettled_earlier : ClassificationWork → ClassificationWork → Bool
is_unsettled_earlier work earlier =
    (earlier.canonical_result == work.canonical_result)
    && ltb earlier.revision work.revision
    && is_unsettled earlier.status

unfoldable pub has_unsettled_earlier : Queue → ClassificationWork → Bool
has_unsettled_earlier queue work = any (is_unsettled_earlier work) queue

-- `claim_expires_at__lt=now`, false of a null column.
abbrev pub expired : ℕ → Option ℕ → Bool
expired now none = false
expired now (some at) = ltb at now

abbrev pub is_ready : ℕ → ClassificationWork → Bool
is_ready now work = elim work.status [
  | pending ↦ true
  | failed ↦ true
  | processing ↦ expired now work.claim_expires_at
  | completed ↦ false
  | stale ↦ false
]

unfoldable pub is_claimable : Queue → ℕ → ClassificationWork → Bool
is_claimable queue now work = not (has_unsettled_earlier queue work) && is_ready now work

-- `order_by("created_at", "pk")`
abbrev pub earlier : ClassificationWork → ClassificationWork → Bool
earlier a b = ltb a.created_at b.created_at || ((a.created_at == b.created_at) && ltb a.pk b.pk)

-- `queryset.first()`
unfoldable pub first_in_order : Queue → Option ClassificationWork
first_in_order [] = none
first_in_order (work ∷ rest) = some (least earlier work rest)

-- `save` of one row.
unfoldable pub update_row : ℕ → (ClassificationWork → ClassificationWork) → Queue → Queue
update_row pk change [] = []
update_row pk change (work ∷ rest) =
    (if work.pk == pk then change work else work) ∷ update_row pk change rest

abbrev pub second : ℕ
second = 1000000

unfoldable pub take_claim : Text → ℕ → ℕ → ClassificationWork → ClassificationWork
take_claim worker now lease_seconds work = record work {
  status = processing;
  attempts = work.attempts + 1;
  claimed_by = worker;
  claimed_at = some now;
  claim_expires_at = some (now + max lease_seconds 30 * second);
  last_error = [];
}

abbrev pub claim_of : ClassificationWork → ClaimedRevision
claim_of work = record {
  work_id = work.pk;
  canonical_result_revision_id = work.canonical_result_revision;
  canonical_result_id = work.canonical_result;
  revision = work.revision;
  action = work.action;
}

unfoldable pub claim_found :
    Text → ℕ → ℕ → Queue → Option ClassificationWork → Option ClaimedRevision × Queue
claim_found worker now lease_seconds queue none = (none, queue)
claim_found worker now lease_seconds queue (some work) =
    (some (claim_of work), update_row work.pk (take_claim worker now lease_seconds) queue)

-- `baseline_active`: an active `BaselineMetadata` row exists.
unfoldable pub claim_next_work : Bool → Text → ℕ → ℕ → Queue → Option ClaimedRevision × Queue
claim_next_work baseline_active worker now lease_seconds queue =
    if not baseline_active
    then (none, queue)
    else claim_found worker now lease_seconds queue
        (first_in_order (select (is_claimable queue now) queue))

-- How the call of `classify_revision` ended: its value, or the text of an exception.
pub data Classified : Type 0 where
  current superseded : Classified
  raised : Text → Classified

unfoldable pub settle_row : WorkStatus → ℕ → ClassificationWork → ClassificationWork
settle_row status now work = record work {
  status = status;
  completed_at = some now;
  claimed_by = [];
  claim_expires_at = none;
  last_error = [];
}

-- The locked row is settled only for the worker that still holds its claim.
abbrev pub holds_claim : Text → ClassificationWork → Bool
holds_claim worker work = is_processing work.status && text_eq work.claimed_by worker

unfoldable pub find_row : ℕ → Queue → Option ClassificationWork
find_row pk [] = none
find_row pk (work ∷ rest) =
    let later = find_row pk rest in if work.pk == pk then some work else later

unfoldable pub settle_claimed :
    WorkStatus → Text → ℕ → ℕ → Queue → Option ClassificationWork → Bool × Queue
settle_claimed status worker now pk queue none = (false, queue)
settle_claimed status worker now pk queue (some locked) =
    if not (holds_claim worker locked)
    then (false, queue)
    else (true, update_row pk (settle_row status now) queue)

-- The `update` of the exception handler, on the rows that its filter selects.
unfoldable pub fail_row : Text → Text → ClassificationWork → ClassificationWork
fail_row worker error work =
    if text_eq work.claimed_by worker
    then record work {
      status = failed;
      claimed_by = [];
      claim_expires_at = none;
      last_error = error;
    }
    else work

unfoldable pub process_claimed_work : Classified → ClaimedRevision → Text → ℕ → Queue → Bool × Queue
process_claimed_work current claim worker now queue =
    settle_claimed completed worker now claim.work_id queue (find_row claim.work_id queue)
process_claimed_work superseded claim worker now queue =
    settle_claimed stale worker now claim.work_id queue (find_row claim.work_id queue)
process_claimed_work (raised error) claim worker now queue =
    (false, update_row claim.work_id (fail_row worker error) queue)

-- The turns of `process_ready_work`: `classify` says how each claimed revision ends, `clock` gives
-- the time of each turn.
ready_turns : (ClaimedRevision → Classified) → (ℕ → ℕ) → Bool → Text → ℕ → ℕ → Queue → ℕ × Queue
ready_turns classify clock baseline_active worker zero done queue = (done, queue)
ready_turns classify clock baseline_active worker (suc turns) done queue =
    let (found, queue') = claim_next_work baseline_active worker (clock turns) 300 queue in
    elim found [
      | none ↦ (done, queue')
      | some claim ↦
          (let (finished, queue'') =
              process_claimed_work (classify claim) claim worker (clock turns) queue' in
            ready_turns classify clock baseline_active worker turns
              (if finished then done + 1 else done) queue'')
    ]

unfoldable pub process_ready_work :
    (ClaimedRevision → Classified) → (ℕ → ℕ) → Bool → Text → ℕ → Queue → ℕ × Queue
unfolding ready_turns
process_ready_work classify clock baseline_active worker limit queue =
    ready_turns classify clock baseline_active worker (max limit 1) 0 queue
