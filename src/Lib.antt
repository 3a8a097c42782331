-- ===== src/Lib.antt =====
-- CubingNow watches speedcubing competitions live, reconciles what the WCA Live and CubingChina sources
-- say about each result into one canonical result, and classifies every canonical result as a world,
-- continental, national or personal record. Observations become revisions of a canonical result; each
-- revision is a row of work; a worker claims the rows in order and classifies the revision against
-- the live record values. This library models the parts of that path that hold no I/O.
--
--   ResultValues  backend/integrations/wca_live/result_values.py, the integer encoding of results, its
--                 order, and the text that is shown. ResultValues/Decode and /Clock relate the decoded
--                 multi-blind attempt and the shown time to the numbers they come from.
--   Finalization  backend/apps/records/finalization.py, when no further attempt can be entered.
--   Models        backend/apps/records/models.py, the rows the other parts share. `Facts` is the group
--                 of columns that REVISION_FIELDS of reconciliation.py names.
--   Timeline      backend/apps/records/classification.py, the results of one event and kind at one
--                 record level and scope. `replay` is the loop of `repair_timeline`, `adjudicate` is
--                 `_adjudicate_timeline`, `repair_cell` the two together on one live cell, and
--                 `classify_cell` the turn of `_classify_incremental` on that cell.
--   Classification  backend/apps/records/classification.py on the tables: `classify_revision` and all it
--                 calls, the repair of timelines, revisions out of order, late or stale, and (in
--                 Rebuild) both rebuilds. Rows holds the tables and queries, Revisions what is done
--                 before a timeline is touched. `late` is the revision of the head that
--                 `_assert_revision_is_current` reads, which another transaction may have raised; a
--                 `ValueError` is the verdict `raised`.
--   EventColumns  backend/apps/records/event_columns.py.
--   Retention     backend/apps/records/retention.py, the purge of raw frames in batches.
--   Observation   backend/apps/records/domain.py and source_trust.py, the evidence of a source and its keys.
--   Scopes        backend/apps/records/classification.py, `record_scope`; the countries are a parameter.
--   RecordValidation  backend/integrations/wca/record_validation.py, one result against the official
--                 benchmarks, and (in Batch) the turn of the batch for one result.
--   Reconciliation  backend/apps/records/reconciliation.py. Rows holds the tables and their queries, Head
--                 what evidence does to the head of a result, the module itself
--                 `_snapshot_and_enqueue` and retraction, Observe `reconcile_result_observation`.
--                 `Transaction` is one of its transactions, and `Run` any order of these and of the
--                 transactions of workers on the same queue.
--   Delivery      backend/apps/notifications/services.py, claims, results, retries, cancellation and release
--                 of deliveries, and (in Batch) a worker's batch; the provider's answer and the
--                 random factor of a retry are parameters.
--   Publication   backend/apps/notifications/services.py (publication), payloads.py, recipients.py and
--                 policies.py: what a classified result makes of events and deliveries. Deserves
--                 states which levels are worth an event, apart from the code's guards. `BoardStep` is
--                 any publication, to all that want it or to those of a query of the endpoints, any change
--                 of preferences or transaction of Delivery.
--   Snapshots     backend/integrations/wca_live/snapshots.py and cubingchina/live_snapshots.py, the
--                 differences of two snapshots of a round.
--   WeekendWindow  backend/integrations/weekend_window.py.
--   Work          backend/apps/records/classification_work.py, the queue of revisions to classify.
--                 `Step` is one transaction of any worker or of reconciliation.
--
-- A row is a record, a table a list of rows, a transaction a function on the lists. A
-- claim or a settlement holds the row locks for as long as its transaction runs, so transactions of
-- several workers are sequences of steps in any order. A moment is a number of microseconds, a date an
-- ordinal, a text the list of its code points. The text functions upper, lower, strip and int follow
-- Python on ASCII. Numbers that Python takes as any integer are the integers of Prelude/Int, and
-- those the columns keep positive are the native numbers; the widths of columns are not modelled. Two
-- functions are on fuel: `decimal` has n + 1 turns for the digits of n, and `purge_batches` a turn more
-- than there are frames, each of its turns but the last deleting one at least; the turns of
-- `process_ready_work` are the source's own limit. The live and baseline tables are functions from
-- cells (kind, event, level, holder) to values; the four level rows of a processed result are fields of
-- its row, so that none is missing.
--
-- `zoneinfo` and reference_data/countries.json are parameters (`date_in` and `countries` of `Setting`).
-- The handlers of IntegrityError that only a concurrent insert reaches have no clause. The
-- processed results, which a rebuild deletes, take their keys from a sequence (`next_pk` of `World`)
-- that deletes leave alone; `new_pk`, one more than the keys that are there, stands for the sequences
-- of the tables that no modelled operation deletes from.
--
-- Left out: the time stamps that only record bookkeeping, the identifier that `worker_identity`
-- makes of the host and process, and logging; the clients, parsers and supervisors of the sources;
-- the web views; the baseline export. The worker of the queue takes its call of `classify_revision`
-- as a parameter.
pub mod Prelude
pub mod ResultValues
pub mod Finalization
pub mod Models
pub mod Timeline
pub mod Work
pub mod Classification
pub mod EventColumns
pub mod Scopes
pub mod Observation
pub mod RecordValidation
pub mod Reconciliation
pub mod Delivery
pub mod Publication
pub mod WeekendWindow
pub mod Snapshots
pub mod Retention
