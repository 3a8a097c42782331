-- ===== src/Publication/Runs.antt =====
-- Boards on which publication, changes of preferences and deliveries happen in any order.
use cubingnow.Prelude.{
  ℕ, Bool, false, ◌&&◌, Option, none, some, List, [], ◌∷◌, Text, ◌≡◌, refl, sym, subst, inl, inr,
  arith, Bool-cases, any, select,
}
use cubingnow.Models.{RecordLevel, CanonicalResult, ProcessedResult}
use cubingnow.RecordValidation.{Validation}
use cubingnow.Classification.Rows.{Row}
use cubingnow.Reconciliation.Rows.{find_result}
use cubingnow.Delivery.{NotificationEndpoint, Outbox}
use cubingnow.Delivery.Final.{Step}
use cubingnow.Delivery.Places.{Step-Kept, endpoint_pks}
use cubingnow.Publication.{
  NotificationEvent, Board, Published, find_event, recipients, candidate, created_event,
  with_payload, existing_event, created_or_existing, get_or_create_event, publish_as,
  publish_record_notification, deduplication_key_of, is_sent, same_domain_values,
}
use cubingnow.Publication.Recipients.{
  NotificationType, set_endpoint_preferences, eligible_endpoints, is_reachable, may_receive,
}
use cubingnow.Publication.Payload.{Reference, Notice, RecordPayload, notification_type_of}
use cubingnow.Publication.Processed.{
  Attempt, publish_at_head, skipped, failed, published, link_event, linked, is_publishable,
  notice_of, publish_processed_result_notification, publish_processed_result_after_commit,
  publish_levels, after_attempt, published_levels,
}
use cubingnow.Publication.Once.{find_event-key, IsFound, publish_as-IsFound}
use cubingnow.Publication.Unique.{
  Distinct, Distinct-append, Distinct-select, create_deliveries-Distinct,
}
use cubingnow.Publication.Events.{
  ids, keys, IsUnique, new_pk-new, keys-new, ids-append, keys-append, saved-IsUnique,
}

-- Recipients of which none comes twice.
abbrev pub OneEach : Option (List NotificationEndpoint) → Type 0
OneEach none = Unit
OneEach (some es) = Distinct (endpoint_pks es)

module _ (reference : Reference) (test : Bool) (chosen : Option (List NotificationEndpoint))
    (one_each : OneEach chosen) (now : ℕ) (notice : Notice) (board : Board)
    (unique : IsUnique board) where
  abbrev key : Text
  key = deduplication_key_of notice test

  abbrev pub KeepsUnique : Published → Type 0
  KeepsUnique none = Unit
  KeepsUnique (some (e, created, after)) = IsUnique after

  recipients-Distinct :
      (type : NotificationType) (who : Option (List NotificationEndpoint))
      → OneEach who
      → Distinct (endpoint_pks (recipients reference test who now notice board type))
  unfolding eligible_endpoints
  recipients-Distinct type none one =
      Distinct-select (λ e. is_reachable e && may_receive type board.preferences e) board.endpoints
        unique.endpoint_keys
  recipients-Distinct type (some es) one = one

  created-IsUnique :
      (type : NotificationType) (payload : RecordPayload)
      → find_event key board.events ≡ none
      → KeepsUnique (
          created_event reference test chosen now notice board type
            (candidate reference test chosen now notice board type payload))
  unfolding created_event
  created-IsUnique type payload missing =
      let event = candidate reference test chosen now notice board type payload in
      let new_id = new_pk-new (ids board.events) event.id (omega arith) in
      record {
        event_ids = subst Distinct (sym (ids-append board.events event)) (
            Distinct-append (ids board.events) (event.id ∷ []) unique.event_ids (tt, tt)
              (new_id, tt));
        event_keys = subst Distinct (sym (keys-append board.events event)) (
            Distinct-append (keys board.events) (key ∷ []) unique.event_keys (tt, tt)
              (keys-new key board.events missing, tt));
        delivered_once =
            create_deliveries-Distinct now event board.deliveries
              (recipients reference test chosen now notice board type) unique.delivered_once
              (recipients-Distinct type chosen one_each);
        endpoint_keys = unique.endpoint_keys;
      }

  with_payload-IsUnique :
      (event : NotificationEvent) (payload : Option RecordPayload)
      → find_event key board.events ≡ some event
      → KeepsUnique (with_payload reference test chosen now notice board event payload)
  unfolding with_payload
  with_payload-IsUnique event none found = tt
  with_payload-IsUnique event (some payload) found =
      let same = find_event-key key board.events event found in
      elim (Bool-cases (any (is_sent event) board.deliveries)) [
        | inl sent ↦ rw sent (saved-IsUnique key board event _ unique found refl same)
        | inr unsent ↦ rw unsent (saved-IsUnique key board event _ unique found refl same)
      ]

  existing-IsUnique :
      (event : NotificationEvent)
      → find_event key board.events ≡ some event
      → KeepsUnique (existing_event reference test chosen now notice board event)
  unfolding existing_event
  existing-IsUnique event found = elim (Bool-cases (same_domain_values event.payload notice)) [
    | inl same ↦ rw same unique
    | inr differs ↦ rw differs (with_payload-IsUnique event _ found)
  ]

  get_or_create-IsUnique :
      (type : NotificationType) (payload : Option RecordPayload)
      → KeepsUnique (get_or_create_event reference test chosen now notice board type payload)
  unfolding get_or_create_event created_or_existing
  get_or_create-IsUnique type none = tt
  get_or_create-IsUnique type (some payload) = go (find_event key board.events) refl
    where
      go :
          (found : Option NotificationEvent)
          → find_event key board.events ≡ found
          → KeepsUnique
              (created_or_existing reference test chosen now notice board type payload found)
      go none missing = created-IsUnique type payload missing
      go (some event) found = existing-IsUnique event found

  pub publish_as-IsUnique :
      (type : Option NotificationType)
      → KeepsUnique (publish_as reference test chosen now notice board type)
  unfolding publish_as
  publish_as-IsUnique none = tt
  publish_as-IsUnique (some type) = get_or_create-IsUnique type _

pub notice_of-no_venue :
    (r : ProcessedResult) (level : RecordLevel) → (notice_of r level).venue_country ≡ []
unfolding notice_of
notice_of-no_venue r level = refl

-- The publication of a processed result.
module _ (reference : Reference) (now : ℕ) (heads : List CanonicalResult)
    (validations : List (ℕ × Validation)) (row : Row) (board : Board)
    (unique : IsUnique board) where
  abbrev attempt : RecordLevel → Attempt
  attempt = publish_processed_result_notification reference now heads validations row board

  abbrev Fine : Attempt → Type 0
  Fine skipped = Unit
  Fine failed = Unit
  Fine (published event created after) = IsUnique after

  link_event-Fine :
      (level : RecordLevel) (out : Published)
      → KeepsUnique reference false none tt now (notice_of row.result level) board unique out
      → IsFound reference false none
          (notice_of row.result level)
          (notice_of-no_venue row.result level)
          out
      → Fine (link_event row.result level out)
  unfolding link_event
  link_event-Fine level none u found = tt
  link_event-Fine level (some (event, created, after)) u found =
      let name = deduplication_key_of (notice_of row.result level) false in
      saved-IsUnique name after event (linked row.result level event) u found.0 refl
        (find_event-key name after.events event found.0)

  at_head-Fine :
      (level : RecordLevel) (head : Option CanonicalResult)
      → Fine (publish_at_head reference now validations row board level head)
  unfolding publish_at_head publish_record_notification
  at_head-Fine level none = tt
  at_head-Fine level (some head) =
      let notice = notice_of row.result level in
      elim (Bool-cases (is_publishable validations head row level)) [
        | inr shut ↦ rw shut tt
        | inl open_now ↦ rw open_now (
            link_event-Fine level _
              (publish_as-IsUnique reference false none tt now notice board unique
                (notification_type_of notice.record_level))
              (publish_as-IsFound reference false none notice (notice_of-no_venue row.result level)
                now board (notification_type_of notice.record_level)))
      ]

  attempt-Fine : (level : RecordLevel) → Fine (attempt level)
  unfolding publish_processed_result_notification
  attempt-Fine level = at_head-Fine level (find_result row.result.canonical_result heads)

  after-IsUnique :
      (out : Attempt) (rest : Board)
      → Fine out
      → IsUnique rest
      → IsUnique (after_attempt out board rest)
  after-IsUnique skipped rest h u = u
  after-IsUnique failed rest h u = unique
  after-IsUnique (published event created after) rest h u = h

  levels-IsUnique : (levels : List RecordLevel) → IsUnique (publish_levels attempt board levels)
  unfolding publish_levels
  levels-IsUnique [] = unique
  levels-IsUnique (level ∷ levels) =
      after-IsUnique (attempt level) _ (attempt-Fine level) (levels-IsUnique levels)

  pub publish_processed_result_after_commit-IsUnique :
      IsUnique (publish_processed_result_after_commit reference now heads validations row board)
  unfolding publish_processed_result_after_commit
  publish_processed_result_after_commit-IsUnique = levels-IsUnique (published_levels row)

-- The recipients that a publication is given: none, for all that want the record, or those that a
-- query of the endpoints finds.
abbrev pub found_by :
    Option (NotificationEndpoint → Bool)
    → List NotificationEndpoint
    → Option (List NotificationEndpoint)
found_by none endpoints = none
found_by (some query) endpoints = some (select query endpoints)

-- What happens to the tables of notifications.
pub data BoardStep (board : Board) : Board → Type 0 where
  announce :
      (reference : Reference) (test : Bool) (query : Option (NotificationEndpoint → Bool)) (now : ℕ)
      (notice : Notice) (e : NotificationEvent) (created : Bool) (after : Board)
      → publish_record_notification reference test (found_by query board.endpoints) now notice board
        ≡ some (e, created, after)
      → BoardStep board after
  classified :
      (reference : Reference) (now : ℕ) (heads : List CanonicalResult)
      (validations : List (ℕ × Validation)) (row : Row)
      → BoardStep board
          (publish_processed_result_after_commit reference now heads validations row board)
  prefer :
      (e : NotificationEndpoint) (values : List (NotificationType × Bool))
      → BoardStep board
          (record board { preferences = (set_endpoint_preferences e values board.preferences).1 })
  deliver :
      (box : Outbox)
      → Step (record { deliveries = board.deliveries; endpoints = board.endpoints }) box
      → BoardStep board (record board { deliveries = box.deliveries; endpoints = box.endpoints })

pub data BoardRun (board : Board) : Board → Type 0 where
  begin : BoardRun board board
  then_step : {b b' : Board} → BoardRun board b → BoardStep b b' → BoardRun board b'

found_by-OneEach :
    (query : Option (NotificationEndpoint → Bool)) (es : List NotificationEndpoint)
    → Distinct (endpoint_pks es)
    → OneEach (found_by query es)
found_by-OneEach none es h = tt
found_by-OneEach (some query) es h = Distinct-select query es h

BoardStep-IsUnique : {b b' : Board} → BoardStep b b' → IsUnique b → IsUnique b'
unfolding publish_record_notification
BoardStep-IsUnique {b = b} (announce reference test query now notice e created after h) u =
    let chosen = found_by query b.endpoints in
    let one_each = found_by-OneEach query b.endpoints u.endpoint_keys in
    subst (KeepsUnique reference test chosen one_each now notice b u) h (
      publish_as-IsUnique reference test chosen one_each now notice b u
        (notification_type_of notice.record_level))
BoardStep-IsUnique {b = b} (classified reference now heads validations row) u =
    publish_processed_result_after_commit-IsUnique reference now heads validations row b u
BoardStep-IsUnique {b = b} (prefer e values) u = record {
  event_ids = u.event_ids;
  event_keys = u.event_keys;
  delivered_once = u.delivered_once;
  endpoint_keys = u.endpoint_keys;
}
BoardStep-IsUnique {b = b} (deliver box step) u =
    let kept = Step-Kept step in
    record {
      event_ids = u.event_ids;
      event_keys = u.event_keys;
      delivered_once = subst Distinct (sym kept.0) u.delivered_once;
      endpoint_keys = subst Distinct (sym kept.1) u.endpoint_keys;
    }

-- In every run of publications, to all that want them or to those of a query, changes of preferences and transactions on deliveries, in any order,
-- that begins where it is so: no two events share an identifier or a deduplication key, no two endpoints
-- a key, and no two deliveries are of one event to one endpoint.
pub BoardRun-IsUnique : {b b' : Board} → BoardRun b b' → IsUnique b → IsUnique b'
BoardRun-IsUnique begin u = u
BoardRun-IsUnique (then_step run last) u = BoardStep-IsUnique last (BoardRun-IsUnique run u)
