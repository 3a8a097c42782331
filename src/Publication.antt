-- ===== src/Publication.antt =====
-- backend/apps/notifications, from a classified result to an event with its deliveries: services.py
-- (publication), payloads.py and recipients.py. The module itself is `publish_record_notification` and
-- the publication of a processed result; an exception, which rolls back, is `none`.
pub mod Recipients
pub mod Payload
pub mod Processed
pub mod Preferences
pub mod Once
pub mod Unique
pub mod Events
pub mod Deserves
pub mod Adds
pub mod Widest
pub mod Runs
mod Tests
use cubingnow.Prelude.{
  ℕ, suc, ◌+◌, ℤ, Bool, true, false, not, ◌&&◌, ◌||◌, Option, none, some, List, [], ◌∷◌, ◌++◌, map,
  Text, text, text_eq, eq_ℤ, leb, ◌==◌, if◌then◌else◌, any, select, is_some, length,
}
use cubingnow.Models.{
  Kind, RecordLevel, world, continental, national, CanonicalResult, ProcessedResult, Level, Outcome,
  broken, tied, Recognition, recognized, ValidationStatus,
}
use cubingnow.ResultValues.{decimal}
use cubingnow.RecordValidation.{level_text, Validation}
use cubingnow.Reconciliation.Rows.{new_pk, find_result}
use cubingnow.Classification.Rows.{Row, level_of, same_kind}
use cubingnow.Delivery.{DeliveryStatus, NotificationDelivery, NotificationEndpoint}
use cubingnow.Publication.Recipients.{NotificationType, NotificationPreference, eligible_endpoints}
use cubingnow.Publication.Payload.{
  Reference, Notice, RecordPayload, notification_type_of, build_record_payload,
}

pub record NotificationEvent : Type 0 where
  pub id : ℕ
  pub notification_type : NotificationType
  pub deduplication_key : Text
  pub payload : RecordPayload
  pub target_url : Text
  pub occurred_at : ℕ
  pub created_at : ℕ
  pub source_record : Option ℕ
  -- `processed_record_level`: the processed result and the level.
  pub processed_record_level : Option (ℕ × RecordLevel)
  pub correction_count : ℕ
  pub last_correction_at : Option ℕ

pub record Board : Type 0 where
  pub events : List NotificationEvent
  pub deliveries : List NotificationDelivery
  pub endpoints : List NotificationEndpoint
  pub preferences : List NotificationPreference

abbrev pub new_delivery : ℕ → ℕ → NotificationEvent → NotificationEndpoint → NotificationDelivery
new_delivery pk now event endpoint = record {
  pk = pk;
  event = event.id;
  endpoint = endpoint.pk;
  provider = endpoint.provider;
  status = DeliveryStatus.pending;
  attempt_count = 0;
  next_attempt_at = none;
  last_attempt_at = none;
  claimed_by = [];
  sent_at = none;
  last_error_code = [];
  last_error_message = [];
  provider_message_id = none;
  created_at = now;
}

-- The endpoints that an event goes to and has no delivery for.
abbrev pub is_missing : NotificationEvent → List NotificationDelivery → NotificationEndpoint → Bool
is_missing event deliveries e =
    leb e.activated_at event.created_at
    && not (any (λ d. (d.event == event.id) && (d.endpoint == e.pk)) deliveries)

-- `bulk_create`, whose keys follow one another from `pk`.
unfoldable pub new_deliveries :
    ℕ → ℕ → NotificationEvent → List NotificationEndpoint → List NotificationDelivery
new_deliveries pk now event [] = []
new_deliveries pk now event (e ∷ rest) =
    new_delivery pk now event e ∷ new_deliveries (suc pk) now event rest

unfoldable pub create_deliveries :
    ℕ
    → NotificationEvent
    → List NotificationEndpoint
    → List NotificationDelivery
    → List NotificationDelivery
unfolding new_deliveries
create_deliveries now event endpoints deliveries =
    deliveries
    ++ new_deliveries (new_pk (map (λ (d : NotificationDelivery). d.pk) deliveries)) now event
        (select (is_missing event deliveries) endpoints)

unfoldable pub find_event : Text → List NotificationEvent → Option NotificationEvent
unfolding text_eq
find_event key [] = none
find_event key (e ∷ rest) =
    let later = find_event key rest in if text_eq e.deduplication_key key then some e else later

unfoldable pub save_event : NotificationEvent → List NotificationEvent → List NotificationEvent
save_event event events = map (λ e. if e.id == event.id then event else e) events

-- `_event_domain_values(…) == _record_domain_values(…)`
unfoldable pub same_domain_values : RecordPayload → Notice → Bool
unfolding text_eq
same_domain_values payload notice =
    text_eq (level_text payload.record_level) (level_text notice.record_level)
    && text_eq payload.event_id notice.event_id
    && text_eq payload.formatted_result notice.formatted_result
    && text_eq payload.competitor_name notice.competitor_name
    && text_eq payload.country_code notice.country_code
    && text_eq payload.competition_name notice.competition_name
    && text_eq payload.competition_country_code notice.competition_country_code
    && same_kind payload.kind notice.kind

abbrev pub is_sent : NotificationEvent → NotificationDelivery → Bool
is_sent event d = (d.event == event.id) && elim d.status [ DeliveryStatus.sent ↦ true | _ ↦ false ]

abbrev pub source_of : Notice → Bool → Option ℕ
source_of notice test = if test then none else notice.pk

abbrev pub deduplication_key_of : Notice → Bool → Text
deduplication_key_of notice test =
    (if test then text "test" else text "record") ++ (text ":" ++ notice.canonical_key)

abbrev pub Published : Type 0
Published = Option (NotificationEvent × Bool × Board)

module _ (reference : Reference) (test : Bool) (chosen : Option (List NotificationEndpoint))
    (now : ℕ) (notice : Notice) (board : Board) where
  abbrev pub recipients : NotificationType → List NotificationEndpoint
  recipients type = elim chosen [
    | some endpoints ↦ endpoints
    | none ↦ eligible_endpoints type board.preferences board.endpoints
  ]

  abbrev pub candidate : NotificationType → RecordPayload → NotificationEvent
  candidate type payload = record {
    id = new_pk (map (λ (e : NotificationEvent). e.id) board.events);
    notification_type = type;
    deduplication_key = deduplication_key_of notice test;
    payload = payload;
    target_url = text "/";
    occurred_at = notice.detected_at;
    created_at = now;
    source_record = source_of notice test;
    processed_record_level = none;
    correction_count = 0;
    last_correction_at = none;
  }

  -- A new event and its deliveries.
  unfoldable pub created_event : NotificationType → NotificationEvent → Published
  unfolding create_deliveries eligible_endpoints
  created_event type event = some (
    event,
    true,
    record board {
      events = board.events ++ event ∷ [];
      deliveries = create_deliveries now event (recipients type) board.deliveries;
    },
  )

  unfoldable pub with_payload : NotificationEvent → Option RecordPayload → Published
  unfolding save_event
  with_payload event none = none
  with_payload event (some payload) =
      let corrected = record event { payload = payload; source_record = source_of notice test } in
      let saved =
        if any (is_sent event) board.deliveries
        then record corrected {
          correction_count = event.correction_count + 1;
          last_correction_at = some now;
        }
        else corrected in
      some (saved, false, record board { events = save_event saved board.events })

  -- An event with the key: its payload follows the record.
  unfoldable pub existing_event : NotificationEvent → Published
  unfolding same_domain_values with_payload build_record_payload
  existing_event event =
      if same_domain_values event.payload notice
      then some (event, false, board)
      else with_payload event (
          build_record_payload reference event.id event.notification_type event.deduplication_key
            event.occurred_at notice event.target_url test)

  unfoldable pub created_or_existing :
      NotificationType → RecordPayload → Option NotificationEvent → Published
  unfolding created_event existing_event
  created_or_existing type payload none = created_event type (candidate type payload)
  created_or_existing type payload (some event) = existing_event event

  unfoldable pub get_or_create_event : NotificationType → Option RecordPayload → Published
  unfolding find_event created_or_existing
  get_or_create_event type none = none
  get_or_create_event type (some payload) =
      created_or_existing type payload (find_event (deduplication_key_of notice test) board.events)

  unfoldable pub publish_as : Option NotificationType → Published
  unfolding get_or_create_event build_record_payload
  publish_as none = none
  publish_as (some type) = get_or_create_event type (
      build_record_payload reference (new_pk (map (λ (e : NotificationEvent). e.id) board.events))
        type (deduplication_key_of notice test) notice.detected_at notice (text "/") test)

  unfoldable pub publish_record_notification : Published
  unfolding publish_as
  publish_record_notification = publish_as (notification_type_of notice.record_level)
