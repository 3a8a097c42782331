-- ===== src/Publication/Tests.antt =====
-- A world record, published to one endpoint.
use cubingnow.Prelude.{pos, true, false, none, some, [], ◌∷◌, text, ◌≡◌, refl}
use cubingnow.Models.{
  single, RecordLevel, world, continental, national, verified, Facts, Status, CanonicalResult,
  Level, broken, recognized, blank,
}
use cubingnow.ResultValues.{decimal}
use cubingnow.Classification.Rows.{Row}
use cubingnow.Delivery.{NotificationEndpoint}
use cubingnow.Delivery.Final.{release}
use cubingnow.Delivery.{release_claimed_deliveries, Outbox}
use cubingnow.Publication.{
  NotificationEvent, Board, Published, candidate, publish_record_notification, publish_as,
  get_or_create_event, created_or_existing, created_event, find_event,
}
use cubingnow.Publication.Recipients.{
  record_wr, NotificationPreference, may_receive, of_user, of_endpoint,
}
use cubingnow.Publication.Payload.{
  Reference, Notice, RecordPayload, build_record_payload, payload_at, validate_relative_target_url,
}
use cubingnow.Publication.Processed.{publish_processed_result_after_commit, notice_of}
use cubingnow.Publication.Preferences.{preference_of, resolve, may_receive-eq-resolve}
use cubingnow.Publication.Once.{publish_record_notification-again}
use cubingnow.Publication.Events.{IsUnique}
use cubingnow.Publication.Widest.{TellsFirst, publish_processed_result_after_commit-TellsFirst}
use cubingnow.Reconciliation.Rows.{find_result, new_pk}
use cubingnow.Publication.Runs.{
  BoardRun, begin, then_step, announce, classified, deliver, BoardRun-IsUnique,
}

abbrev reference : Reference
reference = record {
  short_name = λ event. event;
  countries = λ code. none;
  urlsplit = λ url. ([], []);
  hexdigest = λ key. key;
  uuid_text = λ id. decimal id [];
  isoformat = λ at. decimal at [];
}

abbrev endpoint : NotificationEndpoint
endpoint = record {
  pk = 7;
  provider = text "webpush";
  user = none;
  has_webpush_subscription = true;
  active = true;
  activated_at = 0;
  last_success_at = none;
  last_failure_at = none;
  consecutive_failure_count = 0;
  deactivated_at = none;
  deactivation_reason = [];
}

abbrev muted : NotificationPreference
muted = record { endpoint = some 7; user = none; notification_type = record_wr; enabled = false }

may_receive-eq-resolve_example :
    may_receive record_wr (muted ∷ []) endpoint
    ≡ resolve
        (preference_of (of_user record_wr endpoint) (muted ∷ []))
        (preference_of (of_endpoint record_wr endpoint) (muted ∷ []))
        true
may_receive-eq-resolve_example =
    may_receive-eq-resolve record_wr (muted ∷ []) endpoint ((λ e. tt), tt) ((λ e. tt), tt)

abbrev empty : Board
empty = record { events = []; deliveries = []; endpoints = endpoint ∷ []; preferences = [] }

abbrev facts : Facts
facts = record {
  identity_key = text "wca|X2026";
  wca_competition_id = text "X2026";
  competition_name = text "X Open";
  competition_country_code = text "NL";
  competition_start_date = none;
  competition_end_date = none;
  competition_timezone = [];
  competition_local_date = some 739000;
  timezone_resolution_status = text "resolved";
  timezone_resolution_reason = [];
  round_id = text "r1";
  round_number = some 1;
  round_name = text "First round";
  event_id = text "333";
  event_name = text "3x3x3 Cube";
  competitor_name = text "A";
  competitor_wca_id = text "2010AAAA01";
  country_code = text "NL";
  kind = single;
  value = pos 305;
  formatted_result = text "3.05";
  entered_at = none;
  first_observed_at = 5;
  source_url = [];
  validation_status = verified;
  validation_reason = text "trusted_source_observation";
}

abbrev level : RecordLevel → Level
level which = record {
  record_level = which;
  record_scope = text "World";
  incumbent_value = some (pos 313);
  classification_outcome = broken;
  recognition_status = recognized;
  is_shared_tie = false;
  currently_holds = true;
  ceased_holding_reason = blank;
  ceased_holding_by = none;
  superseded_by = none;
}

abbrev row : Row
row = record {
  result = record {
    pk = 1;
    canonical_result = 4;
    canonical_revision = 1;
    facts = facts;
    last_observed_at = 5;
    canonical_status = Status.active;
    classification_at = 5;
    is_valid_result = true;
    invalidity_reason = [];
    replacement = none;
  };
  levels = record {
    world_level = level world;
    continental_level = level continental;
    national_level = level RecordLevel.national;
    personal_level = level RecordLevel.personal;
  };
}

abbrev head : CanonicalResult
head = record {
  pk = 4;
  facts = facts;
  identity_scope = none;
  last_observed_at = 5;
  status = Status.active;
  revision = 1;
  current_observation = none;
}

abbrev notice : Notice
notice = notice_of row.result world

abbrev payload : RecordPayload
payload = record {
  notification_event_id = text "1";
  notification_type = record_wr;
  title = text "333 WR single: 3.05";
  body = text "By A from NL at X Open in NL";
  target_url = text "/";
  tag = text "record:record:processed:4:1:WR";
  icon = text "/notification_icons/notification_icon_WR.png";
  record_level = world;
  event_id = text "333";
  formatted_result = text "3.05";
  kind = single;
  competitor_name = text "A";
  country_code = text "NL";
  competition_name = text "X Open";
  competition_country_code = text "NL";
  detected_at = text "5";
}

abbrev sample : NotificationEvent
sample = candidate reference false none 10 notice empty record_wr payload

abbrev event_of : Published → NotificationEvent
event_of none = sample
event_of (some (e, created, after)) = e

abbrev after_of : Published → Board
after_of none = empty
after_of (some (e, created, after)) = after

abbrev once : Published
once = publish_record_notification reference false none 10 notice empty

once_published : once ≡ some (event_of once, true, after_of once)
unfolding publish_record_notification publish_as notice_of build_record_payload
    validate_relative_target_url payload_at get_or_create_event find_event created_or_existing
    created_event
once_published = refl

no_venue : notice.venue_country ≡ []
unfolding notice_of
no_venue = refl

publish_record_notification-again_example :
    publish_record_notification reference false none 20 notice (after_of once)
    ≡ some (event_of once, false, after_of once)
publish_record_notification-again_example =
    publish_record_notification-again reference false none notice no_venue 10 20 empty
      (event_of once) true (after_of once) once_published

empty-IsUnique : IsUnique empty
empty-IsUnique = record {
  event_ids = tt;
  event_keys = tt;
  delivered_once = tt;
  endpoint_keys = (tt, tt);
}

abbrev first_board : Board
first_board = publish_processed_result_after_commit reference 10 (head ∷ []) [] row empty

abbrev second_board : Board
second_board = publish_processed_result_after_commit reference 20 (head ∷ []) [] row first_board

abbrev box : Outbox
box =
    release_claimed_deliveries 30 (1 ∷ []) (text "w")
      (record { deliveries = second_board.deliveries; endpoints = second_board.endpoints })

abbrev third_board : Board
third_board = record second_board { deliveries = box.deliveries; endpoints = box.endpoints }

third-Run : BoardRun empty third_board
third-Run =
    then_step
      (then_step (then_step begin (classified reference 10 (head ∷ []) [] row))
        (classified reference 20 (head ∷ []) [] row))
      (deliver box (release 30 (1 ∷ []) (text "w")))

-- A test notification to the active endpoints.
abbrev tried : Published
tried = publish_record_notification reference true (some (endpoint ∷ [])) 40 notice third_board

tried_published : tried ≡ some (event_of tried, true, after_of tried)
unfolding publish_record_notification publish_as notice_of build_record_payload
    validate_relative_target_url payload_at get_or_create_event find_event created_or_existing
    created_event publish_processed_result_after_commit new_pk
tried_published = refl

fourth-Run : BoardRun empty (after_of tried)
unfolding release_claimed_deliveries publish_processed_result_after_commit new_pk
fourth-Run = then_step third-Run (
    announce reference true (some (λ e. e.active)) 40 notice (event_of tried) true (after_of tried)
      tried_published)

BoardRun-IsUnique_example : IsUnique (after_of tried)
BoardRun-IsUnique_example = BoardRun-IsUnique fourth-Run empty-IsUnique

head_found : find_result 4 (head ∷ []) ≡ some head
unfolding find_result
head_found = refl

publish_processed_result_after_commit-TellsFirst_example :
    TellsFirst reference 10
      (head ∷ [])
      []
      row
      empty
      head
      (world ∷ continental ∷ national ∷ [])
      first_board
publish_processed_result_after_commit-TellsFirst_example =
    publish_processed_result_after_commit-TellsFirst reference 10 (head ∷ []) [] row empty head
      empty-IsUnique head_found
