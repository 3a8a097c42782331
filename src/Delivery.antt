-- ===== src/Delivery.antt =====
-- backend/apps/notifications/services.py, the delivery of notifications: claims, results, retries,
-- cancellation and release. Each function is one transaction; a call of the provider stands between
-- `check_claimed` and `record_delivery_result`. Moments are microseconds, settings are seconds.
mod Tests
pub mod Final
pub mod Places
pub mod Batch
pub mod Retry
use cubingnow.Prelude.{
  ℕ, suc, ◌+◌, ◌-◌, ◌*◌, min, max, Bool, true, false, not, ◌&&◌, ◌||◌, Option, none, some, List, [],
  ◌∷◌, map, Text, text, text_eq, or_text, leb, ltb, ◌==◌, if◌then◌else◌, length, take, get_or, any,
  select,
}
use cubingnow.Work.{second}

pub data DeliveryStatus : Type 0 where
  pending processing retry sent permanently_failed cancelled : DeliveryStatus

pub record NotificationDelivery : Type 0 where
  pub pk : ℕ
  pub event : ℕ
  pub endpoint : ℕ
  pub provider : Text
  pub status : DeliveryStatus
  pub attempt_count : ℕ
  pub next_attempt_at : Option ℕ
  pub last_attempt_at : Option ℕ
  pub claimed_by : Text
  pub sent_at : Option ℕ
  pub last_error_code : Text
  pub last_error_message : Text
  pub provider_message_id : Option Text
  pub created_at : ℕ

-- `NotificationEndpoint`, and whether it has a `WebPushSubscription`; the token of the views is left out.
pub record NotificationEndpoint : Type 0 where
  pub pk : ℕ
  pub provider : Text
  pub user : Option ℕ
  pub has_webpush_subscription : Bool
  pub active : Bool
  pub activated_at : ℕ
  pub last_success_at : Option ℕ
  pub last_failure_at : Option ℕ
  pub consecutive_failure_count : ℕ
  pub deactivated_at : Option ℕ
  pub deactivation_reason : Text

pub data DeliveryOutcome : Type 0 where
  success transient_failure permanent_endpoint_failure application_failure : DeliveryOutcome

pub record DeliveryResult : Type 0 where
  pub outcome : DeliveryOutcome
  pub error_code : Text
  pub error_message : Text
  pub retry_at : Option ℕ
  pub provider_message_id : Option Text

pub record Outbox : Type 0 where
  pub deliveries : List NotificationDelivery
  pub endpoints : List NotificationEndpoint

-- The settings, and `random.uniform(0.8, 1.2)` times a number of seconds, as `draw`, in microseconds.
pub record Policy : Type 0 where
  pub max_attempts : ℕ
  pub retry_schedule : List ℕ
  pub claim_timeout : ℕ
  pub batch_size : ℕ
  pub provider_name : Text
  pub draw : ℕ → ℕ

abbrev pub is_sending : NotificationDelivery → Bool
is_sending d = elim d.status [ DeliveryStatus.processing ↦ true | _ ↦ false ]

-- `status__in=[PENDING, RETRY, PROCESSING]`
abbrev pub is_open : NotificationDelivery → Bool
is_open d = elim d.status [
  | DeliveryStatus.pending ↦ true
  | DeliveryStatus.retry ↦ true
  | DeliveryStatus.processing ↦ true
  | _ ↦ false
]

abbrev reached : ℕ → Option ℕ → Bool
reached now none = false
reached now (some t) = leb t now

abbrev not_before : ℕ → Option ℕ → Bool
not_before now none = true
not_before now (some t) = leb t now

-- `due`
unfoldable pub is_due : Policy → ℕ → NotificationDelivery → Bool
unfolding text_eq
is_due policy now d = text_eq d.provider policy.provider_name && elim d.status [
  | DeliveryStatus.pending ↦ not_before now d.next_attempt_at
  | DeliveryStatus.retry ↦ not_before now d.next_attempt_at
  | DeliveryStatus.processing ↦ reached (now - policy.claim_timeout * second) d.last_attempt_at
  | _ ↦ false
]

abbrev pub sooner : NotificationDelivery → NotificationDelivery → Bool
sooner a b = ltb a.created_at b.created_at || ((a.created_at == b.created_at) && ltb a.pk b.pk)

-- `order_by("created_at", "pk")`
unfoldable pub insert_sooner :
    NotificationDelivery → List NotificationDelivery → List NotificationDelivery
insert_sooner d [] = d ∷ []
insert_sooner d (e ∷ rest) =
    let later = insert_sooner d rest in if sooner e d then e ∷ later else d ∷ e ∷ rest

unfoldable pub in_order : List NotificationDelivery → List NotificationDelivery
unfolding insert_sooner
in_order [] = []
in_order (d ∷ rest) = insert_sooner d (in_order rest)

unfoldable pub change_where :
    (NotificationDelivery → Bool)
    → (NotificationDelivery → NotificationDelivery)
    → List NotificationDelivery
    → List NotificationDelivery
change_where p f [] = []
change_where p f (d ∷ rest) = (if p d then f d else d) ∷ change_where p f rest

abbrev pub among : List ℕ → NotificationDelivery → Bool
among pks d = any (λ k. k == d.pk) pks

unfoldable pub claimed_delivery : ℕ → Text → NotificationDelivery → NotificationDelivery
claimed_delivery now worker d = record d {
  status = DeliveryStatus.processing;
  attempt_count = d.attempt_count + 1;
  last_attempt_at = some now;
  claimed_by = worker;
}

unfoldable pub due_keys : Policy → ℕ → Outbox → List ℕ
unfolding in_order is_due
due_keys policy now box =
    map (λ d. d.pk) (take policy.batch_size (in_order (select (is_due policy now) box.deliveries)))

-- `claim_due_deliveries`: the rows that the query locked are saved one by one.
unfoldable pub claim_due_deliveries : Policy → ℕ → Text → Outbox → List ℕ × Outbox
unfolding due_keys claimed_delivery change_where is_due
claim_due_deliveries policy now worker box =
    let keys = due_keys policy now box in
    (
      keys,
      record box {
        deliveries =
            change_where (λ d. is_due policy now d && among keys d) (claimed_delivery now worker)
              box.deliveries;
      },
    )

-- `_retry_delay`
unfoldable pub retry_delay : Policy → ℕ → ℕ
retry_delay policy attempt_count =
    let schedule : List ℕ = elim policy.retry_schedule [ [] ↦ 60 ∷ [] | s ∷ rest ↦ s ∷ rest ] in
    max second (policy.draw (get_or schedule (min (attempt_count - 1) (length schedule - 1)) 60))

abbrev from_option : Option ℕ → ℕ → Option ℕ
from_option (some t) d = some t
from_option none d = some d

-- `_schedule_retry`
unfoldable pub schedule_retry :
    Policy → ℕ → DeliveryResult → NotificationDelivery → NotificationDelivery
unfolding retry_delay
schedule_retry policy now result d =
    if leb policy.max_attempts d.attempt_count
    then record d {
      status = DeliveryStatus.permanently_failed;
      next_attempt_at = none;
      claimed_by = [];
      last_error_code = text "maximum_attempts";
      last_error_message = text "Maximum delivery attempts reached";
    }
    else record d {
      status = DeliveryStatus.retry;
      next_attempt_at = from_option result.retry_at (now + retry_delay policy d.attempt_count);
      claimed_by = [];
      last_error_code = result.error_code;
      last_error_message = take 255 result.error_message;
    }

unfoldable pub delivered : ℕ → DeliveryResult → NotificationDelivery → NotificationDelivery
delivered now result d = record d {
  status = DeliveryStatus.sent;
  sent_at = some now;
  next_attempt_at = none;
  claimed_by = [];
  last_error_code = [];
  last_error_message = [];
  provider_message_id = result.provider_message_id;
}

unfoldable pub given_up : DeliveryResult → NotificationDelivery → NotificationDelivery
given_up result d = record d {
  status = DeliveryStatus.permanently_failed;
  next_attempt_at = none;
  claimed_by = [];
  last_error_code = result.error_code;
  last_error_message = take 255 result.error_message;
}

-- The deliveries after a result of this outcome for the row `d`.
unfoldable pub deliveries_after :
    Policy
    → ℕ
    → DeliveryResult
    → NotificationDelivery
    → DeliveryOutcome
    → List NotificationDelivery
    → List NotificationDelivery
unfolding change_where schedule_retry delivered given_up
deliveries_after policy now result d success rows =
    change_where (λ r. r.pk == d.pk) (delivered now result) rows
deliveries_after policy now result d permanent_endpoint_failure rows =
    change_where (λ r. (r.endpoint == d.endpoint) && is_open r) (given_up result) rows
deliveries_after policy now result d transient_failure rows =
    change_where (λ r. r.pk == d.pk) (schedule_retry policy now result) rows
deliveries_after policy now result d application_failure rows =
    change_where (λ r. r.pk == d.pk) (schedule_retry policy now result) rows

-- The endpoint after a result.
unfoldable pub endpoint_after : ℕ → DeliveryResult → NotificationEndpoint → NotificationEndpoint
endpoint_after now result e = elim result.outcome [
  | success ↦ record e { last_success_at = some now; consecutive_failure_count = 0 }
  | permanent_endpoint_failure ↦ record e {
    last_failure_at = some now;
    consecutive_failure_count = e.consecutive_failure_count + 1;
    active = false;
    deactivated_at = some now;
    deactivation_reason = or_text result.error_code (text "invalid_endpoint");
  }
  | _ ↦ record e {
    last_failure_at = some now;
    consecutive_failure_count = e.consecutive_failure_count + 1;
  }
]

unfoldable pub find_delivery : ℕ → List NotificationDelivery → Option NotificationDelivery
find_delivery pk [] = none
find_delivery pk (d ∷ rest) =
    let later = find_delivery pk rest in if d.pk == pk then some d else later

abbrev pub recorded : Policy → ℕ → DeliveryResult → Option NotificationDelivery → Outbox → Outbox
recorded policy now result none box = box
recorded policy now result (some d) box = if not (is_sending d) then box else record {
  deliveries = deliveries_after policy now result d result.outcome box.deliveries;
  endpoints =
      map (λ e. if e.pk == d.endpoint then endpoint_after now result e else e) box.endpoints;
}

-- `_record_delivery_result`
unfoldable pub record_delivery_result : Policy → ℕ → ℕ → DeliveryResult → Outbox → Outbox
unfolding deliveries_after endpoint_after find_delivery
record_delivery_result policy now pk result box =
    recorded policy now result (find_delivery pk box.deliveries) box

unfoldable pub cancelled_row : NotificationDelivery → NotificationDelivery
cancelled_row d = record d {
  status = DeliveryStatus.cancelled;
  next_attempt_at = none;
  claimed_by = [];
  last_error_code = text "endpoint_inactive";
  last_error_message = text "Endpoint was inactive before delivery";
}

abbrev pub inactive : ℕ → List NotificationEndpoint → Bool
inactive pk endpoints = any (λ e. (e.pk == pk) && not e.active) endpoints

unfoldable pub checked : Option NotificationDelivery → Outbox → Bool × Outbox
unfolding cancelled_row change_where
checked none box = (false, box)
checked (some d) box =
    if not (is_sending d)
    then (false, box)
    else if inactive d.endpoint box.endpoints
    then (
      false,
      record box {
        deliveries =
            change_where (λ r. (r.pk == d.pk) && is_sending r) cancelled_row box.deliveries;
      },
    )
    else (true, box)

-- `process_claimed_delivery` up to the provider's call, which it makes on `true`.
unfoldable pub check_claimed : ℕ → Outbox → Bool × Outbox
unfolding find_delivery checked
check_claimed pk box = checked (find_delivery pk box.deliveries) box

-- What `provider.send` gave; `none` is an exception.
unfoldable pub sent_result : Option DeliveryResult → DeliveryResult
sent_result (some result) = result
sent_result none = record {
  outcome = application_failure;
  error_code = text "provider_internal_error";
  error_message = text "Notification provider failed unexpectedly";
  retry_at = none;
  provider_message_id = none;
}

-- `process_claimed_delivery`, with no other transaction between its two.
unfoldable pub process_claimed_delivery : Policy → ℕ → ℕ → Option DeliveryResult → Outbox → Outbox
unfolding check_claimed record_delivery_result sent_result
process_claimed_delivery policy now pk answer box =
    let (send, box') = check_claimed pk box in
    if send then record_delivery_result policy now pk (sent_result answer) box' else box'

unfoldable pub released : ℕ → NotificationDelivery → NotificationDelivery
released now d = record d {
  status = DeliveryStatus.retry;
  attempt_count = d.attempt_count - 1;
  next_attempt_at = some now;
  last_attempt_at = none;
  claimed_by = [];
}

-- `release_claimed_deliveries`
unfoldable pub release_claimed_deliveries : ℕ → List ℕ → Text → Outbox → Outbox
unfolding change_where released text_eq
release_claimed_deliveries now pks worker box = record box {
  deliveries =
      change_where (λ d. among pks d && is_sending d && text_eq d.claimed_by worker) (released now)
        box.deliveries;
}
