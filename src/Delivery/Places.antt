-- ===== src/Delivery/Places.antt =====
-- No transaction on deliveries changes for which event and endpoint they are, nor the endpoints' keys.
use cubingnow.Prelude.{
  ℕ, Bool, ◌&&◌, Option, none, some, List, [], ◌∷◌, map, text_eq, ◌≡◌, refl, inl, inr, Bool-cases,
  if◌then◌else◌, ◌==◌, leb,
}
use cubingnow.Delivery.{
  NotificationDelivery, NotificationEndpoint, Outbox, Policy, DeliveryResult, DeliveryOutcome,
  success, transient_failure, permanent_endpoint_failure, application_failure, change_where,
  claimed_delivery, claim_due_deliveries, delivered, given_up, schedule_retry, deliveries_after,
  recorded, record_delivery_result, find_delivery, is_sending, checked, check_claimed,
  cancelled_row, inactive, released, release_claimed_deliveries, endpoint_after, among, due_keys,
  is_due, is_open,
}
use cubingnow.Delivery.Final.{Step, claim, check, answer, release}

-- What a transaction on deliveries leaves as it is.
abbrev pub place : NotificationDelivery → ℕ × ℕ
place d = (d.event, d.endpoint)

abbrev pub places : List NotificationDelivery → List (ℕ × ℕ)
places rows = map place rows

abbrev pub endpoint_pks : List NotificationEndpoint → List ℕ
endpoint_pks endpoints = map (λ (e : NotificationEndpoint). e.pk) endpoints

abbrev Kept : Outbox → Outbox → Type 0
Kept box box' =
    (places box'.deliveries ≡ places box.deliveries)
    × (endpoint_pks box'.endpoints ≡ endpoint_pks box.endpoints)

places-change_where :
    (p : NotificationDelivery → Bool) (f : NotificationDelivery → NotificationDelivery)
    (rows : List NotificationDelivery)
    → ((d : NotificationDelivery) → place (f d) ≡ place d)
    → places (change_where p f rows) ≡ places rows
unfolding change_where
places-change_where p f [] h = refl
places-change_where p f (d ∷ rows) h =
    let later = places-change_where p f rows h in
    elim (Bool-cases (p d)) [ inl e ↦ rw (e, h d, later) refl | inr e ↦ rw (e, later) refl ]

endpoint_pks-map :
    (p : NotificationEndpoint → Bool) (f : NotificationEndpoint → NotificationEndpoint)
    (es : List NotificationEndpoint)
    → ((e : NotificationEndpoint) → (f e).pk ≡ e.pk)
    → endpoint_pks (map (λ e. if p e then f e else e) es) ≡ endpoint_pks es
endpoint_pks-map p f [] h = refl
endpoint_pks-map p f (e ∷ es) h =
    let later = endpoint_pks-map p f es h in
    elim (Bool-cases (p e)) [ inl b ↦ rw (b, h e, later) refl | inr b ↦ rw (b, later) refl ]

module _ (policy : Policy) (now : ℕ) (result : DeliveryResult) where
  place-schedule_retry :
      (d : NotificationDelivery) → place (schedule_retry policy now result d) ≡ place d
  unfolding schedule_retry
  place-schedule_retry d = elim (Bool-cases (leb policy.max_attempts d.attempt_count)) [
    | inl e ↦ rw e refl
    | inr e ↦ rw e refl
  ]

  places-deliveries_after :
      (d : NotificationDelivery) (outcome : DeliveryOutcome) (rows : List NotificationDelivery)
      → places (deliveries_after policy now result d outcome rows) ≡ places rows
  unfolding deliveries_after delivered given_up
  places-deliveries_after d success rows =
      places-change_where (λ r. r.pk == d.pk) (delivered now result) rows (λ r. refl)
  places-deliveries_after d permanent_endpoint_failure rows =
      places-change_where (λ r. (r.endpoint == d.endpoint) && is_open r) (given_up result) rows
        (λ r. refl)
  places-deliveries_after d transient_failure rows =
      places-change_where (λ r. r.pk == d.pk) (schedule_retry policy now result) rows
        place-schedule_retry
  places-deliveries_after d application_failure rows =
      places-change_where (λ r. r.pk == d.pk) (schedule_retry policy now result) rows
        place-schedule_retry

  pk-endpoint_after : (e : NotificationEndpoint) → (endpoint_after now result e).pk ≡ e.pk
  unfolding endpoint_after
  pk-endpoint_after e = go result.outcome refl
    where
      go :
          (outcome : DeliveryOutcome)
          → result.outcome ≡ outcome
          → (endpoint_after now result e).pk ≡ e.pk
      go success h = rw h refl
      go permanent_endpoint_failure h = rw h refl
      go transient_failure h = rw h refl
      go application_failure h = rw h refl

  recorded-Kept :
      (found : Option NotificationDelivery) (box : Outbox)
      → Kept box (recorded policy now result found box)
  recorded-Kept none box = (refl, refl)
  recorded-Kept (some d) box = elim (Bool-cases (is_sending d)) [
    | inr idle ↦ rw idle (refl, refl)
    | inl busy ↦ rw busy (
      places-deliveries_after d result.outcome box.deliveries,
      endpoint_pks-map (λ e. e.pk == d.endpoint) (endpoint_after now result) box.endpoints
          pk-endpoint_after,
    )
  ]

checked-Kept : (found : Option NotificationDelivery) (box : Outbox) → Kept box (checked found box).1
unfolding checked cancelled_row
checked-Kept none box = (refl, refl)
checked-Kept (some d) box = elim (Bool-cases (is_sending d)) [
  | inr idle ↦ rw idle (refl, refl)
  | inl busy ↦ elim (Bool-cases (inactive d.endpoint box.endpoints)) [
    | inr on ↦ rw (busy, on) (refl, refl)
    | inl off ↦
        rw (busy, off)
          (
            places-change_where (λ r. (r.pk == d.pk) && is_sending r) cancelled_row box.deliveries
                (λ r. refl),
            refl,
          )
  ]
]

pub Step-Kept : {box box' : Outbox} → Step box box' → Kept box box'
unfolding claim_due_deliveries claimed_delivery check_claimed record_delivery_result released
    release_claimed_deliveries
Step-Kept {box = box} (claim policy now worker) = (
  places-change_where (λ d. is_due policy now d && among (due_keys policy now box) d)
      (claimed_delivery now worker) box.deliveries (λ r. refl),
  refl,
)
Step-Kept {box = box} (check pk) = checked-Kept (find_delivery pk box.deliveries) box
Step-Kept {box = box} (answer policy now pk result) =
    recorded-Kept policy now result (find_delivery pk box.deliveries) box
Step-Kept {box = box} (release now pks worker) = (
  places-change_where (λ d. among pks d && is_sending d && text_eq d.claimed_by worker)
      (released now) box.deliveries (λ r. refl),
  refl,
)
