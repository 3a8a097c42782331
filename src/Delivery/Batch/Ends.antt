-- ===== src/Delivery/Batch/Ends.antt =====
-- A batch ends with none of its deliveries in progress.
use cubingnow.Prelude.{
  ℕ, Bool, true, false, not, ◌&&◌, Option, none, some, List, [], ◌∷◌, Text, ◌≡◌, refl, sym, ap, ◌∙◌,
  subst, inl, inr, arith, All-map, Bool-cases, if◌then◌else◌, ◌==◌,
}
use cubingnow.Delivery.{
  NotificationDelivery, Outbox, Policy, DeliveryResult, DeliveryOutcome, success, transient_failure,
  permanent_endpoint_failure, application_failure, is_sending, is_open, change_where,
  schedule_retry, delivered, given_up, deliveries_after, recorded, find_delivery,
  record_delivery_result, cancelled_row, inactive, checked, check_claimed, sent_result,
  process_claimed_delivery,
}
use cubingnow.Delivery.Final.{find-here, find-later}
use cubingnow.Delivery.Batch.Done.{
  IsDone, UniquePks, change_where-IsDone, changed-IsDone, change_where-UniquePks,
  cancelled_row-Settles, Finds, find_delivery-Finds, retry-Settles, delivered-Settles,
  given_up-Settles, after-IsDone, after-own,
}

-- What a transaction for a key does to the rows.
pub record Finished (worker : Text) (pk : ℕ) (rows rows' : List NotificationDelivery) : Type 0 where
  pub unique : UniquePks rows'
  pub keeps : (k : ℕ) → IsDone worker rows k → IsDone worker rows' k
  pub own : IsDone worker rows' pk

-- A key whose row is not there, or not being processed, needs nothing.
unsent-Finished :
    (worker : Text) (pk : ℕ) (found : Option NotificationDelivery)
    (rows : List NotificationDelivery)
    → UniquePks rows
    → Finds found pk rows
    → ((d : NotificationDelivery) → found ≡ some d → is_sending d ≡ false)
    → Finished worker pk rows rows
unsent-Finished worker pk found rows u finds idle = record {
  unique = u;
  keeps = λ k h. h;
  own =
      All-map _ _ rows
        (λ r named same. elim (Bool-cases (is_sending r)) [
          | inl b ↦ absurd (cc (b, idle r (named same)))
          | inr b ↦ rw b refl
        ])
        finds;
}

abbrev sends_of : Option NotificationDelivery → Bool
sends_of none = false
sends_of (some x) = is_sending x

same_row :
    (d r : NotificationDelivery) → some d ≡ some r → (d.endpoint ≡ r.endpoint) × (d.pk ≡ r.pk)
same_row d r e = (
  ap (λ (o : Option NotificationDelivery). place_of o) e,
  ap (λ (o : Option NotificationDelivery). key_of o) e,
)
  where
    place_of : Option NotificationDelivery → ℕ
    place_of none = 0
    place_of (some x) = x.endpoint

    key_of : Option NotificationDelivery → ℕ
    key_of none = 0
    key_of (some x) = x.pk

after-UniquePks :
    (policy : Policy) (now : ℕ) (result : DeliveryResult) (d : NotificationDelivery)
    (outcome : DeliveryOutcome) (rows : List NotificationDelivery)
    → UniquePks rows
    → UniquePks (deliveries_after policy now result d outcome rows)
unfolding deliveries_after
after-UniquePks policy now result d success rows =
    change_where-UniquePks (λ r. r.pk == d.pk) (delivered now result) rows
      (delivered-Settles policy now result).key
after-UniquePks policy now result d transient_failure rows =
    change_where-UniquePks (λ r. r.pk == d.pk) (schedule_retry policy now result) rows
      (retry-Settles policy now result).key
after-UniquePks policy now result d application_failure rows =
    change_where-UniquePks (λ r. r.pk == d.pk) (schedule_retry policy now result) rows
      (retry-Settles policy now result).key
after-UniquePks policy now result d permanent_endpoint_failure rows =
    change_where-UniquePks (λ r. (r.endpoint == d.endpoint) && is_open r) (given_up result) rows
      (given_up-Settles policy now result).key

-- Where the check sends, it has changed nothing.
checked-box :
    (box : Outbox) (found : Option NotificationDelivery)
    → (checked found box).0 ≡ true
    → (checked found box).1 ≡ box
unfolding checked
checked-box box none = λ h. absurd (cc h)
checked-box box (some d) = go (is_sending d) (inactive d.endpoint box.endpoints)
  where
    go :
        (sends gone : Bool)
        → (let out : Bool × Outbox =
              if not sends
              then (false, box)
              else if gone
              then (
                false,
                record box {
                  deliveries =
                      change_where
                        (λ r. (r.pk == d.pk) && is_sending r)
                        cancelled_row
                        box.deliveries;
                },
              )
              else (true, box) in
            out.0 ≡ true → out.1 ≡ box)
    go false gone h = absurd (cc h)
    go true true h = absurd (cc h)
    go true false h = refl

module _ (worker : Text) (pk : ℕ) (box : Outbox) (u : UniquePks box.deliveries) where
  checked-Finished :
      (found : Option NotificationDelivery)
      → Finds found pk box.deliveries
      → (checked found box).0 ≡ false
      → Finished worker pk box.deliveries (checked found box).1.deliveries
  unfolding checked
  checked-Finished none finds =
      λ shut. unsent-Finished worker pk none box.deliveries u finds (λ d e. absurd (cc e))
  checked-Finished (some d) finds = go (is_sending d) (inactive d.endpoint box.endpoints) refl
    where
      go :
          (sends gone : Bool)
          → is_sending d ≡ sends
          → (let out : Bool × Outbox =
                if not sends
                then (false, box)
                else if gone
                then (
                  false,
                  record box {
                    deliveries =
                        change_where
                          (λ r. (r.pk == d.pk) && is_sending r)
                          cancelled_row
                          box.deliveries;
                  },
                )
                else (true, box) in
              out.0 ≡ false → Finished worker pk box.deliveries out.1.deliveries)
      go false gone idle shut =
          unsent-Finished worker pk (some d) box.deliveries u finds
            (λ r e. subst (λ (o : Option NotificationDelivery). sends_of o ≡ false) e idle)
      go true false busy_now shut = absurd (cc shut)
      go true true busy_now shut = record {
        unique =
            change_where-UniquePks (λ r. (r.pk == d.pk) && is_sending r) cancelled_row
              box.deliveries (λ r. cancelled_row-Settles.key r) u;
        keeps = λ k.
            change_where-IsDone worker (λ r. (r.pk == d.pk) && is_sending r) cancelled_row
              cancelled_row-Settles k box.deliveries;
        own =
            changed-IsDone worker (λ r. (r.pk == d.pk) && is_sending r) cancelled_row
              cancelled_row-Settles pk box.deliveries
              (All-map _ _ box.deliveries
                (λ r named same b. let k = (same_row d r (named same)).1 in ground arith) finds);
      }

  recorded-Finished :
      (policy : Policy) (now : ℕ) (result : DeliveryResult) (found : Option NotificationDelivery)
      → Finds found pk box.deliveries
      → ((d : NotificationDelivery) → found ≡ some d → d.pk ≡ pk)
      → Finished worker pk box.deliveries (recorded policy now result found box).deliveries
  recorded-Finished policy now result none finds key_is =
      unsent-Finished worker pk none box.deliveries u finds (λ d e. absurd (cc e))
  recorded-Finished policy now result (some d) finds key_is = elim (Bool-cases (is_sending d)) [
    | inr idle ↦ rw idle (
        unsent-Finished worker pk (some d) box.deliveries u finds
          (λ r e. subst (λ (o : Option NotificationDelivery). sends_of o ≡ false) e idle))
    | inl busy_now ↦ rw busy_now (record {
      unique = after-UniquePks policy now result d result.outcome box.deliveries u;
      keeps = λ k. after-IsDone worker policy now result k d result.outcome box.deliveries;
      own =
          subst (IsDone worker (deliveries_after policy now result d result.outcome box.deliveries))
            (key_is d refl)
            (after-own worker policy now result d result.outcome box.deliveries (
              All-map _ _ box.deliveries
                (λ r named same. (same_row d r (named (same ∙ key_is d refl))).0) finds));
    })
  ]

  find_delivery-key :
      (rows : List NotificationDelivery) (d : NotificationDelivery)
      → find_delivery pk rows ≡ some d
      → d.pk ≡ pk
  find_delivery-key [] d e = absurd (unfold find_delivery in cc e)
  find_delivery-key (x ∷ rows) d e = elim (Bool-cases (x.pk == pk)) [
    | inl h ↦ let same = (same_row x d (sym (find-here pk x rows h) ∙ e)).1 in ground arith
    | inr h ↦ find_delivery-key rows d (sym (find-later pk x rows h) ∙ e)
  ]

  pub process-Finished :
      (policy : Policy) (now : ℕ) (answer : Option DeliveryResult)
      → Finished worker pk box.deliveries
          (process_claimed_delivery policy now pk answer box).deliveries
  unfolding process_claimed_delivery check_claimed record_delivery_result
  process-Finished policy now answer =
      let finds = find_delivery-Finds pk box.deliveries u in
      go (checked (find_delivery pk box.deliveries) box)
        (λ shut. checked-Finished (find_delivery pk box.deliveries) finds shut)
        (checked-box box (find_delivery pk box.deliveries))
    where
      go :
          (out : Bool × Outbox)
          → (out.0 ≡ false → Finished worker pk box.deliveries out.1.deliveries)
          → (out.0 ≡ true → out.1 ≡ box)
          → (let next : Outbox =
                if out.0
                then record_delivery_result policy now pk (sent_result answer) out.1
                else out.1 in
              Finished worker pk box.deliveries next.deliveries)
      go (false, after) shut opened = shut refl
      go (true, after) shut opened =
          subst
            (λ (b : Outbox).
              Finished worker pk box.deliveries
                (record_delivery_result policy now pk (sent_result answer) b).deliveries)
            (sym (opened refl))
            (recorded-Finished policy now (sent_result answer) (find_delivery pk box.deliveries)
              (find_delivery-Finds pk box.deliveries u) (λ d. find_delivery-key box.deliveries d))
