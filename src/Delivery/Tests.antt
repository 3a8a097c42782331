-- ===== src/Delivery/Tests.antt =====
-- Concrete deliveries.
use cubingnow.Prelude.{
  ℕ, ◌*◌, ◌+◌, ◌≤◌, max, true, false, All, none, some, [], ◌∷◌, text, ◌≡◌, refl, sym, ap, ◌∙◌, inl,
  inr, arith,
}
use cubingnow.Delivery.{
  NotificationDelivery, NotificationEndpoint, DeliveryStatus, DeliveryResult,
  permanent_endpoint_failure, Outbox, Policy, record_delivery_result, is_due, due_keys, in_order,
  insert_sooner,
}
use cubingnow.Work.{second}
use cubingnow.Delivery.{sent_result, schedule_retry}
use cubingnow.Delivery.Retry.{schedule_retry-bounds}
use cubingnow.Delivery.Batch.{process_due_batch}
use cubingnow.Delivery.Batch.Done.{IsDone, UniquePks}
use cubingnow.Delivery.Batch.Idle.{process_due_batch-IsDone}
use cubingnow.Delivery.Final.{InBox, HasUniqueKeys, answer, Step-final}

abbrev policy : Policy
policy = record {
  max_attempts = 5;
  retry_schedule = 60 ∷ 300 ∷ [];
  claim_timeout = 300;
  batch_size = 50;
  provider_name = text "webpush";
  draw = λ seconds. seconds * 1000000;
}

abbrev delivery : ℕ → DeliveryStatus → NotificationDelivery
delivery pk status = record {
  pk = pk;
  event = pk;
  endpoint = 7;
  provider = text "webpush";
  status = status;
  attempt_count = 1;
  next_attempt_at = none;
  last_attempt_at = some 5;
  claimed_by = [];
  sent_at = none;
  last_error_code = [];
  last_error_message = [];
  provider_message_id = none;
  created_at = 3;
}

abbrev endpoint : NotificationEndpoint
endpoint = record {
  pk = 7;
  provider = text "webpush";
  user = none;
  has_webpush_subscription = true;
  active = true;
  activated_at = 0;
  last_success_at = none;
  last_failure_at = none;
  consecutive_failure_count = 0;
  deactivated_at = none;
  deactivation_reason = [];
}

abbrev box : Outbox
box = record {
  deliveries =
      delivery 1 DeliveryStatus.sent
      ∷ delivery 2 DeliveryStatus.processing
      ∷ delivery 3 DeliveryStatus.pending
      ∷ [];
  endpoints = endpoint ∷ [];
}

abbrev gone : DeliveryResult
gone = record {
  outcome = permanent_endpoint_failure;
  error_code = text "410";
  error_message = text "Gone";
  retry_at = none;
  provider_message_id = none;
}

-- Only the pending row is due.
due_now : due_keys policy 10 box ≡ 3 ∷ []
unfolding due_keys in_order insert_sooner is_due
due_now = refl

key : NotificationDelivery → ℕ
key d = d.pk

box-HasUniqueKeys : HasUniqueKeys box.deliveries
unfolding key
box-HasUniqueKeys a b i j e = unique i j
  where
    same : (x y : NotificationDelivery) → a ≡ x → b ≡ y → key x ≡ key y
    same x y p q = sym (ap key p) ∙ e ∙ ap key q

    unique : InBox a box.deliveries → InBox b box.deliveries → a ≡ b
    unique (inl p) (inl q) = p ∙ sym q
    unique (inr (inl p)) (inr (inl q)) = p ∙ sym q
    unique (inr (inr (inl p))) (inr (inr (inl q))) = p ∙ sym q
    unique (inl p) (inr (inl q)) = absurd (omega (arith, same _ _ p q))
    unique (inl p) (inr (inr (inl q))) = absurd (omega (arith, same _ _ p q))
    unique (inr (inl p)) (inl q) = absurd (omega (arith, same _ _ p q))
    unique (inr (inl p)) (inr (inr (inl q))) = absurd (omega (arith, same _ _ p q))
    unique (inr (inr (inl p))) (inl q) = absurd (omega (arith, same _ _ p q))
    unique (inr (inr (inl p))) (inr (inl q)) = absurd (omega (arith, same _ _ p q))
    unique (inr (inr (inr x))) j' = absurd x
    unique i' (inr (inr (inr x))) = absurd x

Step-final_example :
    InBox (delivery 1 DeliveryStatus.sent) (record_delivery_result policy 20 2 gone box).deliveries
Step-final_example =
    Step-final (delivery 1 DeliveryStatus.sent) (answer policy 20 2 gone) box-HasUniqueKeys
      (inl refl) refl

box-UniquePks : UniquePks box.deliveries
box-UniquePks =
    (((λ e. ground arith), ((λ e. ground arith), tt)), (((λ e. ground arith), tt), (tt, tt)))

process_due_batch-IsDone_example :
    All
      (IsDone
        (text "w")
        (process_due_batch policy 20 (text "w") (λ pk. false) (λ pk. some gone) box).1.deliveries)
      (due_keys policy 20 box)
process_due_batch-IsDone_example =
    process_due_batch-IsDone policy 20 (text "w") (λ pk. false) (λ pk. some gone) box box-UniquePks

abbrev unanswered : DeliveryResult
unanswered = sent_result none

abbrev failing : NotificationDelivery
failing = delivery 2 DeliveryStatus.processing

schedule_retry-bounds_example :
    (t : ℕ) × ((schedule_retry policy 20 unanswered failing).next_attempt_at ≡ some t)
    × (20 + second ≤ t)
    × (t ≤ 20 + max second (300 * 1200000))
unfolding sent_result
schedule_retry-bounds_example =
    schedule_retry-bounds policy 300 (λ s. omega arith) ((omega arith), ((omega arith), tt))
      (omega arith) 20 unanswered failing refl (omega arith)
