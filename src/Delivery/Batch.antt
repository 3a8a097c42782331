-- ===== src/Delivery/Batch.antt =====
-- backend/apps/notifications/services.py, `process_due_batch`: the claimed deliveries one by one, until
-- the worker is told to stop. `stops` and `answers` say, for each delivery, whether `should_stop` is true
-- before it and what the provider answers; no other transaction comes between.
pub mod Done
pub mod Ends
pub mod Idle
use cubingnow.Prelude.{
  ℕ, suc, ◌+◌, Bool, true, false, not, ◌&&◌, ◌||◌, Option, none, some, List, [], ◌∷◌, Text, text_eq,
  ◌≡◌, ◌≢◌, refl, sym, ap, ◌∙◌, subst, ◌⊎◌, inl, inr, arith, All, All-map, Bool-cases,
  if◌then◌else◌, ◌==◌, any, leb,
}
use cubingnow.Delivery.{
  NotificationDelivery, NotificationEndpoint, DeliveryStatus, Outbox, Policy, DeliveryResult,
  DeliveryOutcome, success, transient_failure, permanent_endpoint_failure, application_failure,
  is_sending, is_open, among, change_where, claimed_delivery, due_keys, is_due,
  claim_due_deliveries, schedule_retry, delivered, given_up, deliveries_after, recorded,
  find_delivery, record_delivery_result, cancelled_row, inactive, checked, check_claimed,
  sent_result, process_claimed_delivery, released, release_claimed_deliveries,
}

-- The loop: how many were processed, and the tables.
unfoldable pub process_batch :
    Policy → ℕ → Text → (ℕ → Bool) → (ℕ → Option DeliveryResult) → ℕ → List ℕ → Outbox → ℕ × Outbox
unfolding process_claimed_delivery release_claimed_deliveries
process_batch policy now worker stops answers processed [] box = (processed, box)
process_batch policy now worker stops answers processed (pk ∷ pks) box =
    let rest =
      process_batch policy now worker stops answers (processed + 1) pks
        (process_claimed_delivery policy now pk (answers pk) box) in
    if stops pk then (processed, release_claimed_deliveries now (pk ∷ pks) worker box) else rest

unfoldable pub process_due_batch :
    Policy → ℕ → Text → (ℕ → Bool) → (ℕ → Option DeliveryResult) → Outbox → ℕ × Outbox
unfolding claim_due_deliveries process_batch
process_due_batch policy now worker stops answers box =
    let (pks, claimed) = claim_due_deliveries policy now worker box in
    process_batch policy now worker stops answers 0 pks claimed
