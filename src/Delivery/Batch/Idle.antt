-- ===== src/Delivery/Batch/Idle.antt =====
-- No delivery that a batch claimed is still in progress behind it.
use cubingnow.Prelude.{
  ℕ, ◌+◌, Bool, true, false, ◌&&◌, Option, List, [], ◌∷◌, Text, text_eq, ◌≡◌, refl, sym, ap, subst,
  inl, inr, arith, All, Bool-cases, if◌then◌else◌, ◌==◌, any,
}
use cubingnow.Delivery.{
  NotificationDelivery, Outbox, Policy, DeliveryResult, is_sending, among, change_where,
  claimed_delivery, due_keys, is_due, claim_due_deliveries, process_claimed_delivery, released,
  release_claimed_deliveries,
}
use cubingnow.Delivery.Batch.{process_batch, process_due_batch}
use cubingnow.Delivery.Batch.Done.{
  IsDone, UniquePks, change_where-IsDone, changed-IsDone, change_where-UniquePks, released-Settles,
}
use cubingnow.Delivery.Batch.Ends.{process-Finished}

module _ (policy : Policy) (now : ℕ) (worker : Text) (stops : ℕ → Bool)
    (answers : ℕ → Option DeliveryResult) where
  abbrev batch : ℕ → List ℕ → Outbox → Outbox
  batch processed pks box = (process_batch policy now worker stops answers processed pks box).1

  batch-stop :
      (processed pk : ℕ) (pks : List ℕ) (box : Outbox)
      → stops pk ≡ true
      → batch processed (pk ∷ pks) box ≡ release_claimed_deliveries now (pk ∷ pks) worker box
  unfolding process_batch
  batch-stop processed pk pks box stop =
      ap
        (λ (b : Bool).
          (if b
            then (processed, release_claimed_deliveries now (pk ∷ pks) worker box)
            else process_batch policy now worker stops answers (processed + 1) pks
                (process_claimed_delivery policy now pk (answers pk) box)).1)
        stop

  batch-next :
      (processed pk : ℕ) (pks : List ℕ) (box : Outbox)
      → stops pk ≡ false
      → batch processed (pk ∷ pks) box
        ≡ batch (processed + 1) pks (process_claimed_delivery policy now pk (answers pk) box)
  unfolding process_batch
  batch-next processed pk pks box on =
      ap
        (λ (b : Bool).
          (if b
            then (processed, release_claimed_deliveries now (pk ∷ pks) worker box)
            else process_batch policy now worker stops answers (processed + 1) pks
                (process_claimed_delivery policy now pk (answers pk) box)).1)
        on

  among-here :
      (k : ℕ) (pks : List ℕ) (r : NotificationDelivery) → r.pk ≡ k → among (k ∷ pks) r ≡ true
  among-here k pks r same = ground arith

  -- A release ends what the keys name.
  released-IsDone :
      (k : ℕ) (pks : List ℕ) (rows : List NotificationDelivery)
      → ((r : NotificationDelivery) → r.pk ≡ k → among pks r ≡ true)
      → IsDone worker
          (change_where
            (λ d. among pks d && is_sending d && text_eq d.claimed_by worker)
            (released now)
            rows)
          k
  released-IsDone k pks rows named =
      changed-IsDone worker (λ d. among pks d && is_sending d && text_eq d.claimed_by worker)
        (released now) (released-Settles now) k rows (every rows)
    where
      every :
          (xs : List NotificationDelivery)
          → All
              (λ (r : NotificationDelivery).
                (r.pk ≡ k)
                → (is_sending r && text_eq r.claimed_by worker) ≡ true
                → (among pks r && is_sending r && text_eq r.claimed_by worker) ≡ true)
              xs
      every [] = tt
      every (x ∷ xs) = ((λ same b. let n = named x same in ground arith), every xs)

  batch-keeps :
      (processed : ℕ) (pks : List ℕ) (box : Outbox) (k : ℕ)
      → UniquePks box.deliveries
      → IsDone worker box.deliveries k
      → IsDone worker (batch processed pks box).deliveries k
  unfolding process_batch release_claimed_deliveries
  batch-keeps processed [] box k u h = h
  batch-keeps processed (pk ∷ pks) box k u h =
      let step = process-Finished worker pk box u policy now (answers pk) in
      let next = process_claimed_delivery policy now pk (answers pk) box in
      elim (Bool-cases (stops pk)) [
        | inl stop ↦
            subst (λ (b : Outbox). IsDone worker b.deliveries k)
              (sym (batch-stop processed pk pks box stop))
              (change_where-IsDone worker
                (λ d. among (pk ∷ pks) d && is_sending d && text_eq d.claimed_by worker)
                (released now) (released-Settles now) k box.deliveries h)
        | inr on ↦
            subst (λ (b : Outbox). IsDone worker b.deliveries k)
              (sym (batch-next processed pk pks box on))
              (batch-keeps (processed + 1) pks next k step.unique (step.keeps k h))
      ]

  batch-IsDone :
      (processed : ℕ) (pks : List ℕ) (box : Outbox)
      → UniquePks box.deliveries
      → All (IsDone worker (batch processed pks box).deliveries) pks
  unfolding process_batch release_claimed_deliveries
  batch-IsDone processed [] box u = tt
  batch-IsDone processed (pk ∷ pks) box u =
      let step = process-Finished worker pk box u policy now (answers pk) in
      let next = process_claimed_delivery policy now pk (answers pk) box in
      elim (Bool-cases (stops pk)) [
        | inl stop ↦
            subst (λ (b : Outbox). All (IsDone worker b.deliveries) (pk ∷ pks))
              (sym (batch-stop processed pk pks box stop)) (every (pk ∷ pks) (λ r k i. i))
        | inr on ↦
            subst (λ (b : Outbox). All (IsDone worker b.deliveries) (pk ∷ pks))
              (sym (batch-next processed pk pks box on))
              (
                batch-keeps (processed + 1) pks next pk step.unique step.own,
                batch-IsDone (processed + 1) pks next step.unique,
              )
      ]
    where
      every :
          (ks : List ℕ)
          → ((r : NotificationDelivery) (k : ℕ)
              → any (λ x. x == k) ks ≡ true
              → any (λ x. x == k) (pk ∷ pks) ≡ true)
          → All
              (IsDone worker (
                change_where
                  (λ d. among (pk ∷ pks) d && is_sending d && text_eq d.claimed_by worker)
                  (released now)
                  box.deliveries))
              ks
      every [] sub = tt
      every (k ∷ ks) sub = (
        released-IsDone k (pk ∷ pks) box.deliveries (λ r same. sub r r.pk (among-here k ks r same)),
        every ks (λ r j i. sub r j (ground arith)),
      )

  -- Where no two deliveries share a key, a batch ends, whether it is stopped on the way or not, and
  -- whatever the provider answers or raises, with none of the deliveries that it claimed still being
  -- processed for its worker.
  pub process_due_batch-IsDone :
      (box : Outbox)
      → UniquePks box.deliveries
      → All
          (IsDone worker (process_due_batch policy now worker stops answers box).1.deliveries)
          (due_keys policy now box)
  unfolding process_due_batch claim_due_deliveries claimed_delivery
  process_due_batch-IsDone box u =
      let claimed = (claim_due_deliveries policy now worker box).1 in
      batch-IsDone 0 (due_keys policy now box) claimed (
        change_where-UniquePks (λ d. is_due policy now d && among (due_keys policy now box) d)
          (claimed_delivery now worker) box.deliveries claimed-key u)
    where
      claimed-key : (d : NotificationDelivery) → (claimed_delivery now worker d).pk ≡ d.pk
      claimed-key d = refl
