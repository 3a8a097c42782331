-- ===== src/Delivery/Batch/Done.antt =====
-- What a batch leaves of the deliveries that it claimed.
use cubingnow.Prelude.{
  ℕ, Bool, true, false, ◌&&◌, Option, some, List, [], ◌∷◌, Text, text_eq, ◌≡◌, ◌≢◌, refl, sym, ◌∙◌,
  subst, inl, inr, arith, All, All-map, Bool-cases, ◌==◌, leb,
}
use cubingnow.Delivery.{
  NotificationDelivery, Policy, DeliveryResult, DeliveryOutcome, success, transient_failure,
  permanent_endpoint_failure, application_failure, is_sending, is_open, change_where,
  schedule_retry, delivered, given_up, deliveries_after, find_delivery, cancelled_row, released,
}
use cubingnow.Delivery.Final.{find-here, find-later}

-- The delivery of a key is not being processed for the worker.
abbrev busy : Text → NotificationDelivery → Bool
busy worker d = is_sending d && text_eq d.claimed_by worker

abbrev pub IsDone : Text → List NotificationDelivery → ℕ → Type 0
IsDone worker rows k =
    All (λ r. (r.pk ≡ k) → (is_sending r && text_eq r.claimed_by worker) ≡ false) rows

-- No two rows share a key.
abbrev pub UniquePks : List NotificationDelivery → Type 0
UniquePks [] = Unit
UniquePks (d ∷ rows) = All (λ (x : NotificationDelivery). x.pk ≢ d.pk) rows × UniquePks rows

-- A change after which a row is not being processed.
pub record Settles (f : NotificationDelivery → NotificationDelivery) : Type 0 where
  pub key : (d : NotificationDelivery) → (f d).pk ≡ d.pk
  pub idle : (d : NotificationDelivery) → is_sending (f d) ≡ false

module _ (worker : Text) (p : NotificationDelivery → Bool)
    (f : NotificationDelivery → NotificationDelivery) (settles : Settles f) where
  idle-IsDone :
      (d : NotificationDelivery) → (is_sending (f d) && text_eq (f d).claimed_by worker) ≡ false
  idle-IsDone d = rw (settles.idle d) refl

  -- It leaves done what is done, and what it changes.
  pub change_where-IsDone :
      (k : ℕ) (rows : List NotificationDelivery)
      → IsDone worker rows k
      → IsDone worker (change_where p f rows) k
  unfolding change_where
  change_where-IsDone k [] h = tt
  change_where-IsDone k (d ∷ rows) h = elim (Bool-cases (p d)) [
    | inl e ↦ rw e ((λ same. idle-IsDone d), change_where-IsDone k rows h.1)
    | inr e ↦ rw e (h.0, change_where-IsDone k rows h.1)
  ]

  pub changed-IsDone :
      (k : ℕ) (rows : List NotificationDelivery)
      → All
          (λ r. (r.pk ≡ k) → (is_sending r && text_eq r.claimed_by worker) ≡ true → p r ≡ true)
          rows
      → IsDone worker (change_where p f rows) k
  unfolding change_where
  changed-IsDone k [] h = tt
  changed-IsDone k (d ∷ rows) h = elim (Bool-cases (p d)) [
    | inl e ↦ rw e ((λ same. idle-IsDone d), changed-IsDone k rows h.1)
    | inr e ↦ rw e (
      λ same. elim (Bool-cases (is_sending d && text_eq d.claimed_by worker)) [
        | inr idle ↦ idle
        | inl at_work ↦ absurd (cc (e, h.0 same at_work))
      ],
      changed-IsDone k rows h.1,
    )
  ]

pub change_where-UniquePks :
    (p : NotificationDelivery → Bool) (f : NotificationDelivery → NotificationDelivery)
    (rows : List NotificationDelivery)
    → ((d : NotificationDelivery) → (f d).pk ≡ d.pk)
    → UniquePks rows
    → UniquePks (change_where p f rows)
unfolding change_where
change_where-UniquePks p f [] same_key h = tt
change_where-UniquePks p f (d ∷ rows) same_key h = elim (Bool-cases (p d)) [
  | inl e ↦ rw e (
    subst (λ k. All (λ (x : NotificationDelivery). x.pk ≢ k) (change_where p f rows))
        (sym (same_key d)) (others d.pk rows h.0),
    change_where-UniquePks p f rows same_key h.1,
  )
  | inr e ↦ rw e (others d.pk rows h.0, change_where-UniquePks p f rows same_key h.1)
]
  where
    others :
        (k : ℕ) (xs : List NotificationDelivery)
        → All (λ (x : NotificationDelivery). x.pk ≢ k) xs
        → All (λ (x : NotificationDelivery). x.pk ≢ k) (change_where p f xs)
    others k [] a = tt
    others k (x ∷ xs) a = elim (Bool-cases (p x)) [
      | inl e ↦ rw e ((λ same. a.0 (sym (same_key x) ∙ same)), others k xs a.1)
      | inr e ↦ rw e (a.0, others k xs a.1)
    ]

module _ (policy : Policy) (now : ℕ) (result : DeliveryResult) where
  pub retry-Settles : Settles (schedule_retry policy now result)
  unfolding schedule_retry
  retry-Settles = record {
    key = λ d. elim (Bool-cases (leb policy.max_attempts d.attempt_count)) [
      | inl e ↦ rw e refl
      | inr e ↦ rw e refl
    ];
    idle = λ d. elim (Bool-cases (leb policy.max_attempts d.attempt_count)) [
      | inl e ↦ rw e refl
      | inr e ↦ rw e refl
    ];
  }

  pub delivered-Settles : Settles (delivered now result)
  unfolding delivered
  delivered-Settles = record { key = λ d. refl; idle = λ d. refl }

  pub given_up-Settles : Settles (given_up result)
  unfolding given_up
  given_up-Settles = record { key = λ d. refl; idle = λ d. refl }

pub cancelled_row-Settles : Settles cancelled_row
unfolding cancelled_row
cancelled_row-Settles = record { key = λ d. refl; idle = λ d. refl }

pub released-Settles : (now : ℕ) → Settles (released now)
unfolding released
released-Settles now = record { key = λ d. refl; idle = λ d. refl }

-- The row that a key finds is the only one with the key.
abbrev pub Finds : Option NotificationDelivery → ℕ → List NotificationDelivery → Type 0
Finds found pk rows = All (λ (r : NotificationDelivery). (r.pk ≡ pk) → found ≡ some r) rows

pub find_delivery-Finds :
    (pk : ℕ) (rows : List NotificationDelivery)
    → UniquePks rows
    → Finds (find_delivery pk rows) pk rows
find_delivery-Finds pk [] u = tt
find_delivery-Finds pk (d ∷ rows) u = elim (Bool-cases (d.pk == pk)) [
  | inl e ↦
      subst (λ found. Finds found pk (d ∷ rows)) (sym (find-here pk d rows e))
        (
          λ same. refl,
          All-map (λ (x : NotificationDelivery). x.pk ≢ d.pk) (λ r. (r.pk ≡ pk) → some d ≡ some r)
              rows (λ r other same. absurd (other (ground arith))) u.0,
        )
  | inr e ↦
      subst (λ found. Finds found pk (d ∷ rows)) (sym (find-later pk d rows e))
        ((λ same. absurd (ground arith)), find_delivery-Finds pk rows u.1)
]

pub busy-open :
    (r : NotificationDelivery) (b : Bool) → (is_sending r && b) ≡ true → is_open r ≡ true
busy-open r b h = ground arith

module _ (worker : Text) (policy : Policy) (now : ℕ) (result : DeliveryResult) where
  -- The deliveries after a result for `d`.
  pub after-IsDone :
      (k : ℕ) (d : NotificationDelivery) (outcome : DeliveryOutcome)
      (rows : List NotificationDelivery)
      → IsDone worker rows k
      → IsDone worker (deliveries_after policy now result d outcome rows) k
  unfolding deliveries_after
  after-IsDone k d success rows =
      change_where-IsDone worker (λ r. r.pk == d.pk) (delivered now result)
        (delivered-Settles policy now result) k rows
  after-IsDone k d transient_failure rows =
      change_where-IsDone worker (λ r. r.pk == d.pk) (schedule_retry policy now result)
        (retry-Settles policy now result) k rows
  after-IsDone k d application_failure rows =
      change_where-IsDone worker (λ r. r.pk == d.pk) (schedule_retry policy now result)
        (retry-Settles policy now result) k rows
  after-IsDone k d permanent_endpoint_failure rows =
      change_where-IsDone worker (λ r. (r.endpoint == d.endpoint) && is_open r) (given_up result)
        (given_up-Settles policy now result) k rows

  pub after-own :
      (d : NotificationDelivery) (outcome : DeliveryOutcome) (rows : List NotificationDelivery)
      → All (λ (r : NotificationDelivery). (r.pk ≡ d.pk) → d.endpoint ≡ r.endpoint) rows
      → IsDone worker (deliveries_after policy now result d outcome rows) d.pk
  unfolding deliveries_after
  after-own d success rows h =
      changed-IsDone worker (λ r. r.pk == d.pk) (delivered now result)
        (delivered-Settles policy now result) d.pk rows
        (All-map _ _ rows (λ r e same b. ground arith) h)
  after-own d transient_failure rows h =
      changed-IsDone worker (λ r. r.pk == d.pk) (schedule_retry policy now result)
        (retry-Settles policy now result) d.pk rows
        (All-map _ _ rows (λ r e same b. ground arith) h)
  after-own d application_failure rows h =
      changed-IsDone worker (λ r. r.pk == d.pk) (schedule_retry policy now result)
        (retry-Settles policy now result) d.pk rows
        (All-map _ _ rows (λ r e same b. ground arith) h)
  after-own d permanent_endpoint_failure rows h =
      changed-IsDone worker (λ r. (r.endpoint == d.endpoint) && is_open r) (given_up result)
        (given_up-Settles policy now result) d.pk rows
        (All-map _ _ rows
          (λ r e same b.
            let place = e same in
            let opened = busy-open r (text_eq r.claimed_by worker) b in ground arith)
          h)
