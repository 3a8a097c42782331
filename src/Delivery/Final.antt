-- ===== src/Delivery/Final.antt =====
-- Deliveries that are sent, permanently failed or cancelled.
use cubingnow.Prelude.{
  ℕ, Bool, true, false, ◌&&◌, Option, none, some, List, [], ◌∷◌, Text, text_eq, ◌≡◌, refl, ◌∙◌,
  subst, inl, inr, arith, Exists, Bool-cases, ◌==◌,
}
use cubingnow.Delivery.{
  NotificationDelivery, DeliveryResult, DeliveryOutcome, success, transient_failure,
  permanent_endpoint_failure, application_failure, Outbox, Policy, is_sending, is_open, is_due,
  among, change_where, claimed_delivery, due_keys, claim_due_deliveries, schedule_retry, delivered,
  given_up, deliveries_after, recorded, record_delivery_result, find_delivery, cancelled_row,
  checked, check_claimed, released, release_claimed_deliveries, inactive,
}

abbrev pub InBox : NotificationDelivery → List NotificationDelivery → Type 0
InBox d rows = Exists (λ x. d ≡ x) rows

-- Sent, permanently failed or cancelled.
abbrev pub IsFinal : NotificationDelivery → Type 0
IsFinal d = is_open d ≡ false

abbrev pub HasUniqueKeys : List NotificationDelivery → Type 0
HasUniqueKeys rows =
    (a b : NotificationDelivery) → InBox a rows → InBox b rows → a.pk ≡ b.pk → a ≡ b

change_where-keeps :
    (p : NotificationDelivery → Bool) (f : NotificationDelivery → NotificationDelivery)
    (d : NotificationDelivery) (rows : List NotificationDelivery)
    → p d ≡ false
    → InBox d rows
    → InBox d (change_where p f rows)
unfolding change_where
change_where-keeps p f d [] h i = absurd i
change_where-keeps p f d (x ∷ rows) h (inl e) =
    let same : p x ≡ false = subst (λ (y : NotificationDelivery). p y ≡ false) e h in
    inl (e ∙ rw same refl)
change_where-keeps p f d (x ∷ rows) h (inr i) = inr (change_where-keeps p f d rows h i)

final_sending : (d : NotificationDelivery) → IsFinal d → is_sending d ≡ false
final_sending d h = ground arith

final_due :
    (policy : Policy) (now : ℕ) (d : NotificationDelivery) → IsFinal d → is_due policy now d ≡ false
unfolding is_due
final_due policy now d h = ground arith

and_left : (a b : Bool) → a ≡ false → (a && b) ≡ false
and_left a b h = ground arith

and_right : (a b : Bool) → b ≡ false → (a && b) ≡ false
and_right a b h = ground arith

pub find-here :
    (pk : ℕ) (x : NotificationDelivery) (rows : List NotificationDelivery)
    → (x.pk == pk) ≡ true
    → find_delivery pk (x ∷ rows) ≡ some x
unfolding find_delivery
find-here pk x rows h = rw h refl

pub find-later :
    (pk : ℕ) (x : NotificationDelivery) (rows : List NotificationDelivery)
    → (x.pk == pk) ≡ false
    → find_delivery pk (x ∷ rows) ≡ find_delivery pk rows
unfolding find_delivery
find-later pk x rows h = rw h refl

find-InBox :
    (pk : ℕ) (rows : List NotificationDelivery) (d : NotificationDelivery)
    → find_delivery pk rows ≡ some d
    → InBox d rows
find-InBox pk [] d e = absurd (unfold find_delivery in cc e)
find-InBox pk (x ∷ rows) d e = elim (Bool-cases (x.pk == pk)) [
  | inl h ↦ inl (cc (e, find-here pk x rows h))
  | inr h ↦ inr (find-InBox pk rows d (cc (e, find-later pk x rows h)))
]

-- A row that is not the final one `d`: their keys differ.
other_key :
    (d e : NotificationDelivery) (rows : List NotificationDelivery)
    → HasUniqueKeys rows
    → InBox d rows
    → InBox e rows
    → IsFinal d
    → is_sending e ≡ true
    → (d.pk == e.pk) ≡ false
other_key d e rows unique i j final busy = elim (Bool-cases (d.pk == e.pk)) [
  | inr h ↦ h
  | inl h ↦
      let same : d ≡ e = unique d e i j (ground arith) in
      let idle : is_sending e ≡ false =
        subst (λ (y : NotificationDelivery). is_sending y ≡ false) same (final_sending d final) in
      absurd (cc (busy, idle))
]

module _ (policy : Policy) (d : NotificationDelivery) where
  after-final :
      (now : ℕ) (result : DeliveryResult) (e : NotificationDelivery) (outcome : DeliveryOutcome)
      (rows : List NotificationDelivery)
      → IsFinal d
      → (d.pk == e.pk) ≡ false
      → InBox d rows
      → InBox d (deliveries_after policy now result e outcome rows)
  unfolding deliveries_after
  after-final now result e success rows final other i =
      change_where-keeps (λ r. r.pk == e.pk) (delivered now result) d rows other i
  after-final now result e transient_failure rows final other i =
      change_where-keeps (λ r. r.pk == e.pk) (schedule_retry policy now result) d rows other i
  after-final now result e application_failure rows final other i =
      change_where-keeps (λ r. r.pk == e.pk) (schedule_retry policy now result) d rows other i
  after-final now result e permanent_endpoint_failure rows final other i =
      change_where-keeps (λ r. (r.endpoint == e.endpoint) && is_open r) (given_up result) d rows
        (and_right (d.endpoint == e.endpoint) (is_open d) final) i

  recorded-final :
      (now : ℕ) (result : DeliveryResult) (found : Option NotificationDelivery) (box : Outbox)
      → ((e : NotificationDelivery) → found ≡ some e → InBox e box.deliveries)
      → HasUniqueKeys box.deliveries
      → IsFinal d
      → InBox d box.deliveries
      → InBox d (recorded policy now result found box).deliveries
  recorded-final now result none box here unique final i = i
  recorded-final now result (some e) box here unique final i = elim (Bool-cases (is_sending e)) [
    | inl busy ↦ rw busy (
        after-final now result e result.outcome box.deliveries final
          (other_key d e box.deliveries unique i (here e refl) final busy) i)
    | inr idle ↦ rw idle i
  ]

module _ (d : NotificationDelivery) where
  checked-final :
      (found : Option NotificationDelivery) (box : Outbox)
      → IsFinal d
      → InBox d box.deliveries
      → InBox d (checked found box).1.deliveries
  unfolding checked
  checked-final none box final i = i
  checked-final (some e) box final i = elim (Bool-cases (is_sending e)) [
    | inr idle ↦ rw idle i
    | inl busy ↦ elim (Bool-cases (inactive e.endpoint box.endpoints)) [
      | inr on ↦ rw (busy, on) i
      | inl off ↦
          rw (busy, off)
            (change_where-keeps (λ r. (r.pk == e.pk) && is_sending r) cancelled_row d box.deliveries
              (and_right (d.pk == e.pk) (is_sending d) (final_sending d final)) i)
    ]
  ]

-- The transactions on deliveries.
pub data Step (box : Outbox) : Outbox → Type 0 where
  claim :
      (policy : Policy) (now : ℕ) (worker : Text)
      → Step box (claim_due_deliveries policy now worker box).1
  check : (pk : ℕ) → Step box (check_claimed pk box).1
  answer :
      (policy : Policy) (now pk : ℕ) (result : DeliveryResult)
      → Step box (record_delivery_result policy now pk result box)
  release :
      (now : ℕ) (pks : List ℕ) (worker : Text)
      → Step box (release_claimed_deliveries now pks worker box)

-- Where no two deliveries share a key, no transaction changes or removes a delivery that is sent,
-- permanently failed or cancelled.
pub Step-final :
    {box box' : Outbox} (d : NotificationDelivery)
    → Step box box'
    → HasUniqueKeys box.deliveries
    → InBox d box.deliveries
    → IsFinal d
    → InBox d box'.deliveries
unfolding claim_due_deliveries check_claimed record_delivery_result release_claimed_deliveries
Step-final {box = box} d (claim policy now worker) unique i final =
    change_where-keeps (λ r. is_due policy now r && among (due_keys policy now box) r)
      (claimed_delivery now worker) d box.deliveries
      (and_left (is_due policy now d) (among (due_keys policy now box) d)
        (final_due policy now d final))
      i
Step-final {box = box} d (check pk) unique i final = checked-final d _ box final i
Step-final {box = box} d (answer policy now pk result) unique i final =
    recorded-final policy d now result _ box (find-InBox pk box.deliveries) unique final i
Step-final {box = box} d (release now pks worker) unique i final =
    change_where-keeps (λ r. among pks r && is_sending r && text_eq r.claimed_by worker)
      (released now) d box.deliveries
      (and_left (among pks d && is_sending d) (text_eq d.claimed_by worker)
        (and_right (among pks d) (is_sending d) (final_sending d final)))
      i
