-- ===== src/Publication/Events.antt =====
-- What publication does to the identifiers and keys of events.
use cubingnow.Prelude.{
  ℕ, ◌≤◌, true, false, Option, none, some, List, [], ◌∷◌, ◌++◌, map, Text, text_eq, text_eq_iff,
  ◌≡◌, ◌≢◌, refl, sym, ap, ◌∙◌, subst, inl, inr, arith, All, Bool-cases, if◌then◌else◌, ◌==◌,
}
use cubingnow.Reconciliation.Rows.{new_pk}
use cubingnow.Delivery.Places.{places, endpoint_pks}
use cubingnow.Publication.{NotificationEvent, Board, find_event, save_event}
use cubingnow.Publication.Unique.{Distinct}

abbrev pub ids : List NotificationEvent → List ℕ
ids events = map (λ (e : NotificationEvent). e.id) events

abbrev pub keys : List NotificationEvent → List Text
keys events = map (λ (e : NotificationEvent). e.deduplication_key) events

-- Events, their keys, endpoints, and deliveries of an event to an endpoint, each once.
pub record IsUnique (board : Board) : Type 0 where
  pub event_ids : Distinct (ids board.events)
  pub event_keys : Distinct (keys board.events)
  pub delivered_once : Distinct (places board.deliveries)
  pub endpoint_keys : Distinct (endpoint_pks board.endpoints)

pub new_pk-new : (ks : List ℕ) (n : ℕ) → new_pk ks ≤ n → All (λ k. n ≢ k) ks
unfolding new_pk
new_pk-new [] n h = tt
new_pk-new (k ∷ ks) n h =
    ((λ same. absurd (omega (arith, h, same))), new_pk-new ks n (omega (arith, h)))

pub keys-new :
    (key : Text) (events : List NotificationEvent)
    → find_event key events ≡ none
    → All (λ k. key ≢ k) (keys events)
unfolding find_event
keys-new key [] h = tt
keys-new key (e ∷ events) h = elim (Bool-cases (text_eq e.deduplication_key key)) [
  | inl b ↦ absurd (cc (subst (λ c. (if c then some e else find_event key events) ≡ none) b h))
  | inr b ↦ (
    λ same. absurd (cc (b, (text_eq_iff e.deduplication_key key).1 (sym same))),
    keys-new key events (subst (λ c. (if c then some e else find_event key events) ≡ none) b h),
  )
]

pub ids-append :
    (events : List NotificationEvent) (e : NotificationEvent)
    → ids (events ++ e ∷ []) ≡ ids events ++ e.id ∷ []
ids-append [] e = refl
ids-append (x ∷ events) e = ap (λ ks. x.id ∷ ks) (ids-append events e)

pub keys-append :
    (events : List NotificationEvent) (e : NotificationEvent)
    → keys (events ++ e ∷ []) ≡ keys events ++ e.deduplication_key ∷ []
keys-append [] e = refl
keys-append (x ∷ events) e = ap (λ ks. x.deduplication_key ∷ ks) (keys-append events e)

ids-save_event :
    (saved : NotificationEvent) (events : List NotificationEvent)
    → ids (save_event saved events) ≡ ids events
unfolding save_event
ids-save_event saved [] = refl
ids-save_event saved (e ∷ events) =
    let later = ids-save_event saved events in
    elim (Bool-cases (e.id == saved.id)) [
      | inl b ↦ let same : saved.id ≡ e.id = ground arith in rw (b, same, later) refl
      | inr b ↦ rw (b, later) refl
    ]

-- No event but the one that is found has its identifier.
found-id :
    (key : Text) (events : List NotificationEvent) (event : NotificationEvent) (k : ℕ)
    → find_event key events ≡ some event
    → All (λ i. i ≢ k) (ids events)
    → event.id ≢ k
unfolding find_event
found-id key [] event k h a same = absurd (cc h)
found-id key (e ∷ events) event k h a same = elim (Bool-cases (text_eq e.deduplication_key key)) [
  | inl b ↦
      let here : some e ≡ some event =
        subst (λ c. (if c then some e else find_event key events) ≡ some event) b h in
      a.0 (ap (λ (o : Option NotificationEvent). id_of o) here ∙ same)
  | inr b ↦
      found-id key events event k
        (subst (λ c. (if c then some e else find_event key events) ≡ some event) b h) a.1 same
]
  where
    id_of : Option NotificationEvent → ℕ
    id_of none = k
    id_of (some x) = x.id

save_event-other :
    (saved : NotificationEvent) (events : List NotificationEvent)
    → All (λ i. i ≢ saved.id) (ids events)
    → keys (save_event saved events) ≡ keys events
unfolding save_event
save_event-other saved [] a = refl
save_event-other saved (e ∷ events) a = elim (Bool-cases (e.id == saved.id)) [
  | inl b ↦ absurd (a.0 (ground arith))
  | inr b ↦ rw (b, save_event-other saved events a.1) refl
]

pub keys-save_event :
    (key : Text) (events : List NotificationEvent) (event saved : NotificationEvent)
    → Distinct (ids events)
    → find_event key events ≡ some event
    → saved.id ≡ event.id
    → saved.deduplication_key ≡ key
    → keys (save_event saved events) ≡ keys events
unfolding find_event save_event
keys-save_event key [] event saved d h i k = absurd (cc h)
keys-save_event key (e ∷ events) event saved d h i k =
    elim (Bool-cases (text_eq e.deduplication_key key)) [
      | inl b ↦
          let here : some e ≡ some event =
            subst (λ c. (if c then some e else find_event key events) ≡ some event) b h in
          let same : e.id ≡ event.id = ap (λ (o : Option NotificationEvent). id_of o) here in
          let own : (e.id == saved.id) ≡ true = ground arith in
          let name : saved.deduplication_key ≡ e.deduplication_key =
            k ∙ sym ((text_eq_iff e.deduplication_key key).0 b) in
          rw
            (
              own,
              name,
              save_event-other saved events
                  (subst (λ j. All (λ x. x ≢ j) (ids events)) (same ∙ sym i) d.0),
            )
            refl
      | inr b ↦
          let later : find_event key events ≡ some event =
            subst (λ c. (if c then some e else find_event key events) ≡ some event) b h in
          let other : (e.id == saved.id) ≡ false = elim (Bool-cases (e.id == saved.id)) [
            | inr n ↦ n
            | inl y ↦ absurd (found-id key events event e.id later d.0 (ground arith))
          ] in
          rw (other, keys-save_event key events event saved d.1 later i k) refl
    ]
  where
    id_of : Option NotificationEvent → ℕ
    id_of none = 0
    id_of (some x) = x.id

pub saved-IsUnique :
    (key : Text) (board : Board) (event saved : NotificationEvent)
    → IsUnique board
    → find_event key board.events ≡ some event
    → saved.id ≡ event.id
    → saved.deduplication_key ≡ key
    → IsUnique (record board { events = save_event saved board.events })
saved-IsUnique key board event saved u found i k = record {
  event_ids = subst Distinct (sym (ids-save_event saved board.events)) u.event_ids;
  event_keys =
      subst Distinct (sym (keys-save_event key board.events event saved u.event_ids found i k))
        u.event_keys;
  delivered_once = u.delivered_once;
  endpoint_keys = u.endpoint_keys;
}
