-- ===== src/Publication/Once.antt =====
-- A second publication of the same record.
use cubingnow.Prelude.{
  ℕ, Bool, true, false, Option, none, some, List, [], ◌∷◌, ◌++◌, Text, text, text_eq, text_eq_iff,
  or_text, ◌≡◌, refl, sym, ap, ◌∙◌, subst, inl, inr, arith, Bool-cases, if◌then◌else◌, ◌==◌, any,
}
use cubingnow.Models.{Kind, single, average}
use cubingnow.RecordValidation.{level_text}
use cubingnow.Classification.Rows.{same_kind}
use cubingnow.Delivery.{NotificationEndpoint}
use cubingnow.Publication.{
  NotificationEvent, Board, Published, find_event, save_event, same_domain_values, created_event,
  created_or_existing, publish_as, with_payload, existing_event, get_or_create_event,
  publish_record_notification, deduplication_key_of, is_sent,
}
use cubingnow.Publication.Recipients.{NotificationType}
use cubingnow.Publication.Payload.{
  Reference, Notice, RecordPayload, payload_at, notification_type_of, build_record_payload,
  validate_relative_target_url, competition_country,
}

text_eq-same : (s : Text) → text_eq s s ≡ true
text_eq-same s = (text_eq_iff s s).1 refl

same_kind-same : (k : Kind) → same_kind k k ≡ true
same_kind-same single = refl
same_kind-same average = refl

or_text-none : (s : Text) → or_text s [] ≡ s
or_text-none [] = refl
or_text-none (c ∷ s) = refl

-- Events with one key.
find_event-append :
    (key : Text) (events : List NotificationEvent) (event : NotificationEvent)
    → find_event key events ≡ none
    → event.deduplication_key ≡ key
    → find_event key (events ++ event ∷ []) ≡ some event
unfolding find_event
find_event-append key [] event h same = rw ((text_eq_iff event.deduplication_key key).1 same) refl
find_event-append key (e ∷ events) event h same =
    elim (Bool-cases (text_eq e.deduplication_key key)) [
      | inl b ↦ absurd (cc (subst (λ c. (if c then some e else find_event key events) ≡ none) b h))
      | inr b ↦
          let later : find_event key events ≡ none =
            subst (λ c. (if c then some e else find_event key events) ≡ none) b h in
          rw b (find_event-append key events event later same)
    ]

pub find_event-save_event :
    (key : Text) (events : List NotificationEvent) (event saved : NotificationEvent)
    → find_event key events ≡ some event
    → saved.id ≡ event.id
    → saved.deduplication_key ≡ key
    → find_event key (save_event saved events) ≡ some saved
unfolding find_event save_event
find_event-save_event key [] event saved h i k = absurd (cc h)
find_event-save_event key (e ∷ events) event saved h i k =
    let named = (text_eq_iff saved.deduplication_key key).1 k in
    elim (Bool-cases (e.id == saved.id)) [
      | inl same ↦ rw (same, named) refl
      | inr other ↦ elim (Bool-cases (text_eq e.deduplication_key key)) [
        | inl b ↦
            let here : some e ≡ some event =
              subst (λ c. (if c then some e else find_event key events) ≡ some event) b h in
            let ids : e.id ≡ event.id = ap (λ (o : Option NotificationEvent). id_of o) here in
            absurd (ground arith)
        | inr b ↦
            let later : find_event key events ≡ some event =
              subst (λ c. (if c then some e else find_event key events) ≡ some event) b h in
            rw (other, b) (find_event-save_event key events event saved later i k)
      ]
    ]
  where
    id_of : Option NotificationEvent → ℕ
    id_of none = 0
    id_of (some x) = x.id

pub find_event-key :
    (key : Text) (events : List NotificationEvent) (event : NotificationEvent)
    → find_event key events ≡ some event
    → event.deduplication_key ≡ key
unfolding find_event
find_event-key key [] event h = absurd (cc h)
find_event-key key (e ∷ events) event h = elim (Bool-cases (text_eq e.deduplication_key key)) [
  | inl b ↦
      let here : some e ≡ some event =
        subst (λ c. (if c then some e else find_event key events) ≡ some event) b h in
      ap (λ (o : Option NotificationEvent). key_of o) (sym here)
      ∙ (text_eq_iff e.deduplication_key key).0 b
  | inr b ↦
      find_event-key key events event
        (subst (λ c. (if c then some e else find_event key events) ≡ some event) b h)
]
  where
    key_of : Option NotificationEvent → Text
    key_of none = key
    key_of (some x) = x.deduplication_key

-- A payload that is built for a notice has its values.
abbrev Describes : Notice → Option RecordPayload → Type 0
Describes notice none = Unit
Describes notice (some payload) = same_domain_values payload notice ≡ true

module _ (reference : Reference) (type : NotificationType) (notice : Notice) (test : Bool) where
  payload_at-Describes :
      (id : ℕ) (key : Text) (at : ℕ) (target : Option Text)
      → notice.venue_country ≡ []
      → Describes notice (payload_at reference id type key at notice test target)
  unfolding payload_at same_domain_values
  payload_at-Describes id key at none no_venue = tt
  payload_at-Describes id key at (some target) no_venue =
      let place : competition_country reference notice ≡ notice.competition_country_code =
        ap (λ v. or_text notice.competition_country_code v) no_venue
        ∙ or_text-none notice.competition_country_code in
      rw
        (
          place,
          text_eq-same (level_text notice.record_level),
          text_eq-same notice.event_id,
          text_eq-same notice.formatted_result,
          text_eq-same notice.competitor_name,
          text_eq-same notice.country_code,
          text_eq-same notice.competition_name,
          text_eq-same notice.competition_country_code,
          same_kind-same notice.kind,
        )
        refl

  build-Describes :
      (id : ℕ) (key : Text) (at : ℕ) (url : Text)
      → notice.venue_country ≡ []
      → Describes notice (build_record_payload reference id type key at notice url test)
  unfolding build_record_payload
  build-Describes id key at url no_venue =
      payload_at-Describes id key at (validate_relative_target_url reference.urlsplit url) no_venue

  -- Whether there is a payload does not depend on the event.
  abbrev IsSome : Option RecordPayload → Type 0
  IsSome o = (p : RecordPayload) × (o ≡ some p)

  payload_at-IsSome :
      (id id' : ℕ) (key : Text) (at : ℕ) (target : Option Text) (p : RecordPayload)
      → payload_at reference id type key at notice test target ≡ some p
      → IsSome (payload_at reference id' type key at notice test target)
  unfolding payload_at
  payload_at-IsSome id id' key at none p h = absurd (cc h)
  payload_at-IsSome id id' key at (some target) p h = (_, refl)

module _ (reference : Reference) (test : Bool) (chosen : Option (List NotificationEndpoint))
    (notice : Notice) (no_venue : notice.venue_country ≡ []) where
  abbrev key : Text
  key = deduplication_key_of notice test

  -- The event that a publication gives is found by its key, and its payload has the notice's values.
  abbrev pub IsFound : Published → Type 0
  IsFound none = Unit
  IsFound (some (e, created, after)) =
      (find_event key after.events ≡ some e) × (same_domain_values e.payload notice ≡ true)

  module _ (now : ℕ) (board : Board) where
    with_payload-IsFound :
        (event : NotificationEvent) (payload : Option RecordPayload)
        → find_event key board.events ≡ some event
        → Describes notice payload
        → IsFound (with_payload reference test chosen now notice board event payload)
    unfolding with_payload
    with_payload-IsFound event none found d = tt
    with_payload-IsFound event (some payload) found d =
        let same = find_event-key key board.events event found in
        elim (Bool-cases (any (is_sent event) board.deliveries)) [
          | inl sent ↦ rw sent (find_event-save_event key board.events event _ found refl same, d)
          | inr unsent ↦
              rw unsent (find_event-save_event key board.events event _ found refl same, d)
        ]

    existing_event-IsFound :
        (event : NotificationEvent)
        → find_event key board.events ≡ some event
        → IsFound (existing_event reference test chosen now notice board event)
    unfolding existing_event
    existing_event-IsFound event found =
        elim (Bool-cases (same_domain_values event.payload notice)) [
          | inl same ↦ rw same (found, same)
          | inr differs ↦ rw differs (
              with_payload-IsFound event _ found (
                build-Describes reference event.notification_type notice test event.id
                  event.deduplication_key event.occurred_at event.target_url no_venue))
        ]

    get_or_create_event-IsFound :
        (type : NotificationType) (payload : Option RecordPayload)
        → Describes notice payload
        → IsFound (get_or_create_event reference test chosen now notice board type payload)
    unfolding get_or_create_event created_or_existing created_event
    get_or_create_event-IsFound type none d = tt
    get_or_create_event-IsFound type (some payload) d = go (find_event key board.events) refl
      where
        go :
            (found : Option NotificationEvent)
            → find_event key board.events ≡ found
            → IsFound
                (created_or_existing reference test chosen now notice board type payload found)
        go none missing = (find_event-append key board.events _ missing refl, d)
        go (some event) found = existing_event-IsFound event found

    pub publish_as-IsFound :
        (type : Option NotificationType)
        → IsFound (publish_as reference test chosen now notice board type)
    unfolding publish_as
    publish_as-IsFound none = tt
    publish_as-IsFound (some type) =
        get_or_create_event-IsFound type _
          (build-Describes reference type notice test _ key notice.detected_at (text "/") no_venue)

  existing-again :
      (now : ℕ) (after : Board) (type : NotificationType) (e : NotificationEvent)
      (payload : Option RecordPayload)
      → IsFound (some (e, false, after))
      → IsSome reference type notice test payload
      → get_or_create_event reference test chosen now notice after type payload
        ≡ some (e, false, after)
  unfolding get_or_create_event created_or_existing existing_event
  existing-again now after type e payload (found, same) (p, is) = rw (is, found, same) refl

  built-IsSome :
      (now : ℕ) (board : Board) (type : NotificationType) (payload : Option RecordPayload)
      (e : NotificationEvent) (created : Bool) (after : Board)
      → get_or_create_event reference test chosen now notice board type payload
        ≡ some (e, created, after)
      → IsSome reference type notice test payload
  unfolding get_or_create_event
  built-IsSome now board type none e created after h = absurd (cc h)
  built-IsSome now board type (some p) e created after h = (p, refl)

  publish_as-again :
      (now now' : ℕ) (board : Board) (type : Option NotificationType) (e : NotificationEvent)
      (created : Bool) (after : Board)
      → publish_as reference test chosen now notice board type ≡ some (e, created, after)
      → publish_as reference test chosen now' notice after type ≡ some (e, false, after)
  unfolding publish_as build_record_payload
  publish_as-again now now' board none e created after h = absurd (cc h)
  publish_as-again now now' board (some type) e created after h =
      let (p, made) = built-IsSome now board type _ e created after h in
      existing-again now' after type e _
        (subst IsFound h (publish_as-IsFound now board (some type)))
        (payload_at-IsSome reference type notice test _ _ key notice.detected_at
          (validate_relative_target_url reference.urlsplit (text "/")) p made)

  -- If a publication of a record whose payload names no venue gives an event, then a second one with the
  -- same choice of endpoints, at any time, gives the same event, not created, and changes nothing.
  pub publish_record_notification-again :
      (now now' : ℕ) (board : Board) (e : NotificationEvent) (created : Bool) (after : Board)
      → publish_record_notification reference test chosen now notice board
        ≡ some (e, created, after)
      → publish_record_notification reference test chosen now' notice after ≡ some (e, false, after)
  unfolding publish_record_notification
  publish_record_notification-again now now' board e created after h =
      publish_as-again now now' board (notification_type_of notice.record_level) e created after h
