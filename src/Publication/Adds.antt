-- ===== src/Publication/Adds.antt =====
-- What a publication does to the keys of the events.
use cubingnow.Prelude.{
  Bool, Option, none, some, List, [], ◌∷◌, ◌++◌, Text, ◌≡◌, refl, ◌⊎◌, inl, inr, Bool-cases, any, ℕ,
}
use cubingnow.Delivery.{NotificationEndpoint}
use cubingnow.Publication.{
  NotificationEvent, Board, Published, find_event, candidate, created_event, with_payload,
  existing_event, created_or_existing, get_or_create_event, publish_as, deduplication_key_of,
  is_sent, same_domain_values,
}
use cubingnow.Publication.Recipients.{NotificationType}
use cubingnow.Publication.Payload.{Reference, Notice, RecordPayload}
use cubingnow.Publication.Once.{find_event-key}
use cubingnow.Publication.Events.{keys, IsUnique, keys-append, keys-save_event}

-- At most an event of the key is new, and it is the last.
abbrev pub Adds : Text → List NotificationEvent → List NotificationEvent → Type 0
Adds key events events' = (keys events' ≡ keys events) ⊎ (keys events' ≡ keys events ++ key ∷ [])

module _ (reference : Reference) (test : Bool) (chosen : Option (List NotificationEndpoint))
    (now : ℕ) (notice : Notice) (board : Board) (unique : IsUnique board) where
  abbrev key : Text
  key = deduplication_key_of notice test

  abbrev pub AddsOwn : Published → Type 0
  AddsOwn none = Unit
  AddsOwn (some (e, created, after)) = Adds key board.events after.events

  with_payload-AddsOwn :
      (event : NotificationEvent) (payload : Option RecordPayload)
      → find_event key board.events ≡ some event
      → AddsOwn (with_payload reference test chosen now notice board event payload)
  unfolding with_payload
  with_payload-AddsOwn event none found = tt
  with_payload-AddsOwn event (some payload) found =
      let same = find_event-key key board.events event found in
      elim (Bool-cases (any (is_sent event) board.deliveries)) [
        | inl sent ↦
            rw sent
              (inl (keys-save_event key board.events event _ unique.event_ids found refl same))
        | inr unsent ↦
            rw unsent
              (inl (keys-save_event key board.events event _ unique.event_ids found refl same))
      ]

  existing-AddsOwn :
      (event : NotificationEvent)
      → find_event key board.events ≡ some event
      → AddsOwn (existing_event reference test chosen now notice board event)
  unfolding existing_event
  existing-AddsOwn event found = elim (Bool-cases (same_domain_values event.payload notice)) [
    | inl same ↦ rw same (inl refl)
    | inr differs ↦ rw differs (with_payload-AddsOwn event _ found)
  ]

  get_or_create-AddsOwn :
      (type : NotificationType) (payload : Option RecordPayload)
      → AddsOwn (get_or_create_event reference test chosen now notice board type payload)
  unfolding get_or_create_event created_or_existing created_event
  get_or_create-AddsOwn type none = tt
  get_or_create-AddsOwn type (some payload) = go (find_event key board.events) refl
    where
      go :
          (found : Option NotificationEvent)
          → find_event key board.events ≡ found
          → AddsOwn (created_or_existing reference test chosen now notice board type payload found)
      go none missing =
          inr (
            keys-append board.events
              (candidate reference test chosen now notice board type payload))
      go (some event) found = existing-AddsOwn event found

  pub publish_as-AddsOwn :
      (type : Option NotificationType)
      → AddsOwn (publish_as reference test chosen now notice board type)
  unfolding publish_as
  publish_as-AddsOwn none = tt
  publish_as-AddsOwn (some type) = get_or_create-AddsOwn type _
