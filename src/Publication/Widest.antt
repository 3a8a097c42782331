-- ===== src/Publication/Widest.antt =====
-- Which level of a processed result is published.
use cubingnow.Prelude.{
  ℕ, Bool, true, false, ◌&&◌, none, some, List, [], ◌∷◌, ◌≡◌, refl, sym, ◌∙◌, subst, ◌⊎◌, inl, inr,
  All, Bool-cases, is_some, select,
}
use cubingnow.Models.{RecordLevel, world, continental, national, CanonicalResult}
use cubingnow.RecordValidation.{Validation}
use cubingnow.Reconciliation.Rows.{find_result}
use cubingnow.Classification.Rows.{Row, level_of}
use cubingnow.Publication.{
  NotificationEvent, Board, Published, find_event, publish_record_notification,
  deduplication_key_of,
}
use cubingnow.Publication.Payload.{Reference, notification_type_of}
use cubingnow.Publication.Processed.{
  Attempt, publish_at_head, skipped, failed, published, link_event, linked, is_publishable,
  notice_of, publish_processed_result_notification, publish_processed_result_after_commit,
  publish_levels, after_attempt, published_levels, is_record, is_recognized,
}
use cubingnow.Publication.Once.{find_event-key, find_event-save_event, IsFound, publish_as-IsFound}
use cubingnow.Publication.Events.{IsUnique, keys-save_event}
use cubingnow.Publication.Runs.{KeepsUnique, publish_as-IsUnique, notice_of-no_venue}
use cubingnow.Publication.Deserves.{Deserves, is_publishable_iff, Deserves-read}
use cubingnow.Publication.Adds.{Adds, AddsOwn, publish_as-AddsOwn}

-- The first of the levels that has the property.
abbrev pub First : (RecordLevel → Type 0) → List RecordLevel → RecordLevel → Type 0
First P [] level = ⊥
First P (x ∷ xs) level = ((level ≡ x) × P x) ⊎ ((¬ (P x)) × First P xs level)

module _ (reference : Reference) (now : ℕ) (heads : List CanonicalResult)
    (validations : List (ℕ × Validation)) (row : Row) (board : Board) (head : CanonicalResult) where
  abbrev attempt : RecordLevel → Attempt
  attempt = publish_processed_result_notification reference now heads validations row board

  -- The publication of the level as a record of its own; `none` is an exception.
  abbrev pub publishing : RecordLevel → Published
  publishing level =
      publish_record_notification reference false none now (notice_of row.result level) board

  abbrev To : RecordLevel → Type 0
  To = Deserves validations head row

  abbrev key : RecordLevel → List ℕ
  key level = deduplication_key_of (notice_of row.result level) false

  -- An event with the key of the level is there and points to the level; at most it is new.
  abbrev pub Announced : RecordLevel → Board → Type 0
  Announced level after =
      (e : NotificationEvent) × (find_event (key level) after.events ≡ some e)
      × (e.processed_record_level ≡ some (row.result.pk, level))
      × Adds (key level) board.events after.events

  -- How the publication ends: nothing to announce, an exception, or the event of one level.
  abbrev pub TellsFirst : List RecordLevel → Board → Type 0
  TellsFirst levels after =
      (All (λ level. ¬ (To level)) levels × (after ≡ board))
      ⊎ ((level : RecordLevel) × First To levels level
          × (((publishing level ≡ none) × (after ≡ board)) ⊎ Announced level after))

  passed :
      (x : RecordLevel) (xs : List RecordLevel) (after : Board)
      → ¬ (To x)
      → TellsFirst xs after
      → TellsFirst (x ∷ xs) after
  passed x xs after unfit (inl (none_of, same)) = inl ((unfit, none_of), same)
  passed x xs after unfit (inr (level, first, end)) = inr (level, inr (unfit, first), end)

  module _ (unique : IsUnique board)
      (found : find_result row.result.canonical_result heads ≡ some head) where
    -- The end of an attempt that is not skipped.
    abbrev Ended : RecordLevel → Attempt → Type 0
    Ended level out =
        ((publishing level ≡ none) × (out ≡ failed))
        ⊎ ((e : NotificationEvent) × (created : Bool) × (after : Board) × (out
              ≡ published e created after)
            × Announced level after)

    link_event-Ended :
        (level : RecordLevel) (out : Published)
        → publishing level ≡ out
        → KeepsUnique reference false none tt now (notice_of row.result level) board unique out
        → IsFound reference false none
            (notice_of row.result level)
            (notice_of-no_venue row.result level)
            out
        → AddsOwn reference false none now (notice_of row.result level) board unique out
        → Ended level (link_event row.result level out)
    unfolding link_event
    link_event-Ended level none is u f a = inl (is, refl)
    link_event-Ended level (some (event, created, after)) is u f a =
        let named = find_event-key (key level) after.events event f.0 in
        let same =
          keys-save_event (key level) after.events event (linked row.result level event) u.event_ids
            f.0 refl named in
        inr (
          linked row.result level event,
          created,
          _,
          refl,
          (
            linked row.result level event,
            find_event-save_event (key level) after.events event (linked row.result level event) f.0
                refl named,
            refl,
            elim a [ inl e ↦ inl (same ∙ e) | inr e ↦ inr (same ∙ e) ],
          ),
        )

    attempt-Ended :
        (level : RecordLevel)
        → is_some (notification_type_of level) ≡ true
        → ((¬ (To level)) × (attempt level ≡ skipped)) ⊎ (To level × Ended level (attempt level))
    unfolding publish_processed_result_notification publish_at_head publish_record_notification
    attempt-Ended level typed =
        let (to, from) = is_publishable_iff validations head row level typed in
        rw found (elim (Bool-cases (is_publishable validations head row level)) [
          | inr shut ↦ rw shut (inl (λ d. cc (from d, shut), refl))
          | inl open_now ↦ rw open_now (
              let type = notification_type_of level in
              inr (
                to open_now,
                link_event-Ended level _ refl
                    (publish_as-IsUnique reference false none tt now (notice_of row.result level)
                      board unique type)
                    (publish_as-IsFound reference false none (notice_of row.result level)
                      (notice_of-no_venue row.result level) now board type)
                    (publish_as-AddsOwn reference false none now (notice_of row.result level) board
                      unique type),
              ))
        ])

    after-TellsFirst :
        (x : RecordLevel) (xs : List RecordLevel) (rest : Board) (out : Attempt)
        → ((¬ (To x)) × (out ≡ skipped)) ⊎ (To x × Ended x out)
        → TellsFirst xs rest
        → TellsFirst (x ∷ xs) (after_attempt out board rest)
    after-TellsFirst x xs rest out (inl (unfit, e)) later =
        subst (λ o. TellsFirst (x ∷ xs) (after_attempt o board rest)) (sym e)
          (passed x xs rest unfit later)
    after-TellsFirst x xs rest out (inr (yes_to, inl (raises, e))) later =
        subst (λ o. TellsFirst (x ∷ xs) (after_attempt o board rest)) (sym e)
          (inr (x, inl (refl, yes_to), inl (raises, refl)))
    after-TellsFirst x xs rest out (inr (yes_to, inr (e, created, after, eq, told))) later =
        subst (λ o. TellsFirst (x ∷ xs) (after_attempt o board rest)) (sym eq)
          (inr (x, inl (refl, yes_to), inr told))

    abbrev is_read : RecordLevel → Bool
    is_read level =
        is_record (level_of level row).classification_outcome
        && is_recognized (level_of level row).recognition_status

    levels-TellsFirst :
        (levels : List RecordLevel)
        → All (λ level. is_some (notification_type_of level) ≡ true) levels
        → TellsFirst levels (publish_levels attempt board (select is_read levels))
    unfolding publish_levels
    levels-TellsFirst [] typed = inl (tt, refl)
    levels-TellsFirst (x ∷ xs) typed =
        let later = levels-TellsFirst xs typed.1 in
        elim (Bool-cases (is_read x)) [
          | inl e ↦ rw e (after-TellsFirst x xs _ (attempt x) (attempt-Ended x typed.0) later)
          | inr e ↦ rw e (passed x xs _ (λ d. cc (Deserves-read validations head row x d, e)) later)
        ]

    -- Where the events are unique and the head of the result is there: if the result deserves none of
    -- the world, continental and national levels, then its publication changes nothing. Otherwise only
    -- the widest level that it deserves counts: either publishing that level raises an exception, and
    -- nothing changes, or an event with that level's key is there and points to the level, and no other
    -- event is new.
    pub publish_processed_result_after_commit-TellsFirst :
        TellsFirst
          (world ∷ continental ∷ national ∷ [])
          (publish_processed_result_after_commit reference now heads validations row board)
    unfolding publish_processed_result_after_commit published_levels
    publish_processed_result_after_commit-TellsFirst =
        levels-TellsFirst (world ∷ continental ∷ national ∷ []) (refl, (refl, (refl, tt)))
