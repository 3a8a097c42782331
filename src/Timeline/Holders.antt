-- ===== src/Timeline/Holders.antt =====
-- Who holds a record after a repair of its timeline.
use cubingnow.Prelude.{
  ℤ, Option, none, some, Bool, true, List, [], ◌∷◌, Text, ◌≡◌, ◌≢◌, refl, subst, ◌∙◌, ◌⊎◌, inl, inr,
  arith, All, All-map, Exists, Exists-map,
}
use cubingnow.Models.{ProcessedResult}
use cubingnow.Timeline.{
  Entry, value_of, qualifies, judge, advance, replay, same_round, same_day, repair_cell,
}
use cubingnow.Timeline.Replay.{◌≤∞◌, replay-IsBest}
use cubingnow.Timeline.Adjudication.{
  row_of, adjudicate-eq-map, recognized_iff, currently_holds_iff, Unbeaten,
}

-- What speaks of results only survives a replay.
replay-All :
    (Q : ProcessedResult → Type 0) (base : Option ℤ) (scope : Text) (es : List Entry)
    → All (λ e. Q e.result) es
    → All (λ e. Q e.result) (replay base scope es).0
unfolding replay judge
replay-All Q base scope [] h = tt
replay-All Q base scope (e ∷ es) h = (h.0, replay-All Q (advance base (value_of e)) scope es h.1)

advance_cases :
    (m : Option ℤ) (scope : Text) (e : Entry)
    → (advance m (value_of e) ≡ m)
      ⊎ ((advance m (value_of e) ≡ some (value_of e)) × (qualifies (judge m scope e) ≡ true))
unfolding advance judge
advance_cases none scope e = inr (refl, refl)
advance_cases (some a) scope e = ground arith

-- The last incumbent is the baseline, or the value of a row that broke the record.
replay_breaker :
    (base : Option ℤ) (scope : Text) (es : List Entry)
    → let (rows, m) = replay base scope es in
      (m ≡ base) ⊎ Exists (λ r. (qualifies r ≡ true) × (m ≡ some (value_of r))) rows
unfolding replay
replay_breaker base scope [] = inl refl
replay_breaker base scope (e ∷ es) = elim (replay_breaker (advance base (value_of e)) scope es) [
  | inr later ↦ inr (inr later)
  | inl kept ↦ elim (advance_cases base scope e) [
    | inl same ↦ inl (kept ∙ same)
    | inr (taken, q) ↦ inr (inl (q, kept ∙ taken ∙ (unfold judge in refl)))
  ]
]

module _ (base : Option ℤ) (scope : Text) (es : List Entry) where
  abbrev replayed : List Entry
  replayed = (replay base scope es).0

  abbrev live : Option ℤ
  live = (replay base scope es).1

  best_of_replayed : All (λ r. live ≤∞ some (value_of r)) replayed
  best_of_replayed =
      replay-All (λ q. live ≤∞ some q.value) base scope es (replay-IsBest base scope es).below_rows

  unbeaten :
      (same : ProcessedResult → ProcessedResult → Bool) (e : Entry)
      → live ≡ some (value_of e)
      → Unbeaten same e replayed
  unbeaten same e h =
      All-map _ _ replayed (λ r le _ _. subst (λ c. c ≤∞ some (value_of r)) h le) best_of_replayed

  breaker_holds :
      (e : Entry)
      → (qualifies e ≡ true) × (live ≡ some (value_of e))
      → (row_of scope live replayed e).level.currently_holds ≡ true
  breaker_holds e (q, h) = (currently_holds_iff scope live replayed e).1 (
    (recognized_iff scope live replayed e).1
        (q, unbeaten (same_round scope) e h, unbeaten (same_day scope) e h),
    h,
  )

  -- After a repair that leaves another live value than the baseline, some row of the timeline is
  -- marked as currently holding the record.
  pub repair_cell-holder :
      live ≢ base → Exists (λ e. e.level.currently_holds ≡ true) (repair_cell base scope es).0
  unfolding repair_cell
  repair_cell-holder new = elim (replay_breaker base scope es) [
    | inl kept ↦ absurd (new kept)
    | inr found ↦ rw adjudicate-eq-map (Exists-map _ _ _ replayed breaker_holds found)
  ]
