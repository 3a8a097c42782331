-- ===== src/Timeline/Adjudication.antt =====
-- What `_adjudicate_timeline` decides about each row of a timeline.
use mathlib.Core.List.{map-map}
use cubingnow.Prelude.{
  ℤ, ◌≤ℤ◌, ltb_ℤ, Option, none, some, Bool, true, false, not, ◌&&◌, List, [], ◌∷◌, map, Text, ◌≡◌,
  refl, subst, sym, ap, ◌∙◌, ◌↔◌, inl, inr, ◌⊎◌, arith, All, select, is_some,
}
use cubingnow.Models.{ProcessedResult}
use cubingnow.Timeline.{
  Entry, value_of, qualifies, reset, mark_round, mark_day, settle, share, hold, cease, best_value,
  same_round, same_day, is_recognized, holds_value, adjudicate, shares_value, first_where, breaks,
}
use cubingnow.Timeline.Groups.{
  unbeaten_iff, All-select, All-qualifying, Keeps, Keeps-reset, Keeps-mark_round, Keeps-mark_day,
  Keeps-compose, Keeps-qualifies,
}

-- The passes over the timeline `es`, at one of its rows.
abbrev pub round_pass : Text → List Entry → Entry → Entry
round_pass scope es e = mark_round scope (select qualifies (map reset es)) (reset e)

abbrev pub day_pass : Text → List Entry → Entry → Entry
day_pass scope es e =
    mark_day scope (select qualifies (map (round_pass scope es) es)) (round_pass scope es e)

abbrev pub row_of : Text → Option ℤ → List Entry → Entry → Entry
row_of scope final es e =
    settle final (select qualifies (map (day_pass scope es) es)) (day_pass scope es e)

-- An adjudication works row by row.
pub adjudicate-eq-map :
    (scope : Text) (final : Option ℤ) (es : List Entry)
    → adjudicate scope final es ≡ map (row_of scope final es) es
unfolding adjudicate
adjudicate-eq-map scope final es =
    rw (map-map (mark_round scope (select qualifies (map reset es))) reset es) (
      rw
        (map-map (mark_day scope (select qualifies (map (round_pass scope es) es)))
          (round_pass scope es) es)
        (map-map (settle final (select qualifies (map (day_pass scope es) es))) (day_pass scope es)
          es))

Keeps-round : (scope : Text) (es : List Entry) → Keeps (round_pass scope es)
Keeps-round scope es = Keeps-compose Keeps-reset (Keeps-mark_round scope _)

Keeps-day : (scope : Text) (es : List Entry) → Keeps (day_pass scope es)
Keeps-day scope es = Keeps-compose (Keeps-round scope es) (Keeps-mark_day scope _)

-- No qualifying row of the timeline that is in the same group as `e` is better than `e`.
abbrev pub Unbeaten : (ProcessedResult → ProcessedResult → Bool) → Entry → List Entry → Type 0
Unbeaten same e es =
    All (λ r. qualifies r ≡ true → same e.result r.result ≡ true → value_of e ≤ℤ value_of r) es

-- The test of a group, on rows and at a row that have gone through passes.
group_test :
    (same : ProcessedResult → ProcessedResult → Bool) (f : Entry → Entry) (e e' : Entry)
    (es : List Entry)
    → Keeps f
    → e'.result ≡ e.result
    → (ltb_ℤ
          (best_value e' (select (λ r. same e'.result r.result) (select qualifies (map f es))))
          (value_of e')
        ≡ false)
      ↔ Unbeaten same e es
group_test same f e e' es k p =
    let rows = select qualifies (map f es) in
    let group = select (λ r. same e'.result r.result) rows in
    let (test, untest) = unbeaten_iff e' group in
    let (every, unevery) =
      All-select (λ r. value_of e' ≤ℤ value_of r) (λ r. same e'.result r.result) rows in
    let (all_rows, unall_rows) =
      All-qualifying f (λ r. same e'.result r ≡ true → e'.result.value ≤ℤ r.value) es k in
    let Speaks : ProcessedResult → Type 0 =
      λ q. All (λ r. qualifies r ≡ true → same q r.result ≡ true → q.value ≤ℤ value_of r) es in
    (
      λ h. subst Speaks p (all_rows (every (test h))),
      λ h. untest (unevery (unall_rows (subst Speaks (sym p) h))),
    )

abbrev pub recognized_row : Entry → Bool
recognized_row e = is_recognized e.level.recognition_status

round_recognized :
    (scope : Text) (rows : List Entry) (e : Entry)
    → recognized_row (mark_round scope rows (reset e)) ≡ (
        qualifies e
        && not (
            ltb_ℤ
              (best_value (reset e) (select (λ r. same_round scope (reset e).result r.result) rows))
              (value_of (reset e))))
unfolding mark_round reset
round_recognized scope rows e = ground arith

day_recognized :
    (scope : Text) (rows : List Entry) (e : Entry)
    → recognized_row (mark_day scope rows e) ≡ (
        recognized_row e
        && not (
            is_some e.result.competition_local_date
            && qualifies e
            && ltb_ℤ
                (best_value e (select (λ r. same_day scope e.result r.result) rows))
                (value_of e)))
unfolding mark_day
day_recognized scope rows e = ground arith

cease_recognition :
    (o : Option Entry) (e : Entry)
    → (cease o e).level.recognition_status ≡ e.level.recognition_status
unfolding cease
cease_recognition none e = refl
cease_recognition (some b) e = refl

settle_recognition :
    (final : Option ℤ) (rows : List Entry) (e : Entry)
    → (settle final rows e).level.recognition_status ≡ e.level.recognition_status
unfolding settle share hold
settle_recognition final rows e =
    ground (arith, cease_recognition (first_where (breaks e) rows) (share (shares_value rows e) e))

same_day_none :
    (scope : Text) (a b : ProcessedResult)
    → is_some a.competition_local_date ≡ false
    → same_day scope a b ≡ false
unfolding same_day
same_day_none scope a b h = ground arith

All-intro : (P : Entry → Type 0) (es : List Entry) → ((r : Entry) → P r) → All P es
All-intro P [] h = tt
All-intro P (e ∷ es) h = (h e, All-intro P es h)

module _ (day round q q' beaten_round beaten_day dated : Bool)
    (by_round : round ≡ (q && not beaten_round))
    (by_day : day ≡ (round && not (dated && q' && beaten_day))) (same : q' ≡ q) where
  flags_out :
      day ≡ true → (q ≡ true) × (beaten_round ≡ false) × ((dated ≡ false) ⊎ (beaten_day ≡ false))
  flags_out h = ground arith

  flags_in : q ≡ true → beaten_round ≡ false → beaten_day ≡ false → day ≡ true
  flags_in a b c = ground arith

-- The four facts on which the status of a row rests, put together.
module _ (scope : Text) (es : List Entry) (e : Entry) where
  abbrev after_round : Entry
  after_round = round_pass scope es e

  abbrev beaten_in_round : Bool
  beaten_in_round =
      ltb_ℤ
        (best_value (reset e) (
          select (λ r. same_round scope (reset e).result r.result)
            (select qualifies (map reset es))))
        (value_of (reset e))

  abbrev beaten_in_day : Bool
  beaten_in_day =
      ltb_ℤ
        (best_value after_round (
          select (λ r. same_day scope after_round.result r.result)
            (select qualifies (map (round_pass scope es) es))))
        (value_of after_round)

  round_test : (beaten_in_round ≡ false) ↔ Unbeaten (same_round scope) e es
  round_test = group_test (same_round scope) reset e (reset e) es Keeps-reset (Keeps-reset.result e)

  day_test : (beaten_in_day ≡ false) ↔ Unbeaten (same_day scope) e es
  day_test =
      group_test (same_day scope) (round_pass scope es) e after_round es (Keeps-round scope es)
        ((Keeps-round scope es).result e)

  -- A row with no local date is in no group of a day.
  dateless :
      is_some after_round.result.competition_local_date ≡ false → Unbeaten (same_day scope) e es
  dateless h =
      let undated : is_some e.result.competition_local_date ≡ false =
        ap (λ (r : ProcessedResult). is_some r.competition_local_date)
          (sym ((Keeps-round scope es).result e))
        ∙ h in
      All-intro _ es (λ r _ same. cc (same_day_none scope e.result r.result undated))

  day_pass_recognized :
      (recognized_row (day_pass scope es e) ≡ true)
      ↔ ((qualifies e ≡ true) × Unbeaten (same_round scope) e es × Unbeaten (same_day scope) e es)
  day_pass_recognized =
      let by_round = round_recognized scope (select qualifies (map reset es)) e in
      let by_day =
        day_recognized scope (select qualifies (map (round_pass scope es) es)) after_round in
      let same = Keeps-qualifies (Keeps-round scope es) e in
      (
        λ h.
            let (q, clear, day) =
              flags_out _ _ _ _ beaten_in_round beaten_in_day _ by_round by_day same h in
            (
              q,
              round_test.0 clear,
              elim day [ inl undated ↦ dateless undated | inr alone ↦ day_test.0 alone ],
            ),
        λ (q, r, d).
            flags_in _ _ _ _ beaten_in_round beaten_in_day _ by_round by_day same q (round_test.1 r)
              (day_test.1 d),
      )

-- A row is recognized exactly when it qualifies (its result broke or tied the record) and no
-- qualifying row of its round, nor of its local date where it has one, is better.
pub recognized_iff :
    (scope : Text) (final : Option ℤ) (es : List Entry) (e : Entry)
    → (recognized_row (row_of scope final es e) ≡ true)
      ↔ ((qualifies e ≡ true) × Unbeaten (same_round scope) e es × Unbeaten (same_day scope) e es)
recognized_iff scope final es e =
    rw
      (settle_recognition final (select qualifies (map (day_pass scope es) es))
        (day_pass scope es e))
      (day_pass_recognized scope es e)

mark_holds :
    (scope : Text) (rows : List Entry) (e : Entry)
    → ((mark_round scope rows e).level.currently_holds ≡ e.level.currently_holds)
      × ((mark_day scope rows e).level.currently_holds ≡ e.level.currently_holds)
unfolding mark_round mark_day
mark_holds scope rows e = (ground arith, ground arith)

cease_holds :
    (o : Option Entry) (e : Entry) → (cease o e).level.currently_holds ≡ e.level.currently_holds
unfolding cease
cease_holds none e = refl
cease_holds (some b) e = refl

settle_holds :
    (final : Option ℤ) (rows : List Entry) (e : Entry)
    → e.level.currently_holds ≡ false
    → (settle final rows e).level.currently_holds
      ≡ (qualifies e && recognized_row e && holds_value final (value_of e))
unfolding settle share hold
settle_holds final rows e h =
    ground (arith, cease_holds (first_where (breaks e) rows) (share (shares_value rows e) e))

and_parts : (a b c : Bool) → (a && b && c) ≡ true → (a ≡ true) × (b ≡ true) × (c ≡ true)
and_parts a b c h = ground arith

and_join : (a b c : Bool) → a ≡ true → b ≡ true → c ≡ true → (a && b && c) ≡ true
and_join a b c p q r = ground arith

holds_value_iff : (final : Option ℤ) (v : ℤ) → (holds_value final v ≡ true) ↔ (final ≡ some v)
unfolding holds_value
holds_value_iff none v = (λ h. cc, λ h. cc)
holds_value_iff (some m) v = (λ h. ground arith, λ h. ground arith)

-- A row is marked as currently holding the record exactly when it is recognized and its value is
-- the value of the live cell.
pub currently_holds_iff :
    (scope : Text) (final : Option ℤ) (es : List Entry) (e : Entry)
    → ((row_of scope final es e).level.currently_holds ≡ true)
      ↔ ((recognized_row (row_of scope final es e) ≡ true) × (final ≡ some (value_of e)))
currently_holds_iff scope final es e =
    let day = day_pass scope es e in
    let rows = select qualifies (map (day_pass scope es) es) in
    let blank_before : day.level.currently_holds ≡ false =
      (mark_holds scope _ _).1 ∙ (mark_holds scope _ _).0 ∙ (unfold reset in refl) in
    let keep = settle_recognition final rows day in
    let holds = settle_holds final rows day blank_before in
    let same : value_of day ≡ value_of e =
      ap (λ (r : ProcessedResult). r.value) ((Keeps-day scope es).result e) in
    let (cell, uncell) = holds_value_iff final (value_of day) in
    let q : qualifies day ≡ qualifies e = Keeps-qualifies (Keeps-day scope es) e in
    let status : recognized_row (row_of scope final es e) ≡ recognized_row day =
      ap is_recognized keep in
    (
      λ h.
          let (_, known, at_value) = and_parts _ _ _ (sym holds ∙ h) in
          (status ∙ known, cell at_value ∙ ap (λ (z : ℤ). some z) same),
      λ (r, v).
          holds
          ∙ and_join _ _ _ (q ∙ ((recognized_iff scope final es e).0 r).0) (sym status ∙ r)
              (uncell (v ∙ ap (λ (z : ℤ). some z) (sym same))),
    )
