-- ===== src/Timeline/Incremental.antt =====
-- Classifying results one by one, in order, gives what a repair of the whole timeline gives.
use mathlib.Core.List.{map-append, append-nil, append_assoc, foldl}
use cubingnow.Prelude.{
  ℤ, Option, none, some, Bool, not, ◌&&◌, true, false, List, [], ◌∷◌, ◌++◌, map, Text, ◌≡◌, refl,
  ◌∙◌, ap, if◌then◌else◌, select,
}
use cubingnow.Timeline.{
  Entry, judge, judge_incremental, advance, replay, reset, qualifies, mark_round, mark_day, settle,
  share, hold, value_of, holds_value, is_recognized, shares_value, adjudicate, repair_cell,
  classify_cell, cease, first_where, breaks,
}
use cubingnow.Timeline.Replay.{replay-append}

-- Adjudication starts by forgetting all that an earlier adjudication wrote.
reset-reset : (e : Entry) → reset (reset e) ≡ reset e
unfolding reset
reset-reset e = refl

reset-if :
    (b : Bool) (x y e : Entry)
    → reset x ≡ reset e
    → reset y ≡ reset e
    → reset (if b then x else y) ≡ reset e
reset-if true x y e p q = p
reset-if false x y e p q = q

reset-mark_round :
    (scope : Text) (rows : List Entry) (e : Entry) → reset (mark_round scope rows e) ≡ reset e
unfolding reset mark_round
reset-mark_round scope rows e = reset-if _ _ e e refl refl

reset-mark_day :
    (scope : Text) (rows : List Entry) (e : Entry) → reset (mark_day scope rows e) ≡ reset e
unfolding reset mark_day
reset-mark_day scope rows e = reset-if _ _ e e refl refl

reset-cease : (o : Option Entry) (e : Entry) → reset (cease o e) ≡ reset e
unfolding reset cease
reset-cease none e = refl
reset-cease (some b) e = refl

reset-share : (b : Bool) (e : Entry) → reset (share b e) ≡ reset e
unfolding reset share
reset-share b e = refl

reset-hold : (e : Entry) → reset (hold e) ≡ reset e
unfolding reset hold
reset-hold e = refl

reset-settle :
    (final : Option ℤ) (rows : List Entry) (e : Entry) → reset (settle final rows e) ≡ reset e
unfolding settle
reset-settle final rows e =
    let shared = share (shares_value rows e) e in
    let back : reset shared ≡ reset e = reset-share (shares_value rows e) e in
    let breaker = first_where (breaks e) rows in
    let recognized_now = is_recognized e.level.recognition_status in
    reset-if (not (qualifies e)) e _ e refl (
      reset-if (recognized_now && holds_value final (value_of e)) (hold shared) _ e
        (reset-hold shared ∙ back)
        (reset-if (not recognized_now) shared (cease breaker shared) e back
          (reset-cease breaker shared ∙ back)))

-- A pass over the rows that `reset` does not see.
map-reset :
    (f : Entry → Entry)
    → ((e : Entry) → reset (f e) ≡ reset e)
    → (es : List Entry) → map reset (map f es) ≡ map reset es
map-reset f h [] = refl
map-reset f h (e ∷ es) = rw (h e, map-reset f h es)

pub reset-adjudicate :
    (scope : Text) (final : Option ℤ) (es : List Entry)
    → map reset (adjudicate scope final es) ≡ map reset es
unfolding adjudicate
reset-adjudicate scope final es =
    let reset_rows = map reset es in
    let round_rows = map (mark_round scope (select qualifies reset_rows)) reset_rows in
    let day_rows = map (mark_day scope (select qualifies round_rows)) round_rows in
    map-reset _ (reset-settle final (select qualifies day_rows)) day_rows
    ∙ map-reset _ (reset-mark_day scope (select qualifies round_rows)) round_rows
    ∙ map-reset _ (reset-mark_round scope (select qualifies reset_rows)) reset_rows
    ∙ map-reset _ reset-reset es

-- Rows that `reset` makes equal are adjudicated alike.
adjudicate_cong :
    (scope : Text) (final : Option ℤ) (es fs : List Entry)
    → map reset es ≡ map reset fs
    → adjudicate scope final es ≡ adjudicate scope final fs
unfolding adjudicate
adjudicate_cong scope final es fs h = rw h

reset-judge :
    (m : Option ℤ) (scope : Text) (e : Entry)
    → reset (judge_incremental m scope e) ≡ reset (judge m scope e)
unfolding reset judge judge_incremental
reset-judge m scope e = refl

-- Judging one more row after a repair is repairing the timeline with that row at its end.
classify-repair :
    (base : Option ℤ) (scope : Text) (es : List Entry) (e : Entry)
    → classify_cell scope (repair_cell base scope es) e ≡ repair_cell base scope (es ++ e ∷ [])
unfolding classify_cell repair_cell
classify-repair base scope es e =
    let (rows, m) = replay base scope es in
    let final = advance m (value_of e) in
    let same : map reset (adjudicate scope m rows ++ judge_incremental m scope e ∷ [])
        ≡ map reset (rows ++ judge m scope e ∷ []) =
      simp (map-append, reset-adjudicate, reset-judge) in
    let longer : replay base scope (es ++ e ∷ []) ≡ (rows ++ judge m scope e ∷ [], final) =
      replay-append base scope es (e ∷ []) ∙ (unfold replay in refl) in
    rw longer (ap (λ rows'. (rows', final)) (adjudicate_cong scope final _ _ same))

-- Classifying the rows `fs` one by one, each behind all that came before, after a repair of the
-- rows `es`, leaves the rows and the live value that a repair of the whole timeline leaves.
pub classify_all-eq-repair :
    (base : Option ℤ) (scope : Text) (es fs : List Entry)
    → foldl (classify_cell scope) (repair_cell base scope es) fs ≡ repair_cell base scope (es ++ fs)
classify_all-eq-repair base scope es [] = rw append-nil
classify_all-eq-repair base scope es (f ∷ fs) =
    ap (λ s. foldl (classify_cell scope) s fs) (classify-repair base scope es f)
    ∙ classify_all-eq-repair base scope (es ++ f ∷ []) fs
    ∙ ap (repair_cell base scope) (append_assoc es (f ∷ []) fs)
