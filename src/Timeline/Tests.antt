-- ===== src/Timeline/Tests.antt =====
-- The theorems on timelines at concrete rows: three results of one world-record timeline.
use mathlib.Core.List.{foldl}
use cubingnow.Prelude.{
  ℕ, ℤ, pos, true, false, none, some, List, [], ◌∷◌, ◌++◌, Text, text, ◌≡◌, ◌≢◌, ◌↔◌, arith, Exists,
}
use cubingnow.Models.{single, world, active, verified, Facts, Outcome, not_applicable, blank}
use cubingnow.Timeline.{
  Entry, value_of, qualifies, judge, advance, replay, repair_cell, classify_cell, same_round,
  same_day,
}
use cubingnow.Timeline.Replay.{IsBest, OutcomeFits, replay-judges}
use cubingnow.Timeline.Incremental.{classify_all-eq-repair}
use cubingnow.Timeline.Adjudication.{
  row_of, recognized_row, Unbeaten, recognized_iff, currently_holds_iff,
}
use cubingnow.Timeline.Holders.{repair_cell-holder}

abbrev facts : ℤ → Text → Facts
facts value competitor = record {
  identity_key = text "wca|X2026";
  wca_competition_id = text "X2026";
  competition_name = text "X Open";
  competition_country_code = text "NL";
  competition_start_date = none;
  competition_end_date = none;
  competition_timezone = [];
  competition_local_date = some 739000;
  timezone_resolution_status = text "resolved";
  timezone_resolution_reason = [];
  round_id = text "r1";
  round_number = some 1;
  round_name = text "First round";
  event_id = text "333";
  event_name = text "3x3x3 Cube";
  competitor_name = text "A";
  competitor_wca_id = competitor;
  country_code = text "NL";
  kind = single;
  value = value;
  formatted_result = [];
  entered_at = none;
  first_observed_at = 5;
  source_url = [];
  validation_status = verified;
  validation_reason = [];
}

abbrev entry : ℕ → ℤ → Text → Entry
entry pk value competitor = record {
  result = record {
    pk = pk;
    canonical_result = pk;
    canonical_revision = 1;
    facts = facts value competitor;
    last_observed_at = pk;
    canonical_status = active;
    classification_at = pk;
    is_valid_result = true;
    invalidity_reason = [];
    replacement = none;
  };
  level = record {
    record_level = world;
    record_scope = text "World";
    incumbent_value = none;
    classification_outcome = Outcome.none;
    recognition_status = not_applicable;
    is_shared_tie = false;
    currently_holds = false;
    ceased_holding_reason = blank;
    ceased_holding_by = none;
    superseded_by = none;
  };
}

abbrev first : Entry
first = entry 1 (pos 310) (text "2010AAAA01")

abbrev second : Entry
second = entry 2 (pos 305) (text "2011BBBB01")

abbrev third : Entry
third = entry 3 (pos 308) (text "2010AAAA01")

abbrev rows : List Entry
rows = first ∷ second ∷ third ∷ []

replay-judges_example :
    let m = (replay (some (pos 313)) (text "World") (first ∷ [])).1 in
    let (judged, final) =
      replay (some (pos 313)) (text "World") ((first ∷ []) ++ second ∷ third ∷ []) in
    IsBest (some (pos 313)) (first ∷ []) m
    × (judged
        ≡ (replay (some (pos 313)) (text "World") (first ∷ [])).0
          ++ judge m (text "World") second
            ∷ (replay (advance m (value_of second)) (text "World") (third ∷ [])).0)
    × ((judge m (text "World") second).level.incumbent_value ≡ m)
    × OutcomeFits (judge m (text "World") second).level.classification_outcome (value_of second) m
    × IsBest (some (pos 313)) ((first ∷ []) ++ second ∷ third ∷ []) final
replay-judges_example =
    replay-judges (some (pos 313)) (text "World") (first ∷ []) second (third ∷ [])

classify_all-eq-repair_example :
    foldl
      (classify_cell (text "World"))
      (repair_cell (some (pos 313)) (text "World") (first ∷ []))
      (second ∷ third ∷ [])
    ≡ repair_cell (some (pos 313)) (text "World") ((first ∷ []) ++ second ∷ third ∷ [])
classify_all-eq-repair_example =
    classify_all-eq-repair (some (pos 313)) (text "World") (first ∷ []) (second ∷ third ∷ [])

abbrev judged_rows : List Entry
judged_rows = judge none (text "World") first ∷ judge (some (pos 310)) (text "World") second ∷ []

recognized_iff_example :
    (recognized_row
        (row_of (text "World") (some (pos 305)) judged_rows (judge none (text "World") first))
      ≡ true)
    ↔ ((qualifies (judge none (text "World") first) ≡ true)
        × Unbeaten (same_round (text "World")) (judge none (text "World") first) judged_rows
        × Unbeaten (same_day (text "World")) (judge none (text "World") first) judged_rows)
recognized_iff_example =
    recognized_iff (text "World") (some (pos 305)) judged_rows (judge none (text "World") first)

abbrev broken_row : Entry
broken_row = judge (some (pos 310)) (text "World") second

currently_holds_iff_example :
    ((row_of (text "World") (some (pos 305)) judged_rows broken_row).level.currently_holds ≡ true)
    ↔ ((recognized_row (row_of (text "World") (some (pos 305)) judged_rows broken_row) ≡ true)
        × (some (pos 305) ≡ some (value_of broken_row)))
currently_holds_iff_example =
    currently_holds_iff (text "World") (some (pos 305)) judged_rows broken_row

live_differs : (replay (some (pos 313)) (text "World") rows).1 ≢ some (pos 313)
unfolding replay advance
live_differs e = ground arith

repair_cell-holder_example :
    Exists
      (λ e. e.level.currently_holds ≡ true)
      (repair_cell (some (pos 313)) (text "World") rows).0
repair_cell-holder_example = repair_cell-holder (some (pos 313)) (text "World") rows live_differs
