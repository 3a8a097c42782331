-- ===== src/Classification/Tests.antt =====
-- A correction of one of two results of a world-record timeline.
use mathlib.Core.List.{Perm}
use cubingnow.Prelude.{
  List, map, ℕ, ℤ, pos, true, false, none, some, [], ◌∷◌, text, ◌≡◌, ◌≢◌, ◌↔◌, ◌⊎◌, inl, refl, All,
  arith, ltb, ◌==◌,
}
use cubingnow.Models.{
  single, world, verified, Facts, Status, Action, CanonicalResult, CanonicalResultRevision,
}
use cubingnow.Scopes.{Countries}
use cubingnow.Timeline.{repair_cell}
use cubingnow.Work.{current, superseded}
use cubingnow.EventColumns.{event_field}
use cubingnow.Classification.{
  repair_timeline, classify_revision, recorded_revision, supported, head_revision, historical,
}
use cubingnow.Classification.Rows.{Row, Cell, World, timeline, is_absorbed}
use cubingnow.Classification.Revisions.{
  processed_result, new_levels, is_older, materialize, find_row, materialized, invalidate_older,
}
use cubingnow.Classification.Repair.{repair_timeline-eq-repair_cell}
use cubingnow.Classification.Reread.{HasUniqueKeys}
use cubingnow.Classification.Latest.{
  classify_revision-live, classify_revision-current_iff, classify_revision-IsCurrent,
}
use cubingnow.Classification.Verdict.{results}
use cubingnow.Classification.Rebuild.{rebuild_classification_from_scratch}
use cubingnow.Classification.Rebuild.Order.{Apart, Ascending}
use cubingnow.Classification.Rebuild.Complete.{
  copied, copy, rebuild_classification_from_scratch_complete,
}

abbrev countries : Countries
countries = λ code. none

abbrev facts : ℤ → Facts
facts value = record {
  identity_key = text "wca|X2026";
  wca_competition_id = text "X2026";
  competition_name = text "X Open";
  competition_country_code = text "NL";
  competition_start_date = none;
  competition_end_date = none;
  competition_timezone = [];
  competition_local_date = some 739000;
  timezone_resolution_status = text "resolved";
  timezone_resolution_reason = [];
  round_id = text "r1";
  round_number = some 1;
  round_name = text "First round";
  event_id = text "333";
  event_name = text "3x3x3 Cube";
  competitor_name = text "A";
  competitor_wca_id = text "2010AAAA01";
  country_code = text "NL";
  kind = single;
  value = value;
  formatted_result = [];
  entered_at = none;
  first_observed_at = 5;
  source_url = [];
  validation_status = verified;
  validation_reason = [];
}

abbrev revision : Action → ℕ → ℕ → ℤ → CanonicalResultRevision
revision because result number value = record {
  pk = number;
  canonical_result = result;
  revision = number;
  action = because;
  facts = facts value;
  canonical_status = Status.active;
  last_observed_at = number;
}

abbrev head : ℕ → ℕ → ℤ → CanonicalResult
head pk number value = record {
  pk = pk;
  facts = facts value;
  identity_scope = none;
  last_observed_at = number;
  status = Status.active;
  revision = number;
  current_observation = none;
}

abbrev row : ℕ → ℤ → Row
row pk value = record {
  result = processed_result (revision Action.active pk 1 value) pk none;
  levels = new_levels countries (facts value);
}

-- The head of the first result has its second revision, which is not classified yet.
abbrev before : World
before = record {
  heads = head 1 2 (pos 320) ∷ head 2 1 (pos 305) ∷ [];
  revisions =
      revision Action.active 1 1 (pos 310)
      ∷ revision Action.active 2 1 (pos 305)
      ∷ revision Action.corrected 1 2 (pos 320)
      ∷ [];
  rows = row 1 (pos 310) ∷ row 2 (pos 305) ∷ [];
  next_pk = 3;
  baseline = λ cell. some (pos 313);
  live = λ cell. some (pos 305);
  absorbed = text "W2026" ∷ [];
}

abbrev correction : CanonicalResultRevision
correction = revision Action.corrected 1 2 (pos 320)

abbrev earlier : CanonicalResultRevision
earlier = revision Action.active 1 1 (pos 310)

abbrev world_cell : Cell
world_cell = record { level = world; event_id = text "333"; kind = single; scope = text "World" }

two_keys : HasUniqueKeys before.rows
unfolding processed_result
two_keys = (((λ e. ground arith), tt), (tt, tt))

repair_timeline-eq-repair_cell_example :
    let (es, final) =
      repair_cell (before.baseline world_cell) world_cell.scope (timeline before world_cell) in
    let after = repair_timeline world_cell before in
    (timeline after world_cell ≡ es)
    × (after.live world_cell ≡ final)
    × ((other : Cell) → other ≢ world_cell → after.live other ≡ before.live other)
repair_timeline-eq-repair_cell_example = repair_timeline-eq-repair_cell before world_cell two_keys

has_column : supported (recorded_revision countries correction before).0 ≡ true
unfolding recorded_revision materialize find_row materialized invalidate_older processed_result
    event_field
has_column = refl

classify_revision-current_iff_example :
    let recorded = recorded_revision countries correction before in
    ((classify_revision countries 2 correction before).0 ≡ current) ↔ (
      ((ltb correction.revision (head_revision correction recorded.1)) ≡ false)
      × ((is_absorbed recorded.1 recorded.0.wca_competition_id ≡ true)
          ⊎ ((2 == correction.revision) ≡ true)))
classify_revision-current_iff_example =
    classify_revision-current_iff countries 2 correction before has_column

-- The first revision comes too late: the head has the second one.
earlier_verdict : (classify_revision countries 2 earlier before).0 ≡ superseded
unfolding classify_revision recorded_revision materialize find_row materialized invalidate_older
    processed_result event_field historical
earlier_verdict = refl

not_current : (classify_revision countries 2 earlier before).0 ≢ current
not_current e = cc (earlier_verdict, e)

classify_revision-live_example : (classify_revision countries 2 earlier before).1.live ≡ before.live
classify_revision-live_example = classify_revision-live countries 2 earlier before (inl not_current)

classify_revision-IsCurrent_example :
    All
      (λ r. is_older (recorded_revision countries correction before).0 r ≡ false)
      (results (classify_revision countries 2 correction before).1)
classify_revision-IsCurrent_example = classify_revision-IsCurrent countries 2 correction before

rebuilt_quietly :
    (rebuild_classification_from_scratch countries (λ r. r.revision) true before).0 ≡ none
unfolding rebuild_classification_from_scratch classify_revision recorded_revision materialize
    find_row materialized invalidate_older processed_result event_field historical
    cubingnow.Timeline.least cubingnow.Classification.Rows.save_levels
    cubingnow.Classification.Rows.find_entry timeline cubingnow.Classification.Rows.rows_at
    cubingnow.Classification.Rows.sort_rows cubingnow.Classification.Rows.in_timeline
    cubingnow.Timeline.judge cubingnow.Timeline.settle cubingnow.Timeline.mark_day
    cubingnow.Timeline.mark_round cubingnow.Timeline.reset
rebuilt_quietly = refl

before-Apart : Apart before.revisions
before-Apart =
    (((λ e. ground arith), ((λ e. ground arith), tt)), (((λ e. ground arith), tt), (tt, tt)))

rebuild_classification_from_scratch_complete_example :
    let rebuilt = (rebuild_classification_from_scratch countries (λ r. r.revision) true before).1 in
    (rs : List CanonicalResultRevision) × Perm rs before.revisions
    × Ascending rs
    × (map copied (results rebuilt) ≡ map copy rs)
rebuild_classification_from_scratch_complete_example =
    rebuild_classification_from_scratch_complete countries (λ r. r.revision) before before-Apart
      rebuilt_quietly
