-- ===== src/Classification.antt =====
-- backend/apps/records/classification.py, the database transactions of `classify_revision`. The four
-- record-level rows of a processed result stand in its row. A live or baseline cell is named by kind,
-- event, level and holder; its column is that of the event. A raised `ValueError` is `raised`.
pub mod Rows
pub mod Revisions
pub mod Reread
pub mod Saved
pub mod Repair
pub mod Verdict
pub mod Branches
pub mod Latest
pub mod Rebuild
mod Tests
use cubingnow.Prelude.{
  ℕ, ◌+◌, ℤ, Bool, true, false, not, ◌&&◌, ◌||◌, Option, none, some, List, [], ◌∷◌, ◌++◌, map, Text,
  text, text_eq, nonempty, ltb, ◌==◌, if◌then◌else◌, any, select, is_some,
}
use mathlib.Core.List.{foldl}
use cubingnow.Models.{
  RecordLevel, CanonicalResult, CanonicalResultRevision, ProcessedResult, Level, Outcome,
  not_applicable, recognized,
}
use cubingnow.Scopes.{Countries, record_scope}
use cubingnow.EventColumns.{event_field}
use cubingnow.Observation.{kind_text}
use cubingnow.Reconciliation.Rows.{find_result}
use cubingnow.Timeline.{
  Entry, classification_key, key_before, compare_value, is_none, advance, judge_incremental, replay,
  adjudicate,
}
use cubingnow.Work.{Classified, current, superseded, raised}
use cubingnow.Classification.Rows.{
  Row, Cell, set_cell, World, level_of, with_level, entry_of, save_levels, timeline, rows_at,
  sort_rows, is_absorbed, record_levels, change_row, same_kind,
}
use cubingnow.Classification.Revisions.{materialize, invalidate_older, affected_scopes}

-- `_adjudicate_timeline`
unfoldable pub adjudicate_timeline : Cell → World → World
unfolding adjudicate
adjudicate_timeline cell world = record world {
  rows =
      save_levels cell.level (adjudicate cell.scope (world.live cell) (timeline world cell))
        world.rows;
}

-- `repair_timeline` of a scope that is not empty.
unfoldable pub repair_timeline : Cell → World → World
unfolding replay
repair_timeline cell world =
    let (judged, final) = replay (world.baseline cell) cell.scope (timeline world cell) in
    adjudicate_timeline cell (record world {
      rows = save_levels cell.level judged world.rows;
      live = set_cell cell final world.live;
    })

-- `_is_out_of_order`
abbrev pub later_row : ProcessedResult → Row → Bool
later_row processed row =
    not (row.result.pk == processed.pk)
    && key_before (classification_key processed) (classification_key row.result)

unfoldable pub is_out_of_order : Countries → ProcessedResult → World → Bool
is_out_of_order countries processed world =
    any
      (λ level.
        let scope = record_scope countries processed.facts level in
        nonempty scope
        && any (later_row processed) (
            rows_at world (record {
              level = level;
              event_id = processed.event_id;
              kind = processed.facts.kind;
              scope = scope;
            })))
      record_levels

abbrev pub cell_of : ProcessedResult → RecordLevel → Text → Cell
cell_of processed level scope = record {
  level = level;
  event_id = processed.event_id;
  kind = processed.facts.kind;
  scope = scope;
}

-- The level row of a processed result, changed.
unfoldable pub change_level : ℕ → RecordLevel → (Entry → Entry) → World → World
unfolding change_row
change_level pk level f world = record world {
  rows = change_row pk (λ row. with_level level (f (entry_of level row)).level row) world.rows;
}

-- A level without a scope.
unfoldable pub unscoped : Entry → Entry
unscoped e = record e {
  level = record e.level {
    record_scope = [];
    classification_outcome = Outcome.none;
    recognition_status = not_applicable;
  };
}

-- One turn of the level loop of `_classify_incremental`.
unfoldable pub classify_level : ProcessedResult → RecordLevel → Text → World → World
unfolding unscoped judge_incremental advance change_level
classify_level processed level [] world = change_level processed.pk level unscoped world
classify_level processed level (c ∷ scope) world =
    let cell = cell_of processed level (c ∷ scope) in
    let incumbent = world.live cell in
    record (change_level processed.pk level (judge_incremental incumbent (c ∷ scope)) world) {
      live = set_cell cell (advance incumbent processed.facts.value) world.live;
    }

unfoldable pub judge_turn : Countries → ProcessedResult → World → RecordLevel → World
unfolding classify_level
judge_turn countries processed world level =
    classify_level processed level (record_scope countries processed.facts level) world

unfoldable pub adjudicate_turn : Countries → ProcessedResult → World → RecordLevel → World
unfolding adjudicate_timeline
adjudicate_turn countries processed world level =
    let scope = record_scope countries processed.facts level in
    if nonempty scope then adjudicate_timeline (cell_of processed level scope) world else world

-- `_classify_incremental` behind its guards: every level is judged, then every timeline with a scope
-- is adjudicated.
unfoldable pub classify_incremental : Countries → ProcessedResult → World → World
unfolding judge_turn adjudicate_turn
classify_incremental countries processed world =
    foldl (adjudicate_turn countries processed)
      (foldl (judge_turn countries processed) world record_levels) record_levels

-- The rows before a processed result at a level and scope, by classification key.
abbrev earlier_row : Cell → ProcessedResult → Row → Bool
earlier_row cell processed row =
    text_eq row.result.event_id cell.event_id
    && same_kind row.result.facts.kind cell.kind
    && text_eq (level_of cell.level row).record_scope cell.scope
    && not (row.result.pk == processed.pk)
    && key_before (classification_key row.result) (classification_key processed)

-- One turn of the loop of `_classify_stale_historical`.
unfoldable pub historical_level : Bool → Option ℤ → Text → Entry → Entry
unfolding compare_value
historical_level counts incumbent scope e =
    let outcome = if counts then compare_value e.result.facts.value incumbent else Outcome.none in
    record e {
      level = record e.level {
        record_scope = scope;
        incumbent_value = incumbent;
        classification_outcome = outcome;
        recognition_status = if is_none outcome then not_applicable else recognized;
        currently_holds = false;
      };
    }

unfoldable pub historical_incumbent : Cell → ProcessedResult → World → Option ℤ
unfolding advance
historical_incumbent cell processed world =
    foldl (λ incumbent row. advance incumbent row.result.facts.value)
      (if nonempty cell.scope then world.baseline cell else none)
      (sort_rows (select (earlier_row cell processed) world.rows))

unfoldable pub stale_level : Countries → ProcessedResult → World → RecordLevel → Entry → Entry
unfolding historical_level historical_incumbent
stale_level countries processed world level =
    let scope = record_scope countries processed.facts level in
    historical_level (processed.is_valid_result && nonempty scope)
      (historical_incumbent (cell_of processed level scope) processed world) scope

unfoldable pub stale_turn : Countries → ProcessedResult → World → RecordLevel → World
unfolding stale_level change_level
stale_turn countries processed world level =
    change_level processed.pk level (stale_level countries processed world level) world

-- `_classify_stale_historical`
unfoldable pub classify_stale_historical : Countries → ProcessedResult → World → World
unfolding stale_turn
classify_stale_historical countries processed world =
    foldl (stale_turn countries processed) world record_levels

-- The text of the `ValueError` of `event_field`; the `repr` of an identifier is the text in quotes.
unfoldable pub unsupported : ProcessedResult → Text
unsupported processed =
    text "Unsupported WCA event '"
    ++ (processed.event_id
        ++ (text "' for '" ++ (kind_text processed.facts.kind ++ text "' records")))

abbrev pub supported : ProcessedResult → Bool
supported processed = is_some (event_field processed.event_id processed.facts.kind)

-- `_classify_stale_historical` and the verdict that follows; its first baseline value is that of the
-- world, which always has a scope, so an unsupported event raises before anything is saved.
unfoldable pub historical : Countries → ProcessedResult → Classified → World → Classified × World
unfolding classify_stale_historical unsupported event_field
historical countries processed verdict world =
    if supported processed
    then (verdict, classify_stale_historical countries processed world)
    else (raised (unsupported processed), world)

unfoldable pub repair_turn : ProcessedResult → World → RecordLevel × Text → World
unfolding repair_timeline
repair_turn processed world (level, scope) = repair_timeline (cell_of processed level scope) world

-- The repair of all affected timelines.
unfoldable pub repair_all : ProcessedResult → List (RecordLevel × Text) → World → World
unfolding repair_turn
repair_all processed scopes world = foldl (repair_turn processed) world scopes

-- The branches behind the check of the head, in one transaction; `late` is the revision of the head
-- that `_assert_revision_is_current` reads. `StaleRevision` rolls the transaction back.
unfoldable pub classify_current :
    Countries → ℕ → CanonicalResultRevision → ProcessedResult → World → Classified × World
unfolding historical repair_all classify_incremental affected_scopes is_out_of_order is_absorbed
    unsupported event_field
classify_current countries late revision processed world =
    if ltb 1 revision.revision || is_out_of_order countries processed world
    then (if not (supported processed)
        then (raised (unsupported processed), world)
        else if not (late == revision.revision)
        then historical countries processed superseded world
        else (
          current,
          repair_all processed (affected_scopes countries revision processed world) world,
        ))
    else if not (late == revision.revision)
    then historical countries processed superseded world
    else if not processed.is_valid_result
    then (current, world)
    else if not (supported processed)
    then (raised (unsupported processed), world)
    else (current, classify_incremental countries processed world)

abbrev pub head_revision : CanonicalResultRevision → World → ℕ
head_revision revision world = elim (find_result revision.canonical_result world.heads) [
  | some head ↦ head.revision
  | none ↦ 0
]

-- The first transaction of `classify_revision`.
unfoldable pub recorded_revision :
    Countries → CanonicalResultRevision → World → ProcessedResult × World
unfolding materialize invalidate_older
recorded_revision countries revision world =
    let (processed, w) = materialize countries revision world in
    (processed, invalidate_older processed revision.action w)

-- `classify_revision`; notifications are published after it.
unfoldable pub classify_revision :
    Countries → ℕ → CanonicalResultRevision → World → Classified × World
unfolding recorded_revision historical classify_current is_absorbed find_result
classify_revision countries late revision world =
    let (processed, w) = recorded_revision countries revision world in
    if ltb revision.revision (head_revision revision w)
    then historical countries processed superseded w
    else if is_absorbed w processed.wca_competition_id
    then historical countries processed current w
    else classify_current countries late revision processed w
