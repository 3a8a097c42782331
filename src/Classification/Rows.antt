-- ===== src/Classification/Rows.antt =====
-- The rows that classification reads and writes, and its queries.
use cubingnow.Prelude.{
  ℕ, ℤ, Bool, true, false, not, ◌&&◌, Option, none, some, List, [], ◌∷◌, map, Text, text_eq,
  nonempty, ◌==◌, if◌then◌else◌, any, select, ℕ_discrete,
}
use cubingnow.Models.{
  Kind, single, average, RecordLevel, world, continental, national, personal, CanonicalResult,
  CanonicalResultRevision, ProcessedResult, Level, Status,
}
use cubingnow.Timeline.{Entry, classification_key, key_before}
use cubingnow.Reconciliation.Rows.{find_result}

-- The record-level rows of one processed result.
pub record Levels : Type 0 where
  pub world_level : Level
  pub continental_level : Level
  pub national_level : Level
  pub personal_level : Level

pub record Row : Type 0 where
  pub result : ProcessedResult
  pub levels : Levels

abbrev pub level_of : RecordLevel → Row → Level
level_of world row = row.levels.world_level
level_of continental row = row.levels.continental_level
level_of national row = row.levels.national_level
level_of personal row = row.levels.personal_level

abbrev pub with_level : RecordLevel → Level → Row → Row
with_level world level row = record row { levels = record row.levels { world_level = level } }
with_level continental level row = record row {
  levels = record row.levels { continental_level = level };
}
with_level national level row = record row { levels = record row.levels { national_level = level } }
with_level personal level row = record row { levels = record row.levels { personal_level = level } }

-- `RECORD_LEVELS`
abbrev pub record_levels : List RecordLevel
record_levels = world ∷ continental ∷ national ∷ personal ∷ []

pub record Cell : Type 0 where
  pub level : RecordLevel
  pub event_id : Text
  pub kind : Kind
  pub scope : Text

unfoldable pub Cell-discrete : Discrete Cell
Cell-discrete = hlevel ℕ_discrete

-- The wide record tables; an absent row and an empty column are `none`.
abbrev pub Cells : Type 0
Cells = Cell → Option ℤ

-- `_set_live_value`
unfoldable pub set_cell : Cell → Option ℤ → Cells → Cells
unfolding Cell-discrete
set_cell cell value cells other = elim (Cell-discrete other cell) [
  | yes _ ↦ value
  | no _ ↦ cells other
]

pub record World : Type 0 where
  pub heads : List CanonicalResult
  pub revisions : List CanonicalResultRevision
  pub rows : List Row
  -- The key that the sequence of the table of processed results gives next; deletes leave it alone.
  pub next_pk : ℕ
  pub baseline : Cells
  pub live : Cells
  -- `BaselineMetadata.absorbed_competition_ids` of the active baseline.
  pub absorbed : List Text

abbrev pub entry_of : RecordLevel → Row → Entry
entry_of level row = record { result = row.result; level = level_of level row }

abbrev pub patched : RecordLevel → Option Entry → Row → Row
patched level none row = row
patched level (some e) row = with_level level e.level row

unfoldable pub find_entry : ℕ → List Entry → Option Entry
find_entry pk [] = none
find_entry pk (e ∷ es) = let later = find_entry pk es in if e.result.pk == pk then some e else later

-- `bulk_update` of the level rows.
unfoldable pub save_levels : RecordLevel → List Entry → List Row → List Row
save_levels level es rows = map (λ row. patched level (find_entry row.result.pk es) row) rows

unfoldable pub change_row : ℕ → (Row → Row) → List Row → List Row
change_row pk f rows = map (λ row. if row.result.pk == pk then f row else row) rows

abbrev pub same_kind : Kind → Kind → Bool
same_kind single single = true
same_kind average average = true
same_kind single average = false
same_kind average single = false

abbrev pub is_retracted : Status → Bool
is_retracted Status.retracted = true
is_retracted Status.active = false
is_retracted Status.corrected = false

-- `_is_absorbed`
unfoldable pub is_absorbed : World → Text → Bool
unfolding text_eq
is_absorbed w competition = nonempty competition && any (text_eq competition) w.absorbed

abbrev of_head : ProcessedResult → Option CanonicalResult → Bool
of_head result none = false
of_head result (some head) =
    (head.revision == result.canonical_revision) && not (is_retracted head.status)

-- The filters of `_current_timeline`, on a result and the scope of its level row.
unfoldable pub fits : World → Cell → ProcessedResult → Text → Bool
unfolding text_eq find_result is_absorbed
fits w cell result scope =
    text_eq result.event_id cell.event_id
    && same_kind result.facts.kind cell.kind
    && result.is_valid_result
    && of_head result (find_result result.canonical_result w.heads)
    && not (is_absorbed w result.wca_competition_id)
    && text_eq scope cell.scope

unfoldable pub in_timeline : World → Cell → Row → Bool
unfolding fits
in_timeline w cell row = fits w cell row.result (level_of cell.level row).record_scope

-- `rows.sort(key=classification_key)`
unfoldable pub insert_row : Row → List Row → List Row
unfolding key_before
insert_row row [] = row ∷ []
insert_row row (x ∷ rest) =
    let later = insert_row row rest in
    if key_before (classification_key x.result) (classification_key row.result)
    then x ∷ later
    else row ∷ x ∷ rest

unfoldable pub sort_rows : List Row → List Row
unfolding insert_row
sort_rows [] = []
sort_rows (row ∷ rest) = insert_row row (sort_rows rest)

-- `_current_timeline`, and the level rows of its results.
unfoldable pub rows_at : World → Cell → List Row
rows_at w cell = sort_rows (select (in_timeline w cell) w.rows)

unfoldable pub timeline : World → Cell → List Entry
timeline w cell = map (entry_of cell.level) (rows_at w cell)
