-- ===== src/EventColumns.antt =====
-- backend/apps/records/event_columns.py: the events that have a column in the wide record tables, and the
-- name of that column. `none` is the `ValueError` for any other event.
mod Tests
pub mod Names
use cubingnow.Prelude.{
  Bool, true, false, not, ◌||◌, Option, none, some, List, [], ◌∷◌, ◌++◌, Text, text, text_eq, any,
  select, if◌then◌else◌,
}
use cubingnow.Models.{Kind, single, average}

abbrev pub single_event_ids : List Text
single_event_ids =
    text "222"
    ∷ text "333"
    ∷ text "444"
    ∷ text "555"
    ∷ text "666"
    ∷ text "777"
    ∷ text "333bf"
    ∷ text "333fm"
    ∷ text "333oh"
    ∷ text "clock"
    ∷ text "minx"
    ∷ text "pyram"
    ∷ text "skewb"
    ∷ text "sq1"
    ∷ text "444bf"
    ∷ text "555bf"
    ∷ text "333mbf"
    ∷ text "333mbo"
    ∷ text "333ft"
    ∷ text "magic"
    ∷ text "mmagic"
    ∷ []

abbrev pub has_no_average : Text → Bool
has_no_average event_id = text_eq event_id (text "333mbf") || text_eq event_id (text "333mbo")

unfoldable pub average_event_ids : List Text
unfolding text_eq
average_event_ids = select (λ event_id. not (has_no_average event_id)) single_event_ids

unfoldable pub allowed_event_ids : Kind → List Text
unfolding average_event_ids
allowed_event_ids single = single_event_ids
allowed_event_ids average = average_event_ids

-- `EVENT_FIELD_BY_ID`
abbrev pub field_of : Text → Text
field_of event_id = text "event_" ++ event_id

unfoldable pub event_field : Text → Kind → Option Text
unfolding text_eq allowed_event_ids
event_field event_id kind =
    if any (text_eq event_id) (allowed_event_ids kind) then some (field_of event_id) else none
