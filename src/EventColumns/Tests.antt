-- ===== src/EventColumns/Tests.antt =====
-- Concrete events.
use cubingnow.Prelude.{none, some, text, ◌≡◌, refl, ◌↔◌, ◌⊎◌}
use cubingnow.Models.{single, average}
use cubingnow.EventColumns.{event_field}
use cubingnow.EventColumns.Names.{event_field-average_none_iff}

clock_single : event_field (text "clock") single ≡ some (text "event_clock")
unfolding event_field
clock_single = refl

clock_average : event_field (text "clock") average ≡ some (text "event_clock")
unfolding event_field
clock_average = refl

event_field-average_none_iff_example : (event_field (text "333mbo") average ≡ none) ↔ (
    (event_field (text "333mbo") single ≡ none)
    ⊎ ((text "333mbo" ≡ text "333mbf") ⊎ (text "333mbo" ≡ text "333mbo")))
event_field-average_none_iff_example = event_field-average_none_iff (text "333mbo")
