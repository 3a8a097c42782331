-- ===== src/WeekendWindow.antt =====
-- backend/integrations/weekend_window.py. A date is its proleptic ordinal, as `date.toordinal` counts;
-- the local date of the given or the present moment and `date.fromisoformat` are parameters.
pub mod Week
mod Tests
use cubingnow.Prelude.{
  ℕ, ◌+◌, ◌-◌, ◌%◌, Bool, true, false, not, Option, none, some, Text, nonempty, ltb, if◌then◌else◌,
}

-- `date.weekday`, Monday being 0.
abbrev pub weekday : ℕ → ℕ
weekday date = (date + 6) % 7

-- `(weekday - 2) % 7`, which Python takes as not negative.
unfoldable pub rolling_weekend_window : ℕ → ℕ × ℕ
rolling_weekend_window local_date =
    let start = local_date - (weekday local_date + 5) % 7 in (start, start + 6)

-- A window, or the `ValueError` that is raised.
pub data Resolved : Type 0 where
  window : ℕ → ℕ → Resolved
  one_bound_missing malformed_date end_before_start : Resolved

unfoldable pub ordered_window : Option ℕ → Option ℕ → Resolved
ordered_window none end = malformed_date
ordered_window (some start) none = malformed_date
ordered_window (some start) (some end) =
    if ltb end start then end_before_start else window start end

abbrev both_or_none : Bool → Bool → Bool
both_or_none true b = b
both_or_none false b = not b

abbrev pub rolling : ℕ × ℕ → Resolved
rolling (start, end) = window start end

unfoldable pub resolve_weekend_window : (Text → Option ℕ) → ℕ → Text → Text → Resolved
unfolding rolling_weekend_window ordered_window
resolve_weekend_window fromisoformat local_date start_value end_value =
    if not (both_or_none (nonempty start_value) (nonempty end_value))
    then one_bound_missing
    else if not (nonempty start_value)
    then rolling (rolling_weekend_window local_date)
    else ordered_window (fromisoformat start_value) (fromisoformat end_value)
