-- ===== src/WeekendWindow/Tests.antt =====
-- The window around 26 November 2026, a Thursday, whose ordinal is 739946.
use cubingnow.Prelude.{ℕ, ◌+◌, ◌≤◌, Option, some, Text, text, ◌≡◌, refl, arith}
use cubingnow.WeekendWindow.{weekday, rolling_weekend_window, window, resolve_weekend_window}
use cubingnow.WeekendWindow.Week.{rolling_weekend_window_lem, resolve_weekend_window-le}

abbrev today : ℕ
today = 739946

this_week : rolling_weekend_window today ≡ (739945, 739951)
unfolding rolling_weekend_window
this_week = refl

rolling_weekend_window_lem_example :
    let (s, e) = rolling_weekend_window today in
    ((weekday s ≡ 2) × (weekday e ≡ 1) × (e ≡ s + 6) × (s ≤ today) × (today ≤ e))
    × (weekday 739945 ≡ 2 → 739945 ≤ today → today ≤ 739945 + 6 → 739945 ≡ s)
rolling_weekend_window_lem_example = rolling_weekend_window_lem today 739945 (omega arith)

read_date : Text → Option ℕ
read_date s = some 739940

one_day : resolve_weekend_window read_date today (text "a") (text "b") ≡ window 739940 739940
unfolding resolve_weekend_window read_date
one_day = refl

resolve_weekend_window-le_example : 739940 ≤ 739940
resolve_weekend_window-le_example =
    resolve_weekend_window-le read_date today (text "a") (text "b") 739940 739940 one_day
