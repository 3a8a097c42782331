-- ===== src/WeekendWindow/Week.antt =====
-- The week that the rolling window covers.
use cubingnow.Prelude.{
  ℕ, ◌+◌, ◌-◌, ◌%◌, ◌≤◌, Bool, true, false, Option, none, some, Text, [], ◌∷◌, ◌≡◌, refl, arith,
  ltb, if◌then◌else◌,
}
use cubingnow.WeekendWindow.{
  weekday, rolling_weekend_window, window, end_before_start, rolling, resolve_weekend_window,
  ordered_window,
}

-- For a date from the second week on, the rolling window starts on a Wednesday, ends on a Tuesday six
-- days later and contains the date; and a window from a Wednesday to the sixth day after it that
-- contains the date is this one.
pub rolling_weekend_window_lem :
    (date start : ℕ)
    → 7 ≤ date
    → let (s, e) = rolling_weekend_window date in
      ((weekday s ≡ 2) × (weekday e ≡ 1) × (e ≡ s + 6) × (s ≤ date) × (date ≤ e))
      × (weekday start ≡ 2 → start ≤ date → date ≤ start + 6 → start ≡ s)
unfolding rolling_weekend_window
rolling_weekend_window_lem date start late = (
  (omega arith, omega arith, omega arith, omega arith, omega arith),
  λ w below above. omega arith,
)

tested-le :
    (a b s e : ℕ) (t : Bool)
    → ltb b a ≡ t
    → (if t then end_before_start else window a b) ≡ window s e
    → s ≤ e
tested-le a b s e true r h = absurd (cc h)
tested-le a b s e false r h = let first : a ≡ s = cc h in let last : b ≡ e = cc h in ground arith

ordered_window-le : (a b : Option ℕ) (s e : ℕ) → ordered_window a b ≡ window s e → s ≤ e
unfolding ordered_window
ordered_window-le none b s e h = absurd (cc h)
ordered_window-le (some a) none s e h = absurd (cc h)
ordered_window-le (some a) (some b) s e h = tested-le a b s e (ltb b a) refl h

rolling-le : (date s e : ℕ) → rolling (rolling_weekend_window date) ≡ window s e → s ≤ e
unfolding rolling_weekend_window
rolling-le date s e h =
    let start = date - (weekday date + 5) % 7 in
    let first : start ≡ s = cc h in let last : start + 6 ≡ e = cc h in omega (arith, first, last)

-- Whatever the two texts, the reader of dates and the present date: a window that is resolved does not
-- end before it starts.
pub resolve_weekend_window-le :
    (fromisoformat : Text → Option ℕ) (date : ℕ) (from to : Text) (s e : ℕ)
    → resolve_weekend_window fromisoformat date from to ≡ window s e
    → s ≤ e
unfolding resolve_weekend_window
resolve_weekend_window-le iso date [] [] s e h = rolling-le date s e h
resolve_weekend_window-le iso date [] (c ∷ to) s e h = absurd (cc h)
resolve_weekend_window-le iso date (c ∷ from) [] s e h = absurd (cc h)
resolve_weekend_window-le iso date (c ∷ from) (d ∷ to) s e h =
    ordered_window-le (iso (c ∷ from)) (iso (d ∷ to)) s e h
