-- ===== src/ResultValues/Clock.antt =====
-- The text of a time: `h:mm:ss.cc`, `m:ss.cc` or `s.cc`, and a reader that takes no other form.
use cubingnow.Prelude.{
  ℕ, zero, suc, ◌+◌, ◌-◌, ◌*◌, ◌/◌, ◌%◌, ◌<◌, ◌≡◌, refl, arith, ◌∙◌, ap, Option, none, some, [],
  ◌∷◌, Text, Bool, true, false, ltb, ◌&&◌, ◌==◌, Bool-cases, inl, inr, if◌then◌else◌,
}
use cubingnow.ResultValues.{decimal_fuel, decimal, two_digits, clock}

abbrev is_digit : ℕ → Bool
is_digit c = ltb 47 c && ltb c 58

abbrev pair_value : ℕ → ℕ → ℕ
pair_value a b = (a - 48) * 10 + (b - 48)

-- The point, two digits and no more.
pub read_point : Text → Option ℕ
read_point [] = none
read_point (p ∷ []) = none
read_point (p ∷ a ∷ []) = none
read_point (p ∷ a ∷ b ∷ []) =
    if (p == b'.') && is_digit a && is_digit b then some (pair_value a b) else none
read_point (p ∷ a ∷ b ∷ c ∷ s) = none

-- A colon and two digits of a number below sixty, and what follows.
pub read_colon : Text → Option (ℕ × Text)
read_colon [] = none
read_colon (p ∷ []) = none
read_colon (p ∷ a ∷ []) = none
read_colon (p ∷ a ∷ b ∷ s) =
    if (p == b':') && is_digit a && is_digit b && ltb (pair_value a b) 60
    then some (pair_value a b, s)
    else none

abbrev with_centis : ℕ → Option ℕ → Option ℕ
with_centis seconds none = none
with_centis seconds (some centis) = some (seconds * 100 + centis)

-- Behind the first two fields.
abbrev read_third : ℕ → ℕ → Text → Option (ℕ × Text) → Option ℕ
read_third first second s none =
    if ltb first 60 then with_centis (first * 60 + second) (read_point s) else none
read_third first second s (some (third, rest)) =
    with_centis ((first * 60 + second) * 60 + third) (read_point rest)

-- Behind the first field: a field below sixty unless it is hours, and zero only if it is alone.
abbrev read_second : ℕ → Text → Option (ℕ × Text) → Option ℕ
read_second first s none = if ltb first 60 then with_centis first (read_point s) else none
read_second first s (some (second, rest)) =
    if first == 0 then none else read_third first second rest (read_colon rest)

pub read_first : ℕ → Text → Option ℕ
read_first first [] = none
read_first first (c ∷ s) =
    let longer = read_first (first * 10 + (c - 48)) s in
    if is_digit c then longer else read_second first (c ∷ s) (read_colon (c ∷ s))

-- The centiseconds that a text shows, if it shows a time.
pub read_clock : Text → Option ℕ
read_clock [] = none
read_clock (c ∷ s) = if is_digit c then read_first (c - 48) s else none

first_digit : (d : ℕ) (s : Text) → d < 10 → read_clock ((48 + d) ∷ s) ≡ read_first d s
unfolding read_clock
first_digit d s h = ground arith

next_digit :
    (first d : ℕ) (s : Text)
    → d < 10
    → read_first first ((48 + d) ∷ s) ≡ read_first (first * 10 + d) s
unfolding read_first
next_digit first d s h = ground arith

read_decimal_fuel :
    (fuel n : ℕ) (s : Text) → n < fuel → read_clock (decimal_fuel fuel n s) ≡ read_first n s
unfolding decimal_fuel
read_decimal_fuel zero n s h = absurd (omega arith)
read_decimal_fuel (suc fuel) n s h = elim (Bool-cases (ltb n 10)) [
  | inl small ↦ rw small (first_digit n s (ground arith))
  | inr large ↦ rw large (
      read_decimal_fuel fuel (n / 10) ((48 + n % 10) ∷ s) (ground arith)
      ∙ next_digit (n / 10) (n % 10) s (omega arith)
      ∙ ap (λ k. read_first k s) (omega arith))
]

read_decimal : (n : ℕ) (s : Text) → read_clock (decimal n s) ≡ read_first n s
unfolding decimal
read_decimal n s = read_decimal_fuel (suc n) n s (omega arith)

digit : (d : ℕ) → d < 10 → is_digit (48 + d) ≡ true
digit d h = ground arith

pair_value-eq : (n : ℕ) → pair_value (48 + n / 10) (48 + n % 10) ≡ n
pair_value-eq n = omega arith

read_colon-two_digits :
    (n : ℕ) (s : Text) → n < 60 → read_colon (b':' ∷ two_digits n s) ≡ some (n, s)
unfolding read_colon
read_colon-two_digits n s h =
    let below : ltb n 60 ≡ true = ground arith in
    rw (digit (n / 10) (omega arith), digit (n % 10) (omega arith), pair_value-eq n, below) refl

read_point-two_digits : (n : ℕ) → n < 100 → read_point (b'.' ∷ two_digits n []) ≡ some n
unfolding read_point
read_point-two_digits n h =
    rw (digit (n / 10) (omega arith), digit (n % 10) (omega arith), pair_value-eq n) refl

module _ (first centis : ℕ) (small : centis < 100) where
  read_seconds :
      first < 60 → read_first first (b'.' ∷ two_digits centis []) ≡ some (first * 100 + centis)
  unfolding read_first read_colon
  read_seconds h =
      let below : ltb first 60 ≡ true = ground arith in
      rw (below, read_point-two_digits centis small) refl

  module _ (second : ℕ) (sexagesimal : second < 60) (shown : (first == 0) ≡ false) where
    read_minutes :
        first < 60
        → read_first first (b':' ∷ two_digits second (b'.' ∷ two_digits centis []))
          ≡ some ((first * 60 + second) * 100 + centis)
    unfolding read_first
    read_minutes h =
        let below : ltb first 60 ≡ true = ground arith in
        rw (read_colon-two_digits second (b'.' ∷ two_digits centis []) sexagesimal, shown)
          (unfold read_colon in rw (below, read_point-two_digits centis small) refl)

    read_hours :
        (third : ℕ)
        → third < 60
        → read_first first
            (b':' ∷ two_digits second (b':' ∷ two_digits third (b'.' ∷ two_digits centis [])))
          ≡ some (((first * 60 + second) * 60 + third) * 100 + centis)
    unfolding read_first
    read_hours third h =
        rw
          (
            read_colon-two_digits second (b':' ∷ two_digits third (b'.' ∷ two_digits centis []))
                sexagesimal,
            shown,
            read_colon-two_digits third (b'.' ∷ two_digits centis []) h,
            read_point-two_digits centis small,
          )
          refl

module _ (n : ℕ) where
  abbrev hours : ℕ
  hours = n / 360000

  abbrev minutes : ℕ
  minutes = n % 360000 / 6000

  abbrev seconds : ℕ
  seconds = n % 360000 % 6000 / 100

  abbrev centis : ℕ
  centis = n % 360000 % 6000 % 100

  -- The text that `clock` writes for a time of `n` centiseconds is one of `h:mm:ss.cc`, `m:ss.cc` and
  -- `s.cc`, with two digits below sixty after each colon, two digits after the point and no first field
  -- of zero before a colon, and shows exactly `n`.
  pub read_clock-clock : read_clock (clock (some n)) ≡ some n
  unfolding clock
  read_clock-clock = elim (Bool-cases (hours == 0)) [
    | inr long ↦ rw long (
        read_decimal hours _
        ∙ read_hours hours centis (omega arith) minutes (omega arith) long seconds (omega arith)
        ∙ ap some (omega arith))
    | inl short ↦ elim (Bool-cases (minutes == 0)) [
      | inr some_minutes ↦
          rw (short, some_minutes)
            (read_decimal minutes _
              ∙ read_minutes minutes centis (omega arith) seconds (omega arith) some_minutes
                  (omega arith)
              ∙ ap some (ground arith))
      | inl no_minutes ↦
          rw (short, no_minutes)
            (read_decimal seconds _
              ∙ read_seconds seconds centis (omega arith) (omega arith)
              ∙ ap some (ground arith))
    ]
  ]
