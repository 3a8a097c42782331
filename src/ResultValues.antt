-- ===== src/ResultValues.antt =====
-- backend/integrations/wca_live/result_values.py: the integer encoding of WCA results, their
-- order, and the text that is shown. A missing value (`None`) is `none`.
pub mod Order
pub mod Decode
pub mod Clock
mod Tests
use cubingnow.Prelude.{
  ℕ, zero, suc, ◌+◌, ◌-◌, ◌*◌, ◌/◌, ◌%◌, ℤ, pos, negsuc, ltb_ℤ, eq_ℤ, Bool, true, false, not, ◌&&◌,
  ◌||◌, Option, none, some, List, [], ◌∷◌, ◌++◌, Text, text, text_eq, ltb, ◌==◌, if◌then◌else◌,
}

abbrev pub skipped : ℤ
skipped = pos 0

abbrev pub dnf : ℤ
dnf = negsuc 0

abbrev pub dns : ℤ
dns = negsuc 1

unfoldable pub is_complete : Option ℤ → Bool
is_complete none = false
is_complete (some value) = ltb_ℤ (pos 0) value

-- `int(value)` of a value that is there.
abbrev pub int_of : Option ℤ → ℤ
int_of none = pos 0
int_of (some value) = value

unfoldable pub comparison_key : Text → Option ℤ → ℕ × ℤ
unfolding is_complete text_eq
comparison_key event_id value =
    if not (is_complete value)
    then (1, pos 0)
    else if text_eq event_id (text "333mbf")
    then (0, int_of value)
    else if text_eq event_id (text "333fm")
    then (0, int_of value)
    else (0, int_of value)

-- Python's `<` and `<=` on the pairs.
abbrev pub key_lt : ℕ × ℤ → ℕ × ℤ → Bool
key_lt (a, x) (b, y) = ltb a b || ((a == b) && ltb_ℤ x y)

abbrev pub key_le : ℕ × ℤ → ℕ × ℤ → Bool
key_le (a, x) (b, y) = ltb a b || ((a == b) && not (ltb_ℤ y x))

unfoldable pub is_better : Text → Option ℤ → Option ℤ → Bool
unfolding comparison_key
is_better event_id candidate incumbent =
    if not (is_complete candidate)
    then false
    else if not (is_complete incumbent)
    then true
    else key_lt (comparison_key event_id candidate) (comparison_key event_id incumbent)

pub record MultiBlindResult : Type 0 where
  pub solved : ℕ
  pub attempted : ℕ
  pub centiseconds : Option ℕ

decode_positive : ℕ → MultiBlindResult
decode_positive value =
    let missed = value % 100 in
    let seconds = (value / 100) % 100000 in
    let points = 99 - ((value / 10000000) % 100) in
    let solved = points + missed in
    record {
      solved = solved;
      attempted = solved + missed;
      centiseconds = if seconds == 99999 then none else some (seconds * 100);
    }

unfoldable pub decode_multi_blind : ℤ → MultiBlindResult
unfolding decode_positive
decode_multi_blind (negsuc _) = record { solved = 0; attempted = 0; centiseconds = none }
decode_multi_blind (pos zero) = record { solved = 0; attempted = 0; centiseconds = none }
decode_multi_blind (pos (suc n)) = decode_positive (suc n)

-- `str(n)` of a number that is not negative, in front of `rest`; the fuel `n + 1` is enough.
decimal_fuel : ℕ → ℕ → Text → Text
decimal_fuel zero n rest = rest
decimal_fuel (suc fuel) n rest =
    let more = decimal_fuel fuel (n / 10) ((48 + n % 10) ∷ rest) in
    if ltb n 10 then (48 + n) ∷ rest else more

unfoldable pub decimal : ℕ → Text → Text
unfolding decimal_fuel
decimal n rest = decimal_fuel (suc n) n rest

-- `f"{n:02d}"` of a number below 100, in front of `rest`.
abbrev pub two_digits : ℕ → Text → Text
two_digits n rest = (48 + n / 10) ∷ (48 + n % 10) ∷ rest

unfoldable pub clock : Option ℕ → Text
clock none = []
clock (some centiseconds) =
    let hours = centiseconds / 360000 in
    let after_hours = centiseconds % 360000 in
    let minutes = after_hours / 6000 in
    let after_minutes = after_hours % 6000 in
    let seconds = after_minutes / 100 in
    let centis = after_minutes % 100 in
    if not (hours == 0)
    then decimal hours
        (b':' ∷ two_digits minutes (b':' ∷ two_digits seconds (b'.' ∷ two_digits centis [])))
    else if not (minutes == 0)
    then decimal minutes (b':' ∷ two_digits seconds (b'.' ∷ two_digits centis []))
    else decimal seconds (b'.' ∷ two_digits centis [])

-- `s.removesuffix(".00")`
unfoldable pub without_zero_centis : Text → Text
without_zero_centis [] = []
without_zero_centis (c ∷ s) =
    let rest = without_zero_centis s in if text_eq (c ∷ s) (text ".00") then [] else c ∷ rest

-- `s.strip()` at the right end, on the one blank that `f"{solved}/{attempted} {clock}"` can leave.
strip_right : Text → Text
strip_right [] = []
strip_right (c ∷ s) =
    let rest = strip_right s in if text_eq (c ∷ s) (text " ") then [] else c ∷ rest

-- The mean of an FMC average, stored times 100: `f"{value / 100:.2f}".rstrip("0")`, with one zero
-- after a bare point.
fewest_moves_average : ℕ → Text
unfolding decimal
fewest_moves_average value =
    let whole = value / 100 in
    let tenths = (value / 10) % 10 in
    let hundredths = value % 10 in
    if not (hundredths == 0)
    then decimal whole (b'.' ∷ (48 + tenths) ∷ (48 + hundredths) ∷ [])
    else decimal whole (b'.' ∷ (48 + tenths) ∷ [])

format_positive : Text → Text → ℕ → Text
unfolding decode_multi_blind decimal clock without_zero_centis strip_right fewest_moves_average
    text_eq
format_positive event_id kind value =
    if text_eq event_id (text "333mbf")
    then (let decoded = decode_multi_blind (pos value) in
        let shown = without_zero_centis (clock decoded.centiseconds) in
        strip_right (decimal decoded.solved (b'/' ∷ decimal decoded.attempted (b' ' ∷ shown))))
    else if text_eq event_id (text "333fm")
    then (if text_eq kind (text "average") then fewest_moves_average value else decimal value [])
    else clock (some value)

unfoldable pub format_result : Text → Text → Option ℤ → Text
unfolding format_positive
format_result event_id kind none = []
format_result event_id kind (some (pos zero)) = []
format_result event_id kind (some (pos (suc n))) = format_positive event_id kind (suc n)
format_result event_id kind (some (negsuc n)) =
    if eq_ℤ (negsuc n) dnf
    then text "DNF"
    else if eq_ℤ (negsuc n) dns
    then text "DNS"
    else text "Invalid"
