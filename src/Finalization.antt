-- ===== src/Finalization.antt =====
-- backend/apps/records/finalization.py: when a competitor's result in a round can get no more
-- attempts. Attempt lists hold integers; 0 is a position that is not entered.
pub mod Positions
mod Tests
use cubingnow.Prelude.{
  ℕ, zero, suc, ◌+◌, ◌-◌, ◌*◌, ℤ, pos, negsuc, ltb_ℤ, eq_ℤ, pos_part, Bool, true, false, not, ◌&&◌,
  ◌||◌, Option, none, some, List, [], ◌∷◌, ◌++◌, Text, text, text_eq, upper, lower, or_text, leb,
  ltb, ◌==◌, if◌then◌else◌, length, take, drop, replicate, all, any,
}
use cubingnow.ResultValues.{is_better}

pub record RoundFinalizationRule : Type 0 where
  pub expected_attempts : ℤ
  pub cutoff_attempts : Option ℤ
  pub cutoff_value : Option ℤ

unfoldable pub attempt_is_entered : Option ℤ → Bool
attempt_is_entered none = false
attempt_is_entered (some value) = not (eq_ℤ value (pos 0))

abbrev pub entered : ℤ → Bool
entered value = attempt_is_entered (some value)

unfoldable pub all_expected_attempts_are_entered : List ℤ → ℤ → Bool
all_expected_attempts_are_entered attempts expected =
    if not (ltb_ℤ (pos 0) expected)
    then false
    else (let values = take (pos_part expected) attempts in
        (length values == pos_part expected) && all entered values)

-- `values`: the first expected attempts, padded with zeros to their number.
abbrev pub padded : List ℤ → ℕ → List ℤ
padded attempts expected =
    let values = take expected attempts in values ++ replicate (expected - length values) (pos 0)

-- What is left to decide once a rule has a cutoff of `count` attempts at `limit`.
unfoldable pub cutoff_is_final : Text → List ℤ → ℕ → ℤ → Bool
cutoff_is_final event_id values count limit =
    let cutoff_values = take count values in
    if not (all entered cutoff_values)
    then false
    else if any (λ value. is_better event_id (some value) (some limit)) cutoff_values
    then false
    else not (any entered (drop count values))

-- `has_cutoff` and what follows it.
cutoff_decides : Text → List ℤ → ℤ → Option ℤ → Option ℤ → Bool
cutoff_decides event_id values expected (some count) (some limit) =
    if ltb_ℤ (pos 0) count && ltb_ℤ count expected && ltb_ℤ (pos 0) limit
    then cutoff_is_final event_id values (pos_part count) limit
    else false
cutoff_decides event_id values expected _ _ = false

unfoldable pub round_result_is_finalized : List ℤ → RoundFinalizationRule → Text → Bool
unfolding cutoff_decides
round_result_is_finalized attempts rule event_id =
    if not (ltb_ℤ (pos 0) rule.expected_attempts)
    then false
    else (let values = padded attempts (pos_part rule.expected_attempts) in
        if all_expected_attempts_are_entered values rule.expected_attempts
        then true
        else cutoff_decides event_id values rule.expected_attempts rule.cutoff_attempts
            rule.cutoff_value)

-- `str.strip` on ASCII blanks.
is_blank : ℕ → Bool
is_blank c = (leb 9 c && leb c 13) || (leb 28 c && leb c 32)

strip_left : Text → Text
strip_left [] = []
strip_left (c ∷ s) = let rest = strip_left s in if is_blank c then rest else c ∷ s

strip_one : ℕ → Text → Text
strip_one c [] = if is_blank c then [] else c ∷ []
strip_one c (d ∷ rest) = c ∷ d ∷ rest

strip_end : Text → Text
strip_end [] = []
strip_end (c ∷ s) = let rest = strip_end s in strip_one c rest

strip : Text → Text
unfolding is_blank strip_left strip_end strip_one
strip s = strip_end (strip_left s)

-- `int(s)` of a text of ASCII digits with an optional sign; `none` is `ValueError`.
digits_value : ℕ → Text → Option ℕ
digits_value n [] = some n
digits_value n (c ∷ s) =
    let rest = digits_value (n * 10 + (c - 48)) s in if leb 48 c && leb c 57 then rest else none

unsigned_int : Text → Option ℕ
unfolding digits_value
unsigned_int [] = none
unsigned_int (c ∷ s) = digits_value 0 (c ∷ s)

negated : Option ℕ → Option ℤ
negated none = none
negated (some zero) = some (pos 0)
negated (some (suc n)) = some (negsuc n)

positive : Option ℕ → Option ℤ
positive none = none
positive (some n) = some (pos n)

parse_int : Text → Option ℤ
unfolding unsigned_int negated positive
parse_int [] = none
parse_int (c ∷ s) =
    if c == b'-'
    then negated (unsigned_int s)
    else if c == b'+'
    then positive (unsigned_int s)
    else positive (unsigned_int (c ∷ s))

unfoldable pub cubingchina_expected_attempts : Text → ℤ
unfolding strip lower parse_int text_eq
cubingchina_expected_attempts round_format =
    let normalized = lower (strip (or_text round_format (text "a"))) in
    if text_eq normalized (text "a")
    then pos 5
    else if text_eq normalized (text "m")
    then pos 3
    else elim (parse_int normalized) [ none ↦ pos 0 | some n ↦ n ]

-- The fields of a CubingChina round that the rule reads.
pub record RoundTarget : Type 0 where
  pub format : Text
  pub cutoff : Option ℤ
  pub event_id : Text

-- `int(target.cutoff or 0)`, times 100 where it is given in seconds.
scaled : Text → ℤ → ℤ
unfolding text_eq
scaled event_id (pos n) =
    if ltb 0 n && not (text_eq event_id (text "333fm")) then pos (n * 100) else pos n
scaled event_id (negsuc n) = negsuc n

cutoff_of : RoundTarget → ℤ
unfolding scaled
cutoff_of target = scaled target.event_id (elim target.cutoff [ none ↦ pos 0 | some n ↦ n ])

unfoldable pub cubingchina_finalization_rule : RoundTarget → RoundFinalizationRule
unfolding cubingchina_expected_attempts cutoff_of lower text_eq
cubingchina_finalization_rule target =
    let expected = cubingchina_expected_attempts target.format in
    let cutoff_value = cutoff_of target in
    let cutoff_attempts : ℤ =
      if text_eq (lower (or_text target.format (text "a"))) (text "a") then pos 2 else pos 1 in
    record {
      expected_attempts = expected;
      cutoff_attempts = if ltb_ℤ (pos 0) cutoff_value then some cutoff_attempts else none;
      cutoff_value = if ltb_ℤ (pos 0) cutoff_value then some cutoff_value else none;
    }
