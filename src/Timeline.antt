-- ===== src/Timeline.antt =====
-- backend/apps/records/classification.py, one timeline: the results of one event and kind at one
-- record level and scope, in classification order, each with its record-level row. `replay` and
-- `adjudicate` are the loops of `repair_timeline` and `_adjudicate_timeline` over these rows.
pub mod Replay
pub mod Incremental
pub mod Groups
pub mod Adjudication
pub mod Holders
mod Tests
use cubingnow.Prelude.{
  ℕ, ◌+◌, ℤ, pos, ltb_ℤ, eq_ℤ, Bool, true, false, not, ◌&&◌, ◌||◌, Option, none, some, List, [],
  ◌∷◌, ◌++◌, map, Text, text_eq, nonempty, or_text, ltb, ◌==◌, if◌then◌else◌, length, select, any,
  is_some, ℕ_discrete,
}
use cubingnow.Models.{
  Kind, RecordLevel, Facts, ProcessedResult, Outcome, broken, tied, Recognition, not_applicable,
  recognized, superseded_same_round, superseded_same_day, CeasedHoldingReason, blank,
  self_later_round, other_later_round, self_other_competition, other_other_competition, Level,
}

-- A row of the timeline: a processed result and its row for the level at hand.
pub record Entry : Type 0 where
  pub result : ProcessedResult
  pub level : Level

abbrev pub value_of : Entry → ℤ
value_of e = e.result.value

-- `classification_key`, and Python's `<` on these triples.
abbrev pub ClassificationKey : Type 0
ClassificationKey = ℕ × ℕ × ℕ

abbrev pub classification_key : ProcessedResult → ClassificationKey
classification_key r = (r.classification_at, r.canonical_result, r.canonical_revision)

unfoldable pub key_before : ClassificationKey → ClassificationKey → Bool
key_before (t, c, r) (t', c', r') = ltb t t' || ((t == t') && (ltb c c' || ((c == c') && ltb r r')))

abbrev pub before : Entry → Entry → Bool
before a b = key_before (classification_key a.result) (classification_key b.result)

-- `_compare`
unfoldable pub compare_value : ℤ → Option ℤ → Outcome
compare_value value none = broken
compare_value value (some incumbent) =
    if ltb_ℤ value incumbent then broken else if eq_ℤ value incumbent then tied else Outcome.none

abbrev pub is_none : Outcome → Bool
is_none Outcome.none = true
is_none broken = false
is_none tied = false

abbrev pub is_broken : Outcome → Bool
is_broken broken = true
is_broken Outcome.none = false
is_broken tied = false

abbrev pub is_recognized : Recognition → Bool
is_recognized recognized = true
is_recognized not_applicable = false
is_recognized superseded_same_round = false
is_recognized superseded_same_day = false

abbrev pub is_superseded_same_round : Recognition → Bool
is_superseded_same_round superseded_same_round = true
is_superseded_same_round not_applicable = false
is_superseded_same_round recognized = false
is_superseded_same_round superseded_same_day = false

-- One turn of the loop in `repair_timeline`: the row is judged against the incumbent.
unfoldable pub judge : Option ℤ → Text → Entry → Entry
unfolding compare_value
judge incumbent scope e =
    let outcome = compare_value e.result.value incumbent in
    record e {
      level = record e.level {
        record_scope = scope;
        incumbent_value = incumbent;
        classification_outcome = outcome;
        recognition_status = if is_none outcome then not_applicable else recognized;
        is_shared_tie = false;
        currently_holds = false;
        ceased_holding_reason = blank;
        ceased_holding_by = none;
        superseded_by = none;
      };
    }

-- The incumbent after a row.
unfoldable pub advance : Option ℤ → ℤ → Option ℤ
unfolding compare_value
advance incumbent value =
    if is_broken (compare_value value incumbent) then some value else incumbent

-- The loop of `repair_timeline`: the judged rows and the last incumbent.
unfoldable pub replay : Option ℤ → Text → List Entry → List Entry × Option ℤ
replay incumbent scope [] = ([], incumbent)
replay incumbent scope (e ∷ rest) =
    let (rest', final) = replay (advance incumbent e.result.value) scope rest in
    (judge incumbent scope e ∷ rest', final)

-- `qualifying`
abbrev pub qualifies : Entry → Bool
qualifies e = not (is_none e.level.classification_outcome)

-- The first loop of `_adjudicate_timeline`.
unfoldable pub reset : Entry → Entry
reset e = record e {
  level = record e.level {
    recognition_status = if qualifies e then recognized else not_applicable;
    is_shared_tie = false;
    currently_holds = false;
    ceased_holding_reason = blank;
    ceased_holding_by = none;
    superseded_by = none;
  };
}

-- `row.round_id or row.round_number`
pub data RoundKey : Type 0 where
  by_id : Text → RoundKey
  by_number : Option ℕ → RoundKey

round_key : Text → Option ℕ → RoundKey
round_key [] number = by_number number
round_key (c ∷ id) number = by_id (c ∷ id)

pub record RoundGroup : Type 0 where
  pub competition : Text
  pub event_id : Text
  pub round : RoundKey
  pub kind : Kind
  pub scope : Text

unfoldable pub RoundGroup-discrete : Discrete RoundGroup
RoundGroup-discrete = hlevel ℕ_discrete

unfoldable pub same_round_key : ProcessedResult → Text → RoundGroup
unfolding round_key
same_round_key row scope = record {
  competition = or_text row.wca_competition_id row.competition_name;
  event_id = row.event_id;
  round = round_key row.round_id row.round_number;
  kind = row.kind;
  scope = scope;
}

pub record DayGroup : Type 0 where
  pub date : ℕ
  pub event_id : Text
  pub kind : Kind
  pub scope : Text

unfoldable pub DayGroup-discrete : Discrete DayGroup
DayGroup-discrete = hlevel ℕ_discrete

unfoldable pub same_day_key : ProcessedResult → Text → Option DayGroup
same_day_key row scope = elim row.competition_local_date [
  | none ↦ none
  | some date ↦
      some (record { date = date; event_id = row.event_id; kind = row.kind; scope = scope })
]

abbrev is_yes {ℓ} : {A : Type ℓ} → Dec A → Bool
is_yes (yes _) = true
is_yes (no _) = false

-- Two rows are in one group of `round_groups`.
unfoldable pub same_round : Text → ProcessedResult → ProcessedResult → Bool
unfolding same_round_key RoundGroup-discrete
same_round scope a b =
    is_yes (RoundGroup-discrete (same_round_key a scope) (same_round_key b scope))

same_day_group : Option DayGroup → Option DayGroup → Bool
unfolding DayGroup-discrete
same_day_group (some a) (some b) = is_yes (DayGroup-discrete a b)
same_day_group (some a) none = false
same_day_group none b = false

-- Two rows are in one group of `day_groups`, which leaves out rows with no local date.
unfoldable pub same_day : Text → ProcessedResult → ProcessedResult → Bool
unfolding same_day_key same_day_group
same_day scope a b = same_day_group (same_day_key a scope) (same_day_key b scope)

-- Python's `min(rows, key=…)` over `first` and `rows`: the first of the least.
unfoldable pub least {ℓ} : {A : Type ℓ} → (A → A → Bool) → A → List A → A
least lt first [] = first
least lt first (x ∷ xs) = least lt (if lt x first then x else first) xs

abbrev pub less_value : Entry → Entry → Bool
less_value a b = ltb_ℤ (value_of a) (value_of b)

-- `best`, over the group of `e`, which holds `e`.
unfoldable pub best_value : Entry → List Entry → ℤ
unfolding least
best_value e group = value_of (least less_value e group)

-- `winner`: of the group's rows at the best value the first in classification order.
unfoldable pub winner : Entry → List Entry → Entry
unfolding best_value least
winner e group =
    let best = least less_value e group in
    least before best (select (λ r. eq_ℤ (value_of r) (value_of best)) group)

supersede : Recognition → Entry → Entry → Entry
supersede status by e = record e {
  level = record e.level { recognition_status = status; superseded_by = some by.result.pk };
}

-- The loop over `round_groups`, at one row; `rows` are the qualifying rows.
unfoldable pub mark_round : Text → List Entry → Entry → Entry
unfolding supersede
mark_round scope rows e =
    let group = select (λ r. same_round scope e.result r.result) rows in
    if qualifies e && ltb_ℤ (best_value e group) (value_of e)
    then supersede superseded_same_round (winner e group) e
    else e

-- The loop over `day_groups`, at one row.
unfoldable pub mark_day : Text → List Entry → Entry → Entry
unfolding supersede
mark_day scope rows e =
    let group = select (λ r. same_day scope e.result r.result) rows in
    if is_some e.result.competition_local_date
      && qualifies e
      && ltb_ℤ (best_value e group) (value_of e)
      && not (is_superseded_same_round e.level.recognition_status)
    then supersede superseded_same_day (winner e group) e
    else e

-- `value_groups[value] > 1`
unfoldable pub shares_value : List Entry → Entry → Bool
shares_value rows e = ltb 1 (length (select (λ r. eq_ℤ (value_of r) (value_of e)) rows))

abbrev pub breaks : Entry → Entry → Bool
breaks e later =
    before e later
    && ltb_ℤ (value_of later) (value_of e)
    && is_recognized later.level.recognition_status

-- `next((…), None)`
unfoldable pub first_where {ℓ} : {A : Type ℓ} → (A → Bool) → List A → Option A
first_where p [] = none
first_where p (x ∷ xs) = let rest = first_where p xs in if p x then some x else rest

-- `_same_competition`
same_competition : ProcessedResult → ProcessedResult → Bool
unfolding text_eq
same_competition left right =
    if nonempty left.wca_competition_id && nonempty right.wca_competition_id
    then text_eq left.wca_competition_id right.wca_competition_id
    else text_eq left.competition_name right.competition_name

same_person : ProcessedResult → ProcessedResult → Bool
unfolding text_eq
same_person result breaker =
    nonempty result.competitor_wca_id && text_eq result.competitor_wca_id breaker.competitor_wca_id

unfoldable pub ceased_reason : ProcessedResult → ProcessedResult → CeasedHoldingReason
unfolding same_competition same_person
ceased_reason result breaker =
    if same_competition result breaker && same_person result breaker
    then self_later_round
    else if same_competition result breaker
    then other_later_round
    else if same_person result breaker
    then self_other_competition
    else other_other_competition

unfoldable pub holds_value : Option ℤ → ℤ → Bool
holds_value none value = false
holds_value (some final) value = eq_ℤ value final

unfoldable pub cease : Option Entry → Entry → Entry
cease none e = e
cease (some breaker) e = record e {
  level = record e.level {
    ceased_holding_reason = ceased_reason e.result breaker.result;
    ceased_holding_by = some breaker.result.pk;
  };
}

unfoldable pub share : Bool → Entry → Entry
share shared e = record e { level = record e.level { is_shared_tie = shared } }

unfoldable pub hold : Entry → Entry
hold e = record e { level = record e.level { currently_holds = true } }

-- The last loop, at one row: shared ties, current holders, and who broke a record.
unfoldable pub settle : Option ℤ → List Entry → Entry → Entry
settle final rows e =
    let e' = share (shares_value rows e) e in
    let recognized_now = is_recognized e.level.recognition_status in
    if not (qualifies e)
    then e
    else if recognized_now && holds_value final (value_of e)
    then hold e'
    else if not recognized_now
    then e'
    else cease (first_where (breaks e) rows) e'

-- `_adjudicate_timeline` on the rows of the timeline, with the value of the live cell.
unfoldable pub adjudicate : Text → Option ℤ → List Entry → List Entry
adjudicate scope final entries =
    let reset_rows = map reset entries in
    let round_rows = map (mark_round scope (select qualifies reset_rows)) reset_rows in
    let day_rows = map (mark_day scope (select qualifies round_rows)) round_rows in
    map (settle final (select qualifies day_rows)) day_rows

-- `repair_timeline` on one cell: replay the rows from the baseline, store the last incumbent as the
-- live value, and adjudicate. The live value stands beside the rows.
unfoldable pub repair_cell : Option ℤ → Text → List Entry → List Entry × Option ℤ
repair_cell base scope entries =
    let (rows, final) = replay base scope entries in (adjudicate scope final rows, final)

-- The body of the level loop of `_classify_incremental`: the new row against the live value.
unfoldable pub judge_incremental : Option ℤ → Text → Entry → Entry
unfolding compare_value
judge_incremental incumbent scope e =
    let outcome = compare_value e.result.value incumbent in
    record e {
      level = record e.level {
        record_scope = scope;
        incumbent_value = incumbent;
        classification_outcome = outcome;
        recognition_status = if is_none outcome then not_applicable else recognized;
      };
    }

-- `_classify_incremental` on one cell, for a row that comes behind all others: judge it, advance the
-- live value, and adjudicate the timeline that now ends with it.
unfoldable pub classify_cell : Text → List Entry × Option ℤ → Entry → List Entry × Option ℤ
classify_cell scope (rows, live) e =
    let live' = advance live e.result.value in
    (adjudicate scope live' (rows ++ judge_incremental live scope e ∷ []), live')
