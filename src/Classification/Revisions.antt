-- ===== src/Classification/Revisions.antt =====
-- What `classify_revision` does before it touches a timeline: the processed result of a revision, the
-- older ones it replaces, and the scopes that a revision affects.
use cubingnow.Prelude.{
  ℕ, Bool, true, false, not, ◌&&◌, ◌||◌, Option, none, some, List, [], ◌∷◌, ◌++◌, ◌+◌, map, Text,
  text, text_eq, text_compare_lt, nonempty, ltb, ◌==◌, if◌then◌else◌, select,
}
use cubingnow.Models.{
  RecordLevel, world, continental, national, personal, Facts, CanonicalResultRevision,
  ProcessedResult, Level, Outcome, not_applicable, blank, Action, ValidationStatus,
}
use cubingnow.Scopes.{Countries, record_scope}
use cubingnow.RecordValidation.{level_text}
use cubingnow.ResultValues.{is_complete}
use cubingnow.Reconciliation.Rows.{newest}
use cubingnow.Classification.Rows.{Row, Levels, World, record_levels, change_row, is_retracted}

-- `CanonicalResultRevision.classification_at`
abbrev pub classification_at : Facts → ℕ
classification_at facts = elim facts.entered_at [ some t ↦ t | none ↦ facts.first_observed_at ]

abbrev pub is_retraction : Action → Bool
is_retraction Action.retracted = true
is_retraction Action.active = false
is_retraction Action.corrected = false

abbrev is_rejected : ValidationStatus → Bool
is_rejected ValidationStatus.rejected = true
is_rejected ValidationStatus.verified = false
is_rejected ValidationStatus.pending = false

-- `_revision_is_valid`
unfoldable pub revision_is_valid : CanonicalResultRevision → Bool
unfolding is_complete
revision_is_valid revision =
    not (is_retraction revision.action)
    && not (is_retracted revision.canonical_status)
    && not (is_rejected revision.validation_status)
    && is_complete (some revision.value)

-- `_processed_defaults`, with the key and the replacement that the row has.
unfoldable pub processed_result : CanonicalResultRevision → ℕ → Option ℕ → ProcessedResult
unfolding revision_is_valid
processed_result revision pk replacement = record {
  pk = pk;
  canonical_result = revision.canonical_result;
  canonical_revision = revision.revision;
  facts = revision.facts;
  last_observed_at = revision.last_observed_at;
  canonical_status = revision.canonical_status;
  classification_at = classification_at revision.facts;
  is_valid_result = revision_is_valid revision;
  invalidity_reason =
      if is_retraction revision.action
      then text "retracted_result"
      else if not (revision_is_valid revision)
      then text "invalid_canonical_result"
      else [];
  replacement = replacement;
}

abbrev pub new_level : RecordLevel → Text → Level
new_level level scope = record {
  record_level = level;
  record_scope = scope;
  incumbent_value = none;
  classification_outcome = Outcome.none;
  recognition_status = not_applicable;
  is_shared_tie = false;
  currently_holds = false;
  ceased_holding_reason = blank;
  ceased_holding_by = none;
  superseded_by = none;
}

abbrev pub new_levels : Countries → Facts → Levels
new_levels countries facts = record {
  world_level = new_level world (record_scope countries facts world);
  continental_level = new_level continental (record_scope countries facts continental);
  national_level = new_level national (record_scope countries facts national);
  personal_level = new_level personal (record_scope countries facts personal);
}

abbrev of_revision : CanonicalResultRevision → Row → Bool
of_revision revision row =
    (row.result.canonical_result == revision.canonical_result)
    && (row.result.canonical_revision == revision.revision)

unfoldable pub find_row : CanonicalResultRevision → List Row → Option Row
find_row revision [] = none
find_row revision (row ∷ rest) =
    let later = find_row revision rest in if of_revision revision row then some row else later

unfoldable pub materialized :
    Countries → CanonicalResultRevision → Option Row → World → ProcessedResult × World
unfolding processed_result change_row
materialized countries revision (some row) w =
    let processed = processed_result revision row.result.pk row.result.replacement in
    (
      processed,
      record w { rows = change_row processed.pk (λ r. record r { result = processed }) w.rows },
    )
materialized countries revision none w =
    let processed = processed_result revision w.next_pk none in
    (
      processed,
      record w {
        rows =
            w.rows
            ++ record { result = processed; levels = new_levels countries processed.facts } ∷ [];
        next_pk = w.next_pk + 1;
      },
    )

-- `_materialize_processed_result`
unfoldable pub materialize : Countries → CanonicalResultRevision → World → ProcessedResult × World
unfolding materialized find_row
materialize countries revision w = materialized countries revision (find_row revision w.rows) w

abbrev pub is_older : ProcessedResult → ProcessedResult → Bool
is_older processed r =
    (r.canonical_result == processed.canonical_result)
    && ltb r.canonical_revision processed.canonical_revision
    && r.is_valid_result

abbrev no_longer_holds : Level → Level
no_longer_holds level = record level { currently_holds = false }

unfoldable pub invalidated : ProcessedResult → Action → Row → Row
invalidated processed action row = record {
  result = record row.result {
    is_valid_result = false;
    invalidity_reason =
        if is_retraction action then text "retracted_result" else text "corrected_result";
    replacement = some processed.pk;
  };
  levels = record {
    world_level = no_longer_holds row.levels.world_level;
    continental_level = no_longer_holds row.levels.continental_level;
    national_level = no_longer_holds row.levels.national_level;
    personal_level = no_longer_holds row.levels.personal_level;
  };
}

-- `_invalidate_older_revisions`
unfoldable pub invalidate_older : ProcessedResult → Action → World → World
unfolding invalidated
invalidate_older processed action w = record w {
  rows =
      map (λ row. if is_older processed row.result then invalidated processed action row else row)
        w.rows;
}

-- The revision before this one.
unfoldable pub previous_revision : CanonicalResultRevision → World → Option CanonicalResultRevision
unfolding newest
previous_revision revision w = newest (
    select
      (λ r. (r.canonical_result == revision.canonical_result) && ltb r.revision revision.revision)
      w.revisions)

-- The scopes of all levels that have one.
unfoldable pub scopes_of : Countries → Facts → List RecordLevel → List (RecordLevel × Text)
unfolding record_scope
scopes_of countries facts [] = []
scopes_of countries facts (level ∷ rest) =
    let more = scopes_of countries facts rest in
    if nonempty (record_scope countries facts level)
    then (level, record_scope countries facts level) ∷ more
    else more

-- `sorted` of a set of pairs of texts: each once, by level and then by scope.
abbrev same_scope : RecordLevel × Text → RecordLevel × Text → Bool
same_scope (l, s) (m, t) = text_eq (level_text l) (level_text m) && text_eq s t

abbrev scope_before : RecordLevel × Text → RecordLevel × Text → Bool
scope_before (l, s) (m, t) =
    text_compare_lt (level_text l) (level_text m)
    || (text_eq (level_text l) (level_text m) && text_compare_lt s t)

unfoldable pub insert_scope :
    RecordLevel × Text → List (RecordLevel × Text) → List (RecordLevel × Text)
unfolding text_eq text_compare_lt
insert_scope x [] = x ∷ []
insert_scope x (y ∷ rest) =
    let later = insert_scope x rest in
    if same_scope x y then y ∷ rest else if scope_before x y then x ∷ y ∷ rest else y ∷ later

unfoldable pub sorted_scopes : List (RecordLevel × Text) → List (RecordLevel × Text)
unfolding insert_scope
sorted_scopes [] = []
sorted_scopes (x ∷ rest) = insert_scope x (sorted_scopes rest)

abbrev scopes_of_previous : Countries → Option CanonicalResultRevision → List (RecordLevel × Text)
scopes_of_previous countries none = []
scopes_of_previous countries (some previous) = scopes_of countries previous.facts record_levels

-- `sorted(_affected_scopes(…))`
unfoldable pub affected_scopes :
    Countries → CanonicalResultRevision → ProcessedResult → World → List (RecordLevel × Text)
unfolding scopes_of sorted_scopes previous_revision
affected_scopes countries revision processed w = sorted_scopes (
    scopes_of countries processed.facts record_levels
    ++ scopes_of_previous countries (previous_revision revision w))
