-- ===== src/Reconciliation/Rows.antt =====
-- The tables that reconciliation reads and writes, and the queries it makes. New revisions and work
-- rows stand in front of the older ones, other rows behind.
use cubingnow.Prelude.{
  ℕ, suc, max, Bool, ◌&&◌, Option, none, some, List, [], ◌∷◌, Text, text_eq, ltb, ◌==◌,
  if◌then◌else◌, select, all,
}
use cubingnow.Models.{CanonicalResult, CanonicalResultRevision, ResultObservation}
use cubingnow.Observation.{NormalizedResultObservation, source_text, kind_text}
use cubingnow.Timeline.{least}
use cubingnow.Work.{Queue}

pub record Store : Type 0 where
  pub scopes : List Text
  pub results : List CanonicalResult
  pub observations : List ResultObservation
  pub revisions : List CanonicalResultRevision
  pub work : Queue

-- The next primary key of a table from which nothing is deleted.
unfoldable pub new_pk : List ℕ → ℕ
new_pk [] = 1
new_pk (pk ∷ pks) = max (suc pk) (new_pk pks)

unfoldable pub find_result : ℕ → List CanonicalResult → Option CanonicalResult
find_result pk [] = none
find_result pk (r ∷ rest) = let later = find_result pk rest in if r.pk == pk then some r else later

-- `filter(identity_key=key).first()`
unfoldable pub result_by_key : Text → List CanonicalResult → Option CanonicalResult
unfolding text_eq
result_by_key key [] = none
result_by_key key (r ∷ rest) =
    let later = result_by_key key rest in if text_eq r.identity_key key then some r else later

unfoldable pub save_result : CanonicalResult → List CanonicalResult → List CanonicalResult
save_result result [] = []
save_result result (r ∷ rest) = (if r.pk == result.pk then result else r) ∷ save_result result rest

unfoldable pub find_observation : Text → List ResultObservation → Option ResultObservation
unfolding text_eq
find_observation key [] = none
find_observation key (o ∷ rest) =
    let later = find_observation key rest in if text_eq o.observation_key key then some o else later

unfoldable pub save_observation :
    ResultObservation → List ResultObservation → List ResultObservation
save_observation observation [] = []
save_observation observation (o ∷ rest) =
    (if o.pk == observation.pk then observation else o) ∷ save_observation observation rest

-- `result.observations`
unfoldable pub observations_of : ℕ → List ResultObservation → List ResultObservation
observations_of pk observations = select (λ o. o.canonical_result == pk) observations

of_same_source : NormalizedResultObservation → ResultObservation → Bool
unfolding text_eq
of_same_source data' o =
    text_eq (source_text o.source) (source_text data'.source)
    && text_eq o.source_result_identity data'.source_result_identity
    && text_eq (kind_text o.kind) (kind_text data'.kind)

one_result : List ResultObservation → Option ℕ
one_result [] = none
one_result (first ∷ rest) =
    if all (λ o. o.canonical_result == first.canonical_result) rest
    then some first.canonical_result
    else none

-- `_same_source_canonical`, as a primary key.
unfoldable pub same_source_canonical : NormalizedResultObservation → Store → Option ℕ
unfolding of_same_source one_result
same_source_canonical data' store = one_result (select (of_same_source data') store.observations)

-- `result.revisions.order_by("-revision").first()`
abbrev pub newer : CanonicalResultRevision → CanonicalResultRevision → Bool
newer a b = ltb b.revision a.revision

unfoldable pub newest : List CanonicalResultRevision → Option CanonicalResultRevision
newest [] = none
newest (r ∷ rest) = some (least newer r rest)

unfoldable pub revisions_of : ℕ → List CanonicalResultRevision → List CanonicalResultRevision
revisions_of pk revisions = select (λ r. r.canonical_result == pk) revisions
