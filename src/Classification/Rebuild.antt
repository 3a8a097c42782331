-- ===== src/Classification/Rebuild.antt =====
-- The rebuilds of backend/apps/records/classification.py: from scratch, and of the live cells after the
-- baseline has changed. An exception stops a rebuild where it stands; `late` gives, for each revision,
-- the number of the head that its transaction reads again.
pub mod Order
pub mod Complete
use cubingnow.Prelude.{
  ℕ, Bool, true, false, not, ◌&&◌, Option, none, some, List, [], ◌∷◌, Text, text, text_eq, ◌==◌,
  if◌then◌else◌, any, select,
}
use cubingnow.Models.{CanonicalResult, CanonicalResultRevision}
use cubingnow.Scopes.{Countries}
use cubingnow.Reconciliation.Rows.{find_result}
use cubingnow.Timeline.{ClassificationKey, key_before}
use cubingnow.Work.{Classified, current, superseded, raised}
use cubingnow.Classification.{classify_revision}
use cubingnow.Classification.Rows.{World, is_retracted}
use cubingnow.Classification.Revisions.{classification_at}

-- `classification_key` of a revision.
abbrev pub revision_key : CanonicalResultRevision → ClassificationKey
revision_key r = (classification_at r.facts, r.canonical_result, r.revision)

unfoldable pub insert_revision :
    CanonicalResultRevision → List CanonicalResultRevision → List CanonicalResultRevision
unfolding key_before
insert_revision r [] = r ∷ []
insert_revision r (x ∷ rest) =
    let later = insert_revision r rest in
    if key_before (revision_key x) (revision_key r) then x ∷ later else r ∷ x ∷ rest

unfoldable pub sort_revisions : List CanonicalResultRevision → List CanonicalResultRevision
unfolding insert_revision
sort_revisions [] = []
sort_revisions (r ∷ rest) = insert_revision r (sort_revisions rest)

-- `seed_live_records_from_baseline`
unfoldable pub seed_live_records_from_baseline : World → World
seed_live_records_from_baseline world = record world { live = world.baseline }

-- The loop of a rebuild: what was raised, if anything, and the tables.
unfoldable pub classify_each :
    Countries
    → (CanonicalResultRevision → ℕ)
    → List CanonicalResultRevision
    → World
    → Option Text × World
unfolding classify_revision
classify_each countries late [] world = (none, world)
classify_each countries late (r ∷ rest) world =
    let (verdict, after) = classify_revision countries (late r) r world in
    elim verdict [
      | raised message ↦ (some message, after)
      | current ↦ classify_each countries late rest after
      | superseded ↦ classify_each countries late rest after
    ]

unfoldable pub rebuild_classification_from_scratch :
    Countries → (CanonicalResultRevision → ℕ) → Bool → World → Option Text × World
unfolding seed_live_records_from_baseline sort_revisions classify_each
rebuild_classification_from_scratch countries late has_baseline world =
    if not has_baseline
    then (some (text "Classification rebuild requires an active WCA baseline"), world)
    else classify_each countries late (sort_revisions world.revisions)
        (seed_live_records_from_baseline (record world { rows = [] }))

-- The revision of a head that is not retracted.
abbrev heads : World → CanonicalResultRevision → Bool
heads world r = elim (find_result r.canonical_result world.heads) [
  | some head ↦ (r.revision == head.revision) && not (is_retracted head.status)
  | none ↦ false
]

unfoldable pub rebuild_live_records_after_baseline_refresh :
    Countries → (CanonicalResultRevision → ℕ) → World → Option Text × World
unfolding seed_live_records_from_baseline sort_revisions classify_each text_eq find_result
rebuild_live_records_after_baseline_refresh countries late world =
    classify_each countries late
      (select (λ r. not (any (text_eq r.wca_competition_id) world.absorbed))
        (sort_revisions (select (heads world) world.revisions)))
      (seed_live_records_from_baseline world)
