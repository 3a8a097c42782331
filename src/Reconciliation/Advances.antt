-- ===== src/Reconciliation/Advances.antt =====
-- What the parts of a reconciliation transaction do to a coherent store.
use cubingnow.Prelude.{
  ℕ, Option, none, some, Text, text, ◌≡◌, refl, ◌∙◌, inl, inr, any, Bool-cases, Option-cases,
  text_eq, ◌==◌,
}
use cubingnow.Models.{CanonicalResult, ResultObservation}
use cubingnow.Observation.{NormalizedResultObservation, natural_result_prefix}
use cubingnow.RecordValidation.{is_active}
use cubingnow.Work.{Queue}
use cubingnow.Work.Reach.{Reach, here, next}
use cubingnow.Reconciliation.Rows.{Store, find_result, result_by_key}
use cubingnow.Reconciliation.Head.{Setting}
use cubingnow.Reconciliation.{
  refresh_and_enqueue, refresh_at, refresh_found, enqueue_found, retract_found,
}
use cubingnow.Reconciliation.Observe.{
  starts_with, claim_key, found_existing, find_canonical, found_new, inserted, create_canonical,
  find_or_create, prefer_natural, with_scope, record_observation, refresh_previous,
}
use cubingnow.Reconciliation.Enqueue.{IsCoherent, snapshot_and_enqueue-Reach}

-- A write that leaves revisions and work alone.
abbrev pub Keeps : Store → Store → Type 0
Keeps s s' = (s'.revisions ≡ s.revisions) × (s'.work ≡ s.work)

pub Keeps-trans : (s s' s'' : Store) → Keeps s s' → Keeps s' s'' → Keeps s s''
Keeps-trans s s' s'' (a, b) (c, d) = (c ∙ a, d ∙ b)

-- What every transaction does to a coherent store.
abbrev pub Advances : Store → Store → Type 0
Advances s s' = IsCoherent s → IsCoherent s' × Reach s.work s'.work

pub Reach-trans : {q r s : Queue} → Reach q r → Reach r s → Reach q s
Reach-trans a here = a
Reach-trans a (next b step) = next (Reach-trans a b) step

pub Advances-trans : (s s' s'' : Store) → Advances s s' → Advances s' s'' → Advances s s''
Advances-trans s s' s'' f g co =
    let (co', a) = f co in let (co'', b) = g co' in (co'', Reach-trans a b)

pub Keeps-IsCoherent : (s s' : Store) → Keeps s s' → Advances s s'
Keeps-IsCoherent s s' (e, f) co =
    (record { chains = rw e co.chains; backed = rw (e, f) co.backed }, rw f here)

refresh_found-Advances :
    (setting : Setting) (now : ℕ) (found : Option CanonicalResult) (s : Store)
    → Advances s (refresh_found setting now found s)
unfolding refresh_and_enqueue
refresh_found-Advances setting now none s co = (co, here)
refresh_found-Advances setting now (some r) s co = snapshot_and_enqueue-Reach now _ s co

pub refresh_at-Advances :
    (setting : Setting) (now pk : ℕ) (s : Store) → Advances s (refresh_at setting now pk s)
unfolding refresh_at
refresh_at-Advances setting now pk s =
    refresh_found-Advances setting now (find_result pk s.results) s

pub refresh_previous-Advances :
    (setting : Setting) (now pk : ℕ) (previous : Option CanonicalResult) (s : Store)
    → Advances s (refresh_previous setting now pk previous s)
unfolding refresh_previous
refresh_previous-Advances setting now pk none s = λ co. (co, here)
refresh_previous-Advances setting now pk (some r) s = elim (Bool-cases (r.pk == pk)) [
  | inl e ↦ rw e (λ co. (co, here))
  | inr e ↦ rw e (refresh_at-Advances setting now r.pk s)
]

pub enqueue_found-Advances :
    (now : ℕ) (found : Option CanonicalResult) (s : Store) → Advances s (enqueue_found now found s)
unfolding enqueue_found
enqueue_found-Advances now none s co = (co, here)
enqueue_found-Advances now (some r) s co = snapshot_and_enqueue-Reach now r s co

pub retract_found-Advances :
    (setting : Setting) (now at : ℕ) (found : Option ResultObservation) (s : Store)
    → Advances s (retract_found setting now at found s).1
unfolding retract_found
retract_found-Advances setting now at none s = λ co. (co, here)
retract_found-Advances setting now at (some o) s = elim (Bool-cases (is_active o)) [
  | inr e ↦ rw e (λ co. (co, here))
  | inl e ↦ rw e (
      Advances-trans s _ _ (Keeps-IsCoherent s _ (refl, refl))
        (refresh_at-Advances setting now o.canonical_result _))
]

claim_key-Keeps :
    (key : Option Text) (r : CanonicalResult) (s : Store) → Keeps s (claim_key key r s).1
unfolding claim_key
claim_key-Keeps none r s = (refl, refl)
claim_key-Keeps (some key) r s = elim (Bool-cases (starts_with (text "source|") r.identity_key)) [
  | inl e ↦ rw e (refl, refl)
  | inr e ↦ rw e (refl, refl)
]

found_existing-Keeps :
    (key : Option Text) (natural : Option CanonicalResult) (r : CanonicalResult) (s : Store)
    → Keeps s (found_existing key natural r s).1
unfolding found_existing
found_existing-Keeps key none r s = claim_key-Keeps key r s
found_existing-Keeps key (some n) r s = elim (Bool-cases (n.pk == r.pk)) [
  | inl e ↦ rw e (claim_key-Keeps key r s)
  | inr e ↦ rw e (refl, refl)
]

found_new-Keeps :
    (data' : NormalizedResultObservation) (natural : Option CanonicalResult) (s : Store)
    → Keeps s (found_new data' natural s).1
unfolding found_new
found_new-Keeps data' (some n) s = (refl, refl)
found_new-Keeps data' none s = (refl, refl)

pub find_canonical-Keeps :
    (data' : NormalizedResultObservation) (existing : Option CanonicalResult) (s : Store)
    → Keeps s (find_canonical data' existing s).1
unfolding find_canonical
find_canonical-Keeps data' (some r) s = found_existing-Keeps (natural_result_prefix data') _ r s
find_canonical-Keeps data' none s = found_new-Keeps data' _ s

inserted-Keeps :
    (result : CanonicalResult) (there : Option CanonicalResult) (s : Store)
    → Keeps s (inserted result there s).1
unfolding inserted
inserted-Keeps result (some r) s = (refl, refl)
inserted-Keeps result none s = (refl, refl)

create_canonical-Keeps :
    (setting : Setting) (data' : NormalizedResultObservation) (scope : Option Text) (s : Store)
    → Keeps s (create_canonical setting data' scope s).1
unfolding create_canonical
create_canonical-Keeps setting data' scope s = inserted-Keeps _ _ s

pub find_or_create-Keeps :
    (setting : Setting) (data' : NormalizedResultObservation) (scope : Option Text)
    (found : Option CanonicalResult × Store)
    → Keeps found.1 (find_or_create setting data' scope found).1
unfolding find_or_create
find_or_create-Keeps setting data' scope (some r, s) = (refl, refl)
find_or_create-Keeps setting data' scope (none, s) = create_canonical-Keeps setting data' scope s

pub prefer_natural-Keeps :
    (key : Option Text) (r : CanonicalResult) (s : Store) → Keeps s (prefer_natural key r s).1
unfolding prefer_natural
prefer_natural-Keeps none r s = (refl, refl)
prefer_natural-Keeps (some key) r s = elim (Bool-cases (text_eq r.identity_key key)) [
  | inl same ↦ rw same (refl, refl)
  | inr other ↦ elim (Option-cases (result_by_key key s.results)) [
    | inl e ↦ rw (other, e) (claim_key-Keeps (some key) r s)
    | inr (n, e) ↦ rw (other, e) (refl, refl)
  ]
]

pub with_scope-Keeps : (key : Option Text) (s : Store) → Keeps s (with_scope key s)
unfolding with_scope
with_scope-Keeps none s = (refl, refl)
with_scope-Keeps (some key) s = elim (Bool-cases (any (text_eq key) s.scopes)) [
  | inl e ↦ rw e (refl, refl)
  | inr e ↦ rw e (refl, refl)
]

pub record_observation-Keeps :
    (data' : NormalizedResultObservation) (pk : ℕ) (o : Option ResultObservation) (s : Store)
    → Keeps s (record_observation data' pk o s)
unfolding record_observation
record_observation-Keeps data' pk none s = (refl, refl)
record_observation-Keeps data' pk (some o) s = (refl, refl)
