-- ===== src/Reconciliation/Repeat.antt =====
-- A second `_snapshot_and_enqueue` of a head that has not changed.
use cubingnow.Prelude.{
  ℕ, true, false, Option, none, some, ◌≡◌, refl, sym, ap, ◌∙◌, subst, inl, inr, ◌⊎◌, map, ◌==◌,
  arith, Bool-cases, is_some,
}
use cubingnow.Models.{
  Facts, Facts-discrete, CanonicalResult, CanonicalResultRevision, Status, Action,
}
use cubingnow.Reconciliation.Rows.{Store, newest, revisions_of, new_pk}
use cubingnow.Reconciliation.Chain.{
  Chain, latest_of, newest-Chain, revisions_of-same, snapshot_and_enqueue-Chain,
}
use cubingnow.Reconciliation.Enqueue.{IsCoherent}
use cubingnow.Reconciliation.{
  record_revision, snapshot_and_enqueue, due, facts_differ, is_retracted, settled_head, snapshot_of,
}

facts_differ-same : (a b : Facts) → a ≡ b → facts_differ a b ≡ false
unfolding facts_differ
facts_differ-same a b e = same (Facts-discrete a b)
  where
    same : (d : Dec (a ≡ b)) → elim d [ yes _ ↦ false | no _ ↦ true ] ≡ false
    same (yes _) = refl
    same (no n) = absurd (n e)

-- The head that a call saves whose `due` is `asked`, the latest revision after it, and a second call.
abbrev pub saved :
    CanonicalResult → Option CanonicalResultRevision → Option Action × Status → CanonicalResult
saved result latest (asked, status) = settled_head asked status latest result

abbrev newest_after :
    ℕ
    → CanonicalResult
    → Option CanonicalResultRevision
    → Option Action
    → Option CanonicalResultRevision
newest_after pk head latest none = latest
newest_after pk head latest (some act) = some (snapshot_of pk act head)

abbrev IsSettledBy :
    CanonicalResult → Option CanonicalResultRevision → ℕ → Option Action × Status → Type 0
IsSettledBy result latest pk (asked, status) =
    due (settled_head asked status latest result)
      (newest_after pk (settled_head asked status latest result) latest asked)
    ≡ (none, status)

again_new :
    (result : CanonicalResult) (latest : Option CanonicalResultRevision) (pk : ℕ) (act : Action)
    (status : Status)
    → ((is_some result.current_observation ≡ true) × (is_retracted status ≡ false))
      ⊎ ((is_some result.current_observation ≡ false) × (is_retracted status ≡ true))
    → IsSettledBy result latest pk (some act, status)
unfolding due snapshot_of settled_head
again_new result latest pk act status (inl (held, live)) =
    rw (held, live, facts_differ-same result.facts result.facts refl) refl
again_new result latest pk act status (inr (bare, gone)) = rw (bare, gone) refl

again_same :
    (result : CanonicalResult) (p : CanonicalResultRevision) (pk : ℕ)
    → due result (some p) ≡ (none, p.canonical_status)
    → IsSettledBy result (some p) pk (none, p.canonical_status)
unfolding due settled_head
again_same result p pk e = e

-- Where the head has active evidence, or a revision from before, a second `due` on the head that the
-- first one saves and the latest revision after it asks for no revision and keeps the status.
due-again :
    (result : CanonicalResult) (latest : Option CanonicalResultRevision) (pk : ℕ)
    → (is_some result.current_observation ≡ true) ⊎ (is_some latest ≡ true)
    → IsSettledBy result latest pk (due result latest)
due-again result none pk (inr h) = absurd (cc h)
due-again result none pk (inl held) =
    let e : (some Action.active, Status.active) ≡ due result none = unfold due in refl in
    subst (IsSettledBy result none pk) e
      (again_new result none pk Action.active Status.active (inl (held, refl)))
due-again result (some p) pk ok =
    let go = λ (d : Option Action × Status) (e : due result (some p) ≡ d).
      subst (IsSettledBy result (some p) pk) (sym e) in
    elim (Bool-cases (is_retracted p.canonical_status)) [
      | inl gone ↦ elim (Bool-cases (is_some result.current_observation)) [
        | inl held ↦
            let e : due result (some p) ≡ (some Action.active, Status.active) =
              unfold due in rw (gone, held) refl in
            go _ e (again_new result (some p) pk Action.active Status.active (inl (held, refl)))
        | inr bare ↦
            let e : due result (some p) ≡ (none, p.canonical_status) =
              unfold due in rw (gone, bare) refl in
            go _ e (again_same result p pk e)
      ]
      | inr live ↦ elim (Bool-cases (is_some result.current_observation)) [
        | inr bare ↦
            let e : due result (some p) ≡ (some Action.retracted, Status.retracted) =
              unfold due in rw (live, bare) refl in
            go _ e
              (again_new result (some p) pk Action.retracted Status.retracted (inr (bare, refl)))
        | inl held ↦ elim (Bool-cases (facts_differ p.facts result.facts)) [
          | inl new ↦
              let e : due result (some p) ≡ (some Action.corrected, Status.corrected) =
                unfold due in rw (live, held, new) refl in
              go _ e
                (again_new result (some p) pk Action.corrected Status.corrected (inl (held, refl)))
          | inr old ↦
              let e : due result (some p) ≡ (none, p.canonical_status) =
                unfold due in rw (live, held, old) refl in
              go _ e (again_same result p pk e)
        ]
      ]
    ]

latest_recorded :
    (now : ℕ) (asked : Option Action) (head : CanonicalResult) (store : Store)
    (latest : Option CanonicalResultRevision)
    → newest (revisions_of head.pk store.revisions) ≡ latest
    → Chain (revisions_of head.pk (record_revision now asked head store).1.revisions)
    → newest (revisions_of head.pk (record_revision now asked head store).1.revisions)
      ≡ newest_after (new_pk (map (λ r. r.pk) store.revisions)) head latest asked
unfolding record_revision
latest_recorded now none head store latest e chain = e
latest_recorded now (some act) head store latest e chain =
    let revision = snapshot_of (new_pk (map (λ r. r.pk) store.revisions)) act head in
    let same : (revision.canonical_result == head.pk) ≡ true = unfold snapshot_of in ground arith in
    let front = revisions_of-same head.pk revision store.revisions same in
    newest-Chain _ chain ∙ ap latest_of front

settled_again :
    (later : ℕ) (head : CanonicalResult) (store : Store) (latest : Option CanonicalResultRevision)
    → newest (revisions_of head.pk store.revisions) ≡ latest
    → (due head latest).0 ≡ none
    → let (made, store') = snapshot_and_enqueue later head store in
      (made ≡ none) × (store'.revisions ≡ store.revisions) × (store'.work ≡ store.work)
unfolding snapshot_and_enqueue record_revision
settled_again later head store latest e h = rw (e, h) (refl, refl, refl)

saved-pk :
    (result : CanonicalResult) (latest : Option CanonicalResultRevision)
    (d : Option Action × Status)
    → (saved result latest d).pk ≡ result.pk
unfolding settled_head
saved-pk result latest (none, status) = refl
saved-pk result latest (some act, status) = refl

-- After the first call the latest revision is the one it made, or the old one.
latest_after :
    (now : ℕ) (result : CanonicalResult) (store : Store)
    → IsCoherent store
    → let latest = newest (revisions_of result.pk store.revisions) in
      let head = saved result latest (due result latest) in
      newest (revisions_of head.pk (snapshot_and_enqueue now result store).1.revisions)
      ≡ newest_after (new_pk (map (λ r. r.pk) store.revisions)) head latest (due result latest).0
unfolding snapshot_and_enqueue
latest_after now result store co =
    let latest = newest (revisions_of result.pk store.revisions) in
    let head = saved result latest (due result latest) in
    let same : head.pk ≡ result.pk = saved-pk result latest (due result latest) in
    latest_recorded now (due result latest).0 head store latest
      (ap (λ k. newest (revisions_of k store.revisions)) same)
      (unfold snapshot_and_enqueue in snapshot_and_enqueue-Chain now result store co.chains head.pk)

-- In a coherent store, `_snapshot_and_enqueue` of a head with active evidence, or with a revision
-- from before, followed by a second call on the head that the first one saved: the second makes no
-- revision and no work.
pub snapshot_and_enqueue-again :
    (now later : ℕ) (result : CanonicalResult) (store : Store)
    → IsCoherent store
    → let latest = newest (revisions_of result.pk store.revisions) in
      (is_some result.current_observation ≡ true) ⊎ (is_some latest ≡ true)
      → let after = (snapshot_and_enqueue now result store).1 in
        let (made, store') =
          snapshot_and_enqueue later (saved result latest (due result latest)) after in
        (made ≡ none) × (store'.revisions ≡ after.revisions) × (store'.work ≡ after.work)
snapshot_and_enqueue-again now later result store co ok =
    let latest = newest (revisions_of result.pk store.revisions) in
    let d = due result latest in
    settled_again later (saved result latest d) (snapshot_and_enqueue now result store).1 _
      (latest_after now result store co)
      (ap (λ (x : Option Action × Status). x.0)
        (due-again result latest (new_pk (map (λ r. r.pk) store.revisions)) ok))
