-- ===== src/Classification/Latest.antt =====
-- The verdict of `classify_revision`, the live cells, and the older revisions of a result.
use cubingnow.Prelude.{
  ℕ, Bool, true, false, Option, none, some, List, [], ◌∷◌, map, ◌≡◌, ◌≢◌, ◌↔◌, refl, sym, ap, ◌∙◌,
  subst, ◌⊎◌, inl, inr, arith, All, if◌then◌else◌, ltb, ◌==◌,
}
use cubingnow.Models.{CanonicalResultRevision, ProcessedResult, Action}
use cubingnow.Scopes.{Countries}
use cubingnow.Work.{Classified, current, superseded}
use cubingnow.Classification.{
  historical, supported, classify_current, head_revision, recorded_revision, classify_revision,
}
use cubingnow.Classification.Rows.{Row, World, is_absorbed}
use cubingnow.Classification.Revisions.{
  materialize, materialized, find_row, invalidate_older, invalidated, is_older,
}
use cubingnow.Classification.Verdict.{results, historical-Untouched}
use cubingnow.Classification.Branches.{Branch, classify_current-Branch}

module _ (countries : Countries) (late : ℕ) (revision : CanonicalResultRevision) (w : World) where
  abbrev recorded : ProcessedResult × World
  recorded = recorded_revision countries revision w

  abbrev absorbed : Bool
  absorbed = is_absorbed recorded.1 recorded.0.wca_competition_id

  abbrev behind : Bool
  behind = ltb revision.revision (head_revision revision recorded.1)

  abbrev outcome : Classified × World
  outcome = classify_revision countries late revision w

  -- How `classify_revision` can end.
  abbrev End : Classified × World → Type 0
  End out =
      ((behind ≡ true) × (out ≡ historical countries recorded.0 superseded recorded.1))
      ⊎ (((behind ≡ false)
            × (absorbed ≡ true)
            × (out ≡ historical countries recorded.0 current recorded.1))
          ⊎ ((behind ≡ false)
              × (absorbed ≡ false)
              × Branch countries late revision recorded.0 recorded.1 out))

  end :
      (is_behind in_baseline : Bool)
      → behind ≡ is_behind
      → absorbed ≡ in_baseline
      → End (
          if is_behind
          then historical countries recorded.0 superseded recorded.1
          else if in_baseline
          then historical countries recorded.0 current recorded.1
          else classify_current countries late revision recorded.0 recorded.1)
  end true in_baseline b a = inl (b, refl)
  end false true b a = inr (inl (b, a, refl))
  end false false b a =
      inr (inr (b, a, classify_current-Branch countries late revision recorded.0 recorded.1))

  classify_revision-End : End outcome
  unfolding classify_revision
  classify_revision-End = end behind absorbed refl refl

  materialized-live : (row : Option Row) → (materialized countries revision row w).1.live ≡ w.live
  unfolding materialized
  materialized-live none = refl
  materialized-live (some row) = refl

  recorded-live : recorded.1.live ≡ w.live
  unfolding recorded_revision materialize invalidate_older
  recorded-live = materialized-live (find_row revision w.rows)

  historical-live :
      (verdict : Classified) → (historical countries recorded.0 verdict recorded.1).1.live ≡ w.live
  historical-live verdict =
      (historical-Untouched countries recorded.0 verdict recorded.1).0 ∙ recorded-live

  -- If the verdict of `classify_revision` is not `current`, or the competition of the revision is
  -- absorbed by the baseline, then every live cell has the value that it had before.
  pub classify_revision-live : (outcome.0 ≢ current) ⊎ (absorbed ≡ true) → outcome.1.live ≡ w.live
  classify_revision-live h = elim classify_revision-End [
    | inl (_, is) ↦ ap (λ out. out.1.live) is ∙ historical-live superseded
    | inr (inl (_, _, is)) ↦ ap (λ out. out.1.live) is ∙ historical-live current
    | inr (inr (_, a, inl (is, _))) ↦ ap (λ out. out.1.live) is ∙ historical-live superseded
    | inr (inr (_, a, inr (inl (is, _)))) ↦ ap (λ out. out.1.live) is ∙ recorded-live
    | inr (inr (_, a, inr (inr (is, _, _)))) ↦ elim h [
      | inl other ↦ absurd (other is)
      | inr absorbs ↦ absurd (cc (absorbs, a))
    ]
  ]

  historical-verdict :
      supported recorded.0 ≡ true
      → (verdict : Classified) → (historical countries recorded.0 verdict recorded.1).0 ≡ verdict
  unfolding historical
  historical-verdict column verdict = rw column refl

  -- If the event of the revision has a column for its kind, then the verdict is `current` exactly when
  -- the head has no newer revision at first, and either the competition is absorbed by the baseline or
  -- the head still has this revision when the transaction that judges it reads it again.
  pub classify_revision-current_iff :
      supported recorded.0 ≡ true
      → (outcome.0 ≡ current)
        ↔ ((behind ≡ false) × ((absorbed ≡ true) ⊎ ((late == revision.revision) ≡ true)))
  classify_revision-current_iff column = (to, from)
    where
      to :
          outcome.0 ≡ current
          → (behind ≡ false) × ((absorbed ≡ true) ⊎ ((late == revision.revision) ≡ true))
      to is_current = elim classify_revision-End [
        | inl (_, is) ↦
            absurd (cc (historical-verdict column superseded, ap (λ out. out.0) is, is_current))
        | inr (inl (b, a, _)) ↦ (b, inl a)
        | inr (inr (b, a, inl (is, _))) ↦
            absurd (cc (historical-verdict column superseded, ap (λ out. out.0) is, is_current))
        | inr (inr (b, a, inr (inl (_, no_column)))) ↦ absurd (cc (column, no_column))
        | inr (inr (b, a, inr (inr (_, _, last)))) ↦ (b, inr last)
      ]

      from :
          (behind ≡ false) × ((absorbed ≡ true) ⊎ ((late == revision.revision) ≡ true))
          → outcome.0 ≡ current
      from (b, h) = elim classify_revision-End [
        | inl (newer, _) ↦ absurd (cc (newer, b))
        | inr (inl (_, _, is)) ↦ ap (λ out. out.0) is ∙ historical-verdict column current
        | inr (inr (_, a, branch)) ↦ elim h [
          | inl absorbs ↦ absurd (cc (absorbs, a))
          | inr last ↦ elim branch [
            | inl (_, moved) ↦ absurd (cc (last, moved))
            | inr (inl (_, no_column)) ↦ absurd (cc (column, no_column))
            | inr (inr (is, _, _)) ↦ is
          ]
        ]
      ]

  invalidated-IsCurrent :
      (because : Action) (row : Row)
      → is_older recorded.0
          (if is_older recorded.0 row.result
            then invalidated recorded.0 because row
            else row).result
        ≡ false
  unfolding invalidated
  invalidated-IsCurrent because row = ground arith

  results-invalidate_older :
      (rows : List Row)
      → All
          (λ r. is_older recorded.0 r ≡ false)
          (map
            (λ r. r.result)
            (map
              (λ row.
                if is_older recorded.0 row.result
                then invalidated recorded.0 revision.action row
                else row)
              rows))
  results-invalidate_older [] = tt
  results-invalidate_older (row ∷ rows) =
      (invalidated-IsCurrent revision.action row, results-invalidate_older rows)

  recorded-IsCurrent : All (λ r. is_older recorded.0 r ≡ false) (results recorded.1)
  unfolding recorded_revision invalidate_older
  recorded-IsCurrent = results-invalidate_older _

  pub classify_revision-results : results outcome.1 ≡ results recorded.1
  classify_revision-results = elim classify_revision-End [
    | inl (_, is) ↦ ap (λ out. results out.1) is ∙ (historical-Untouched countries _ superseded _).1
    | inr (inl (_, _, is)) ↦
        ap (λ out. results out.1) is ∙ (historical-Untouched countries _ current _).1
    | inr (inr (_, _, inl (is, _))) ↦
        ap (λ out. results out.1) is ∙ (historical-Untouched countries _ superseded _).1
    | inr (inr (_, _, inr (inl (is, _)))) ↦ ap (λ out. results out.1) is
    | inr (inr (_, _, inr (inr (_, same, _)))) ↦ same
  ]

  -- Whatever the verdict, behind `classify_revision` no result of an earlier revision of the same
  -- canonical result is valid.
  pub classify_revision-IsCurrent : All (λ r. is_older recorded.0 r ≡ false) (results outcome.1)
  classify_revision-IsCurrent =
      subst (All (λ r. is_older recorded.0 r ≡ false)) (sym classify_revision-results)
        recorded-IsCurrent
