-- ===== src/Classification/Rebuild/Complete.antt =====
-- The processed results of a rebuild from scratch.
use mathlib.Core.List.{Perm}
use cubingnow.Prelude.{
  ℕ, true, Option, none, some, List, [], ◌∷◌, ◌++◌, map, Text, ◌≡◌, ◌≢◌, refl, sym, ap, ◌∙◌, subst,
  inl, inr, arith, All, Bool-cases, if◌then◌else◌, ◌&&◌, ◌==◌,
}
use cubingnow.Models.{Facts, CanonicalResultRevision, ProcessedResult, Action}
use cubingnow.Scopes.{Countries}
use cubingnow.Work.{Classified, current, superseded, raised}
use cubingnow.Classification.{recorded_revision, classify_revision}
use cubingnow.Classification.Rows.{Row, World}
use cubingnow.Classification.Revisions.{
  processed_result, materialize, materialized, find_row, invalidate_older, invalidated, is_older,
}
use cubingnow.Classification.Verdict.{results}
use cubingnow.Classification.Latest.{classify_revision-results}
use cubingnow.Classification.Rebuild.{
  sort_revisions, classify_each, seed_live_records_from_baseline,
  rebuild_classification_from_scratch,
}
use cubingnow.Classification.Rebuild.Order.{
  ident, Ascending, Apart, sort_revisions-Ascending, sort_revisions-Perm, sort_revisions-Apart,
}

-- What a processed result has from its revision: the result, the number and the facts.
abbrev pub Copy : Type 0
Copy = ℕ × ℕ × Facts

abbrev pub copied : ProcessedResult → Copy
copied p = (p.canonical_result, p.canonical_revision, p.facts)

abbrev pub copy : CanonicalResultRevision → Copy
copy r = (r.canonical_result, r.revision, r.facts)

abbrev copies : World → List Copy
copies w = map copied (results w)

-- No processed result is of the revision.
abbrev Fresh : List Copy → CanonicalResultRevision → Type 0
Fresh cs r = All (λ c. ident r ≢ (c.0, c.1)) cs

same_pair : (a b c d : ℕ) → ((a == b) && (c == d)) ≡ true → (b ≡ a) × (d ≡ c)
same_pair a b c d h = (ground arith, ground arith)

Fresh-find_row :
    (r : CanonicalResultRevision) (rows : List Row)
    → Fresh (map copied (map (λ row. row.result) rows)) r
    → find_row r rows ≡ none
unfolding find_row
Fresh-find_row r [] h = refl
Fresh-find_row r (row ∷ rows) h =
    elim (Bool-cases (
      (row.result.canonical_result == r.canonical_result)
      && (row.result.canonical_revision == r.revision))) [
        | inl e ↦
            let (x, y) =
              same_pair row.result.canonical_result r.canonical_result row.result.canonical_revision
                r.revision e in
            absurd (h.0 (cc (x, y)))
        | inr e ↦ rw e (Fresh-find_row r rows h.1)
      ]

invalidated-copied :
    (processed : ProcessedResult) (because : Action) (rows : List Row)
    → map copied (
        map
          (λ row. row.result)
          (map
            (λ row.
              if is_older processed row.result then invalidated processed because row else row)
            rows))
      ≡ map copied (map (λ row. row.result) rows)
unfolding invalidated
invalidated-copied processed because [] = refl
invalidated-copied processed because (row ∷ rows) =
    elim (Bool-cases (is_older processed row.result)) [
      | inl e ↦ rw e (ap (λ cs. copied row.result ∷ cs) (invalidated-copied processed because rows))
      | inr e ↦ rw e (ap (λ cs. copied row.result ∷ cs) (invalidated-copied processed because rows))
    ]

copied-append :
    (rows : List Row) (row : Row)
    → map copied (map (λ r. r.result) (rows ++ row ∷ []))
      ≡ map copied (map (λ r. r.result) rows) ++ copied row.result ∷ []
copied-append [] row = refl
copied-append (x ∷ rows) row = ap (λ cs. copied x.result ∷ cs) (copied-append rows row)

module _ (countries : Countries) where
  recorded-copies :
      (r : CanonicalResultRevision) (w : World)
      → find_row r w.rows ≡ none
      → copies (recorded_revision countries r w).1 ≡ copies w ++ copy r ∷ []
  unfolding recorded_revision materialize materialized invalidate_older processed_result
  recorded-copies r w missing =
      rw missing
        (invalidated-copied (processed_result r w.next_pk none) r.action _ ∙ copied-append w.rows _)

  classify_revision-copies :
      (late : ℕ) (r : CanonicalResultRevision) (w : World)
      → Fresh (copies w) r
      → copies (classify_revision countries late r w).1 ≡ copies w ++ copy r ∷ []
  classify_revision-copies late r w fresh =
      ap (λ ps. map copied ps) (classify_revision-results countries late r w)
      ∙ recorded-copies r w (Fresh-find_row r w.rows fresh)

  Fresh-append :
      (s r : CanonicalResultRevision) (cs : List Copy)
      → Fresh cs s
      → ident s ≢ ident r
      → Fresh (cs ++ copy r ∷ []) s
  Fresh-append s r [] f d = (d, tt)
  Fresh-append s r (c ∷ cs) f d = (f.0, Fresh-append s r cs f.1 d)

  All-Fresh :
      (r : CanonicalResultRevision) (cs : List Copy) (rs : List CanonicalResultRevision)
      → All (Fresh cs) rs
      → All (λ s. ident s ≢ ident r) rs
      → All (Fresh (cs ++ copy r ∷ [])) rs
  All-Fresh r cs [] f d = tt
  All-Fresh r cs (s ∷ rs) f d = (Fresh-append s r cs f.0 d.0, All-Fresh r cs rs f.1 d.1)

  append_one : (cs : List Copy) (c : Copy) (ds : List Copy) → (cs ++ c ∷ []) ++ ds ≡ cs ++ c ∷ ds
  append_one [] c ds = refl
  append_one (x ∷ cs) c ds = ap (λ es. x ∷ es) (append_one cs c ds)

  classify_each-copies :
      (late : CanonicalResultRevision → ℕ) (rs : List CanonicalResultRevision) (w : World)
      → All (Fresh (copies w)) rs
      → Apart rs
      → (classify_each countries late rs w).0 ≡ none
      → copies (classify_each countries late rs w).1 ≡ copies w ++ map copy rs
  unfolding classify_each
  classify_each-copies late [] w fresh apart quiet = sym (append_nil (copies w))
    where
      append_nil : (cs : List Copy) → cs ++ [] ≡ cs
      append_nil [] = refl
      append_nil (c ∷ cs) = ap (λ ds. c ∷ ds) (append_nil cs)
  classify_each-copies late (r ∷ rs) w fresh apart quiet =
      go (classify_revision countries (late r) r w) (classify_revision-copies (late r) r w fresh.0)
        (λ after f h. classify_each-copies late rs after f apart.1 h) quiet
    where
      Rest : World → Type 0
      Rest after =
          All (Fresh (copies after)) rs
          → (classify_each countries late rs after).0 ≡ none
          → copies (classify_each countries late rs after).1 ≡ copies after ++ map copy rs

      continued :
          (after : World)
          → copies after ≡ copies w ++ copy r ∷ []
          → Rest after
          → (classify_each countries late rs after).0 ≡ none
          → copies (classify_each countries late rs after).1 ≡ copies w ++ copy r ∷ map copy rs
      continued after same rest h =
          rest
            (subst (λ cs. All (Fresh cs) rs) (sym same) (All-Fresh r (copies w) rs fresh.1 apart.0))
            h
          ∙ ap (λ cs. cs ++ map copy rs) same
          ∙ append_one (copies w) (copy r) (map copy rs)

      go :
          (turn : Classified × World)
          → copies turn.1 ≡ copies w ++ copy r ∷ []
          → ((after : World) → Rest after)
          → let out : Option Text × World = elim turn.0 [
            | raised message ↦ (some message, turn.1)
            | current ↦ classify_each countries late rs turn.1
            | superseded ↦ classify_each countries late rs turn.1
          ] in
            out.0 ≡ none → copies out.1 ≡ copies w ++ copy r ∷ map copy rs
      go (raised message, after) same rest h = absurd (cc h)
      go (current, after) same rest h = continued after same (rest after) h
      go (superseded, after) same rest h = continued after same (rest after) h

-- If a rebuild from scratch, with an active baseline, raises nothing, and no two revisions have the
-- same result and number, then its processed results have the result, number and facts of the
-- revisions, one of each, by ascending time of classification, then result, then number.
pub rebuild_classification_from_scratch_complete :
    (countries : Countries) (late : CanonicalResultRevision → ℕ) (w : World)
    → Apart w.revisions
    → (rebuild_classification_from_scratch countries late true w).0 ≡ none
    → (rs : List CanonicalResultRevision) × Perm rs w.revisions
      × Ascending rs
      × (map copied (results (rebuild_classification_from_scratch countries late true w).1)
          ≡ map copy rs)
unfolding rebuild_classification_from_scratch seed_live_records_from_baseline
rebuild_classification_from_scratch_complete countries late w apart quiet = (
  sort_revisions w.revisions,
  sort_revisions-Perm w.revisions,
  sort_revisions-Ascending w.revisions,
  classify_each-copies countries late (sort_revisions w.revisions) _ (no_copies _)
      (sort_revisions-Apart w.revisions apart) quiet,
)
  where
    no_copies : (rs : List CanonicalResultRevision) → All (Fresh []) rs
    no_copies [] = tt
    no_copies (r ∷ rs) = (tt, no_copies rs)
