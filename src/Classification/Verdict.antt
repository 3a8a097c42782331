-- ===== src/Classification/Verdict.antt =====
-- What the verdict of `classify_revision` depends on, and what a verdict other than `current` leaves.
use mathlib.Core.List.{foldl}
use cubingnow.Prelude.{
  ℕ, some, List, [], ◌∷◌, map, Text, nonempty, ◌≡◌, refl, ap, ◌∙◌, inl, inr, Bool-cases,
  if◌then◌else◌, ◌==◌,
}
use cubingnow.Models.{RecordLevel, ProcessedResult}
use cubingnow.Scopes.{Countries, record_scope}
use cubingnow.Timeline.{Entry, judge_incremental}
use cubingnow.Work.{Classified}
use cubingnow.Classification.{
  change_level, cell_of, classify_level, classify_incremental, classify_stale_historical,
  historical, supported, repair_all, repair_timeline, adjudicate_timeline, unscoped, stale_level,
  stale_turn, repair_turn, judge_turn, adjudicate_turn,
}
use cubingnow.Classification.Rows.{
  Row, Cell, World, with_level, entry_of, find_entry, save_levels, change_row, record_levels,
}
use cubingnow.Classification.Saved.{patched-result}

abbrev pub results : World → List ProcessedResult
results w = map (λ r. r.result) w.rows

pub foldl-keeps {ℓ κ μ} :
    {A : Type ℓ} {S : Type κ} (P : S → Type μ) (f : S → A → S) (s : S) (xs : List A)
    → ((t : S) (x : A) → P t → P (f t x))
    → P s
    → P (foldl f s xs)
foldl-keeps P f s [] keep h = h
foldl-keeps P f s (x ∷ xs) keep h = foldl-keeps P f (f s x) xs keep (keep s x h)

with_level-result :
    (level : RecordLevel) (e : Entry) (r : Row) → (with_level level e.level r).result ≡ r.result
with_level-result level e r = patched-result level (some e) r

results-map :
    (f : Row → Row) (rs : List Row)
    → ((r : Row) → (f r).result ≡ r.result)
    → map (λ r. r.result) (map f rs) ≡ map (λ r. r.result) rs
results-map f [] h = refl
results-map f (r ∷ rs) h =
    ap (λ p. p ∷ map (λ r. r.result) (map f rs)) (h r)
    ∙ ap (λ ps. r.result ∷ ps) (results-map f rs h)

-- A write of level rows leaves the results alone.
results-change_level :
    (pk : ℕ) (level : RecordLevel) (f : Entry → Entry) (w : World)
    → results (change_level pk level f w) ≡ results w
unfolding change_row change_level
results-change_level pk level f w = results-map _ w.rows one
  where
    one :
        (r : Row)
        → (if r.result.pk == pk then with_level level (f (entry_of level r)).level r else r).result
          ≡ r.result
    one r = elim (Bool-cases (r.result.pk == pk)) [
      | inl e ↦ rw e (with_level-result level (f (entry_of level r)) r)
      | inr e ↦ rw e refl
    ]

results-save_levels :
    (level : RecordLevel) (es : List Entry) (rs : List Row)
    → map (λ r. r.result) (save_levels level es rs) ≡ map (λ r. r.result) rs
unfolding save_levels
results-save_levels level es rs =
    results-map _ rs (λ r. patched-result level (find_entry r.result.pk es) r)

-- Live cells and results, left alone.
abbrev pub Untouched : World → World → Type 0
Untouched w w' = (w'.live ≡ w.live) × (results w' ≡ results w)

stale_turn-Untouched :
    (countries : Countries) (processed : ProcessedResult) (w t : World) (level : RecordLevel)
    → Untouched w t
    → Untouched w (stale_turn countries processed t level)
unfolding stale_turn
stale_turn-Untouched countries processed w t level (l, r) = (
  (unfold change_level in l),
  results-change_level processed.pk level (stale_level countries processed t level) t ∙ r,
)

stale-Untouched :
    (countries : Countries) (processed : ProcessedResult) (w : World)
    → Untouched w (classify_stale_historical countries processed w)
unfolding classify_stale_historical
stale-Untouched countries processed w =
    foldl-keeps (Untouched w) (stale_turn countries processed) w record_levels
      (stale_turn-Untouched countries processed w) (refl, refl)

pub historical-Untouched :
    (countries : Countries) (processed : ProcessedResult) (verdict : Classified) (w : World)
    → Untouched w (historical countries processed verdict w).1
unfolding historical
historical-Untouched countries processed verdict w = elim (Bool-cases (supported processed)) [
  | inl e ↦ rw e (stale-Untouched countries processed w)
  | inr e ↦ rw e (refl, refl)
]

results-adjudicate_timeline :
    (cell : Cell) (w : World) → results (adjudicate_timeline cell w) ≡ results w
unfolding adjudicate_timeline
results-adjudicate_timeline cell w = results-save_levels cell.level _ w.rows

results-repair_timeline : (cell : Cell) (w : World) → results (repair_timeline cell w) ≡ results w
unfolding repair_timeline
results-repair_timeline cell w =
    results-adjudicate_timeline cell _ ∙ results-save_levels cell.level _ w.rows

results-repair_turn :
    (processed : ProcessedResult) (w : World) (x : RecordLevel × Text)
    → results (repair_turn processed w x) ≡ results w
unfolding repair_turn
results-repair_turn processed w (level, scope) = results-repair_timeline _ w

pub results-repair_all :
    (processed : ProcessedResult) (scopes : List (RecordLevel × Text)) (w : World)
    → results (repair_all processed scopes w) ≡ results w
unfolding repair_all
results-repair_all processed scopes w =
    foldl-keeps (λ (t : World). results t ≡ results w) (repair_turn processed) w scopes
      (λ t x h. results-repair_turn processed t x ∙ h) refl

results-classify_level :
    (processed : ProcessedResult) (level : RecordLevel) (scope : Text) (w : World)
    → results (classify_level processed level scope w) ≡ results w
unfolding classify_level
results-classify_level processed level [] w = results-change_level processed.pk level unscoped w
results-classify_level processed level (c ∷ scope) w =
    results-change_level processed.pk level
      (judge_incremental (w.live (cell_of processed level (c ∷ scope))) (c ∷ scope)) w

results-adjudicate_turn :
    (countries : Countries) (processed : ProcessedResult) (w : World) (level : RecordLevel)
    → results (adjudicate_turn countries processed w level) ≡ results w
unfolding adjudicate_turn
results-adjudicate_turn countries processed w level =
    elim (Bool-cases (nonempty (record_scope countries processed.facts level))) [
      | inl e ↦ rw e (results-adjudicate_timeline _ w)
      | inr e ↦ rw e refl
    ]

pub results-classify_incremental :
    (countries : Countries) (processed : ProcessedResult) (w : World)
    → results (classify_incremental countries processed w) ≡ results w
unfolding classify_incremental judge_turn
results-classify_incremental countries processed w =
    let judged = foldl (judge_turn countries processed) w record_levels in
    let kept = λ (t : World). results t ≡ results w in
    foldl-keeps kept (adjudicate_turn countries processed) judged record_levels
      (λ t level h. results-adjudicate_turn countries processed t level ∙ h)
      (foldl-keeps kept (judge_turn countries processed) w record_levels
        (λ t level h. (unfold judge_turn in results-classify_level processed level _ t) ∙ h) refl)
