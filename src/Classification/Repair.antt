-- ===== src/Classification/Repair.antt =====
-- `repair_timeline` on the tables is `repair_cell` on the timeline.
use cubingnow.Prelude.{
  ℕ, ℤ, true, Option, List, [], ◌∷◌, map, Text, ◌≡◌, ◌≢◌, refl, sym, ap, ◌∙◌, subst, All, All-map,
  select,
}
use cubingnow.Models.{RecordLevel, ProcessedResult}
use cubingnow.Timeline.{Entry, replay, adjudicate, repair_cell}
use cubingnow.Timeline.Incremental.{reset-adjudicate}
use cubingnow.Classification.{adjudicate_timeline, repair_timeline}
use cubingnow.Classification.Rows.{
  Row, Cell, Cells, World, Cell-discrete, set_cell, level_of, entry_of, find_entry, save_levels,
  in_timeline, rows_at, timeline,
}
use cubingnow.Classification.Reread.{
  key_of, HasUniqueKeys, InRows, Aligned, sort_rows-All, replay-Aligned, reset-Aligned,
}
use cubingnow.Classification.Saved.{
  select-true, self_InRows, patched-result, fits-scope, written, timeline-written,
}

set_cell-same : (cell : Cell) (v : Option ℤ) (cells : Cells) → set_cell cell v cells cell ≡ v
unfolding set_cell
set_cell-same cell v cells = here (Cell-discrete cell cell)
  where
    here : (d : Dec (cell ≡ cell)) → elim d [ yes _ ↦ v | no _ ↦ cells cell ] ≡ v
    here (yes _) = refl
    here (no n) = absurd (n refl)

set_cell-other :
    (cell other : Cell) (v : Option ℤ) (cells : Cells)
    → other ≢ cell
    → set_cell cell v cells other ≡ cells other
unfolding set_cell
set_cell-other cell other v cells h = there (Cell-discrete other cell)
  where
    there : (d : Dec (other ≡ cell)) → elim d [ yes _ ↦ v | no _ ↦ cells other ] ≡ cells other
    there (yes e) = absurd (h e)
    there (no _) = refl

patched-All :
    (level : RecordLevel) (es : List Entry) (k : ℕ) (rs : List Row)
    → All (λ x. key_of x ≢ k) rs
    → All (λ x. key_of x ≢ k) (save_levels level es rs)
unfolding save_levels
patched-All level es k [] h = tt
patched-All level es k (r ∷ rs) h =
    let same =
      ap (λ (p : ProcessedResult). p.pk) (patched-result level (find_entry r.result.pk es) r) in
    ((λ e. h.0 (sym same ∙ e)), (unfold save_levels in patched-All level es k rs h.1))

pub save_levels-HasUniqueKeys :
    (level : RecordLevel) (es : List Entry) (rs : List Row)
    → HasUniqueKeys rs
    → HasUniqueKeys (save_levels level es rs)
unfolding save_levels
save_levels-HasUniqueKeys level es [] h = tt
save_levels-HasUniqueKeys level es (r ∷ rs) h =
    let same =
      ap (λ (p : ProcessedResult). p.pk) (patched-result level (find_entry r.result.pk es) r) in
    (
      (unfold save_levels in
          subst (λ k. All (λ x. key_of x ≢ k) (save_levels level es rs)) (sym same)
            (patched-All level es (key_of r) rs h.0)),
      (unfold save_levels in save_levels-HasUniqueKeys level es rs h.1),
    )

entries-Aligned :
    (scope : Text) (level : RecordLevel) (rs : List Row)
    → All (λ r. (level_of level r).record_scope ≡ scope) rs
    → Aligned scope (map (entry_of level) rs) rs
entries-Aligned scope level [] h = tt
entries-Aligned scope level (r ∷ rs) h = (refl, h.0, entries-Aligned scope level rs h.1)

rows_at-scope :
    (w : World) (cell : Cell)
    → All (λ r. (level_of cell.level r).record_scope ≡ cell.scope) (rows_at w cell)
unfolding rows_at
rows_at-scope w cell =
    sort_rows-All (λ r. (level_of cell.level r).record_scope ≡ cell.scope) _
      (All-map (λ (r : Row). InRows r w.rows × (in_timeline w cell r ≡ true))
        (λ (r : Row). (level_of cell.level r).record_scope ≡ cell.scope)
        (select (in_timeline w cell) w.rows)
        (λ r h.
          (unfold in_timeline in
            fits-scope w cell r.result (level_of cell.level r).record_scope h.1))
        (select-true (λ r. InRows r w.rows) (in_timeline w cell) w.rows (self_InRows w.rows)))

-- What is adjudicated is what the next query reads.
pub timeline-adjudicate_timeline :
    (w : World) (cell : Cell)
    → HasUniqueKeys w.rows
    → timeline (adjudicate_timeline cell w) cell
      ≡ adjudicate cell.scope (w.live cell) (timeline w cell)
unfolding adjudicate_timeline
timeline-adjudicate_timeline w cell unique =
    let es = adjudicate cell.scope (w.live cell) (timeline w cell) in
    let aligned : Aligned cell.scope es (rows_at w cell) =
      reset-Aligned cell.scope es (timeline w cell) (rows_at w cell)
        (reset-adjudicate cell.scope (w.live cell) (timeline w cell))
        (unfold timeline in
          entries-Aligned cell.scope cell.level (rows_at w cell) (rows_at-scope w cell)) in
    timeline-written w cell es w.live aligned unique

-- Where no two processed results share a key, `repair_timeline` of a cell leaves, when its timeline is
-- read again, the rows that `repair_cell` makes of the timeline and the baseline; it stores the value
-- that `repair_cell` finds, and changes no other live cell.
pub repair_timeline-eq-repair_cell :
    (w : World) (cell : Cell)
    → HasUniqueKeys w.rows
    → let (es, final) = repair_cell (w.baseline cell) cell.scope (timeline w cell) in
      let after = repair_timeline cell w in
      (timeline after cell ≡ es)
      × (after.live cell ≡ final)
      × ((other : Cell) → other ≢ cell → after.live other ≡ w.live other)
unfolding repair_timeline
repair_timeline-eq-repair_cell w cell unique =
    let judged = (replay (w.baseline cell) cell.scope (timeline w cell)).0 in
    let final = (replay (w.baseline cell) cell.scope (timeline w cell)).1 in
    let judged_world = written cell judged (set_cell cell final w.live) w in
    let reread : timeline judged_world cell ≡ judged =
      timeline-written w cell judged (set_cell cell final w.live)
        (unfold timeline in replay-Aligned (w.baseline cell) cell.scope cell.level (rows_at w cell))
        unique in
    (
      (unfold repair_cell in
          (timeline-adjudicate_timeline judged_world cell
              (save_levels-HasUniqueKeys cell.level judged w.rows unique)
            ∙ ap (adjudicate cell.scope (judged_world.live cell)) reread
            ∙ ap (λ v. adjudicate cell.scope v judged) (set_cell-same cell final w.live))),
      (unfold repair_cell adjudicate_timeline in set_cell-same cell _ w.live),
      λ other h. (unfold adjudicate_timeline in set_cell-other cell other _ w.live h),
    )
