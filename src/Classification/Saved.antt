-- ===== src/Classification/Saved.antt =====
-- Level rows that are written are the level rows that the next query of the timeline reads.
use cubingnow.Prelude.{
  ℕ, Bool, true, false, Option, none, some, List, [], ◌∷◌, map, Text, text_eq_iff, ◌≡◌, refl, sym,
  ap, ◌∙◌, subst, inl, inr, arith, All, All-map, select, Bool-cases, Option-cases, ◌==◌,
}
use cubingnow.Models.{RecordLevel, world, continental, national, personal, ProcessedResult, Level}
use cubingnow.Timeline.{Entry}
use cubingnow.Classification.Rows.{
  Row, Cell, Cells, World, level_of, entry_of, patched, find_entry, save_levels, fits, in_timeline,
  sort_rows, rows_at, timeline,
}
use cubingnow.Classification.Reread.{
  key_of, HasUniqueKeys, InRows, Aligned, select-HasUniqueKeys, sort_rows-HasUniqueKeys,
  sort_rows-All, saved_entries, sort_rows-map,
}

pub select-true :
    (P : Row → Type 0) (p : Row → Bool) (rs : List Row)
    → All P rs
    → All (λ r. P r × (p r ≡ true)) (select p rs)
select-true P p [] h = tt
select-true P p (r ∷ rs) h = elim (Bool-cases (p r)) [
  | inl e ↦ rw e ((h.0, e), select-true P p rs h.1)
  | inr e ↦ rw e (select-true P p rs h.1)
]

pub self_InRows : (rs : List Row) → All (λ r. InRows r rs) rs
self_InRows [] = tt
self_InRows (r ∷ rs) = (inl refl, All-map _ _ rs (λ x i. inr i) (self_InRows rs))

All-InRows : (P : Row → Type 0) (r : Row) (rs : List Row) → All P rs → InRows r rs → P r
All-InRows P r [] h i = absurd i
All-InRows P r (x ∷ rs) h (inl e) = subst P (sym e) h.0
All-InRows P r (x ∷ rs) h (inr i) = All-InRows P r rs h.1 i

unique_row :
    (a b : Row) (rs : List Row)
    → HasUniqueKeys rs
    → InRows a rs
    → InRows b rs
    → key_of a ≡ key_of b
    → a ≡ b
unique_row a b [] u i j h = absurd i
unique_row a b (x ∷ rs) u (inl e) (inl f) h = e ∙ sym f
unique_row a b (x ∷ rs) u (inl e) (inr j) h = absurd (All-InRows _ b rs u.0 j (sym h ∙ ap key_of e))
unique_row a b (x ∷ rs) u (inr i) (inl f) h = absurd (All-InRows _ a rs u.0 i (h ∙ ap key_of f))
unique_row a b (x ∷ rs) u (inr i) (inr j) h = unique_row a b rs u.1 i j h

find_entry-here :
    (pk : ℕ) (e : Entry) (es : List Entry)
    → (e.result.pk == pk) ≡ true
    → find_entry pk (e ∷ es) ≡ some e
unfolding find_entry
find_entry-here pk e es h = rw h refl

find_entry-later :
    (pk : ℕ) (e : Entry) (es : List Entry)
    → (e.result.pk == pk) ≡ false
    → find_entry pk (e ∷ es) ≡ find_entry pk es
unfolding find_entry
find_entry-later pk e es h = rw h refl

-- A row that is found among aligned entries.
abbrev Found : (Row → Type 0) → Text → ℕ → Entry → Type 0
Found Q scope pk e =
    (r : Row) × Q r × (e.result ≡ r.result) × (e.level.record_scope ≡ scope) × (e.result.pk ≡ pk)

find-Found :
    (Q : Row → Type 0) (scope : Text) (pk : ℕ) (e : Entry) (es : List Entry) (rs : List Row)
    → Aligned scope es rs
    → All Q rs
    → find_entry pk es ≡ some e
    → Found Q scope pk e
find-Found Q scope pk e [] rs a q h = absurd (unfold find_entry in cc h)
find-Found Q scope pk e (x ∷ es) [] a q h = absurd a
find-Found Q scope pk e (x ∷ es) (r ∷ rs) a q h = elim (Bool-cases (x.result.pk == pk)) [
  | inl t ↦
      let same : x ≡ e = cc (h, find_entry-here pk x es t) in
      let key : x.result.pk ≡ pk = ground arith in
      subst (Found Q scope pk) same (r, q.0, a.0, a.1, key)
  | inr t ↦ find-Found Q scope pk e es rs a.2 q.1 (cc (h, find_entry-later pk x es t))
]

pub patched-result :
    (level : RecordLevel) (o : Option Entry) (r : Row) → (patched level o r).result ≡ r.result
patched-result level none r = refl
patched-result world (some e) r = refl
patched-result continental (some e) r = refl
patched-result national (some e) r = refl
patched-result personal (some e) r = refl

level_of-patched :
    (level : RecordLevel) (e : Entry) (r : Row)
    → level_of level (patched level (some e) r) ≡ e.level
level_of-patched world e r = refl
level_of-patched continental e r = refl
level_of-patched national e r = refl
level_of-patched personal e r = refl

pub fits-scope :
    (w : World) (cell : Cell) (result : ProcessedResult) (scope : Text)
    → fits w cell result scope ≡ true
    → scope ≡ cell.scope
unfolding fits
fits-scope w cell result scope h = (text_eq_iff scope cell.scope).0 (ground arith)

-- The tables with level rows and live cells written.
abbrev pub written : Cell → List Entry → Cells → World → World
written cell es cells w = record w { rows = save_levels cell.level es w.rows; live = cells }

module _ (w : World) (cell : Cell) (es : List Entry) (cells : Cells)
    (aligned : Aligned cell.scope es (rows_at w cell)) (unique : HasUniqueKeys w.rows) where
  abbrev change : Row → Row
  change row = patched cell.level (find_entry row.result.pk es) row

  -- The rows of the timeline are rows of the table that fit.
  selected : All (λ r. InRows r w.rows × (in_timeline w cell r ≡ true)) (rows_at w cell)
  unfolding rows_at
  selected =
      sort_rows-All _ _
        (select-true (λ r. InRows r w.rows) (in_timeline w cell) w.rows (self_InRows w.rows))

  -- A row that is patched was in the timeline, and stays in it.
  patched-fits :
      (row : Row) (x : Entry)
      → InRows row w.rows
      → find_entry row.result.pk es ≡ some x
      → fits w cell
          (patched cell.level (some x) row).result
          (level_of cell.level (patched cell.level (some x) row)).record_scope
        ≡ in_timeline w cell row
  unfolding in_timeline
  patched-fits row x i e =
      let (r, (j, t), res, sc, key) =
        find-Found _ cell.scope row.result.pk x es _ aligned selected e in
      let same_key : key_of r ≡ key_of row = ap (λ (p : ProcessedResult). p.pk) (sym res) ∙ key in
      let same : r ≡ row = unique_row r row w.rows unique j i same_key in
      let fitted : in_timeline w cell row ≡ true =
        subst (λ (y : Row). in_timeline w cell y ≡ true) same t in
      let old : (level_of cell.level row).record_scope ≡ cell.scope =
        fits-scope w cell row.result _ (unfold in_timeline in fitted) in
      ap
        (λ (p : ProcessedResult).
          fits w cell p (level_of cell.level (patched cell.level (some x) row)).record_scope)
        (patched-result cell.level (some x) row)
      ∙ ap (fits w cell row.result)
          (ap (λ (l : Level). l.record_scope) (level_of-patched cell.level x row) ∙ sc ∙ sym old)

  change-in_timeline :
      (row : Row)
      → InRows row w.rows
      → in_timeline (written cell es cells w) cell (change row) ≡ in_timeline w cell row
  unfolding in_timeline fits
  change-in_timeline row i = elim (Option-cases (find_entry row.result.pk es)) [
    | inl e ↦ rw e refl
    | inr (x, e) ↦
        subst
          (λ (o : Option Entry).
            fits w cell (patched cell.level o row).result
              (level_of cell.level (patched cell.level o row)).record_scope
            ≡ in_timeline w cell row)
          (sym e) (unfold in_timeline in patched-fits row x i e)
  ]

  select-change :
      (rs : List Row)
      → All (λ r. InRows r w.rows) rs
      → select (in_timeline (written cell es cells w) cell) (map change rs)
        ≡ map change (select (in_timeline w cell) rs)
  select-change [] h = refl
  select-change (r ∷ rs) h =
      let same = change-in_timeline r h.0 in
      let rest = select-change rs h.1 in
      elim (Bool-cases (in_timeline w cell r)) [
        | inl e ↦ rw (same, e) (ap (λ ys. change r ∷ ys) rest)
        | inr e ↦ rw (same, e) rest
      ]

  -- The query after the write reads the entries.
  pub timeline-written : timeline (written cell es cells w) cell ≡ es
  unfolding timeline rows_at save_levels
  timeline-written =
      let results = λ (r : Row). patched-result cell.level (find_entry r.result.pk es) r in
      let sorted : sort_rows
            (select (in_timeline (written cell es cells w) cell) (map change w.rows))
          ≡ map change (sort_rows (select (in_timeline w cell) w.rows)) =
        ap sort_rows (select-change w.rows (self_InRows w.rows))
        ∙ sort_rows-map change results (select (in_timeline w cell) w.rows) in
      ap (map (entry_of cell.level)) sorted
      ∙ (unfold save_levels rows_at in
          saved_entries cell.scope cell.level es (rows_at w cell) aligned
            (sort_rows-HasUniqueKeys _ (select-HasUniqueKeys (in_timeline w cell) w.rows unique)))
