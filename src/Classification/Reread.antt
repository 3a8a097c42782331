-- ===== src/Classification/Reread.antt =====
-- Rows with unique keys, selected, sorted and changed, and the entries aligned with them.
use cubingnow.Prelude.{
  ℕ, ℤ, Bool, true, false, Option, some, List, [], ◌∷◌, map, Text, ◌≡◌, ◌≢◌, refl, sym, ap, ◌∙◌,
  subst, inl, inr, arith, All, Exists, select, Bool-cases, ◌==◌,
}
use cubingnow.Models.{RecordLevel, world, continental, national, personal, ProcessedResult}
use cubingnow.Timeline.Incremental.{reset-adjudicate}
use cubingnow.Timeline.{
  reset, judge, advance, replay, adjudicate, repair_cell, Entry, classification_key, key_before,
}
use cubingnow.Classification.Rows.{
  Row, entry_of, patched, find_entry, save_levels, insert_row, sort_rows,
}

abbrev pub key_of : Row → ℕ
key_of row = row.result.pk

-- No two rows share a key.
abbrev pub HasUniqueKeys : List Row → Type 0
HasUniqueKeys [] = Unit
HasUniqueKeys (r ∷ rs) = All (λ x. key_of x ≢ key_of r) rs × HasUniqueKeys rs

abbrev pub InRows : Row → List Row → Type 0
InRows r rs = Exists (λ x. r ≡ x) rs

-- What holds of all rows holds of those that are selected and of those that are sorted.
select-All : (P : Row → Type 0) (p : Row → Bool) (rs : List Row) → All P rs → All P (select p rs)
select-All P p [] h = tt
select-All P p (r ∷ rs) h = elim (Bool-cases (p r)) [
  | inl e ↦ rw e (h.0, select-All P p rs h.1)
  | inr e ↦ rw e (select-All P p rs h.1)
]

pub select-HasUniqueKeys :
    (p : Row → Bool) (rs : List Row) → HasUniqueKeys rs → HasUniqueKeys (select p rs)
select-HasUniqueKeys p [] h = tt
select-HasUniqueKeys p (r ∷ rs) h = elim (Bool-cases (p r)) [
  | inl e ↦ rw e (select-All _ p rs h.0, select-HasUniqueKeys p rs h.1)
  | inr e ↦ rw e (select-HasUniqueKeys p rs h.1)
]

insert_row-All :
    (P : Row → Type 0) (r : Row) (rs : List Row) → P r → All P rs → All P (insert_row r rs)
unfolding insert_row
insert_row-All P r [] p h = (p, tt)
insert_row-All P r (x ∷ rs) p h =
    elim (Bool-cases (key_before (classification_key x.result) (classification_key r.result))) [
      | inl e ↦ rw e (h.0, insert_row-All P r rs p h.1)
      | inr e ↦ rw e (p, h)
    ]

pub sort_rows-All : (P : Row → Type 0) (rs : List Row) → All P rs → All P (sort_rows rs)
unfolding sort_rows
sort_rows-All P [] h = tt
sort_rows-All P (r ∷ rs) h = insert_row-All P r (sort_rows rs) h.0 (sort_rows-All P rs h.1)

insert_row-HasUniqueKeys :
    (r : Row) (rs : List Row)
    → All (λ x. key_of x ≢ key_of r) rs
    → HasUniqueKeys rs
    → HasUniqueKeys (insert_row r rs)
unfolding insert_row
insert_row-HasUniqueKeys r [] d u = (tt, tt)
insert_row-HasUniqueKeys r (x ∷ rs) d u =
    elim (Bool-cases (key_before (classification_key x.result) (classification_key r.result))) [
      | inl e ↦ rw e (
        insert_row-All (λ y. key_of y ≢ key_of x) r rs (λ h. d.0 (sym h)) u.0,
        insert_row-HasUniqueKeys r rs d.1 u.1,
      )
      | inr e ↦ rw e (d, u)
    ]

pub sort_rows-HasUniqueKeys : (rs : List Row) → HasUniqueKeys rs → HasUniqueKeys (sort_rows rs)
unfolding sort_rows
sort_rows-HasUniqueKeys [] u = tt
sort_rows-HasUniqueKeys (r ∷ rs) u =
    insert_row-HasUniqueKeys r (sort_rows rs) (sort_rows-All _ rs u.0)
      (sort_rows-HasUniqueKeys rs u.1)

-- A change that leaves the results alone commutes with sorting.
module _ (f : Row → Row) (same : (r : Row) → (f r).result ≡ r.result) where
  insert_row-map : (r : Row) (rs : List Row) → insert_row (f r) (map f rs) ≡ map f (insert_row r rs)
  unfolding insert_row
  insert_row-map r [] = refl
  insert_row-map r (x ∷ rs) =
      let kept : key_before (classification_key (f x).result) (classification_key (f r).result)
          ≡ key_before (classification_key x.result) (classification_key r.result) =
        ap
          (λ (p : ProcessedResult).
            key_before (classification_key p) (classification_key (f r).result))
          (same x)
        ∙ ap
            (λ (p : ProcessedResult).
              key_before (classification_key x.result) (classification_key p))
            (same r) in
      elim (Bool-cases (key_before (classification_key x.result) (classification_key r.result))) [
        | inl e ↦ rw (kept, e) (ap (λ ys. f x ∷ ys) (insert_row-map r rs))
        | inr e ↦ rw (kept, e) refl
      ]

  pub sort_rows-map : (rs : List Row) → sort_rows (map f rs) ≡ map f (sort_rows rs)
  unfolding sort_rows
  sort_rows-map [] = refl
  sort_rows-map (r ∷ rs) = rw (sort_rows-map rs) (insert_row-map r (sort_rows rs))

-- Entries for these rows, in order, all of the scope.
abbrev pub Aligned : Text → List Entry → List Row → Type 0
Aligned scope [] [] = Unit
Aligned scope (e ∷ es) (r ∷ rs) =
    (e.result ≡ r.result) × (e.level.record_scope ≡ scope) × Aligned scope es rs
Aligned scope [] (r ∷ rs) = ⊥
Aligned scope (e ∷ es) [] = ⊥

pub replay-Aligned :
    (m : Option ℤ) (scope : Text) (level : RecordLevel) (rs : List Row)
    → Aligned scope (replay m scope (map (entry_of level) rs)).0 rs
unfolding replay judge
replay-Aligned m scope level [] = tt
replay-Aligned m scope level (r ∷ rs) =
    (refl, refl, replay-Aligned (advance m r.result.facts.value) scope level rs)

pub reset-Aligned :
    (scope : Text) (es fs : List Entry) (rs : List Row)
    → map reset es ≡ map reset fs
    → Aligned scope fs rs
    → Aligned scope es rs
unfolding reset
reset-Aligned scope [] [] rs h a = a
reset-Aligned scope [] (f ∷ fs) rs h a = absurd (cc h)
reset-Aligned scope (e ∷ es) [] rs h a = absurd (cc h)
reset-Aligned scope (e ∷ es) (f ∷ fs) [] h a = absurd a
reset-Aligned scope (e ∷ es) (f ∷ fs) (r ∷ rs) h a =
    let heads : reset e ≡ reset f = unfold reset in cc h in
    let tails : map reset es ≡ map reset fs = unfold reset in cc h in
    (
      (unfold reset in ap (λ (x : Entry). x.result) heads) ∙ a.0,
      (unfold reset in ap (λ (x : Entry). x.level.record_scope) heads) ∙ a.1,
      reset-Aligned scope es fs rs tails a.2,
    )

-- What a repair makes of the rows of a timeline is aligned with them.
pub repair_cell-Aligned :
    (base : Option ℤ) (scope : Text) (level : RecordLevel) (rs : List Row)
    → Aligned scope (repair_cell base scope (map (entry_of level) rs)).0 rs
unfolding repair_cell
repair_cell-Aligned base scope level rs =
    let es = map (entry_of level) rs in
    let (judged, final) = replay base scope es in
    reset-Aligned scope (adjudicate scope final judged) judged rs
      (reset-adjudicate scope final judged) (replay-Aligned base scope level rs)

find_entry-tail :
    (level : RecordLevel) (e : Entry) (es : List Entry) (rs : List Row)
    → All (λ x. key_of x ≢ e.result.pk) rs
    → save_levels level (e ∷ es) rs ≡ save_levels level es rs
unfolding save_levels find_entry
find_entry-tail level e es [] d = refl
find_entry-tail level e es (r ∷ rs) d =
    let other : (e.result.pk == r.result.pk) ≡ false =
      elim (Bool-cases (e.result.pk == r.result.pk)) [
        | inl h ↦ absurd (d.0 (ground arith))
        | inr h ↦ h
      ] in
    rw other (
      ap (λ ys. patched level (find_entry r.result.pk es) r ∷ ys)
        (unfold save_levels find_entry in find_entry-tail level e es rs d.1))

entry_of-patched :
    (level : RecordLevel) (e : Entry) (r : Row)
    → e.result ≡ r.result
    → entry_of level (patched level (some e) r) ≡ e
entry_of-patched world e r h = rw (← h) refl
entry_of-patched continental e r h = rw (← h) refl
entry_of-patched national e r h = rw (← h) refl
entry_of-patched personal e r h = rw (← h) refl

pub cons_cong : {x y : Entry} {xs ys : List Entry} → x ≡ y → xs ≡ ys → (x ∷ xs) ≡ (y ∷ ys)
cons_cong h k = cc (h, k)

-- The rows of the timeline, saved, show the entries.
pub saved_entries :
    (scope : Text) (level : RecordLevel) (es : List Entry) (rs : List Row)
    → Aligned scope es rs
    → HasUniqueKeys rs
    → map (entry_of level) (save_levels level es rs) ≡ es
unfolding save_levels find_entry
saved_entries scope level [] [] a u = refl
saved_entries scope level [] (r ∷ rs) a u = absurd a
saved_entries scope level (e ∷ es) [] a u = absurd a
saved_entries scope level (e ∷ es) (r ∷ rs) a u =
    let key : e.result.pk ≡ r.result.pk = ap (λ (p : ProcessedResult). p.pk) a.0 in
    let same : (e.result.pk == r.result.pk) ≡ true = ground arith in
    let rest : map (entry_of level) (save_levels level (e ∷ es) rs) ≡ es =
      ap (map (entry_of level))
        (find_entry-tail level e es rs (subst (λ k. All (λ x. key_of x ≢ k) rs) (sym key) u.0))
      ∙ saved_entries scope level es rs a.2 u.1 in
    rw same (cons_cong (entry_of-patched level e r a.0) (unfold save_levels find_entry in rest))
