-- ===== src/Classification/Rebuild/Order.antt =====
-- The order in which a rebuild takes the revisions.
use mathlib.Core.List.{Perm}
use mathlib.Core.List.Perm
use cubingnow.Prelude.{
  ℕ, List, [], ◌∷◌, ◌≡◌, ◌≢◌, sym, inl, inr, arith, All, All-map, Bool-cases, true, false, LexLe,
  LexLe-trans,
}
use cubingnow.Models.{CanonicalResultRevision}
use cubingnow.Timeline.{ClassificationKey, key_before}
use cubingnow.Classification.Rebuild.{revision_key, insert_revision, sort_revisions}

-- What names a revision: its result and its number.
abbrev pub ident : CanonicalResultRevision → ℕ × ℕ
ident r = (r.canonical_result, r.revision)

-- No revision has a smaller key than one before it.
abbrev pub Ascending : List CanonicalResultRevision → Type 0
Ascending [] = Unit
Ascending (r ∷ rs) = All (λ s. LexLe (revision_key r) (revision_key s)) rs × Ascending rs

key_before-LexLe : (x y : ClassificationKey) → key_before x y ≡ true → LexLe x y
unfolding key_before
key_before-LexLe (a, b, c) (a', b', c') h = ground arith

not-key_before-LexLe : (x y : ClassificationKey) → key_before x y ≡ false → LexLe y x
unfolding key_before
not-key_before-LexLe (a, b, c) (a', b', c') h = ground arith

insert_revision-All {κ} :
    (P : CanonicalResultRevision → Type κ) (r : CanonicalResultRevision)
    (rs : List CanonicalResultRevision)
    → P r
    → All P rs
    → All P (insert_revision r rs)
unfolding insert_revision
insert_revision-All P r [] p h = (p, tt)
insert_revision-All P r (x ∷ rs) p h =
    elim (Bool-cases (key_before (revision_key x) (revision_key r))) [
      | inl e ↦ rw e (h.0, insert_revision-All P r rs p h.1)
      | inr e ↦ rw e (p, (h.0, h.1))
    ]

insert_revision-Ascending :
    (r : CanonicalResultRevision) (rs : List CanonicalResultRevision)
    → Ascending rs
    → Ascending (insert_revision r rs)
unfolding insert_revision
insert_revision-Ascending r [] h = (tt, tt)
insert_revision-Ascending r (x ∷ rs) h =
    elim (Bool-cases (key_before (revision_key x) (revision_key r))) [
      | inl e ↦ rw e (
        insert_revision-All _ r rs (key_before-LexLe (revision_key x) (revision_key r) e) h.0,
        insert_revision-Ascending r rs h.1,
      )
      | inr e ↦
          let le = not-key_before-LexLe (revision_key x) (revision_key r) e in
          rw e (
            (
              le,
              All-map _ _ rs
                  (λ s. LexLe-trans (revision_key r) (revision_key x) (revision_key s) le) h.0,
            ),
            h,
          )
    ]

pub sort_revisions-Ascending : (rs : List CanonicalResultRevision) → Ascending (sort_revisions rs)
unfolding sort_revisions
sort_revisions-Ascending [] = tt
sort_revisions-Ascending (r ∷ rs) =
    insert_revision-Ascending r (sort_revisions rs) (sort_revisions-Ascending rs)

insert_revision-Perm :
    (r : CanonicalResultRevision) (rs : List CanonicalResultRevision)
    → Perm (insert_revision r rs) (r ∷ rs)
unfolding insert_revision
insert_revision-Perm r [] = Perm.rfl
insert_revision-Perm r (x ∷ rs) = elim (Bool-cases (key_before (revision_key x) (revision_key r))) [
  | inl e ↦ rw e (Perm.trans (Perm.cons x (insert_revision-Perm r rs)) (Perm.swap r x rs))
  | inr e ↦ rw e Perm.rfl
]

pub sort_revisions-Perm : (rs : List CanonicalResultRevision) → Perm (sort_revisions rs) rs
unfolding sort_revisions
sort_revisions-Perm [] = Perm.rfl
sort_revisions-Perm (r ∷ rs) =
    Perm.trans (insert_revision-Perm r (sort_revisions rs)) (Perm.cons r (sort_revisions-Perm rs))

-- Distinct names of revisions, without the list of the names.
abbrev pub Apart : List CanonicalResultRevision → Type 0
Apart [] = Unit
Apart (r ∷ rs) = All (λ s. ident s ≢ ident r) rs × Apart rs

insert_revision-Apart :
    (r : CanonicalResultRevision) (rs : List CanonicalResultRevision)
    → All (λ s. ident s ≢ ident r) rs
    → Apart rs
    → Apart (insert_revision r rs)
unfolding insert_revision
insert_revision-Apart r [] a h = (tt, tt)
insert_revision-Apart r (x ∷ rs) a h =
    elim (Bool-cases (key_before (revision_key x) (revision_key r))) [
      | inl e ↦ rw e (
        insert_revision-All _ r rs (λ same. a.0 (sym same)) h.0,
        insert_revision-Apart r rs a.1 h.1,
      )
      | inr e ↦ rw e (a, h)
    ]

pub sort_revisions-Apart :
    (rs : List CanonicalResultRevision) → Apart rs → Apart (sort_revisions rs)
unfolding sort_revisions
sort_revisions-Apart [] h = tt
sort_revisions-Apart (r ∷ rs) h =
    insert_revision-Apart r (sort_revisions rs) (sorted-All rs h.0) (sort_revisions-Apart rs h.1)
  where
    sorted-All :
        (xs : List CanonicalResultRevision)
        → All (λ s. ident s ≢ ident r) xs
        → All (λ s. ident s ≢ ident r) (sort_revisions xs)
    sorted-All [] a = tt
    sorted-All (x ∷ xs) a =
        insert_revision-All (λ s. ident s ≢ ident r) x (sort_revisions xs) a.0 (sorted-All xs a.1)
