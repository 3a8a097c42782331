-- ===== src/Work/Valid.antt =====
-- The invariant of the queue, and when a change of one row keeps it.
use mathlib.Core.Path.{subst₂}
use cubingnow.Prelude.{
  ℕ, ◌<◌, false, [], ◌∷◌, ◌≡◌, ◌≢◌, refl, sym, subst, ap, ◌∙◌, inl, inr, ◌==◌, ==_iff, Bool-cases,
  if◌then◌else◌,
}
use cubingnow.Work.{pending, processing, ClassificationWork, Queue, is_unsettled, update_row}
use cubingnow.Work.Claims.{In}

abbrev pub IsSettled : ClassificationWork → Type 0
IsSettled w = is_unsettled w.status ≡ false

-- `earlier` is an earlier revision of the result of `w`.
abbrev pub Precedes : ClassificationWork → ClassificationWork → Type 0
Precedes earlier w =
    (earlier.canonical_result ≡ w.canonical_result) × (earlier.revision < w.revision)

-- Keys and revisions are unique, work that has begun has all earlier revisions settled, and only
-- work in progress names a worker.
pub record IsValid (q : Queue) : Type 0 where
  pub unique : (a b : ClassificationWork) → In a q → In b q → a.pk ≡ b.pk → a ≡ b
  pub revisions :
      (a b : ClassificationWork)
      → In a q
      → In b q
      → a.canonical_result ≡ b.canonical_result
      → a.revision ≡ b.revision
      → a ≡ b
  pub ordered :
      (a b : ClassificationWork) → In a q → In b q → Precedes a b → b.status ≢ pending → IsSettled a
  pub claimed : (a : ClassificationWork) → In a q → a.claimed_by ≢ [] → a.status ≡ processing

abbrev pub changed :
    ℕ → (ClassificationWork → ClassificationWork) → ClassificationWork → ClassificationWork
changed pk f v = if v.pk == pk then f v else v

pub In-update :
    (pk : ℕ) (f : ClassificationWork → ClassificationWork) (q : Queue) (w : ClassificationWork)
    → In w (update_row pk f q)
    → (v : ClassificationWork) × In v q × (w ≡ changed pk f v)
unfolding update_row
In-update pk f [] w i = absurd i
In-update pk f (x ∷ q) w (inl e) = (x, inl refl, e)
In-update pk f (x ∷ q) w (inr i) = let (v, there, e) = In-update pk f q w i in (v, inr there, e)

pub update-In :
    (pk : ℕ) (f : ClassificationWork → ClassificationWork) (q : Queue) (v : ClassificationWork)
    → In v q
    → In (changed pk f v) (update_row pk f q)
unfolding update_row
update-In pk f (x ∷ q) v (inl e) = inl (ap (changed pk f) e)
update-In pk f (x ∷ q) v (inr i) = inr (update-In pk f q v i)
update-In pk f [] v i = absurd i

module _ (pk : ℕ) (f : ClassificationWork → ClassificationWork) (q : Queue) (valid : IsValid q)
    (keeps : (v : ClassificationWork)
      → ((f v).pk ≡ v.pk)
        × ((f v).canonical_result ≡ v.canonical_result)
        × ((f v).revision ≡ v.revision))
    (opens : (v a : ClassificationWork)
      → In v q
      → v.pk ≡ pk
      → (f v).status ≢ pending
      → In a q
      → Precedes a v
      → IsSettled a)
    (closes : (v : ClassificationWork) → In v q → v.pk ≡ pk → IsSettled v → IsSettled (f v))
    (names : (v : ClassificationWork)
      → In v q
      → v.pk ≡ pk
      → (f v).claimed_by ≢ []
      → (f v).status ≡ processing) where
  changed_keeps :
      (v : ClassificationWork)
      → ((changed pk f v).pk ≡ v.pk)
        × ((changed pk f v).canonical_result ≡ v.canonical_result)
        × ((changed pk f v).revision ≡ v.revision)
  changed_keeps v = elim (Bool-cases (v.pk == pk)) [
    | inl here_row ↦ rw here_row (keeps v)
    | inr other ↦ rw other (refl, refl, refl)
  ]

  changed_opens :
      (v a : ClassificationWork)
      → In v q
      → (changed pk f v).status ≢ pending
      → In a q
      → Precedes a v
      → IsSettled a
  changed_opens v a iv h ia before = elim (Bool-cases (v.pk == pk)) [
    | inl here_row ↦ opens v a iv ((==_iff v.pk pk).0 here_row) (rw here_row at h) ia before
    | inr other ↦ valid.ordered a v ia iv before (rw other at h)
  ]

  changed_closes : (v : ClassificationWork) → In v q → IsSettled v → IsSettled (changed pk f v)
  changed_closes v iv h = elim (Bool-cases (v.pk == pk)) [
    | inl here_row ↦ rw here_row (closes v iv ((==_iff v.pk pk).0 here_row) h)
    | inr other ↦ rw other h
  ]

  changed_names :
      (v : ClassificationWork)
      → In v q
      → (changed pk f v).claimed_by ≢ []
      → (changed pk f v).status ≡ processing
  changed_names v iv h = elim (Bool-cases (v.pk == pk)) [
    | inl here_row ↦ rw here_row (names v iv ((==_iff v.pk pk).0 here_row) (rw here_row at h))
    | inr other ↦ rw other (valid.claimed v iv (rw other at h))
  ]

  changed_unique :
      (v w a b : ClassificationWork) → a ≡ changed pk f v → b ≡ changed pk f w → v ≡ w → a ≡ b
  changed_unique v w a b ea eb e = ea ∙ ap (changed pk f) e ∙ sym eb

  pub update-IsValid : IsValid (update_row pk f q)
  update-IsValid = record {
    unique = λ a b ia ib e.
        let (v, iv, ea) = In-update pk f q a ia in
        let (w, iw, eb) = In-update pk f q b ib in
        let same : v.pk ≡ w.pk = cc (ea, eb, (changed_keeps v).0, (changed_keeps w).0) in
        changed_unique v w a b ea eb (valid.unique v w iv iw same);
    revisions = λ a b ia ib c r.
        let (v, iv, ea) = In-update pk f q a ia in
        let (w, iw, eb) = In-update pk f q b ib in
        let same : v.canonical_result ≡ w.canonical_result =
          cc (ea, eb, (changed_keeps v).1, (changed_keeps w).1) in
        let also : v.revision ≡ w.revision =
          cc (ea, eb, (changed_keeps v).2, (changed_keeps w).2) in
        changed_unique v w a b ea eb (valid.revisions v w iv iw same also);
    ordered = λ a b ia ib p h.
        let (v, iv, ea) = In-update pk f q a ia in
        let (w, iw, eb) = In-update pk f q b ib in
        let before : Precedes v w = (
          cc (ea, eb, p.0, (changed_keeps v).1, (changed_keeps w).1),
          subst₂ (λ m n. m < n)
              (ap (λ (z : ClassificationWork). z.revision) ea ∙ (changed_keeps v).2)
              (ap (λ (z : ClassificationWork). z.revision) eb ∙ (changed_keeps w).2) p.1,
        ) in
        subst IsSettled (sym ea) (
          changed_closes v iv (
            changed_opens w v iw (λ e. h (ap (λ (z : ClassificationWork). z.status) eb ∙ e)) iv
              before));
    claimed = λ a ia h.
        let (v, iv, ea) = In-update pk f q a ia in
        ap (λ (z : ClassificationWork). z.status) ea
        ∙ changed_names v iv (λ e. h (ap (λ (z : ClassificationWork). z.claimed_by) ea ∙ e));
  }
