-- ===== src/Reconciliation/Enqueue.antt =====
-- The work that `_snapshot_and_enqueue` adds, as a transaction of the queue of Work.
use cubingnow.Prelude.{
  ℕ, suc, ◌≤◌, ◌<◌, true, false, Option, none, some, List, [], ◌∷◌, map, ◌≡◌, refl, sym, ap, ◌∙◌,
  ◌⊎◌, subst, inl, inr, arith, All, All-map, Exists, length, any, Bool-cases, ◌==◌,
}
use cubingnow.Models.{CanonicalResult, CanonicalResultRevision, Action}
use cubingnow.Work.{Queue, ClassificationWork}
use cubingnow.Work.Claims.{In, All-In}
use cubingnow.Work.Reach.{Step, enqueue, Reach, here, next}
use cubingnow.Reconciliation.Rows.{Store, revisions_of, new_pk}
use cubingnow.Reconciliation.{
  due, settled_head, snapshot_of, work_row, enqueue_revision, record_revision, snapshot_and_enqueue,
  next_revision,
}
use cubingnow.Reconciliation.Chain.{
  Chain, Chain-bounded, latest_of, newest-Chain, revisions_of-same, revisions_of-other, head_after,
  snapshot_and_enqueue-Chain,
}

-- A work row names a revision that is there.
abbrev pub Names : ClassificationWork → CanonicalResultRevision → Type 0
Names w r =
    (r.pk ≡ w.canonical_result_revision)
    × (r.canonical_result ≡ w.canonical_result)
    × (r.revision ≡ w.revision)

abbrev pub IsBacked : List CanonicalResultRevision → ClassificationWork → Type 0
IsBacked rs w = Exists (Names w) rs

-- The revisions of every result form a chain, and every work row names one of them.
pub record IsCoherent (store : Store) : Type 0 where
  pub chains : (pk : ℕ) → Chain (revisions_of pk store.revisions)
  pub backed : All (IsBacked store.revisions) store.work

revision_key-lt :
    (w : ClassificationWork) (rs : List CanonicalResultRevision)
    → IsBacked rs w
    → w.canonical_result_revision < new_pk (map (λ r. r.pk) rs)
unfolding new_pk
revision_key-lt w [] h = absurd h
revision_key-lt w (r ∷ rs) (inl n) = let e : r.pk ≡ w.canonical_result_revision = n.0 in omega arith
revision_key-lt w (r ∷ rs) (inr h) = omega (arith, revision_key-lt w rs h)

work_key-lt : (w : ClassificationWork) (q : Queue) → In w q → w.pk < new_pk (map (λ v. v.pk) q)
unfolding new_pk
work_key-lt w [] i = absurd i
work_key-lt w (v ∷ q) (inl e) =
    let k : w.pk ≡ v.pk = ap (λ (x : ClassificationWork). x.pk) e in omega arith
work_key-lt w (v ∷ q) (inr i) = omega (arith, work_key-lt w q i)

-- No work row names a new revision.
none_named :
    (k : ℕ) (q : Queue)
    → All (λ w. w.canonical_result_revision < k) q
    → any (λ w. w.canonical_result_revision == k) q ≡ false
none_named k [] h = refl
none_named k (w ∷ q) h =
    let e : (w.canonical_result_revision == k) ≡ false = ground arith in rw e (none_named k q h.1)

-- A revision that is named counts among those of its result.
named_in :
    (w : ClassificationWork) (rs : List CanonicalResultRevision)
    → IsBacked rs w
    → Exists (λ r. r.revision ≡ w.revision) (revisions_of w.canonical_result rs)
named_in w [] h = absurd h
named_in w (r ∷ rs) (inl n) =
    let same : (r.canonical_result == w.canonical_result) ≡ true =
      let e : r.canonical_result ≡ w.canonical_result = n.1 in ground arith in
    rw (revisions_of-same w.canonical_result r rs same) (inl n.2)
named_in w (r ∷ rs) (inr h) =
    let rest = named_in w rs h in
    elim (Bool-cases (r.canonical_result == w.canonical_result)) [
      | inl e ↦ rw (revisions_of-same w.canonical_result r rs e) (inr rest)
      | inr e ↦ rw (revisions_of-other w.canonical_result r rs e) rest
    ]

bounded_at :
    (n k : ℕ) (rs : List CanonicalResultRevision)
    → All (λ r. r.revision ≤ n) rs
    → Exists (λ r. r.revision ≡ k) rs
    → k ≤ n
bounded_at n k [] h x = absurd x
bounded_at n k (r ∷ rs) h (inl e) = let b : r.revision ≤ n = h.0 in omega arith
bounded_at n k (r ∷ rs) h (inr x) = bounded_at n k rs h.1 x

next_revision-Chain :
    (rs : List CanonicalResultRevision) → Chain rs → next_revision (latest_of rs) ≡ suc (length rs)
next_revision-Chain [] c = refl
next_revision-Chain (r ∷ rest) c = omega (arith, c.0)

-- Every work row of a result has an earlier revision than the one that comes next.
earlier_work :
    (w : ClassificationWork) (pk : ℕ) (store : Store)
    → IsCoherent store
    → In w store.work
    → w.canonical_result ≡ pk
    → w.revision < next_revision (latest_of (revisions_of pk store.revisions))
earlier_work w pk store co i e =
    let rs = revisions_of w.canonical_result store.revisions in
    let bound : w.revision ≤ length rs =
      bounded_at (length rs) w.revision rs (Chain-bounded rs (co.chains w.canonical_result))
        (named_in w store.revisions (All-In (IsBacked store.revisions) store.work co.backed w i)) in
    subst (λ p. w.revision < next_revision (latest_of (revisions_of p store.revisions))) e
      (let n = next_revision-Chain rs (co.chains w.canonical_result) in omega (arith, n, bound))

-- `get_or_create` makes a work row for a new revision of a coherent store, and that is a transaction
-- of the queue.
added_row :
    (now : ℕ) (revision : CanonicalResultRevision) (store : Store)
    → IsCoherent store
    → revision.pk ≡ new_pk (map (λ r. r.pk) store.revisions)
    → enqueue_revision now revision store.work
      ≡ work_row now (new_pk (map (λ w. w.pk) store.work)) revision ∷ store.work
unfolding enqueue_revision
added_row now revision store co key =
    let free = none_named revision.pk store.work (
      All-map _ _ store.work
        (λ w b. let lt = revision_key-lt w store.revisions b in omega (arith, lt, key))
        co.backed) in
    rw free refl

row-Step :
    (now : ℕ) (revision : CanonicalResultRevision) (store : Store)
    → IsCoherent store
    → revision.revision
      ≡ next_revision (latest_of (revisions_of revision.canonical_result store.revisions))
    → Step store.work (work_row now (new_pk (map (λ w. w.pk) store.work)) revision ∷ store.work)
unfolding work_row
row-Step now revision store co number =
    enqueue _ refl refl
      (λ v i e. let lt = work_key-lt v store.work i in absurd (omega (arith, lt, e)))
      (λ v i e.
        let lt = earlier_work v revision.canonical_result store co i e in omega (arith, lt, number))

-- The work rows stay, or one new row comes to them by a transaction of the queue.
abbrev pub AtMostOneRow : Queue → Queue → Type 0
AtMostOneRow q q' = (q' ≡ q) ⊎ ((w : ClassificationWork) × (q' ≡ w ∷ q) × Step q (w ∷ q))

AtMostOneRow-Reach : (q q' : Queue) → AtMostOneRow q q' → Reach q q'
AtMostOneRow-Reach q q' (inl e) = subst (λ r. Reach q r) (sym e) here
AtMostOneRow-Reach q q' (inr (w, e, step)) = subst (λ r. Reach q r) (sym e) (next here step)

-- What the writes of `_snapshot_and_enqueue` do to the work rows.
abbrev Enqueued : Store → Store → Type 0
Enqueued store store' =
    AtMostOneRow store.work store'.work × All (IsBacked store'.revisions) store'.work

record_revision-Enqueued :
    (now : ℕ) (asked : Option Action) (head : CanonicalResult) (store : Store)
    → IsCoherent store
    → ((act : Action)
        → asked ≡ some act
        → head.revision ≡ next_revision (latest_of (revisions_of head.pk store.revisions)))
    → Enqueued store (record_revision now asked head store).1
unfolding record_revision snapshot_of
record_revision-Enqueued now none head store co number = (inl refl, co.backed)
record_revision-Enqueued now (some act) head store co number =
    let revision = snapshot_of (new_pk (map (λ r. r.pk) store.revisions)) act head in
    let row = added_row now revision store co (unfold snapshot_of in refl) in
    let step = row-Step now revision store co (unfold snapshot_of in number act refl) in
    (
      inr (_, row, step),
      subst (λ q. All (IsBacked (revision ∷ store.revisions)) q) (sym row)
          (
            inl (unfold work_row snapshot_of in (refl, refl, refl)),
            All-map _ _ store.work (λ w b. inr b) co.backed,
          ),
    )

settled_number :
    (result : CanonicalResult) (rs : List CanonicalResultRevision) (act : Action)
    → (due result (latest_of rs)).0 ≡ some act
    → (head_after result rs (due result (latest_of rs)).0).revision ≡ next_revision (latest_of rs)
settled_number result rs act h =
    subst (λ a. (head_after result rs a).revision ≡ next_revision (latest_of rs)) (sym h)
      (unfold settled_head in refl)

head_after-pk :
    (result : CanonicalResult) (rs : List CanonicalResultRevision) (asked : Option Action)
    → (head_after result rs asked).pk ≡ result.pk
unfolding settled_head
head_after-pk result rs none = refl
head_after-pk result rs (some act) = refl

snapshot_and_enqueue-Enqueued :
    (now : ℕ) (result : CanonicalResult) (store : Store)
    → IsCoherent store
    → Enqueued store (snapshot_and_enqueue now result store).1
unfolding snapshot_and_enqueue
snapshot_and_enqueue-Enqueued now result store co =
    let rs = revisions_of result.pk store.revisions in
    rw (newest-Chain rs (co.chains result.pk)) (
      record_revision-Enqueued now (due result (latest_of rs)).0
        (head_after result rs (due result (latest_of rs)).0) store co
        (λ act h.
          settled_number result rs act h
          ∙ ap (λ k. next_revision (latest_of (revisions_of k store.revisions)))
              (sym (head_after-pk result rs (due result (latest_of rs)).0))))

-- From a coherent store, `_snapshot_and_enqueue` leaves a coherent store, and its work rows are those
-- of before, or those of before with one new row which a single transaction of the queue adds.
pub snapshot_and_enqueue-IsCoherent :
    (now : ℕ) (result : CanonicalResult) (store : Store)
    → IsCoherent store
    → let store' = (snapshot_and_enqueue now result store).1 in
      IsCoherent store' × AtMostOneRow store.work store'.work
snapshot_and_enqueue-IsCoherent now result store co =
    let (row, backed) = snapshot_and_enqueue-Enqueued now result store co in
    (
      record { chains = snapshot_and_enqueue-Chain now result store co.chains; backed = backed },
      row,
    )

pub snapshot_and_enqueue-Reach :
    (now : ℕ) (result : CanonicalResult) (store : Store)
    → IsCoherent store
    → let store' = (snapshot_and_enqueue now result store).1 in
      IsCoherent store' × Reach store.work store'.work
snapshot_and_enqueue-Reach now result store co =
    let (kept, row) = snapshot_and_enqueue-IsCoherent now result store co in
    (kept, AtMostOneRow-Reach store.work _ row)
