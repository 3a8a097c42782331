-- ===== src/Reconciliation/Chain.antt =====
-- The revisions of a canonical result, newest first, as `_snapshot_and_enqueue` makes them.
use cubingnow.Prelude.{
  ℕ, suc, ◌≤◌, Bool, true, false, Option, none, some, List, [], ◌∷◌, ◌≡◌, ◌≢◌, refl, sym, ap, ◌∙◌,
  subst, inl, inr, arith, All, All-map, length, is_some, Bool-cases, ◌==◌,
}
use cubingnow.Models.{
  Facts, Facts-discrete, CanonicalResult, CanonicalResultRevision, Status, Action,
}
use cubingnow.Timeline.{least}
use cubingnow.Reconciliation.Rows.{Store, newest, newer, revisions_of}
use cubingnow.Reconciliation.{
  due, facts_differ, is_retracted, settled_head, snapshot_of, record_revision, snapshot_and_enqueue,
}

-- A first revision is active; a later one retracts a live one, restores a retracted one, or changes
-- the facts of a live one.
pub data Follows (r : CanonicalResultRevision) : Option CanonicalResultRevision → Type 0 where
  starts : r.action ≡ Action.active → r.canonical_status ≡ Status.active → Follows r none
  retracts :
      {p : CanonicalResultRevision}
      → r.action ≡ Action.retracted
      → r.canonical_status ≡ Status.retracted
      → is_retracted p.canonical_status ≡ false
      → Follows r (some p)
  restores :
      {p : CanonicalResultRevision}
      → r.action ≡ Action.active
      → r.canonical_status ≡ Status.active
      → is_retracted p.canonical_status ≡ true
      → Follows r (some p)
  corrects :
      {p : CanonicalResultRevision}
      → r.action ≡ Action.corrected
      → r.canonical_status ≡ Status.corrected
      → is_retracted p.canonical_status ≡ false
      → p.facts ≢ r.facts
      → Follows r (some p)

abbrev pub latest_of : List CanonicalResultRevision → Option CanonicalResultRevision
latest_of [] = none
latest_of (r ∷ rest) = some r

-- Revisions count from one without a gap, and each follows the one before it.
abbrev pub Chain : List CanonicalResultRevision → Type 0
Chain [] = Unit
Chain (r ∷ rest) = (r.revision ≡ suc (length rest)) × Follows r (latest_of rest) × Chain rest

least-keeps {ℓ} :
    {A : Type ℓ} (lt : A → A → Bool) (first : A) (xs : List A)
    → All (λ x. lt x first ≡ false) xs
    → least lt first xs ≡ first
unfolding least
least-keeps lt first [] h = refl
least-keeps lt first (x ∷ xs) h = rw h.0 (least-keeps lt first xs h.1)

pub Chain-bounded :
    (rs : List CanonicalResultRevision) → Chain rs → All (λ r. r.revision ≤ length rs) rs
Chain-bounded [] c = tt
Chain-bounded (r ∷ rest) c =
    (omega (arith, c.0), All-map _ _ rest (λ x h. omega arith) (Chain-bounded rest c.2))

-- The newest revision of a chain is its head.
pub newest-Chain : (rs : List CanonicalResultRevision) → Chain rs → newest rs ≡ latest_of rs
unfolding newest
newest-Chain [] c = refl
newest-Chain (r ∷ rest) c = ap some (
    least-keeps newer r rest (
      All-map _ _ rest (λ x h. let e : r.revision ≡ suc (length rest) = c.0 in ground arith)
        (Chain-bounded rest c.2)))

facts_differ_lem : (a b : Facts) → facts_differ a b ≡ true → a ≢ b
unfolding facts_differ
facts_differ_lem a b h = differs (Facts-discrete a b) h
  where
    differs : (d : Dec (a ≡ b)) → elim d [ yes _ ↦ false | no _ ↦ true ] ≡ true → a ≢ b
    differs (yes e) h = absurd (cc h)
    differs (no n) h = n

module _ (result head : CanonicalResult) (p : CanonicalResultRevision) (act : Action) (pk : ℕ) where
  abbrev asked : Option Action × Status
  asked = due result (some p)

  retracts-Follows :
      is_retracted p.canonical_status ≡ false
      → asked ≡ (some Action.retracted, Status.retracted)
      → asked.0 ≡ some act
      → head.status ≡ asked.1
      → Follows (snapshot_of pk act head) (some p)
  unfolding snapshot_of
  retracts-Follows live e h s =
      let w : some act ≡ some Action.retracted = sym h ∙ ap (λ d. d.0) e in
      retracts (cc w) (s ∙ ap (λ d. d.1) e) live

  restores-Follows :
      is_retracted p.canonical_status ≡ true
      → asked ≡ (some Action.active, Status.active)
      → asked.0 ≡ some act
      → head.status ≡ asked.1
      → Follows (snapshot_of pk act head) (some p)
  unfolding snapshot_of
  restores-Follows gone e h s =
      let w : some act ≡ some Action.active = sym h ∙ ap (λ d. d.0) e in
      restores (cc w) (s ∙ ap (λ d. d.1) e) gone

  corrects-Follows :
      is_retracted p.canonical_status ≡ false
      → p.facts ≢ head.facts
      → asked ≡ (some Action.corrected, Status.corrected)
      → asked.0 ≡ some act
      → head.status ≡ asked.1
      → Follows (snapshot_of pk act head) (some p)
  unfolding snapshot_of
  corrects-Follows live new e h s =
      let w : some act ≡ some Action.corrected = sym h ∙ ap (λ d. d.0) e in
      corrects (cc w) (s ∙ ap (λ d. d.1) e) live new

  none_due : asked.0 ≡ none → asked.0 ≡ some act → Follows (snapshot_of pk act head) (some p)
  none_due e h = absurd (cc (e, h))

  -- What `due` asks for is a revision that follows the latest.
  due-Follows :
      asked.0 ≡ some act
      → head.facts ≡ result.facts
      → head.status ≡ asked.1
      → Follows (snapshot_of pk act head) (some p)
  due-Follows h f s = elim (Bool-cases (is_retracted p.canonical_status)) [
    | inl gone ↦ elim (Bool-cases (is_some result.current_observation)) [
      | inl held ↦ restores-Follows gone (unfold due in rw (gone, held) refl) h s
      | inr bare ↦ none_due (unfold due in rw (gone, bare) refl) h
    ]
    | inr live ↦ elim (Bool-cases (is_some result.current_observation)) [
      | inr bare ↦ retracts-Follows live (unfold due in rw (live, bare) refl) h s
      | inl held ↦ elim (Bool-cases (facts_differ p.facts result.facts)) [
        | inl new ↦
            corrects-Follows live (λ e. facts_differ_lem p.facts result.facts new (e ∙ f))
              (unfold due in rw (live, held, new) refl) h s
        | inr old ↦ none_due (unfold due in rw (live, held, old) refl) h
      ]
    ]
  ]

pub revisions_of-same :
    (pk : ℕ) (r : CanonicalResultRevision) (rs : List CanonicalResultRevision)
    → (r.canonical_result == pk) ≡ true
    → revisions_of pk (r ∷ rs) ≡ r ∷ revisions_of pk rs
unfolding revisions_of
revisions_of-same pk r rs h = rw h refl

pub revisions_of-other :
    (pk : ℕ) (r : CanonicalResultRevision) (rs : List CanonicalResultRevision)
    → (r.canonical_result == pk) ≡ false
    → revisions_of pk (r ∷ rs) ≡ revisions_of pk rs
unfolding revisions_of
revisions_of-other pk r rs h = rw h refl

added-Chain :
    (pk : ℕ) (r : CanonicalResultRevision) (rs : List CanonicalResultRevision)
    → Chain (r ∷ revisions_of r.canonical_result rs)
    → Chain (revisions_of pk rs)
    → Chain (revisions_of pk (r ∷ rs))
added-Chain pk r rs fits chain = elim (Bool-cases (r.canonical_result == pk)) [
  | inl h ↦
      let e : r.canonical_result ≡ pk = ground arith in
      subst Chain (sym (revisions_of-same pk r rs h))
        (subst (λ k. Chain (r ∷ revisions_of k rs)) e fits)
  | inr h ↦ subst Chain (sym (revisions_of-other pk r rs h)) chain
]

record_revision-Chain :
    (now pk : ℕ) (asked : Option Action) (head : CanonicalResult) (store : Store)
    → ((act : Action)
        → asked ≡ some act
        → (k : ℕ) → Chain (snapshot_of k act head ∷ revisions_of head.pk store.revisions))
    → Chain (revisions_of pk store.revisions)
    → Chain (revisions_of pk (record_revision now asked head store).1.revisions)
unfolding record_revision snapshot_of
record_revision-Chain now pk none head store fits chain = chain
record_revision-Chain now pk (some act) head store fits chain =
    added-Chain pk _ store.revisions (fits act refl _) chain

due-first :
    (result head : CanonicalResult) (act : Action) (pk : ℕ)
    → (due result none).0 ≡ some act
    → head.status ≡ (due result none).1
    → Follows (snapshot_of pk act head) none
unfolding due snapshot_of
due-first result head act pk h s = starts (cc h) s

-- The head that is saved where the newest of `rs` is the latest revision.
abbrev pub head_after :
    CanonicalResult → List CanonicalResultRevision → Option Action → CanonicalResult
head_after result rs asked = settled_head asked (due result (latest_of rs)).1 (latest_of rs) result

settled-Chain :
    (result : CanonicalResult) (rs : List CanonicalResultRevision) (act : Action) (k : ℕ)
    → Chain rs
    → (due result (latest_of rs)).0 ≡ some act
    → Chain (snapshot_of k act (head_after result rs (some act)) ∷ rs)
unfolding settled_head snapshot_of
settled-Chain result [] act k chain h = (
  refl,
  (unfold snapshot_of in due-first result (head_after result [] (some act)) act k h refl),
  tt,
)
settled-Chain result (r ∷ rest) act k chain h = (
  omega (arith, chain.0),
  (unfold snapshot_of in
      due-Follows result (head_after result (r ∷ rest) (some act)) r act k h refl refl),
  chain,
)

head_after-Chain :
    (result : CanonicalResult) (revisions : List CanonicalResultRevision) (act : Action) (k : ℕ)
    → (let rs = revisions_of result.pk revisions in
        Chain rs
        → (due result (latest_of rs)).0 ≡ some act
        → Chain (
            snapshot_of k act (head_after result rs (some act))
            ∷ revisions_of (head_after result rs (some act)).pk revisions))
unfolding settled_head
head_after-Chain result revisions act k chain h =
    (unfold settled_head in settled-Chain result (revisions_of result.pk revisions) act k chain h)

-- Where the revisions of every result count from one without a gap, start with an active one, and
-- each retracts a live one, restores a retracted one or changes the facts of a live one, the same
-- holds after `_snapshot_and_enqueue` of any head.
pub snapshot_and_enqueue-Chain :
    (now : ℕ) (result : CanonicalResult) (store : Store)
    → ((pk : ℕ) → Chain (revisions_of pk store.revisions))
    → (pk : ℕ) → Chain (revisions_of pk (snapshot_and_enqueue now result store).1.revisions)
unfolding snapshot_and_enqueue
snapshot_and_enqueue-Chain now result store chains pk =
    rw (newest-Chain (revisions_of result.pk store.revisions) (chains result.pk)) (
      record_revision-Chain now pk _ _ store
        (λ act h k.
          subst
            (λ a. Chain (
              snapshot_of k act (head_after result (revisions_of result.pk store.revisions) a)
              ∷ revisions_of (head_after result (revisions_of result.pk store.revisions) a).pk
                  store.revisions))
            (sym h) (head_after-Chain result store.revisions act k (chains result.pk) h))
        (chains pk))
