-- ===== src/Work/Reach.antt =====
-- The queue under any interleaving of enqueues, claims and completions by any workers.
use cubingnow.Prelude.{
  ℕ, ◌<◌, Bool, true, false, Option, none, some, [], ◌∷◌, Text, ◌≡◌, ◌≢◌, refl, sym, subst, ap, ◌∙◌,
  ◌⊎◌, inl, inr, arith, ◌==◌, ==_iff, Bool-cases, text_eq_iff,
}
use cubingnow.Work.{
  WorkStatus, pending, processing, completed, failed, stale, ClassificationWork, Queue,
  ClaimedRevision, is_unsettled, is_ready, update_row, take_claim, claim_next_work, Classified,
  current, superseded, raised, settle_row, settle_claimed, holds_claim, find_row, fail_row,
  process_claimed_work,
}
use cubingnow.Work.Claims.{In, All-In, Claims, claim_next_work-Claims}
use cubingnow.Work.Valid.{IsSettled, Precedes, IsValid, update-IsValid}

-- One transaction of some worker, or of the reconciliation that enqueues a revision.
pub data Step (q : Queue) : Queue → Type 0 where
  enqueue :
      (w : ClassificationWork)
      → w.status ≡ pending
      → w.claimed_by ≡ []
      → ((v : ClassificationWork) → In v q → v.pk ≢ w.pk)
      → ((v : ClassificationWork)
          → In v q
          → v.canonical_result ≡ w.canonical_result
          → v.revision < w.revision)
      → Step q (w ∷ q)
  claim :
      (baseline_active : Bool) (worker : Text) (now lease_seconds : ℕ)
      → worker ≢ []
      → Step q (claim_next_work baseline_active worker now lease_seconds q).1
  process :
      (classified : Classified) (c : ClaimedRevision) (worker : Text) (now : ℕ)
      → worker ≢ []
      → Step q (process_claimed_work classified c worker now q).1

pub data Reach (q : Queue) : Queue → Type 0 where
  here : Reach q q
  next : {r s : Queue} → Reach q r → Step r s → Reach q s

-- Each kind of transaction keeps the queue valid.
enqueue-IsValid :
    (w : ClassificationWork) (q : Queue)
    → IsValid q
    → w.status ≡ pending
    → w.claimed_by ≡ []
    → ((v : ClassificationWork) → In v q → v.pk ≢ w.pk)
    → ((v : ClassificationWork)
        → In v q
        → v.canonical_result ≡ w.canonical_result
        → v.revision < w.revision)
    → IsValid (w ∷ q)
enqueue-IsValid w q valid st by fresh newer = record {
  unique = unique;
  revisions = revisions;
  ordered = ordered;
  claimed = claimed;
}
  where
    unique : (a b : ClassificationWork) → In a (w ∷ q) → In b (w ∷ q) → a.pk ≡ b.pk → a ≡ b
    unique a b (inl ea) (inl eb) e = ea ∙ sym eb
    unique a b (inl ea) (inr ib) e = absurd (fresh b ib (cc (e, ea)))
    unique a b (inr ia) (inl eb) e = absurd (fresh a ia (cc (e, eb)))
    unique a b (inr ia) (inr ib) e = valid.unique a b ia ib e

    no_later :
        (v : ClassificationWork)
        → In v q
        → v.canonical_result ≡ w.canonical_result
        → v.revision ≢ w.revision
    no_later v iv c r = omega (arith, newer v iv c)

    revisions :
        (a b : ClassificationWork)
        → In a (w ∷ q)
        → In b (w ∷ q)
        → a.canonical_result ≡ b.canonical_result
        → a.revision ≡ b.revision
        → a ≡ b
    revisions a b (inl ea) (inl eb) c r = ea ∙ sym eb
    revisions a b (inl ea) (inr ib) c r = absurd (no_later b ib (cc (c, ea)) (cc (r, ea)))
    revisions a b (inr ia) (inl eb) c r = absurd (no_later a ia (cc (c, eb)) (cc (r, eb)))
    revisions a b (inr ia) (inr ib) c r = valid.revisions a b ia ib c r

    ordered :
        (a b : ClassificationWork)
        → In a (w ∷ q)
        → In b (w ∷ q)
        → Precedes a b
        → b.status ≢ pending
        → IsSettled a
    ordered a b ia (inl eb) p h = absurd (h (ap (λ (z : ClassificationWork). z.status) eb ∙ st))
    ordered a b (inl ea) (inr ib) p h = absurd (
        omega
          (arith, newer b ib (cc (p.0, ea)), p.1, ap (λ (z : ClassificationWork). z.revision) ea))
    ordered a b (inr ia) (inr ib) p h = valid.ordered a b ia ib p h

    claimed : (a : ClassificationWork) → In a (w ∷ q) → a.claimed_by ≢ [] → a.status ≡ processing
    claimed a (inl ea) h = absurd (h (ap (λ (z : ClassificationWork). z.claimed_by) ea ∙ by))
    claimed a (inr ia) h = valid.claimed a ia h

pub ready_open :
    (now : ℕ) (w : ClassificationWork) → is_ready now w ≡ true → is_unsettled w.status ≡ true
ready_open now w h = ground arith

claim-IsValid :
    (baseline_active : Bool) (worker : Text) (now lease : ℕ) (q : Queue)
    → IsValid q
    → worker ≢ []
    → IsValid (claim_next_work baseline_active worker now lease q).1
claim-IsValid false worker now lease q valid named = unfold claim_next_work in valid
claim-IsValid true worker now lease q valid named =
    claimed-IsValid (claim_next_work true worker now lease q)
      (claim_next_work-Claims worker now lease q)
  where
    claimed-IsValid :
        (r : Option ClaimedRevision × Queue) → Claims worker now lease q r → IsValid r.1
    claimed-IsValid (none, q') h = subst IsValid (sym h.0) valid
    claimed-IsValid (some c, q') (w, iw, ready, first, ec, eq) = subst IsValid (sym eq) (
        update-IsValid w.pk (take_claim worker now lease) q valid
          (unfold take_claim in λ v. (refl, refl, refl))
          (λ v a iv e h ia before.
            let same = valid.unique v w iv iw e in
            All-In _ q ready.0 a ia (cc (before.0, same))
              (omega (arith, before.1, ap (λ (z : ClassificationWork). z.revision) same)))
          (λ v iv e h.
            let same = valid.unique v w iv iw e in cc (ready_open now w ready.1, h, same))
          (unfold take_claim in λ v iv e h. refl))

pub find_row-In :
    (pk : ℕ) (q : Queue) (w : ClassificationWork) → find_row pk q ≡ some w → In w q × (w.pk ≡ pk)
unfolding find_row
find_row-In pk [] w h = cc
find_row-In pk (x ∷ q) w h = elim (Bool-cases (x.pk == pk)) [
  | inl here_row ↦
      (let same : some x ≡ some w = rw here_row at h in
        (inl (cc same), cc (same, (==_iff x.pk pk).0 here_row)))
  | inr other ↦ (let (there, e) = find_row-In pk q w (rw other at h) in (inr there, e))
]

-- What `process_claimed_work` may do to a row with the key of its claim.
pub holds_claim_lem :
    (worker : Text) (w : ClassificationWork)
    → holds_claim worker w ≡ true
    → (w.status ≡ processing) × (w.claimed_by ≡ worker)
holds_claim_lem worker w h = (ground arith, (text_eq_iff w.claimed_by worker).0 (ground arith))

settle-IsValid :
    (status : WorkStatus) (worker : Text) (now pk : ℕ) (q : Queue)
    (found : Option ClassificationWork)
    → is_unsettled status ≡ false
    → IsValid q
    → ((w : ClassificationWork) → found ≡ some w → In w q × (w.pk ≡ pk))
    → IsValid (settle_claimed status worker now pk q found).1
settle-IsValid status worker now pk q none done valid there = unfold settle_claimed in valid
settle-IsValid status worker now pk q (some w) done valid there =
    elim (Bool-cases (holds_claim worker w)) [
      | inr refused ↦ unfold settle_claimed in rw refused valid
      | inl held ↦
          (let (iw, ew) = there w refl in
            unfold settle_claimed in
            rw held (
              update-IsValid pk (settle_row status now) q valid
                (unfold settle_row in λ v. (refl, refl, refl))
                (λ v a iv e h ia before.
                  let same = valid.unique v w iv iw (e ∙ sym ew) in
                  valid.ordered a v ia iv before
                    (λ p. cc (p, same, (holds_claim_lem worker w held).0)))
                (unfold settle_row in λ v iv e h. done)
                (unfold settle_row in λ v iv e h. absurd (h refl))))
    ]

pub fail_row_cases :
    (worker error : Text) (v : ClassificationWork)
    → ((v.claimed_by ≡ worker)
        × (fail_row worker error v ≡ record v {
          status = failed;
          claimed_by = [];
          claim_expires_at = none;
          last_error = error;
        }))
      ⊎ (fail_row worker error v ≡ v)
unfolding fail_row
fail_row_cases worker error v = ground (arith, text_eq_iff v.claimed_by worker)

fail-IsValid :
    (worker error : Text) (pk : ℕ) (q : Queue)
    → worker ≢ []
    → IsValid q
    → IsValid (update_row pk (fail_row worker error) q)
fail-IsValid worker error pk q named valid =
    update-IsValid pk (fail_row worker error) q valid
      (λ v. elim (fail_row_cases worker error v) [
        | inl (_, e) ↦ rw e (refl, refl, refl)
        | inr e ↦ rw e (refl, refl, refl)
      ])
      (λ v a iv e h ia before.
        valid.ordered a v ia iv before (elim (fail_row_cases worker error v) [
          | inl (by, _) ↦ λ p. cc (p, valid.claimed v iv (λ z. named (sym by ∙ z)))
          | inr same ↦ λ p. h (ap (λ (z : ClassificationWork). z.status) same ∙ p)
        ]))
      (λ v iv e h. elim (fail_row_cases worker error v) [
        | inl (by, _) ↦ cc (h, ap is_unsettled (valid.claimed v iv (λ z. named (sym by ∙ z))))
        | inr same ↦ rw same h
      ])
      (λ v iv e h. elim (fail_row_cases worker error v) [
        | inl (by, same) ↦ absurd (h (ap (λ (z : ClassificationWork). z.claimed_by) same))
        | inr same ↦ rw same (valid.claimed v iv (rw same at h))
      ])

process-IsValid :
    (classified : Classified) (c : ClaimedRevision) (worker : Text) (now : ℕ) (q : Queue)
    → IsValid q
    → worker ≢ []
    → IsValid (process_claimed_work classified c worker now q).1
unfolding process_claimed_work
process-IsValid current c worker now q valid named =
    settle-IsValid completed worker now c.work_id q (find_row c.work_id q) refl valid
      (find_row-In c.work_id q)
process-IsValid superseded c worker now q valid named =
    settle-IsValid stale worker now c.work_id q (find_row c.work_id q) refl valid
      (find_row-In c.work_id q)
process-IsValid (raised error) c worker now q valid named =
    fail-IsValid worker error c.work_id q named valid

-- Every transaction keeps the queue valid.
pub Step-IsValid : {q r : Queue} → Step q r → IsValid q → IsValid r
Step-IsValid {q = q} (enqueue w st by fresh newer) valid =
    enqueue-IsValid w q valid st by fresh newer
Step-IsValid {q = q} (claim b worker now lease named) valid =
    claim-IsValid b worker now lease q valid named
Step-IsValid {q = q} (process k c worker now named) valid =
    process-IsValid k c worker now q valid named

IsValid-nil : IsValid []
IsValid-nil = record {
  unique = λ a b ia ib e. absurd ia;
  revisions = λ a b ia ib c r. absurd ia;
  ordered = λ a b ia ib p h. absurd ia;
  claimed = λ a ia h. absurd ia;
}

-- From an empty queue, whatever the transactions and their order: keys and revisions are unique,
-- every revision whose work has begun has all earlier revisions of its result completed or stale,
-- and only work in progress names a worker.
pub Reach-IsValid : {q : Queue} → Reach [] q → IsValid q
Reach-IsValid here = IsValid-nil
Reach-IsValid (next r s) = Step-IsValid s (Reach-IsValid r)
