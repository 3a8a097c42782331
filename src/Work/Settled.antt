-- ===== src/Work/Settled.antt =====
-- Work that is settled stays so, and no two revisions of a result are at work together.
use cubingnow.Prelude.{
  ℕ, ◌<◌, true, false, Option, none, some, [], Text, ◌≡◌, refl, sym, subst, ap, ◌∙◌, inl, inr,
  arith, ◌==◌, ==_iff, Bool-cases,
}
use cubingnow.Work.{
  WorkStatus, processing, completed, stale, ClassificationWork, Queue, ClaimedRevision,
  is_unsettled, update_row, take_claim, claim_next_work, current, superseded, raised, settle_row,
  settle_claimed, holds_claim, find_row, fail_row, process_claimed_work,
}
use cubingnow.Work.Claims.{In, Claims, claim_next_work-Claims}
use cubingnow.Work.Valid.{IsSettled, IsValid, changed, update-In}
use cubingnow.Work.Reach.{
  Step, enqueue, claim, process, Reach, Reach-IsValid, ready_open, find_row-In, holds_claim_lem,
  fail_row_cases,
}

-- A row that a change does not concern stays.
update_other :
    (pk : ℕ) (f : ClassificationWork → ClassificationWork) (q : Queue) (w : ClassificationWork)
    → In w q
    → ((w.pk ≡ pk) → f w ≡ w)
    → In w (update_row pk f q)
update_other pk f q w iw same =
    subst (λ z. In z (update_row pk f q)) unchanged (update-In pk f q w iw)
  where
    unchanged : changed pk f w ≡ w
    unchanged = elim (Bool-cases (w.pk == pk)) [
      | inl here_row ↦ rw here_row (same ((==_iff w.pk pk).0 here_row))
      | inr other ↦ rw other
    ]

claim_settled :
    (worker : Text) (now lease : ℕ) (q : Queue) (w : ClassificationWork)
    (r : Option ClaimedRevision × Queue)
    → IsValid q
    → In w q
    → IsSettled w
    → Claims worker now lease q r
    → In w r.1
claim_settled worker now lease q w (none, q') valid iw done h = subst (In w) (sym h.0) iw
claim_settled worker now lease q w (some c, q') valid iw done (v, iv, ready, _, _, eq) =
    subst (In w) (sym eq) (
      update_other v.pk (take_claim worker now lease) q w iw
        λ e. cc (done, ready_open now v ready.1, valid.unique w v iw iv e))

settle_settled :
    (status : WorkStatus) (worker : Text) (now pk : ℕ) (q : Queue) (w : ClassificationWork)
    (found : Option ClassificationWork)
    → IsValid q
    → In w q
    → IsSettled w
    → ((v : ClassificationWork) → found ≡ some v → In v q × (v.pk ≡ pk))
    → In w (settle_claimed status worker now pk q found).1
settle_settled status worker now pk q w none valid iw done there = unfold settle_claimed in iw
settle_settled status worker now pk q w (some v) valid iw done there =
    elim (Bool-cases (holds_claim worker v)) [
      | inr refused ↦ unfold settle_claimed in rw refused iw
      | inl held ↦
          (let (iv, ev) = there v refl in
            unfold settle_claimed in
            rw held (
              update_other pk (settle_row status now) q w iw λ e. cc (
                done,
                ap is_unsettled (holds_claim_lem worker v held).0,
                valid.unique w v iw iv (e ∙ sym ev),
              )))
    ]

-- A row whose work is completed or stale is never changed or removed by a later transaction of a
-- valid queue.
pub Step-settled :
    {q r : Queue} (w : ClassificationWork) → Step q r → IsValid q → In w q → IsSettled w → In w r
Step-settled {q = q} w (enqueue v st by fresh newer) valid iw done = inr iw
Step-settled {q = q} w (claim false worker now lease named) valid iw done =
    unfold claim_next_work in iw
Step-settled {q = q} w (claim true worker now lease named) valid iw done =
    claim_settled worker now lease q w (claim_next_work true worker now lease q) valid iw done
      (claim_next_work-Claims worker now lease q)
Step-settled {q = q} w (process current c worker now named) valid iw done =
    unfold process_claimed_work in
    settle_settled completed worker now c.work_id q w (find_row c.work_id q) valid iw done
      (find_row-In c.work_id q)
Step-settled {q = q} w (process superseded c worker now named) valid iw done =
    unfold process_claimed_work in
    settle_settled stale worker now c.work_id q w (find_row c.work_id q) valid iw done
      (find_row-In c.work_id q)
Step-settled {q = q} w (process (raised error) c worker now named) valid iw done =
    unfold process_claimed_work in
    update_other c.work_id (fail_row worker error) q w iw λ e.
      elim (fail_row_cases worker error w) [
        | inl (by, _) ↦ cc (done, ap is_unsettled (valid.claimed w iw (λ z. named (sym by ∙ z))))
        | inr same ↦ same
      ]

no_earlier :
    {q : Queue} (a b : ClassificationWork)
    → IsValid q
    → In a q
    → In b q
    → a.status ≡ processing
    → b.status ≡ processing
    → a.canonical_result ≡ b.canonical_result
    → ¬ (a.revision < b.revision)
no_earlier a b valid ia ib pa pb same less =
    cc (valid.ordered a b ia ib (same, less) (λ p. cc (p, pb)), ap is_unsettled pa)

-- In every reachable queue two rows of one result that are both being processed are the same row.
pub Reach-one_at_work :
    {q : Queue} (a b : ClassificationWork)
    → Reach [] q
    → In a q
    → In b q
    → a.status ≡ processing
    → b.status ≡ processing
    → a.canonical_result ≡ b.canonical_result
    → a ≡ b
Reach-one_at_work a b r ia ib pa pb same =
    let valid = Reach-IsValid r in
    let below = no_earlier a b valid ia ib pa pb same in
    let above = no_earlier b a valid ib ia pb pa (sym same) in
    valid.revisions a b ia ib same (omega arith)
