-- ===== src/Reconciliation/Workers.antt =====
-- A worker's transaction leaves every work row on the revision it names.
use cubingnow.Prelude.{
  ℕ, Bool, true, false, Option, none, some, List, [], ◌∷◌, Text, inl, inr, All, Bool-cases, text_eq,
  ◌==◌,
}
use cubingnow.Models.{CanonicalResultRevision}
use cubingnow.Work.{
  Queue, ClassificationWork, WorkStatus, ClaimedRevision, Classified, current, superseded, raised,
  update_row, take_claim, settle_row, fail_row, claim_found, claim_next_work, settle_claimed,
  holds_claim, process_claimed_work,
}
use cubingnow.Reconciliation.Enqueue.{IsBacked}

module _ (rs : List CanonicalResultRevision) where
  update_row-IsBacked :
      (pk : ℕ) (f : ClassificationWork → ClassificationWork) (q : Queue)
      → ((w : ClassificationWork) → IsBacked rs w → IsBacked rs (f w))
      → All (IsBacked rs) q
      → All (IsBacked rs) (update_row pk f q)
  unfolding update_row
  update_row-IsBacked pk f [] h b = tt
  update_row-IsBacked pk f (w ∷ q) h b = elim (Bool-cases (w.pk == pk)) [
    | inl e ↦ rw e (h w b.0, update_row-IsBacked pk f q h b.1)
    | inr e ↦ rw e (b.0, update_row-IsBacked pk f q h b.1)
  ]

  take_claim-IsBacked :
      (worker : Text) (now lease : ℕ) (w : ClassificationWork)
      → IsBacked rs w
      → IsBacked rs (take_claim worker now lease w)
  unfolding take_claim
  take_claim-IsBacked worker now lease w b = b

  settle_row-IsBacked :
      (st : WorkStatus) (now : ℕ) (w : ClassificationWork)
      → IsBacked rs w
      → IsBacked rs (settle_row st now w)
  unfolding settle_row
  settle_row-IsBacked st now w b = b

  fail_row-IsBacked :
      (worker error : Text) (w : ClassificationWork)
      → IsBacked rs w
      → IsBacked rs (fail_row worker error w)
  unfolding fail_row
  fail_row-IsBacked worker error w b = elim (Bool-cases (text_eq w.claimed_by worker)) [
    | inl e ↦ rw e b
    | inr e ↦ rw e b
  ]

  claim_found-IsBacked :
      (worker : Text) (now lease : ℕ) (q : Queue) (found : Option ClassificationWork)
      → All (IsBacked rs) q
      → All (IsBacked rs) (claim_found worker now lease q found).1
  unfolding claim_found
  claim_found-IsBacked worker now lease q none b = b
  claim_found-IsBacked worker now lease q (some w) b =
      update_row-IsBacked w.pk (take_claim worker now lease) q
        (take_claim-IsBacked worker now lease) b

  pub claim_next_work-IsBacked :
      (active : Bool) (worker : Text) (now lease : ℕ) (q : Queue)
      → All (IsBacked rs) q
      → All (IsBacked rs) (claim_next_work active worker now lease q).1
  unfolding claim_next_work
  claim_next_work-IsBacked true worker now lease q b = claim_found-IsBacked worker now lease q _ b
  claim_next_work-IsBacked false worker now lease q b = b

  settle_claimed-IsBacked :
      (st : WorkStatus) (worker : Text) (now pk : ℕ) (q : Queue) (found : Option ClassificationWork)
      → All (IsBacked rs) q
      → All (IsBacked rs) (settle_claimed st worker now pk q found).1
  unfolding settle_claimed
  settle_claimed-IsBacked st worker now pk q none b = b
  settle_claimed-IsBacked st worker now pk q (some w) b = elim (Bool-cases (holds_claim worker w)) [
    | inl e ↦ rw e (update_row-IsBacked pk (settle_row st now) q (settle_row-IsBacked st now) b)
    | inr e ↦ rw e b
  ]

  pub process_claimed_work-IsBacked :
      (classified : Classified) (claim : ClaimedRevision) (worker : Text) (now : ℕ) (q : Queue)
      → All (IsBacked rs) q
      → All (IsBacked rs) (process_claimed_work classified claim worker now q).1
  unfolding process_claimed_work
  process_claimed_work-IsBacked current claim worker now q b =
      settle_claimed-IsBacked _ worker now claim.work_id q _ b
  process_claimed_work-IsBacked superseded claim worker now q b =
      settle_claimed-IsBacked _ worker now claim.work_id q _ b
  process_claimed_work-IsBacked (raised error) claim worker now q b =
      update_row-IsBacked claim.work_id (fail_row worker error) q (fail_row-IsBacked worker error) b
