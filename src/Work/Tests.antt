-- ===== src/Work/Tests.antt =====
-- The theorems on the queue at concrete rows and runs.
use cubingnow.Prelude.{
  ℕ, ◌<◌, true, none, [], ◌∷◌, text, ◌≡◌, ◌≢◌, refl, ap, sym, ◌∙◌, arith, inl, inr,
}
use cubingnow.Models.{Action}
use cubingnow.Timeline.{least}
use cubingnow.Work.{
  pending, completed, ClassificationWork, Queue, claim_next_work, has_unsettled_earlier,
  is_claimable, first_in_order, claim_found, update_row, take_claim, is_unsettled, settle_row,
}
use cubingnow.Work.Claims.{In, Claims, claim_next_work-Claims}
use cubingnow.Work.Valid.{IsValid}
use cubingnow.Work.Reach.{enqueue, claim, Reach, here, next, Reach-IsValid}
use cubingnow.Work.Settled.{Step-settled, Reach-one_at_work}

abbrev work : ℕ → ℕ → ClassificationWork
work pk revision = record {
  pk = pk;
  canonical_result_revision = pk;
  canonical_result = 7;
  revision = revision;
  action = Action.active;
  status = pending;
  attempts = 0;
  claimed_by = [];
  claimed_at = none;
  claim_expires_at = none;
  completed_at = none;
  last_error = [];
  created_at = pk;
}

abbrev two : Queue
two = work 2 2 ∷ work 1 1 ∷ []

abbrev claimed : Queue
claimed = (claim_next_work true (text "w") 100 300 two).1

Reach-two : Reach [] two
Reach-two =
    next (next here (enqueue (work 1 1) refl refl (λ v i. absurd i) (λ v i. absurd i)))
      (enqueue (work 2 2) refl refl fresh newer)
  where
    fresh : (v : ClassificationWork) → In v (work 1 1 ∷ []) → v.pk ≢ 2
    fresh v (inl e) h = absurd (omega (arith, ap (λ (z : ClassificationWork). z.pk) e))
    fresh v (inr i) h = absurd i

    newer :
        (v : ClassificationWork) → In v (work 1 1 ∷ []) → v.canonical_result ≡ 7 → v.revision < 2
    newer v (inl e) h = omega (arith, ap (λ (z : ClassificationWork). z.revision) e)
    newer v (inr i) h = absurd i

Reach-claimed : Reach [] claimed
Reach-claimed = next Reach-two (claim true (text "w") 100 300 (λ e. cc e))

claim_next_work-Claims_example :
    Claims (text "w") 100 300 two (claim_next_work true (text "w") 100 300 two)
claim_next_work-Claims_example = claim_next_work-Claims (text "w") 100 300 two

Reach-IsValid_example : IsValid claimed
Reach-IsValid_example = Reach-IsValid Reach-claimed

abbrev taken : ClassificationWork
taken = take_claim (text "w") 100 300 (work 1 1)

In-claimed : In taken claimed
unfolding claim_next_work claim_found first_in_order is_claimable has_unsettled_earlier update_row
    least
In-claimed = inr (inl refl)

Reach-one_at_work_example : taken ≡ taken
unfolding take_claim
Reach-one_at_work_example =
    Reach-one_at_work taken taken Reach-claimed In-claimed In-claimed refl refl refl

abbrev done : ClassificationWork
done = settle_row completed 200 (work 1 1)

IsValid-done : IsValid (done ∷ [])
unfolding settle_row
IsValid-done = record {
  unique = λ a b ia ib e. only a ia ∙ sym (only b ib);
  revisions = λ a b ia ib c r. only a ia ∙ sym (only b ib);
  ordered =
      λ a b ia ib p h. ap is_unsettled (ap (λ (z : ClassificationWork). z.status) (only a ia));
  claimed = λ a ia h. absurd (h (ap (λ (z : ClassificationWork). z.claimed_by) (only a ia)));
}
  where
    only : (a : ClassificationWork) → In a (done ∷ []) → a ≡ done
    only a (inl e) = e
    only a (inr i) = absurd i

Step-settled_example : In done (claim_next_work true (text "w") 300 300 (done ∷ [])).1
unfolding settle_row
Step-settled_example =
    Step-settled done (claim true (text "w") 300 300 (λ e. cc e)) IsValid-done (inl refl) refl
