-- ===== src/Work/Claims.antt =====
-- Which row a claim takes, and when there is none.
use cubingnow.Prelude.{
  ℕ, ◌<◌, Bool, true, false, Option, none, some, List, [], ◌∷◌, Text, ◌≡◌, refl, sym, subst, ap,
  ◌∙◌, ◌↔◌, ◌⊎◌, inl, inr, arith, any, select, Bool-cases, All, All-map, if◌then◌else◌,
}
use cubingnow.Timeline.{least}
use cubingnow.Timeline.Groups.{least-All, All-select}
use cubingnow.Work.{
  ClassificationWork, Queue, ClaimedRevision, is_unsettled, is_unsettled_earlier,
  has_unsettled_earlier, is_ready, is_claimable, earlier, first_in_order, update_row, take_claim,
  claim_of, claim_found, claim_next_work,
}

-- A row of the queue.
abbrev pub In : ClassificationWork → Queue → Type 0
In w [] = ⊥
In w (x ∷ q) = (w ≡ x) ⊎ In w q

pub All-In :
    (P : ClassificationWork → Type 0) (q : Queue)
    → All P q
    → (w : ClassificationWork) → In w q
    → P w
All-In P (x ∷ q) h w (inl e) = subst P (sym e) h.0
All-In P (x ∷ q) h w (inr i) = All-In P q h.1 w i
All-In P [] h w i = absurd i

pub In-All :
    (P : ClassificationWork → Type 0) (q : Queue)
    → ((w : ClassificationWork) → In w q → P w)
    → All P q
In-All P [] h = tt
In-All P (x ∷ q) h = (h x (inl refl), In-All P q (λ w i. h w (inr i)))

module _ (p : ClassificationWork → Bool) where
  In-kept :
      (x w : ClassificationWork) (q : Queue)
      → (In w (select p q) → In w q × (p w ≡ true))
      → p x ≡ true
      → In w (x ∷ select p q)
      → In w (x ∷ q) × (p w ≡ true)
  In-kept x w q later kept (inl e) = (inl e, ap p e ∙ kept)
  In-kept x w q later kept (inr i) = let (there, chosen) = later i in (inr there, chosen)

  pub In-select : (q : Queue) (w : ClassificationWork) → In w (select p q) → In w q × (p w ≡ true)
  In-select [] w i = absurd i
  In-select (x ∷ q) w i = elim (Bool-cases (p x)) [
    | inl kept ↦ In-kept x w q (In-select q w) kept (rw kept at i)
    | inr dropped ↦ (let (there, chosen) = In-select q w (rw dropped at i) in (inr there, chosen))
  ]

-- The row at which `first()` stops, over rows that are there.
least-In : (x : ClassificationWork) (q : Queue) → In (least earlier x q) (x ∷ q)
least-In x q = least-All (λ w. In w (x ∷ q)) earlier x q (inl refl) (In-All _ q (λ w i. inr i))

pick_first :
    (m x y : ClassificationWork) (b : Bool)
    → earlier y x ≡ b
    → earlier (if b then y else x) m ≡ false
    → (earlier x m ≡ false) × (earlier y m ≡ false)
pick_first m x y true e h = (ground arith, h)
pick_first m x y false e h = (h, ground arith)

least_first :
    (x : ClassificationWork) (q : Queue)
    → (earlier x (least earlier x q) ≡ false) × All (λ w. earlier w (least earlier x q) ≡ false) q
unfolding least
least_first x [] = (ground arith, tt)
least_first x (y ∷ q) =
    let (first, rest) = least_first (if earlier y x then y else x) q in
    let (of_x, of_y) =
      pick_first (least earlier (if earlier y x then y else x) q) x y (earlier y x) refl first in
    (of_x, (of_y, rest))

-- The row that `first()` returns from the selected rows, or that there is none.
abbrev FirstOf : (ClassificationWork → Bool) → Queue → Option ClassificationWork → Type 0
FirstOf p q none = All (λ w. p w ≡ false) q
FirstOf p q (some w) = In w q × (p w ≡ true) × All (λ v. p v ≡ true → earlier v w ≡ false) q

select-nil :
    (p : ClassificationWork → Bool) (q : Queue) → select p q ≡ [] → All (λ w. p w ≡ false) q
select-nil p [] h = tt
select-nil p (x ∷ q) h = elim (Bool-cases (p x)) [
  | inl kept ↦ cc (rw kept at h)
  | inr dropped ↦ (dropped, select-nil p q (rw dropped at h))
]

FirstOf-select :
    (p : ClassificationWork → Bool) (q chosen : Queue)
    → select p q ≡ chosen
    → FirstOf p q (first_in_order chosen)
unfolding first_in_order
FirstOf-select p q [] h = select-nil p q h
FirstOf-select p q (x ∷ rest) h =
    let (first, later) = least_first x rest in
    let (there, passes) = In-select p q (least earlier x rest) (rw (h) (least-In x rest)) in
    let every : All (λ v. earlier v (least earlier x rest) ≡ false) (select p q) =
      rw h (first, later) in
    (there, passes, (All-select _ p q).0 every)

-- A row that may be claimed: it is pending, failed, or its lease has run out, and every earlier
-- revision of its result is completed or stale.
abbrev pub Claimable : Queue → ℕ → ClassificationWork → Type 0
Claimable q now w =
    All
      (λ v.
        v.canonical_result ≡ w.canonical_result
        → v.revision < w.revision
        → is_unsettled v.status ≡ false)
      q
    × (is_ready now w ≡ true)

unsettled_test :
    (w v : ClassificationWork)
    → (is_unsettled_earlier w v ≡ false) ↔ (
        v.canonical_result ≡ w.canonical_result
        → v.revision < w.revision
        → is_unsettled v.status ≡ false)
unsettled_test w v = (
  λ h same less. ground arith,
  λ h. elim (Bool-cases (is_unsettled_earlier w v)) [
    | inr settled ↦ settled
    | inl open_row ↦
        (let settled : is_unsettled v.status ≡ false = h (ground arith) (ground arith) in
          ground arith)
  ],
)

any-false {ℓ} :
    {A : Type ℓ} (p : A → Bool) (xs : List A) → (any p xs ≡ false) ↔ All (λ x. p x ≡ false) xs
any-false p [] = (λ h. tt, λ h. refl)
any-false p (x ∷ xs) =
    let (to, from) = any-false p xs in
    (
      λ h. (ground arith, to (ground arith)),
      λ h. (let rest = from h.1 in let here = h.0 in ground arith),
    )

pub is_claimable_iff :
    (q : Queue) (now : ℕ) (w : ClassificationWork)
    → (is_claimable q now w ≡ true) ↔ Claimable q now w
unfolding is_claimable has_unsettled_earlier
is_claimable_iff q now w =
    let (every, none_open) = any-false (is_unsettled_earlier w) q in
    (
      λ h. (All-map _ _ q (λ v f. (unsettled_test w v).0 f) (every (ground arith)), ground arith),
      λ (settled, ready).
          let clear = none_open (All-map _ _ q (λ v f. (unsettled_test w v).1 f) settled) in
          ground arith,
    )

-- What a call of `claim_next_work` has done.
abbrev pub Claims : Text → ℕ → ℕ → Queue → Option ClaimedRevision × Queue → Type 0
Claims worker now lease q (none, q') = (q' ≡ q) × All (λ w. ¬ Claimable q now w) q
Claims worker now lease q (some c, q') =
    (w : ClassificationWork) × In w q
    × Claimable q now w
    × All (λ v. Claimable q now v → earlier v w ≡ false) q
    × (c ≡ claim_of w)
    × (q' ≡ update_row w.pk (take_claim worker now lease) q)

Claims-found :
    (worker : Text) (now lease : ℕ) (q : Queue) (found : Option ClassificationWork)
    → FirstOf (is_claimable q now) q found
    → Claims worker now lease q (claim_found worker now lease q found)
unfolding claim_found
Claims-found worker now lease q none h =
    (refl, All-map _ _ q (λ w closed ready. cc ((is_claimable_iff q now w).1 ready)) h)
Claims-found worker now lease q (some w) (there, passes, first) = (
  w,
  there,
  (is_claimable_iff q now w).0 passes,
  All-map _ _ q (λ v h ready. h ((is_claimable_iff q now v).1 ready)) first,
  refl,
  refl,
)

-- With an active baseline a claim takes the first row, by creation time and key, among those that
-- are pending, failed or past their lease and whose earlier revisions are all settled; it changes
-- the rows of that key alone. It finds none, and changes nothing, only if there is no such row.
pub claim_next_work-Claims :
    (worker : Text) (now lease : ℕ) (q : Queue)
    → Claims worker now lease q (claim_next_work true worker now lease q)
unfolding claim_next_work
claim_next_work-Claims worker now lease q =
    Claims-found worker now lease q (first_in_order (select (is_claimable q now) q))
      (FirstOf-select (is_claimable q now) q (select (is_claimable q now) q) refl)
