-- ===== src/Finalization/Positions.antt =====
-- `round_result_is_finalized` read position by position.
use cubingnow.Prelude.{
  ℕ, zero, suc, ◌+◌, ◌-◌, ◌≤◌, ◌<◌, ℤ, pos, negsuc, pos_part, ◌<ℤ◌, Bool, true, false, not, Option,
  none, some, List, Text, ◌≡◌, ◌≢◌, ◌↔◌, ◌⊎◌, inl, inr, ◌∙◌, arith, length, take, drop, replicate,
  all, any, get_or, length-take, length-drop, length-append, length-replicate, get_or-take,
  get_or-drop, get_or-pad, all_at, all_intro, not-any_iff, Bool-cases,
}
use cubingnow.ResultValues.{is_better}
use cubingnow.ResultValues.Order.{rank, ◌≺◌, is_better_iff}
use cubingnow.Finalization.{
  RoundFinalizationRule, attempt_is_entered, entered, padded, all_expected_attempts_are_entered,
  cutoff_is_final, cutoff_decides, round_result_is_finalized,
}

-- The attempt at a position; 0 past the end.
abbrev pub attempt : List ℤ → ℕ → ℤ
attempt attempts i = get_or attempts i (pos 0)

-- Every one of the first `n` attempts is entered.
abbrev pub IsFilled : List ℤ → ℕ → Type 0
IsFilled attempts n = (i : ℕ) → i < n → attempt attempts i ≢ pos 0

-- The first `count` attempts are entered, none of them beats `limit`, and no later one is entered.
pub record MissedCutoff (event_id : Text) (attempts : List ℤ) (n count : ℕ) (limit : ℤ)
    : Type 0 where
  pub filled : IsFilled attempts count
  pub missed : (i : ℕ) → i < count → ¬ (rank (some (attempt attempts i)) ≺ rank (some limit))
  pub rest_empty : (i : ℕ) → count ≤ i → i < n → attempt attempts i ≡ pos 0

attempt-padded : (xs : List ℤ) (n i : ℕ) → i < n → attempt (padded xs n) i ≡ attempt xs i
attempt-padded xs n i h =
    get_or-pad (take n xs) (n - length (take n xs)) i (pos 0) ∙ get_or-take n xs i (pos 0) h

length-padded : (xs : List ℤ) (n : ℕ) → length (padded xs n) ≡ n
length-padded xs n =
    length-append (take n xs) (replicate (n - length (take n xs)) (pos 0))
    ∙ omega (arith, length-take n xs, length-replicate (n - length (take n xs)) (pos 0))

entered_iff : (v : ℤ) → (entered v ≡ true) ↔ (v ≢ pos 0)
unfolding attempt_is_entered
entered_iff (pos n) = (λ h e. ground arith, λ h. ground arith)
entered_iff (negsuc n) = (λ h e. cc, λ h. ground arith)

-- `all` over the first positions.
all_first :
    (p : ℤ → Bool) (xs : List ℤ) (k : ℕ)
    → k ≤ length xs
    → (all p (take k xs) ≡ true) ↔ ((i : ℕ) → i < k → p (attempt xs i) ≡ true)
all_first p xs k h = (
  λ a i lt.
      rw (get_or-take k xs i (pos 0) lt) at
        (all_at p (take k xs) (pos 0) i a (omega (arith, length-take k xs))),
  λ a. all_intro p (take k xs) (pos 0) (λ i lt.
      let lt' : i < k = omega (arith, length-take k xs) in
      rw (get_or-take k xs i (pos 0) lt') (a i lt')),
)

-- `all` over the later positions.
all_later :
    (p : ℤ → Bool) (xs : List ℤ) (k : ℕ)
    → (all p (drop k xs) ≡ true) ↔ ((i : ℕ) → k + i < length xs → p (attempt xs (k + i)) ≡ true)
all_later p xs k = (
  λ a i lt.
      rw (get_or-drop k xs i (pos 0)) at
        (all_at p (drop k xs) (pos 0) i a (omega (arith, length-drop k xs))),
  λ a.
      all_intro p (drop k xs) (pos 0)
        (λ i lt. rw (get_or-drop k xs i (pos 0)) (a i (omega (arith, length-drop k xs)))),
)

all-IsFilled :
    (xs : List ℤ) (n k : ℕ) → k ≤ n → (all entered (take k (padded xs n)) ≡ true) ↔ IsFilled xs k
all-IsFilled xs n k le =
    let fits : k ≤ length (padded xs n) = omega (arith, length-padded xs n) in
    let (to, from) = all_first entered (padded xs n) k fits in
    (
      λ a i lt.
          (entered_iff (attempt xs i)).0 (rw (attempt-padded xs n i (omega arith)) at (to a i lt)),
      λ f. from (λ i lt.
          rw (attempt-padded xs n i (omega arith)) ((entered_iff (attempt xs i)).1 (f i lt))),
    )

expected-IsFilled :
    (xs : List ℤ) (n : ℕ)
    → (all_expected_attempts_are_entered (padded xs (suc n)) (pos (suc n)) ≡ true)
      ↔ IsFilled xs (suc n)
unfolding all_expected_attempts_are_entered
expected-IsFilled xs n =
    let (to, from) = all-IsFilled xs (suc n) (suc n) (omega arith) in
    let same : length (take (suc n) (padded xs (suc n))) ≡ suc n =
      omega (arith, length-take (suc n) (padded xs (suc n)), length-padded xs (suc n)) in
    (
      λ h. to (ground arith),
      λ h.
          let filled : all entered (take (suc n) (padded xs (suc n))) ≡ true = from h in
          ground arith,
    )

not-entered : (v : ℤ) → (not (entered v) ≡ true) ↔ (v ≡ pos 0)
unfolding attempt_is_entered
not-entered (pos n) = (λ h. ground arith, λ h. ground arith)
not-entered (negsuc n) = (λ h. ground arith, λ h. cc)

none_later :
    (xs : List ℤ) (n k : ℕ)
    → k ≤ n
    → (any entered (drop k (padded xs n)) ≡ false)
      ↔ ((i : ℕ) → k ≤ i → i < n → attempt xs i ≡ pos 0)
none_later xs n k le =
    let (to, from) = all_later (λ v. not (entered v)) (padded xs n) k in
    let (split, join) = not-any_iff entered (drop k (padded xs n)) in
    (
      λ h i low high.
          let at_i : k + (i - k) ≡ i = omega arith in
          let found : attempt (padded xs n) (k + (i - k)) ≡ pos 0 =
            (not-entered _).0 (to (split h) (i - k) (omega (arith, length-padded xs n))) in
          rw (← attempt-padded xs n i high) (rw at_i at found),
      λ h. join (
          from λ i lt.
            let high : k + i < n = omega (arith, length-padded xs n) in
            rw (attempt-padded xs n (k + i) high)
              ((not-entered _).1 (h (k + i) (omega arith) high))),
    )

not_better :
    (e : Text) (v limit : ℤ)
    → (not (is_better e (some v) (some limit)) ≡ true) ↔ (¬ (rank (some v) ≺ rank (some limit)))
not_better e v limit =
    let (to, from) = is_better_iff e (some v) (some limit) in
    (
      λ h b. ground (arith, from b),
      λ n. elim (Bool-cases (is_better e (some v) (some limit))) [
        | inl better ↦ absurd (n (to better))
        | inr worse ↦ rw worse
      ],
    )

none_better :
    (e : Text) (xs : List ℤ) (n k : ℕ) (limit : ℤ)
    → k ≤ n
    → (any (λ v. is_better e (some v) (some limit)) (take k (padded xs n)) ≡ false)
      ↔ ((i : ℕ) → i < k → ¬ (rank (some (attempt xs i)) ≺ rank (some limit)))
none_better e xs n k limit le =
    let better : ℤ → Bool = λ v. is_better e (some v) (some limit) in
    let fits : k ≤ length (padded xs n) = omega (arith, length-padded xs n) in
    let (to, from) = all_first (λ v. not (better v)) (padded xs n) k fits in
    let (split, join) = not-any_iff better (take k (padded xs n)) in
    (
      λ h i lt.
          (not_better e (attempt xs i) limit).0
            (rw (attempt-padded xs n i (omega arith)) at (to (split h) i lt)),
      λ h. join (
          from λ i lt.
            rw (attempt-padded xs n i (omega arith))
              ((not_better e (attempt xs i) limit).1 (h i lt))),
    )

missed_cutoff :
    (e : Text) (xs : List ℤ) (n k : ℕ) (limit : ℤ)
    → k ≤ n
    → (cutoff_is_final e (padded xs n) k limit ≡ true) ↔ MissedCutoff e xs n k limit
unfolding cutoff_is_final
missed_cutoff e xs n k limit le =
    let (fill, unfill) = all-IsFilled xs n k le in
    let (worse, unworse) = none_better e xs n k limit le in
    let (empty, unempty) = none_later xs n k le in
    (
      λ h. record {
        filled = fill (ground arith);
        missed = worse (ground arith);
        rest_empty = empty (ground arith);
      },
      λ m. rw (unfill m.filled, unworse m.missed, unempty m.rest_empty),
    )

-- The rule has a usable cutoff, and the attempts have missed it.
abbrev pub HasMissed : Text → List ℤ → ℤ → Option ℤ → Option ℤ → Type 0
HasMissed e xs n (some count) (some limit) =
    (pos 0 <ℤ count)
    × (count <ℤ n)
    × (pos 0 <ℤ limit)
    × MissedCutoff e xs (pos_part n) (pos_part count) limit
HasMissed e xs n (some count) none = ⊥
HasMissed e xs n none limit = ⊥

cutoff_decides_iff :
    (e : Text) (xs : List ℤ) (n : ℕ) (count limit : Option ℤ)
    → (cutoff_decides e (padded xs n) (pos n) count limit ≡ true)
      ↔ HasMissed e xs (pos n) count limit
unfolding cutoff_decides
cutoff_decides_iff e xs n (some (negsuc k)) (some limit) = (λ h. ground arith, λ h. ground arith)
cutoff_decides_iff e xs n (some (pos k)) (some limit) = (
  λ h.
      let inside : k ≤ n = ground arith in
      let missed : MissedCutoff e xs n k limit =
        (missed_cutoff e xs n k limit inside).0 (ground arith) in
      (ground arith, ground arith, ground arith, missed),
  λ h.
      let inside : k ≤ n = ground arith in
      let final : cutoff_is_final e (padded xs n) k limit ≡ true =
        (missed_cutoff e xs n k limit inside).1 h.3 in
      ground arith,
)
cutoff_decides_iff e xs n (some k) none = (λ h. cc, λ h. absurd h)
cutoff_decides_iff e xs n none limit = (λ h. cc, λ h. absurd h)

-- What "no more attempts can be entered" means, position by position.
abbrev pub IsFinal : List ℤ → RoundFinalizationRule → Text → Type 0
IsFinal xs rule e =
    (pos 0 <ℤ rule.expected_attempts)
    × (IsFilled xs (pos_part rule.expected_attempts)
        ⊎ HasMissed e xs rule.expected_attempts rule.cutoff_attempts rule.cutoff_value)

finalized_iff :
    (xs : List ℤ) (expected : ℤ) (count limit : Option ℤ) (e : Text)
    → let rule : RoundFinalizationRule = record {
      expected_attempts = expected;
      cutoff_attempts = count;
      cutoff_value = limit;
    } in
      (round_result_is_finalized xs rule e ≡ true) ↔ IsFinal xs rule e
unfolding round_result_is_finalized
finalized_iff xs (negsuc n) count limit e = (λ h. ground arith, λ h. ground arith)
finalized_iff xs (pos zero) count limit e = (λ h. ground arith, λ h. ground arith)
finalized_iff xs (pos (suc n)) count limit e =
    let (to, from) = expected-IsFilled xs n in
    let (miss, unmiss) = cutoff_decides_iff e xs (suc n) count limit in
    (
      λ h. (
        omega arith,
        elim (Bool-cases (all_expected_attempts_are_entered (padded xs (suc n)) (pos (suc n)))) [
          | inl full ↦ inl (to full)
          | inr open_rows ↦ inr (miss (ground arith))
        ],
      ),
      λ (_, either). elim either [
        | inl filled ↦ let full : _ ≡ true = from filled in ground arith
        | inr missed ↦ let final : _ ≡ true = unmiss missed in ground arith
      ],
    )

-- A result counts as finalized exactly when attempts are expected and either all of them are
-- entered, or the rule has a cutoff inside the round which the entered cutoff attempts all missed
-- while no later attempt is entered.
pub round_result_is_finalized_iff :
    (xs : List ℤ) (rule : RoundFinalizationRule) (e : Text)
    → (round_result_is_finalized xs rule e ≡ true) ↔ IsFinal xs rule e
round_result_is_finalized_iff xs rule e =
    finalized_iff xs rule.expected_attempts rule.cutoff_attempts rule.cutoff_value e
