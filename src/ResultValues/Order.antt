-- ===== src/ResultValues/Order.antt =====
-- The order of results: `is_better` and `comparison_key` against the rank of a value.
use cubingnow.Prelude.{
  ℕ, zero, suc, ◌≤◌, ◌<◌, ℤ, pos, negsuc, true, Option, none, some, Text, ◌≡◌, ◌↔◌, refl, arith,
}
use cubingnow.ResultValues.{comparison_key, is_better, key_le}

-- The rank of a value: a success by its number, and everything else behind all of these.
pub data Rank : Type 0 where
  success : ℕ → Rank
  failure : Rank

abbrev pub rank : Option ℤ → Rank
rank none = failure
rank (some (pos zero)) = failure
rank (some (pos (suc n))) = success (suc n)
rank (some (negsuc n)) = failure

infix 50 ◌≺◌ ◌≼◌
abbrev pub ◌≺◌ : Rank → Rank → Type 0
success a ≺ success b = a < b
success a ≺ failure = Unit
failure ≺ _ = ⊥

abbrev pub ◌≼◌ : Rank → Rank → Type 0
success a ≼ success b = a ≤ b
failure ≼ success b = ⊥
_ ≼ failure = Unit

-- The key ranks a success before a failure, and looks at the event in no case.
key_of_rank : Rank → ℕ × ℤ
key_of_rank (success n) = (0, pos n)
key_of_rank failure = (1, pos 0)

comparison_key-eq-rank : (e : Text) (v : Option ℤ) → comparison_key e v ≡ key_of_rank (rank v)
unfolding comparison_key key_of_rank
comparison_key-eq-rank e none = refl
comparison_key-eq-rank e (some (pos zero)) = refl
comparison_key-eq-rank e (some (pos (suc n))) = ground arith
comparison_key-eq-rank e (some (negsuc n)) = ground arith

key_le_iff : (a b : Rank) → (key_le (key_of_rank a) (key_of_rank b) ≡ true) ↔ (a ≼ b)
unfolding key_of_rank
key_le_iff (success a) (success b) = (λ h. ground arith, λ h. ground arith)
key_le_iff (success a) failure = (λ h. tt, λ h. refl)
key_le_iff failure (success b) = (λ h. cc, λ h. absurd h)
key_le_iff failure failure = (λ h. tt, λ h. refl)

-- `<=` on the keys of two values is the order of their ranks, for every event: successes compare by
-- their numbers, and a missing, skipped, DNF or DNS value comes behind all of them.
pub comparison_key-le_iff :
    (e : Text) (a b : Option ℤ)
    → (key_le (comparison_key e a) (comparison_key e b) ≡ true) ↔ (rank a ≼ rank b)
comparison_key-le_iff e a b =
    rw (comparison_key-eq-rank e a, comparison_key-eq-rank e b) (key_le_iff (rank a) (rank b))

-- `is_better` is the strict order of ranks, for every event: a success beats a greater success and
-- every missing, skipped, DNF or DNS value, and nothing else beats anything.
pub is_better_iff : (e : Text) (a b : Option ℤ) → (is_better e a b ≡ true) ↔ (rank a ≺ rank b)
unfolding is_better key_of_rank
is_better_iff e none b = (λ h. cc, λ h. absurd h)
is_better_iff e (some (pos zero)) b = (λ h. cc, λ h. absurd h)
is_better_iff e (some (negsuc n)) b = (λ h. ground arith, λ h. absurd h)
is_better_iff e (some (pos (suc n))) none = (λ h. tt, λ h. ground arith)
is_better_iff e (some (pos (suc n))) (some (pos zero)) = (λ h. tt, λ h. ground arith)
is_better_iff e (some (pos (suc n))) (some (negsuc m)) = (λ h. tt, λ h. ground arith)
is_better_iff e (some (pos (suc n))) (some (pos (suc m))) = (λ h. ground arith, λ h. ground arith)
