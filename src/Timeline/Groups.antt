-- ===== src/Timeline/Groups.antt =====
-- Best rows of a group, and what the passes of an adjudication leave alone.
use cubingnow.Prelude.{
  ◌≤ℤ◌, ltb_ℤ, Bool, true, false, not, List, [], ◌∷◌, map, Text, ◌≡◌, refl, subst, sym, ap, ◌∙◌,
  ◌↔◌, inl, inr, arith, All, All-map, select, Bool-cases, if◌then◌else◌,
}
use cubingnow.Models.{ProcessedResult}
use cubingnow.Timeline.{
  Entry, value_of, qualifies, is_none, reset, mark_round, mark_day, least, less_value, best_value,
}

-- What holds of the first and of all others holds of the least.
pub least-All {ℓ κ} :
    {A : Type ℓ} (P : A → Type κ) (lt : A → A → Bool) (first : A) (xs : List A)
    → P first
    → All P xs
    → P (least lt first xs)
unfolding least
least-All P lt first [] h hs = h
least-All P lt first (x ∷ xs) h hs = least-All P lt _ xs (choose (lt x first)) hs.1
  where
    choose : (b : Bool) → P (if b then x else first)
    choose true = hs.0
    choose false = h

pick_le :
    (m first x : Entry) (b : Bool)
    → less_value x first ≡ b
    → value_of m ≤ℤ value_of (if b then x else first)
    → (value_of m ≤ℤ value_of first) × (value_of m ≤ℤ value_of x)
pick_le m first x true e h = (ground arith, h)
pick_le m first x false e h = (h, ground arith)

least-le :
    (first : Entry) (xs : List Entry)
    → (value_of (least less_value first xs) ≤ℤ value_of first)
      × All (λ r. value_of (least less_value first xs) ≤ℤ value_of r) xs
unfolding least
least-le first [] = (omega arith, tt)
least-le first (x ∷ xs) =
    let (le, rest) = least-le (if less_value x first then x else first) xs in
    let (below, beside) =
      pick_le (least less_value (if less_value x first then x else first) xs) first x
        (less_value x first) refl le in
    (below, (beside, rest))

-- No row of the group is better exactly when the best of the group is not.
pub unbeaten_iff :
    (e : Entry) (group : List Entry)
    → (ltb_ℤ (best_value e group) (value_of e) ≡ false) ↔ All (λ r. value_of e ≤ℤ value_of r) group
unfolding best_value
unbeaten_iff e group = (
  λ h. All-map _ _ group (λ r le. ground arith) (least-le e group).1,
  λ h.
      let le : value_of e ≤ℤ value_of (least less_value e group) =
        least-All (λ r. value_of e ≤ℤ value_of r) less_value e group (omega arith) h in
      ground arith,
)

pub All-select {ℓ κ} :
    {A : Type ℓ} (P : A → Type κ) (p : A → Bool) (xs : List A)
    → All P (select p xs) ↔ All (λ x. p x ≡ true → P x) xs
All-select P p [] = (λ h. tt, λ h. tt)
All-select P p (x ∷ xs) = elim (Bool-cases (p x)) [
  | inl e ↦
      rw e
        (λ h. ((λ _. h.0), (All-select P p xs).0 h.1), λ h. (h.0 refl, (All-select P p xs).1 h.1))
  | inr e ↦ rw e (λ h. ((λ f. cc), (All-select P p xs).0 h), λ h. (All-select P p xs).1 h.1)
]

-- A pass that leaves the results and the outcomes alone.
pub record Keeps (f : Entry → Entry) : Type 0 where
  pub result : (e : Entry) → (f e).result ≡ e.result
  pub outcome : (e : Entry) → (f e).level.classification_outcome ≡ e.level.classification_outcome

pub Keeps-qualifies : {f : Entry → Entry} → Keeps f → (e : Entry) → qualifies (f e) ≡ qualifies e
Keeps-qualifies k e = ap (λ o. not (is_none o)) (k.outcome e)

-- The qualifying rows after a pass, for what speaks of results only.
pub All-qualifying :
    (f : Entry → Entry) (Q : ProcessedResult → Type 0) (es : List Entry)
    → Keeps f
    → All (λ r. Q r.result) (select qualifies (map f es))
      ↔ All (λ r. qualifies r ≡ true → Q r.result) es
All-qualifying f Q [] k = (λ h. tt, λ h. tt)
All-qualifying f Q (e ∷ es) k = elim (Bool-cases (qualifies e)) [
  | inl yes_e ↦
      rw (Keeps-qualifies k e, yes_e)
        (
          λ h. ((λ _. subst Q (k.result e) h.0), (All-qualifying f Q es k).0 h.1),
          λ h. (subst Q (sym (k.result e)) (h.0 refl), (All-qualifying f Q es k).1 h.1),
        )
  | inr no_e ↦
      rw (Keeps-qualifies k e, no_e)
        (λ h. ((λ t. cc), (All-qualifying f Q es k).0 h), λ h. (All-qualifying f Q es k).1 h.1)
]

pub Keeps-reset : Keeps reset
unfolding reset
Keeps-reset = record { result = λ e. refl; outcome = λ e. refl }

pub Keeps-mark_round : (scope : Text) (rows : List Entry) → Keeps (mark_round scope rows)
unfolding mark_round
Keeps-mark_round scope rows = record { result = λ e. ground arith; outcome = λ e. ground arith }

pub Keeps-mark_day : (scope : Text) (rows : List Entry) → Keeps (mark_day scope rows)
unfolding mark_day
Keeps-mark_day scope rows = record { result = λ e. ground arith; outcome = λ e. ground arith }

pub Keeps-compose : {f g : Entry → Entry} → Keeps f → Keeps g → Keeps (λ e. g (f e))
Keeps-compose {f} k l = record {
  result = λ e. l.result (f e) ∙ k.result e;
  outcome = λ e. l.outcome (f e) ∙ k.outcome e;
}
