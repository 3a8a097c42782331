-- ===== src/Timeline/Replay.antt =====
-- The replay of a timeline against its baseline: what the last incumbent is, and against what each
-- row is judged.
use cubingnow.Prelude.{
  ℤ, ◌≤ℤ◌, ◌<ℤ◌, Option, none, some, List, [], ◌∷◌, ◌++◌, Text, ◌≡◌, refl, sym, subst, ◌∙◌, ◌⊎◌,
  inl, inr, ap, arith, All,
}
use cubingnow.Models.{Outcome, broken, tied}
use cubingnow.Timeline.{Entry, value_of, compare_value, judge, advance, replay}

-- The order of cells: an empty cell is worse than every value.
infix 50 ◌≤∞◌
abbrev pub ◌≤∞◌ : Option ℤ → Option ℤ → Type 0
some a ≤∞ some b = a ≤ℤ b
none ≤∞ some b = ⊥
_ ≤∞ none = Unit

-- `cell` is the value of a row.
abbrev pub IsValueIn : Option ℤ → List Entry → Type 0
IsValueIn cell [] = ⊥
IsValueIn cell (e ∷ es) = (cell ≡ some (value_of e)) ⊎ IsValueIn cell es

-- `cell` is the best of the baseline and the rows.
pub record IsBest (base : Option ℤ) (es : List Entry) (cell : Option ℤ) : Type 0 where
  pub below_base : cell ≤∞ base
  pub below_rows : All (λ e. cell ≤∞ some (value_of e)) es
  pub attained : (cell ≡ base) ⊎ IsValueIn cell es

≤∞_refl : (a : Option ℤ) → a ≤∞ a
≤∞_refl none = tt
≤∞_refl (some a) = omega arith

≤∞_trans : (a b c : Option ℤ) → a ≤∞ b → b ≤∞ c → a ≤∞ c
≤∞_trans (some a) (some b) (some c) h k = omega arith
≤∞_trans (some a) (some b) none h k = tt
≤∞_trans (some a) none (some c) h k = absurd k
≤∞_trans (some a) none none h k = tt
≤∞_trans none (some b) c h k = absurd h
≤∞_trans none none c h k = k

-- The two ways in which a value can meet the incumbent.
advance-some :
    (a v : ℤ)
    → ((v <ℤ a) × (advance (some a) v ≡ some v)) ⊎ ((a ≤ℤ v) × (advance (some a) v ≡ some a))
unfolding advance
advance-some a v = ground arith

advance-le : (m : Option ℤ) (v : ℤ) → advance m v ≤∞ m
advance-le none v = tt
advance-le (some a) v = elim (advance-some a v) [
  | inl (less, e) ↦ rw e (omega arith)
  | inr (same, e) ↦ rw e (omega arith)
]

advance-le_value : (m : Option ℤ) (v : ℤ) → advance m v ≤∞ some v
advance-le_value none v = unfold advance in omega arith
advance-le_value (some a) v = elim (advance-some a v) [
  | inl (less, e) ↦ rw e (omega arith)
  | inr (same, e) ↦ rw e same
]

advance_attained : (m : Option ℤ) (v : ℤ) → (advance m v ≡ m) ⊎ (advance m v ≡ some v)
advance_attained none v = inr (unfold advance in refl)
advance_attained (some a) v = elim (advance-some a v) [ inl (_, e) ↦ inr e | inr (_, e) ↦ inl e ]

pub replay-append :
    (base : Option ℤ) (scope : Text) (xs ys : List Entry)
    → let (xs', m) = replay base scope xs in
      let (ys', final) = replay m scope ys in replay base scope (xs ++ ys) ≡ (xs' ++ ys', final)
unfolding replay
replay-append base scope [] ys = refl
replay-append base scope (x ∷ xs) ys = rw (replay-append (advance base (value_of x)) scope xs ys)

IsValueIn-cell : {a b : Option ℤ} (es : List Entry) → a ≡ b → IsValueIn b es → IsValueIn a es
IsValueIn-cell es e h = subst (λ c. IsValueIn c es) (sym e) h

-- The last incumbent is the best of the baseline and the rows.
pub replay-IsBest :
    (base : Option ℤ) (scope : Text) (es : List Entry) → IsBest base es (replay base scope es).1
unfolding replay
replay-IsBest base scope [] = record {
  below_base = ≤∞_refl base;
  below_rows = tt;
  attained = inl refl;
}
replay-IsBest base scope (e ∷ es) =
    let rest : IsBest (advance base (value_of e)) es
        (replay (advance base (value_of e)) scope es).1 =
      replay-IsBest (advance base (value_of e)) scope es in
    let final = (replay (advance base (value_of e)) scope es).1 in
    record {
      below_base = ≤∞_trans final _ _ rest.below_base (advance-le base (value_of e));
      below_rows = (
        ≤∞_trans final _ (some (value_of e)) rest.below_base (advance-le_value base (value_of e)),
        rest.below_rows,
      );
      attained = elim rest.attained [
        | inr found ↦ inr (inr found)
        | inl start ↦ elim (advance_attained base (value_of e)) [
          | inl kept ↦ inl (start ∙ kept)
          | inr taken ↦ inr (inl (start ∙ taken))
        ]
      ];
    }

-- What an outcome says of a value and the best value so far.
abbrev pub OutcomeFits : Outcome → ℤ → Option ℤ → Type 0
OutcomeFits broken v none = Unit
OutcomeFits broken v (some m) = v <ℤ m
OutcomeFits tied v m = m ≡ some v
OutcomeFits Outcome.none v none = ⊥
OutcomeFits Outcome.none v (some m) = m <ℤ v

compare_value_cases :
    (v m : ℤ)
    → ((v <ℤ m) × (compare_value v (some m) ≡ broken))
      ⊎ ((m ≡ v) × (compare_value v (some m) ≡ tied))
      ⊎ ((m <ℤ v) × (compare_value v (some m) ≡ Outcome.none))
unfolding compare_value
compare_value_cases v m = ground arith

pub compare_value-fits : (v : ℤ) (m : Option ℤ) → OutcomeFits (compare_value v m) v m
compare_value-fits v none = unfold compare_value in tt
compare_value-fits v (some m) = elim (compare_value_cases v m) [
  | inl (less, e) ↦ rw e less
  | inr rest ↦ elim rest [
    | inl (same, e) ↦ rw e (ap (λ (z : ℤ). some z) same)
    | inr (more, e) ↦ rw e more
  ]
]

-- Each row of a replayed timeline is judged against the best of the baseline and the rows before
-- it: its outcome is `broken` if its value beats that best, `tied` if it equals it and `none` if it
-- is worse, and that best is stored as its incumbent. The last incumbent is the best of them all.
pub replay-judges :
    (base : Option ℤ) (scope : Text) (xs : List Entry) (e : Entry) (ys : List Entry)
    → let m = (replay base scope xs).1 in
      let (rows, final) = replay base scope (xs ++ e ∷ ys) in
      IsBest base xs m
      × (rows
          ≡ (replay base scope xs).0
            ++ judge m scope e ∷ (replay (advance m (value_of e)) scope ys).0)
      × ((judge m scope e).level.incumbent_value ≡ m)
      × OutcomeFits (judge m scope e).level.classification_outcome (value_of e) m
      × IsBest base (xs ++ e ∷ ys) final
replay-judges base scope xs e ys =
    let m = (replay base scope xs).1 in
    (
      replay-IsBest base scope xs,
      ap (λ (p : List Entry × Option ℤ). p.0) (replay-append base scope xs (e ∷ ys))
          ∙ (unfold replay in refl),
      unfold judge in refl,
      unfold judge in compare_value-fits (value_of e) m,
      replay-IsBest base scope (xs ++ e ∷ ys),
    )
