-- ===== src/Reconciliation/Evidence.antt =====
-- What `_refresh_canonical_values` makes of the active observations of a result.
use cubingnow.Prelude.{
  ℕ, ℤ, pos, negsuc, eq_ℤ, Text, text, text_eq, ltb, ◌==◌, ◌&&◌, LexLe, LexLe-refl, LexLe-trans,
  Bool, true, false, not, ◌||◌, some, List, [], ◌∷◌, ◌≡◌, ◌↔◌, ◌⊎◌, refl, sym, ap, ◌∙◌, subst, inl,
  inr, arith, All, Exists, any, Bool-cases, if◌then◌else◌,
}
use cubingnow.Models.{CanonicalResult, ResultObservation, ValidationStatus}
use cubingnow.Observation.{result_trust_rank}
use cubingnow.Timeline.{least}
use cubingnow.Reconciliation.Head.{
  less_trusted, more_trusted, chosen, trusted_values, disagree, evidence_verdict, refreshed,
}

-- Results from the sources' own APIs come first, those of the CubingChina socket next, all others last.
abbrev pub trust_class : Text → ℕ
trust_class method =
    if text_eq method (text "api_polling") || text_eq method (text "graphql_subscription")
    then 2
    else if text_eq method (text "cubingchina_websocket")
    then 1
    else 0

abbrev pub evidence_key : ResultObservation → ℕ × ℕ × ℕ
evidence_key o = (trust_class o.ingestion_method, o.last_observed_at, o.pk)

-- `a` comes from as trusted a source as `b`; from an equally trusted one not before `b`; at the same
-- time, not with a smaller key.
abbrev pub AsTrusted : ResultObservation → ResultObservation → Type 0
AsTrusted a b = LexLe (evidence_key b) (evidence_key a)

-- The number that the code gives to a class.
abbrev Weighs : ℕ → ℕ → Type 0
Weighs r c = ((r ≡ 100) × (c ≡ 2)) ⊎ (((r ≡ 20) × (c ≡ 1)) ⊎ ((r ≡ 0) × (c ≡ 0)))

result_trust_rank-Weighs : (m : Text) → Weighs (result_trust_rank m) (trust_class m)
unfolding result_trust_rank
result_trust_rank-Weighs m =
    go (text_eq m (text "api_polling")) (text_eq m (text "graphql_subscription"))
      (text_eq m (text "cubingchina_websocket"))
  where
    go :
        (p q s : Bool)
        → Weighs
            (if p then 100 else if q then 100 else if s then 20 else 0)
            (if p || q then 2 else if s then 1 else 0)
    go true q s = inl (refl, refl)
    go false true s = inl (refl, refl)
    go false false true = inr (inl (refl, refl))
    go false false false = inr (inr (refl, refl))

not_less :
    (ra rb ta tb pa pb ca cb : ℕ)
    → Weighs ra ca
    → Weighs rb cb
    → (ltb ra rb || ((ra == rb) && (ltb ta tb || ((ta == tb) && ltb pa pb)))) ≡ false
    → LexLe (cb, tb, pb) (ca, ta, pa)
not_less ra rb ta tb pa pb ca cb v w h = ground arith

less_trusted-AsTrusted : (a b : ResultObservation) → less_trusted a b ≡ false → AsTrusted a b
unfolding less_trusted
less_trusted-AsTrusted a b h =
    not_less (result_trust_rank a.ingestion_method) (result_trust_rank b.ingestion_method)
      a.last_observed_at b.last_observed_at a.pk b.pk (trust_class a.ingestion_method)
      (trust_class b.ingestion_method) (result_trust_rank-Weighs a.ingestion_method)
      (result_trust_rank-Weighs b.ingestion_method) h

AsTrusted-refl : (a : ResultObservation) → AsTrusted a a
AsTrusted-refl a = LexLe-refl (evidence_key a)

AsTrusted-trans : (a b c : ResultObservation) → AsTrusted a b → AsTrusted b c → AsTrusted a c
AsTrusted-trans a b c h k = LexLe-trans (evidence_key c) (evidence_key b) (evidence_key a) k h

AsTrusted-asym : (a b : ResultObservation) → less_trusted a b ≡ true → AsTrusted b a
AsTrusted-asym a b h = less_trusted-AsTrusted b a (asym a b h)
  where
    asym : (x y : ResultObservation) → less_trusted x y ≡ true → less_trusted y x ≡ false
    asym x y k = unfold less_trusted in ground arith

better : ResultObservation → ResultObservation → ResultObservation
better a x = if more_trusted x a then x else a

better-AsTrusted : (a x : ResultObservation) → AsTrusted (better a x) a × AsTrusted (better a x) x
unfolding better
better-AsTrusted a x = elim (Bool-cases (less_trusted a x)) [
  | inl h ↦ rw h (AsTrusted-asym a x h, AsTrusted-refl x)
  | inr h ↦ rw h (AsTrusted-refl a, less_trusted-AsTrusted a x h)
]

least-AsTrusted :
    (a : ResultObservation) (xs : List ResultObservation)
    → All (AsTrusted (least more_trusted a xs)) (a ∷ xs)
unfolding least better
least-AsTrusted a [] = (AsTrusted-refl a, tt)
least-AsTrusted a (x ∷ xs) =
    let later = least-AsTrusted (better a x) xs in
    let best = least more_trusted (better a x) xs in
    (
      AsTrusted-trans best (better a x) a later.0 (better-AsTrusted a x).0,
      (AsTrusted-trans best (better a x) x later.0 (better-AsTrusted a x).1, later.1),
    )

better_one : (a x : ResultObservation) → (better a x ≡ a) ⊎ (better a x ≡ x)
unfolding better
better_one a x = elim (Bool-cases (less_trusted a x)) [
  | inl h ↦ inr (rw h refl)
  | inr h ↦ inl (rw h refl)
]

weaken :
    (a x c : ResultObservation)
    → (c ≡ a) ⊎ (c ≡ x)
    → (b : ResultObservation) (xs : List ResultObservation) → Exists (λ y. b ≡ y) (c ∷ xs)
    → Exists (λ y. b ≡ y) (a ∷ x ∷ xs)
weaken a x c (inl e) b xs (inl f) = inl (f ∙ e)
weaken a x c (inr e) b xs (inl f) = inr (inl (f ∙ e))
weaken a x c e b xs (inr later) = inr (inr later)

least-In :
    (a : ResultObservation) (xs : List ResultObservation)
    → Exists (λ x. least more_trusted a xs ≡ x) (a ∷ xs)
unfolding least better
least-In a [] = inl refl
least-In a (x ∷ xs) =
    weaken a x (better a x) (better_one a x) (least more_trusted (better a x) xs) xs
      (least-In (better a x) xs)

-- All values are one.
abbrev pub Agree : List ℤ → Type 0
Agree vs = (v : ℤ) × All (λ w. w ≡ v) vs

eq_sym : (v w : ℤ) → (not (eq_ℤ v w) ≡ false) ↔ (w ≡ v)
eq_sym (pos m) (pos n) = (λ h. ap pos (ground arith), λ h. ground arith)
eq_sym (pos m) (negsuc n) = (λ h. ground arith, λ h. cc h)
eq_sym (negsuc m) (pos n) = (λ h. ground arith, λ h. cc h)
eq_sym (negsuc m) (negsuc n) = (λ h. ap negsuc (ground arith), λ h. ground arith)

||_false : (a b : Bool) → (a || b) ≡ false → (a ≡ false) × (b ≡ false)
||_false a b h = ground arith

false_|| : (a b : Bool) → a ≡ false → b ≡ false → (a || b) ≡ false
false_|| a b h k = ground arith

agree_iff : (v : ℤ) (vs : List ℤ) → (any (λ w. not (eq_ℤ v w)) vs ≡ false) ↔ All (λ w. w ≡ v) vs
agree_iff v [] = (λ h. tt, λ h. refl)
agree_iff v (w ∷ vs) =
    let (to, from) = eq_sym v w in
    let (all_to, all_from) = agree_iff v vs in
    (
      λ h. let (x, y) = ||_false _ _ h in (to x, all_to y),
      λ (x, y). false_|| _ _ (from x) (all_from y),
    )

rejected_iff :
    (vs : List ℤ) → ((evidence_verdict vs).0 ≡ ValidationStatus.rejected) ↔ (¬ (Agree vs))
unfolding evidence_verdict disagree
rejected_iff [] = (λ h. absurd (cc h), λ h. absurd (h (pos 0, tt)))
rejected_iff (v ∷ vs) =
    let (to, from) = agree_iff v vs in
    elim (Bool-cases (any (λ w. not (eq_ℤ v w)) vs)) [
      | inl e ↦ rw e (
        λ h (w, (x, y)). cc (e, from (subst (λ (u : ℤ). All (λ z. z ≡ u) vs) (sym x) y)),
        λ h. refl,
      )
      | inr e ↦ rw e (λ h. absurd (cc h), λ h. absurd (h (v, (refl, to e))))
    ]

-- With active observations `o ∷ rest`, the refreshed head shows the value of one of them which no
-- other exceeds in the class of its source (polling and subscription over the CubingChina socket over
-- the rest), then in time of observation, then in key; and it is rejected exactly when
-- the values of its trusted observations are not all the same.
pub refreshed_lem :
    (result : CanonicalResult) (o : ResultObservation) (rest : List ResultObservation)
    → let head = refreshed result (o ∷ rest) in
      ((best : ResultObservation) × Exists (λ x. best ≡ x) (o ∷ rest)
        × All (AsTrusted best) (o ∷ rest)
        × (head.value ≡ best.value)
        × (head.current_observation ≡ some best.pk))
      × ((head.validation_status ≡ ValidationStatus.rejected)
          ↔ (¬ (Agree (trusted_values (o ∷ rest)))))
unfolding refreshed chosen
refreshed_lem result o rest = (
  (least more_trusted o rest, least-In o rest, least-AsTrusted o rest, refl, refl),
  rejected_iff (trusted_values (o ∷ rest)),
)
