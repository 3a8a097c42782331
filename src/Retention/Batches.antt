-- ===== src/Retention/Batches.antt =====
-- What one batch of a purge leaves.
use cubingnow.Prelude.{
  ℕ, zero, suc, ◌+◌, ◌≤◌, Bool, true, false, not, ◌||◌, Option, none, some, List, [], ◌∷◌, ◌≡◌, ◌≢◌,
  refl, sym, ap, ◌∙◌, subst, inl, inr, arith, All, All-map, Exists, Bool-cases, if◌then◌else◌, leb,
  ◌==◌, select, take, length,
}
use cubingnow.Retention.{
  SourceObservation, is_in, is_expired, insert_pk, sort_pks, pks_of, expired_ids, cleared_at,
}

abbrev pub HasUniqueKeys : List SourceObservation → Type 0
HasUniqueKeys [] = Unit
HasUniqueKeys (f ∷ fs) = All (λ (x : SourceObservation). x.pk ≢ f.pk) fs × HasUniqueKeys fs

All-intro {ℓ κ} : {A : Type ℓ} (P : A → Type κ) (xs : List A) → ((x : A) → P x) → All P xs
All-intro P [] h = tt
All-intro P (x ∷ xs) h = (h x, All-intro P xs h)

All-both {ℓ κ μ ν} :
    {A : Type ℓ} (P : A → Type κ) (Q : A → Type μ) (R : A → Type ν) (xs : List A)
    → ((x : A) → P x → Q x → R x)
    → All P xs
    → All Q xs
    → All R xs
All-both P Q R [] h p q = tt
All-both P Q R (x ∷ xs) h p q = (h x p.0 q.0, All-both P Q R xs h p.1 q.1)

select-All {ℓ κ} :
    {A : Type ℓ} (P : A → Type κ) (p : A → Bool) (xs : List A) → All P xs → All P (select p xs)
select-All P p [] h = tt
select-All P p (x ∷ xs) h = elim (Bool-cases (p x)) [
  | inl e ↦ rw e (h.0, select-All P p xs h.1)
  | inr e ↦ rw e (select-All P p xs h.1)
]

pub select-HasUniqueKeys :
    (p : SourceObservation → Bool) (fs : List SourceObservation)
    → HasUniqueKeys fs
    → HasUniqueKeys (select p fs)
select-HasUniqueKeys p [] h = tt
select-HasUniqueKeys p (f ∷ fs) h = elim (Bool-cases (p f)) [
  | inl e ↦ rw e (select-All (λ x. x.pk ≢ f.pk) p fs h.0, select-HasUniqueKeys p fs h.1)
  | inr e ↦ rw e (select-HasUniqueKeys p fs h.1)
]

module _ (cutoff : ℕ) where
  abbrev exp : SourceObservation → Bool
  exp = is_expired cutoff

  abbrev pub IsNamed : List SourceObservation → ℕ → Type 0
  IsNamed fs k = Exists (λ f. (f.pk ≡ k) × (exp f ≡ true)) fs

  pks_of-IsNamed : (fs : List SourceObservation) → All (IsNamed fs) (pks_of cutoff fs)
  pks_of-IsNamed [] = tt
  pks_of-IsNamed (f ∷ fs) =
      let later =
        All-map (IsNamed fs) (IsNamed (f ∷ fs)) (pks_of cutoff fs) (λ k h. inr h)
          (pks_of-IsNamed fs) in
      elim (Bool-cases (exp f)) [ inl e ↦ rw e (inl (refl, e), later) | inr e ↦ rw e later ]

  insert_pk-All : (P : ℕ → Type 0) (k : ℕ) (ks : List ℕ) → P k → All P ks → All P (insert_pk k ks)
  unfolding insert_pk
  insert_pk-All P k [] h hs = (h, tt)
  insert_pk-All P k (x ∷ xs) h hs = elim (Bool-cases (leb k x)) [
    | inl e ↦ rw e (h, hs)
    | inr e ↦ rw e (hs.0, insert_pk-All P k xs h hs.1)
  ]

  sort_pks-All : (P : ℕ → Type 0) (ks : List ℕ) → All P ks → All P (sort_pks ks)
  unfolding sort_pks
  sort_pks-All P [] h = tt
  sort_pks-All P (k ∷ ks) h = insert_pk-All P k (sort_pks ks) h.0 (sort_pks-All P ks h.1)

  take-All : (P : ℕ → Type 0) (n : ℕ) (ks : List ℕ) → All P ks → All P (take n ks)
  take-All P zero ks h = tt
  take-All P (suc n) [] h = tt
  take-All P (suc n) (k ∷ ks) h = (h.0, take-All P n ks h.1)

  pub expired_ids-IsNamed :
      (n : ℕ) (fs : List SourceObservation) → All (IsNamed fs) (expired_ids cutoff n fs)
  unfolding expired_ids
  expired_ids-IsNamed n fs =
      take-All (IsNamed fs) n _ (sort_pks-All (IsNamed fs) _ (pks_of-IsNamed fs))

  -- A batch is empty only if nothing has expired.
  insert_pk-some : (k : ℕ) (ks : List ℕ) → insert_pk k ks ≢ []
  unfolding insert_pk
  insert_pk-some k [] = λ e. cc e
  insert_pk-some k (x ∷ xs) = either (leb k x)
    where
      either : (b : Bool) → (if b then k ∷ x ∷ xs else x ∷ insert_pk k xs) ≢ []
      either true e = cc e
      either false e = cc e

  pub expired_ids-none :
      (n : ℕ) (fs : List SourceObservation)
      → expired_ids cutoff (suc n) fs ≡ []
      → pks_of cutoff fs ≡ []
  unfolding expired_ids sort_pks
  expired_ids-none n fs e = go (pks_of cutoff fs) (taken (sort_pks (pks_of cutoff fs)) e)
    where
      taken : (ks : List ℕ) → take (suc n) ks ≡ [] → ks ≡ []
      taken [] h = refl
      taken (k ∷ ks) h = absurd (cc h)

      go : (ks : List ℕ) → sort_pks ks ≡ [] → ks ≡ []
      go [] h = refl
      go (k ∷ ks) h = absurd (insert_pk-some k (sort_pks ks) h)

  -- Only the frame that is named has the key.
  named-expired :
      (k : ℕ) (fs : List SourceObservation)
      → HasUniqueKeys fs
      → IsNamed fs k
      → All (λ f. (f.pk ≡ k) → exp f ≡ true) fs
  named-expired k [] unique h = absurd h
  named-expired k (f ∷ fs) unique (inl (key, e)) = (
    λ _. e,
    All-map (λ (x : SourceObservation). x.pk ≢ f.pk) (λ x. (x.pk ≡ k) → exp x ≡ true) fs
        (λ x other same. absurd (other (same ∙ sym key))) unique.0,
  )
  named-expired k (f ∷ fs) unique (inr h) =
      (λ same. absurd (other fs unique.0 h same), named-expired k fs unique.1 h)
    where
      other :
          (xs : List SourceObservation)
          → All (λ (x : SourceObservation). x.pk ≢ f.pk) xs
          → IsNamed xs k
          → f.pk ≢ k
      other [] a i same = i
      other (x ∷ xs) a (inl (key, _)) same = a.0 (key ∙ sym same)
      other (x ∷ xs) a (inr i) same = other xs a.1 i same

  abbrev pub Expires : List ℕ → SourceObservation → Type 0
  Expires ks f = is_in f.pk ks ≡ true → exp f ≡ true

  pub deleted-expired :
      (ks : List ℕ) (fs : List SourceObservation)
      → HasUniqueKeys fs
      → All (IsNamed fs) ks
      → All (Expires ks) fs
  deleted-expired [] fs unique named = All-intro (Expires []) fs (λ f h. absurd (cc h))
  deleted-expired (k ∷ ks) fs unique named =
      All-both (λ f. (f.pk ≡ k) → exp f ≡ true) (Expires ks) (Expires (k ∷ ks)) fs
        (λ f here there h. elim (Bool-cases (k == f.pk)) [
          | inl e ↦ here (ground arith)
          | inr e ↦ there (ground arith)
        ])
        (named-expired k fs unique named.0) (deleted-expired ks fs unique named.1)

  abbrev pub left : List ℕ → List SourceObservation → List SourceObservation
  left ks fs = select (λ f. not (is_in f.pk ks)) fs

  abbrev pub gone : List ℕ → List SourceObservation → List SourceObservation
  gone ks fs = select (λ f. is_in f.pk ks) fs

  abbrev pub expired : List SourceObservation → List SourceObservation
  expired fs = select exp fs

  abbrev pub fresh : List SourceObservation → List SourceObservation
  fresh fs = select (λ f. not (exp f)) fs

  pub expired-left :
      (ks : List ℕ) (fs : List SourceObservation)
      → All (Expires ks) fs
      → length (expired (left ks fs)) + length (gone ks fs) ≡ length (expired fs)
  expired-left ks [] h = refl
  expired-left ks (f ∷ fs) h =
      let later = expired-left ks fs h.1 in
      elim (Bool-cases (is_in f.pk ks)) [
        | inl i ↦ rw (i, h.0 i) (omega (arith, later))
        | inr i ↦ elim (Bool-cases (exp f)) [
          | inl e ↦ rw (i, e) (omega (arith, later))
          | inr e ↦ rw (i, e) (omega (arith, later))
        ]
      ]

  pub fresh-left :
      (ks : List ℕ) (fs : List SourceObservation)
      → All (Expires ks) fs
      → fresh (left ks fs) ≡ fresh fs
  fresh-left ks [] h = refl
  fresh-left ks (f ∷ fs) h =
      let later = fresh-left ks fs h.1 in
      elim (Bool-cases (is_in f.pk ks)) [
        | inl i ↦ rw (i, h.0 i) later
        | inr i ↦ elim (Bool-cases (exp f)) [
          | inl e ↦ rw (i, e) later
          | inr e ↦ rw (i, e) (ap (λ xs. f ∷ xs) later)
        ]
      ]

  pub gone-some :
      (k : ℕ) (ks : List ℕ) (fs : List SourceObservation)
      → IsNamed fs k
      → 1 ≤ length (gone (k ∷ ks) fs)
  gone-some k ks [] h = absurd h
  gone-some k ks (f ∷ fs) (inl (key, _)) =
      let same : (k == f.pk) ≡ true = ground arith in rw same (omega arith)
  gone-some k ks (f ∷ fs) (inr h) =
      let later = gone-some k ks fs h in
      elim (Bool-cases ((k == f.pk) || is_in f.pk ks)) [
        | inl e ↦ rw e (omega arith)
        | inr e ↦ rw e later
      ]

  named-is_in :
      (k : ℕ) (fs : List SourceObservation) → IsNamed fs k → is_in k (pks_of cutoff fs) ≡ true
  named-is_in k [] h = absurd h
  named-is_in k (f ∷ fs) (inl (key, e)) =
      let same : (f.pk == k) ≡ true = ground arith in rw (e, same) refl
  named-is_in k (f ∷ fs) (inr h) =
      let later = named-is_in k fs h in
      elim (Bool-cases (exp f)) [
        | inl e ↦ elim (Bool-cases (f.pk == k)) [ inl b ↦ rw (e, b) refl | inr b ↦ rw (e, b) later ]
        | inr e ↦ rw e later
      ]

  is_in-named :
      (k : ℕ) (ks : List ℕ) (fs : List SourceObservation)
      → All (IsNamed fs) ks
      → is_in k ks ≡ true
      → is_in k (pks_of cutoff fs) ≡ true
  is_in-named k [] fs named h = absurd (cc h)
  is_in-named k (x ∷ ks) fs named h = elim (Bool-cases (x == k)) [
    | inl e ↦
        let same : x ≡ k = ground arith in
        subst (λ y. is_in y (pks_of cutoff fs) ≡ true) same (named-is_in x fs named.0)
    | inr e ↦ is_in-named k ks fs named.1 (ground arith)
  ]

  is_in-left :
      (k : ℕ) (ks : List ℕ) (fs : List SourceObservation)
      → is_in k ks ≡ false
      → is_in k (pks_of cutoff (left ks fs)) ≡ is_in k (pks_of cutoff fs)
  is_in-left k ks [] h = refl
  is_in-left k ks (f ∷ fs) h =
      let later = is_in-left k ks fs h in
      elim (Bool-cases (is_in f.pk ks)) [
        | inr i ↦ elim (Bool-cases (exp f)) [
          | inl e ↦ rw (i, e) (ap (λ b. (f.pk == k) || b) later)
          | inr e ↦ rw (i, e) later
        ]
        | inl i ↦
            let other : (f.pk == k) ≡ false = elim (Bool-cases (f.pk == k)) [
              | inr b ↦ b
              | inl b ↦
                  let same : f.pk ≡ k = ground arith in
                  absurd (cc (subst (λ y. is_in y ks ≡ true) same i, h))
            ] in
            elim (Bool-cases (exp f)) [ inl e ↦ rw (i, e, other) later | inr e ↦ rw (i, e) later ]
      ]

  pub cleared_at-left :
      (ks : List ℕ) (fs : List SourceObservation) (raw : Option ℕ)
      → All (IsNamed fs) ks
      → cleared_at (pks_of cutoff (left ks fs)) (cleared_at ks raw)
        ≡ cleared_at (pks_of cutoff fs) raw
  cleared_at-left ks fs none named = refl
  cleared_at-left ks fs (some k) named = elim (Bool-cases (is_in k ks)) [
    | inl i ↦ rw (i, is_in-named k ks fs named i) refl
    | inr i ↦ rw (i, is_in-left k ks fs i) refl
  ]
